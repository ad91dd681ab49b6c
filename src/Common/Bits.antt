-- ===== src/Common/Bits.antt =====
-- Masks of operations at variables: `bit_and` and `bit_or` from their recursion over the digits,
-- and a check of all values of a small range.
use Prim.Native.Nat.{
  ℕ, zero, suc, ◌+◌, ◌*◌, ◌/◌, ◌%◌, ◌≤◌, ◌<◌, min, max, bit_and, bit_or, digits, bit_and-bitwise,
  bit_or-bitwise,
}
use mathlib.Core.Path.{◌≡◌, refl}
use mathlib.Core.Bool.{Bool, true, ◌&&◌}
use native.Mathlib.Omega.{arith}

-- Fuel that covers the left operand is enough, whatever the rule for one digit.
module _ (rest : ℕ → ℕ) (rule : ℕ → ℕ → ℕ) where
  digits_enough : (f g x y : ℕ) → x ≤ f → x ≤ g → digits rest rule f x y ≡ digits rest rule g x y
  digits_enough zero zero x y u v = refl
  digits_enough (suc f) (suc g) zero y u v = refl
  digits_enough (suc f) (suc g) (suc x) y u v =
      let half : suc x / 2 ≤ x = omega arith in
      omega (arith, digits_enough f g (suc x / 2) (y / 2) (omega arith) (omega arith))
  digits_enough zero (suc g) zero y u v = refl
  digits_enough zero (suc g) (suc x) y u v = absurd (omega arith)
  digits_enough (suc f) zero zero y u v = refl
  digits_enough (suc f) zero (suc x) y u v = absurd (omega arith)

pub bit_and_halves : (x y : ℕ) → bit_and x y ≡ min (x % 2) (y % 2) + 2 * bit_and (x / 2) (y / 2)
bit_and_halves zero y = omega (arith, bit_and-bitwise 0 y, bit_and-bitwise 0 (y / 2))
bit_and_halves (suc x) y =
    let h = suc x / 2 in
    let same = digits_enough (λ _. 0) min x h h (y / 2) (omega arith) (omega arith) in
    omega (arith, same, bit_and-bitwise h (y / 2), bit_and-bitwise (suc x) y)

pub bit_or_halves : (x y : ℕ) → bit_or x y ≡ max (x % 2) (y % 2) + 2 * bit_or (x / 2) (y / 2)
bit_or_halves zero y = omega (arith, bit_or-bitwise 0 y, bit_or-bitwise 0 (y / 2))
bit_or_halves (suc x) y =
    let h = suc x / 2 in
    let same = digits_enough (λ t. t) max x h h (y / 2) (omega arith) (omega arith) in
    omega (arith, same, bit_or-bitwise h (y / 2), bit_or-bitwise (suc x) y)

no_bits_upto : (f x : ℕ) → x ≤ f → bit_and x 0 ≡ 0
no_bits_upto f zero h = refl
no_bits_upto zero (suc x) h = elim h [ ]
no_bits_upto (suc f) (suc x) h =
    let smaller = no_bits_upto f (suc x / 2) (omega arith) in
    omega (arith, smaller, bit_and_halves (suc x) 0)

-- Each bit that an operation mask can have, and all six of them.
pub bit_and-1 : (x : ℕ) → bit_and x 1 ≡ x % 2
bit_and-1 x = omega (arith, bit_and_halves x 1, no_bits_upto (x / 2) (x / 2))

pub bit_and-2 : (x : ℕ) → bit_and x 2 ≡ 2 * (x / 2 % 2)
bit_and-2 x = omega (arith, bit_and_halves x 2, bit_and-1 (x / 2))

pub bit_and-4 : (x : ℕ) → bit_and x 4 ≡ 4 * (x / 4 % 2)
bit_and-4 x = omega (arith, bit_and_halves x 4, bit_and-2 (x / 2))

pub bit_and-8 : (x : ℕ) → bit_and x 8 ≡ 8 * (x / 8 % 2)
bit_and-8 x = omega (arith, bit_and_halves x 8, bit_and-4 (x / 2))

pub bit_and-16 : (x : ℕ) → bit_and x 16 ≡ 16 * (x / 16 % 2)
bit_and-16 x = omega (arith, bit_and_halves x 16, bit_and-8 (x / 2))

pub bit_and-32 : (x : ℕ) → bit_and x 32 ≡ 32 * (x / 32 % 2)
bit_and-32 x = omega (arith, bit_and_halves x 32, bit_and-16 (x / 2))

pub bit_and-63 : (x : ℕ) → bit_and x 63 ≡ x % 64
bit_and-63 x =
    let q = x / 2 / 2 in
    omega (
      arith,
      bit_and_halves x 63,
      bit_and_halves (x / 2) 31,
      bit_and_halves q 15,
      bit_and_halves (q / 2) 7,
      bit_and_halves (q / 2 / 2) 3,
      bit_and-1 (q / 2 / 2 / 2),
    )

or_nothing_upto : (f x : ℕ) → x ≤ f → bit_or x 0 ≡ x
or_nothing_upto f zero h = refl
or_nothing_upto zero (suc x) h = elim h [ ]
or_nothing_upto (suc f) (suc x) h =
    let smaller = or_nothing_upto f (suc x / 2) (omega arith) in
    omega (arith, smaller, bit_or_halves (suc x) 0)

-- Setting the sixth bit sets it and leaves the five below it and all above it alone.
pub bit_or-32 :
    (x : ℕ) → (bit_or x 32 % 32 ≡ x % 32) × (bit_or x 32 / 32 % 2 ≡ 1) × (bit_or x 32 / 64 ≡ x / 64)
bit_or-32 x =
    let q = x / 2 / 2 in
    let top = q / 2 / 2 / 2 in
    let high = bit_or_halves top 1 in
    omega (
      arith,
      bit_or_halves x 32,
      bit_or_halves (x / 2) 16,
      bit_or_halves q 8,
      bit_or_halves (q / 2) 4,
      bit_or_halves (q / 2 / 2) 2,
      high,
      or_nothing_upto (top / 2) (top / 2),
    )

-- A test of every number below a bound.
unfoldable pub every_below : ℕ → (ℕ → Bool) → Bool
every_below zero test = true
every_below (suc n) test = every_below n test && test n

pub every_below-at :
    (n : ℕ) (test : ℕ → Bool) (x : ℕ) → x < n → every_below n test ≡ true → test x ≡ true
unfolding every_below
every_below-at zero test x below h = elim below [ ]
every_below-at (suc n) test x below h = ground (arith, every_below-at n test x)
