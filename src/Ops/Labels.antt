-- ===== src/Ops/Labels.antt =====
-- types.go: the label table against a description that has no buffer and no table.
use Prim.Native.Nat.{bit_and}
use mathlib.Core.Option
use go_gaze.Common.{
  nat_beq_iff, ℕ, ◌+◌, ◌/◌, ◌%◌, ◌<◌, ◌≡◌, refl, ◌∙◌, ap, Bool, true, false, Option, none, some,
  List, [], ◌∷◌, ◌++◌, Bytes, codes, arith, ◌==◌, nat_eq, bytes_eq, bytes_beq, bytes_beq_iff, leb,
  Bool-cases, if◌then◌else◌, inl, inr,
}
use go_gaze.Common.Bits.{every_below, every_below-at, bit_and-63}
use go_gaze.Ops.{Op, all_ops, op_entry, op_string, no_ops, bar}

-- The names of the operations whose bit is set, from the lowest bit up.
named_bits : ℕ → List (ℕ × Bytes) → List Bytes
named_bits o [] = []
named_bits o ((weight, name) ∷ rest) =
    let names = named_bits o rest in if o / weight % 2 == 1 then name ∷ names else names

abbrev weights : List (ℕ × Bytes)
weights =
    (1, codes "create")
    ∷ (2, codes "write")
    ∷ (4, codes "remove")
    ∷ (8, codes "rename")
    ∷ (16, codes "chmod")
    ∷ (32, codes "overflow")
    ∷ []

join_names : List Bytes → Bytes
join_names [] = no_ops
join_names (name ∷ []) = name
join_names (name ∷ more ∷ rest) = name ++ bar ∷ join_names (more ∷ rest)

pub describe : Op → Bytes
unfolding named_bits join_names
describe o = join_names (named_bits o weights)

is_label : Option Bytes → Bytes → Bool
is_label none label = false
is_label (some s) label = s == label

is_label_sound : (o : Option Bytes) (label : Bytes) → is_label o label ≡ true → o ≡ some label
unfolding is_label
is_label_sound none label h = ground arith
is_label_sound (some s) label h = ap some ((bytes_beq_iff s label).0 h)

table_checked : every_below 64 (λ x. is_label (op_entry x) (describe x)) ≡ true
unfolding every_below is_label op_entry describe bytes_beq
table_checked = refl

op_entry-describe : (x : Op) → x < 64 → op_entry x ≡ some (describe x)
op_entry-describe x h =
    is_label_sound (op_entry x) (describe x)
      (every_below-at 64 (λ x. is_label (op_entry x) (describe x)) x h table_checked)

named_bits-low : (o : Op) → named_bits (o % 64) weights ≡ named_bits o weights
unfolding named_bits
named_bits-low o =
    let b1 : o % 64 / 1 % 2 ≡ o / 1 % 2 = omega arith in
    let b2 : o % 64 / 2 % 2 ≡ o / 2 % 2 = omega arith in
    let b4 : o % 64 / 4 % 2 ≡ o / 4 % 2 = omega arith in
    let b8 : o % 64 / 8 % 2 ≡ o / 8 % 2 = omega arith in
    let b16 : o % 64 / 16 % 2 ≡ o / 16 % 2 = omega arith in
    let b32 : o % 64 / 32 % 2 ≡ o / 32 % 2 = omega arith in rw (b1, b2, b4, b8, b16, b32) refl

describe-low : (o : Op) → describe (o % 64) ≡ describe o
unfolding describe
describe-low o = ap join_names (named_bits-low o)

op_string-branches :
    (o : Op)
    → op_string o ≡ (
        if leb o all_ops
        then op_entry o
        else if bit_and o all_ops == 0
        then op_entry 0
        else op_entry (bit_and o all_ops))
unfolding op_string
op_string-branches o = refl

op_string-low : (o : Op) → op_string o ≡ op_entry (o % 64)
op_string-low o = op_string-branches o ∙ elim (Bool-cases (leb o all_ops)) [
  | inl small ↦ let same : o % 64 ≡ o = ground arith in rw (small, same) refl
  | inr large ↦ rw large (ground (arith, bit_and-63 o))
]

-- String returns, for every mask, the names of its operations from the lowest bit up, with bars
-- between them, or "none": no write goes past the 48 bytes of the buffer, no name is cut, and no
-- index leaves the table.
pub op_string-eq-describe : (o : Op) → op_string o ≡ some (describe o)
op_string-eq-describe o =
    op_string-low o ∙ (op_entry-describe (o % 64) (omega arith) ∙ ap some (describe-low o))

-- The masks that a label names, by its parts between bars.
weight_of : Bytes → List (ℕ × Bytes) → ℕ
weight_of word [] = 0
weight_of word ((weight, name) ∷ rest) = if word == name then weight else weight_of word rest

mask_from : Bytes → Bytes → ℕ
unfolding weight_of
mask_from word [] = weight_of word weights
mask_from word (c ∷ label) =
    let next = mask_from [] label in
    let more = mask_from (word ++ c ∷ []) label in
    if c == bar then weight_of word weights + next else more

pub mask_of : Bytes → Op
unfolding mask_from
mask_of label = mask_from [] label

masks_checked : every_below 64 (λ x. mask_of (describe x) == x) ≡ true
unfolding every_below mask_of describe bytes_beq
masks_checked = refl

-- The label of a mask names exactly its six known bits: reading the label back gives the mask
-- without its unknown bits.
pub op_string-mask_of : (o : Op) → Option.map mask_of (op_string o) ≡ some (o % 64)
op_string-mask_of o =
    rw (op_string-low, op_entry-describe (o % 64) (omega arith))
      (unfold Option.map in
        ap some (
          (nat_beq_iff _ _).0 (
            every_below-at 64 (λ x. mask_of (describe x) == x) (o % 64) (omega arith)
              masks_checked)))
