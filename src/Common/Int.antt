-- ===== src/Common/Int.antt =====
-- Go's `int` where the program compares one that a caller chose: a signed number.
use go_gaze.Common.Tests.{leb}
use Prim.Native.Nat.{ℕ, max}
use mathlib.Core.Bool.{Bool, true}

-- `negsuc n` is -(n + 1).
pub data ℤ : Type 0 where
  pos : ℕ → ℤ
  negsuc : ℕ → ℤ

-- i <= n
abbrev pub leb_ℤ : ℤ → ℕ → Bool
leb_ℤ (pos m) n = leb m n
leb_ℤ (negsuc m) n = true

-- max(i, n) for a bound that is not negative.
abbrev pub max_ℤ : ℤ → ℕ → ℕ
max_ℤ (pos m) n = max m n
max_ℤ (negsuc m) n = n
