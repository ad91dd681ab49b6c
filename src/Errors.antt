-- ===== src/Errors.antt =====
-- The errors that the program makes or tests, and results that may be one of them. `os_error` is
-- any error of the operating system, by its number.
use go_gaze.Common.{ℕ, ◌≡◌, refl, arith, Bytes}

pub data Error : Type 0 where
  watcher_closed os_not_exist os_closed empty_path too_many_configs : Error
  invalid_glob : Bytes → Error
  symlink_root : Bytes → Error
  excluded_root : Bytes → Error
  handler_panic : Bytes → Error
  os_error : ℕ → Error
  joined : Error → Error → Error

-- What a Go function with results (A, error) returns.
pub data Result {κ} (R : Type κ) : Type κ where
  err : Error → Result R
  ok : R → Result R

infixl 6 ◌>>=◌
abbrev pub ◌>>=◌ {κ ι} : {R : Type κ} {S : Type ι} → Result R → (R → Result S) → Result S
err failure >>= rest = err failure
ok value >>= rest = rest value

-- A chain that returned a value has a first step that did.
pub bind_result {κ ι} :
    {R : Type κ} {S : Type ι} (chain : Result R) (rest : R → Result S) {last : S}
    → (chain >>= rest) ≡ ok last
    → (value : R) × (chain ≡ ok value) × (rest value ≡ ok last)
bind_result (ok value) rest h = (value, refl, h)
bind_result (err failure) rest h = ground arith
