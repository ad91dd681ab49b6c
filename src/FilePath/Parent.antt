-- ===== src/FilePath/Parent.antt =====
-- internal/utils/path.go: ParentDir cuts a path at its last separator.
use go_gaze.Common.{
  ℕ, ◌≡◌, refl, ap, ◌≢◌, ◌⊎◌, inl, inr, none, some, [], ◌∷◌, ◌++◌, arith, Bytes, ◌==◌, nat_eq,
  bytes_eq, Bool-cases, length, take-append,
}
use go_gaze.FilePath.{separator, dot, last_index_byte, parent_dir}

-- The byte does not occur.
abbrev pub Avoids : ℕ → Bytes → Type 0
Avoids c [] = Unit
Avoids c (x ∷ s) = (x ≢ c) × Avoids c s

pub last_index_byte-Avoids : (c : ℕ) (s : Bytes) → Avoids c s → last_index_byte s c ≡ none
unfolding last_index_byte
last_index_byte-Avoids c [] h = refl
last_index_byte-Avoids c (x ∷ s) h = rw (last_index_byte-Avoids c s h.1) (ground arith)

pub last_index_byte-append :
    (c : ℕ) (a b : Bytes) → Avoids c b → last_index_byte (a ++ c ∷ b) c ≡ some (length a)
unfolding last_index_byte
last_index_byte-append c [] b h = rw (last_index_byte-Avoids c b h) (ground arith)
last_index_byte-append c (x ∷ a) b h = rw (last_index_byte-append c a b h) refl

-- A path splits at its last separator, if it has one.
pub split_last :
    (c : ℕ) (s : Bytes) → Avoids c s ⊎ ((a : Bytes) × (b : Bytes) × (s ≡ a ++ c ∷ b) × Avoids c b)
split_last c [] = inl tt
split_last c (x ∷ s) = elim (split_last c s) [
  | inl h ↦ elim (Bool-cases (x == c)) [
    | inl e ↦ inr ([], s, ground arith, h)
    | inr e ↦ inl (ground arith, h)
  ]
  | inr (a, b, e, h) ↦ inr (x ∷ a, b, ap (λ t. x ∷ t) e, h)
]

abbrev pub current_dir : Bytes
current_dir = dot ∷ []

abbrev pub root_dir : Bytes
root_dir = separator ∷ []

pub parent_dir-Avoids : (s : Bytes) → Avoids separator s → parent_dir s ≡ current_dir
unfolding parent_dir
parent_dir-Avoids s h = rw (last_index_byte-Avoids separator s h) refl

pub parent_dir-top : (b : Bytes) → Avoids separator b → parent_dir (separator ∷ b) ≡ root_dir
unfolding parent_dir
parent_dir-top b h = rw (last_index_byte-append separator [] b h) refl

pub parent_dir-append :
    (c : ℕ) (a b : Bytes) → Avoids separator b → parent_dir ((c ∷ a) ++ separator ∷ b) ≡ c ∷ a
unfolding parent_dir
parent_dir-append c a b h =
    rw (last_index_byte-append separator (c ∷ a) b h) (take-append (c ∷ a) _)
