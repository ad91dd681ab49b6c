-- ===== src/Darwin/Renames.antt =====
-- internal/backend/backend_darwin.go: which entries of the two diffs emitRenamesFromDiff takes for
-- renames.
use go_gaze.Common.{
  suc, ◌≡◌, refl, subst, true, false, none, some, [], ◌∷◌, arith, Bytes, ◌==◌, bytes_eq,
  bytes_beq_iff, length, Bool-cases, inl, inr,
}
use go_gaze.Common.Assoc.{lookup, delete, has, Distinct, lookup-has}
use go_gaze.Darwin.{EntryMeta, Snapshot}
use go_gaze.Darwin.Scanning.{is_moved, find_moved}

pub find_moved-found :
    (old : EntryMeta) (added : Snapshot) (name : Bytes)
    → Distinct added
    → find_moved old added ≡ some name
    → (new : EntryMeta) × (lookup name added ≡ some new) × (is_moved old new ≡ true)
unfolding find_moved lookup has
find_moved-found old [] name d e = absurd (ground (arith, e))
find_moved-found old ((n, new) ∷ added) name d e = elim (Bool-cases (is_moved old new)) [
  | inl m ↦ (new, ground (arith, e, m, bytes_beq_iff n name), m)
  | inr m ↦
      let (new', at, moved) = find_moved-found old added name d.1 (ground (arith, e, m)) in
      (new', ground (arith, at, d.0, lookup-has name added new' at, bytes_beq_iff n name), moved)
]

pub find_moved-none :
    (old : EntryMeta) (added : Snapshot) (name : Bytes) (new : EntryMeta)
    → find_moved old added ≡ none
    → lookup name added ≡ some new
    → is_moved old new ≡ false
unfolding find_moved lookup
find_moved-none old [] name new e at = ground (arith, at)
find_moved-none old ((n, m) ∷ added) name new e at =
    ground (arith, e, at, find_moved-none old added name new)

delete_absent :
    (name : Bytes) (m : Snapshot) → has name m ≡ false → length (delete name m) ≡ length m
unfolding delete has
delete_absent name [] h = refl
delete_absent name ((n, v) ∷ m) h = ground (arith, h, delete_absent name m)

pub length-delete :
    (name : Bytes) (m : Snapshot)
    → Distinct m
    → has name m ≡ true
    → length m ≡ suc (length (delete name m))
unfolding delete has
length-delete name [] d h = absurd (ground (arith, h))
length-delete name ((n, v) ∷ m) d h = elim (Bool-cases (n == name)) [
  | inl same ↦ ground (
    arith,
    same,
    delete_absent name m (subst (λ k. has k m ≡ false) ((bytes_beq_iff n name).0 same) d.0),
  )
  | inr other ↦ ground (arith, other, length-delete name m d.1 (ground (arith, h, other)))
]
