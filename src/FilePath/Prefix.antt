-- ===== src/FilePath/Prefix.antt =====
-- internal/utils/path.go: HasPathPrefix and JoinMovedPath against the structure of the paths.
use go_gaze.Common.{
  ℕ, ◌≡◌, refl, ap, ◌≢◌, ◌↔◌, ◌⊎◌, inl, inr, Bool, true, false, ◌&&◌, [], ◌∷◌, ◌++◌, arith, Bytes,
  ◌==◌, nat_eq, bytes_eq, bytes_beq, bytes_beq_iff, bytes_beq_refl, length, length-append,
  drop-append,
}
use go_gaze.FilePath.{separator, has_path_prefix, join_moved_path}

-- `prefix` itself, or `prefix`, a separator and more: HasPathPrefix by recursion on both.
unfoldable pub below : Bytes → Bytes → Bool
below [] [] = true
below (c ∷ p) [] = c == separator
below [] (x ∷ q) = false
below (c ∷ p) (x ∷ q) = c == x && below p q

pub has_path_prefix-eq-below : (p q : Bytes) → has_path_prefix p q ≡ below p q
unfolding has_path_prefix below bytes_beq
has_path_prefix-eq-below [] [] = refl
has_path_prefix-eq-below (c ∷ p) [] = ground arith
has_path_prefix-eq-below [] (x ∷ q) = ground arith
has_path_prefix-eq-below (c ∷ p) (x ∷ q) = ground (arith, has_path_prefix-eq-below p q)

pub below-append : (q rest : Bytes) → below (q ++ separator ∷ rest) q ≡ true
unfolding below
below-append [] rest = refl
below-append (x ∷ q) rest = ground (arith, below-append q rest)

pub below_refl : (q : Bytes) → below q q ≡ true
unfolding below
below_refl [] = refl
below_refl (x ∷ q) = ground (arith, below_refl q)

below_cases :
    (p q : Bytes) → below p q ≡ true → (p ≡ q) ⊎ ((rest : Bytes) × (p ≡ q ++ separator ∷ rest))
unfolding below
below_cases [] [] h = inl refl
below_cases (c ∷ p) [] h = inr (p, ground arith)
below_cases [] (x ∷ q) h = ground arith
below_cases (c ∷ p) (x ∷ q) h = elim (below_cases p q (ground arith)) [
  | inl e ↦ inl (ground arith)
  | inr (rest, e) ↦ inr (rest, ground arith)
]

-- A path has a prefix exactly when it equals the prefix, or is the prefix, a separator and any rest.
pub has_path_prefix_iff :
    (path prefix : Bytes)
    → (has_path_prefix path prefix ≡ true)
      ↔ ((path ≡ prefix) ⊎ ((rest : Bytes) × (path ≡ prefix ++ separator ∷ rest)))
has_path_prefix_iff p q = rw has_path_prefix-eq-below (
  below_cases p q,
  λ s. elim s [ inl e ↦ rw e (below_refl q) | inr (rest, e) ↦ rw e (below-append q rest) ],
)

longer_ne : (q rest : Bytes) → q ++ separator ∷ rest ≢ q
longer_ne q rest e = omega (arith, ap length e, length-append {0} q (separator ∷ rest))

join-below :
    (q new rest : Bytes) → join_moved_path (q ++ separator ∷ rest) q new ≡ new ++ separator ∷ rest
unfolding join_moved_path
join-below q new rest = ground (
  arith,
  longer_ne q rest,
  bytes_beq_iff (q ++ separator ∷ rest) q,
  drop-append q (separator ∷ rest),
)

pub join_self : (q new : Bytes) → join_moved_path q q new ≡ new
unfolding join_moved_path
join_self q new = ground (arith, bytes_beq_refl q)

-- What stood at or below the old prefix stands, after the move, at or below the new prefix, and a
-- move back restores it.
pub join_moved_path_roundtrip :
    (path old new : Bytes)
    → has_path_prefix path old ≡ true
    → (has_path_prefix (join_moved_path path old new) new ≡ true)
      × (join_moved_path (join_moved_path path old new) new old ≡ path)
join_moved_path_roundtrip path old new h = elim ((has_path_prefix_iff path old).0 h) [
  | inl e ↦ rw (e, join_self) ((has_path_prefix_iff new new).1 (inl refl), join_self new old)
  | inr (rest, e) ↦
      rw (e, join-below) ((has_path_prefix_iff _ new).1 (inr (rest, refl)), join-below new old rest)
]

-- A non-empty path that does not start with a separator, appended to the root directory, is not
-- reported as lying below the root directory.
pub has_path_prefix-root :
    (c : ℕ) (rest : Bytes)
    → c ≢ separator
    → has_path_prefix (separator ∷ c ∷ rest) (separator ∷ []) ≡ false
has_path_prefix-root c rest h = rw has_path_prefix-eq-below (unfold below in ground arith)
