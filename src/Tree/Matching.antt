-- ===== src/Tree/Matching.antt =====
-- internal/tree/index.go: Matches against the roots themselves.
use go_gaze.Common.{
  ◌≡◌, refl, Bool, true, ◌&&◌, ◌||◌, [], ◌∷◌, arith, Bytes, ◌==◌, bytes_eq, any, bytes_beq_iff,
  Bool-cases, Bool-eq_of_iff, inl, inr, sym, ◌∙◌, if◌then◌else◌,
}
use go_gaze.Common.Assoc.{Map, has}
use go_gaze.FilePath.{parent_dir}
use go_gaze.FilePath.Ancestors.{reaches}
use go_gaze.Tree.{Root, PathSet, Index, matches}
use go_gaze.Tree.Built.{IsBuilt, rooted_at, is_file, is_flat_dir, is_recursive_dir}
use go_gaze.Tree.Walk.{reaches_any, walk-total}

-- What a root covers: a file itself, a directory its children, a recursive directory all below it.
unfoldable pub covers : Bytes → Root → Bool
covers path root =
    if root.is_dir && root.recursive
    then reaches path root.path
    else if root.is_dir
    then parent_dir path == root.path
    else path == root.path

-- The index reports the path if some root covers it.
unfoldable pub covered : Map Bytes Root → Bytes → Bool
covered roots path = any (λ e. covers path e.1) roots

any-keys→has :
    (f : Bytes → Bool) (dirs : PathSet)
    → any (λ e. f e.0) dirs ≡ true
    → (d : Bytes) × (has d dirs ≡ true) × (f d ≡ true)
unfolding any has
any-keys→has f [] h = ground arith
any-keys→has f ((d, u) ∷ dirs) h = elim (Bool-cases (f d)) [
  | inl e ↦ (d, ground (arith, bytes_beq_iff d d), e)
  | inr e ↦ let (d', m, g) = any-keys→has f dirs (ground arith) in (d', ground arith, g)
]

has→any-keys :
    (f : Bytes → Bool) (dirs : PathSet) (d : Bytes)
    → has d dirs ≡ true
    → f d ≡ true
    → any (λ e. f e.0) dirs ≡ true
unfolding any has
has→any-keys f [] d h g = ground arith
has→any-keys f ((d', u) ∷ dirs) d h g = ground (arith, bytes_beq_iff d' d, has→any-keys f dirs d)

module _ (kind : Root → Bool) (f : Bytes → Bool) where
  abbrev of_kind : Map Bytes Root → Bool
  of_kind roots = any (λ e. kind e.1 && f e.1.path) roots

  of_kind→rooted_at :
      (roots : Map Bytes Root)
      → of_kind roots ≡ true
      → (d : Bytes) × (rooted_at kind roots d ≡ true) × (f d ≡ true)
  unfolding any rooted_at
  of_kind→rooted_at [] h = ground arith
  of_kind→rooted_at ((k, r) ∷ roots) h = elim (Bool-cases (kind r && f r.path)) [
    | inl e ↦ (r.path, ground (arith, bytes_beq_iff r.path r.path), ground arith)
    | inr e ↦ let (d, m, g) = of_kind→rooted_at roots (ground arith) in (d, ground arith, g)
  ]

  rooted_at→of_kind :
      (roots : Map Bytes Root) (d : Bytes)
      → rooted_at kind roots d ≡ true
      → f d ≡ true
      → of_kind roots ≡ true
  unfolding any rooted_at
  rooted_at→of_kind [] d h g = ground arith
  rooted_at→of_kind ((k, r) ∷ roots) d h g =
      ground (arith, bytes_beq_iff r.path d, rooted_at→of_kind roots d)

  of_kind-eq :
      (dirs : PathSet) (roots : Map Bytes Root)
      → ((d : Bytes) → has d dirs ≡ rooted_at kind roots d)
      → any (λ e. f e.0) dirs ≡ of_kind roots
  of_kind-eq dirs roots built =
      Bool-eq_of_iff _ _
        (λ h.
          let (d, m, g) = any-keys→has f dirs h in rooted_at→of_kind roots d (sym (built d) ∙ m) g)
        (λ h. let (d, m, g) = of_kind→rooted_at roots h in has→any-keys f dirs d (built d ∙ m) g)

covered-split :
    (roots : Map Bytes Root) (path : Bytes)
    → covered roots path ≡ (
        rooted_at is_file roots path
        || (rooted_at is_flat_dir roots (parent_dir path)
            || of_kind is_recursive_dir (reaches path) roots))
unfolding covered covers any rooted_at is_file is_flat_dir is_recursive_dir
covered-split [] path = refl
covered-split ((k, r) ∷ roots) path = ground (
  arith,
  covered-split roots path,
  bytes_beq_iff r.path path,
  bytes_beq_iff path r.path,
  bytes_beq_iff r.path (parent_dir path),
  bytes_beq_iff (parent_dir path) r.path,
)

reaches_any-eq :
    (dirs : PathSet) (path : Bytes) → reaches_any dirs path ≡ any (λ e. reaches path e.0) dirs
unfolding reaches_any
reaches_any-eq dirs path = refl

-- On an index whose derived sets agree with its roots, Matches answers true exactly when some root
-- covers the path.
pub matches-eq-covered :
    (i : Index) (path : Bytes) → IsBuilt i → matches i path ≡ covered i.roots path
unfolding matches
matches-eq-covered i path b = ground (
  arith,
  covered-split i.roots path,
  walk-total i.recursive_dirs path,
  reaches_any-eq i.recursive_dirs path,
  b.files path,
  b.flats (parent_dir path),
  of_kind-eq is_recursive_dir (reaches path) i.recursive_dirs i.roots b.recursives,
)
