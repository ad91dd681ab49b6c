-- ===== src/Tree/Built.antt =====
-- internal/tree/index.go: the derived sets agree with the roots after every operation.
use go_gaze.Common.{
  ◌≡◌, refl, Bool, ◌&&◌, ◌||◌, not, none, [], ◌∷◌, arith, Bytes, ◌==◌, bytes_eq, any, Option-cases,
  inl, inr,
}
use go_gaze.Common.Assoc.{Map, has, lookup, has-insert}
use go_gaze.Tree.{
  Root, Index, empty, place, place_all, rebuild, add, remove, move_loop, move_prefix,
}

unfoldable pub is_recursive_dir : Root → Bool
is_recursive_dir root = root.is_dir && root.recursive

unfoldable pub is_flat_dir : Root → Bool
is_flat_dir root = root.is_dir && not root.recursive

unfoldable pub is_file : Root → Bool
is_file root = not root.is_dir

-- Some root of the kind has the path.
unfoldable pub rooted_at : (Root → Bool) → Map Bytes Root → Bytes → Bool
rooted_at kind roots path = any (λ e. kind e.1 && e.1.path == path) roots

-- Each derived set holds the paths of the roots of its kind, and no others.
pub record IsBuilt (i : Index) : Type 0 where
  pub files : (path : Bytes) → has path i.file_roots ≡ rooted_at is_file i.roots path
  pub flats : (path : Bytes) → has path i.flat_dirs ≡ rooted_at is_flat_dir i.roots path
  pub recursives :
      (path : Bytes) → has path i.recursive_dirs ≡ rooted_at is_recursive_dir i.roots path

module _ (path : Bytes) where
  place_all-files :
      (m : Map Bytes Root) (i : Index)
      → has path (place_all m i).file_roots ≡ (has path i.file_roots || rooted_at is_file m path)
  unfolding place_all place rooted_at any is_file
  place_all-files [] i = ground arith
  place_all-files ((k, r) ∷ m) i =
      ground (arith, place_all-files m (place i r), has-insert r.path path tt i.file_roots)

  place_all-flats :
      (m : Map Bytes Root) (i : Index)
      → has path (place_all m i).flat_dirs ≡ (has path i.flat_dirs || rooted_at is_flat_dir m path)
  unfolding place_all place rooted_at any is_flat_dir
  place_all-flats [] i = ground arith
  place_all-flats ((k, r) ∷ m) i =
      ground (arith, place_all-flats m (place i r), has-insert r.path path tt i.flat_dirs)

  place_all-recursives :
      (m : Map Bytes Root) (i : Index)
      → has path (place_all m i).recursive_dirs
        ≡ (has path i.recursive_dirs || rooted_at is_recursive_dir m path)
  unfolding place_all place rooted_at any is_recursive_dir
  place_all-recursives [] i = ground arith
  place_all-recursives ((k, r) ∷ m) i =
      ground (arith, place_all-recursives m (place i r), has-insert r.path path tt i.recursive_dirs)

place_all-roots : (m : Map Bytes Root) (i : Index) → (place_all m i).roots ≡ i.roots
unfolding place_all place
place_all-roots [] i = refl
place_all-roots ((k, r) ∷ m) i = ground (arith, place_all-roots m (place i r))

pub roots-rebuild : (i : Index) → (rebuild i).roots ≡ i.roots
unfolding rebuild
roots-rebuild i = place_all-roots i.roots _

pub rebuild-IsBuilt : (i : Index) → IsBuilt (rebuild i)
unfolding rebuild has
rebuild-IsBuilt i = record {
  files = λ p. rw place_all-roots (place_all-files p i.roots _);
  flats = λ p. rw place_all-roots (place_all-flats p i.roots _);
  recursives = λ p. rw place_all-roots (place_all-recursives p i.roots _);
}

pub empty-IsBuilt : IsBuilt empty
unfolding rooted_at has any
empty-IsBuilt = record { files = λ p. refl; flats = λ p. refl; recursives = λ p. refl }

pub add-IsBuilt : (root : Root) (i : Index) → IsBuilt (add root i)
unfolding add
add-IsBuilt root i = rebuild-IsBuilt _

pub remove-IsBuilt : (path : Bytes) {i : Index} → IsBuilt i → IsBuilt (remove path i).0
unfolding remove
remove-IsBuilt path {i} b = elim (Option-cases (lookup path i.roots)) [
  | inl e ↦ rw (e, remove) b
  | inr (r, e) ↦ rw (e, remove) (rebuild-IsBuilt _)
]

pub move_prefix-IsBuilt :
    (old_path new_path : Bytes) {i : Index} → IsBuilt i → IsBuilt (move_prefix old_path new_path i)
unfolding move_prefix
move_prefix-IsBuilt old new {i} b = elim (Option-cases (move_loop old new i.roots i.roots none)) [
  | inl e ↦ rw (e, move_prefix) b
  | inr (m, e) ↦ rw (e, move_prefix) (rebuild-IsBuilt _)
]
