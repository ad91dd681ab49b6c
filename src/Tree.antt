-- ===== src/Tree.antt =====
-- internal/tree/index.go: the roots of a watcher and the three sets of paths derived from them.
-- A method that mutates `*Index` returns the new record; its lock makes each method one step.
-- A Go map is an association list (Common/Assoc.antt), and a set of paths a map to `Unit`.
pub mod Walk
pub mod Built
pub mod Matching
pub mod Moving
pub mod MoveLoop
pub mod Runs
pub mod Moved
mod Tests
use go_gaze.Common.{
  ℕ, zero, suc, ◌+◌, Bool, true, false, ◌&&◌, ◌||◌, Option, none, some, [], ◌∷◌, Bytes, ◌==◌,
  bytes_eq, length, if◌then◌else◌,
}
use go_gaze.Common.Assoc.{Map, lookup, delete, insert, has}
use go_gaze.FilePath.{has_path_prefix, join_moved_path, parent_dir}

pub record Root : Type 0 where
  pub path : Bytes
  pub watch_path : Bytes
  pub is_dir : Bool
  pub recursive : Bool

abbrev pub PathSet : Type 0
PathSet = Map Bytes (Unit {0})

pub record Index : Type 0 where
  pub roots : Map Bytes Root
  pub file_roots : PathSet
  pub flat_dirs : PathSet
  pub recursive_dirs : PathSet

-- New
abbrev pub empty : Index
empty = record { roots = []; file_roots = []; flat_dirs = []; recursive_dirs = [] }

-- The switch in the loop of rebuild.
unfoldable pub place : Index → Root → Index
place i root =
    if root.is_dir && root.recursive
    then record i { recursive_dirs = insert root.path tt i.recursive_dirs }
    else if root.is_dir
    then record i { flat_dirs = insert root.path tt i.flat_dirs }
    else record i { file_roots = insert root.path tt i.file_roots }

-- The loop of rebuild over the roots.
unfoldable pub place_all : Map Bytes Root → Index → Index
place_all [] i = i
place_all ((key, root) ∷ rest) i = place_all rest (place i root)

unfoldable pub rebuild : Index → Index
unfolding place place_all
rebuild i = place_all i.roots (record i { file_roots = []; flat_dirs = []; recursive_dirs = [] })

-- Add, which always returns nil.
unfoldable pub add : Root → Index → Index
add root i = rebuild (record i { roots = insert root.path root i.roots })

-- Remove; `none` is the pair (Root{}, false).
unfoldable pub remove : Bytes → Index → Index × Option Root
remove path i = elim (lookup path i.roots) [
  | none ↦ (i, none)
  | some root ↦ (rebuild (record i { roots = delete path i.roots }), some root)
]

-- The two tests in the loop of MovePrefix: the root as rewritten, and `rootChanged`.
unfoldable pub move_path : Bytes → Bytes → Root → Root × Bool
move_path old_path new_path root =
    if root.path == old_path
    then (record root { path = new_path }, true)
    else if root.is_dir && has_path_prefix root.path old_path
    then (record root { path = join_moved_path root.path old_path new_path }, true)
    else (root, false)

unfoldable pub move_watch_path : Bytes → Bytes → Root × Bool → Root × Bool
move_watch_path old_path new_path (root, changed) =
    if root.watch_path == old_path
    then (record root { watch_path = new_path }, true)
    else if has_path_prefix root.watch_path old_path
    then (record root { watch_path = join_moved_path root.watch_path old_path new_path }, true)
    else (root, changed)

unfoldable pub move_root : Bytes → Bytes → Root → Root × Bool
unfolding move_path move_watch_path
move_root old_path new_path root =
    move_watch_path old_path new_path (move_path old_path new_path root)

-- `updated`, or the copy of the roots that is made before its first change.
abbrev pub copied : Map Bytes Root → Option (Map Bytes Root) → Map Bytes Root
copied roots none = roots
copied roots (some updated) = updated

-- The loop of MovePrefix over the roots; the option is `updated`, nil at first.
unfoldable pub move_loop :
    Bytes
    → Bytes
    → Map Bytes Root
    → Map Bytes Root
    → Option (Map Bytes Root)
    → Option (Map Bytes Root)
unfolding move_root
move_loop old_path new_path roots [] updated = updated
move_loop old_path new_path roots ((key, root) ∷ rest) updated =
    let (moved, changed) = move_root old_path new_path root in
    move_loop old_path new_path roots rest (
      if changed
      then some (insert moved.path moved (delete key (copied roots updated)))
      else updated)

unfoldable pub move_prefix : Bytes → Bytes → Index → Index
unfolding move_loop
move_prefix old_path new_path i = elim (move_loop old_path new_path i.roots i.roots none) [
  | none ↦ i
  | some updated ↦ rebuild (record i { roots = updated })
]

-- The last loop of Matches; `none` if the fuel runs out.
unfoldable pub walk : ℕ → PathSet → Bytes → Option Bool
walk zero dirs current = none
walk (suc fuel) dirs current =
    let next = parent_dir current in
    let rest = walk fuel dirs next in
    if has current dirs then some true else if next == current then some false else rest

abbrev pub walk_fuel : Bytes → ℕ
walk_fuel path = length path + 2

abbrev pub is_found : Option Bool → Bool
is_found none = false
is_found (some b) = b

-- Matches
unfoldable pub matches : Index → Bytes → Bool
unfolding walk
matches i path =
    has path i.file_roots
    || (has (parent_dir path) i.flat_dirs || is_found (walk (walk_fuel path) i.recursive_dirs path))
