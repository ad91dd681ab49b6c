-- ===== src/Darwin.antt =====
-- internal/backend/backend_darwin.go: the maps of the Darwin backend, New, Remove, Close and the
-- methods that unregister or rename what is watched. A node is reached through one key of `watched`
-- only, so the pointer to it is its value. The calls on descriptors are a parameter with a state of
-- its own. The pools only reuse maps, which are empty when they come out of them.
pub mod Adding
pub mod Scanning
pub mod Handling
pub mod Renames
pub mod Moves
pub mod Matched
pub mod Keys
pub mod Owned
pub mod Removing
pub mod Renaming
pub mod Added
pub mod Scanned
pub mod Handled
pub mod Calls
pub mod Replacing
mod Tests
use go_gaze.Common.{
  ℕ, Bool, true, false, not, Option, none, some, List, [], ◌∷◌, ◌++◌, Bytes, ◌==◌, nat_eq, bytes_eq,
  any, if◌then◌else◌,
}
use go_gaze.Common.Assoc.{Map, lookup, delete, insert, has}
use go_gaze.Errors.{Error, os_not_exist, Result, ok, err}
use go_gaze.FilePath.{has_path_prefix, join_moved_path}
use go_gaze.Tree.{PathSet}
use go_gaze.Env.{Target}
use go_gaze.Linux.{forget, set_of, moved_paths}

-- unix.Open with one of two flags, the Kevent call that registers a descriptor, and unix.Close.
pub record Kqueue (K : Type 0) : Type 0 where
  pub open_file : Bytes → Bool → K → K × Result ℕ
  pub register : ℕ → K → K × Option Error
  pub close : ℕ → K → K × Option Error

-- darwinNode
pub record Node : Type 0 where
  pub fd : ℕ
  pub path : Bytes
  pub is_dir : Bool
  pub roots : List Bytes

pub record EntryMeta : Type 0 where
  pub is_dir : Bool
  pub inode : ℕ

abbrev pub Snapshot : Type 0
Snapshot = Map Bytes EntryMeta

-- darwinWatcher, without its channels and pools.
pub record DarwinWatcher (K : Type 0) : Type 0 where
  pub kernel : K
  pub kq : ℕ
  pub closed : Bool
  pub roots : Map Bytes Target
  pub root_nodes : Map Bytes PathSet
  pub watched : Map Bytes Node
  pub fd_to_path : Map ℕ Bytes
  pub snapshots : Map Bytes Snapshot

-- New
unfoldable pub new : {K : Type 0} → K → ℕ → DarwinWatcher K
new kernel kq = record {
  kernel = kernel;
  kq = kq;
  closed = false;
  roots = [];
  root_nodes = [];
  watched = [];
  fd_to_path = [];
  snapshots = [];
}

-- The loop over the roots of a node.
unfoldable pub forget_all : List Bytes → Bytes → Map Bytes PathSet → Map Bytes PathSet
unfolding forget
forget_all [] path root_nodes = root_nodes
forget_all (root ∷ roots) path root_nodes = forget_all roots path (forget root path root_nodes)

-- slices.DeleteFunc with the test for the root.
unfoldable pub without : Bytes → List Bytes → List Bytes
without root [] = []
without root (r ∷ roots) = let rest = without root roots in if r == root then rest else r ∷ rest

-- `len(roots) == 0`
abbrev pub is_empty : List Bytes → Bool
is_empty [] = true
is_empty (_ ∷ _) = false

-- The loop over the roots of a node that is renamed. A write to the set of a root that is not there is
-- a write to a nil map, and a panic: `none`.
unfoldable pub move_in_roots :
    List Bytes → Bytes → Bytes → Map Bytes PathSet → Option (Map Bytes PathSet)
move_in_roots [] path new_path root_nodes = some root_nodes
move_in_roots (root ∷ roots) path new_path root_nodes = elim (lookup root root_nodes) [
  | none ↦ none
  | some nodes ↦
      move_in_roots roots path new_path
        (insert root (insert new_path tt (delete path nodes)) root_nodes)
]

-- The snapshot of a directory that is renamed.
unfoldable pub move_snapshot : Bytes → Bytes → Map Bytes Snapshot → Map Bytes Snapshot
move_snapshot path new_path snapshots = elim (lookup path snapshots) [
  | none ↦ snapshots
  | some snapshot ↦ insert new_path snapshot (delete path snapshots)
]

module _ {K : Type 0} where
  -- What renamePath and renamePrefix do alike for one node.
  unfoldable pub move_node : Bytes → Bytes → Node → DarwinWatcher K → Option (DarwinWatcher K)
  unfolding move_in_roots
  move_node path new_path node w = elim (move_in_roots node.roots path new_path w.root_nodes) [
    | none ↦ none
    | some root_nodes ↦ some (record w {
      watched = insert new_path (record node { path = new_path }) (delete path w.watched);
      fd_to_path = insert node.fd new_path w.fd_to_path;
      root_nodes = root_nodes;
    })
  ]

  -- renamePath
  unfoldable pub rename_path : Bytes → Bytes → DarwinWatcher K → Option (DarwinWatcher K)
  unfolding move_node
  rename_path old_path new_path w = elim (lookup old_path w.watched) [
    | none ↦ some w
    | some node ↦ move_node old_path new_path node w
  ]

  abbrev snapshot_moved : Bytes → Bytes → Option (DarwinWatcher K) → Option (DarwinWatcher K)
  snapshot_moved path new_path none = none
  snapshot_moved path new_path (some w) =
      some (record w { snapshots = move_snapshot path new_path w.snapshots })

  -- The loop of renamePrefix. A path without a node would be a nil pointer, and a panic.
  unfoldable pub rename_loop :
      Bytes → Bytes → List Bytes → DarwinWatcher K → Option (DarwinWatcher K)
  unfolding move_node move_snapshot
  rename_loop old_prefix new_prefix [] w = some w
  rename_loop old_prefix new_prefix (path ∷ paths) w = elim (lookup path w.watched) [
    | none ↦ none
    | some node ↦
        let new_path = join_moved_path path old_prefix new_prefix in
        elim (snapshot_moved path new_path (move_node path new_path node w)) [
          | none ↦ none
          | some w' ↦ rename_loop old_prefix new_prefix paths w'
        ]
  ]

  -- renamePrefix
  unfoldable pub rename_prefix : Bytes → Bytes → DarwinWatcher K → Option (DarwinWatcher K)
  unfolding moved_paths rename_loop
  rename_prefix old_prefix new_prefix w =
      rename_loop old_prefix new_prefix (moved_paths old_prefix w.watched) w

module _ {K : Type 0} (kqueue : Kqueue K) where
  -- unregisterLocked, whose result no caller uses.
  unfoldable pub unregister : Node → DarwinWatcher K → DarwinWatcher K
  unfolding forget_all
  unregister node w = record w {
    kernel = (kqueue.close node.fd w.kernel).0;
    fd_to_path = delete node.fd w.fd_to_path;
    snapshots = delete node.path w.snapshots;
    watched = delete node.path w.watched;
    root_nodes = forget_all node.roots node.path w.root_nodes;
  }

  -- One path of the loop of Remove.
  unfoldable pub leave_node : Bytes → Bytes → DarwinWatcher K → DarwinWatcher K
  unfolding without unregister
  leave_node root path w = elim (lookup path w.watched) [
    | none ↦ w
    | some node ↦
        let left : Node = record node { roots = without root node.roots } in
        if is_empty left.roots
        then unregister left w
        else record w { watched = insert path left w.watched }
  ]

  unfoldable pub leave_nodes : Bytes → PathSet → DarwinWatcher K → DarwinWatcher K
  unfolding leave_node
  leave_nodes root [] w = w
  leave_nodes root ((path, _) ∷ rest) w = leave_nodes root rest (leave_node root path w)

  -- Remove
  unfoldable pub remove : Bytes → DarwinWatcher K → DarwinWatcher K × Option Error
  unfolding leave_nodes
  remove path w =
      if not (has path w.roots)
      then (w, some os_not_exist)
      else let w' = leave_nodes path (set_of (lookup path w.root_nodes)) w in
        (record w' { root_nodes = delete path w'.root_nodes; roots = delete path w'.roots }, none)

  -- The loop of Close over the watched nodes.
  unfoldable pub close_nodes : Map Bytes Node → K → K
  close_nodes [] kernel = kernel
  close_nodes ((path, node) ∷ rest) kernel = close_nodes rest (kqueue.close node.fd kernel).0

  -- Close up to the wait for its goroutine.
  unfoldable pub close : DarwinWatcher K → DarwinWatcher K × Option Error
  unfolding close_nodes
  close w =
      if w.closed
      then (w, none)
      else let (kernel, answer) = kqueue.close w.kq (close_nodes w.watched w.kernel) in
        (record w { kernel = kernel; closed = true; watched = []; snapshots = [] }, answer)

  -- removePathIfWatched
  unfoldable pub remove_path_if_watched : Bytes → DarwinWatcher K → DarwinWatcher K × Bool
  unfolding unregister
  remove_path_if_watched path w = elim (lookup path w.watched) [
    | none ↦ (w, false)
    | some node ↦ (unregister node w, true)
  ]

  -- The loop of removePrefixIfWatched, which ranges over `watched`.
  unfoldable pub remove_below : Bytes → Map Bytes Node → DarwinWatcher K → DarwinWatcher K × Bool
  unfolding unregister
  remove_below prefix [] w = (w, false)
  remove_below prefix ((path, node) ∷ rest) w =
      let found = has_path_prefix path prefix in
      let (w', removed) = remove_below prefix rest (if found then unregister node w else w) in
      (w', if found then true else removed)

  -- removePrefixIfWatched
  unfoldable pub remove_prefix_if_watched : Bytes → DarwinWatcher K → DarwinWatcher K × Bool
  unfolding remove_below
  remove_prefix_if_watched prefix w = remove_below prefix w.watched w
