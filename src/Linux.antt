-- ===== src/Linux.antt =====
-- internal/backend/backend_linux.go: the maps of the Linux backend and the methods that change them.
-- Every method here holds the mutex, so it is one step. A node is reached through one key of
-- `watched` only, so the pointer to it is its value. The inotify calls are a parameter with a state
-- of its own. What reads the file system and handles kernel events is in Linux/Walking and
-- Linux/Handling, the parsing of the kernel's buffer in Linux/Reading.
pub mod Prefix
pub mod Removing
pub mod Renaming
pub mod Walking
pub mod Walked
pub mod Masks
pub mod Adding
pub mod Handling
pub mod Pairing
pub mod Flushing
pub mod Reading
pub mod Parsed
pub mod Polling
pub mod Keys
pub mod Owned
pub mod Owning
pub mod Added
pub mod Running
pub mod Rounds
pub mod Calls
pub mod Moving
pub mod Driver
pub mod Renamed
pub mod Dropping
mod Tests
mod EventTests
mod DriverTests
use go_gaze.Common.{
  ℕ, ◌≤◌, Bool, true, false, not, Option, none, some, List, [], ◌∷◌, ◌++◌, Bytes, ◌==◌, nat_eq,
  bytes_eq, leb, if◌then◌else◌,
}
use go_gaze.Common.Assoc.{Map, lookup, delete, insert, has}
use go_gaze.Errors.{Error, os_closed, os_not_exist, Result, ok, err}
use go_gaze.FilePath.{has_path_prefix, join_moved_path}
use go_gaze.Tree.{PathSet}
use go_gaze.Env.{Target}

-- unix.InotifyAddWatch and unix.InotifyRmWatch, whose result the backend does not use.
pub record Inotify (K : Type 0) : Type 0 where
  pub add_watch : Bytes → K → K × Result ℕ
  pub remove_watch : ℕ → K → K

-- linuxNode
pub record Node : Type 0 where
  pub wd : ℕ
  pub path : Bytes
  pub roots : PathSet

pub record PendingRename : Type 0 where
  pub path : Bytes
  pub is_dir : Bool
  pub at : ℕ

-- linuxWatcher, without its channels.
pub record LinuxWatcher (K : Type 0) : Type 0 where
  pub kernel : K
  pub closed : Bool
  pub roots : Map Bytes Target
  pub root_dirs : Map Bytes PathSet
  pub watched : Map Bytes Node
  pub wd_to_path : Map ℕ Bytes
  pub pending : Map ℕ PendingRename

-- `delete(w.rootDirs[root], path)`, which does nothing for a root that is not there.
abbrev forget_in : Bytes → Bytes → Map Bytes PathSet → Option PathSet → Map Bytes PathSet
forget_in root path root_dirs none = root_dirs
forget_in root path root_dirs (some dirs) = insert root (delete path dirs) root_dirs

unfoldable pub forget : Bytes → Bytes → Map Bytes PathSet → Map Bytes PathSet
forget root path root_dirs = forget_in root path root_dirs (lookup root root_dirs)

-- The loop over the roots of a node.
unfoldable pub forget_all : PathSet → Bytes → Map Bytes PathSet → Map Bytes PathSet
unfolding forget
forget_all [] path root_dirs = root_dirs
forget_all ((root, _) ∷ roots) path root_dirs = forget_all roots path (forget root path root_dirs)

-- The set of a root, empty for a root that is not there.
abbrev pub set_of : Option PathSet → PathSet
set_of none = []
set_of (some dirs) = dirs

-- The loop over the roots of a node that is renamed.
abbrev replace_in : Bytes → Bytes → Bytes → Map Bytes PathSet → Option PathSet → Map Bytes PathSet
replace_in root path new_path root_dirs none = root_dirs
replace_in root path new_path root_dirs (some dirs) =
    insert root (insert new_path tt (delete path dirs)) root_dirs

unfoldable pub replace_dir : Bytes → Bytes → Bytes → Map Bytes PathSet → Map Bytes PathSet
replace_dir root path new_path root_dirs =
    replace_in root path new_path root_dirs (lookup root root_dirs)

unfoldable pub replace_all : PathSet → Bytes → Bytes → Map Bytes PathSet → Map Bytes PathSet
unfolding replace_dir
replace_all [] path new_path root_dirs = root_dirs
replace_all ((root, _) ∷ roots) path new_path root_dirs =
    replace_all roots path new_path (replace_dir root path new_path root_dirs)

-- `moved` of renameWatchedPrefix.
unfoldable pub moved_paths : {V : Type 0} → Bytes → Map Bytes V → List Bytes
moved_paths old_prefix [] = []
moved_paths old_prefix ((path, _) ∷ rest) =
    let paths = moved_paths old_prefix rest in
    if has_path_prefix path old_prefix then path ∷ paths else paths

module _ {K : Type 0} where
  -- The body of the second loop of renameWatchedPrefix, for the node of the path.
  unfoldable pub rename_node : Bytes → Bytes → Node → LinuxWatcher K → LinuxWatcher K
  unfolding replace_all
  rename_node path new_path node w = record w {
    watched = insert new_path (record node { path = new_path }) (delete path w.watched);
    wd_to_path = insert node.wd new_path w.wd_to_path;
    root_dirs = replace_all node.roots path new_path w.root_dirs;
  }

  -- That loop. A path without a node would be a nil pointer, and a panic: `none`.
  unfoldable pub rename_loop : Bytes → Bytes → List Bytes → LinuxWatcher K → Option (LinuxWatcher K)
  unfolding rename_node
  rename_loop old_prefix new_prefix [] w = some w
  rename_loop old_prefix new_prefix (path ∷ paths) w = elim (lookup path w.watched) [
    | none ↦ none
    | some node ↦
        rename_loop old_prefix new_prefix paths
          (rename_node path (join_moved_path path old_prefix new_prefix) node w)
  ]

  -- renameWatchedPrefix
  unfoldable pub rename_watched_prefix : Bytes → Bytes → LinuxWatcher K → Option (LinuxWatcher K)
  unfolding moved_paths rename_loop
  rename_watched_prefix old_prefix new_prefix w =
      rename_loop old_prefix new_prefix (moved_paths old_prefix w.watched) w

-- takeRename
unfoldable pub take_rename :
    {K : Type 0} → ℕ → LinuxWatcher K → LinuxWatcher K × Option PendingRename
take_rename cookie w = elim (lookup cookie w.pending) [
  | none ↦ (w, none)
  | some rename ↦ (record w { pending = delete cookie w.pending }, some rename)
]

module _ {K : Type 0} (inotify : Inotify K) where
  -- dropWatch
  unfoldable pub drop_watch : ℕ → Bytes → LinuxWatcher K → LinuxWatcher K
  unfolding forget_all
  drop_watch wd path w = elim (lookup path w.watched) [
    | none ↦ w
    | some node ↦ record w {
      wd_to_path = delete wd w.wd_to_path;
      watched = delete path w.watched;
      root_dirs = forget_all node.roots path w.root_dirs;
    }
  ]

  -- The body of the loop of removeWatchedPrefix, for a path at or below the prefix.
  unfoldable pub remove_watched : Bytes → Node → LinuxWatcher K → LinuxWatcher K
  unfolding forget_all
  remove_watched path node w = record w {
    kernel = inotify.remove_watch node.wd w.kernel;
    wd_to_path = delete node.wd w.wd_to_path;
    watched = delete path w.watched;
    root_dirs = forget_all node.roots path w.root_dirs;
  }

  unfoldable pub remove_loop : Bytes → Map Bytes Node → LinuxWatcher K → LinuxWatcher K
  unfolding remove_watched
  remove_loop prefix [] w = w
  remove_loop prefix ((path, node) ∷ rest) w =
      remove_loop prefix rest
        (if not (has_path_prefix path prefix) then w else remove_watched path node w)

  -- removeWatchedPrefix, and removeWatchedPrefixLocked with the same body.
  unfoldable pub remove_watched_prefix : Bytes → LinuxWatcher K → LinuxWatcher K
  unfolding remove_loop
  remove_watched_prefix prefix w = remove_loop prefix w.watched w

  -- The body of the loop of Remove, for a node that is there.
  abbrev pub unwatch : Bytes → Bytes → Node → PathSet → LinuxWatcher K → LinuxWatcher K
  unwatch root dir node [] w = record w {
    kernel = inotify.remove_watch node.wd w.kernel;
    watched = delete dir w.watched;
    wd_to_path = delete node.wd w.wd_to_path;
  }
  unwatch root dir node left w = record w {
    watched = insert dir (record node { roots = left }) w.watched;
  }

  unfoldable pub leave_dir : Bytes → Bytes → LinuxWatcher K → LinuxWatcher K
  leave_dir root dir w = elim (lookup dir w.watched) [
    | none ↦ w
    | some node ↦ unwatch root dir node (delete root node.roots) w
  ]

  unfoldable pub leave_dirs : Bytes → PathSet → LinuxWatcher K → LinuxWatcher K
  unfolding leave_dir
  leave_dirs root [] w = w
  leave_dirs root ((dir, _) ∷ dirs) w = leave_dirs root dirs (leave_dir root dir w)

  -- Remove
  unfoldable pub remove : Bytes → LinuxWatcher K → LinuxWatcher K × Option Error
  unfolding leave_dirs
  remove path w = elim (lookup path w.roots) [
    | none ↦ (w, some os_not_exist)
    | some target ↦
        let w' = leave_dirs path (set_of (lookup path w.root_dirs)) w in
        (record w' { root_dirs = delete path w'.root_dirs; roots = delete path w'.roots }, none)
  ]

  abbrev pub enrolled :
      Bytes → Bytes → PathSet → LinuxWatcher K → K × Result ℕ → LinuxWatcher K × Option Error
  enrolled root dir dirs w (kernel, err e) = (record w { kernel = kernel }, some e)
  enrolled root dir dirs w (kernel, ok wd) = (
    record w {
      kernel = kernel;
      watched = insert dir (record { wd = wd; path = dir; roots = (root, tt) ∷ [] }) w.watched;
      wd_to_path = insert wd dir w.wd_to_path;
      root_dirs = insert root (insert dir tt dirs) w.root_dirs;
    },
    none,
  )

  abbrev pub enroll :
      Bytes → Bytes → PathSet → LinuxWatcher K → Option Node → LinuxWatcher K × Option Error
  enroll root dir dirs w (some node) = (
    record w {
      watched = insert dir (record node { roots = insert root tt node.roots }) w.watched;
      root_dirs = insert root (insert dir tt dirs) w.root_dirs;
    },
    none,
  )
  enroll root dir dirs w none = enrolled root dir dirs w (inotify.add_watch dir w.kernel)

  abbrev pub enroll_in :
      Bytes → Bytes → Option PathSet → LinuxWatcher K → LinuxWatcher K × Option Error
  enroll_in root dir none w = (w, none)
  enroll_in root dir (some dirs) w = enroll root dir dirs w (lookup dir w.watched)

  -- addDir
  unfoldable pub add_dir : Bytes → Bytes → LinuxWatcher K → LinuxWatcher K × Option Error
  add_dir root dir w =
      if w.closed then (w, some os_closed) else enroll_in root dir (lookup root w.root_dirs) w
