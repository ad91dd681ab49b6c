-- ===== src/Darwin/Adding.antt =====
-- internal/backend/backend_darwin.go: Add, enrollDirectoryTarget, addPath and readDirSnapshot. A method
-- that takes the mutex several times is one step here, with the tests of each of its sections. The
-- file system is a parameter.
use go_gaze.Common.{
  ℕ, Bool, true, false, ◌&&◌, ◌||◌, not, Option, none, some, List, [], ◌∷◌, ◌++◌, Bytes, ◌==◌,
  nat_eq, bytes_eq, any, if◌then◌else◌,
}
use go_gaze.Common.Assoc.{lookup, insert, has}
use go_gaze.Errors.{Error, os_closed, Result, ok, err}
use go_gaze.FilePath.{separator}
use go_gaze.GoPath.{join}
use go_gaze.Tree.{PathSet}
use go_gaze.Env.{Target, BackendConfig}
use go_gaze.Linux.Walking.{Files, walk_path}
use go_gaze.Darwin.{Kqueue, Node, Snapshot, DarwinWatcher, remove}

-- os.DirEntry, as far as the backend reads it.
pub record Entry : Type 0 where
  pub name : Bytes
  pub is_dir : Bool

-- What walkPath uses, os.ReadDir, and unix.Lstat with the inode of what it finds.
pub record Disk : Type 0 where
  pub files : Files
  pub read_dir : Bytes → Result (List Entry)
  pub lstat : Bytes → Result ℕ

abbrev inode_of : Result ℕ → ℕ
inode_of (err e) = 0
inode_of (ok inode) = inode

-- inodeForPath
unfoldable pub inode_for_path : Disk → Bytes → ℕ
inode_for_path disk path = inode_of (disk.lstat path)

-- `pathPrefix`
abbrev pub path_prefix : Bytes → Bytes
path_prefix path = path ++ separator ∷ []

-- rootTarget, which gives a target with empty fields for a root that is not there.
abbrev pub target_or_zero : Option Target → Target
target_or_zero none = record { path = []; watch_path = []; is_dir = false; recursive = false }
target_or_zero (some target) = target

module _ {K : Type 0} where
  unfoldable pub root_target : Bytes → DarwinWatcher K → Target
  root_target root w = target_or_zero (lookup root w.roots)

  abbrev pub with_root : Target → DarwinWatcher K → DarwinWatcher K
  with_root target w = record w {
    roots = insert target.path target w.roots;
    root_nodes = insert target.path [] w.root_nodes;
  }

  -- A node that is watched already gets the root too.
  unfoldable pub share_node : Bytes → Bytes → PathSet → Node → DarwinWatcher K → DarwinWatcher K
  share_node root path nodes node w = record w {
    watched =
        insert path
          (record node {
            roots = if any (λ r. r == root) node.roots then node.roots else node.roots ++ root ∷ [];
          })
          w.watched;
    root_nodes = insert root (insert path tt nodes) w.root_nodes;
  }

module _ (disk : Disk) (cfg : BackendConfig) where
  -- The loop of readDirSnapshot.
  unfoldable pub snapshot_of : Bytes → List Entry → Snapshot → Snapshot
  unfolding inode_for_path
  snapshot_of prefix [] snapshot = snapshot
  snapshot_of prefix (entry ∷ entries) snapshot =
      let child = prefix ++ entry.name in
      snapshot_of prefix entries (
        if cfg.should_exclude child entry.is_dir
        then snapshot
        else insert entry.name (record { is_dir = entry.is_dir; inode = inode_for_path disk child })
            snapshot)

  abbrev snapshot_read : Bytes → Result (List Entry) → Snapshot
  snapshot_read path (err e) = []
  snapshot_read path (ok entries) = snapshot_of (path_prefix path) entries []

  -- readDirSnapshot
  unfoldable pub read_dir_snapshot : Bytes → Snapshot
  unfolding snapshot_of
  read_dir_snapshot path = snapshot_read path (disk.read_dir path)

module _ {K : Type 0} (kqueue : Kqueue K) (disk : Disk) (cfg : BackendConfig) where
  -- The node that addPath makes.
  unfoldable pub watch_node : Bytes → Bytes → Bool → PathSet → ℕ → DarwinWatcher K → DarwinWatcher K
  unfolding read_dir_snapshot
  watch_node root path is_dir nodes fd w = record w {
    watched =
        insert path (record { fd = fd; path = path; is_dir = is_dir; roots = root ∷ [] }) w.watched;
    fd_to_path = insert fd path w.fd_to_path;
    root_nodes = insert root (insert path tt nodes) w.root_nodes;
    snapshots =
        if is_dir then insert path (read_dir_snapshot disk cfg path) w.snapshots else w.snapshots;
  }

  abbrev pub close_fd : ℕ → DarwinWatcher K → DarwinWatcher K
  close_fd fd w = record w { kernel = (kqueue.close fd w.kernel).0 }

  -- The last section of addPath, with the descriptor that was opened and registered.
  unfoldable pub finish_path :
      Bytes → Bytes → Bool → ℕ → DarwinWatcher K → DarwinWatcher K × Option Error
  unfolding watch_node share_node
  finish_path root path is_dir fd w =
      if w.closed then (close_fd fd w, some os_closed) else elim (lookup root w.root_nodes) [
        | none ↦ (close_fd fd w, none)
        | some nodes ↦ elim (lookup path w.watched) [
          | some node ↦ (share_node root path nodes node (close_fd fd w), none)
          | none ↦ (watch_node root path is_dir nodes fd w, none)
        ]
      ]

  abbrev pub registered :
      Bytes → Bytes → Bool → ℕ → DarwinWatcher K → K × Option Error → DarwinWatcher K × Option Error
  registered root path is_dir fd w (kernel, some e) =
      (close_fd fd (record w { kernel = kernel }), some e)
  registered root path is_dir fd w (kernel, none) =
      finish_path root path is_dir fd (record w { kernel = kernel })

  abbrev pub opened :
      Bytes → Bytes → Bool → DarwinWatcher K → K × Result ℕ → DarwinWatcher K × Option Error
  opened root path is_dir w (kernel, err e) = (record w { kernel = kernel }, some e)
  opened root path is_dir w (kernel, ok fd) =
      registered root path is_dir fd w (kqueue.register fd kernel)

  -- addPath
  unfoldable pub add_path : Bytes → Bytes → Bool → DarwinWatcher K → DarwinWatcher K × Option Error
  unfolding root_target share_node finish_path
  add_path root path is_dir w =
      if cfg.should_exclude path is_dir && not (path == (root_target root w).path)
      then (w, none)
      else elim (lookup root w.root_nodes) [
        | none ↦ (w, none)
        | some nodes ↦ elim (lookup path w.watched) [
          | some node ↦ (share_node root path nodes node w, none)
          | none ↦ opened root path is_dir w (kqueue.open_file path is_dir w.kernel)
        ]
      ]

  abbrev pub and_then :
      DarwinWatcher K × Option Error
      → (DarwinWatcher K → DarwinWatcher K × Option Error)
      → DarwinWatcher K × Option Error
  and_then (w, none) f = f w
  and_then (w, some e) f = (w, some e)

  -- The loop of enrollDirectoryTarget over the entries.
  unfoldable pub enroll_entries :
      Bytes → List Entry → DarwinWatcher K → DarwinWatcher K × Option Error
  unfolding add_path
  enroll_entries root [] w = (w, none)
  enroll_entries root (entry ∷ entries) w =
      let child = join root entry.name in
      if entry.is_dir || cfg.should_exclude child false
      then enroll_entries root entries w
      else and_then (add_path root child false w) (enroll_entries root entries)

  abbrev pub enroll_read :
      Bytes → Result (List Entry) → DarwinWatcher K → DarwinWatcher K × Option Error
  enroll_read root (err e) w = (w, some e)
  enroll_read root (ok entries) w = enroll_entries root entries w

  -- enrollDirectoryTarget
  unfoldable pub enroll_directory_target : Target → DarwinWatcher K → DarwinWatcher K × Option Error
  unfolding add_path enroll_entries
  enroll_directory_target target w =
      if target.recursive
      then walk_path disk.files target.path true (some cfg.should_exclude) (add_path target.path) w
      else and_then (add_path target.path target.path true w)
          (enroll_read target.path (disk.read_dir target.path))

  abbrev pub undo_failed : Bytes → DarwinWatcher K × Option Error → DarwinWatcher K × Option Error
  undo_failed path (w, none) = (w, none)
  undo_failed path (w, some e) = ((remove kqueue path w).0, some e)

  -- Add
  unfoldable pub add : Target → DarwinWatcher K → DarwinWatcher K × Option Error
  unfolding enroll_directory_target add_path
  add target w =
      if w.closed
      then (w, some os_closed)
      else if has target.path w.roots
      then (w, none)
      else undo_failed target.path (
          if target.is_dir
          then enroll_directory_target target (with_root target w)
          else and_then (add_path target.path target.watch_path true (with_root target w))
              (add_path target.path target.path false))
