-- ===== src/Darwin/Tests.antt =====
-- Instances of the theorems on internal/backend/backend_darwin.go: a recursive root with one directory
-- and one file, and a system that numbers its descriptors.
use go_gaze.Common.{
  ℕ, suc, ◌≡◌, refl, Bool, true, false, Option, none, some, List, [], ◌∷◌, ◌++◌, arith, Bytes,
  codes, bytes_eq, nat_eq,
}
use go_gaze.Common.Assoc.{lookup, has}
use go_gaze.Errors.{ok, os_error}
use go_gaze.Env.{Target, BackendConfig}
use go_gaze.Linux.Keys.{enrolled_for}
use go_gaze.Linux.Walking.{leaf, more, file, directory}
use go_gaze.Darwin.{Kqueue, Node, EntryMeta, Snapshot, DarwinWatcher, new}
use go_gaze.Darwin.Adding.{Disk, add}
use go_gaze.Darwin.Handling.{Kevent, handle, failed, filled, note_write, note_delete}
use go_gaze.Darwin.Keys.{has_root}
use go_gaze.Darwin.Owned.{IsOwned, new-IsOwned}
use go_gaze.Darwin.Added.{add-IsOwned}
use go_gaze.Darwin.Replacing.{gone_events, replaced_file_unwatched}
use go_gaze.Darwin.Calls.{Call, adds, removes, closes, handles, rounds, run, nodes_have_roots}

abbrev kqueue : Kqueue ℕ
kqueue = record {
  open_file = λ path is_dir n. (suc n, ok n);
  register = λ fd n. (n, none);
  close = λ fd n. (n, none);
}

-- Below each directory there are a directory and a file; read_dir finds the file under a new name.
abbrev disk : Disk
disk = record {
  files = record {
    lstat = λ path. ok true;
    tree = λ path. ok (
        directory path
          (more (directory (path ++ codes "/d") leaf) (more (file (path ++ codes "/f")) leaf)));
  };
  read_dir = λ path. ok (
      record { name = codes "d"; is_dir = true }
      ∷ record { name = codes "g"; is_dir = false }
      ∷ []);
  lstat = λ path. ok 17;
}

abbrev cfg : BackendConfig
cfg = record { buffer_size = 16; follow_symlinks = false; should_exclude = λ path is_dir. false }

abbrev root : Target
root = record { path = codes "/a"; watch_path = codes "/a"; is_dir = true; recursive = true }

abbrev calls : List Call
calls =
    adds disk root
    ∷ handles disk (record { ident = 2; flags = note_write })
    ∷ rounds disk (filled (record { ident = 3; flags = note_delete } ∷ [])) []
    ∷ removes (codes "/a")
    ∷ closes
    ∷ rounds disk (failed (os_error 9)) []
    ∷ []

nodes_example :
    (w : DarwinWatcher ℕ) × (run kqueue cfg calls (new 2 1) ≡ some w)
    × ((path : Bytes) (node : Node)
        → lookup path w.watched ≡ some node
        → (node.path ≡ path)
          × ((root : Bytes)
              → has_root root node.roots ≡ true
              → (has root w.roots ≡ true) × (enrolled_for root path w.root_nodes ≡ true)))
nodes_example = nodes_have_roots kqueue cfg 2 1 calls

abbrev watching : DarwinWatcher ℕ
watching = (add kqueue disk cfg root (new 2 1)).0

abbrev gone : Snapshot
gone =
    (codes "f", record { is_dir = false; inode = 17 })
    ∷ (codes "x", record { is_dir = false; inode = 0 })
    ∷ []

abbrev fresh : Snapshot
fresh =
    (codes "y", record { is_dir = false; inode = 0 })
    ∷ (codes "g", record { is_dir = false; inode = 17 })
    ∷ []

-- The file /a/f, which another file takes the place of.
abbrev saved : Disk
saved = record disk { read_dir = λ path. ok (record { name = codes "f"; is_dir = false } ∷ []) }

abbrev one_file : DarwinWatcher ℕ
one_file =
    (add kqueue saved cfg
      (record { path = codes "/a/f"; watch_path = codes "/a"; is_dir = false; recursive = false })
      (new 2 1)).0

one_file-IsOwned : IsOwned one_file
one_file-IsOwned =
    add-IsOwned kqueue saved cfg
      (record { path = codes "/a/f"; watch_path = codes "/a"; is_dir = false; recursive = false })
      (new 2 1) (new-IsOwned 2 1)

abbrev file_gone : Kevent
file_gone = record { ident = 3; flags = note_delete }

abbrev file_node : Node
file_node = record { fd = 3; path = codes "/a/f"; is_dir = false; roots = codes "/a/f" ∷ [] }

replaced_example :
    (w' : DarwinWatcher ℕ) × (handle kqueue saved cfg file_gone one_file
      ≡ some (w', gone_events file_gone.flags (codes "/a/f")))
    × (lookup (codes "/a/f") w'.watched ≡ none)
unfolding lookup add new has go_gaze.Common.Assoc.insert go_gaze.Common.bytes_beq
    go_gaze.Linux.Masks.has_bit go_gaze.GoPath.dir go_gaze.FilePath.last_index_byte
    go_gaze.Darwin.Scanning.missing_from
replaced_example =
    replaced_file_unwatched kqueue saved cfg file_gone (codes "/a/f") file_node one_file
      one_file-IsOwned refl refl refl refl refl (refl, refl)
