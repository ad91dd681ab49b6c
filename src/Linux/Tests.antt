-- ===== src/Linux/Tests.antt =====
-- Instances of the theorems on internal/backend/backend_linux.go, with a kernel that numbers its
-- watches.
use go_gaze.Common.{
  ℕ, suc, ◌≡◌, refl, true, false, none, some, [], ◌∷◌, codes, bytes_eq, if◌then◌else◌,
}
use go_gaze.Common.Assoc.{lookup, has}
use go_gaze.Errors.{ok}
use go_gaze.Env.{Target}
use go_gaze.Linux.{Inotify, LinuxWatcher, add_dir, remove}
use go_gaze.Linux.Dropping.{IsDropped, remove_lem}

abbrev inotify : Inotify ℕ
inotify = record { add_watch = λ path n. (suc n, ok n); remove_watch = λ wd n. n }

abbrev src_target : Target
src_target = record {
  path = codes "/src";
  watch_path = codes "/src";
  is_dir = true;
  recursive = true;
}

abbrev fresh : LinuxWatcher ℕ
fresh = record {
  kernel = 1;
  closed = false;
  roots = (codes "/src", src_target) ∷ [];
  root_dirs = (codes "/src", []) ∷ [];
  watched = [];
  wd_to_path = [];
  pending = [];
}

abbrev two_dirs : LinuxWatcher ℕ
two_dirs =
    (add_dir inotify (codes "/src") (codes "/src/a")
      (add_dir inotify (codes "/src") (codes "/src") fresh).0).0

src_found : lookup (codes "/src") two_dirs.roots ≡ some src_target
unfolding lookup add_dir go_gaze.Common.bytes_beq go_gaze.Common.Assoc.insert
src_found = refl

removed_root_example :
    ((remove inotify (codes "/src") two_dirs).1 ≡ none)
    × IsDropped inotify (codes "/src") two_dirs (remove inotify (codes "/src") two_dirs).0
unfolding lookup add_dir has go_gaze.Common.bytes_beq go_gaze.Common.Assoc.insert
removed_root_example =
    remove_lem inotify (codes "/src") src_target two_dirs src_found (refl, (refl, tt))
