-- ===== src/Linux/DriverTests.antt =====
-- An instance of the theorem on a renamed root of a watcher over the Linux backend: watcher.go over
-- internal/backend/backend_linux.go.
use go_gaze.Common.{bytes_eq, ℕ, suc, ◌≡◌, refl, true, false, none, some, List, [], ◌∷◌, codes}
use go_gaze.Errors.{os_not_exist, ok}
use go_gaze.Ops.{Event, op_rename}
use go_gaze.Tree
use go_gaze.Tree.{Root}
use go_gaze.Tree.Moving.{relocated_root}
use go_gaze.Common.Assoc.{lookup}
use go_gaze.Filter.{Matcher, should_exclude}
use go_gaze.Config.{default_config}
use go_gaze.Env.{Env, Target, BackendConfig, Driver}
use go_gaze.Linux.{Inotify, LinuxWatcher}
use go_gaze.Linux.Adding.{new}
use go_gaze.Linux.Walking.{Files, leaf, directory}
use go_gaze.Linux.Renamed.{renamed_root_stays}
use go_gaze.Linux.Driver.{linux_driver}
use go_gaze.Watcher.{Watcher, remove, new_watcher}
use go_gaze.Watcher.Events.{handle_backend_event}
use go_gaze.Watcher.Starting.{new_watcher-IsNew, new-IsWatcher}
use go_gaze.Watcher.Closing.{IsWatcher, run-IsWatcher, adds_path, run}

abbrev inotify : Inotify ℕ
inotify = record { add_watch = λ path n. (suc n, ok n); remove_watch = λ wd n. n }

abbrev files : Files
files = record { lstat = λ path. ok true; tree = λ path. ok (directory path leaf) }

abbrev env : Env
env = record {
  slog_default = 7;
  glob_match = λ _ _. some false;
  getwd = ok (codes "/");
  lstat = λ path. ok (record { is_symlink = false; is_dir = true });
  stat = λ path. ok (record { is_symlink = false; is_dir = true });
  eval_symlinks = λ path. ok path;
}

abbrev drv : Driver (BackendConfig × LinuxWatcher ℕ)
drv = linux_driver inotify files (ok 1) none

abbrev matcher : Matcher
matcher = record { prefixes = []; base_globs = []; path_globs = []; exclude = none }

abbrev made : Watcher (BackendConfig × LinuxWatcher ℕ)
made = record {
  cfg = default_config 7;
  matcher = matcher;
  index = Tree.empty;
  driver = (
    record {
      buffer_size = 1024;
      follow_symlinks = false;
      should_exclude = should_exclude env.glob_match matcher;
    },
    new 1,
  );
  queue = record { items = []; cap = 1024; closed = false; is_done = false };
  closed = false;
  close_once = false;
  close_err = none;
}

made_run : new_watcher env drv (default_config 7) ≡ ok made
unfolding new_watcher go_gaze.Filter.new default_config go_gaze.Queue.new
made_run = refl

abbrev two_roots : Watcher (BackendConfig × LinuxWatcher ℕ)
two_roots = run env drv (adds_path (codes "/a") ∷ adds_path (codes "/a/b") ∷ []) made

two_roots-IsWatcher : IsWatcher env drv two_roots
two_roots-IsWatcher =
    run-IsWatcher env drv (adds_path (codes "/a") ∷ adds_path (codes "/a/b") ∷ []) made
      (new-IsWatcher env drv (new_watcher-IsNew env drv (default_config 7) made_run))

abbrev inner_renamed : Event
inner_renamed = record {
  path = codes "/a/c";
  old_path = codes "/a/b";
  op = op_rename;
  is_dir = true;
}

abbrev inner_root : Root
inner_root = record {
  path = codes "/a/b";
  watch_path = codes "/a/b";
  is_dir = true;
  recursive = true;
}

abbrev inner_target : Target
inner_target = record {
  path = codes "/a/b";
  watch_path = codes "/a/b";
  is_dir = true;
  recursive = true;
}

stays_example :
    let after = (handle_backend_event env inner_renamed two_roots).0 in
    let new = remove env drv (codes "/a/c") after in
    let old = remove env drv (codes "/a/b") after in
    (lookup (codes "/a/c") after.index.roots
      ≡ some (relocated_root (codes "/a/b") (codes "/a/c") inner_root))
    × (lookup (codes "/a/b") after.index.roots ≡ none)
    × (lookup (codes "/a/b") after.driver.1.roots ≡ some inner_target)
    × (lookup (codes "/a/c") after.driver.1.roots ≡ none)
    × ((new.1 ≡ some os_not_exist) × (new.0.driver ≡ after.driver))
    × ((old.1 ≡ some os_not_exist) × (old.0.driver ≡ after.driver))
unfolding run go_gaze.GoPath.is_blank go_gaze.GoPath.clean go_gaze.Common.bytes_beq should_exclude
    go_gaze.Linux.Adding.add new go_gaze.Common.Assoc.has go_gaze.Linux.Walking.walk_path
    go_gaze.Config.recursive_enabled default_config go_gaze.Linux.Walking.walk_tree
    go_gaze.Linux.add_dir lookup go_gaze.Common.Assoc.insert go_gaze.Ops.has_op Tree.add
    Tree.rebuild go_gaze.GoPath.dir go_gaze.FilePath.has_path_prefix
stays_example =
    renamed_root_stays inotify files (ok 1) none env two_roots inner_renamed inner_root inner_target
      two_roots-IsWatcher.index refl refl refl refl refl refl (refl, (refl, tt)) refl refl refl
