-- ===== src/Linux/Adding.antt =====
-- internal/backend/backend_linux.go: New, Add, Close and addRecursiveDirIfNeeded. One that takes the
-- mutex several times is one step here.
use go_gaze.Common.{
  true, false, ◌||◌, not, Option, none, some, List, [], ◌∷◌, Bytes, nat_eq, bytes_eq, if◌then◌else◌,
}
use go_gaze.Common.Assoc.{Map, insert, has}
use go_gaze.Errors.{Error, os_closed}
use go_gaze.FilePath.{has_path_prefix}
use go_gaze.Env.{Target, BackendConfig}
use go_gaze.Linux.{Inotify, LinuxWatcher, remove, add_dir}
use go_gaze.Linux.Walking.{Files, Callback, walk_path}

-- New
unfoldable pub new : {K : Type 0} → K → LinuxWatcher K
new kernel = record {
  kernel = kernel;
  closed = false;
  roots = [];
  root_dirs = [];
  watched = [];
  wd_to_path = [];
  pending = [];
}

-- The roots that addRecursiveDirIfNeeded collects.
unfoldable pub recursive_roots : Bytes → Map Bytes Target → List Bytes
recursive_roots path [] = []
recursive_roots path ((root, target) ∷ rest) =
    let roots = recursive_roots path rest in
    if not target.is_dir || not target.recursive
    then roots
    else if has_path_prefix path target.path
    then root ∷ roots
    else roots

module _ {K : Type 0} where
  abbrev pub with_root : Target → LinuxWatcher K → LinuxWatcher K
  with_root target w = record w {
    roots = insert target.path target w.roots;
    root_dirs = insert target.path [] w.root_dirs;
  }

  -- Close up to the wait for its goroutine; the error is that of unix.Close.
  unfoldable pub close : Option Error → LinuxWatcher K → LinuxWatcher K × Option Error
  close answer w = if w.closed then (w, none) else (record w { closed = true }, answer)

module _ {K : Type 0} (inotify : Inotify K) (files : Files) (cfg : BackendConfig) where
  -- The callback with which directories are enrolled for a root.
  abbrev pub enroll_callback : Bytes → Callback (LinuxWatcher K)
  enroll_callback root path is_dir w = if not is_dir then (w, none) else add_dir inotify root path w

  unfoldable pub enroll_target : Target → LinuxWatcher K → LinuxWatcher K × Option Error
  enroll_target target w =
      if target.is_dir
      then walk_path files target.path target.recursive (some cfg.should_exclude)
          (enroll_callback target.path) w
      else add_dir inotify target.path target.watch_path w

  abbrev pub undo_failed : Bytes → LinuxWatcher K × Option Error → LinuxWatcher K × Option Error
  undo_failed path (w, none) = (w, none)
  undo_failed path (w, some e) = ((remove inotify path w).0, some e)

  -- Add
  unfoldable pub add : Target → LinuxWatcher K → LinuxWatcher K × Option Error
  unfolding enroll_target
  add target w =
      if w.closed
      then (w, some os_closed)
      else if has target.path w.roots
      then (w, none)
      else undo_failed target.path (enroll_target target (with_root target w))

  -- The second loop of addRecursiveDirIfNeeded, which ignores the errors.
  unfoldable pub enroll_for : Bytes → List Bytes → LinuxWatcher K → LinuxWatcher K
  enroll_for path [] w = w
  enroll_for path (root ∷ roots) w =
      enroll_for path roots
        (walk_path files path true (some cfg.should_exclude) (enroll_callback root) w).0

  -- addRecursiveDirIfNeeded
  unfoldable pub add_recursive : Bytes → LinuxWatcher K → LinuxWatcher K
  unfolding recursive_roots enroll_for
  add_recursive path w = enroll_for path (recursive_roots path w.roots) w
