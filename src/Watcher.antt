-- ===== src/Watcher.antt =====
-- watcher.go: the watcher's state and its calls. A method returns the new state and its result;
-- `nil` errors are `none`. The goroutines are in Watcher/Events.antt and Watcher/Life.antt.
pub mod Events
pub mod Delivery
pub mod Roots
pub mod Closing
pub mod Starting
pub mod Life
mod Tests
use go_gaze.Common.{
  ℕ, Bool, true, false, ◌&&◌, ◌||◌, not, Option, none, some, List, [], ◌∷◌, Bytes, ◌==◌, nat_eq,
  bytes_eq, if◌then◌else◌,
}
use go_gaze.Common.Int.{ℤ, pos, negsuc, max_ℤ}
use go_gaze.Errors.{
  Error, watcher_closed, os_not_exist, os_closed, empty_path, symlink_root, excluded_root, joined,
  Result, ok, err, ◌>>=◌,
}
use go_gaze.FilePath.{separator}
use go_gaze.GoPath.{clean, dir, join, is_blank, head_is}
use go_gaze.Ops.{Event, PathInfo}
use go_gaze.Queue
use go_gaze.Queue.{Queue}
use go_gaze.Tree
use go_gaze.Tree.{Index, Root}
use go_gaze.Filter
use go_gaze.Filter.{FilterConfig, Matcher, Predicate, should_exclude}
use go_gaze.Filter.Base.{base_name}
use go_gaze.Config.{
  Config, recursion_disabled, resolve_config, recursive_enabled, pick_config, or_logger,
}
use go_gaze.Env.{FileInfo, Env, Target, BackendConfig, Driver}

pub record Watcher (D : Type 0) : Type 0 where
  pub cfg : Config
  pub matcher : Matcher
  pub index : Index
  pub driver : D
  pub queue : Queue Event
  pub closed : Bool
  pub close_once : Bool
  pub close_err : Option Error

-- errors.Is(err, os.ErrClosed)
unfoldable pub is_os_closed : Error → Bool
is_os_closed os_closed = true
is_os_closed (joined a b) = is_os_closed a || is_os_closed b
is_os_closed _ = false

-- The closure that newWatcher makes of Config.Exclude.
unfoldable pub exclude_closure : Option (PathInfo → Bool) → Option Predicate
exclude_closure none = none
exclude_closure (some exclude) =
    some (λ path is_dir. exclude (record { path = path; base = base_name path; is_dir = is_dir }))

unfoldable pub filter_config : Config → FilterConfig
unfolding exclude_closure
filter_config cfg = record {
  prefixes = cfg.exclude_prefixes;
  globs = cfg.exclude_globs;
  exclude = exclude_closure cfg.exclude;
}

module _ {D : Type 0} (env : Env) (drv : Driver D) where
  -- newWatcher; starting its two goroutines changes no state.
  unfoldable pub new_watcher : Config → Result (Watcher D)
  unfolding filter_config
  new_watcher cfg = do
    matcher ← Filter.new env.glob_match (filter_config cfg)
    driver ← drv.new (record {
      buffer_size = max_ℤ cfg.queue_capacity 64;
      follow_symlinks = cfg.follow_symlinks;
      should_exclude = should_exclude env.glob_match matcher;
    })
    ok (record {
      cfg = record cfg { logger = or_logger cfg.logger (some env.slog_default) };
      matcher = matcher;
      index = Tree.empty;
      driver = driver;
      queue = Queue.new cfg.queue_capacity;
      closed = false;
      close_once = false;
      close_err = none;
    })

  -- filepath.Abs
  unfoldable pub abs_path : Bytes → Result Bytes
  abs_path path =
      if head_is path separator then ok (clean path) else (env.getwd >>= λ wd. ok (join wd path))

  -- normalizePath
  unfoldable pub normalize_path : Bytes → Result Bytes
  unfolding abs_path
  normalize_path path = if is_blank path then err empty_path else abs_path (clean path)

  -- The two tests on symbolic links in prepareTarget: the path and the file that is watched.
  unfoldable pub resolve_link : Config → Bytes → FileInfo → Result (Bytes × FileInfo)
  resolve_link cfg path info =
      if info.is_symlink && not cfg.follow_symlinks
      then err (symlink_root path)
      else if info.is_symlink
      then (do real ← env.eval_symlinks path; real_info ← env.stat real; ok (real, real_info))
      else ok (path, info)

  -- The end of prepareTarget.
  unfoldable pub make_target : Config → Matcher → Bytes × FileInfo → Result Target
  make_target cfg matcher (path, info) =
      if should_exclude env.glob_match matcher path info.is_dir
      then err (excluded_root path)
      else ok (
          if not info.is_dir
          then record {
            path = path;
            watch_path = dir path;
            is_dir = info.is_dir;
            recursive = false;
          }
          else record {
            path = path;
            watch_path = path;
            is_dir = info.is_dir;
            recursive = info.is_dir && recursive_enabled cfg true;
          })

  -- prepareTarget
  unfoldable pub prepare_target : Watcher D → Bytes → Result Target
  unfolding normalize_path resolve_link make_target
  prepare_target w path = do
    normalized ← normalize_path path
    info ← env.lstat normalized
    found ← resolve_link w.cfg normalized info
    make_target w.cfg w.matcher found

  -- What Add and Remove make of the driver's error.
  abbrev pub public_error : Error → Error
  public_error e = if is_os_closed e then watcher_closed else e

  abbrev pub root_of : Target → Root
  root_of target = record {
    path = target.path;
    watch_path = target.watch_path;
    is_dir = target.is_dir;
    recursive = target.recursive;
  }

  abbrev pub added : Watcher D → Target → Index → D × Option Error → Watcher D × Option Error
  added w target index (driver, none) = (record w { index = index; driver = driver }, none)
  added w target index (driver, some e) = (
    record w { index = (Tree.remove target.path index).0; driver = driver },
    some (public_error e),
  )

  abbrev pub add_target : Watcher D → Result Target → Watcher D × Option Error
  add_target w (err e) = (w, some e)
  add_target w (ok target) =
      added w target (Tree.add (root_of target) w.index) (drv.add target w.driver)

  -- Watcher.Add
  unfoldable pub add : Bytes → Watcher D → Watcher D × Option Error
  unfolding prepare_target
  add path w = if w.closed then (w, some watcher_closed) else add_target w (prepare_target w path)

  abbrev pub removed : Watcher D → Index → D × Option Error → Watcher D × Option Error
  removed w index (driver, none) = (record w { index = index; driver = driver }, none)
  removed w index (driver, some e) =
      (record w { index = index; driver = driver }, some (public_error e))

  abbrev pub remove_root : Watcher D → Index × Option Root → Watcher D × Option Error
  remove_root w (index, none) = (record w { index = index }, some os_not_exist)
  remove_root w (index, some root) = removed w index (drv.remove root.path w.driver)

  abbrev pub remove_path : Watcher D → Result Bytes → Watcher D × Option Error
  remove_path w (err e) = (w, some e)
  remove_path w (ok path) = remove_root w (Tree.remove path w.index)

  -- Watcher.Remove
  unfoldable pub remove : Bytes → Watcher D → Watcher D × Option Error
  unfolding normalize_path
  remove path w = if w.closed then (w, some watcher_closed) else remove_path w (normalize_path path)

  abbrev pub closed_with : Watcher D → D × Option Error → Watcher D
  closed_with w (driver, e) = record w {
    driver = driver;
    closed = true;
    close_once = true;
    close_err = e;
  }

  -- Watcher.Close up to its two waits: the body of the sync.Once, and the error that it keeps.
  unfoldable pub close : Watcher D → Watcher D × Option Error
  close w =
      let w' = if w.close_once then w else closed_with w (drv.close w.driver) in (w', w'.close_err)

  abbrev pub close_failed : Watcher D × Option Error → Error → Watcher D × Error
  close_failed (w, none) e = (w, e)
  close_failed (w, some e') e = (w, joined e e')

  -- The result of watchRoot: the watcher, or the error with the watcher that was closed for it.
  pub data Watched : Type 0 where
    watching : Watcher D → Watched
    failed : Watcher D → Error → Watched
    not_made : Error → Watched

  abbrev pub failed_with : Watcher D × Error → Watched
  failed_with (w, e) = failed w e

  abbrev pub root_watched : Watcher D × Option Error → Watched
  root_watched (w, none) = watching w
  root_watched (w, some e) = failed_with (close_failed (close w) e)

  -- watchRoot
  unfoldable pub watch_root : Watcher D → Bytes → Watched
  unfolding add close
  watch_root w path = root_watched (add path w)

  abbrev pub watch_made : Result (Watcher D) → Bytes → Watched
  watch_made (err e) path = not_made e
  watch_made (ok w) path = watch_root w path

  -- Config.NewWatcher, Config.WatchDirectory and Config.WatchFile
  unfoldable pub config_new_watcher : Config → Result (Watcher D)
  unfolding new_watcher resolve_config
  config_new_watcher cfg = new_watcher (resolve_config env.slog_default cfg)

  unfoldable pub config_watch_directory : Config → Bytes → Watched
  unfolding config_new_watcher watch_root
  config_watch_directory cfg path = watch_made (config_new_watcher cfg) path

  unfoldable pub config_watch_file : Config → Bytes → Watched
  unfolding new_watcher watch_root resolve_config
  config_watch_file cfg path =
      watch_made
        (new_watcher
          (record (resolve_config env.slog_default cfg) { recursion = recursion_disabled }))
        path

  abbrev pub with_config : Result Config → (Config → Watched) → Watched
  with_config (err e) watch = not_made e
  with_config (ok cfg) watch = watch cfg

  -- New, WatchDirectory and WatchFile, with their optional configuration.
  unfoldable pub new : List Config → Result (Watcher D)
  unfolding config_new_watcher pick_config
  new cfgs = pick_config cfgs >>= config_new_watcher

  unfoldable pub watch_directory : Bytes → List Config → Watched
  unfolding config_watch_directory pick_config
  watch_directory path cfgs =
      with_config (pick_config cfgs) (λ cfg. config_watch_directory cfg path)

  unfoldable pub watch_file : Bytes → List Config → Watched
  unfolding config_watch_file pick_config
  watch_file path cfgs = with_config (pick_config cfgs) (λ cfg. config_watch_file cfg path)
