-- ===== src/Watcher/Tests.antt =====
-- Instances of the theorems on watcher.go, with a file system of one directory and one file, and a
-- driver that keeps the list of its targets and refuses the path /bad.
use go_gaze.Common.{
  ℕ, ◌≡◌, refl, Bool, true, false, ◌&&◌, not, Option, none, some, List, [], ◌∷◌, ◌++◌, Bytes, codes,
  ◌==◌, bytes_eq, if◌then◌else◌,
}
use go_gaze.Common.Assoc.{lookup}
use go_gaze.Common.Int.{pos}
use go_gaze.Errors.{Error, watcher_closed, os_error, ok}
use go_gaze.Ops.{Event, op_create, op_write, op_rename}
use go_gaze.Queue.{Queue, push, pop, receive, store_closed, close_done}
use go_gaze.Tree
use go_gaze.Filter.{Matcher}
use go_gaze.Config.{Config, zero_config, default_config}
use go_gaze.Env.{FileInfo, Env, Target, Driver}
use go_gaze.Watcher.{
  Watcher, watching, new_watcher, prepare_target, normalize_path, add, remove, close, watch_root,
  config_watch_file,
}
use go_gaze.Watcher.Events.{event_logged, dispatch_event, handle_backend_event}
use go_gaze.Watcher.Delivery.{in_scope, is_wanted, is_hidden}
use go_gaze.Watcher.Roots.{
  IsPrepared, Added, Removed, prepare_target-IsPrepared, add-outcome, remove-outcome,
}
use go_gaze.Watcher.Closing.{Step, adds_path, removes_path, handles, run, IsWatcher, after_close}
use go_gaze.Watcher.Starting.{
  IsNew, HasOneRoot, WatchedRoot, new_watcher-IsNew, new-IsWatcher, pushed_after_calls,
  watch_root-WatchedRoot, watch_file-HasOneRoot,
}
use go_gaze.Watcher.Life.{
  Life, ended, pushing, start, waiting, Reach, here, next, receives, pushes, pops, leaves, marks,
  returns, events_closed, errors_closed,
}
use go_gaze.Watcher.Life.Live.{dispatch_all}
use go_gaze.Watcher.Life.Order.{events_in_order, done_dispatched}
use go_gaze.Watcher.Life.Ending.{goroutines_end}

abbrev src : Bytes
src = codes "/src"

abbrev lstat : Bytes → FileInfo
lstat path =
    if path == src
    then record { is_symlink = false; is_dir = true }
    else record { is_symlink = false; is_dir = false }

abbrev env : Env
env = record {
  slog_default = 7;
  glob_match = λ _ _. some false;
  getwd = ok (codes "/");
  lstat = λ path. ok (lstat path);
  stat = λ path. ok (lstat path);
  eval_symlinks = λ path. ok path;
}

abbrev add_to : Target → List Target → List Target × Option Error
add_to target targets =
    if target.path == codes "/bad" then (targets, some (os_error 28)) else (target ∷ targets, none)

abbrev drv : Driver (List Target)
drv = record {
  new = λ _. ok [];
  add = add_to;
  remove = λ _ targets. (targets, none);
  close = λ _. ([], none);
}

abbrev made : Watcher (List Target)
made = record {
  cfg = default_config 7;
  matcher = record { prefixes = []; base_globs = []; path_globs = []; exclude = none };
  index = Tree.empty;
  driver = [];
  queue = record { items = []; cap = 1024; closed = false; is_done = false };
  closed = false;
  close_once = false;
  close_err = none;
}

made_run : new_watcher env drv (default_config 7) ≡ ok made
unfolding new_watcher go_gaze.Filter.new default_config go_gaze.Queue.new
made_run = refl

made-IsNew : IsNew env drv made
made-IsNew = new_watcher-IsNew env drv (default_config 7) made_run

made-IsWatcher : IsWatcher env drv made
made-IsWatcher = new-IsWatcher env drv made-IsNew

abbrev created : Event
created = record { path = codes "/src/a"; old_path = []; op = op_create; is_dir = false }

abbrev renamed : Event
renamed = record { path = codes "/lib"; old_path = src; op = op_rename; is_dir = true }

abbrev steps : List Step
steps = adds_path src ∷ handles renamed ∷ removes_path (codes "/x") ∷ []

pushed_example :
    let w = run env drv steps made in
    (handle_backend_event env created w).1 ≡ (
      if in_scope env (handle_backend_event env created w).0 created
        && (is_wanted w.cfg created && not (is_hidden env w created))
      then some created
      else none)
pushed_example = pushed_after_calls env drv (default_config 7) made steps created made_run

after_close_example :
    let closed = close env drv made in
    let w = run env drv steps closed.0 in
    (w.driver ≡ closed.0.driver)
    × (add env drv src w ≡ (w, some watcher_closed))
    × (remove env drv src w ≡ (w, some watcher_closed))
    × (close env drv w ≡ (w, closed.1))
after_close_example = after_close env drv made steps src made-IsWatcher

abbrev target : Target
target = record { path = src; watch_path = src; is_dir = true; recursive = true }

target_run : prepare_target env drv made (codes "/src/") ≡ ok target
unfolding prepare_target go_gaze.GoPath.is_blank go_gaze.GoPath.clean go_gaze.Common.bytes_beq
    go_gaze.Filter.should_exclude go_gaze.Config.recursive_enabled default_config
target_run = refl

prepared_example : IsPrepared env drv made target
prepared_example = prepare_target-IsPrepared env drv made (codes "/src/") target_run

add_example : Added env drv made target (add_to target []) (add env drv (codes "/src/") made)
add_example = add-outcome env drv (codes "/src/") made target refl target_run

key_run : normalize_path env drv (codes "/src/") ≡ ok src
unfolding normalize_path go_gaze.GoPath.is_blank go_gaze.GoPath.clean go_gaze.Common.bytes_beq
key_run = refl

remove_example :
    Removed env drv made src (lookup src made.index.roots) (remove env drv (codes "/src/") made)
remove_example = remove-outcome env drv (codes "/src/") src made refl key_run

watch_root_example : WatchedRoot env drv made (watch_root env drv made (codes "/bad"))
watch_root_example = watch_root-WatchedRoot env drv made (codes "/bad") made-IsNew

abbrev file_watcher : Watcher (List Target)
file_watcher = record made {
  cfg = record (default_config 7) { recursion = 1 };
  driver =
      record { path = codes "/src/a"; watch_path = src; is_dir = false; recursive = false } ∷ [];
  index = record Tree.empty {
    roots =
        (
          codes "/src/a",
          record { path = codes "/src/a"; watch_path = src; is_dir = false; recursive = false },
        )
        ∷ [];
    file_roots = (codes "/src/a", tt) ∷ [];
  };
}

file_run : config_watch_file env drv zero_config (codes "/src/a") ≡ watching file_watcher
unfolding config_watch_file go_gaze.Filter.new go_gaze.GoPath.is_blank go_gaze.GoPath.clean
    go_gaze.Common.bytes_beq go_gaze.Filter.should_exclude Tree.add go_gaze.GoPath.dir
    go_gaze.Queue.new Tree.rebuild go_gaze.FilePath.last_index_byte go_gaze.Common.Assoc.insert
file_run = refl

watch_file_example :
    (file_watcher.closed ≡ false)
    × (root : HasOneRoot env drv file_watcher) × (root.target.recursive ≡ false)
watch_file_example =
    watch_file-HasOneRoot env drv zero_config (codes "/src/a") file_watcher file_run

abbrev rooted : Watcher (List Target)
rooted = record made {
  driver = target ∷ [];
  index = record Tree.empty {
    roots = (src, record { path = src; watch_path = src; is_dir = true; recursive = true }) ∷ [];
    recursive_dirs = (src, tt) ∷ [];
  };
}

rooted_run : add env drv src made ≡ (rooted, none)
unfolding add go_gaze.GoPath.is_blank go_gaze.GoPath.clean go_gaze.Common.bytes_beq
    go_gaze.Filter.should_exclude Tree.add go_gaze.Config.recursive_enabled Tree.rebuild
    default_config go_gaze.Common.Assoc.insert
rooted_run = refl

abbrev holding : Queue Event
holding = record made.queue { items = created ∷ [] }

abbrev empty_queue : Queue Event
empty_queue = made.queue

-- A run from a watcher with one root: an event is received, pushed and popped, the backend closes
-- its channels, and both goroutines end.
abbrev received : Life (List Target)
received = record (start rooted) { phase = pushing created; admitted = created ∷ [] }

received_run : Reach env drv (start rooted) received
unfolding handle_backend_event go_gaze.Ops.has_op go_gaze.Common.bytes_beq Tree.matches
    go_gaze.Common.Assoc.has go_gaze.FilePath.parent_dir default_config
    go_gaze.Filter.should_exclude
received_run = next here (receives created refl refl)

in_order_example :
    (received.admitted
      ≡ received.dispatched ++ (received.watcher.queue.items ++ waiting received.phase))
    × (received.effects ≡ dispatch_all rooted.cfg received.dispatched)
unfolding go_gaze.Queue.new
in_order_example = events_in_order env drv rooted (pos 1024) received refl received_run

abbrev finished : Life (List Target)
finished = record {
  watcher = record rooted {
    queue = record { items = []; cap = 1024; closed = true; is_done = true };
  };
  phase = ended;
  evt_open = false;
  err_open = false;
  done = true;
  admitted = created ∷ [];
  dispatched = created ∷ [];
  effects = event_logged created ∷ [];
  error_effects = [];
}

finished_run : Reach env drv (start rooted) finished
unfolding push pop store_closed close_done dispatch_event default_config
finished_run =
    next
      (next
        (next
          (next
            (next
              (next (next received_run (pushes true true created holding refl refl))
                (pops true created empty_queue refl refl))
              (events_closed refl))
            (errors_closed refl))
          (leaves refl refl refl))
        (marks refl))
      (returns true finished.watcher.queue refl refl)

done_example :
    (finished.phase ≡ ended)
    × (finished.dispatched ≡ finished.admitted)
    × (finished.effects ≡ dispatch_all rooted.cfg finished.admitted)
unfolding go_gaze.Queue.new
done_example = done_dispatched env drv rooted (pos 1024) finished refl finished_run refl

end_example :
    (m : Life (List Target)) × Reach env drv received m
    × (m.done ≡ true)
    × (m.phase ≡ ended)
    × (m.dispatched ≡ received.admitted)
unfolding go_gaze.Queue.new
end_example = goroutines_end env drv rooted (pos 1024) received refl received_run
