-- ===== src/Linux/Renamed.antt =====
-- A root of a watcher that is renamed: watcher.go lets the index follow, internal/backend/backend_linux.go
-- keeps its own root under the old path.
use go_gaze.Common.{
  ◌≡◌, refl, sym, ap, ◌∙◌, subst, true, false, Option, none, some, [], arith, Bytes, ◌==◌, bytes_eq,
}
use go_gaze.Common.Assoc.{lookup, All-lookup}
use go_gaze.Errors.{Error, os_not_exist, Result, ok}
use go_gaze.Ops.{Event, has_op, op_rename}
use go_gaze.Tree
use go_gaze.Tree.{Index, Root, move_prefix, move_root, move_path, move_watch_path}
use go_gaze.Tree.Moving.{moved, relocated_root, moved-eq-relocated_root}
use go_gaze.Tree.MoveLoop.{IsFresh}
use go_gaze.Tree.Moved.{path-moved_old, lookup-moved, lookup-moved_away}
use go_gaze.Tree.Runs.{IsIndex}
use go_gaze.Env.{Env, Target, BackendConfig}
use go_gaze.Linux.{Inotify, LinuxWatcher, remove}
use go_gaze.Linux.Walking.{Files}
use go_gaze.Linux.Driver.{linux_driver}
use go_gaze.Watcher
use go_gaze.Watcher.{Watcher, remove_root, remove_path, removed, normalize_path, public_error}
use go_gaze.Watcher.Events.{handle_backend_event, follow_rename}
use go_gaze.Watcher.Roots.{remove-open}

module _ {K : Type 0} (inotify : Inotify K) (files : Files) (init : Result K)
    (closing : Option Error) (env : Env) where
  abbrev Backed : Type 0
  Backed = Watcher (BackendConfig × LinuxWatcher K)

  -- Remove of a root that the backend does not have.
  unknown_root :
      (path : Bytes) (root : Root) (w : Backed)
      → root.path ≡ path
      → lookup path w.index.roots ≡ some root
      → lookup path w.driver.1.roots ≡ none
      → let r =
          remove_root env (linux_driver inotify files init closing) w (Tree.remove path w.index) in
        (r.1 ≡ some os_not_exist) × (r.0.driver ≡ w.driver)
  unfolding Tree.remove remove Watcher.is_os_closed
  unknown_root path root w same found absent =
      rw (found, Tree.remove) (rw same (rw (absent, remove) (refl, refl)))

  removed_normal :
      (path : Bytes) (root : Root) (w : Backed)
      → w.closed ≡ false
      → normalize_path env (linux_driver inotify files init closing) path ≡ ok path
      → root.path ≡ path
      → lookup path w.index.roots ≡ some root
      → lookup path w.driver.1.roots ≡ none
      → let r = Watcher.remove env (linux_driver inotify files init closing) path w in
        (r.1 ≡ some os_not_exist) × (r.0.driver ≡ w.driver)
  removed_normal path root w is_open normal same found absent =
      rw (remove-open env (linux_driver inotify files init closing) path w is_open)
        (rw normal (unknown_root path root w same found absent))

  -- Remove of a path at which the watcher has no root.
  missing_root :
      (path : Bytes) (w : Backed)
      → w.closed ≡ false
      → normalize_path env (linux_driver inotify files init closing) path ≡ ok path
      → lookup path w.index.roots ≡ none
      → let r = Watcher.remove env (linux_driver inotify files init closing) path w in
        (r.1 ≡ some os_not_exist) × (r.0.driver ≡ w.driver)
  unfolding Tree.remove
  missing_root path w is_open normal missing =
      rw (remove-open env (linux_driver inotify files init closing) path w is_open)
        (rw normal (rw (missing, Tree.remove) (refl, refl)))

  -- A rename event with both paths names as its old path a root that an open watcher with a
  -- consistent index and its Linux backend both have; no root of the watcher stands at or below its
  -- new path, and the backend has none at it; both paths are normalized. After the event is handled,
  -- the watcher has the root, relocated, at the new path and none at the old one, while the backend
  -- still has its root at the old path and none at the new one; and Remove fails with os.ErrNotExist
  -- for either path and leaves the backend as it is.
  pub renamed_root_stays :
      (w : Backed) (evt : Event) (root : Root) (target : Target)
      → IsIndex w.index
      → w.closed ≡ false
      → has_op evt.op op_rename ≡ true
      → (evt.path == []) ≡ false
      → (evt.old_path == []) ≡ false
      → lookup evt.old_path w.index.roots ≡ some root
      → lookup evt.old_path w.driver.1.roots ≡ some target
      → IsFresh evt.path w.index.roots
      → lookup evt.path w.driver.1.roots ≡ none
      → normalize_path env (linux_driver inotify files init closing) evt.path ≡ ok evt.path
      → normalize_path env (linux_driver inotify files init closing) evt.old_path ≡ ok evt.old_path
      → let drv = linux_driver inotify files init closing in
        let after = (handle_backend_event env evt w).0 in
        let new = Watcher.remove env drv evt.path after in
        let old = Watcher.remove env drv evt.old_path after in
        (lookup evt.path after.index.roots ≡ some (relocated_root evt.old_path evt.path root))
        × (lookup evt.old_path after.index.roots ≡ none)
        × (lookup evt.old_path after.driver.1.roots ≡ some target)
        × (lookup evt.path after.driver.1.roots ≡ none)
        × ((new.1 ≡ some os_not_exist) × (new.0.driver ≡ after.driver))
        × ((old.1 ≡ some os_not_exist) × (old.0.driver ≡ after.driver))
  unfolding handle_backend_event follow_rename
  renamed_root_stays w evt root target h is_open renames named old_named found backed fresh absent
        normal old_normal =
      let after = (handle_backend_event env evt w).0 in
      let old = evt.old_path in
      let new = evt.path in
      let root' = relocated_root old new root in
      let key : root.path ≡ old =
        sym (All-lookup (λ k r. k ≡ r.path) old w.index.roots root h.keys.keyed found) in
      let to_root' : moved old new root ≡ root' = moved-eq-relocated_root old new root in
      let same : (moved old new root).path ≡ new = path-moved_old old new root key in
      let follows : after.index ≡ move_prefix old new w.index = ground arith in
      let moves : lookup (moved old new root).path after.index.roots ≡ some (moved old new root) =
        rw follows (lookup-moved w.index old new old root h.keys fresh found) in
      let there : lookup new after.index.roots ≡ some root' =
        subst (λ k. lookup k after.index.roots ≡ some root') same (moves ∙ ap some to_root') in
      let gone : lookup old after.index.roots ≡ none =
        rw follows (lookup-moved_away w.index old new root h fresh found) in
      (
        there,
        gone,
        backed,
        absent,
        removed_normal new root' after is_open normal (ap (λ r. r.path) (sym to_root') ∙ same) there
            absent,
        missing_root old after is_open old_normal gone,
      )
