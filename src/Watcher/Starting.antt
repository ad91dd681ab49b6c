-- ===== src/Watcher/Starting.antt =====
-- watcher.go: newWatcher, watchRoot and the constructors that start from a path.
use go_gaze.Common.{
  ◌≡◌, refl, ◌∙◌, sym, ap, subst, Bool, true, false, ◌&&◌, not, Option, none, some, List, arith,
  Bytes, ◌==◌, bytes_eq, if◌then◌else◌,
}
use go_gaze.Common.Assoc.{lookup}
use go_gaze.Errors.{Error, Result, ok, err, bind_result}
use go_gaze.Ops.{Event}
use go_gaze.Queue
use go_gaze.Tree
use go_gaze.Tree.{Index, Root, matches}
use go_gaze.Tree.Runs.{IsIndex, empty-IsIndex}
use go_gaze.Filter
use go_gaze.Filter.{should_exclude}
use go_gaze.Config.{Config, recursion_disabled, recursive_enabled}
use go_gaze.Env.{Env, Target, Driver}
use go_gaze.Watcher.{
  Watcher, Watched, watching, failed, not_made, filter_config, root_of, added, add_target, close,
  new_watcher, watch_root, watch_made, root_watched, close_failed, failed_with, config_watch_file,
}
use go_gaze.Watcher.Events.{handle_backend_event}
use go_gaze.Watcher.Delivery.{in_scope, is_wanted, is_hidden, handle_backend_event-eq}
use go_gaze.Watcher.Closing.{IsClosed, close-first, Step, run, IsWatcher, run-IsWatcher}
use go_gaze.Watcher.Roots.{IsPrepared, prepare_target-IsPrepared, add-open, added-Added}

disabled_depth :
    (cfg : Config) (is_dir : Bool)
    → cfg.recursion ≡ recursion_disabled
    → (is_dir && recursive_enabled cfg true) ≡ false
unfolding recursive_enabled
disabled_depth cfg is_dir h = ground arith

module _ {D : Type 0} (env : Env) (drv : Driver D) where
  -- A new watcher is open, and has no root and no event.
  pub record IsNew (w : Watcher D) : Type 0 where
    pub index : w.index ≡ Tree.empty
    pub closed : w.closed ≡ false
    pub once : w.close_once ≡ false
    pub queue : w.queue ≡ Queue.new w.cfg.queue_capacity

  pub new_watcher-IsNew : (cfg : Config) {w : Watcher D} → new_watcher env drv cfg ≡ ok w → IsNew w
  unfolding new_watcher
  new_watcher-IsNew cfg {w} h =
      let (matcher, e, h1) = bind_result (Filter.new env.glob_match (filter_config cfg)) _ h in
      let (driver, e', h2) = bind_result (drv.new _) _ h1 in
      record {
        index = ground arith;
        closed = ground arith;
        once = ground arith;
        queue = ground arith;
      }

  pub new-IsWatcher : {w : Watcher D} → IsNew w → IsWatcher env drv w
  new-IsWatcher n = record {
    index = subst IsIndex (sym n.index) empty-IsIndex;
    once = n.once ∙ sym n.closed;
  }

  -- After any calls on a new watcher, and events that it handled, in any order, an event is pushed,
  -- unchanged, exactly when it is in scope of the roots as they stand after a rename is followed, its
  -- operation is wanted and its path is not excluded.
  pub pushed_after_calls :
      (cfg : Config) (w : Watcher D) (steps : List Step) (evt : Event)
      → new_watcher env drv cfg ≡ ok w
      → let w' = run env drv steps w in
        (handle_backend_event env evt w').1 ≡ (
          if in_scope env (handle_backend_event env evt w').0 evt
            && (is_wanted w'.cfg evt && not (is_hidden env w' evt))
          then some evt
          else none)
  pushed_after_calls cfg w steps evt h =
      handle_backend_event-eq env evt (run env drv steps w)
        (run-IsWatcher env drv steps w (new-IsWatcher (new_watcher-IsNew cfg h))).index

  -- The watcher has exactly one root, which is a prepared target.
  pub record HasOneRoot (w : Watcher D) : Type 0 where
    pub target : Target
    pub prepared : IsPrepared env drv w target
    pub roots :
        (q : Bytes)
        → lookup q w.index.roots
          ≡ (if target.path == q then some (root_of env drv target) else none)

  -- The two ways in which watchRoot returns on a new watcher.
  abbrev pub WatchedRoot : Watcher D → Watched env drv → Type 0
  WatchedRoot w (watching w') = (w'.cfg ≡ w.cfg) × (w'.closed ≡ false) × HasOneRoot w'
  WatchedRoot w (failed w' e) = IsClosed env drv w'
  WatchedRoot w (not_made e) = ⊥

  close-IsClosed : (w : Watcher D) → w.close_once ≡ false → IsClosed env drv (close env drv w).0
  close-IsClosed w o =
      subst (λ r. IsClosed env drv r.0) (sym (close-first env drv w o))
        (record { flag = refl; once = refl })

  close_failed-IsClosed :
      (w0 : Watcher D) (r : Watcher D × Option Error) (e : Error)
      → IsClosed env drv r.0
      → WatchedRoot w0 (failed_with env drv (close_failed env drv r e))
  close_failed-IsClosed w0 (w, none) e c = c
  close_failed-IsClosed w0 (w, some e') e c = c

  added-WatchedRoot :
      (w : Watcher D) (t : Target) (answer : D × Option Error)
      → IsNew w
      → IsPrepared env drv w t
      → WatchedRoot w
          (root_watched env drv (added env drv w t (Tree.add (root_of env drv t) w.index) answer))
  unfolding lookup
  added-WatchedRoot w t (d, none) n p = (
    refl,
    n.closed,
    record {
      target = t;
      prepared = record { kept = p.kept; watched = p.watched; depth = p.depth };
      roots = λ q.
          (added-Added env drv w t (d, none)).2 q
          ∙ ap (λ i. if t.path == q then some (root_of env drv t) else lookup q i.roots) n.index;
    },
  )
  added-WatchedRoot w t (d, some e) n p =
      close_failed-IsClosed w (close env drv _) _ (close-IsClosed _ n.once)

  add_target-WatchedRoot :
      (w : Watcher D) (r : Result Target)
      → IsNew w
      → ((t : Target) → r ≡ ok t → IsPrepared env drv w t)
      → WatchedRoot w (root_watched env drv (add_target env drv w r))
  add_target-WatchedRoot w (err e) n p =
      close_failed-IsClosed w (close env drv w) e (close-IsClosed w n.once)
  add_target-WatchedRoot w (ok t) n p = added-WatchedRoot w t (drv.add t w.driver) n (p t refl)

  -- On a new watcher, watchRoot returns it open, with its configuration and exactly one root, which
  -- is a prepared target; or it fails, and the watcher is closed.
  pub watch_root-WatchedRoot :
      (w : Watcher D) (path : Bytes) → IsNew w → WatchedRoot w (watch_root env drv w path)
  unfolding watch_root
  watch_root-WatchedRoot w path n =
      subst (λ r. WatchedRoot w (root_watched env drv r)) (sym (add-open env drv path w n.closed))
        (add_target-WatchedRoot w _ n (λ t h. prepare_target-IsPrepared env drv w path h))

  made_first :
      (r : Result (Watcher D)) (path : Bytes) (w' : Watcher D)
      → watch_made env drv r path ≡ watching w'
      → (w : Watcher D) × (r ≡ ok w) × (watch_root env drv w path ≡ watching w')
  made_first (err e) path w' h = ground arith
  made_first (ok w) path w' h = (w, refl, h)

  new_watcher-recursion :
      (cfg : Config) {w : Watcher D}
      → new_watcher env drv cfg ≡ ok w
      → w.cfg.recursion ≡ cfg.recursion
  unfolding new_watcher
  new_watcher-recursion cfg h =
      let (matcher, e, h1) = bind_result (Filter.new env.glob_match (filter_config cfg)) _ h in
      let (driver, e', h2) = bind_result (drv.new _) _ h1 in ground arith

  -- WatchFile with a configuration: the watcher that it returns is open and has exactly one root,
  -- which is a prepared target and is not recursive, whatever the configuration says.
  pub watch_file-HasOneRoot :
      (cfg : Config) (path : Bytes) (w : Watcher D)
      → config_watch_file env drv cfg path ≡ watching w
      → (w.closed ≡ false) × (root : HasOneRoot w) × (root.target.recursive ≡ false)
  unfolding config_watch_file
  watch_file-HasOneRoot cfg path w h =
      let (w0, e, h') = made_first (new_watcher env drv _) path w h in
      let (same, opened, root) =
        subst (WatchedRoot w0) h' (watch_root-WatchedRoot w0 path (new_watcher-IsNew _ e)) in
      (
        opened,
        root,
        root.prepared.depth
            ∙ disabled_depth w.cfg root.target.is_dir
                (ap (λ c. c.recursion) same ∙ new_watcher-recursion _ e),
      )
