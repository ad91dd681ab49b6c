-- ===== src/Watcher/Closing.antt =====
-- watcher.go: calls on a watcher over its life, Close, and the constructors that add a root.
use go_gaze.Common.{
  ◌≡◌, refl, ◌∙◌, sym, ap, subst, inl, inr, true, false, Option, none, some, List, [], ◌∷◌, arith,
  Bytes, bytes_eq, Bool-cases,
}
use go_gaze.Errors.{Error, watcher_closed, Result, ok, err}
use go_gaze.Ops.{Event}
use go_gaze.Tree
use go_gaze.Tree.{Index, Root}
use go_gaze.Tree.Runs.{IsIndex, call, adds, removes, call-IsIndex}
use go_gaze.Env.{Env, Target, Driver}
use go_gaze.Watcher.{
  Watcher, root_of, added, add_target, remove_root, remove_path, removed, add, remove, close,
  closed_with,
}
use go_gaze.Watcher.Events.{handle_backend_event}
use go_gaze.Watcher.Delivery.{handle-IsIndex}
use go_gaze.Watcher.Roots.{add-open, add-closed, remove-open, remove-closed}

-- The calls that change a watcher: those of its user, and those of its goroutine. In a run the file
-- system of `env` gives the same answers to every call.
pub data Step : Type 0 where
  adds_path : Bytes → Step
  removes_path : Bytes → Step
  closes : Step
  handles : Event → Step

module _ {D : Type 0} (env : Env) (drv : Driver D) where
  unfoldable pub step : Step → Watcher D → Watcher D
  unfolding add remove close handle_backend_event
  step (adds_path path) w = (add env drv path w).0
  step (removes_path path) w = (remove env drv path w).0
  step closes w = (close env drv w).0
  step (handles evt) w = (handle_backend_event env evt w).0

  unfoldable pub run : List Step → Watcher D → Watcher D
  unfolding step
  run [] w = w
  run (s ∷ steps) w = run steps (step s w)

  -- Every later call finds the watcher closed.
  pub record IsClosed (w : Watcher D) : Type 0 where
    pub flag : w.closed ≡ true
    pub once : w.close_once ≡ true

  -- The index is consistent, and the body of the `sync.Once` has run only on a closed watcher.
  pub record IsWatcher (w : Watcher D) : Type 0 where
    pub index : IsIndex w.index
    pub once : w.close_once ≡ w.closed

  added-IsIndex :
      (w : Watcher D) (t : Target) (answer : D × Option Error)
      → IsIndex w.index
      → IsWatcher w
      → IsWatcher (added env drv w t (Tree.add (root_of env drv t) w.index) answer).0
  unfolding call
  added-IsIndex w t (d, none) h g = record {
    index = call-IsIndex (adds (root_of env drv t)) h;
    once = g.once;
  }
  added-IsIndex w t (d, some e) h g = record {
    index = call-IsIndex (removes t.path) (call-IsIndex (adds (root_of env drv t)) h);
    once = g.once;
  }

  removed-IsWatcher :
      (w : Watcher D) (i : Index) (answer : D × Option Error)
      → IsIndex i
      → IsWatcher w
      → IsWatcher (removed env drv w i answer).0
  removed-IsWatcher w i (d, none) h g = record { index = h; once = g.once }
  removed-IsWatcher w i (d, some e) h g = record { index = h; once = g.once }

  remove_root-IsWatcher :
      (w : Watcher D) (answer : Index × Option Root)
      → IsIndex answer.0
      → IsWatcher w
      → IsWatcher (remove_root env drv w answer).0
  remove_root-IsWatcher w (i, none) h g = record { index = h; once = g.once }
  remove_root-IsWatcher w (i, some r) h g = removed-IsWatcher w i (drv.remove r.path w.driver) h g

  add_target-IsWatcher :
      (w : Watcher D) (r : Result Target) → IsWatcher w → IsWatcher (add_target env drv w r).0
  add_target-IsWatcher w (err e) g = g
  add_target-IsWatcher w (ok t) g = added-IsIndex w t _ g.index g

  remove_path-IsWatcher :
      (w : Watcher D) (r : Result Bytes) → IsWatcher w → IsWatcher (remove_path env drv w r).0
  unfolding call
  remove_path-IsWatcher w (err e) g = g
  remove_path-IsWatcher w (ok path) g =
      remove_root-IsWatcher w (Tree.remove path w.index) (call-IsIndex (removes path) g.index) g

  pub close-done : (w : Watcher D) → w.close_once ≡ true → close env drv w ≡ (w, w.close_err)
  unfolding close
  close-done w c = ground arith

  pub close-first :
      (w : Watcher D)
      → w.close_once ≡ false
      → close env drv w ≡ (closed_with env drv w (drv.close w.driver), (drv.close w.driver).1)
  unfolding close
  close-first w c = ground arith

  step-IsWatcher : (s : Step) (w : Watcher D) → IsWatcher w → IsWatcher (step s w)
  unfolding step
  step-IsWatcher (adds_path path) w g = elim (Bool-cases w.closed) [
    | inl e ↦ rw (add-closed env drv path w e, step) g
    | inr e ↦ rw (add-open env drv path w e, step) (add_target-IsWatcher w _ g)
  ]
  step-IsWatcher (removes_path path) w g = elim (Bool-cases w.closed) [
    | inl e ↦ rw (remove-closed env drv path w e, step) g
    | inr e ↦ rw (remove-open env drv path w e, step) (remove_path-IsWatcher w _ g)
  ]
  step-IsWatcher closes w g = elim (Bool-cases w.close_once) [
    | inl e ↦ subst (λ r. IsWatcher r.0) (sym (close-done w e)) g
    | inr e ↦
        subst (λ r. IsWatcher r.0) (sym (close-first w e)) (record { index = g.index; once = refl })
  ]
  step-IsWatcher (handles evt) w g = record {
    index = handle-IsIndex env evt w g.index;
    once = g.once;
  }

  pub run-IsWatcher : (steps : List Step) (w : Watcher D) → IsWatcher w → IsWatcher (run steps w)
  unfolding run
  run-IsWatcher [] w g = g
  run-IsWatcher (s ∷ steps) w g = run-IsWatcher steps (step s w) (step-IsWatcher s w g)

  -- What no call on a closed watcher changes.
  pub record Frozen (w w' : Watcher D) : Type 0 where
    pub driver : w'.driver ≡ w.driver
    pub closed : w'.closed ≡ true
    pub once : w'.close_once ≡ true
    pub close_err : w'.close_err ≡ w.close_err

  step-Frozen : (s : Step) (w w' : Watcher D) → Frozen w w' → Frozen w (step s w')
  unfolding step handle_backend_event
  step-Frozen (adds_path path) w w' f = rw (add-closed env drv path w' f.closed, step) f
  step-Frozen (removes_path path) w w' f = rw (remove-closed env drv path w' f.closed, step) f
  step-Frozen closes w w' f = subst (λ r. Frozen w r.0) (sym (close-done w' f.once)) f
  step-Frozen (handles evt) w w' f = record {
    driver = f.driver;
    closed = f.closed;
    once = f.once;
    close_err = f.close_err;
  }

  run-Frozen : (steps : List Step) (w w' : Watcher D) → Frozen w w' → Frozen w (run steps w')
  unfolding run
  run-Frozen [] w w' f = f
  run-Frozen (s ∷ steps) w w' f = run-Frozen steps w (step s w') (step-Frozen s w w' f)

  close-Frozen : (w : Watcher D) → IsWatcher w → Frozen (close env drv w).0 (close env drv w).0
  close-Frozen w g = elim (Bool-cases w.close_once) [
    | inl e ↦
        rw (close-done w e)
          (record { driver = refl; closed = sym g.once ∙ e; once = e; close_err = refl })
    | inr e ↦
        rw (close-first w e)
          (record { driver = refl; closed = refl; once = refl; close_err = refl })
  ]

  close_answer : (w : Watcher D) → (close env drv w).1 ≡ (close env drv w).0.close_err
  unfolding close
  close_answer w = refl

  -- On a watcher whose index is consistent, and whose `closed` is set exactly when Close has run, as
  -- on every watcher after any calls: after Close, whatever calls and events follow, in any order: the driver stays as Close left it,
  -- Add and Remove return ErrWatcherClosed and change nothing, and Close returns the error that it
  -- returned the first time.
  pub after_close :
      (w : Watcher D) (steps : List Step) (path : Bytes)
      → IsWatcher w
      → let closed = close env drv w in
        let w' = run steps closed.0 in
        (w'.driver ≡ closed.0.driver)
        × (add env drv path w' ≡ (w', some watcher_closed))
        × (remove env drv path w' ≡ (w', some watcher_closed))
        × (close env drv w' ≡ (w', closed.1))
  after_close w steps path g =
      let f = run-Frozen steps _ _ (close-Frozen w g) in
      (
        f.driver,
        add-closed env drv path _ f.closed,
        remove-closed env drv path _ f.closed,
        close-done _ f.once
            ∙ ap (λ e. (run steps (close env drv w).0, e)) (f.close_err ∙ sym (close_answer w)),
      )
