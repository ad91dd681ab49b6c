-- ===== src/Watcher/Life/Kept.antt =====
-- watcher.go: the calls of a watcher's users leave its queue and its configuration alone.
use go_gaze.Common.{◌≡◌, refl, sym, subst, Bool-cases, inl, inr, Option, none, some, Bytes}
use go_gaze.Errors.{Error, Result, ok, err}
use go_gaze.Tree.{Index, Root}
use go_gaze.Env.{Env, Driver, Target}
use go_gaze.Watcher.{
  Watcher, added, add_target, removed, remove_root, remove_path, add, remove, close,
}
use go_gaze.Watcher.Roots.{add-open, add-closed, remove-open, remove-closed}
use go_gaze.Watcher.Closing.{close-first, close-done}

-- What the calls of the users and of handleBackendEvent leave alone.
pub record Kept {D : Type 0} (w w' : Watcher D) : Type 0 where
  pub queue : w'.queue ≡ w.queue
  pub cfg : w'.cfg ≡ w.cfg

module _ {D : Type 0} (env : Env) (drv : Driver D) where
  added-Kept :
      (w : Watcher D) (t : Target) (i : Index) (answer : D × Option Error)
      → Kept w (added env drv w t i answer).0
  added-Kept w t i (d, none) = record { queue = refl; cfg = refl }
  added-Kept w t i (d, some e) = record { queue = refl; cfg = refl }

  add_target-Kept : (w : Watcher D) (r : Result Target) → Kept w (add_target env drv w r).0
  add_target-Kept w (err e) = record { queue = refl; cfg = refl }
  add_target-Kept w (ok t) = added-Kept w t _ _

  pub add-Kept : (path : Bytes) (w : Watcher D) → Kept w (add env drv path w).0
  add-Kept path w = elim (Bool-cases w.closed) [
    | inl e ↦
        subst (λ r. Kept w r.0) (sym (add-closed env drv path w e))
          (record { queue = refl; cfg = refl })
    | inr e ↦ subst (λ r. Kept w r.0) (sym (add-open env drv path w e)) (add_target-Kept w _)
  ]

  removed-Kept :
      (w : Watcher D) (i : Index) (answer : D × Option Error)
      → Kept w (removed env drv w i answer).0
  removed-Kept w i (d, none) = record { queue = refl; cfg = refl }
  removed-Kept w i (d, some e) = record { queue = refl; cfg = refl }

  remove_root-Kept :
      (w : Watcher D) (answer : Index × Option Root) → Kept w (remove_root env drv w answer).0
  remove_root-Kept w (i, none) = record { queue = refl; cfg = refl }
  remove_root-Kept w (i, some r) = removed-Kept w i _

  remove_path-Kept : (w : Watcher D) (r : Result Bytes) → Kept w (remove_path env drv w r).0
  remove_path-Kept w (err e) = record { queue = refl; cfg = refl }
  remove_path-Kept w (ok path) = remove_root-Kept w _

  pub remove-Kept : (path : Bytes) (w : Watcher D) → Kept w (remove env drv path w).0
  remove-Kept path w = elim (Bool-cases w.closed) [
    | inl e ↦
        subst (λ r. Kept w r.0) (sym (remove-closed env drv path w e))
          (record { queue = refl; cfg = refl })
    | inr e ↦ subst (λ r. Kept w r.0) (sym (remove-open env drv path w e)) (remove_path-Kept w _)
  ]

  pub close-Kept : (w : Watcher D) → Kept w (close env drv w).0
  close-Kept w = elim (Bool-cases w.close_once) [
    | inl e ↦
        subst (λ r. Kept w r.0) (sym (close-done env drv w e)) (record { queue = refl; cfg = refl })
    | inr e ↦
        subst (λ r. Kept w r.0) (sym (close-first env drv w e))
          (record { queue = refl; cfg = refl })
  ]
