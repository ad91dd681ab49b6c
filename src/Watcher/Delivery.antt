-- ===== src/Watcher/Delivery.antt =====
-- watcher.go: which events of the backend reach the queue, and what a dispatch does.
use go_gaze.Common.{
  ◌≡◌, refl, inl, inr, Bool, ◌&&◌, ◌||◌, not, none, some, [], arith, ◌==◌, nat_eq, bytes_eq,
  bytes_beq, Bool-cases, if◌then◌else◌,
}
use go_gaze.Ops.{Event, op_rename, op_overflow, has_op}
use go_gaze.Tree.{Index}
use go_gaze.Tree.Matching.{covered, matches-eq-covered}
use go_gaze.Tree.Runs.{IsIndex, moves, call, call-IsIndex}
use go_gaze.Filter.{should_exclude}
use go_gaze.Config.{Config}
use go_gaze.Env.{Env}
use go_gaze.Watcher.{Watcher}
use go_gaze.Watcher.Events.{follow_rename, admit, handle_backend_event}

follow_rename-IsIndex : (evt : Event) (i : Index) → IsIndex i → IsIndex (follow_rename evt i)
unfolding follow_rename call
follow_rename-IsIndex evt i h =
    elim (Bool-cases
      (has_op evt.op op_rename && (not (evt.path == []) && not (evt.old_path == [])))) [
        | inl e ↦ rw (e, follow_rename) (call-IsIndex (moves evt.old_path evt.path) h)
        | inr e ↦ rw (e, follow_rename) h
      ]

-- The operation is wanted.
unfoldable pub is_wanted : Config → Event → Bool
is_wanted cfg evt = evt.op == op_overflow || has_op cfg.ops evt.op

module _ {D : Type 0} (env : Env) where
  -- Handling an event keeps the invariant of the index.
  pub handle-IsIndex :
      (evt : Event) (w : Watcher D)
      → IsIndex w.index
      → IsIndex (handle_backend_event env evt w).0.index
  unfolding handle_backend_event
  handle-IsIndex evt w h = follow_rename-IsIndex evt w.index h

  -- An event concerns the roots: it reports an overflow or has no path, or a root covers one of its
  -- paths.
  unfoldable pub in_scope : Watcher D → Event → Bool
  in_scope w evt =
      has_op evt.op op_overflow
      || (evt.path == []
          || (covered w.index.roots evt.path
              || (not (evt.old_path == []) && covered w.index.roots evt.old_path)))

  -- The path that the event reports, or the old one if it reports no other, is excluded.
  unfoldable pub is_hidden : Watcher D → Event → Bool
  is_hidden w evt =
      if not (evt.path == [])
      then should_exclude env.glob_match w.matcher evt.path evt.is_dir
      else not (evt.old_path == [])
        && should_exclude env.glob_match w.matcher evt.old_path evt.is_dir

  admit-eq :
      (evt : Event) (w : Watcher D)
      → IsIndex w.index
      → admit env w evt ≡ (
          if in_scope w evt && (is_wanted w.cfg evt && not (is_hidden w evt))
          then some evt
          else none)
  unfolding admit in_scope is_wanted is_hidden
  admit-eq evt w h = ground (
    arith,
    matches-eq-covered w.index evt.path h.built,
    matches-eq-covered w.index evt.old_path h.built,
  )

  -- An event is pushed, unchanged, exactly when it is in scope of the roots as they stand after a
  -- rename is followed, its operation is wanted and its path is not excluded.
  pub handle_backend_event-eq :
      (evt : Event) (w : Watcher D)
      → IsIndex w.index
      → (handle_backend_event env evt w).1 ≡ (
          if in_scope (handle_backend_event env evt w).0 evt
            && (is_wanted w.cfg evt && not (is_hidden w evt))
          then some evt
          else none)
  unfolding handle_backend_event is_hidden
  handle_backend_event-eq evt w h =
      admit-eq evt (record w { index = follow_rename evt w.index })
        (follow_rename-IsIndex evt w.index h)

  -- The overflow event of the backends is pushed by every watcher, whatever its mask, roots and
  -- filters.
  pub handle_overflow :
      (w : Watcher D) (is_dir : Bool)
      → (handle_backend_event env
          (record { path = []; old_path = []; op = op_overflow; is_dir = is_dir })
          w).1
        ≡ some (record { path = []; old_path = []; op = op_overflow; is_dir = is_dir })
  unfolding handle_backend_event has_op bytes_beq
  handle_overflow w is_dir = refl
