-- ===== src/Watcher/Events.antt =====
-- watcher.go: what the two goroutines of a watcher do with an event or an error. Calls of the
-- caller's handlers and of the logger are recorded as effects, in order.
use go_gaze.Common.{
  ℕ, ◌&&◌, ◌||◌, not, Option, none, some, List, [], ◌∷◌, Bytes, ◌==◌, nat_eq, bytes_eq,
  if◌then◌else◌,
}
use go_gaze.Errors.{Error, handler_panic}
use go_gaze.Ops.{Event, op_rename, op_overflow, has_op}
use go_gaze.Tree.{Index, matches, move_prefix}
use go_gaze.Filter.{should_exclude}
use go_gaze.Config.{Config, Panic}
use go_gaze.Env.{Env}
use go_gaze.Watcher.{Watcher}

pub data Effect : Type 0 where
  event_handled : Event → Effect
  error_handled : Error → Effect
  event_logged : Event → Effect
  error_logged : Error → Effect
  panic_logged : Bytes → Effect

abbrev logged : Option ℕ → Effect → List Effect
logged none effect = []
logged (some logger) effect = effect ∷ []

abbrev recovered : Option ℕ → Panic → List Effect
recovered logger none = []
recovered logger (some value) = logged logger (panic_logged value)

-- dispatchError with its recover, for the handler of the configuration.
unfoldable pub dispatch_error : Config → (Error → Panic) → Error → List Effect
dispatch_error cfg on_error e = error_handled e ∷ recovered cfg.logger (on_error e)

abbrev emitted : Config → Option (Error → Panic) → Error → List Effect
emitted cfg (some on_error) e = dispatch_error cfg on_error e
emitted cfg none e = logged cfg.logger (error_logged e)

-- emitError; `none` is a nil error.
unfoldable pub emit_error : Config → Option Error → List Effect
unfolding dispatch_error
emit_error cfg none = []
emit_error cfg (some e) = emitted cfg cfg.on_error e

abbrev event_recovered : Config → Panic → List Effect
event_recovered cfg none = []
event_recovered cfg (some value) = emit_error cfg (some (handler_panic value))

abbrev dispatched : Config → Option (Event → Panic) → Event → List Effect
dispatched cfg none evt = logged cfg.logger (event_logged evt)
dispatched cfg (some on_event) evt = event_handled evt ∷ event_recovered cfg (on_event evt)

-- dispatchEvent with its recover.
unfoldable pub dispatch_event : Config → Event → List Effect
unfolding emit_error
dispatch_event cfg evt = dispatched cfg cfg.on_event evt

-- The index after the first test of handleBackendEvent.
unfoldable pub follow_rename : Event → Index → Index
follow_rename evt index =
    if has_op evt.op op_rename && (not (evt.path == []) && not (evt.old_path == []))
    then move_prefix evt.old_path evt.path index
    else index

module _ {D : Type 0} (env : Env) where
  -- The returns of handleBackendEvent after its first test; the result is what it pushes, if
  -- anything.
  unfoldable pub admit : Watcher D → Event → Option Event
  admit w evt =
      if not (has_op evt.op op_overflow)
        && (not (evt.path == [])
            && (not (matches w.index evt.path)
                && (evt.old_path == [] || not (matches w.index evt.old_path))))
      then none
      else if not (evt.op == op_overflow) && not (has_op w.cfg.ops evt.op)
      then none
      else if not (evt.path == []) && should_exclude env.glob_match w.matcher evt.path evt.is_dir
      then none
      else if not (evt.old_path == [])
          && (should_exclude env.glob_match w.matcher evt.old_path evt.is_dir && evt.path == [])
      then none
      else some evt

  -- handleBackendEvent up to its push.
  unfoldable pub handle_backend_event : Event → Watcher D → Watcher D × Option Event
  unfolding follow_rename admit
  handle_backend_event evt w =
      let w' = record w { index = follow_rename evt w.index } in (w', admit w' evt)
