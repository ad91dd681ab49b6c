-- ===== src/Watcher/Life.antt =====
-- watcher.go: the goroutines of a watcher, runBackend and runEvents, step by step, beside the calls
-- of its users. A step is one round of a loop up to the next operation that may block: a receive of
-- the backend's channels, a Push, a Pop. What the backend sends, and when it closes its channels, is
-- free.
pub mod Kept
pub mod Live
pub mod Order
pub mod Ending
use go_gaze.Common.{ℕ, ◌≡◌, Bool, true, false, Option, none, some, List, [], ◌∷◌, ◌++◌, Bytes}
use go_gaze.Errors.{Error}
use go_gaze.Ops.{Event}
use go_gaze.Queue
use go_gaze.Queue.{Queue, push, pop, store_closed, close_done}
use go_gaze.Env.{Env, Driver}
use go_gaze.Watcher.{Watcher, add, remove, close}
use go_gaze.Watcher.Events.{Effect, emit_error, dispatch_event, handle_backend_event}

-- Where runBackend stands: at its select, at the Push of an event, between the two actions of
-- queue.Close, or behind the close of backendDone.
pub data Phase : Type 0 where
  selecting marking ended : Phase
  pushing : Event → Phase

abbrev pub phase_after : Option Event → Phase
phase_after none = selecting
phase_after (some evt) = pushing evt

-- The event that waits for its Push.
abbrev pub waiting : Phase → List Event
waiting (pushing evt) = evt ∷ []
waiting _ = []

abbrev pub event_list : Option Event → List Event
event_list none = []
event_list (some evt) = evt ∷ []

-- `evt_open` and `err_open` say that evCh and errCh are not nil, `done` that runEvents has closed
-- that channel. `admitted` records the events that handleBackendEvent let through, `dispatched`
-- those that Pop returned, and the two lists of effects what each goroutine did.
pub record Life (D : Type 0) : Type 0 where
  pub watcher : Watcher D
  pub phase : Phase
  pub evt_open : Bool
  pub err_open : Bool
  pub done : Bool
  pub admitted : List Event
  pub dispatched : List Event
  pub effects : List Effect
  pub error_effects : List Effect

abbrev pub start : {D : Type 0} → Watcher D → Life D
start w = record {
  watcher = w;
  phase = selecting;
  evt_open = true;
  err_open = true;
  done = false;
  admitted = [];
  dispatched = [];
  effects = [];
  error_effects = [];
}

module _ {D : Type 0} (env : Env) (drv : Driver D) where
  pub data Step (l : Life D) : Life D → Type 0 where
    adds_path : (path : Bytes) → Step l (record l { watcher = (add env drv path l.watcher).0 })
    removes_path :
        (path : Bytes) → Step l (record l { watcher = (remove env drv path l.watcher).0 })
    -- Close up to its waits.
    closes : Step l (record l { watcher = (close env drv l.watcher).0 })
    -- runBackend receives an event and handles it up to its Push.
    receives :
        (evt : Event)
        → l.phase ≡ selecting
        → l.evt_open ≡ true
        → Step l (record l {
          watcher = (handle_backend_event env evt l.watcher).0;
          phase = phase_after (handle_backend_event env evt l.watcher).1;
          admitted = l.admitted ++ event_list (handle_backend_event env evt l.watcher).1;
        })
    -- The Push returns; its result is not used.
    pushes :
        (first pushed : Bool) (evt : Event) (q : Queue Event)
        → l.phase ≡ pushing evt
        → push first evt l.watcher.queue ≡ some (q, pushed)
        → Step l (record l { watcher = record l.watcher { queue = q }; phase = selecting })
    -- runBackend receives an error, which may be nil.
    reports :
        (e : Option Error)
        → l.phase ≡ selecting
        → l.err_open ≡ true
        → Step l (record l { error_effects = l.error_effects ++ emit_error l.watcher.cfg e })
    events_closed : l.phase ≡ selecting → Step l (record l { evt_open = false })
    errors_closed : l.phase ≡ selecting → Step l (record l { err_open = false })
    -- The loop of runBackend ends, and its deferred calls run.
    leaves :
        l.phase ≡ selecting
        → l.evt_open ≡ false
        → l.err_open ≡ false
        → Step l (record l {
          watcher = record l.watcher { queue = store_closed l.watcher.queue };
          phase = marking;
        })
    marks :
        l.phase ≡ marking
        → Step l (record l {
          watcher = record l.watcher { queue = close_done l.watcher.queue };
          phase = ended;
        })
    -- runEvents: the Pop returns an event, which is dispatched.
    pops :
        (first : Bool) (evt : Event) (q : Queue Event)
        → l.done ≡ false
        → pop first l.watcher.queue ≡ some (q, some evt)
        → Step l (record l {
          watcher = record l.watcher { queue = q };
          dispatched = l.dispatched ++ evt ∷ [];
          effects = l.effects ++ dispatch_event l.watcher.cfg evt;
        })
    -- The Pop returns false, and runEvents returns.
    returns :
        (first : Bool) (q : Queue Event)
        → l.done ≡ false
        → pop first l.watcher.queue ≡ some (q, none)
        → Step l (record l { watcher = record l.watcher { queue = q }; done = true })

  pub data Reach (l : Life D) : Life D → Type 0 where
    here : Reach l l
    next : {m n : Life D} → Reach l m → Step m n → Reach l n
