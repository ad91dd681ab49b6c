-- ===== src/Linux/Polling.antt =====
-- internal/backend/backend_linux.go: the loop of run, emitError and isClosed. What poll and read
-- answer is an argument of a round. A round is one step; a Close during it counts as one before it,
-- since flushPending does not ask whether the backend is closed.
use go_gaze.Common.{
  ℕ, Bool, true, false, Option, none, some, List, [], ◌∷◌, ◌++◌, Bytes, ltb, length, if◌then◌else◌,
}
use go_gaze.Errors.{Error}
use go_gaze.Ops.{Event}
use go_gaze.Env.{BackendConfig}
use go_gaze.Linux.{Inotify, LinuxWatcher}
use go_gaze.Linux.Walking.{Files}
use go_gaze.Linux.Handling.{Sent, flush_pending}
use go_gaze.Linux.Reading.{read_buffer}

-- The two errors that run wraps.
pub data InotifyError : Type 0 where
  poll_inotify read_inotify : Error → InotifyError

-- unix.Poll and, if it answers that there is something to read, unix.Read. EINTR is apart.
pub data Answer : Type 0 where
  interrupted timed_out : Answer
  failed : InotifyError → Answer
  filled : Bytes → Answer

-- A round's clock: the cutoff for flushPending, and the time at which each event is handled.
pub record Moment : Type 0 where
  pub cutoff : ℕ
  pub clock : ℕ → ℕ
  pub answer : Answer

-- What a round leaves: the state, the events that it sent, the buffer of the errors channel, and
-- whether the loop goes on.
pub record Round (K : Type 0) : Type 0 where
  pub state : LinuxWatcher K
  pub sent : List Event
  pub errors : List InotifyError
  pub running : Bool

-- `make(chan error, 64)`
abbrev pub errors_capacity : ℕ
errors_capacity = 64

-- emitError, which drops an error for which there is no room.
unfoldable pub emit_error : InotifyError → List InotifyError → List InotifyError
emit_error e errors = if ltb (length errors) errors_capacity then errors ++ e ∷ [] else errors

module _ {K : Type 0} where
  abbrev pub goes_on : List InotifyError → Sent K → Round K
  goes_on errors (w, sent) = record { state = w; sent = sent; errors = errors; running = true }

  unfoldable pub on_failure : InotifyError → List InotifyError → Sent K → Round K
  unfolding emit_error
  on_failure e errors (w, sent) =
      if w.closed
      then record { state = w; sent = sent; errors = errors; running = false }
      else goes_on (emit_error e errors) (w, sent)

  -- `none` is a panic.
  abbrev pub on_read : List InotifyError → List Event → Option (Sent K) → Option (Round K)
  on_read errors sent none = none
  on_read errors sent (some (w, more)) = some (goes_on errors (w, sent ++ more))

module _ {K : Type 0} (inotify : Inotify K) (files : Files) (cfg : BackendConfig) where
  unfoldable pub on_answer : (ℕ → ℕ) → Answer → List InotifyError → Sent K → Option (Round K)
  unfolding on_failure read_buffer
  on_answer clock interrupted errors r = some (goes_on errors r)
  on_answer clock timed_out errors r = some (goes_on errors r)
  on_answer clock (failed e) errors r = some (on_failure e errors r)
  on_answer clock (filled buffer) errors (w, sent) =
      on_read errors sent (read_buffer inotify files cfg clock buffer w)

  -- One round of run's loop.
  unfoldable pub round : Moment → List InotifyError → LinuxWatcher K → Option (Round K)
  unfolding flush_pending on_answer
  round moment errors w =
      on_answer moment.clock moment.answer errors (flush_pending inotify moment.cutoff w)
