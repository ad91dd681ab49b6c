-- ===== src/Darwin/Handling.antt =====
-- internal/backend/backend_darwin.go: handle, a round of run's loop, emitError. Kevent's answer is an
-- argument of a round; a Close during a round counts as one before it.
use go_gaze.Common.{
  ℕ, Bool, true, false, ◌||◌, not, Option, none, some, List, [], ◌∷◌, ◌++◌, Bytes, ◌==◌, nat_eq,
  bytes_eq, ltb, length, if◌then◌else◌,
}
use go_gaze.Common.Assoc.{lookup}
use go_gaze.Errors.{Error}
use go_gaze.GoPath.{dir}
use go_gaze.Ops.{Event, op_write, op_remove, op_chmod}
use go_gaze.Env.{BackendConfig}
use go_gaze.Linux.Masks.{has_bit}
use go_gaze.Darwin.{Kqueue, Node, DarwinWatcher, remove_path_if_watched, remove_prefix_if_watched}
use go_gaze.Darwin.Adding.{Disk}
use go_gaze.Darwin.Scanning.{Sent, rescan_dir}

-- The bits of Kevent_t.Fflags.
abbrev pub note_delete : ℕ
note_delete = 0x1

abbrev pub note_write : ℕ
note_write = 0x2

abbrev pub note_extend : ℕ
note_extend = 0x4

abbrev pub note_attrib : ℕ
note_attrib = 0x8

abbrev pub note_rename : ℕ
note_rename = 0x20

abbrev pub note_revoke : ℕ
note_revoke = 0x40

-- unix.Kevent_t, as far as handle reads it.
pub record Kevent : Type 0 where
  pub ident : ℕ
  pub flags : ℕ

abbrev pub is_gone : ℕ → Bool
is_gone flags =
    has_bit flags note_delete || (has_bit flags note_rename || has_bit flags note_revoke)

abbrev pub is_written : ℕ → Bool
is_written flags = has_bit flags note_write || has_bit flags note_extend

abbrev pub path_or_empty : Option Bytes → Bytes
path_or_empty none = []
path_or_empty (some path) = path

module _ {K : Type 0} where
  abbrev pub sent_after : List Event → Option (Sent K) → Option (Sent K)
  sent_after sent none = none
  sent_after sent (some (w, more)) = some (w, sent ++ more)

  abbrev pub then_handle : Option (Sent K) → (DarwinWatcher K → Option (Sent K)) → Option (Sent K)
  then_handle none f = none
  then_handle (some (w, sent)) f = sent_after sent (f w)

module _ {K : Type 0} (kqueue : Kqueue K) (disk : Disk) (cfg : BackendConfig) where
  abbrev pub rescan_parent : Bytes → DarwinWatcher K → Option (Sent K)
  rescan_parent path w =
      if not (dir path == path) then rescan_dir kqueue disk cfg (dir path) w else some (w, [])

  -- What handle does behind the test for NOTE_ATTRIB.
  unfoldable pub handle_dir : ℕ → Bytes → DarwinWatcher K → Option (Sent K)
  unfolding rescan_dir remove_prefix_if_watched
  handle_dir flags path w =
      if is_gone flags
      then sent_after (record { path = path; old_path = []; op = op_remove; is_dir = true } ∷ [])
          (rescan_parent path (remove_prefix_if_watched kqueue path w).0)
      else if is_written flags
      then rescan_dir kqueue disk cfg path w
      else some (w, [])

  unfoldable pub handle_file : ℕ → Bytes → DarwinWatcher K → Option (Sent K)
  unfolding rescan_dir remove_path_if_watched
  handle_file flags path w =
      if is_gone flags
      then sent_after (record { path = path; old_path = []; op = op_remove; is_dir = false } ∷ [])
          (rescan_parent path (remove_path_if_watched kqueue path w).0)
      else if is_written flags
      then some (w, record { path = path; old_path = []; op = op_write; is_dir = false } ∷ [])
      else some (w, [])

  unfoldable pub handle_node : ℕ → Bytes → Node → DarwinWatcher K → Option (Sent K)
  unfolding handle_dir handle_file
  handle_node flags path node w =
      sent_after
        (if has_bit flags note_attrib
          then record { path = path; old_path = []; op = op_chmod; is_dir = node.is_dir } ∷ []
          else [])
        (if node.is_dir then handle_dir flags path w else handle_file flags path w)

  -- handle; `none` is a panic.
  unfoldable pub handle : Kevent → DarwinWatcher K → Option (Sent K)
  unfolding handle_node
  handle event w =
      let path = path_or_empty (lookup event.ident w.fd_to_path) in
      elim (lookup path w.watched) [
        | none ↦ some (w, [])
        | some node ↦ handle_node event.flags path node w
      ]

  unfoldable pub handle_all : List Kevent → DarwinWatcher K → Option (Sent K)
  unfolding handle
  handle_all [] w = some (w, [])
  handle_all (event ∷ events) w = then_handle (handle event w) (handle_all events)

-- What Kevent answers; EINTR is apart.
pub data Answer : Type 0 where
  interrupted : Answer
  failed : Error → Answer
  filled : List Kevent → Answer

-- What a round leaves: the state, the events that it sent, the buffer of the errors channel, and
-- whether the loop goes on.
pub record Round (K : Type 0) : Type 0 where
  pub state : DarwinWatcher K
  pub sent : List Event
  pub errors : List Error
  pub running : Bool

-- `make(chan error, 64)`
abbrev pub errors_capacity : ℕ
errors_capacity = 64

-- emitError, which drops an error for which there is no room.
unfoldable pub emit_error : Error → List Error → List Error
emit_error e errors = if ltb (length errors) errors_capacity then errors ++ e ∷ [] else errors

module _ {K : Type 0} where
  abbrev pub goes_on : List Error → Sent K → Round K
  goes_on errors (w, sent) = record { state = w; sent = sent; errors = errors; running = true }

  unfoldable pub on_failure : Error → List Error → DarwinWatcher K → Round K
  unfolding emit_error
  on_failure e errors w =
      if w.closed
      then record { state = w; sent = []; errors = errors; running = false }
      else goes_on (emit_error e errors) (w, [])

  abbrev pub on_events : List Error → Option (Sent K) → Option (Round K)
  on_events errors none = none
  on_events errors (some r) = some (goes_on errors r)

module _ {K : Type 0} (kqueue : Kqueue K) (disk : Disk) (cfg : BackendConfig) where
  -- One round of run's loop.
  unfoldable pub round : Answer → List Error → DarwinWatcher K → Option (Round K)
  unfolding on_failure handle_all
  round interrupted errors w = some (goes_on errors (w, []))
  round (failed e) errors w = some (on_failure e errors w)
  round (filled events) errors w = on_events errors (handle_all kqueue disk cfg events w)
