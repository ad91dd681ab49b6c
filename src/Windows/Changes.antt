-- ===== src/Windows/Changes.antt =====
-- internal/backend/backend_windows.go: the events that runRoot sends for the entries of a buffer, one
-- round of its loop, and probeDir. The functions of path/filepath on Windows, of unicode/utf16 and
-- the file system are parameters; the file system does not change while one buffer is handled.
use go_gaze.Common.{
  ℕ, Bool, true, false, ◌||◌, not, List, [], ◌∷◌, ◌++◌, Bytes, ◌==◌, nat_eq, bytes_eq, ltb, length,
  if◌then◌else◌,
}
use go_gaze.Errors.{Error, Result, ok, err}
use go_gaze.Ops.{Event, op_create, op_write, op_remove, op_rename, op_overflow}
use go_gaze.Env.{FileInfo}
use go_gaze.Windows.{WindowsRoot, invalid_handle, operation_aborted, is_os_error}
use go_gaze.Windows.Reading.{Info, parse_buffer}

pub record Paths : Type 0 where
  pub decode : List ℕ → Bytes
  pub from_slash : Bytes → Bytes
  pub join : Bytes → Bytes → Bytes
  pub clean : Bytes → Bytes
  pub stat : Bytes → Result FileInfo

-- The values of windows.FILE_ACTION.
abbrev pub action_added : ℕ
action_added = 1

abbrev pub action_removed : ℕ
action_removed = 2

abbrev pub action_modified : ℕ
action_modified = 3

abbrev pub action_renamed_old_name : ℕ
action_renamed_old_name = 4

abbrev pub action_renamed_new_name : ℕ
action_renamed_new_name = 5

-- windows.ReadDirectoryChanges, with the bytes that it wrote.
pub data Answer : Type 0 where
  failed : Error → Answer
  filled : Bytes → Answer

-- What a round leaves: `pendingOld`, the events that it sent, the buffer of the errors channel, and
-- whether the loop goes on.
pub record Round : Type 0 where
  pub pending_old : Bytes
  pub sent : List Event
  pub errors : List Error
  pub running : Bool

-- `make(chan error, 64)`
abbrev pub errors_capacity : ℕ
errors_capacity = 64

-- emitError, which drops an error for which there is no room.
unfoldable pub emit_error : Error → List Error → List Error
emit_error e errors = if ltb (length errors) errors_capacity then errors ++ e ∷ [] else errors

abbrev pub overflowed : Event
overflowed = record { path = []; old_path = []; op = op_overflow; is_dir = false }

unfoldable pub on_failure : Bool → Error → Bytes → List Error → Round
unfolding is_os_error emit_error
on_failure closed e pending errors = record {
  pending_old = pending;
  sent = [];
  errors =
      if closed || (is_os_error invalid_handle e || is_os_error operation_aborted e)
      then errors
      else emit_error e errors;
  running = false;
}

module _ (paths : Paths) where
  abbrev is_dir_of : Result FileInfo → Bool
  is_dir_of (err e) = false
  is_dir_of (ok info) = info.is_dir

  unfoldable pub probe_dir : Bytes → Bool
  probe_dir path = is_dir_of (paths.stat path)

  -- `fullPath`
  unfoldable pub full_path : WindowsRoot → List ℕ → Bytes
  full_path root name =
      paths.clean (paths.join root.target.watch_path (paths.from_slash (paths.decode name)))

  -- The switch on the action: the new `pendingOld`, and the events.
  unfoldable pub change : ℕ → Bytes → Bytes → Bytes × List Event
  unfolding probe_dir
  change action path pending =
      if action == action_added
      then (
        pending,
        record { path = path; old_path = []; op = op_create; is_dir = probe_dir path } ∷ [],
      )
      else if action == action_removed
      then (pending, record { path = path; old_path = []; op = op_remove; is_dir = false } ∷ [])
      else if action == action_modified
      then (
        pending,
        record { path = path; old_path = []; op = op_write; is_dir = probe_dir path } ∷ [],
      )
      else if action == action_renamed_old_name
      then (path, [])
      else if action == action_renamed_new_name
      then if not (pending == [])
        then (
          [],
          record { path = path; old_path = pending; op = op_rename; is_dir = probe_dir path } ∷ [],
        )
        else (
          pending,
          record { path = path; old_path = []; op = op_create; is_dir = probe_dir path } ∷ [],
        )
      else (pending, [])

  abbrev pub then_change : Bytes × List Event → (Bytes → Bytes × List Event) → Bytes × List Event
  then_change (pending, sent) f = let (pending', more) = f pending in (pending', sent ++ more)

  -- The loop over the entries.
  unfoldable pub change_all : WindowsRoot → List Info → Bytes → Bytes × List Event
  unfolding change full_path
  change_all root [] pending = (pending, [])
  change_all root (info ∷ more) pending =
      then_change (change info.action (full_path root info.name) pending) (change_all root more)

  abbrev pub going : List Error → Bytes × List Event → Round
  going errors (pending, sent) = record {
    pending_old = pending;
    sent = sent;
    errors = errors;
    running = true;
  }

  -- One round of runRoot's loop; zero bytes mean that the kernel dropped changes.
  unfoldable pub round : Bool → WindowsRoot → Answer → Bytes → List Error → Round
  unfolding on_failure change_all parse_buffer
  round closed root (failed e) pending errors = on_failure closed e pending errors
  round closed root (filled buffer) pending errors =
      if length buffer == 0
      then going errors (pending, overflowed ∷ [])
      else going errors (change_all root (parse_buffer buffer) pending)
