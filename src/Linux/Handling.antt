-- ===== src/Linux/Handling.antt =====
-- internal/backend/backend_linux.go: handle and flushPending. A method returns the events that it
-- sends, in order. One that takes the mutex several times is one step here. The clock is an argument.
use go_gaze.Common.{
  ℕ, Bool, true, false, ◌||◌, not, Option, none, some, List, [], ◌∷◌, ◌++◌, Bytes, ◌==◌, nat_eq,
  bytes_eq, ltb, if◌then◌else◌,
}
use go_gaze.Common.Assoc.{Map, lookup, delete, insert}
use go_gaze.GoPath.{join}
use go_gaze.Ops.{Event, Op, op_create, op_write, op_remove, op_rename, op_chmod, op_overflow}
use go_gaze.Env.{BackendConfig}
use go_gaze.Linux.{
  Inotify, PendingRename, LinuxWatcher, take_rename, drop_watch, remove_watched_prefix,
  rename_watched_prefix,
}
use go_gaze.Linux.Walking.{Files}
use go_gaze.Linux.Masks.{
  RawEvent, has_bit, in_modify, in_attrib, in_close_write, in_moved_from, in_moved_to, in_create,
  in_delete, in_delete_self, in_move_self, in_q_overflow, in_ignored, in_isdir,
}
use go_gaze.Linux.Adding.{add_recursive}

-- `fullPath` in handle.
abbrev pub full_path : Bytes → Bytes → Bytes
full_path base name = if not (name == []) then join base name else base

abbrev pub base_of : Option Bytes → Bytes
base_of none = []
base_of (some path) = path

-- What a step leaves: the state and the events that were sent.
abbrev pub Sent : Type 0 → Type 0
Sent K = LinuxWatcher K × List Event

module _ {K : Type 0} where
  abbrev pub then_send : Sent K → (LinuxWatcher K → Sent K) → Sent K
  then_send (w, sent) f = let (w', more) = f w in (w', sent ++ more)

  -- Steps one after another, with the events of all.
  unfoldable pub send_each : List (LinuxWatcher K → Sent K) → LinuxWatcher K → Sent K
  send_each [] w = (w, [])
  send_each (f ∷ fs) w = then_send (f w) (send_each fs)

  unfoldable pub send_op : Bytes → Op → Bool → LinuxWatcher K → Sent K
  send_op path op is_dir w =
      (w, record { path = path; old_path = []; op = op; is_dir = is_dir } ∷ [])

  -- The branch of IN_MOVED_TO, once takeRename has answered; `none` is a panic.
  abbrev pub renamed : Bytes → Bytes → Bool → Option (LinuxWatcher K) → Option (Sent K)
  renamed old_path path is_dir none = none
  renamed old_path path is_dir (some w) =
      some (w, record { path = path; old_path = old_path; op = op_rename; is_dir = is_dir } ∷ [])

  unfoldable pub on_write : ℕ → Bytes → Bool → LinuxWatcher K → Sent K
  unfolding send_op
  on_write mask path is_dir w =
      if has_bit mask in_close_write || has_bit mask in_modify
      then send_op path op_write is_dir w
      else (w, [])

  unfoldable pub on_attrib : ℕ → Bytes → Bool → LinuxWatcher K → Sent K
  unfolding send_op
  on_attrib mask path is_dir w =
      if has_bit mask in_attrib then send_op path op_chmod is_dir w else (w, [])

module _ {K : Type 0} (inotify : Inotify K) where
  unfoldable pub on_delete : ℕ → Bytes → Bool → LinuxWatcher K → Sent K
  unfolding send_op
  on_delete mask path is_dir w =
      if has_bit mask in_delete
      then send_op path op_remove is_dir
          (if is_dir then remove_watched_prefix inotify path w else w)
      else (w, [])

  unfoldable pub on_self : ℕ → Bytes → LinuxWatcher K → Sent K
  unfolding send_op
  on_self mask path w =
      if has_bit mask in_delete_self || has_bit mask in_move_self
      then send_op path op_remove true (remove_watched_prefix inotify path w)
      else (w, [])

  unfoldable pub on_ignored : ℕ → ℕ → Bytes → LinuxWatcher K → Sent K
  on_ignored mask wd path w =
      if has_bit mask in_ignored then (drop_watch inotify wd path w, []) else (w, [])

  -- The loop of flushPending, with the entries of `pending` that it ranges over.
  abbrev pub expire : ℕ → PendingRename → LinuxWatcher K → LinuxWatcher K
  expire cookie rename w =
      let w' = record w { pending = delete cookie w.pending } in
      if rename.is_dir then remove_watched_prefix inotify rename.path w' else w'

  unfoldable pub flush_loop : ℕ → Map ℕ PendingRename → LinuxWatcher K → Sent K
  flush_loop cutoff [] w = (w, [])
  flush_loop cutoff ((cookie, rename) ∷ rest) w =
      let kept = ltb cutoff rename.at in
      let (w', sent) = flush_loop cutoff rest (if kept then w else expire cookie rename w) in
      (
        w',
        if kept
            then sent
            else record {
              path = rename.path;
              old_path = [];
              op = op_remove;
              is_dir = rename.is_dir;
            }
              ∷ sent,
      )

  -- flushPending
  unfoldable pub flush_pending : ℕ → LinuxWatcher K → Sent K
  unfolding flush_loop
  flush_pending cutoff w = flush_loop cutoff w.pending w

module _ {K : Type 0} (inotify : Inotify K) (files : Files) (cfg : BackendConfig) where
  unfoldable pub moved_to : Bytes → Bool → LinuxWatcher K × Option PendingRename → Option (Sent K)
  unfolding send_op add_recursive
  moved_to path is_dir (w, taken) =
      let w' = if is_dir then add_recursive inotify files cfg path w else w in
      elim taken [
        | none ↦ some (send_op path op_create is_dir w')
        | some old ↦
            renamed old.path path is_dir
              (if is_dir then rename_watched_prefix old.path path w' else some w')
      ]

  -- What follows IN_MOVED_TO in handle: each test of the mask in turn.
  unfoldable pub on_create : ℕ → Bytes → Bool → LinuxWatcher K → Sent K
  unfolding add_recursive send_op
  on_create mask path is_dir w =
      if has_bit mask in_create
      then send_op path op_create is_dir
          (if is_dir then add_recursive inotify files cfg path w else w)
      else (w, [])

  unfoldable pub handle_changes : RawEvent → Bytes → Bool → LinuxWatcher K → Sent K
  unfolding send_each on_create on_write on_attrib on_delete on_self on_ignored
  handle_changes raw path is_dir = send_each (
      on_create raw.mask path is_dir
      ∷ on_write raw.mask path is_dir
      ∷ on_attrib raw.mask path is_dir
      ∷ on_delete inotify raw.mask path is_dir
      ∷ on_self inotify raw.mask path
      ∷ on_ignored inotify raw.mask raw.wd path
      ∷ [])

  -- handle from the path on.
  unfoldable pub handle_path : ℕ → RawEvent → Bytes → Bool → LinuxWatcher K → Option (Sent K)
  unfolding handle_changes moved_to
  handle_path now raw path is_dir w =
      if has_bit raw.mask in_moved_from
      then some (
        record w {
          pending = insert raw.cookie (record { path = path; is_dir = is_dir; at = now }) w.pending;
        },
        [],
      )
      else if has_bit raw.mask in_moved_to
      then moved_to path is_dir (take_rename raw.cookie w)
      else some (handle_changes raw path is_dir w)

  -- handle
  unfoldable pub handle : ℕ → RawEvent → LinuxWatcher K → Option (Sent K)
  unfolding handle_path send_op
  handle now raw w =
      let base = base_of (lookup raw.wd w.wd_to_path) in
      if has_bit raw.mask in_q_overflow
      then some (send_op [] op_overflow false w)
      else if base == []
      then some (w, [])
      else handle_path now raw (full_path base raw.name) (has_bit raw.mask in_isdir) w
