-- ===== src/Linux/Running.antt =====
-- internal/backend/backend_linux.go: handle and flushPending keep the agreement of the maps, and handle
-- does not panic on maps that agree.
use go_gaze.Common.{
  ℕ, sym, subst, Bool, true, false, ◌||◌, Option, none, some, List, [], ◌∷◌, Bytes, ◌==◌, bytes_eq,
  nat_eq, ltb, if_keeps, Option-cases, inl, inr, if◌then◌else◌,
}
use go_gaze.Common.Assoc.{Map, lookup}
use go_gaze.Env.{BackendConfig}
use go_gaze.Linux.{
  Inotify, PendingRename, LinuxWatcher, take_rename, remove_watched_prefix, rename_watched_prefix,
}
use go_gaze.Linux.Walking.{Files}
use go_gaze.Linux.Masks.{
  RawEvent, has_bit, in_create, in_close_write, in_modify, in_attrib, in_delete, in_delete_self,
  in_move_self, in_ignored, in_moved_from, in_moved_to, in_q_overflow,
}
use go_gaze.Linux.Handling.{
  Sent, base_of, then_send, send_each, on_create, on_write, on_attrib, on_delete, on_self,
  on_ignored, renamed, moved_to, handle_changes, handle_path, handle, expire, flush_loop,
}
use go_gaze.Linux.Owned.{IsOwned, drop_watch-IsOwned, remove_watched_prefix-IsOwned}
use go_gaze.Linux.Renaming.{rename_watched_prefix-IsOwned}
use go_gaze.Linux.Added.{pending-IsOwned, if_recursive-IsOwned}

-- What a handler that may panic leaves: no panic, and maps that agree.
pub data Handled {K : Type 0} : Option (Sent K) → Type 0 where
  handled : (r : Sent K) → IsOwned r.0 → Handled (some r)

module _ {K : Type 0} (inotify : Inotify K) where
  if_removed-IsOwned :
      (is_dir : Bool) (path : Bytes) (w : LinuxWatcher K)
      → IsOwned w
      → IsOwned (if is_dir then remove_watched_prefix inotify path w else w)
  if_removed-IsOwned is_dir path w h =
      if_keeps IsOwned is_dir (remove_watched_prefix-IsOwned inotify path w h) h

  expire-IsOwned :
      (cookie : ℕ) (rename : PendingRename) (w : LinuxWatcher K)
      → IsOwned w
      → IsOwned (expire inotify cookie rename w)
  expire-IsOwned cookie rename w h =
      if_removed-IsOwned rename.is_dir rename.path _ (pending-IsOwned _ w h)

  pub flush_loop-IsOwned :
      (cutoff : ℕ) (rest : Map ℕ PendingRename) (w : LinuxWatcher K)
      → IsOwned w
      → IsOwned (flush_loop inotify cutoff rest w).0
  unfolding flush_loop
  flush_loop-IsOwned cutoff [] w h = h
  flush_loop-IsOwned cutoff ((cookie, rename) ∷ rest) w h =
      flush_loop-IsOwned cutoff rest _
        (if_keeps IsOwned (ltb cutoff rename.at) h (expire-IsOwned cookie rename w h))

module _ {K : Type 0} (inotify : Inotify K) (files : Files) (cfg : BackendConfig) where
  -- The state that a step leaves.
  abbrev OwnedSent : Sent K → Type 0
  OwnedSent r = IsOwned r.0

  then_send-IsOwned :
      (r : Sent K) (f : LinuxWatcher K → Sent K)
      → IsOwned r.0
      → ((w : LinuxWatcher K) → IsOwned w → IsOwned (f w).0)
      → IsOwned (then_send r f).0
  then_send-IsOwned (w, sent) f h k = k w h

  -- Each step keeps the agreement.
  abbrev AllKeep : List (LinuxWatcher K → Sent K) → Type 0
  AllKeep [] = Unit
  AllKeep (f ∷ fs) = ((w : LinuxWatcher K) → IsOwned w → IsOwned (f w).0) × AllKeep fs

  send_each-IsOwned :
      (fs : List (LinuxWatcher K → Sent K)) (w : LinuxWatcher K)
      → AllKeep fs
      → IsOwned w
      → IsOwned (send_each fs w).0
  unfolding send_each
  send_each-IsOwned [] w k h = h
  send_each-IsOwned (f ∷ fs) w k h =
      then_send-IsOwned (f w) (send_each fs) (k.0 w h) (λ w' h'. send_each-IsOwned fs w' k.1 h')

  handle_changes-IsOwned :
      (raw : RawEvent) (path : Bytes) (is_dir : Bool) (w : LinuxWatcher K)
      → IsOwned w
      → IsOwned (handle_changes inotify files cfg raw path is_dir w).0
  unfolding handle_changes
  handle_changes-IsOwned raw path is_dir w h =
      send_each-IsOwned
        (on_create inotify files cfg raw.mask path is_dir
          ∷ on_write raw.mask path is_dir
          ∷ on_attrib raw.mask path is_dir
          ∷ on_delete inotify raw.mask path is_dir
          ∷ on_self inotify raw.mask path
          ∷ on_ignored inotify raw.mask raw.wd path
          ∷ [])
        w
        (
          λ w h.
              if_keeps OwnedSent (has_bit raw.mask in_create)
                (if_recursive-IsOwned inotify files cfg is_dir path w h) h,
          (
            λ w h.
                if_keeps OwnedSent (has_bit raw.mask in_close_write || has_bit raw.mask in_modify) h
                  h,
            (
              λ w h. if_keeps OwnedSent (has_bit raw.mask in_attrib) h h,
              (
                λ w h.
                    if_keeps OwnedSent (has_bit raw.mask in_delete)
                      (if_removed-IsOwned inotify is_dir path w h) h,
                (
                  λ w h.
                      if_keeps OwnedSent
                        (has_bit raw.mask in_delete_self || has_bit raw.mask in_move_self)
                        (remove_watched_prefix-IsOwned inotify path w h) h,
                  (
                    λ w h.
                        if_keeps OwnedSent (has_bit raw.mask in_ignored)
                          (drop_watch-IsOwned inotify raw.wd path w h) h,
                    tt,
                  ),
                ),
              ),
            ),
          ),
        )
        h

  take_rename-IsOwned :
      (cookie : ℕ) (w : LinuxWatcher K) → IsOwned w → IsOwned (take_rename cookie w).0
  unfolding take_rename
  take_rename-IsOwned cookie w h = elim (Option-cases (lookup cookie w.pending)) [
    | inl e ↦ rw (e, take_rename) h
    | inr (rename, e) ↦ rw (e, take_rename) (pending-IsOwned _ w h)
  ]

  renamed-Handled :
      (old path : Bytes) (is_dir : Bool) (w : LinuxWatcher K)
      → IsOwned w
      → Handled
          (renamed old path is_dir (if is_dir then rename_watched_prefix old path w else some w))
  renamed-Handled old path false w h = handled _ h
  renamed-Handled old path true w h =
      let (w', e, h') = rename_watched_prefix-IsOwned old path w h in
      subst (λ r. Handled (renamed old path true r)) (sym e) (handled _ h')

  moved_to-Handled :
      (path : Bytes) (is_dir : Bool) (w : LinuxWatcher K) (taken : Option PendingRename)
      → IsOwned w
      → Handled (moved_to inotify files cfg path is_dir (w, taken))
  unfolding moved_to
  moved_to-Handled path is_dir w none h =
      handled _ (if_recursive-IsOwned inotify files cfg is_dir path w h)
  moved_to-Handled path is_dir w (some old) h =
      renamed-Handled old.path path is_dir _
        (if_recursive-IsOwned inotify files cfg is_dir path w h)

  handle_path-Handled :
      (now : ℕ) (raw : RawEvent) (path : Bytes) (is_dir : Bool) (w : LinuxWatcher K)
      → IsOwned w
      → Handled (handle_path inotify files cfg now raw path is_dir w)
  unfolding handle_path
  handle_path-Handled now raw path is_dir w h =
      if_keeps Handled (has_bit raw.mask in_moved_from) (handled _ (pending-IsOwned _ w h)) (
        if_keeps Handled (has_bit raw.mask in_moved_to)
          (moved_to-Handled path is_dir (take_rename raw.cookie w).0 (take_rename raw.cookie w).1
            (take_rename-IsOwned raw.cookie w h))
          (handled _ (handle_changes-IsOwned raw path is_dir w h)))

  pub handle-Handled :
      (now : ℕ) (raw : RawEvent) (w : LinuxWatcher K)
      → IsOwned w
      → Handled (handle inotify files cfg now raw w)
  unfolding handle
  handle-Handled now raw w h = if_keeps Handled (has_bit raw.mask in_q_overflow) (handled _ h) (
      if_keeps Handled (base_of (lookup raw.wd w.wd_to_path) == []) (handled _ h)
        (handle_path-Handled now raw _ _ w h))
