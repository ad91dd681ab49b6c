-- ===== src/Darwin/Handled.antt =====
-- internal/backend/backend_darwin.go: handle and a round of run's loop keep the agreement of the maps and
-- do not panic.
use go_gaze.Common.{
  ℕ, true, false, not, Option, some, List, [], ◌∷◌, Bytes, ◌==◌, bytes_eq, nat_eq, if_keeps,
  Option-cases, inl, inr,
}
use go_gaze.Common.Assoc.{lookup}
use go_gaze.Errors.{Error}
use go_gaze.GoPath.{dir}
use go_gaze.Ops.{Event, op_write, op_remove}
use go_gaze.Env.{BackendConfig}
use go_gaze.Darwin.{Kqueue, Node, DarwinWatcher, remove_prefix_if_watched, remove_path_if_watched}
use go_gaze.Darwin.Adding.{Disk}
use go_gaze.Darwin.Scanning.{Sent}
use go_gaze.Darwin.Handling.{
  Kevent, Answer, interrupted, failed, filled, Round, is_gone, is_written, path_or_empty,
  sent_after, then_handle, rescan_parent, handle_dir, handle_file, handle_node, handle, handle_all,
  on_failure, on_events, round,
}
use go_gaze.Darwin.Owned.{IsOwned, remove_path_if_watched-IsOwned, remove_prefix_if_watched-IsOwned}
use go_gaze.Darwin.Scanned.{Handled, handled, rescan_dir-Handled}

-- A round that does not panic and leaves maps that agree.
pub data RoundDone {K : Type 0} : Option (Round K) → Type 0 where
  round_done : (r : Round K) → IsOwned r.state → RoundDone (some r)

module _ {K : Type 0} where
  sent_after-Handled :
      (sent : List Event) (r : Option (Sent K)) → Handled r → Handled (sent_after sent r)
  sent_after-Handled sent _ (handled r h) = handled _ h

  then_handle-Handled :
      (r : Option (Sent K)) (f : DarwinWatcher K → Option (Sent K))
      → Handled r
      → ((w : DarwinWatcher K) → IsOwned w → Handled (f w))
      → Handled (then_handle r f)
  then_handle-Handled _ f (handled r h) k = sent_after-Handled r.1 (f r.0) (k r.0 h)

module _ {K : Type 0} (kqueue : Kqueue K) (disk : Disk) (cfg : BackendConfig) where
  rescan_parent-Handled :
      (path : Bytes) (w : DarwinWatcher K)
      → IsOwned w
      → Handled (rescan_parent kqueue disk cfg path w)
  rescan_parent-Handled path w h =
      if_keeps Handled (not (dir path == path)) (rescan_dir-Handled kqueue disk cfg (dir path) w h)
        (handled _ h)

  handle_dir-Handled :
      (flags : ℕ) (path : Bytes) (w : DarwinWatcher K)
      → IsOwned w
      → Handled (handle_dir kqueue disk cfg flags path w)
  unfolding handle_dir
  handle_dir-Handled flags path w h =
      if_keeps Handled (is_gone flags)
        (sent_after-Handled
          (record { path = path; old_path = []; op = op_remove; is_dir = true } ∷ []) _
          (rescan_parent-Handled path (remove_prefix_if_watched kqueue path w).0
            (remove_prefix_if_watched-IsOwned kqueue path w h)))
        (if_keeps Handled (is_written flags) (rescan_dir-Handled kqueue disk cfg path w h)
          (handled (w, []) h))

  handle_file-Handled :
      (flags : ℕ) (path : Bytes) (w : DarwinWatcher K)
      → IsOwned w
      → Handled (handle_file kqueue disk cfg flags path w)
  unfolding handle_file
  handle_file-Handled flags path w h =
      if_keeps Handled (is_gone flags)
        (sent_after-Handled
          (record { path = path; old_path = []; op = op_remove; is_dir = false } ∷ []) _
          (rescan_parent-Handled path (remove_path_if_watched kqueue path w).0
            (remove_path_if_watched-IsOwned kqueue path w h)))
        (if_keeps Handled (is_written flags)
          (handled (w, record { path = path; old_path = []; op = op_write; is_dir = false } ∷ []) h)
          (handled (w, []) h))

  handle_node-Handled :
      (flags : ℕ) (path : Bytes) (node : Node) (w : DarwinWatcher K)
      → IsOwned w
      → Handled (handle_node kqueue disk cfg flags path node w)
  unfolding handle_node
  handle_node-Handled flags path node w h = sent_after-Handled _ _ (
      if_keeps Handled node.is_dir (handle_dir-Handled flags path w h)
        (handle_file-Handled flags path w h))

  pub handle-Handled :
      (event : Kevent) (w : DarwinWatcher K) → IsOwned w → Handled (handle kqueue disk cfg event w)
  unfolding handle
  handle-Handled event w h =
      let path = path_or_empty (lookup event.ident w.fd_to_path) in
      elim (Option-cases (lookup path w.watched)) [
        | inl e ↦ rw (e, handle) (handled _ h)
        | inr (node, e) ↦ rw (e, handle) (handle_node-Handled event.flags path node w h)
      ]

  handle_all-Handled :
      (events : List Kevent) (w : DarwinWatcher K)
      → IsOwned w
      → Handled (handle_all kqueue disk cfg events w)
  unfolding handle_all
  handle_all-Handled [] w h = handled _ h
  handle_all-Handled (event ∷ events) w h =
      then_handle-Handled (handle kqueue disk cfg event w) (handle_all kqueue disk cfg events)
        (handle-Handled event w h) (handle_all-Handled events)

  on_events-RoundDone :
      (errors : List Error) (r : Option (Sent K)) → Handled r → RoundDone (on_events errors r)
  on_events-RoundDone errors _ (handled r h) = round_done _ h

  pub round-RoundDone :
      (answer : Answer) (errors : List Error) (w : DarwinWatcher K)
      → IsOwned w
      → RoundDone (round kqueue disk cfg answer errors w)
  unfolding round on_failure
  round-RoundDone interrupted errors w h = round_done _ h
  round-RoundDone (failed e) errors w h =
      if_keeps (λ (r : Round K). RoundDone (some r)) w.closed (round_done _ h) (round_done _ h)
  round-RoundDone (filled events) errors w h =
      on_events-RoundDone errors _ (handle_all-Handled events w h)
