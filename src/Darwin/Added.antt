-- ===== src/Darwin/Added.antt =====
-- internal/backend/backend_darwin.go: addPath, Add and the enrolments keep the agreement of the maps.
use go_gaze.Common.{
  ℕ, ◌≡◌, refl, Bool, true, false, ◌&&◌, not, Option, none, some, List, [], ◌∷◌, ◌++◌, arith, Bytes,
  ◌==◌, bytes_eq, bytes_beq_iff, any, any-append, if_keeps, if_cases, Option-cases, inl, inr,
  if◌then◌else◌,
}
use go_gaze.Common.Assoc.{lookup, has, All-lookup, has-insert, lookup-insert}
use go_gaze.Errors.{Error, Result, ok, err}
use go_gaze.Tree.{PathSet}
use go_gaze.Env.{Target, BackendConfig}
use go_gaze.Linux.Keys.{enrolled-has}
use go_gaze.Linux.Walking.{walk_path}
use go_gaze.Linux.Walked.{walk_path-Kept}
use go_gaze.Darwin.{Kqueue, Node, DarwinWatcher}
use go_gaze.Darwin.Adding.{
  Disk, Entry, root_target, with_root, share_node, watch_node, close_fd, finish_path, registered,
  opened, add_path, and_then, enroll_entries, enroll_read, enroll_directory_target, undo_failed,
  add,
}
use go_gaze.Darwin.Owned.{IsNamed, IsOwned, put-IsOwned}
use go_gaze.Darwin.Removing.{remove-IsOwned}

-- A change of the state of the system calls.
kernel-IsOwned :
    {K : Type 0} (kernel : K) (w : DarwinWatcher K)
    → IsOwned w
    → IsOwned (record w { kernel = kernel })
kernel-IsOwned kernel w h = record {
  keys = h.keys;
  owned = h.owned;
  named = h.named;
  distinct = h.distinct;
}

with_root-IsOwned :
    {K : Type 0} (target : Target) (w : DarwinWatcher K)
    → has target.path w.roots ≡ false
    → IsOwned w
    → IsOwned (with_root target w)
unfolding has
with_root-IsOwned target w f h = record {
  keys = λ root. ground (
    arith,
    has-insert target.path root [] w.root_nodes,
    has-insert target.path root target w.roots,
    h.keys root,
  );
  owned = λ path node root e m. rw (lookup-insert target.path root [] w.root_nodes) (
      ground (
        arith,
        f,
        h.owned path node root e m,
        enrolled-has root path w.root_nodes,
        h.keys root,
        bytes_beq_iff target.path root,
      ));
  named = h.named;
  distinct = h.distinct;
}

share_node-IsOwned :
    {K : Type 0} (root path : Bytes) (nodes : PathSet) (node : Node) (w : DarwinWatcher K)
    → lookup root w.root_nodes ≡ some nodes
    → lookup path w.watched ≡ some node
    → IsOwned w
    → IsOwned (share_node root path nodes node w)
unfolding share_node any
share_node-IsOwned root path nodes node w there found h =
    put-IsOwned w.kernel w.fd_to_path w.snapshots root path nodes
      (record node {
        roots = if any (λ r. r == root) node.roots then node.roots else node.roots ++ root ∷ [];
      })
      w there (All-lookup IsNamed path w.watched node h.named found)
      (λ r m.
        ground
          (arith, m, h.owned path node r found, any-append (λ k. k == r) node.roots (root ∷ [])))
      h

module _ {K : Type 0} (kqueue : Kqueue K) (disk : Disk) (cfg : BackendConfig) where
  abbrev OwnedAfter : DarwinWatcher K × Option Error → Type 0
  OwnedAfter r = IsOwned r.0

  close_fd-IsOwned :
      (fd : ℕ) (w : DarwinWatcher K) → IsOwned w → IsOwned (close_fd kqueue disk cfg fd w)
  close_fd-IsOwned fd w h = kernel-IsOwned _ w h

  finish_path-IsOwned :
      (root path : Bytes) (is_dir : Bool) (fd : ℕ) (w : DarwinWatcher K)
      → IsOwned w
      → IsOwned (finish_path kqueue disk cfg root path is_dir fd w).0
  unfolding finish_path watch_node any
  finish_path-IsOwned root path is_dir fd w h =
      if_keeps OwnedAfter w.closed (close_fd-IsOwned fd w h)
        (elim (Option-cases (lookup root w.root_nodes)) [
          | inl e ↦ rw e (close_fd-IsOwned fd w h)
          | inr (nodes, e) ↦ rw e (elim (Option-cases (lookup path w.watched)) [
            | inl f ↦ rw f (
                put-IsOwned w.kernel _ _ root path nodes
                  (record { fd = fd; path = path; is_dir = is_dir; roots = root ∷ [] }) w e refl
                  (λ r m. ground (arith, m)) h)
            | inr (node, f) ↦
                rw f (share_node-IsOwned root path nodes node _ e f (close_fd-IsOwned fd w h))
          ])
        ])

  registered-IsOwned :
      (root path : Bytes) (is_dir : Bool) (fd : ℕ) (w : DarwinWatcher K) (answer : K × Option Error)
      → IsOwned w
      → IsOwned (registered kqueue disk cfg root path is_dir fd w answer).0
  registered-IsOwned root path is_dir fd w (kernel, some e) h = kernel-IsOwned _ w h
  registered-IsOwned root path is_dir fd w (kernel, none) h =
      finish_path-IsOwned root path is_dir fd _ (kernel-IsOwned kernel w h)

  opened-IsOwned :
      (root path : Bytes) (is_dir : Bool) (w : DarwinWatcher K) (answer : K × Result ℕ)
      → IsOwned w
      → IsOwned (opened kqueue disk cfg root path is_dir w answer).0
  opened-IsOwned root path is_dir w (kernel, err e) h = kernel-IsOwned kernel w h
  opened-IsOwned root path is_dir w (kernel, ok fd) h =
      registered-IsOwned root path is_dir fd w (kqueue.register fd kernel) h

  pub add_path-IsOwned :
      (root path : Bytes) (is_dir : Bool) (w : DarwinWatcher K)
      → IsOwned w
      → IsOwned (add_path kqueue disk cfg root path is_dir w).0
  unfolding add_path
  add_path-IsOwned root path is_dir w h =
      if_keeps OwnedAfter
        (cfg.should_exclude path is_dir && not (path == (root_target root w).path)) h
        (elim (Option-cases (lookup root w.root_nodes)) [
          | inl e ↦ rw e h
          | inr (nodes, e) ↦ rw e (elim (Option-cases (lookup path w.watched)) [
            | inl f ↦
                rw f (opened-IsOwned root path is_dir w (kqueue.open_file path is_dir w.kernel) h)
            | inr (node, f) ↦ rw f (share_node-IsOwned root path nodes node w e f h)
          ])
        ])

  and_then-IsOwned :
      (r : DarwinWatcher K × Option Error) (f : DarwinWatcher K → DarwinWatcher K × Option Error)
      → IsOwned r.0
      → ((w : DarwinWatcher K) → IsOwned w → IsOwned (f w).0)
      → IsOwned (and_then kqueue disk cfg r f).0
  and_then-IsOwned (w, none) f h k = k w h
  and_then-IsOwned (w, some e) f h k = h

  enroll_entries-IsOwned :
      (root : Bytes) (entries : List Entry) (w : DarwinWatcher K)
      → IsOwned w
      → IsOwned (enroll_entries kqueue disk cfg root entries w).0
  unfolding enroll_entries
  enroll_entries-IsOwned root [] w h = h
  enroll_entries-IsOwned root (entry ∷ entries) w h =
      if_keeps OwnedAfter _ (enroll_entries-IsOwned root entries w h) (
        and_then-IsOwned _ _ (add_path-IsOwned root _ false w h)
          (λ w' h'. enroll_entries-IsOwned root entries w' h'))

  enroll_read-IsOwned :
      (root : Bytes) (entries : Result (List Entry)) (w : DarwinWatcher K)
      → IsOwned w
      → IsOwned (enroll_read kqueue disk cfg root entries w).0
  enroll_read-IsOwned root (err e) w h = h
  enroll_read-IsOwned root (ok entries) w h = enroll_entries-IsOwned root entries w h

  pub enroll_walk-IsOwned :
      (root path : Bytes) (w : DarwinWatcher K)
      → IsOwned w
      → IsOwned
          (walk_path disk.files path true
            (some cfg.should_exclude)
            (add_path kqueue disk cfg root)
            w).0
  enroll_walk-IsOwned root path w h =
      walk_path-Kept IsOwned (some cfg.should_exclude) (add_path kqueue disk cfg root)
        (λ p is_dir w' h'. add_path-IsOwned root p is_dir w' h') disk.files path true w h

  enroll_directory_target-IsOwned :
      (target : Target) (w : DarwinWatcher K)
      → IsOwned w
      → IsOwned (enroll_directory_target kqueue disk cfg target w).0
  unfolding enroll_directory_target
  enroll_directory_target-IsOwned target w h =
      if_keeps OwnedAfter target.recursive (enroll_walk-IsOwned target.path target.path w h) (
        and_then-IsOwned (add_path kqueue disk cfg target.path target.path true w)
          (enroll_read kqueue disk cfg target.path (disk.read_dir target.path))
          (add_path-IsOwned target.path target.path true w h)
          (enroll_read-IsOwned target.path (disk.read_dir target.path)))

  undo_failed-IsOwned :
      (path : Bytes) (r : DarwinWatcher K × Option Error)
      → IsOwned r.0
      → IsOwned (undo_failed kqueue disk cfg path r).0
  undo_failed-IsOwned path (w, none) h = h
  undo_failed-IsOwned path (w, some e) h = remove-IsOwned kqueue path w h

  pub add-IsOwned :
      (target : Target) (w : DarwinWatcher K) → IsOwned w → IsOwned (add kqueue disk cfg target w).0
  unfolding add
  add-IsOwned target w h = if_keeps OwnedAfter w.closed h (
      if_cases OwnedAfter (has target.path w.roots) (λ e. h)
        (λ e.
          let h1 = with_root-IsOwned target w e h in
          let w1 = with_root target w in
          undo_failed-IsOwned target.path _ (
            if_keeps OwnedAfter target.is_dir (enroll_directory_target-IsOwned target w1 h1) (
              and_then-IsOwned (add_path kqueue disk cfg target.path target.watch_path true w1)
                (add_path kqueue disk cfg target.path target.path false)
                (add_path-IsOwned target.path target.watch_path true w1 h1)
                (add_path-IsOwned target.path target.path false)))))
