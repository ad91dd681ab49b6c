-- ===== src/Linux/Added.antt =====
-- internal/backend/backend_linux.go: Add, Close and addRecursiveDirIfNeeded keep the agreement of
-- the maps.
use go_gaze.Common.{
  ℕ, ◌≡◌, refl, Bool, true, false, not, Option, none, some, List, [], ◌∷◌, arith, Bytes, bytes_eq,
  nat_eq, bytes_beq_iff, if_keeps, Bool-cases, inl, inr, if◌then◌else◌,
}
use go_gaze.Common.Assoc.{Map, lookup, has, has-insert, lookup-insert}
use go_gaze.Errors.{Error}
use go_gaze.Env.{Target, BackendConfig}
use go_gaze.Linux.{Inotify, PendingRename, LinuxWatcher}
use go_gaze.Linux.Keys.{enrolled-has}
use go_gaze.Linux.Walking.{Files, walk_path}
use go_gaze.Linux.Walked.{walk_path-Kept}
use go_gaze.Linux.Adding.{
  new, close, with_root, enroll_callback, enroll_target, undo_failed, add, enroll_for,
  recursive_roots, add_recursive,
}
use go_gaze.Linux.Owned.{IsOwned, add_dir-IsOwned}
use go_gaze.Linux.Owning.{remove-IsOwned}

pub new-IsOwned : {K : Type 0} (kernel : K) → IsOwned (new kernel)
unfolding new has lookup
new-IsOwned kernel = record {
  keys = λ root. refl;
  owned = λ path node root e m. ground arith;
  used = λ path node e. absurd (ground arith);
  distinct = tt;
}

-- A change of the fields that the agreement does not mention.
pub pending-IsOwned :
    {K : Type 0} (pending : Map ℕ PendingRename) (w : LinuxWatcher K)
    → IsOwned w
    → IsOwned (record w { pending = pending })
pending-IsOwned pending w h = record {
  keys = h.keys;
  owned = h.owned;
  used = h.used;
  distinct = h.distinct;
}

pub close-IsOwned :
    {K : Type 0} (answer : Option Error) (w : LinuxWatcher K)
    → IsOwned w
    → IsOwned (close answer w).0
unfolding close
close-IsOwned {K} answer w h =
    if_keeps (λ (r : LinuxWatcher K × Option Error). IsOwned r.0) w.closed h
      (record { keys = h.keys; owned = h.owned; used = h.used; distinct = h.distinct })

with_root-IsOwned :
    {K : Type 0} (target : Target) (w : LinuxWatcher K)
    → has target.path w.roots ≡ false
    → IsOwned w
    → IsOwned (with_root target w)
unfolding has
with_root-IsOwned target w f h = record {
  keys = λ root. ground (
    arith,
    has-insert target.path root [] w.root_dirs,
    has-insert target.path root target w.roots,
    h.keys root,
  );
  owned = λ path node root e m. rw (lookup-insert target.path root [] w.root_dirs) (
      ground (
        arith,
        h.owned path node root e m,
        enrolled-has root path w.root_dirs,
        h.keys root,
        bytes_beq_iff target.path root,
      ));
  used = h.used;
  distinct = h.distinct;
}

module _ {K : Type 0} (inotify : Inotify K) (files : Files) (cfg : BackendConfig) where
  abbrev OwnedAfter : LinuxWatcher K × Option Error → Type 0
  OwnedAfter r = IsOwned r.0

  enroll_walk-IsOwned :
      (root path : Bytes) (recursive : Bool) (w : LinuxWatcher K)
      → IsOwned w
      → IsOwned
          (walk_path files path recursive
            (some cfg.should_exclude)
            (enroll_callback inotify files cfg root)
            w).0
  enroll_walk-IsOwned root path recursive w h =
      walk_path-Kept IsOwned (some cfg.should_exclude) (enroll_callback inotify files cfg root)
        (λ dir is_dir w' h'.
          if_keeps OwnedAfter (not is_dir) h' (add_dir-IsOwned inotify root dir w' h'))
        files path recursive w h

  undo_failed-IsOwned :
      (path : Bytes) (r : LinuxWatcher K × Option Error)
      → IsOwned r.0
      → IsOwned (undo_failed inotify files cfg path r).0
  undo_failed-IsOwned path (w, none) h = h
  undo_failed-IsOwned path (w, some e) h = remove-IsOwned inotify path w h

  enroll_target-IsOwned :
      (target : Target) (w : LinuxWatcher K)
      → IsOwned w
      → IsOwned (enroll_target inotify files cfg target w).0
  unfolding enroll_target
  enroll_target-IsOwned target w h =
      if_keeps OwnedAfter target.is_dir
        (enroll_walk-IsOwned target.path target.path target.recursive w h)
        (add_dir-IsOwned inotify target.path target.watch_path w h)

  pub add-IsOwned :
      (target : Target) (w : LinuxWatcher K)
      → IsOwned w
      → IsOwned (add inotify files cfg target w).0
  unfolding add
  add-IsOwned target w h = elim (Bool-cases (has target.path w.roots)) [
    | inl e ↦ if_keeps OwnedAfter w.closed h (rw e h)
    | inr e ↦ if_keeps OwnedAfter w.closed h (
        rw e (
          undo_failed-IsOwned target.path _
            (enroll_target-IsOwned target _ (with_root-IsOwned target w e h))))
  ]

  enroll_for-IsOwned :
      (path : Bytes) (roots : List Bytes) (w : LinuxWatcher K)
      → IsOwned w
      → IsOwned (enroll_for inotify files cfg path roots w)
  unfolding enroll_for
  enroll_for-IsOwned path [] w h = h
  enroll_for-IsOwned path (root ∷ roots) w h =
      enroll_for-IsOwned path roots _ (enroll_walk-IsOwned root path true w h)

  pub add_recursive-IsOwned :
      (path : Bytes) (w : LinuxWatcher K)
      → IsOwned w
      → IsOwned (add_recursive inotify files cfg path w)
  unfolding add_recursive
  add_recursive-IsOwned path w h = enroll_for-IsOwned path (recursive_roots path w.roots) w h

  pub if_recursive-IsOwned :
      (is_dir : Bool) (path : Bytes) (w : LinuxWatcher K)
      → IsOwned w
      → IsOwned (if is_dir then add_recursive inotify files cfg path w else w)
  if_recursive-IsOwned is_dir path w h = if_keeps IsOwned is_dir (add_recursive-IsOwned path w h) h
