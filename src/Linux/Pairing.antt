-- ===== src/Linux/Pairing.antt =====
-- internal/backend/backend_linux.go: what becomes of the old name of a rename, which the kernel
-- reports by IN_MOVED_FROM.
use go_gaze.Common.{
  ℕ, ◌≡◌, refl, ◌∙◌, ap, Bool, true, false, not, Option, none, some, List, [], ◌∷◌, arith, Bytes,
  ◌==◌, bytes_eq, nat_eq, if_keeps, Option-cases, inl, inr,
}
use go_gaze.Common.Assoc.{lookup, delete, insert, lookup-insert, lookup-delete}
use go_gaze.Errors.{Error, Result, ok, err}
use go_gaze.FilePath.{join_moved_path}
use go_gaze.Ops.{op_rename}
use go_gaze.Tree.{PathSet}
use go_gaze.Env.{BackendConfig}
use go_gaze.Linux.{
  Inotify, Node, PendingRename, LinuxWatcher, take_rename, rename_node, moved_paths, rename_loop,
  rename_watched_prefix, enrolled, enroll, enroll_in, add_dir,
}
use go_gaze.Linux.Walking.{Files}
use go_gaze.Linux.Walked.{walk_path-Kept}
use go_gaze.Linux.Masks.{RawEvent, has_bit, in_isdir, in_moved_from, in_moved_to, in_q_overflow}
use go_gaze.Linux.Adding.{enroll_callback, enroll_for, add_recursive, recursive_roots}
use go_gaze.Linux.Handling.{full_path, moved_to, renamed, handle}
use go_gaze.Linux.Owned.{IsOwned}
use go_gaze.Linux.Renaming.{rename_watched_prefix-IsOwned}
use go_gaze.Linux.Added.{add_recursive-IsOwned, pending-IsOwned}

rename_loop-pending :
    {K : Type 0} (old new : Bytes) (paths : List Bytes) (w w' : LinuxWatcher K)
    → rename_loop old new paths w ≡ some w'
    → w'.pending ≡ w.pending
unfolding rename_loop rename_node
rename_loop-pending old new [] w w' e = ground arith
rename_loop-pending old new (path ∷ paths) w w' e = elim (Option-cases (lookup path w.watched)) [
  | inl f ↦ ground (arith, e, f)
  | inr (node, f) ↦
      rename_loop-pending old new paths (rename_node path (join_moved_path path old new) node w) w'
        (ground (arith, e, f))
]

rename_watched_prefix-pending :
    {K : Type 0} (old new : Bytes) (w w' : LinuxWatcher K)
    → rename_watched_prefix old new w ≡ some w'
    → w'.pending ≡ w.pending
unfolding rename_watched_prefix
rename_watched_prefix-pending old new w w' e =
    rename_loop-pending old new (moved_paths old w.watched) w w' e

module _ {K : Type 0} (inotify : Inotify K) (files : Files) (cfg : BackendConfig) where
  enrolled-pending :
      (root dir : Bytes) (dirs : PathSet) (w : LinuxWatcher K) (answer : K × Result ℕ)
      → (enrolled inotify root dir dirs w answer).0.pending ≡ w.pending
  enrolled-pending root dir dirs w (kernel, ok wd) = refl
  enrolled-pending root dir dirs w (kernel, err e) = refl

  enroll-pending :
      (root dir : Bytes) (dirs : PathSet) (w : LinuxWatcher K) (node : Option Node)
      → (enroll inotify root dir dirs w node).0.pending ≡ w.pending
  enroll-pending root dir dirs w none = enrolled-pending root dir dirs w _
  enroll-pending root dir dirs w (some node) = refl

  enroll_in-pending :
      (root dir : Bytes) (w : LinuxWatcher K) (dirs : Option PathSet)
      → (enroll_in inotify root dir dirs w).0.pending ≡ w.pending
  enroll_in-pending root dir w none = refl
  enroll_in-pending root dir w (some dirs) = enroll-pending root dir dirs w _

  add_dir-pending :
      (root dir : Bytes) (w : LinuxWatcher K) → (add_dir inotify root dir w).0.pending ≡ w.pending
  unfolding add_dir
  add_dir-pending root dir w =
      if_keeps (λ (r : LinuxWatcher K × Option Error). r.0.pending ≡ w.pending) w.closed refl
        (enroll_in-pending root dir w (lookup root w.root_dirs))

  enroll_for-pending :
      (path : Bytes) (roots : List Bytes) (w : LinuxWatcher K)
      → (enroll_for inotify files cfg path roots w).pending ≡ w.pending
  unfolding enroll_for
  enroll_for-pending path [] w = refl
  enroll_for-pending path (root ∷ roots) w =
      enroll_for-pending path roots _
      ∙ walk_path-Kept (λ (w' : LinuxWatcher K). w'.pending ≡ w.pending) (some cfg.should_exclude)
          (enroll_callback inotify files cfg root)
          (λ dir is_dir w' e.
            if_keeps (λ (r : LinuxWatcher K × Option Error). r.0.pending ≡ w.pending) (not is_dir) e
              (add_dir-pending root dir w' ∙ e))
          files path true w refl

  add_recursive-pending :
      (path : Bytes) (w : LinuxWatcher K)
      → (add_recursive inotify files cfg path w).pending ≡ w.pending
  unfolding add_recursive
  add_recursive-pending path w = enroll_for-pending path (recursive_roots path w.roots) w

  moved_to-paired :
      (path : Bytes) (is_dir : Bool) (w : LinuxWatcher K) (old : PendingRename)
      → IsOwned w
      → (w' : LinuxWatcher K) × (moved_to inotify files cfg path is_dir (w, some old)
          ≡ some (
            w',
            record { path = path; old_path = old.path; op = op_rename; is_dir = is_dir } ∷ [],
          ))
        × (w'.pending ≡ w.pending)
  unfolding moved_to
  moved_to-paired path false w old h = (w, refl, refl)
  moved_to-paired path true w old h =
      let w1 = add_recursive inotify files cfg path w in
      let (w', e, _) =
        rename_watched_prefix-IsOwned old.path path w1
          (add_recursive-IsOwned inotify files cfg path w h) in
      (
        w',
        ap (renamed old.path path true) e,
        rename_watched_prefix-pending old.path path w1 w' e ∙ add_recursive-pending path w,
      )

  module _ (now now' : ℕ) (from to : RawEvent) (base new_base : Bytes) (w : LinuxWatcher K)
      (old_dir : lookup from.wd w.wd_to_path ≡ some base)
      (new_dir : lookup to.wd w.wd_to_path ≡ some new_base) (old_named : (base == []) ≡ false)
      (new_named : (new_base == []) ≡ false) (from_kept : has_bit from.mask in_q_overflow ≡ false)
      (to_kept : has_bit to.mask in_q_overflow ≡ false)
      (from_bit : has_bit from.mask in_moved_from ≡ true)
      (to_not_from : has_bit to.mask in_moved_from ≡ false)
      (to_bit : has_bit to.mask in_moved_to ≡ true) (same_cookie : to.cookie ≡ from.cookie) where
    abbrev old : PendingRename
    old = record { path = full_path base from.name; is_dir = has_bit from.mask in_isdir; at = now }

    -- After the first event.
    abbrev between : LinuxWatcher K
    between = record w { pending = insert from.cookie old w.pending }

    handle-from : handle inotify files cfg now from w ≡ some (between, [])
    unfolding handle
    handle-from =
        rw (from_kept, handle)
          (rw (old_dir, handle) (rw (old_named, handle) (rw (from_bit, handle) refl)))

    abbrev taken : LinuxWatcher K
    taken = record w { pending = delete from.cookie (insert from.cookie old w.pending) }

    take_rename-between : take_rename to.cookie between ≡ (taken, some old)
    unfolding take_rename
    take_rename-between =
        let e : lookup from.cookie between.pending ≡ some old =
          ground (arith, lookup-insert from.cookie from.cookie old w.pending) in
        rw same_cookie (rw (e, take_rename) refl)

    handle-to :
        handle inotify files cfg now' to between
        ≡ moved_to inotify files cfg
            (full_path new_base to.name)
            (has_bit to.mask in_isdir)
            (taken, some old)
    unfolding handle
    handle-to =
        rw (to_kept, handle)
          (rw (new_dir, handle)
            (rw (new_named, handle)
              (rw (to_not_from, handle)
                (rw (to_bit, handle)
                  (ap
                    (moved_to inotify files cfg (full_path new_base to.name)
                      (has_bit to.mask in_isdir))
                    take_rename-between)))))

    -- The kernel reports a rename between two watched directories by two events with one cookie. On
    -- maps that agree, the first sends nothing, and the second sends one event, which reports the
    -- rename with both names, and nothing of it stays pending.
    pub paired_rename :
        IsOwned w
        → (w1 w2 : LinuxWatcher K) × (handle inotify files cfg now from w ≡ some (w1, []))
          × (handle inotify files cfg now' to w1
              ≡ some (
                w2,
                record {
                  path = full_path new_base to.name;
                  old_path = full_path base from.name;
                  op = op_rename;
                  is_dir = has_bit to.mask in_isdir;
                }
                    ∷ [],
              ))
          × (lookup from.cookie w2.pending ≡ none)
    paired_rename h =
        let (w2, e, same) =
          moved_to-paired (full_path new_base to.name) (has_bit to.mask in_isdir) taken old
            (pending-IsOwned _ w h) in
        (
          between,
          w2,
          handle-from,
          handle-to ∙ e,
          ap (lookup from.cookie) same
              ∙ ground
                  (arith, lookup-delete from.cookie from.cookie (insert from.cookie old w.pending)),
        )
