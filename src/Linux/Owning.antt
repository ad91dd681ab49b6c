-- ===== src/Linux/Owning.antt =====
-- internal/backend/backend_linux.go: Remove and renameWatchedPrefix keep the agreement of the maps, and
-- renameWatchedPrefix meets no path without a node.
use go_gaze.Common.{
  ◌≡◌, refl, ◌∙◌, ap, true, false, Option, none, some, [], ◌∷◌, arith, Bytes, ◌==◌, bytes_eq,
  bytes_beq_iff, Bool-cases, Option-cases, inl, inr, if◌then◌else◌,
}
use go_gaze.Common.Assoc.{
  lookup, delete, has, Distinct, Distinct-insert, Distinct-delete, lookup-delete, has-delete,
}
use go_gaze.Tree.{PathSet}
use go_gaze.Env.{Target}
use go_gaze.Linux.{Inotify, Node, LinuxWatcher, set_of, unwatch, leave_dir, leave_dirs, remove}
use go_gaze.Linux.Removing.{keep, left_node, lookup-leave_dirs}
use go_gaze.Linux.Keys.{enrolled_for}
use go_gaze.Linux.Owned.{IsOwned}

module _ {K : Type 0} (inotify : Inotify K) where
  -- What the loop of Remove leaves alone.
  pub record Left (w w' : LinuxWatcher K) : Type 0 where
    pub roots : w'.roots ≡ w.roots
    pub root_dirs : w'.root_dirs ≡ w.root_dirs
    pub distinct : Distinct w'.watched

  unwatch-Left :
      (root dir : Bytes) (node : Node) (left : PathSet) (w : LinuxWatcher K)
      → Distinct w.watched
      → Left w (unwatch inotify root dir node left w)
  unwatch-Left root dir node [] w d = record {
    roots = refl;
    root_dirs = refl;
    distinct = Distinct-delete dir w.watched d;
  }
  unwatch-Left root dir node (x ∷ left) w d = record {
    roots = refl;
    root_dirs = refl;
    distinct = Distinct-insert dir _ w.watched d;
  }

  leave_dir-Left :
      (root dir : Bytes) (w : LinuxWatcher K)
      → Distinct w.watched
      → Left w (leave_dir inotify root dir w)
  unfolding leave_dir
  leave_dir-Left root dir w d = elim (Option-cases (lookup dir w.watched)) [
    | inl e ↦ rw (e, leave_dir) (record { roots = refl; root_dirs = refl; distinct = d })
    | inr (node, e) ↦ rw (e, leave_dir) (unwatch-Left root dir node _ w d)
  ]

  leave_dirs-Left :
      (root : Bytes) (dirs : PathSet) (w : LinuxWatcher K)
      → Distinct w.watched
      → Left w (leave_dirs inotify root dirs w)
  unfolding leave_dirs
  leave_dirs-Left root [] w d = record { roots = refl; root_dirs = refl; distinct = d }
  leave_dirs-Left root ((dir, _) ∷ dirs) w d =
      let first = leave_dir-Left root dir w d in
      let rest = leave_dirs-Left root dirs (leave_dir inotify root dir w) first.distinct in
      record {
        roots = rest.roots ∙ first.roots;
        root_dirs = rest.root_dirs ∙ first.root_dirs;
        distinct = rest.distinct;
      }

  keep_cases :
      (node n : Node) (left : PathSet)
      → keep node left ≡ some n
      → (n.roots ≡ left) × ((r : Bytes) × (has r n.roots ≡ true))
  unfolding has
  keep_cases node n [] e = ground arith
  keep_cases node n ((d, _) ∷ left) e =
      let same : n.roots ≡ (d, tt) ∷ left = ground arith in
      (same, (d, rw same (ground (arith, bytes_beq_iff d d))))

  module _ (path : Bytes) (w : LinuxWatcher K) (h : IsOwned w) where
    abbrev dirs : PathSet
    dirs = set_of (lookup path w.root_dirs)

    abbrev after : LinuxWatcher K
    after = leave_dirs inotify path dirs w

    -- A node after the loop of Remove stands for one before it, without the root.
    record Before (q : Bytes) (n : Node) : Type 0 where
      node : Node
      found : lookup q w.watched ≡ some node
      kept : (r : Bytes) → has r n.roots ≡ true → (has r node.roots ≡ true) × ((path == r) ≡ false)
      used : (r : Bytes) × (has r n.roots ≡ true)

    before_left :
        (q : Bytes) (n : Node) (o : Option Node)
        → lookup q w.watched ≡ o
        → left_node path o ≡ some n
        → Before q n
    before_left q n none found e = ground arith
    before_left q n (some node) found e =
        let (same, used) = keep_cases node n (delete path node.roots) e in
        record {
          node = node;
          found = found;
          kept = λ r m. ground (arith, has-delete path r node.roots, ap (has r) same);
          used = used;
        }

    before : (q : Bytes) (n : Node) → lookup q after.watched ≡ some n → Before q n
    before q n e =
        let l = lookup-leave_dirs inotify path q dirs w in
        elim (Bool-cases (has q dirs)) [
          | inl there ↦ before_left q n (lookup q w.watched) refl (ground arith)
          | inr absent ↦
              let found : lookup q w.watched ≡ some n = ground arith in
              record {
                node = n;
                found = found;
                kept = λ r m. (m, ground (arith, h.owned q n path found, bytes_beq_iff path r));
                used = h.used q n found;
              }
        ]

    removed-IsOwned :
        IsOwned (record after {
          root_dirs = delete path after.root_dirs;
          roots = delete path after.roots;
        })
    removed-IsOwned =
        let left = leave_dirs-Left path dirs w h.distinct in
        record {
          keys = λ root. ground (
            arith,
            has-delete path root after.root_dirs,
            has-delete path root after.roots,
            ap (has root) left.root_dirs,
            ap (has root) left.roots,
            h.keys root,
          );
          owned = λ q n root e m.
              let b = before q n e in
              let (k, other) = b.kept root m in
              let o = h.owned q b.node root b.found k in
              rw (lookup-delete path root after.root_dirs) (rw left.root_dirs (ground arith));
          used = λ q n e. (before q n e).used;
          distinct = left.distinct;
        }

  pub remove-IsOwned :
      (path : Bytes) (w : LinuxWatcher K) → IsOwned w → IsOwned (remove inotify path w).0
  unfolding remove
  remove-IsOwned path w h = elim (Option-cases (lookup path w.roots)) [
    | inl e ↦ rw (e, remove) h
    | inr (target, e) ↦ rw (e, remove) (removed-IsOwned path w h)
  ]

  pub enrolled-remove :
      (path r q : Bytes) (target : Target) (w : LinuxWatcher K)
      → IsOwned w
      → lookup path w.roots ≡ some target
      → enrolled_for r q (remove inotify path w).0.root_dirs
        ≡ (if path == r then false else enrolled_for r q w.root_dirs)
  unfolding remove has
  enrolled-remove path r q target w h e =
      let left = leave_dirs-Left path (set_of (lookup path w.root_dirs)) w h.distinct in
      rw (e, remove) (rw (lookup-delete path r) (rw left.root_dirs (ground arith)))
