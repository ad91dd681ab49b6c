-- ===== src/Linux/Removing.antt =====
-- internal/backend/backend_linux.go: what Remove leaves of the watched directories.
use go_gaze.Common.{
  ◌≡◌, refl, ◌∙◌, ap, Option, none, some, [], ◌∷◌, arith, Bytes, ◌==◌, bytes_eq, bytes_beq_iff,
  Option-cases, inl, inr, if◌then◌else◌,
}
use go_gaze.Common.Assoc.{lookup, delete, has, lookup-delete, lookup-insert}
use go_gaze.Tree.{PathSet}
use go_gaze.Env.{Target}
use go_gaze.Linux.{Inotify, Node, LinuxWatcher, unwatch, leave_dir, leave_dirs, set_of, remove}

-- A node without a root: none if it was the last one.
abbrev pub keep : Node → PathSet → Option Node
keep node [] = none
keep node left = some (record node { roots = left })

abbrev pub left_node : Bytes → Option Node → Option Node
left_node root none = none
left_node root (some node) = keep node (delete root node.roots)

delete_idem : (k : Bytes) (s : PathSet) → delete k (delete k s) ≡ delete k s
unfolding delete
delete_idem k [] = refl
delete_idem k ((j, u) ∷ s) = ground (arith, delete_idem k s)

keep_idem :
    (root : Bytes) (node : Node) (left : PathSet)
    → delete root left ≡ left
    → left_node root (keep node left) ≡ keep node left
keep_idem root node [] e = refl
keep_idem root node (d ∷ left) e = ap (keep node) e

left_node_idem :
    (root : Bytes) (o : Option Node) → left_node root (left_node root o) ≡ left_node root o
left_node_idem root none = refl
left_node_idem root (some node) = keep_idem root node _ (delete_idem root node.roots)

module _ {K : Type 0} (inotify : Inotify K) where
  lookup-unwatch :
      (root dir q : Bytes) (node : Node) (left : PathSet) (w : LinuxWatcher K)
      → lookup q (unwatch inotify root dir node left w).watched
        ≡ (if dir == q then keep node left else lookup q w.watched)
  lookup-unwatch root dir q node [] w = lookup-delete dir q w.watched
  lookup-unwatch root dir q node (d ∷ left) w = lookup-insert dir q _ w.watched

  pub lookup-leave_dir :
      (root dir q : Bytes) (w : LinuxWatcher K)
      → lookup q (leave_dir inotify root dir w).watched
        ≡ (if dir == q then left_node root (lookup q w.watched) else lookup q w.watched)
  unfolding leave_dir
  lookup-leave_dir root dir q w = elim (Option-cases (lookup dir w.watched)) [
    | inl e ↦ rw (e, leave_dir) ground (arith, bytes_beq_iff dir q, e)
    | inr (node, e) ↦
        rw (e, leave_dir)
          (lookup-unwatch root dir q node (delete root node.roots) w
            ∙ ground (arith, bytes_beq_iff dir q, e))
  ]

  pub lookup-leave_dirs :
      (root q : Bytes) (dirs : PathSet) (w : LinuxWatcher K)
      → lookup q (leave_dirs inotify root dirs w).watched
        ≡ (if has q dirs then left_node root (lookup q w.watched) else lookup q w.watched)
  unfolding leave_dirs has
  lookup-leave_dirs root q [] w = refl
  lookup-leave_dirs root q ((dir, _) ∷ dirs) w =
      lookup-leave_dirs root q dirs (leave_dir inotify root dir w)
      ∙ ground (arith, lookup-leave_dir root dir q w, left_node_idem root (lookup q w.watched))

  -- After Remove of a root, each directory that it had enrolled has its node without that root, or
  -- is no longer watched if no other root needs it; every other directory has the node that it had.
  pub lookup-remove :
      (path q : Bytes) (target : Target) (w : LinuxWatcher K)
      → lookup path w.roots ≡ some target
      → lookup q (remove inotify path w).0.watched ≡ (
          if has q (set_of (lookup path w.root_dirs))
          then left_node path (lookup q w.watched)
          else lookup q w.watched)
  unfolding remove
  lookup-remove path q target w e =
      rw (e, remove) (lookup-leave_dirs path q (set_of (lookup path w.root_dirs)) w)
