-- ===== src/Linux/Dropping.antt =====
-- internal/backend/backend_linux.go: what Remove asks of the kernel and leaves of the descriptors.
use go_gaze.Common.{
  ℕ, ◌≡◌, refl, ◌∙◌, ap, Bool, true, false, ◌&&◌, Option, none, some, List, [], ◌∷◌, ◌++◌, sym,
  subst, arith, Bytes, ◌==◌, bytes_eq, nat_eq, bytes_beq_iff, Bool-cases, Option-cases, inl, inr,
  if◌then◌else◌,
}
use go_gaze.Common.Assoc.{Map, lookup, delete, has, All, Distinct}
use go_gaze.Tree.{PathSet}
use go_gaze.Env.{Target}
use go_gaze.Linux.{Inotify, Node, LinuxWatcher, unwatch, leave_dir, leave_dirs, set_of, remove}
use go_gaze.Linux.Removing.{left_node, lookup-leave_dir, lookup-leave_dirs}

-- Every root of the set is this one.
unfoldable pub is_only : Bytes → PathSet → Bool
is_only root [] = true
is_only root ((r, _) ∷ roots) = r == root && is_only root roots

-- The descriptor of a node that has no root but this one.
unfoldable pub sole_wd : Bytes → Option Node → List ℕ
sole_wd root none = []
sole_wd root (some node) = if is_only root node.roots then node.wd ∷ [] else []

-- The descriptors of those directories of the set whose node has no root but this one.
unfoldable pub sole_wds : Bytes → PathSet → Map Bytes Node → List ℕ
sole_wds root [] watched = []
sole_wds root ((dir, _) ∷ dirs) watched =
    sole_wd root (lookup dir watched) ++ sole_wds root dirs watched

-- The descriptors without those of a list.
unfoldable pub without_wds : List ℕ → Map ℕ Bytes → Map ℕ Bytes
without_wds [] m = m
without_wds (wd ∷ wds) m = without_wds wds (delete wd m)

sole_wds-congr :
    (root : Bytes) (dirs : PathSet) (m m' : Map Bytes Node)
    → All (λ dir _. lookup dir m ≡ lookup dir m') dirs
    → sole_wds root dirs m ≡ sole_wds root dirs m'
unfolding sole_wds
sole_wds-congr root [] m m' h = refl
sole_wds-congr root ((dir, _) ∷ dirs) m m' h =
    let rest = sole_wds-congr root dirs m m' h.1 in
    ap (λ o. sole_wd root o ++ sole_wds root dirs m) h.0
    ∙ ap (λ l. sole_wd root (lookup dir m') ++ l) rest

delete-is_only :
    (root : Bytes) (roots : PathSet) → is_only root roots ≡ true → delete root roots ≡ []
unfolding is_only delete
delete-is_only root [] h = refl
delete-is_only root ((r, _) ∷ roots) h = ground (arith, delete-is_only root roots)

data IsKept (root : Bytes) (roots : PathSet) : Type 0 where
  kept : (r : Bytes) (left : PathSet) → delete root roots ≡ (r, tt) ∷ left → IsKept root roots

delete-not_only : (root : Bytes) (roots : PathSet) → is_only root roots ≡ false → IsKept root roots
unfolding is_only delete
delete-not_only root [] h = ground arith
delete-not_only root ((r, _) ∷ roots) h = elim (Bool-cases (r == root)) [
  | inl e ↦ elim (delete-not_only root roots (ground arith)) [
    | kept s left q ↦ kept s left (rw e q)
  ]
  | inr e ↦ kept r (delete root roots) (rw e refl)
]

without_wds-append :
    (a b : List ℕ) (m : Map ℕ Bytes) → without_wds (a ++ b) m ≡ without_wds b (without_wds a m)
unfolding without_wds
without_wds-append [] b m = refl
without_wds-append (wd ∷ a) b m = without_wds-append a b (delete wd m)

module _ {K : Type 0} (inotify : Inotify K) where
  -- InotifyRmWatch of each descriptor, in order.
  unfoldable pub released : List ℕ → K → K
  released [] kernel = kernel
  released (wd ∷ wds) kernel = released wds (inotify.remove_watch wd kernel)

  -- What leave_dir does to the kernel and to the descriptors.
  record IsLeft (wds : List ℕ) (w w' : LinuxWatcher K) : Type 0 where
    kernel : w'.kernel ≡ released wds w.kernel
    wd_to_path : w'.wd_to_path ≡ without_wds wds w.wd_to_path
    roots : w'.roots ≡ w.roots
    root_dirs : w'.root_dirs ≡ w.root_dirs

  unwatch-IsLeft :
      (root dir : Bytes) (node : Node) (w : LinuxWatcher K)
      → IsLeft
          (if is_only root node.roots then node.wd ∷ [] else [])
          w
          (unwatch inotify root dir node (delete root node.roots) w)
  unfolding released without_wds
  unwatch-IsLeft root dir node w = elim (Bool-cases (is_only root node.roots)) [
    | inl e ↦
        rw (e, delete-is_only root node.roots e)
          (record { kernel = refl; wd_to_path = refl; roots = refl; root_dirs = refl })
    | inr e ↦ elim (delete-not_only root node.roots e) [
      | kept r left q ↦
          rw (e, q) (record { kernel = refl; wd_to_path = refl; roots = refl; root_dirs = refl })
    ]
  ]

  leave_dir-IsLeft :
      (root dir : Bytes) (w : LinuxWatcher K)
      → IsLeft (sole_wd root (lookup dir w.watched)) w (leave_dir inotify root dir w)
  unfolding sole_wd leave_dir released without_wds
  leave_dir-IsLeft root dir w = elim (Option-cases (lookup dir w.watched)) [
    | inl e ↦
        rw (e, leave_dir)
          (record { kernel = refl; wd_to_path = refl; roots = refl; root_dirs = refl })
    | inr (node, e) ↦ rw (e, leave_dir) (unwatch-IsLeft root dir node w)
  ]

  released-append :
      (a b : List ℕ) (kernel : K) → released (a ++ b) kernel ≡ released b (released a kernel)
  unfolding released
  released-append [] b kernel = refl
  released-append (wd ∷ a) b kernel = released-append a b (inotify.remove_watch wd kernel)

  IsLeft-append :
      (a b : List ℕ) (w w' w'' : LinuxWatcher K)
      → IsLeft a w w'
      → IsLeft b w' w''
      → IsLeft (a ++ b) w w''
  IsLeft-append a b w w' w'' h h' = record {
    kernel = h'.kernel ∙ ap (released b) h.kernel ∙ sym (released-append a b w.kernel);
    wd_to_path =
        h'.wd_to_path ∙ ap (without_wds b) h.wd_to_path ∙ sym (without_wds-append a b w.wd_to_path);
    roots = h'.roots ∙ h.roots;
    root_dirs = h'.root_dirs ∙ h.root_dirs;
  }

  -- Leaving a directory does not concern the others.
  leave_dir-others :
      (root dir : Bytes) (dirs : PathSet) (w : LinuxWatcher K)
      → has dir dirs ≡ false
      → All (λ q _. lookup q (leave_dir inotify root dir w).watched ≡ lookup q w.watched) dirs
  unfolding has
  leave_dir-others root dir [] w h = tt
  leave_dir-others root dir ((q, _) ∷ dirs) w h = (
    ground (arith, lookup-leave_dir inotify root dir q w, bytes_beq_iff dir q, bytes_beq_iff q dir),
    leave_dir-others root dir dirs w (ground arith),
  )

  sole_wds-leave_dir :
      (root dir : Bytes) (dirs : PathSet) (w : LinuxWatcher K)
      → has dir dirs ≡ false
      → sole_wds root dirs (leave_dir inotify root dir w).watched ≡ sole_wds root dirs w.watched
  sole_wds-leave_dir root dir dirs w apart =
      sole_wds-congr root dirs _ _ (leave_dir-others root dir dirs w apart)

  leave_dirs-IsLeft :
      (root : Bytes) (dirs : PathSet) (w : LinuxWatcher K)
      → Distinct dirs
      → IsLeft (sole_wds root dirs w.watched) w (leave_dirs inotify root dirs w)
  unfolding sole_wds leave_dirs released without_wds
  leave_dirs-IsLeft root [] w h = record {
    kernel = refl;
    wd_to_path = refl;
    roots = refl;
    root_dirs = refl;
  }
  leave_dirs-IsLeft root ((dir, _) ∷ dirs) w h =
      let w' = leave_dir inotify root dir w in
      IsLeft-append (sole_wd root (lookup dir w.watched)) (sole_wds root dirs w.watched) w w' _
        (leave_dir-IsLeft root dir w)
        (subst (λ wds. IsLeft wds w' (leave_dirs inotify root dirs w'))
          (sole_wds-leave_dir root dir dirs w h.0) (leave_dirs-IsLeft root dirs w' h.1))

  -- What Remove of a root leaves.
  pub record IsDropped (path : Bytes) (w w' : LinuxWatcher K) : Type 0 where
    pub kernel :
        w'.kernel ≡ released (sole_wds path (set_of (lookup path w.root_dirs)) w.watched) w.kernel
    pub wd_to_path :
        w'.wd_to_path
        ≡ without_wds (sole_wds path (set_of (lookup path w.root_dirs)) w.watched) w.wd_to_path
    pub watched :
        (q : Bytes)
        → lookup q w'.watched ≡ (
            if has q (set_of (lookup path w.root_dirs))
            then left_node path (lookup q w.watched)
            else lookup q w.watched)
    pub roots : w'.roots ≡ delete path w.roots
    pub root_dirs : w'.root_dirs ≡ delete path w.root_dirs

  -- Remove of a root that the backend has, whose set of directories holds each directory once,
  -- returns nil. It asks the kernel to remove the watches of exactly those directories of the set
  -- whose only root this was, in the order of the set, and forgets their descriptors and nodes; every
  -- other directory of the set keeps its node without the root, every other directory its node, and
  -- the root and its set are gone.
  pub remove_lem :
      (path : Bytes) (target : Target) (w : LinuxWatcher K)
      → lookup path w.roots ≡ some target
      → Distinct (set_of (lookup path w.root_dirs))
      → ((remove inotify path w).1 ≡ none) × IsDropped path w (remove inotify path w).0
  unfolding remove
  remove_lem path target w found distinct =
      let dirs = set_of (lookup path w.root_dirs) in
      let left = leave_dirs-IsLeft path dirs w distinct in
      rw (found, remove)
        (
          refl,
          record {
            kernel = left.kernel;
            wd_to_path = left.wd_to_path;
            watched = λ q. lookup-leave_dirs inotify path q dirs w;
            roots = ap (delete path) left.roots;
            root_dirs = ap (delete path) left.root_dirs;
          },
        )
