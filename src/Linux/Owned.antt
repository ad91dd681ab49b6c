-- ===== src/Linux/Owned.antt =====
-- internal/backend/backend_linux.go: the agreement of the maps, and that the methods which change one
-- directory keep it.
use go_gaze.Common.{
  ℕ, ◌≡◌, refl, ◌∙◌, subst, true, ◌||◌, not, Option, none, some, [], ◌∷◌, arith, Bytes, ◌==◌,
  bytes_eq, bytes_beq_iff, if_keeps, Bool-cases, Option-cases, ◌⊎◌, inl, inr,
}
use go_gaze.Common.Assoc.{
  Map, lookup, delete, insert, has, Distinct, Distinct-insert, Distinct-delete, lookup-insert,
  lookup-delete, has-insert, lookup-has,
}
use go_gaze.Errors.{Error, Result, ok, err}
use go_gaze.FilePath.{has_path_prefix}
use go_gaze.Tree.{PathSet}
use go_gaze.Linux.{
  Inotify, Node, LinuxWatcher, forget_all, drop_watch, remove_watched, remove_loop,
  remove_watched_prefix, enrolled, enroll, enroll_in, add_dir,
}
use go_gaze.Linux.Keys.{enrolled_for, enrolled-forget_all, has-forget_all}

-- The maps agree so far that nothing is watched for no root: rootDirs has the keys of roots, each
-- root of a watched directory has enrolled it, and each watched directory has a root.
pub record IsOwned {K : Type 0} (w : LinuxWatcher K) : Type 0 where
  pub keys : (root : Bytes) → has root w.root_dirs ≡ has root w.roots
  pub owned :
      (path : Bytes) (node : Node) (root : Bytes)
      → lookup path w.watched ≡ some node
      → has root node.roots ≡ true
      → enrolled_for root path w.root_dirs ≡ true
  pub used :
      (path : Bytes) (node : Node)
      → lookup path w.watched ≡ some node
      → (root : Bytes) × (has root node.roots ≡ true)
  pub distinct : Distinct w.watched

-- A watched directory is dropped, and forgotten by some roots.
pub dropped-IsOwned :
    {K : Type 0} (kernel : K) (wd_to_path : Map ℕ Bytes) (path : Bytes) (roots : PathSet)
    (w : LinuxWatcher K)
    → IsOwned w
    → IsOwned (record w {
      kernel = kernel;
      wd_to_path = wd_to_path;
      watched = delete path w.watched;
      root_dirs = forget_all roots path w.root_dirs;
    })
dropped-IsOwned kernel wd_to_path path roots w h = record {
  keys = λ root. has-forget_all roots path root w.root_dirs ∙ h.keys root;
  owned = λ q node root e m. ground (
    arith,
    lookup-delete path q w.watched,
    enrolled-forget_all roots path root q w.root_dirs,
    h.owned q node root,
  );
  used = λ q node e. h.used q node (ground (arith, lookup-delete path q w.watched));
  distinct = Distinct-delete path w.watched h.distinct;
}

-- What a lookup finds after a write: the new node, or one that was there.
pub inserted_cases :
    (dir q : Bytes) (node n : Node) (m : Map Bytes Node)
    → lookup q (insert dir node m) ≡ some n
    → (node ≡ n) ⊎ (lookup q m ≡ some n)
inserted_cases dir q node n m e = elim (Bool-cases (dir == q)) [
  | inl same ↦ inl (ground (arith, lookup-insert dir q node m))
  | inr other ↦ inr (ground (arith, lookup-insert dir q node m))
]

pub used-insert :
    (dir q root : Bytes) (node n : Node) (m : Map Bytes Node)
    → has root node.roots ≡ true
    → (lookup q m ≡ some n → (r : Bytes) × (has r n.roots ≡ true))
    → lookup q (insert dir node m) ≡ some n
    → (r : Bytes) × (has r n.roots ≡ true)
used-insert dir q root node n m k used e = elim (inserted_cases dir q node n m e) [
  | inl same ↦ (root, subst (λ x. has root x.roots ≡ true) same k)
  | inr old ↦ used old
]

-- A node is put under a path, for roots that have all enrolled it.
pub put-IsOwned :
    {K : Type 0} (kernel : K) (wd_to_path : Map ℕ Bytes) (root dir : Bytes) (dirs : PathSet)
    (node : Node) (w : LinuxWatcher K)
    → lookup root w.root_dirs ≡ some dirs
    → has root node.roots ≡ true
    → ((r : Bytes) → has r node.roots ≡ true → (root == r || enrolled_for r dir w.root_dirs) ≡ true)
    → IsOwned w
    → IsOwned (record w {
      kernel = kernel;
      wd_to_path = wd_to_path;
      watched = insert dir node w.watched;
      root_dirs = insert root (insert dir tt dirs) w.root_dirs;
    })
put-IsOwned kernel wd_to_path root dir dirs node w found m all h = record {
  keys = λ r. ground (
    arith,
    has-insert root r (insert dir tt dirs) w.root_dirs,
    h.keys r,
    lookup-has root w.root_dirs dirs found,
    bytes_beq_iff root r,
  );
  owned = λ q n r e k. rw (lookup-insert root r (insert dir tt dirs) w.root_dirs) (
      ground (
        arith,
        lookup-insert dir q node w.watched,
        has-insert dir q tt dirs,
        h.owned q n r,
        all r,
        bytes_beq_iff root r,
        bytes_beq_iff dir q,
      ));
  used = λ q n e. used-insert dir q root node n w.watched m (h.used q n) e;
  distinct = Distinct-insert dir node w.watched h.distinct;
}

module _ {K : Type 0} (inotify : Inotify K) where
  enrolled-IsOwned :
      (root dir : Bytes) (dirs : PathSet) (w : LinuxWatcher K) (answer : K × Result ℕ)
      → lookup root w.root_dirs ≡ some dirs
      → IsOwned w
      → IsOwned (enrolled inotify root dir dirs w answer).0
  unfolding has
  enrolled-IsOwned root dir dirs w (kernel, err e) found h = record {
    keys = h.keys;
    owned = h.owned;
    used = h.used;
    distinct = h.distinct;
  }
  enrolled-IsOwned root dir dirs w (kernel, ok wd) found h =
      put-IsOwned kernel _ root dir dirs (record { wd = wd; path = dir; roots = (root, tt) ∷ [] }) w
        found (ground (arith, bytes_beq_iff root root)) (λ r m. ground arith) h

  enroll-IsOwned :
      (root dir : Bytes) (dirs : PathSet) (w : LinuxWatcher K) (node : Option Node)
      → lookup root w.root_dirs ≡ some dirs
      → lookup dir w.watched ≡ node
      → IsOwned w
      → IsOwned (enroll inotify root dir dirs w node).0
  enroll-IsOwned root dir dirs w none found e h =
      enrolled-IsOwned root dir dirs w (inotify.add_watch dir w.kernel) found h
  enroll-IsOwned root dir dirs w (some node) found e h =
      put-IsOwned w.kernel w.wd_to_path root dir dirs
        (record node { roots = insert root tt node.roots }) w found
        (ground (arith, has-insert root root tt node.roots, bytes_beq_iff root root))
        (λ r m. ground (arith, has-insert root r tt node.roots, h.owned dir node r)) h

  enroll_in-IsOwned :
      (root dir : Bytes) (w : LinuxWatcher K) (dirs : Option PathSet)
      → lookup root w.root_dirs ≡ dirs
      → IsOwned w
      → IsOwned (enroll_in inotify root dir dirs w).0
  enroll_in-IsOwned root dir w none found h = h
  enroll_in-IsOwned root dir w (some dirs) found h =
      enroll-IsOwned root dir dirs w (lookup dir w.watched) found refl h

  pub add_dir-IsOwned :
      (root dir : Bytes) (w : LinuxWatcher K) → IsOwned w → IsOwned (add_dir inotify root dir w).0
  unfolding add_dir
  add_dir-IsOwned root dir w h =
      if_keeps (λ (r : LinuxWatcher K × Option Error). IsOwned r.0) w.closed h
        (enroll_in-IsOwned root dir w _ refl h)

  pub drop_watch-IsOwned :
      (wd : ℕ) (path : Bytes) (w : LinuxWatcher K)
      → IsOwned w
      → IsOwned (drop_watch inotify wd path w)
  unfolding drop_watch
  drop_watch-IsOwned wd path w h = elim (Option-cases (lookup path w.watched)) [
    | inl e ↦ rw (e, drop_watch) h
    | inr (node, e) ↦ rw (e, drop_watch) (dropped-IsOwned w.kernel _ path node.roots w h)
  ]

  remove_loop-IsOwned :
      (prefix : Bytes) (rest : Map Bytes Node) (w : LinuxWatcher K)
      → IsOwned w
      → IsOwned (remove_loop inotify prefix rest w)
  unfolding remove_loop remove_watched
  remove_loop-IsOwned prefix [] w h = h
  remove_loop-IsOwned prefix ((path, node) ∷ rest) w h = remove_loop-IsOwned prefix rest _ (
      if_keeps IsOwned (not (has_path_prefix path prefix)) h
        (dropped-IsOwned _ _ path node.roots w h))

  pub remove_watched_prefix-IsOwned :
      (prefix : Bytes) (w : LinuxWatcher K)
      → IsOwned w
      → IsOwned (remove_watched_prefix inotify prefix w)
  unfolding remove_watched_prefix
  remove_watched_prefix-IsOwned prefix w h = remove_loop-IsOwned prefix w.watched w h
