-- ===== src/Darwin/Owned.antt =====
-- internal/backend/backend_darwin.go: the agreement of the maps, and that the methods which change one
-- node keep it.
use go_gaze.Common.{
  ℕ, ◌≡◌, refl, ◌∙◌, true, ◌||◌, Option, some, [], ◌∷◌, arith, Bytes, ◌==◌, bytes_eq, bytes_beq_iff,
  if_keeps, Option-cases, inl, inr,
}
use go_gaze.Common.Assoc.{
  Map, lookup, insert, has, All, All-insert, All-delete, Distinct, Distinct-insert, Distinct-delete,
  lookup-insert, lookup-delete, has-insert, lookup-has,
}
use go_gaze.Errors.{Error}
use go_gaze.FilePath.{has_path_prefix}
use go_gaze.Tree.{PathSet}
use go_gaze.Linux.Keys.{enrolled_for}
use go_gaze.Darwin.{
  Kqueue, Node, Snapshot, DarwinWatcher, new, unregister, remove_path_if_watched, remove_below,
  remove_prefix_if_watched, close,
}
use go_gaze.Darwin.Keys.{has_root, enrolled-forget_all, has-forget_all}

abbrev pub IsNamed : Bytes → Node → Type 0
IsNamed path node = node.path ≡ path

-- The maps agree: rootNodes has the keys of roots, each root of a watched node has its path in its set,
-- and each node knows the path under which it stands.
pub record IsOwned {K : Type 0} (w : DarwinWatcher K) : Type 0 where
  pub keys : (root : Bytes) → has root w.root_nodes ≡ has root w.roots
  pub owned :
      (path : Bytes) (node : Node) (root : Bytes)
      → lookup path w.watched ≡ some node
      → has_root root node.roots ≡ true
      → enrolled_for root path w.root_nodes ≡ true
  pub named : All IsNamed w.watched
  pub distinct : Distinct w.watched

pub new-IsOwned : {K : Type 0} (kernel : K) (kq : ℕ) → IsOwned (new kernel kq)
unfolding new has lookup
new-IsOwned kernel kq = record {
  keys = λ root. refl;
  owned = λ path node root e m. absurd (ground (arith, e));
  named = tt;
  distinct = tt;
}

-- A node is put under a path, for roots that all have the path in their sets.
pub put-IsOwned :
    {K : Type 0} (kernel : K) (fd_to_path : Map ℕ Bytes) (snapshots : Map Bytes Snapshot)
    (root path : Bytes) (nodes : PathSet) (node : Node) (w : DarwinWatcher K)
    → lookup root w.root_nodes ≡ some nodes
    → node.path ≡ path
    → ((r : Bytes)
        → has_root r node.roots ≡ true
        → (root == r || enrolled_for r path w.root_nodes) ≡ true)
    → IsOwned w
    → IsOwned (record w {
      kernel = kernel;
      fd_to_path = fd_to_path;
      snapshots = snapshots;
      watched = insert path node w.watched;
      root_nodes = insert root (insert path tt nodes) w.root_nodes;
    })
put-IsOwned kernel fd_to_path snapshots root path nodes node w found name all h = record {
  keys = λ r. ground (
    arith,
    has-insert root r (insert path tt nodes) w.root_nodes,
    h.keys r,
    lookup-has root w.root_nodes nodes found,
    bytes_beq_iff root r,
  );
  owned = λ q n r e k. rw (lookup-insert root r (insert path tt nodes) w.root_nodes) (
      ground (
        arith,
        e,
        k,
        found,
        lookup-insert path q node w.watched,
        has-insert path q tt nodes,
        h.owned q n r,
        all r,
        bytes_beq_iff root r,
        bytes_beq_iff path q,
      ));
  named = All-insert IsNamed path node w.watched name h.named;
  distinct = Distinct-insert path node w.watched h.distinct;
}

module _ {K : Type 0} (kqueue : Kqueue K) where
  pub unregister-IsOwned :
      (node : Node) (w : DarwinWatcher K) → IsOwned w → IsOwned (unregister kqueue node w)
  unfolding unregister
  unregister-IsOwned node w h = record {
    keys = λ root. has-forget_all node.roots node.path root w.root_nodes ∙ h.keys root;
    owned = λ q n root e m. ground (
      arith,
      e,
      m,
      lookup-delete node.path q w.watched,
      enrolled-forget_all node.roots node.path root q w.root_nodes,
      h.owned q n root,
    );
    named = All-delete IsNamed node.path w.watched h.named;
    distinct = Distinct-delete node.path w.watched h.distinct;
  }

  pub remove_path_if_watched-IsOwned :
      (path : Bytes) (w : DarwinWatcher K)
      → IsOwned w
      → IsOwned (remove_path_if_watched kqueue path w).0
  unfolding remove_path_if_watched
  remove_path_if_watched-IsOwned path w h = elim (Option-cases (lookup path w.watched)) [
    | inl e ↦ rw (e, remove_path_if_watched) h
    | inr (node, e) ↦ rw (e, remove_path_if_watched) (unregister-IsOwned node w h)
  ]

  remove_below-IsOwned :
      (prefix : Bytes) (rest : Map Bytes Node) (w : DarwinWatcher K)
      → IsOwned w
      → IsOwned (remove_below kqueue prefix rest w).0
  unfolding remove_below
  remove_below-IsOwned prefix [] w h = h
  remove_below-IsOwned prefix ((path, node) ∷ rest) w h =
      remove_below-IsOwned prefix rest _
        (if_keeps IsOwned (has_path_prefix path prefix) (unregister-IsOwned node w h) h)

  pub remove_prefix_if_watched-IsOwned :
      (prefix : Bytes) (w : DarwinWatcher K)
      → IsOwned w
      → IsOwned (remove_prefix_if_watched kqueue prefix w).0
  unfolding remove_prefix_if_watched
  remove_prefix_if_watched-IsOwned prefix w h = remove_below-IsOwned prefix w.watched w h

  pub close-IsOwned : (w : DarwinWatcher K) → IsOwned w → IsOwned (close kqueue w).0
  unfolding close lookup
  close-IsOwned w h =
      if_keeps (λ (r : DarwinWatcher K × Option Error). IsOwned r.0) w.closed h
        (record {
          keys = h.keys;
          owned = λ path node root e m. absurd (ground (arith, e));
          named = tt;
          distinct = tt;
        })
