-- ===== src/Darwin/Removing.antt =====
-- internal/backend/backend_darwin.go: Remove keeps the agreement of the maps.
use go_gaze.Common.{
  ◌≡◌, true, not, Option, some, [], ◌∷◌, arith, Bytes, bytes_eq, bytes_beq_iff, if_keeps,
  Option-cases, inl, inr,
}
use go_gaze.Common.Assoc.{
  lookup, delete, insert, has, All-insert, All-lookup, Distinct-insert, lookup-insert,
  lookup-delete, has-delete,
}
use go_gaze.Errors.{Error}
use go_gaze.Tree.{PathSet}
use go_gaze.Linux.{set_of}
use go_gaze.Darwin.{
  Kqueue, Node, DarwinWatcher, is_empty, without, unregister, leave_node, leave_nodes, remove,
}
use go_gaze.Darwin.Keys.{has_root, has_root-without}
use go_gaze.Darwin.Owned.{IsNamed, IsOwned, unregister-IsOwned}

module _ {K : Type 0} (kqueue : Kqueue K) (root : Bytes) where
  -- Only the paths that the loop of Remove has still to visit have the root.
  abbrev LeftIn : PathSet → DarwinWatcher K → Type 0
  LeftIn rest w =
      (q : Bytes) (node : Node)
      → lookup q w.watched ≡ some node
      → has_root root node.roots ≡ true
      → has q rest ≡ true

  shrunk-IsOwned :
      (path : Bytes) (node : Node) (w : DarwinWatcher K)
      → lookup path w.watched ≡ some node
      → IsOwned w
      → IsOwned (record w {
        watched = insert path (record node { roots = without root node.roots }) w.watched;
      })
  shrunk-IsOwned path node w e h = record {
    keys = h.keys;
    owned = λ q n r f m. ground (
      arith,
      f,
      m,
      lookup-insert path q (record node { roots = without root node.roots }) w.watched,
      has_root-without root r node.roots,
      h.owned path node r e,
      h.owned q n r,
      bytes_beq_iff path q,
    );
    named =
        All-insert IsNamed path (record node { roots = without root node.roots }) w.watched
          (All-lookup IsNamed path w.watched node h.named e) h.named;
    distinct = Distinct-insert path _ w.watched h.distinct;
  }

  record Step (path : Bytes) (rest : PathSet) (w : DarwinWatcher K) : Type 0 where
    owned : IsOwned w
    left : LeftIn rest w

  leave_node-Step :
      (path : Bytes) (rest : PathSet) (w : DarwinWatcher K)
      → IsOwned w
      → LeftIn ((path, tt) ∷ rest) w
      → Step path rest (leave_node kqueue root path w)
  unfolding leave_node has unregister
  leave_node-Step path rest w h left = elim (Option-cases (lookup path w.watched)) [
    | inl e ↦
        rw (e, leave_node)
          (record {
            owned = h;
            left = λ q n f m. ground (arith, f, e, left q n f m, bytes_beq_iff path q);
          })
    | inr (node, e) ↦
        let name : node.path ≡ path = All-lookup IsNamed path w.watched node h.named e in
        let small : Node = record node { roots = without root node.roots } in
        rw (e, leave_node)
          (if_keeps (Step path rest) (is_empty (without root node.roots))
            (record {
              owned = unregister-IsOwned kqueue small w h;
              left = λ q n f m. ground (
                arith,
                f,
                name,
                lookup-delete node.path q w.watched,
                left q n,
                m,
                bytes_beq_iff path q,
                bytes_beq_iff node.path q,
              );
            })
            (record {
              owned = shrunk-IsOwned path node w e h;
              left = λ q n f m. ground (
                arith,
                f,
                m,
                lookup-insert path q small w.watched,
                has_root-without root root node.roots,
                left q n,
                bytes_beq_iff path q,
                bytes_beq_iff root root,
              );
            }))
  ]

  leave_nodes-Step :
      (rest : PathSet) (w : DarwinWatcher K)
      → IsOwned w
      → LeftIn rest w
      → Step root [] (leave_nodes kqueue root rest w)
  unfolding leave_nodes
  leave_nodes-Step [] w h left = record { owned = h; left = left }
  leave_nodes-Step ((path, _) ∷ rest) w h left =
      let first = leave_node-Step path rest w h left in
      leave_nodes-Step rest (leave_node kqueue root path w) first.owned first.left

  removed-IsOwned :
      (w : DarwinWatcher K)
      → Step root [] w
      → IsOwned (record w { root_nodes = delete root w.root_nodes; roots = delete root w.roots })
  unfolding has
  removed-IsOwned w s = record {
    keys = λ r.
        ground (arith, has-delete root r w.root_nodes, has-delete root r w.roots, s.owned.keys r);
    owned = λ q n r f m.
        rw (lookup-delete root r w.root_nodes)
          (ground (arith, s.owned.owned q n r f m, s.left q n f, m, bytes_beq_iff root r));
    named = s.owned.named;
    distinct = s.owned.distinct;
  }

  pub remove-IsOwned : (w : DarwinWatcher K) → IsOwned w → IsOwned (remove kqueue root w).0
  unfolding remove
  remove-IsOwned w h =
      if_keeps (λ (r : DarwinWatcher K × Option Error). IsOwned r.0) (not (has root w.roots)) h
        (removed-IsOwned _ (
          leave_nodes-Step (set_of (lookup root w.root_nodes)) w h
            (λ q node f m. h.owned q node root f m)))
