-- ===== src/Darwin/Renaming.antt =====
-- internal/backend/backend_darwin.go: renamePath and renamePrefix keep the agreement of the maps, and
-- meet no path without a node and no root without a set.
use go_gaze.Common.{
  ◌≡◌, refl, ◌∙◌, true, some, List, [], ◌∷◌, arith, Bytes, bytes_eq, nat_eq, bytes_beq_iff, any,
  Option-cases, inl, inr,
}
use go_gaze.Common.Assoc.{
  Map, lookup, delete, insert, has, All-insert, All-delete, Distinct-insert, Distinct-delete,
  lookup-insert, lookup-delete,
}
use go_gaze.FilePath.{join_moved_path}
use go_gaze.Tree.{PathSet}
use go_gaze.Linux.Keys.{enrolled-has, lookup-none}
use go_gaze.Linux.Renaming.{Waiting, Waiting-rename, moved_paths-Waiting}
use go_gaze.Darwin.{
  Node, Snapshot, DarwinWatcher, move_snapshot, move_node, rename_path, rename_loop, rename_prefix,
}
use go_gaze.Darwin.Keys.{
  has_root, replace_roots, AllThere, move_in_roots_there, has-replace_roots, enrolled-replace_roots,
}
use go_gaze.Darwin.Owned.{IsNamed, IsOwned}

all_there :
    (roots : List Bytes) (root_nodes : Map Bytes PathSet)
    → ((r : Bytes) → has_root r roots ≡ true → has r root_nodes ≡ true)
    → AllThere roots root_nodes
unfolding any
all_there [] root_nodes h = tt
all_there (root ∷ roots) root_nodes h = (
  h root (ground (arith, bytes_beq_iff root root)),
  all_there roots root_nodes (λ r m. h r (ground (arith, m))),
)

-- What stays of the state: only the snapshots and these three maps change.
abbrev pub moved : {K : Type 0} → Bytes → Bytes → Node → DarwinWatcher K → DarwinWatcher K
moved path new_path node w = record w {
  watched = insert new_path (record node { path = new_path }) (delete path w.watched);
  fd_to_path = insert node.fd new_path w.fd_to_path;
  root_nodes = replace_roots node.roots path new_path w.root_nodes;
}

module _ {K : Type 0} (path new_path : Bytes) (node : Node) (w : DarwinWatcher K)
    (found : lookup path w.watched ≡ some node) (h : IsOwned w) where
  move_node_moved : move_node path new_path node w ≡ some (moved path new_path node w)
  unfolding move_node
  move_node_moved =
      rw
        (
          move_in_roots_there node.roots path new_path w.root_nodes (
              all_there node.roots w.root_nodes
                (λ r m. enrolled-has r path w.root_nodes (h.owned path node r found m))),
          move_node,
        )
        refl

  moved-IsOwned : IsOwned (moved path new_path node w)
  moved-IsOwned = record {
    keys = λ root. has-replace_roots node.roots path new_path root w.root_nodes ∙ h.keys root;
    owned = λ q n root e m. ground (
      arith,
      e,
      m,
      found,
      lookup-insert new_path q (record node { path = new_path }) (delete path w.watched),
      lookup-delete path q w.watched,
      enrolled-replace_roots node.roots path new_path root q w.root_nodes,
      h.owned path node root found,
      h.owned q n root,
      enrolled-has root path w.root_nodes,
      bytes_beq_iff new_path q,
    );
    named =
        All-insert IsNamed new_path (record node { path = new_path }) (delete path w.watched) refl
          (All-delete IsNamed path w.watched h.named);
    distinct = Distinct-insert new_path _ _ (Distinct-delete path w.watched h.distinct);
  }

pub snapshots-IsOwned :
    {K : Type 0} (snapshots : Map Bytes Snapshot) (w : DarwinWatcher K)
    → IsOwned w
    → IsOwned (record w { snapshots = snapshots })
snapshots-IsOwned snapshots w h = record {
  keys = h.keys;
  owned = h.owned;
  named = h.named;
  distinct = h.distinct;
}

module _ {K : Type 0} where
  pub rename_path-IsOwned :
      (old_path new_path : Bytes) (w : DarwinWatcher K)
      → IsOwned w
      → (w' : DarwinWatcher K) × (rename_path old_path new_path w ≡ some w') × IsOwned w'
  unfolding rename_path
  rename_path-IsOwned old_path new_path w h = elim (Option-cases (lookup old_path w.watched)) [
    | inl e ↦ (w, rw (e, rename_path) refl, h)
    | inr (node, e) ↦ (
      moved old_path new_path node w,
      rw (e, rename_path) (move_node_moved old_path new_path node w e h),
      moved-IsOwned old_path new_path node w e h,
    )
  ]

  rename_loop-IsOwned :
      (old new : Bytes) (paths : List Bytes) (w : DarwinWatcher K)
      → Waiting paths w.watched
      → IsOwned w
      → (w' : DarwinWatcher K) × (rename_loop old new paths w ≡ some w') × IsOwned w'
  unfolding rename_loop
  rename_loop-IsOwned old new [] w t h = (w, refl, h)
  rename_loop-IsOwned old new (path ∷ paths) w t h = elim (Option-cases (lookup path w.watched)) [
    | inl e ↦ absurd (ground (arith, lookup-none path w.watched, t))
    | inr (node, e) ↦
        let new_path = join_moved_path path old new in
        let w1 = moved path new_path node w in
        rw (e, rename_loop)
          (rw (move_node_moved path new_path node w e h, rename_loop)
            (rename_loop-IsOwned old new paths
              (record w1 { snapshots = move_snapshot path new_path w1.snapshots })
              (Waiting-rename path _ _ paths w.watched t.1 t.2)
              (snapshots-IsOwned _ w1 (moved-IsOwned path new_path node w e h))))
  ]

  pub rename_prefix-IsOwned :
      (old new : Bytes) (w : DarwinWatcher K)
      → IsOwned w
      → (w' : DarwinWatcher K) × (rename_prefix old new w ≡ some w') × IsOwned w'
  unfolding rename_prefix
  rename_prefix-IsOwned old new w h =
      rename_loop-IsOwned old new _ w (moved_paths-Waiting old w.watched h.distinct) h
