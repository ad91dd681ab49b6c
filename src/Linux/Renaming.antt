-- ===== src/Linux/Renaming.antt =====
-- internal/backend/backend_linux.go: renameWatchedPrefix keeps the agreement of the maps, and meets no
-- path without a node.
use go_gaze.Common.{
  ◌≡◌, refl, ◌∙◌, true, false, none, some, List, [], ◌∷◌, arith, Bytes, ◌==◌, bytes_eq,
  bytes_beq_iff, any, Bool-cases, Option-cases, inl, inr, if◌then◌else◌,
}
use go_gaze.Common.Assoc.{
  Map, lookup, delete, insert, has, Distinct, Distinct-insert, Distinct-delete, lookup-insert,
  lookup-delete, has-insert, has-delete,
}
use go_gaze.FilePath.{has_path_prefix, join_moved_path}
use go_gaze.Linux.{Node, LinuxWatcher, moved_paths, rename_node, rename_loop, rename_watched_prefix}
use go_gaze.Linux.Keys.{lookup-none, enrolled-has, has-replace_all, enrolled-replace_all}
use go_gaze.Linux.Owned.{IsOwned, used-insert}

module _ {K : Type 0} (path new_path : Bytes) (node : Node) (w : LinuxWatcher K) where
  pub lookup-rename_node :
      (q : Bytes)
      → lookup q (rename_node path new_path node w).watched ≡ (
          if new_path == q
          then some (record node { path = new_path })
          else if path == q
          then none
          else lookup q w.watched)
  unfolding rename_node
  lookup-rename_node q =
      lookup-insert new_path q _ (delete path w.watched)
      ∙ ground (arith, lookup-delete path q w.watched)

  pub rename_node-IsOwned :
      lookup path w.watched ≡ some node → IsOwned w → IsOwned (rename_node path new_path node w)
  unfolding rename_node
  rename_node-IsOwned found h = record {
    keys = λ root. has-replace_all node.roots path new_path root w.root_dirs ∙ h.keys root;
    owned = λ q n root e m. ground (
      arith,
      lookup-insert new_path q (record node { path = new_path }) (delete path w.watched),
      lookup-delete path q w.watched,
      enrolled-replace_all node.roots path new_path root q w.root_dirs,
      h.owned path node root found,
      h.owned q n root,
      enrolled-has root path w.root_dirs,
    );
    used = λ q n e.
        let (r, m) = h.used path node found in
        used-insert new_path q r (record node { path = new_path }) n (delete path w.watched) m
          (λ f. h.used q n (ground (arith, lookup-delete path q w.watched))) e;
    distinct = Distinct-insert new_path _ _ (Distinct-delete path w.watched h.distinct);
  }

-- The paths are watched, and each stands once.
abbrev pub Waiting : {V : Type 0} → List Bytes → Map Bytes V → Type 0
Waiting [] m = Unit
Waiting (p ∷ ps) m = (has p m ≡ true) × (any (λ q. p == q) ps ≡ false) × Waiting ps m

pub Waiting-rename :
    {V : Type 0} (p new_path : Bytes) (node : V) (ps : List Bytes) (m : Map Bytes V)
    → any (λ q. p == q) ps ≡ false
    → Waiting ps m
    → Waiting ps (insert new_path node (delete p m))
unfolding any
Waiting-rename p new_path node [] m a h = tt
Waiting-rename p new_path node (q ∷ ps) m a h = (
  ground (arith, has-insert new_path q node (delete p m), has-delete p q m),
  h.1,
  Waiting-rename p new_path node ps m (ground arith) h.2,
)

Waiting-cons :
    {V : Type 0} (k : Bytes) (node : V) (ps : List Bytes) (m : Map Bytes V)
    → Waiting ps m
    → Waiting ps ((k, node) ∷ m)
unfolding has
Waiting-cons k node [] m h = tt
Waiting-cons k node (q ∷ ps) m h = (ground arith, h.1, Waiting-cons k node ps m h.2)

any-moved_paths :
    {V : Type 0} (old k : Bytes) (m : Map Bytes V)
    → any (λ q. k == q) (moved_paths old m) ≡ true
    → has k m ≡ true
unfolding moved_paths any has
any-moved_paths old k [] h = ground arith
any-moved_paths old k ((j, node) ∷ m) h =
    ground (arith, any-moved_paths old k m, bytes_beq_iff j k, bytes_beq_iff k j)

pub moved_paths-Waiting :
    {V : Type 0} (old : Bytes) (m : Map Bytes V) → Distinct m → Waiting (moved_paths old m) m
unfolding moved_paths has
moved_paths-Waiting old [] d = tt
moved_paths-Waiting old ((k, node) ∷ m) d =
    let rest = Waiting-cons k node (moved_paths old m) m (moved_paths-Waiting old m d.1) in
    elim (Bool-cases (has_path_prefix k old)) [
      | inl e ↦
          rw (e, moved_paths)
            (ground (arith, bytes_beq_iff k k), ground (arith, any-moved_paths old k m, d.0), rest)
      | inr e ↦ rw (e, moved_paths) rest
    ]

rename_loop-IsOwned :
    {K : Type 0} (old new : Bytes) (paths : List Bytes) (w : LinuxWatcher K)
    → Waiting paths w.watched
    → IsOwned w
    → (w' : LinuxWatcher K) × (rename_loop old new paths w ≡ some w') × IsOwned w'
unfolding rename_loop
rename_loop-IsOwned old new [] w t h = (w, refl, h)
rename_loop-IsOwned old new (path ∷ paths) w t h = elim (Option-cases (lookup path w.watched)) [
  | inl e ↦ absurd (ground (arith, lookup-none path w.watched))
  | inr (node, e) ↦
      rw (e, rename_loop)
        (rename_loop-IsOwned old new paths (rename_node path (join_moved_path path old new) node w)
          (Waiting-rename path _ _ paths w.watched t.1 t.2) (rename_node-IsOwned path _ node w e h))
]

-- renameWatchedPrefix does not panic on maps that agree, and leaves maps that agree.
pub rename_watched_prefix-IsOwned :
    {K : Type 0} (old new : Bytes) (w : LinuxWatcher K)
    → IsOwned w
    → (w' : LinuxWatcher K) × (rename_watched_prefix old new w ≡ some w') × IsOwned w'
unfolding rename_watched_prefix
rename_watched_prefix-IsOwned old new w h =
    rename_loop-IsOwned old new _ w (moved_paths-Waiting old w.watched h.distinct) h
