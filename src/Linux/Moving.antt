-- ===== src/Linux/Moving.antt =====
-- internal/backend/backend_linux.go: a directory that moves from the tree of one root to that of
-- another.
use go_gaze.Common.{
  ◌≡◌, ◌∙◌, ap, false, true, none, some, [], ◌∷◌, arith, Bytes, ◌==◌, bytes_eq, bytes_beq_iff,
}
use go_gaze.Common.Assoc.{lookup, delete, has}
use go_gaze.FilePath.Prefix.{join_self}
use go_gaze.Env.{Target}
use go_gaze.Linux.{
  Inotify, Node, LinuxWatcher, moved_paths, rename_node, rename_loop, rename_watched_prefix, remove,
}
use go_gaze.Linux.Keys.{enrolled_for, enrolled-has, enrolled-replace_all}
use go_gaze.Linux.Removing.{left_node, lookup-remove}
use go_gaze.Linux.Owned.{IsOwned}
use go_gaze.Linux.Owning.{enrolled-remove}
use go_gaze.Linux.Renaming.{lookup-rename_node, rename_node-IsOwned}

module _ {K : Type 0} (inotify : Inotify K) (old new a r : Bytes) (node : Node) (target : Target)
    (w : LinuxWatcher K) (h : IsOwned w) (alone : moved_paths old w.watched ≡ old ∷ [])
    (found : lookup old w.watched ≡ some node) (only : node.roots ≡ (a, tt) ∷ [])
    (rooted : lookup a w.roots ≡ some target) (listed : enrolled_for r new w.root_dirs ≡ true)
    (other : (a == r) ≡ false) where
  abbrev renamed : LinuxWatcher K
  renamed = rename_node old new node w

  rename-one : rename_watched_prefix old new w ≡ some renamed
  unfolding rename_watched_prefix rename_loop
  rename-one =
      ap (λ paths. rename_loop old new paths w) alone
      ∙ rw (found, rename_loop)
          (ap (λ path. some (rename_node old path node w)) (join_self old new))

  a_listed : enrolled_for a new renamed.root_dirs ≡ true
  unfolding rename_node has
  a_listed = ground (
    arith,
    enrolled-replace_all node.roots old new a new w.root_dirs,
    ap (has a) only,
    bytes_beq_iff a a,
    bytes_beq_iff new new,
    enrolled-has a old w.root_dirs,
    h.owned old node a found,
  )

  r_listed : enrolled_for r new renamed.root_dirs ≡ true
  unfolding rename_node has
  r_listed =
      ground
        (arith, enrolled-replace_all node.roots old new r new w.root_dirs, bytes_beq_iff new new)

  left_alone : left_node a (some (record node { path = new })) ≡ none
  unfolding delete
  left_alone = rw only (ground (arith, bytes_beq_iff a a))

  -- When a directory that is watched for the root `a` alone, and no directory below it, moves to a
  -- path that another root `r` has enrolled, renameWatchedPrefix leaves it watched for `a` alone. So
  -- Remove of `a` ends its watch, though `r` still has it in its set.
  pub moved_directory_unwatched :
      (w' : LinuxWatcher K) × (rename_watched_prefix old new w ≡ some w')
      × (lookup new (remove inotify a w').0.watched ≡ none)
      × (enrolled_for r new (remove inotify a w').0.root_dirs ≡ true)
  unfolding rename_node
  moved_directory_unwatched = (
    renamed,
    rename-one,
    lookup-remove inotify a new target renamed rooted
        ∙ ground (
          arith,
          a_listed,
          lookup-rename_node old new node w new,
          bytes_beq_iff new new,
          left_alone,
        ),
    enrolled-remove inotify a r new target renamed (rename_node-IsOwned old new node w found h)
          rooted
        ∙ ground (arith, r_listed),
  )
