-- ===== src/Darwin/Scanned.antt =====
-- internal/backend/backend_darwin.go: rescanDir keeps the agreement of the maps and does not panic.
use go_gaze.Common.{
  ◌≡◌, refl, ap, Bool, true, false, not, Option, some, List, [], ◌∷◌, ◌++◌, Bytes, bytes_eq,
  if_keeps, Option-cases, inl, inr,
}
use go_gaze.Common.Assoc.{lookup, delete}
use go_gaze.Ops.{Event, op_rename}
use go_gaze.Env.{BackendConfig}
use go_gaze.Darwin.{Kqueue, Node, Snapshot, DarwinWatcher}
use go_gaze.Darwin.Adding.{Disk, path_prefix, read_dir_snapshot}
use go_gaze.Darwin.Scanning.{
  Sent, Renamed, missing_from, find_moved, rename_child, with_event, with_removed, emit_renames,
  remove_child, emit_removes, enroll_recursive_added, enroll_added, emit_creates, emit_rest,
  snapshot_or_empty, rescan_node, rescan_dir,
}
use go_gaze.Darwin.Owned.{IsOwned, remove_path_if_watched-IsOwned, remove_prefix_if_watched-IsOwned}
use go_gaze.Darwin.Renaming.{rename_path-IsOwned, rename_prefix-IsOwned, snapshots-IsOwned}
use go_gaze.Darwin.Added.{add_path-IsOwned, enroll_walk-IsOwned}

-- What a handler that may panic leaves: no panic, and maps that agree.
pub data Handled {K : Type 0} : Option (Sent K) → Type 0 where
  handled : (r : Sent K) → IsOwned r.0 → Handled (some r)

module _ {K : Type 0} where
  rename_child-IsOwned :
      (is_dir : Bool) (old new : Bytes) (w : DarwinWatcher K)
      → IsOwned w
      → (w' : DarwinWatcher K) × (rename_child is_dir old new w ≡ some w') × IsOwned w'
  unfolding rename_child
  rename_child-IsOwned true old new w h = rename_prefix-IsOwned old new w h
  rename_child-IsOwned false old new w h = rename_path-IsOwned old new w h

  pub emit_renames-IsOwned :
      (prefix : Bytes) (removed added : Snapshot) (w : DarwinWatcher K)
      → IsOwned w
      → (r : Renamed K) × (emit_renames prefix removed added w ≡ some r) × IsOwned r.state
  unfolding emit_renames
  emit_renames-IsOwned prefix [] added w h = (_, refl, h)
  emit_renames-IsOwned prefix ((name, meta) ∷ rest) added w h =
      elim (Option-cases (find_moved meta added)) [
        | inl e ↦
            let (r, same, h') = emit_renames-IsOwned prefix rest added w h in
            (
              record r { removed = (name, meta) ∷ r.removed },
              rw (e, emit_renames) (ap (with_removed name meta) same),
              h',
            )
        | inr (new_name, e) ↦
            let (w', f, h1) =
              rename_child-IsOwned meta.is_dir (prefix ++ name) (prefix ++ new_name) w h in
            let (r, same, h') = emit_renames-IsOwned prefix rest (delete new_name added) w' h1 in
            let event : Event = record {
              path = prefix ++ new_name;
              old_path = prefix ++ name;
              op = op_rename;
              is_dir = meta.is_dir;
            } in
            (
              record r { sent = event ∷ r.sent },
              rw (e, emit_renames) (rw (f, emit_renames) (ap (with_event event) same)),
              h',
            )
      ]

module _ {K : Type 0} (kqueue : Kqueue K) where
  remove_child-IsOwned :
      (is_dir : Bool) (child : Bytes) (w : DarwinWatcher K)
      → IsOwned w
      → IsOwned (remove_child kqueue is_dir child w).0
  unfolding remove_child
  remove_child-IsOwned true child w h = remove_prefix_if_watched-IsOwned kqueue child w h
  remove_child-IsOwned false child w h = remove_path_if_watched-IsOwned kqueue child w h

  emit_removes-IsOwned :
      (prefix : Bytes) (removed : Snapshot) (w : DarwinWatcher K)
      → IsOwned w
      → IsOwned (emit_removes kqueue prefix removed w).0
  unfolding emit_removes
  emit_removes-IsOwned prefix [] w h = h
  emit_removes-IsOwned prefix ((name, meta) ∷ rest) w h =
      emit_removes-IsOwned prefix rest _ (remove_child-IsOwned meta.is_dir (prefix ++ name) w h)

  module _ (disk : Disk) (cfg : BackendConfig) where
    enroll_recursive_added-IsOwned :
        (root child : Bytes) (is_dir : Bool) (w : DarwinWatcher K)
        → IsOwned w
        → IsOwned (enroll_recursive_added kqueue disk cfg root child is_dir w)
    unfolding enroll_recursive_added
    enroll_recursive_added-IsOwned root child is_dir w h =
        if_keeps IsOwned (not is_dir) (add_path-IsOwned kqueue disk cfg root child false w h)
          (enroll_walk-IsOwned kqueue disk cfg root child w h)

    enroll_added-IsOwned :
        (roots : List Bytes) (child : Bytes) (is_dir : Bool) (w : DarwinWatcher K)
        → IsOwned w
        → IsOwned (enroll_added kqueue disk cfg roots child is_dir w)
    unfolding enroll_added
    enroll_added-IsOwned [] child is_dir w h = h
    enroll_added-IsOwned (root ∷ roots) child is_dir w h =
        let file = add_path-IsOwned kqueue disk cfg root child false w h in
        enroll_added-IsOwned roots child is_dir _ (
          if_keeps IsOwned _ file (
            if_keeps IsOwned _ (enroll_recursive_added-IsOwned root child is_dir w h)
              (if_keeps IsOwned _ file h)))

    emit_creates-IsOwned :
        (prefix : Bytes) (roots : List Bytes) (added : Snapshot) (w : DarwinWatcher K)
        → IsOwned w
        → IsOwned (emit_creates kqueue disk cfg prefix roots added w).0
    unfolding emit_creates
    emit_creates-IsOwned prefix roots [] w h = h
    emit_creates-IsOwned prefix roots ((name, meta) ∷ rest) w h =
        emit_creates-IsOwned prefix roots rest _ (
          if_keeps IsOwned (cfg.should_exclude (prefix ++ name) meta.is_dir) h
            (enroll_added-IsOwned roots (prefix ++ name) meta.is_dir w h))

    rescan_node-Handled :
        (path : Bytes) (node : Node) (w : DarwinWatcher K)
        → IsOwned w
        → Handled (rescan_node kqueue disk cfg path node w)
    unfolding rescan_node emit_rest
    rescan_node-Handled path node w h =
        let prefix = path_prefix path in
        let old = snapshot_or_empty kqueue disk cfg (lookup path w.snapshots) in
        let new = read_dir_snapshot disk cfg path in
        let (r, same, h') =
          emit_renames-IsOwned prefix (missing_from old new) (missing_from new old) w h in
        rw same (
          handled _ (
            snapshots-IsOwned _ _ (
              emit_creates-IsOwned prefix node.roots r.added _
                (emit_removes-IsOwned prefix r.removed r.state h'))))

    pub rescan_dir-Handled :
        (path : Bytes) (w : DarwinWatcher K)
        → IsOwned w
        → Handled (rescan_dir kqueue disk cfg path w)
    unfolding rescan_dir
    rescan_dir-Handled path w h = elim (Option-cases (lookup path w.watched)) [
      | inl e ↦ rw (e, rescan_dir) (handled _ h)
      | inr (node, e) ↦
          rw (e, rescan_dir)
            (if_keeps Handled (not node.is_dir) (handled _ h) (rescan_node-Handled path node w h))
    ]
