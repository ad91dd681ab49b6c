-- ===== src/Darwin/Scanning.antt =====
-- internal/backend/backend_darwin.go: rescanDir and the methods that it calls. A method returns the
-- events that it sends, in order; rescanDir is one step here. A Go map is ranged over in the order of
-- its list, also where one loop does so many times.
use go_gaze.Common.{
  Bool, true, false, ◌&&◌, ◌||◌, not, Option, none, some, List, [], ◌∷◌, ◌++◌, Bytes, ◌==◌, nat_eq,
  bytes_eq, if◌then◌else◌,
}
use go_gaze.Common.Assoc.{lookup, delete, insert, has}
use go_gaze.FilePath.{has_path_prefix}
use go_gaze.GoPath.{dir}
use go_gaze.Ops.{Event, op_create, op_remove, op_rename}
use go_gaze.Env.{BackendConfig}
use go_gaze.Linux.Walking.{walk_path}
use go_gaze.Darwin.{
  Kqueue, Node, EntryMeta, Snapshot, DarwinWatcher, rename_path, rename_prefix,
  remove_path_if_watched, remove_prefix_if_watched,
}
use go_gaze.Darwin.Adding.{Disk, path_prefix, root_target, read_dir_snapshot, add_path}

-- What a step leaves: the state and the events that were sent.
abbrev pub Sent : Type 0 → Type 0
Sent K = DarwinWatcher K × List Event

-- The entries of the first snapshot whose names the second does not have.
unfoldable pub missing_from : Snapshot → Snapshot → Snapshot
missing_from [] other = []
missing_from ((name, meta) ∷ rest) other =
    let more = missing_from rest other in if has name other then more else (name, meta) ∷ more

unfoldable pub same_boolean : Bool → Bool → Bool
same_boolean true b = b
same_boolean false b = not b

-- The test that an entry that went and one that came are the same file.
unfoldable pub is_moved : EntryMeta → EntryMeta → Bool
unfolding same_boolean
is_moved old new =
    not
      (old.inode == 0 || (not (old.inode == new.inode) || not (same_boolean old.is_dir new.is_dir)))

-- The inner loop of emitRenamesFromDiff up to its break.
unfoldable pub find_moved : EntryMeta → Snapshot → Option Bytes
unfolding is_moved
find_moved old [] = none
find_moved old ((name, meta) ∷ added) =
    let found = find_moved old added in if is_moved old meta then some name else found

-- What emitRenamesFromDiff leaves: the state, the two diffs, and the events.
pub record Renamed (K : Type 0) : Type 0 where
  pub state : DarwinWatcher K
  pub removed : Snapshot
  pub added : Snapshot
  pub sent : List Event

module _ {K : Type 0} where
  unfoldable pub rename_child : Bool → Bytes → Bytes → DarwinWatcher K → Option (DarwinWatcher K)
  unfolding rename_prefix rename_path
  rename_child is_dir old_full new_full w =
      if is_dir then rename_prefix old_full new_full w else rename_path old_full new_full w

  abbrev pub with_event : Event → Option (Renamed K) → Option (Renamed K)
  with_event event none = none
  with_event event (some r) = some (record r { sent = event ∷ r.sent })

  abbrev pub with_removed : Bytes → EntryMeta → Option (Renamed K) → Option (Renamed K)
  with_removed name meta none = none
  with_removed name meta (some r) = some (record r { removed = (name, meta) ∷ r.removed })

  -- emitRenamesFromDiff; `none` is a panic.
  unfoldable pub emit_renames : Bytes → Snapshot → Snapshot → DarwinWatcher K → Option (Renamed K)
  unfolding find_moved rename_child
  emit_renames prefix [] added w =
      some (record { state = w; removed = []; added = added; sent = [] })
  emit_renames prefix ((name, meta) ∷ rest) added w = elim (find_moved meta added) [
    | none ↦ with_removed name meta (emit_renames prefix rest added w)
    | some new_name ↦ elim (rename_child meta.is_dir (prefix ++ name) (prefix ++ new_name) w) [
      | none ↦ none
      | some w' ↦
          with_event
            (record {
              path = prefix ++ new_name;
              old_path = prefix ++ name;
              op = op_rename;
              is_dir = meta.is_dir;
            })
            (emit_renames prefix rest (delete new_name added) w')
    ]
  ]

module _ {K : Type 0} (kqueue : Kqueue K) where
  unfoldable pub remove_child : Bool → Bytes → DarwinWatcher K → DarwinWatcher K × Bool
  unfolding remove_path_if_watched remove_prefix_if_watched
  remove_child is_dir child w =
      if is_dir
      then remove_prefix_if_watched kqueue child w
      else remove_path_if_watched kqueue child w

  -- emitRemovesFromDiff
  unfoldable pub emit_removes : Bytes → Snapshot → DarwinWatcher K → Sent K
  unfolding remove_child
  emit_removes prefix [] w = (w, [])
  emit_removes prefix ((name, meta) ∷ rest) w =
      let (w', was_watched) = remove_child meta.is_dir (prefix ++ name) w in
      let (w'', sent) = emit_removes prefix rest w' in
      (
        w'',
        if was_watched
            then record {
              path = prefix ++ name;
              old_path = [];
              op = op_remove;
              is_dir = meta.is_dir;
            }
              ∷ sent
            else sent,
      )

module _ {K : Type 0} (kqueue : Kqueue K) (disk : Disk) (cfg : BackendConfig) where
  -- enrollRecursiveAddedPath, which ignores the errors.
  unfoldable pub enroll_recursive_added : Bytes → Bytes → Bool → DarwinWatcher K → DarwinWatcher K
  unfolding add_path
  enroll_recursive_added root child is_dir w =
      if not is_dir
      then (add_path kqueue disk cfg root child false w).0
      else (walk_path disk.files child true (some cfg.should_exclude)
          (add_path kqueue disk cfg root) w).0

  -- enrollAddedPath
  unfoldable pub enroll_added : List Bytes → Bytes → Bool → DarwinWatcher K → DarwinWatcher K
  unfolding root_target enroll_recursive_added add_path
  enroll_added [] child is_dir w = w
  enroll_added (root ∷ roots) child is_dir w =
      let target = root_target root w in
      enroll_added roots child is_dir (
        if target.path == child && not is_dir
        then (add_path kqueue disk cfg root child false w).0
        else if target.is_dir && (target.recursive && has_path_prefix child target.path)
        then enroll_recursive_added root child is_dir w
        else if target.is_dir && (not target.recursive && (dir child == target.path && not is_dir))
        then (add_path kqueue disk cfg root child false w).0
        else w)

  -- emitCreatesFromDiff
  unfoldable pub emit_creates : Bytes → List Bytes → Snapshot → DarwinWatcher K → Sent K
  unfolding enroll_added
  emit_creates prefix roots [] w = (w, [])
  emit_creates prefix roots ((name, meta) ∷ rest) w =
      let child = prefix ++ name in
      let excluded = cfg.should_exclude child meta.is_dir in
      let (w', sent) =
        emit_creates prefix roots rest
          (if excluded then w else enroll_added roots child meta.is_dir w) in
      (
        w',
        if excluded
            then sent
            else record { path = child; old_path = []; op = op_create; is_dir = meta.is_dir }
              ∷ sent,
      )

  -- The removals and creations of rescanDir, after its renames.
  unfoldable pub emit_rest : Bytes → List Bytes → Option (Renamed K) → Option (Sent K)
  unfolding emit_removes emit_creates
  emit_rest prefix roots none = none
  emit_rest prefix roots (some r) =
      let (w, removes) = emit_removes kqueue prefix r.removed r.state in
      let (w', creates) = emit_creates prefix roots r.added w in
      some (w', r.sent ++ (removes ++ creates))

  abbrev pub snapshot_or_empty : Option Snapshot → Snapshot
  snapshot_or_empty none = []
  snapshot_or_empty (some snapshot) = snapshot

  abbrev with_snapshot : Bytes → Snapshot → Option (Sent K) → Option (Sent K)
  with_snapshot path snapshot none = none
  with_snapshot path snapshot (some (w, sent)) =
      some (record w { snapshots = insert path snapshot w.snapshots }, sent)

  -- rescanDir of a directory that is watched.
  unfoldable pub rescan_node : Bytes → Node → DarwinWatcher K → Option (Sent K)
  unfolding missing_from emit_renames emit_rest read_dir_snapshot
  rescan_node path node w =
      let old = snapshot_or_empty (lookup path w.snapshots) in
      let new = read_dir_snapshot disk cfg path in
      let prefix = path_prefix path in
      with_snapshot path new (
        emit_rest prefix node.roots
          (emit_renames prefix (missing_from old new) (missing_from new old) w))

  -- rescanDir
  unfoldable pub rescan_dir : Bytes → DarwinWatcher K → Option (Sent K)
  unfolding rescan_node
  rescan_dir path w = elim (lookup path w.watched) [
    | none ↦ some (w, [])
    | some node ↦ if not node.is_dir then some (w, []) else rescan_node path node w
  ]
