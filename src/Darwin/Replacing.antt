-- ===== src/Darwin/Replacing.antt =====
-- internal/backend/backend_darwin.go: a file that another one takes the place of.
use go_gaze.Common.{
  ◌≡◌, refl, sym, ◌∙◌, ap, subst, true, false, not, Option, none, some, List, [], ◌∷◌, ◌++◌, ℕ,
  if◌then◌else◌, arith, Bytes, ◌==◌, bytes_eq, nat_eq, bytes_beq_iff, Option-cases, if_keeps, inl,
  inr,
}
use go_gaze.Common.Assoc.{lookup, All-lookup, lookup-delete}
use go_gaze.GoPath.{dir}
use go_gaze.Ops.{Event, op_remove, op_chmod}
use go_gaze.Env.{BackendConfig}
use go_gaze.Linux.Masks.{has_bit}
use go_gaze.Darwin.{Kqueue, Node, DarwinWatcher, unregister, remove_path_if_watched}
use go_gaze.Darwin.Adding.{Disk, read_dir_snapshot}
use go_gaze.Darwin.Scanning.{
  Sent, missing_from, emit_renames, emit_removes, emit_creates, emit_rest, snapshot_or_empty,
  rescan_node, rescan_dir,
}
use go_gaze.Darwin.Handling.{
  Kevent, note_attrib, is_gone, sent_after, handle_file, handle_node, handle,
}
use go_gaze.Darwin.Owned.{IsNamed, IsOwned}

-- What is sent for a file that is gone: a change of its metadata if the kernel reports one along with
-- the removal, then the removal.
abbrev pub gone_events : ℕ → Bytes → List Event
gone_events flags path =
    (if has_bit flags note_attrib
      then record { path = path; old_path = []; op = op_chmod; is_dir = false } ∷ []
      else [])
    ++ record { path = path; old_path = []; op = op_remove; is_dir = false } ∷ []

module _ {K : Type 0} (kqueue : Kqueue K) (disk : Disk) (cfg : BackendConfig) where
  -- A scan that finds the names of the last one.
  abbrev pub SameNames : Bytes → DarwinWatcher K → Type 0
  SameNames path w =
      (missing_from (snapshot_or_empty kqueue disk cfg (lookup path w.snapshots))
          (read_dir_snapshot disk cfg path)
        ≡ [])
      × (missing_from (read_dir_snapshot disk cfg path)
            (snapshot_or_empty kqueue disk cfg (lookup path w.snapshots))
          ≡ [])

  -- It sends nothing and changes no watch.
  record Unchanged (w : DarwinWatcher K) (r : Option (Sent K)) : Type 0 where
    last : DarwinWatcher K
    same : r ≡ some (last, [])
    watched : last.watched ≡ w.watched

  rescan_node-Unchanged :
      (path : Bytes) (node : Node) (w : DarwinWatcher K)
      → SameNames path w
      → Unchanged w (rescan_node kqueue disk cfg path node w)
  unfolding rescan_node emit_renames emit_rest emit_removes emit_creates
  rescan_node-Unchanged path node w h =
      rw (h.0, h.1) (record { last = _; same = refl; watched = refl })

  rescan_dir-Unchanged :
      (path : Bytes) (w : DarwinWatcher K)
      → SameNames path w
      → Unchanged w (rescan_dir kqueue disk cfg path w)
  unfolding rescan_dir
  rescan_dir-Unchanged path w h = elim (Option-cases (lookup path w.watched)) [
    | inl e ↦ rw (e, rescan_dir) (record { last = w; same = refl; watched = refl })
    | inr (node, e) ↦
        rw (e, rescan_dir)
          (if_keeps (Unchanged w) (not node.is_dir)
            (record { last = w; same = refl; watched = refl })
            (rescan_node-Unchanged path node w h))
  ]

  module _ (event : Kevent) (path : Bytes) (node : Node) (w : DarwinWatcher K) (h : IsOwned w)
      (known : lookup event.ident w.fd_to_path ≡ some path)
      (found : lookup path w.watched ≡ some node) (a_file : node.is_dir ≡ false)
      (gone : is_gone event.flags ≡ true) (below : (dir path == path) ≡ false)
      (listed : SameNames (dir path) w) where
    abbrev dropped : DarwinWatcher K
    dropped = unregister kqueue node w

    kept_snapshot : lookup (dir path) dropped.snapshots ≡ lookup (dir path) w.snapshots
    unfolding unregister
    kept_snapshot = ground (
      arith,
      lookup-delete node.path (dir path) w.snapshots,
      All-lookup IsNamed path w.watched node h.named found,
      below,
      bytes_beq_iff (dir path) path,
      bytes_beq_iff path (dir path),
    )

    rescanned : Unchanged dropped (rescan_dir kqueue disk cfg (dir path) dropped)
    rescanned = rescan_dir-Unchanged (dir path) dropped (
        subst
          (λ o.
            (missing_from (snapshot_or_empty kqueue disk cfg o)
                (read_dir_snapshot disk cfg (dir path))
              ≡ [])
            × (missing_from (read_dir_snapshot disk cfg (dir path))
                  (snapshot_or_empty kqueue disk cfg o)
                ≡ []))
          (sym kept_snapshot) listed)

    abbrev chmods : List Event
    chmods =
        if has_bit event.flags note_attrib
        then record { path = path; old_path = []; op = op_chmod; is_dir = false } ∷ []
        else []

    handled_file :
        handle_node kqueue disk cfg event.flags path node w
        ≡ sent_after chmods (
            sent_after
              (record { path = path; old_path = []; op = op_remove; is_dir = false } ∷ [])
              (rescan_dir kqueue disk cfg (dir path) dropped))
    unfolding handle_node handle_file remove_path_if_watched
    handled_file =
        rw (a_file, handle_node)
          (rw (gone, handle_file)
            (rw (below, handle_file) (rw (found, remove_path_if_watched) refl)))

    handle_known :
        handle kqueue disk cfg event w ≡ handle_node kqueue disk cfg event.flags path node w
    unfolding handle
    handle_known = rw (known, found, handle) (rw known refl)

    unwatched : lookup path dropped.watched ≡ none
    unfolding unregister
    unwatched = ground (
      arith,
      lookup-delete node.path path w.watched,
      All-lookup IsNamed path w.watched node h.named found,
      bytes_beq_iff node.path path,
    )

    -- On maps that agree, when the kernel reports that a watched file is gone, and its directory, which
    -- is not the path itself, lists the names that the last scan found, so also the name of a file
    -- that took its place: handle sends a removal, after a Chmod if the kernel reports NOTE_ATTRIB
    -- too, and nothing else, and the path is no longer watched.
    pub replaced_file_unwatched :
        (w' : DarwinWatcher K) × (handle kqueue disk cfg event w
          ≡ some (w', gone_events event.flags path))
        × (lookup path w'.watched ≡ none)
    replaced_file_unwatched = (
      rescanned.last,
      handle_known
          ∙ handled_file
          ∙ ap
              (λ r. sent_after chmods (
                sent_after
                  (record { path = path; old_path = []; op = op_remove; is_dir = false } ∷ []) r))
              rescanned.same,
      ap (lookup path) rescanned.watched ∙ unwatched,
    )
