-- ===== src/Darwin/Matched.antt =====
-- internal/backend/backend_darwin.go: emitRenamesFromDiff splits the two diffs.
use go_gaze.Common.{
  ◌≡◌, refl, subst, true, false, Option, none, some, [], ◌∷◌, ◌++◌, arith, Bytes, bytes_eq,
  bytes_beq_iff, Option-cases, inl, inr,
}
use go_gaze.Common.Assoc.{lookup, delete, has, Distinct, Distinct-delete, lookup-has}
use go_gaze.Ops.{op_rename}
use go_gaze.Darwin.{EntryMeta, Snapshot, DarwinWatcher}
use go_gaze.Darwin.Scanning.{
  Renamed, is_moved, find_moved, rename_child, with_event, with_removed, emit_renames,
}
use go_gaze.Darwin.Renames.{find_moved-found, find_moved-none, length-delete}
use go_gaze.Darwin.Moves.{IsMatched, below_head, below_delete, weaken_moves}

module _ {K : Type 0} where
  kept_head :
      (prefix name : Bytes) (meta : EntryMeta) (rest added : Snapshot) (r : Renamed K)
      → has name rest ≡ false
      → find_moved meta added ≡ none
      → IsMatched prefix rest added r
      → IsMatched prefix
          ((name, meta) ∷ rest)
          added
          (record r { removed = (name, meta) ∷ r.removed })
  unfolding lookup
  kept_head prefix name meta rest added r absent alone h = record {
    moves =
        weaken_moves prefix rest ((name, meta) ∷ rest) added added r.sent
          (λ n old at. below_head name meta rest n old absent at) (λ n new at. at) h.moves;
    old_left = λ n old at. ground (arith, at, h.old_left n old);
    new_left = h.new_left;
    old_count = omega (arith, h.old_count);
    new_count = h.new_count;
    unmoved = λ n new_name old new at at'. ground (
      arith,
      at,
      h.unmoved n new_name old new,
      at',
      find_moved-none meta added new_name new alone,
      h.new_left new_name new at',
    );
  }

  taken_head :
      (prefix name new_name : Bytes) (meta new : EntryMeta) (rest added : Snapshot) (r : Renamed K)
      → has name rest ≡ false
      → Distinct added
      → lookup new_name added ≡ some new
      → is_moved meta new ≡ true
      → IsMatched prefix rest (delete new_name added) r
      → IsMatched prefix ((name, meta) ∷ rest) added (record r {
        sent =
            record {
              path = prefix ++ new_name;
              old_path = prefix ++ name;
              op = op_rename;
              is_dir = meta.is_dir;
            }
            ∷ r.sent;
      })
  unfolding lookup
  taken_head prefix name new_name meta new rest added r absent d came moved h = record {
    moves = (
      record {
        old_name = name;
        new_name = new_name;
        old = meta;
        new = new;
        went = ground (arith, bytes_beq_iff name name);
        came = came;
        moved = moved;
        reported = refl;
      },
      weaken_moves prefix rest ((name, meta) ∷ rest) (delete new_name added) added r.sent
          (λ n old at. below_head name meta rest n old absent at)
          (λ n v at. below_delete new_name n added v at) h.moves,
    );
    old_left = λ n old at. below_head name meta rest n old absent (h.old_left n old at);
    new_left = λ n v at. below_delete new_name n added v (h.new_left n v at);
    old_count = omega (arith, h.old_count);
    new_count =
        omega
          (arith, h.new_count, length-delete new_name added d (lookup-has new_name added new came));
    unmoved = h.unmoved;
  }

  -- A panic, or a result with the property.
  data OrPanic (P : Renamed K → Type 0) : Option (Renamed K) → Type 0 where
    panicked : OrPanic P none
    returned : (r : Renamed K) → P r → OrPanic P (some r)

  kept_head-OrPanic :
      (prefix name : Bytes) (meta : EntryMeta) (rest added : Snapshot) (o : Option (Renamed K))
      → has name rest ≡ false
      → find_moved meta added ≡ none
      → OrPanic (IsMatched prefix rest added) o
      → OrPanic (IsMatched prefix ((name, meta) ∷ rest) added) (with_removed name meta o)
  kept_head-OrPanic prefix name meta rest added _ absent alone panicked = panicked
  kept_head-OrPanic prefix name meta rest added _ absent alone (returned r h) =
      returned _ (kept_head prefix name meta rest added r absent alone h)

  taken_head-OrPanic :
      (prefix name new_name : Bytes) (meta new : EntryMeta) (rest added : Snapshot)
      (o : Option (Renamed K))
      → has name rest ≡ false
      → Distinct added
      → lookup new_name added ≡ some new
      → is_moved meta new ≡ true
      → OrPanic (IsMatched prefix rest (delete new_name added)) o
      → OrPanic (IsMatched prefix ((name, meta) ∷ rest) added) (
          with_event
            (record {
              path = prefix ++ new_name;
              old_path = prefix ++ name;
              op = op_rename;
              is_dir = meta.is_dir;
            })
            o)
  taken_head-OrPanic prefix name new_name meta new rest added _ absent d came moved panicked =
      panicked
  taken_head-OrPanic prefix name new_name meta new rest added _ absent d came moved (returned r h) =
      returned _ (taken_head prefix name new_name meta new rest added r absent d came moved h)

  emit_renames-OrPanic :
      (prefix : Bytes) (removed added : Snapshot) (w : DarwinWatcher K)
      → Distinct removed
      → Distinct added
      → OrPanic (IsMatched prefix removed added) (emit_renames prefix removed added w)
  unfolding emit_renames lookup
  emit_renames-OrPanic prefix [] added w d d' = returned _ record {
    moves = tt;
    old_left = λ n old at. at;
    new_left = λ n new at. at;
    old_count = refl;
    new_count = omega arith;
    unmoved = λ n new_name old new at at'. absurd (ground (arith, at));
  }
  emit_renames-OrPanic prefix ((name, meta) ∷ rest) added w d d' =
      elim (Option-cases (find_moved meta added)) [
        | inl e ↦
            rw (e, emit_renames)
              (kept_head-OrPanic prefix name meta rest added _ d.0 e
                (emit_renames-OrPanic prefix rest added w d.1 d'))
        | inr (new_name, e) ↦
            let (new, came, moved) = find_moved-found meta added new_name d' e in
            elim (Option-cases (rename_child meta.is_dir (prefix ++ name) (prefix ++ new_name) w)) [
              | inl f ↦ rw (e, emit_renames) (rw (f, emit_renames) panicked)
              | inr (w', f) ↦
                  rw (e, emit_renames)
                    (rw (f, emit_renames)
                      (taken_head-OrPanic prefix name new_name meta new rest added _ d.0 d' came
                        moved
                        (emit_renames-OrPanic prefix rest (delete new_name added) w' d.1
                          (Distinct-delete new_name added d'))))
            ]
      ]

  returned_of :
      (P : Renamed K → Type 0) (o : Option (Renamed K)) (r : Renamed K)
      → OrPanic P o
      → o ≡ some r
      → P r
  returned_of P _ r panicked e = absurd (ground (arith, e))
  returned_of P _ r (returned r' h) e = let same : r' ≡ r = ground (arith, e) in subst P same h

  -- When emitRenamesFromDiff does not panic, on diffs that name each entry once: each event that it
  -- sends is the rename of an entry that went to one that came with the same inode, which is not
  -- zero, and the same kind; what it leaves are entries of the diffs, each diff loses as many entries
  -- as events are sent, and of what is left no two entries are the same file.
  pub emit_renames-IsMatched :
      (prefix : Bytes) (removed added : Snapshot) (w : DarwinWatcher K) (r : Renamed K)
      → Distinct removed
      → Distinct added
      → emit_renames prefix removed added w ≡ some r
      → IsMatched prefix removed added r
  emit_renames-IsMatched prefix removed added w r d d' e =
      returned_of (IsMatched prefix removed added) _ r
        (emit_renames-OrPanic prefix removed added w d d') e
