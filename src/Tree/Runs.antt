-- ===== src/Tree/Runs.antt =====
-- internal/tree/index.go: the invariant of the index, and runs of its operations.
use go_gaze.Common.{◌≡◌, refl, inl, inr, List, [], ◌∷◌, Bytes, bytes_eq, Bool-cases, Option-cases}
use go_gaze.Common.Assoc.{
  Map, lookup, delete, insert, All-insert, All-delete, Distinct-insert, Distinct-delete,
}
use go_gaze.Tree.{Root, Index, empty, add, remove, move_prefix, matches}
use go_gaze.Tree.Built.{
  IsBuilt, roots-rebuild, empty-IsBuilt, add-IsBuilt, remove-IsBuilt, move_prefix-IsBuilt,
}
use go_gaze.Tree.Matching.{covered, matches-eq-covered}
use go_gaze.Tree.Moving.{moved, changed, move_entry, move_entries, roots-move_prefix}
use go_gaze.Tree.MoveLoop.{IsKeyed}

-- The roots stand under their own paths, and the derived sets agree with them.
pub record IsIndex (i : Index) : Type 0 where
  pub keys : IsKeyed i.roots
  pub built : IsBuilt i

insert-IsKeyed : (r : Root) {m : Map Bytes Root} → IsKeyed m → IsKeyed (insert r.path r m)
insert-IsKeyed r {m} h = record {
  keyed = All-insert (λ k s. k ≡ s.path) r.path r m refl h.keyed;
  distinct = Distinct-insert r.path r m h.distinct;
}

delete-IsKeyed : (k : Bytes) {m : Map Bytes Root} → IsKeyed m → IsKeyed (delete k m)
delete-IsKeyed k {m} h = record {
  keyed = All-delete (λ j s. j ≡ s.path) k m h.keyed;
  distinct = Distinct-delete k m h.distinct;
}

roots-add : (r : Root) (i : Index) → (add r i).roots ≡ insert r.path r i.roots
unfolding add
roots-add r i = roots-rebuild _

move_entry-IsKeyed :
    (old new k : Bytes) (r : Root) {u : Map Bytes Root}
    → IsKeyed u
    → IsKeyed (move_entry old new k r u)
unfolding move_entry
move_entry-IsKeyed old new k r h = elim (Bool-cases (changed old new r)) [
  | inl e ↦ rw (e, move_entry) (insert-IsKeyed (moved old new r) (delete-IsKeyed k h))
  | inr e ↦ rw (e, move_entry) h
]

move_entries-IsKeyed :
    (old new : Bytes) (rest : Map Bytes Root) {u : Map Bytes Root}
    → IsKeyed u
    → IsKeyed (move_entries old new rest u)
unfolding move_entries
move_entries-IsKeyed old new [] h = h
move_entries-IsKeyed old new ((k, r) ∷ rest) h =
    move_entries-IsKeyed old new rest (move_entry-IsKeyed old new k r h)

-- The calls that change an index.
pub data Call : Type 0 where
  adds : Root → Call
  removes : Bytes → Call
  moves : Bytes → Bytes → Call

unfoldable pub call : Call → Index → Index
call (adds root) i = add root i
call (removes path) i = (remove path i).0
call (moves old_path new_path) i = move_prefix old_path new_path i

unfoldable pub run : List Call → Index → Index
unfolding call
run [] i = i
run (c ∷ calls) i = run calls (call c i)

remove-IsKeyed : (path : Bytes) (i : Index) → IsKeyed i.roots → IsKeyed (remove path i).0.roots
unfolding remove
remove-IsKeyed path i h = elim (Option-cases (lookup path i.roots)) [
  | inl e ↦ rw (e, remove) h
  | inr (r, e) ↦ rw (e, remove) (rw roots-rebuild (delete-IsKeyed path h))
]

-- Add, Remove and MovePrefix keep the invariant of the index.
pub call-IsIndex : (c : Call) {i : Index} → IsIndex i → IsIndex (call c i)
unfolding call
call-IsIndex (adds root) {i} h = record {
  keys = rw roots-add (insert-IsKeyed root h.keys);
  built = add-IsBuilt root i;
}
call-IsIndex (removes path) {i} h = record {
  keys = remove-IsKeyed path i h.keys;
  built = remove-IsBuilt path h.built;
}
call-IsIndex (moves old new) {i} h = record {
  keys = rw roots-move_prefix (move_entries-IsKeyed old new i.roots h.keys);
  built = move_prefix-IsBuilt old new h.built;
}

run-IsIndex : (calls : List Call) {i : Index} → IsIndex i → IsIndex (run calls i)
unfolding run
run-IsIndex [] h = h
run-IsIndex (c ∷ calls) h = run-IsIndex calls (call-IsIndex c h)

pub empty-IsIndex : IsIndex empty
empty-IsIndex = record { keys = record { keyed = tt; distinct = tt }; built = empty-IsBuilt }

-- After any calls of Add, Remove and MovePrefix on a new index, in any order, Matches answers true
-- exactly when one of its roots covers the path.
pub matches-run :
    (calls : List Call) (path : Bytes)
    → matches (run calls empty) path ≡ covered (run calls empty).roots path
matches-run calls path = matches-eq-covered _ path (run-IsIndex calls empty-IsIndex).built
