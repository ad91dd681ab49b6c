-- ===== src/Tree/Moved.antt =====
-- internal/tree/index.go: MovePrefix carries every root to its new path and loses none.
use go_gaze.Common.{
  true, subst, ◌≡◌, ◌≢◌, refl, sym, ap, false, none, Option-cases, bytes_beq_iff, ◌∙◌, inl, inr,
  some, arith, Bytes, bytes_eq, Bool-eq_of_iff, any,
}
use go_gaze.Common.Assoc.{All-lookup, lookup, lookup-has, any→lookup, lookup→any}
use go_gaze.FilePath.{has_path_prefix}
use go_gaze.FilePath.Prefix.{has_path_prefix_iff}
use go_gaze.Tree.{Root, Index, move_root, move_prefix, matches}
use go_gaze.Tree.Matching.{covers, covered, matches-eq-covered}
use go_gaze.Tree.Moving.{
  relocated_root, moved-eq-relocated_root, moved, moved_apart, roots-move_prefix,
}
use go_gaze.Tree.MoveLoop.{IsKeyed, IsFresh, Coming, lookup-move_entries, lookup-move_entries_inv}
use go_gaze.Tree.Runs.{IsIndex, moves, call-IsIndex, call}

start :
    (i : Index) (old new : Bytes)
    → IsKeyed i.roots
    → IsFresh new i.roots
    → Coming old new i.roots i.roots
start i old new h fresh = record {
  keyed = h.keyed;
  distinct = h.distinct;
  fresh = fresh;
  agrees = λ j s e. e;
}

-- A root at the old path moves to the new one.
pub path-moved_old : (old new : Bytes) (r : Root) → r.path ≡ old → (moved old new r).path ≡ new
unfolding moved move_root
path-moved_old old new r e = ground (arith, e, bytes_beq_iff r.path old)

old_not_below : (old new : Bytes) → has_path_prefix old new ≡ false → new ≢ old
old_not_below old new apart e = ground (arith, (has_path_prefix_iff new new).1 (inl refl), e)

-- When no root stands at or below the new path, each root is found, after MovePrefix, at its
-- rewritten path with its rewritten fields.
pub lookup-moved :
    (i : Index) (old new k : Bytes) (r : Root)
    → IsKeyed i.roots
    → IsFresh new i.roots
    → lookup k i.roots ≡ some r
    → lookup (moved old new r).path (move_prefix old new i).roots ≡ some (moved old new r)
lookup-moved i old new k r h fresh e =
    rw roots-move_prefix
      (lookup-move_entries old new i.roots i.roots (start i old new h fresh) k r e)

-- Then, too, each root found after MovePrefix is the rewritten form of a root found before it.
pub moved-lookup :
    (i : Index) (old new q : Bytes) (s : Root)
    → IsKeyed i.roots
    → IsFresh new i.roots
    → lookup q (move_prefix old new i).roots ≡ some s
    → (k : Bytes) × (r : Root) × (lookup k i.roots ≡ some r) × (moved old new r ≡ s)
moved-lookup i old new q s h fresh e =
    elim (lookup-move_entries_inv old new i.roots i.roots (start i old new h fresh) q s
      (rw (← roots-move_prefix) e)) [
        | inl found ↦ found
        | inr (found, absent) ↦ ground (arith, lookup-has q i.roots s)
      ]

-- When no root stands at or below the new path, a root leaves its old path empty.
pub lookup-moved_away :
    (i : Index) (old new : Bytes) (root : Root)
    → IsIndex i
    → IsFresh new i.roots
    → lookup old i.roots ≡ some root
    → lookup old (move_prefix old new i).roots ≡ none
unfolding call
lookup-moved_away i old new root h fresh found =
    let roots = (move_prefix old new i).roots in
    let apart = All-lookup (λ k r. has_path_prefix k new ≡ false) old i.roots root fresh found in
    elim (Option-cases (lookup old roots)) [
      | inl e ↦ e
      | inr (s, e) ↦
          let after : IsIndex (move_prefix old new i) = call-IsIndex (moves old new) h in
          let key = All-lookup (λ k r. k ≡ r.path) old roots s after.keys.keyed e in
          let (k, r, before, to_s) = moved-lookup i old new old s h.keys fresh e in
          let here = moved_apart old new r old apart (ap (λ s. s.path) to_s ∙ sym key) in
          let there = path-moved_old old new r here in
          absurd (old_not_below old new apart (sym there ∙ ap (λ s. s.path) to_s ∙ sym key))
    ]

-- When no root stands at or below the new path, a consistent index matches, after MovePrefix, exactly
-- the paths that the relocated roots cover: a directory at or below the old path, or a root that is
-- the old path, stands at the same place below the new one, and so does each watched path; all other
-- roots stay.
pub matches-move_prefix :
    (i : Index) (old new path : Bytes)
    → IsIndex i
    → IsFresh new i.roots
    → matches (move_prefix old new i) path
      ≡ any (λ e. covers path (relocated_root old new e.1)) i.roots
unfolding covered call
matches-move_prefix i old new path h fresh =
    let after : IsIndex (move_prefix old new i) = call-IsIndex (moves old new) h in
    let relocate : (r : Root) → moved old new r ≡ relocated_root old new r =
      moved-eq-relocated_root old new in
    matches-eq-covered (move_prefix old new i) path after.built
    ∙ Bool-eq_of_iff _ _
        (λ t.
          let (q, s, found, c) = any→lookup (covers path) _ after.keys.distinct t in
          let (k, r, before, to_s) = moved-lookup i old new q s h.keys fresh found in
          lookup→any (λ r. covers path (relocated_root old new r)) i.roots k r before
            (subst (λ s. covers path s ≡ true) (sym to_s ∙ relocate r) c))
        (λ t.
          let (k, r, found, c) =
            any→lookup (λ r. covers path (relocated_root old new r)) i.roots h.keys.distinct t in
          lookup→any (covers path) _ _ _ (lookup-moved i old new k r h.keys fresh found)
            (subst (λ s. covers path s ≡ true) (sym (relocate r)) c))
