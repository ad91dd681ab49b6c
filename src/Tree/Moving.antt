-- ===== src/Tree/Moving.antt =====
-- internal/tree/index.go: what MovePrefix does to one root, and its loop as a fold over the roots.
use go_gaze.Common.{
  ◌≡◌, refl, sym, ◌∙◌, ap, ◌⊎◌, inl, inr, Bool, true, false, Option, none, some, [], ◌∷◌, ◌++◌,
  arith, length, drop, Bytes, ◌||◌, ◌==◌, bytes_eq, bytes_beq_iff, Bool-cases, Option-cases,
  if◌then◌else◌,
}
use go_gaze.Common.Assoc.{Map, delete, insert}
use go_gaze.FilePath.{has_path_prefix, join_moved_path}
use go_gaze.FilePath.Prefix.{has_path_prefix_iff, join_moved_path_roundtrip}
use go_gaze.Tree.{Root, Index, copied, move_root, move_loop, move_prefix}
use go_gaze.Tree.Built.{roots-rebuild}

append_nil : (xs : Bytes) → xs ++ [] ≡ xs
append_nil [] = refl
append_nil (x ∷ xs) = ap (λ ys. x ∷ ys) (append_nil xs)

drop_all : (xs : Bytes) → drop (length xs) xs ≡ []
drop_all [] = refl
drop_all (x ∷ xs) = drop_all xs

-- What a move does to a path: all that stands at or below `old` stands at or below `new`.
unfoldable pub relocated : Bytes → Bytes → Bytes → Bytes
relocated old new p = if has_path_prefix p old then new ++ drop (length old) p else p

-- What a move does to a root: the path of a directory moves with the directories above it, that of
-- a file only when it is itself the path that moves; the watched path moves in either case.
abbrev pub relocated_root : Bytes → Bytes → Root → Root
relocated_root old new r = record r {
  path = if r.is_dir || r.path == old then relocated old new r.path else r.path;
  watch_path = relocated old new r.watch_path;
}

module _ (old new : Bytes) where
  -- The root after the move, and whether anything in it changed.
  unfoldable pub moved : Root → Root
  moved r = (move_root old new r).0

  unfoldable pub changed : Root → Bool
  changed r = (move_root old new r).1

  pub moved_unchanged : (r : Root) → changed r ≡ false → moved r ≡ r
  unfolding changed moved move_root
  moved_unchanged r h = ground arith

  join_exact : (p : Bytes) → p ≡ old → join_moved_path p old new ≡ new
  unfolding join_moved_path
  join_exact p e = ground (arith, bytes_beq_iff p old)

  at_old : (p : Bytes) → (p == old) ≡ true → relocated old new p ≡ new
  unfolding relocated
  at_old p h =
      let e = (bytes_beq_iff p old).0 h in
      rw e
        (ground (arith, drop_all old, append_nil new, (has_path_prefix_iff old old).1 (inl refl)))

  at_join :
      (p : Bytes)
      → has_path_prefix p old ≡ true
      → (p == old) ≡ false
      → relocated old new p ≡ join_moved_path p old new
  unfolding relocated join_moved_path
  at_join p h ne = ground arith

  not_below : (p : Bytes) → has_path_prefix p old ≡ false → relocated old new p ≡ p
  unfolding relocated
  not_below p h = ground arith

  path-relocated : (r : Root) → (moved r).path ≡ (relocated_root old new r).path
  unfolding moved move_root
  path-relocated r = ground (arith, at_old r.path, at_join r.path, not_below r.path)

  watch_path-relocated : (r : Root) → (moved r).watch_path ≡ (relocated_root old new r).watch_path
  unfolding moved move_root
  watch_path-relocated r =
      ground (arith, at_old r.watch_path, at_join r.watch_path, not_below r.watch_path)

  kept_fields : (r : Root) → ((moved r).is_dir ≡ r.is_dir) × ((moved r).recursive ≡ r.recursive)
  unfolding moved move_root
  kept_fields r = (ground arith, ground arith)

  pub moved-eq-relocated_root : (r : Root) → moved r ≡ relocated_root old new r
  moved-eq-relocated_root r = λ i. record {
    path = path-relocated r i;
    watch_path = watch_path-relocated r i;
    is_dir = (kept_fields r).0 i;
    recursive = (kept_fields r).1 i;
  }

  -- A root keeps its path, or stood at or below the old prefix and has its path rewritten.
  pub path-moved :
      (r : Root)
      → ((moved r).path ≡ r.path)
        ⊎ ((has_path_prefix r.path old ≡ true) × ((moved r).path ≡ join_moved_path r.path old new))
  unfolding moved move_root
  path-moved r = elim (Bool-cases (r.path == old)) [
    | inl e ↦ inr (
      (has_path_prefix_iff r.path old).1 (inl ((bytes_beq_iff r.path old).0 e)),
      ground (arith, join_exact r.path ((bytes_beq_iff r.path old).0 e)),
    )
    | inr e ↦ elim (Bool-cases (r.is_dir)) [
      | inl d ↦ elim (Bool-cases (has_path_prefix r.path old)) [
        | inl p ↦ inr (p, ground arith)
        | inr p ↦ inl (ground arith)
      ]
      | inr d ↦ inl (ground arith)
    ]
  ]

  pub moved_apart :
      (r : Root) → (j : Bytes) → has_path_prefix j new ≡ false → (moved r).path ≡ j → r.path ≡ j
  moved_apart r j fresh e = elim (path-moved r) [
    | inl same ↦ sym same ∙ e
    | inr (under, moves) ↦
        ground (arith, (join_moved_path_roundtrip r.path old new under).0, e, moves)
  ]

  -- Where nothing stood at or below the new prefix, two roots do not move to one path.
  pub moved_injective :
      (r s : Root)
      → has_path_prefix r.path new ≡ false
      → has_path_prefix s.path new ≡ false
      → (moved r).path ≡ (moved s).path
      → r.path ≡ s.path
  moved_injective r s fr fs e = elim (path-moved s) [
    | inl same ↦ moved_apart r s.path fs (e ∙ same)
    | inr (under, moves) ↦ elim (path-moved r) [
      | inl same ↦ sym (moved_apart s r.path fr (sym e ∙ same))
      | inr (under', moves') ↦ ground (
        arith,
        (join_moved_path_roundtrip r.path old new under').1,
        (join_moved_path_roundtrip s.path old new under).1,
        ap (λ p. join_moved_path p new old) (sym moves' ∙ e ∙ moves),
      )
    ]
  ]

  -- One round of the loop on a map that is already a copy, and the rounds for a list of roots.
  unfoldable pub move_entry : Bytes → Root → Map Bytes Root → Map Bytes Root
  move_entry k r u = if changed r then insert (moved r).path (moved r) (delete k u) else u

  unfoldable pub move_entries : Map Bytes Root → Map Bytes Root → Map Bytes Root
  move_entries [] u = u
  move_entries ((k, r) ∷ rest) u = move_entries rest (move_entry k r u)

  copied-round :
      (roots : Map Bytes Root) (k : Bytes) (r : Root) (updated : Option (Map Bytes Root))
      → copied roots (
          if changed r
          then some (insert (moved r).path (moved r) (delete k (copied roots updated)))
          else updated)
        ≡ move_entry k r (copied roots updated)
  unfolding move_entry
  copied-round roots k r updated = ground arith

  copied-move_loop :
      (roots rest : Map Bytes Root) (updated : Option (Map Bytes Root))
      → copied roots (move_loop old new roots rest updated)
        ≡ move_entries rest (copied roots updated)
  unfolding move_loop move_entries moved changed
  copied-move_loop roots [] updated = refl
  copied-move_loop roots ((k, r) ∷ rest) updated =
      copied-move_loop roots rest _ ∙ ap (move_entries rest) (copied-round roots k r updated)

  -- The roots after MovePrefix are those of the fold.
  pub roots-move_prefix : (i : Index) → (move_prefix old new i).roots ≡ move_entries i.roots i.roots
  roots-move_prefix i = elim (Option-cases (move_loop old new i.roots i.roots none)) [
    | inl e ↦
        unfold move_prefix in
        rw (e, move_prefix) (ap (copied i.roots) (sym e) ∙ copied-move_loop i.roots i.roots none)
    | inr (u, e) ↦
        unfold move_prefix in
        rw (e, move_prefix)
          (roots-rebuild _ ∙ (ap (copied i.roots) (sym e) ∙ copied-move_loop i.roots i.roots none))
  ]
