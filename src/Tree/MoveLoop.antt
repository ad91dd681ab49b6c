-- ===== src/Tree/MoveLoop.antt =====
-- internal/tree/index.go: the loop of MovePrefix, followed through the roots that are to come.
use go_gaze.Common.{
  ◌≡◌, refl, sym, ◌∙◌, subst, ◌≢◌, ◌⊎◌, inl, inr, false, ◌&&◌, none, some, [], ◌∷◌, arith, Bytes,
  ◌==◌, bytes_eq, bytes_beq_iff, Bool-cases, if◌then◌else◌,
}
use go_gaze.Common.Assoc.{
  Map, lookup, delete, has, lookup-delete, lookup-insert, lookup-has, All, Distinct,
}
use go_gaze.FilePath.{has_path_prefix}
use go_gaze.Tree.{Root}
use go_gaze.Tree.Moving.{
  moved, changed, moved_unchanged, moved_apart, moved_injective, move_entry, move_entries,
}

-- Every root stands under its own path, and every path once.
pub record IsKeyed (m : Map Bytes Root) : Type 0 where
  pub keyed : All (λ k r. k ≡ r.path) m
  pub distinct : Distinct m

-- No root stands at or below the path.
abbrev pub IsFresh : Bytes → Map Bytes Root → Type 0
IsFresh path m = All (λ k r. has_path_prefix k path ≡ false) m

module _ (old new : Bytes) where
  abbrev Avoided : Bytes → Map Bytes Root → Type 0
  Avoided q m = All (λ k r. (k ≢ q) × ((moved old new r).path ≢ q)) m

  lookup-move_entry :
      (q k : Bytes) (r : Root) (u : Map Bytes Root)
      → lookup q (move_entry old new k r u) ≡ (
          if changed old new r
          then (if (moved old new r).path == q
              then some (moved old new r)
              else if k == q
              then none
              else lookup q u)
          else lookup q u)
  unfolding move_entry
  lookup-move_entry q k r u = ground (
    arith,
    lookup-insert (moved old new r).path q (moved old new r) (delete k u),
    lookup-delete k q u,
  )

  -- The rounds that do not concern a path leave it alone.
  lookup-move_entries-Avoided :
      (q : Bytes) (rest u : Map Bytes Root)
      → Avoided q rest
      → lookup q (move_entries old new rest u) ≡ lookup q u
  unfolding move_entries
  lookup-move_entries-Avoided q [] u h = refl
  lookup-move_entries-Avoided q ((k, r) ∷ rest) u h =
      lookup-move_entries-Avoided q rest (move_entry old new k r u) h.1
      ∙ ground (
        arith,
        lookup-move_entry q k r u,
        bytes_beq_iff (moved old new r).path q,
        bytes_beq_iff k q,
      )

  -- The path to which a root moves is avoided by all other roots.
  Avoided-moved :
      (r : Root) (m : Map Bytes Root)
      → has_path_prefix r.path new ≡ false
      → has r.path m ≡ false
      → All (λ k s. k ≡ s.path) m
      → IsFresh new m
      → Avoided (moved old new r).path m
  unfolding has
  Avoided-moved r [] f h keyed fresh = tt
  Avoided-moved r ((k, s) ∷ m) f h keyed fresh =
      let apart : k ≢ r.path = (λ e. ground (arith, e, bytes_beq_iff k r.path)) in
      let fresh' : has_path_prefix s.path new ≡ false = ground (arith, keyed.0, fresh.0) in
      (
        (
          (λ e. apart (sym (moved_apart old new r k fresh.0 (sym e)))),
          (λ e. apart (keyed.0 ∙ moved_injective old new s r fresh' f e)),
        ),
        Avoided-moved r m f (ground arith) keyed.1 fresh.1,
      )

  -- The map under construction still has every root that is to come.
  abbrev pub Agrees : Map Bytes Root → Map Bytes Root → Type 0
  Agrees rest u = (j : Bytes) (s : Root) → lookup j rest ≡ some s → lookup j u ≡ some s

  -- What the loop may assume of the roots that are to come.
  pub record Coming (rest u : Map Bytes Root) : Type 0 where
    pub keyed : All (λ k r. k ≡ r.path) rest
    pub distinct : Distinct rest
    pub fresh : IsFresh new rest
    pub agrees : Agrees rest u

  Coming-head :
      {k : Bytes} {r : Root} {rest u : Map Bytes Root}
      → Coming ((k, r) ∷ rest) u
      → Avoided (moved old new r).path rest × (lookup k u ≡ some r) × (k ≡ r.path)
  unfolding lookup
  Coming-head {k} {r} {rest} c = (
    Avoided-moved r rest (ground (arith, c.keyed.0, c.fresh.0))
        (ground (arith, c.keyed.0, c.distinct.0)) c.keyed.1 c.fresh.1,
    c.agrees k r (ground (arith, bytes_beq_iff k k)),
    c.keyed.0,
  )

  All-has : (q : Bytes) (m : Map Bytes Root) (s : Root) → Avoided q m → lookup q m ≡ some s → ⊥
  unfolding lookup
  All-has q [] s h e = ground arith
  All-has q ((k, r) ∷ m) s h e = ground (arith, bytes_beq_iff k q, h.0.0, All-has q m s h.1)

  lookup-tail :
      (k j : Bytes) (r s : Root) (rest : Map Bytes Root)
      → has k rest ≡ false
      → lookup j rest ≡ some s
      → (lookup j ((k, r) ∷ rest) ≡ some s) × (k ≢ j)
  unfolding lookup
  lookup-tail k j r s rest d e =
      let ne : k ≢ j = (λ q. ground (arith, lookup-has j rest s e, d, q)) in
      (ground (arith, bytes_beq_iff k j), ne)

  Coming-tail :
      {k : Bytes} {r : Root} {rest u : Map Bytes Root}
      → Coming ((k, r) ∷ rest) u
      → Coming rest (move_entry old new k r u)
  Coming-tail {k} {r} {rest} {u} c = record {
    keyed = c.keyed.1;
    distinct = c.distinct.1;
    fresh = c.fresh.1;
    agrees = λ j s e.
        let (whole, ne) = lookup-tail k j r s rest c.distinct.0 e in
        let off : (moved old new r).path ≢ j =
          (λ q. All-has j rest s (rw q at ((Coming-head c).0)) e) in
        ground (
          arith,
          lookup-move_entry j k r u,
          bytes_beq_iff (moved old new r).path j,
          bytes_beq_iff k j,
          c.agrees j s whole,
        );
  }

  -- The first of the coming roots is found where it moves to.
  lookup-move_entries_head :
      (k : Bytes) (r : Root) (rest u : Map Bytes Root)
      → Coming ((k, r) ∷ rest) u
      → lookup (moved old new r).path (move_entries old new rest (move_entry old new k r u))
        ≡ some (moved old new r)
  lookup-move_entries_head k r rest u c =
      let (off, now, same) = Coming-head c in
      lookup-move_entries-Avoided (moved old new r).path rest (move_entry old new k r u) off
      ∙ ground (
        arith,
        lookup-move_entry (moved old new r).path k r u,
        bytes_beq_iff (moved old new r).path (moved old new r).path,
        moved_unchanged old new r,
        now,
        same,
      )

  head_root :
      (k' k : Bytes) (r' r : Root) (rest : Map Bytes Root)
      → k' ≡ k
      → lookup k ((k', r') ∷ rest) ≡ some r
      → r' ≡ r
  unfolding lookup
  head_root k' k r' r rest same e = ground (arith, bytes_beq_iff k' k)

  pub lookup-move_entries :
      (rest u : Map Bytes Root)
      → Coming rest u
      → (k : Bytes) (r : Root) → lookup k rest ≡ some r
      → lookup (moved old new r).path (move_entries old new rest u) ≡ some (moved old new r)
  unfolding move_entries
  lookup-move_entries [] u c k r e = unfold lookup in ground arith
  lookup-move_entries ((k', r') ∷ rest) u c k r e = elim (Bool-cases (k' == k)) [
    | inl same ↦
        subst
          (λ s.
            lookup (moved old new s).path (move_entries old new rest (move_entry old new k' r' u))
            ≡ some (moved old new s))
          (head_root k' k r' r rest ((bytes_beq_iff k' k).0 same) e)
          (lookup-move_entries_head k' r' rest u c)
    | inr other ↦
        lookup-move_entries rest (move_entry old new k' r' u) (Coming-tail c) k r
          (unfold lookup in ground arith)
  ]

  move_entry_inv :
      (q k : Bytes) (r s : Root) (u : Map Bytes Root)
      → lookup k u ≡ some r
      → lookup q (move_entry old new k r u) ≡ some s
      → (moved old new r ≡ s) ⊎ ((lookup q u ≡ some s) × ((k == q) ≡ false))
  move_entry_inv q k r s u now e = elim (Bool-cases (k == q)) [
    | inl at_q ↦
        inl
          (ground (arith, lookup-move_entry q k r u, bytes_beq_iff k q, moved_unchanged old new r))
    | inr off ↦ elim (Bool-cases (changed old new r && (moved old new r).path == q)) [
      | inl lands ↦ inl (ground (arith, lookup-move_entry q k r u))
      | inr no_land ↦ inr (ground (arith, lookup-move_entry q k r u), off)
    ]
  ]

  -- A root of the result is a root that moved there, or one that no coming root concerns.
  pub lookup-move_entries_inv :
      (rest u : Map Bytes Root)
      → Coming rest u
      → (q : Bytes) (s : Root) → lookup q (move_entries old new rest u) ≡ some s
      → ((k : Bytes) × (r : Root) × (lookup k rest ≡ some r) × (moved old new r ≡ s))
        ⊎ ((lookup q u ≡ some s) × (has q rest ≡ false))
  unfolding move_entries
  lookup-move_entries_inv [] u c q s e = inr (e, unfold has in refl)
  lookup-move_entries_inv ((k, r) ∷ rest) u c q s e =
      elim (lookup-move_entries_inv rest (move_entry old new k r u) (Coming-tail c) q s e) [
        | inl (j, t, found, moves) ↦
            inl (j, t, (lookup-tail k j r t rest c.distinct.0 found).0, moves)
        | inr (now, later) ↦ elim (move_entry_inv q k r s u (Coming-head c).1 now) [
          | inl moves ↦ inl (k, r, unfold lookup in ground (arith, bytes_beq_iff k k), moves)
          | inr (before, off) ↦ inr (before, unfold has in ground arith)
        ]
      ]
