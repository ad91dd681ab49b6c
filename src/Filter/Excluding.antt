-- ===== src/Filter/Excluding.antt =====
-- internal/filter/matcher.go: one rule on the configuration, and how New sorts the globs.
use go_gaze.Common.{
  ◌≡◌, refl, ap, ◌∙◌, ◌≢◌, Bool, true, false, ◌&&◌, ◌||◌, not, Option, none, some, List, [], ◌∷◌,
  ◌++◌, arith, Bytes, codes, nat_eq, bytes_eq, Bool-cases, inl, inr, if◌then◌else◌, any, any-append,
  Option-cases,
}
use go_gaze.Errors.{Error, invalid_glob, Result, ok, err}
use go_gaze.FilePath.{has_path_prefix}
use go_gaze.GoPath.{clean, is_blank}
use go_gaze.Filter.{
  FilterConfig, clean_prefixes, contains_byte, sort_glob, sort_globs, at_or_below, is_match,
  excludes,
}
use go_gaze.Filter.Base.{base_name}

at_or_below-eq : (path prefix : Bytes) → at_or_below path prefix ≡ has_path_prefix path prefix
unfolding at_or_below has_path_prefix
at_or_below-eq path prefix = ground arith

-- A prefix of the configuration holds the path.
unfoldable pub prefix_hit : Bytes → Bytes → Bool
prefix_hit path prefix = not (is_blank prefix) && has_path_prefix path (clean prefix)

pub any-clean_prefixes :
    (path : Bytes) (prefixes : List Bytes)
    → any (at_or_below path) (clean_prefixes prefixes) ≡ any (prefix_hit path) prefixes
unfolding any clean_prefixes prefix_hit
any-clean_prefixes path [] = refl
any-clean_prefixes path (p ∷ rest) =
    ground (arith, any-clean_prefixes path rest, at_or_below-eq path (clean p))

pub any-nonempty {ℓ} :
    {A : Type ℓ} (f : A → Bool) (l : List A) (nonempty : Bool)
    → (l ≢ [] → nonempty ≡ true)
    → (nonempty && any f l) ≡ any f l
unfolding any
any-nonempty f [] b h = ground arith
any-nonempty f (x ∷ l) b h = ground (arith, h (λ e. cc e))

module _ (glob_match : Bytes → Bytes → Option Bool) where
  -- A glob that New rejects: not blank, and malformed.
  unfoldable pub bad_glob : Bytes → Bool
  bad_glob glob =
      not (is_blank glob) && elim (glob_match glob (codes "probe")) [ none ↦ true | some _ ↦ false ]

  -- A glob of the configuration matches: one with a slash in it the path, any other the base name.
  unfoldable pub glob_hit : Bytes → Bytes → Bool
  glob_hit path glob =
      not (is_blank glob)
      && is_match (glob_match glob (if contains_byte glob b'/' then path else base_name path))

  -- The rule: excluded by a prefix, by a glob or by the caller's predicate.
  unfoldable pub is_excluded : FilterConfig → Bytes → Bool → Bool
  is_excluded cfg path is_dir =
      any (prefix_hit path) cfg.prefixes
      || (any (glob_hit path) cfg.globs || excludes cfg.exclude path is_dir)

  -- The error names the first bad glob of the list.
  abbrev pub FirstBad : List Bytes → Error → Type 0
  FirstBad globs e =
      (good : List Bytes) × (glob : Bytes) × (rest : List Bytes) × (globs ≡ good ++ glob ∷ rest)
      × (any bad_glob good ≡ false)
      × (bad_glob glob ≡ true)
      × (e ≡ invalid_glob glob)

  FirstBad-cons :
      (glob : Bytes) (globs : List Bytes) (e : Error)
      → bad_glob glob ≡ false
      → FirstBad globs e
      → FirstBad (glob ∷ globs) e
  unfolding any
  FirstBad-cons glob globs e sound (good, bad, rest, split, none_bad, is_bad, names) =
      (glob ∷ good, bad, rest, ap (λ l. glob ∷ l) split, ground arith, is_bad, names)

  FirstBad-here :
      (glob : Bytes) (rest : List Bytes)
      → bad_glob glob ≡ true
      → FirstBad (glob ∷ rest) (invalid_glob glob)
  unfolding any
  FirstBad-here glob rest bad = ([], glob, rest, refl, refl, bad, refl)

  abbrev pub SortedGlobs :
      (Bytes → Bool)
      → (Bytes → Bool)
      → List Bytes
      → List Bytes × List Bytes
      → Result (List Bytes × List Bytes)
      → Type 0
  SortedGlobs f g globs (base, path) (ok (base', path')) =
      (any bad_glob globs ≡ false)
      × (any f base' || any g path') ≡ (
          (any f base || any g path)
          || any
              (λ glob. not (is_blank glob) && (if contains_byte glob b'/' then g glob else f glob))
              globs)
  SortedGlobs f g globs before (err e) = FirstBad globs e

  abbrev pub picked : (Bytes → Bool) → (Bytes → Bool) → Bytes → Bool
  picked f g glob = not (is_blank glob) && (if contains_byte glob b'/' then g glob else f glob)

  SortedGlobs-cons :
      (f g : Bytes → Bool) (glob : Bytes) (rest base path base' path' : List Bytes)
      (r : Result (List Bytes × List Bytes))
      → bad_glob glob ≡ false
      → (any f base' || any g path') ≡ ((any f base || any g path) || picked f g glob)
      → SortedGlobs f g rest (base', path') r
      → SortedGlobs f g (glob ∷ rest) (base, path) r
  unfolding any
  SortedGlobs-cons f g glob rest base path base' path' (ok (b, q)) good e h =
      (ground arith, ground arith)
  SortedGlobs-cons f g glob rest base path base' path' (err x) good e h =
      FirstBad-cons glob rest x good h

  any-snoc :
      (f : Bytes → Bool) (l : List Bytes) (x : Bytes) → any f (l ++ x ∷ []) ≡ (any f l || f x)
  unfolding any
  any-snoc f l x = any-append f l (x ∷ []) ∙ ground arith

  blank-good : (glob : Bytes) → is_blank glob ≡ true → bad_glob glob ≡ false
  unfolding bad_glob
  blank-good glob h = ground arith

  malformed-bad :
      (glob : Bytes)
      → is_blank glob ≡ false
      → glob_match glob (codes "probe") ≡ none
      → bad_glob glob ≡ true
  unfolding bad_glob
  malformed-bad glob h e = ground arith

  matching-good :
      (glob : Bytes) (b : Bool) → glob_match glob (codes "probe") ≡ some b → bad_glob glob ≡ false
  unfolding bad_glob
  matching-good glob b e = ground arith

  module _ (glob : Bytes) (rest : List Bytes) where
    sort_globs-blank :
        (sorted : List Bytes × List Bytes)
        → is_blank glob ≡ true
        → sort_globs glob_match (glob ∷ rest) sorted ≡ sort_globs glob_match rest sorted
    unfolding sort_globs
    sort_globs-blank sorted h = rw h refl

    sort_globs-bad :
        (sorted : List Bytes × List Bytes)
        → is_blank glob ≡ false
        → glob_match glob (codes "probe") ≡ none
        → sort_globs glob_match (glob ∷ rest) sorted ≡ err (invalid_glob glob)
    unfolding sort_globs
    sort_globs-bad sorted h e = rw h (rw e refl)

    sort_globs-good :
        (sorted : List Bytes × List Bytes) (b : Bool)
        → is_blank glob ≡ false
        → glob_match glob (codes "probe") ≡ some b
        → sort_globs glob_match (glob ∷ rest) sorted
          ≡ sort_globs glob_match rest (sort_glob glob sorted)
    unfolding sort_globs
    sort_globs-good sorted b h e = rw h (rw e refl)

  sort_glob-slash :
      (glob : Bytes) (base path : List Bytes)
      → contains_byte glob b'/' ≡ true
      → sort_glob glob (base, path) ≡ (base, path ++ glob ∷ [])
  unfolding sort_glob
  sort_glob-slash glob base path h = rw h refl

  sort_glob-plain :
      (glob : Bytes) (base path : List Bytes)
      → contains_byte glob b'/' ≡ false
      → sort_glob glob (base, path) ≡ (base ++ glob ∷ [], path)
  unfolding sort_glob
  sort_glob-plain glob base path h = rw h refl

  pub sort_globs-Sorted :
      (f g : Bytes → Bool) (globs base path : List Bytes)
      → SortedGlobs f g globs (base, path) (sort_globs glob_match globs (base, path))
  sort_globs-Sorted f g [] base path = unfold sort_globs any in (refl, ground arith)
  sort_globs-Sorted f g (glob ∷ rest) base path = elim (Bool-cases (is_blank glob)) [
    | inl blank ↦ rw (sort_globs-blank glob rest (base, path) blank) (
        SortedGlobs-cons f g glob rest base path base path _ (blank-good glob blank) (ground arith)
          (sort_globs-Sorted f g rest base path))
    | inr solid ↦ elim (Option-cases (glob_match glob (codes "probe"))) [
      | inl bad ↦
          rw (sort_globs-bad glob rest (base, path) solid bad)
            (FirstBad-here glob rest (malformed-bad glob solid bad))
      | inr (b, good) ↦ elim (Bool-cases (contains_byte glob b'/')) [
        | inl slash ↦
            rw
              (
                sort_globs-good glob rest (base, path) b solid good,
                sort_glob-slash glob base path slash,
              )
              (SortedGlobs-cons f g glob rest base path base (path ++ glob ∷ []) _
                (matching-good glob b good) (ground (arith, any-snoc g path glob))
                (sort_globs-Sorted f g rest base (path ++ glob ∷ [])))
        | inr plain ↦
            rw
              (
                sort_globs-good glob rest (base, path) b solid good,
                sort_glob-plain glob base path plain,
              )
              (SortedGlobs-cons f g glob rest base path (base ++ glob ∷ []) path _
                (matching-good glob b good) (ground (arith, any-snoc f base glob))
                (sort_globs-Sorted f g rest (base ++ glob ∷ []) path))
      ]
    ]
  ]
