-- ===== src/Filter/Rule.antt =====
-- internal/filter/matcher.go: New followed by ShouldExclude decides the rule on the configuration.
use go_gaze.Common.{
  ◌≡◌, refl, ◌∙◌, ◌≢◌, Bool, true, false, ◌&&◌, ◌||◌, Option, List, [], ◌∷◌, arith, Bytes, ltb,
  ◌==◌, nat_eq, bytes_eq, if◌then◌else◌, length, any, any-congr,
}
use go_gaze.Errors.{Result, ok, err, ◌>>=◌}
use go_gaze.Filter.{
  FilterConfig, Matcher, make_matcher, sort_globs, new, clean_fast, at_or_below, is_match, excludes,
  is_none, base_fast, excluded_path, should_exclude,
}
use go_gaze.Filter.Base.{base_fast-eq-base_name}
use go_gaze.Filter.Excluding.{
  any-clean_prefixes, any-nonempty, bad_glob, glob_hit, is_excluded, FirstBad, SortedGlobs,
  sort_globs-Sorted, picked,
}

module _ (glob_match : Bytes → Bytes → Option Bool) where
  -- The loops of ShouldExclude without their early returns.
  flat_rule : Matcher → Bytes → Bool → Bool
  flat_rule m path is_dir =
      any (at_or_below path) m.prefixes
      || ((any (λ glob. is_match (glob_match glob (base_fast path))) m.base_globs
            || any (λ glob. is_match (glob_match glob path)) m.path_globs)
          || excludes m.exclude path is_dir)

  length-pos {ℓ} : {A : Type ℓ} (l : List A) → l ≢ [] → ltb 0 (length l) ≡ true
  length-pos [] h = absurd (h refl)
  length-pos (x ∷ l) h = ground arith

  excluded_path-flat :
      (m : Matcher) (path : Bytes) (is_dir : Bool)
      → excluded_path glob_match m path is_dir ≡ flat_rule m path is_dir
  unfolding excluded_path flat_rule
  excluded_path-flat m path is_dir = ground (
    arith,
    any-nonempty (λ glob. is_match (glob_match glob (base_fast path))) m.base_globs
        (ltb 0 (length m.base_globs)) (length-pos m.base_globs),
    any-nonempty (λ glob. is_match (glob_match glob path)) m.path_globs
        (ltb 0 (length m.path_globs)) (length-pos m.path_globs),
  )

  any-empty {ℓ} :
      {A : Type ℓ} (f : A → Bool) (l : List A) → (length l == 0) ≡ true → any f l ≡ false
  unfolding any
  any-empty f [] h = refl
  any-empty f (x ∷ l) h = ground arith

  -- Nothing to exclude by.
  abbrev is_idle : Matcher → Bool
  is_idle m =
      length m.prefixes == 0
      && (length m.base_globs == 0 && (length m.path_globs == 0 && is_none m.exclude))

  flat_rule-idle :
      (m : Matcher) (path : Bytes) (is_dir : Bool)
      → is_idle m ≡ true
      → flat_rule m path is_dir ≡ false
  unfolding flat_rule
  flat_rule-idle m path is_dir h = ground (
    arith,
    any-empty (at_or_below path) m.prefixes,
    any-empty (λ glob. is_match (glob_match glob (base_fast path))) m.base_globs,
    any-empty (λ glob. is_match (glob_match glob path)) m.path_globs,
  )

  should_exclude-open :
      (m : Matcher) (path : Bytes) (is_dir : Bool)
      → should_exclude glob_match m path is_dir
        ≡ (if is_idle m then false else excluded_path glob_match m (clean_fast path) is_dir)
  unfolding should_exclude
  should_exclude-open m path is_dir = refl

  should_exclude-flat :
      (m : Matcher) (path : Bytes) (is_dir : Bool)
      → should_exclude glob_match m path is_dir ≡ flat_rule m (clean_fast path) is_dir
  should_exclude-flat m path is_dir =
      should_exclude-open m path is_dir
      ∙ ground (
        arith,
        flat_rule-idle m (clean_fast path) is_dir,
        excluded_path-flat m (clean_fast path) is_dir,
      )

  picked-hit :
      (path : Bytes) (globs : List Bytes)
      → any
          (picked glob_match
            (λ glob. is_match (glob_match glob (base_fast path)))
            (λ glob. is_match (glob_match glob path)))
          globs
        ≡ any (glob_hit glob_match path) globs
  unfolding glob_hit
  picked-hit path globs = any-congr _ _ globs (λ glob. ground (arith, base_fast-eq-base_name path))

  -- The two ways in which New returns.
  abbrev pub NewResult : FilterConfig → Result Matcher → Type 0
  NewResult cfg (ok m) =
      (any (bad_glob glob_match) cfg.globs ≡ false)
      × ((path : Bytes) (is_dir : Bool)
          → should_exclude glob_match m path is_dir
            ≡ is_excluded glob_match cfg (clean_fast path) is_dir)
  NewResult cfg (err e) = FirstBad glob_match cfg.globs e

  abbrev base_test : Bytes → Bytes → Bool
  base_test path glob = is_match (glob_match glob (base_fast path))

  abbrev path_test : Bytes → Bytes → Bool
  path_test path glob = is_match (glob_match glob path)

  any-nil {ℓ} : {A : Type ℓ} (f : A → Bool) → any f [] ≡ false
  unfolding any
  any-nil f = refl

  made-rule :
      (p : Bytes) (is_dir : Bool) (cfg : FilterConfig) (base path : List Bytes)
      → SortedGlobs glob_match (base_test p) (path_test p) cfg.globs ([], []) (ok (base, path))
      → flat_rule (make_matcher glob_match cfg (base, path)) p is_dir
        ≡ is_excluded glob_match cfg p is_dir
  unfolding flat_rule is_excluded
  made-rule p is_dir cfg base path h = ground (
    arith,
    h.1,
    any-nil (base_test p),
    any-nil (path_test p),
    any-clean_prefixes p cfg.prefixes,
    picked-hit p cfg.globs,
  )

  made-NewResult :
      (cfg : FilterConfig) (r : Result (List Bytes × List Bytes))
      → ((f g : Bytes → Bool) → SortedGlobs glob_match f g cfg.globs ([], []) r)
      → NewResult cfg (r >>= λ sorted. ok (make_matcher glob_match cfg sorted))
  made-NewResult cfg (ok (base, path)) h = (
    (h (λ _. false) (λ _. false)).0,
    λ p is_dir.
        should_exclude-flat (make_matcher glob_match cfg (base, path)) p is_dir
        ∙ made-rule (clean_fast p) is_dir cfg base path
            (h (base_test (clean_fast p)) (path_test (clean_fast p))),
  )
  made-NewResult cfg (err e) h = h (λ _. false) (λ _. false)

  -- For every configuration New returns a matcher when no glob of it is bad, and else the error
  -- that names the first bad glob of its list. The matcher's ShouldExclude excludes a path, as
  -- cleanFast leaves it, exactly when HasPathPrefix finds a cleaned prefix of the configuration in
  -- it, or a glob with a slash matches the path, or a glob without one matches its base name, or the
  -- caller's predicate excludes it. Blank prefixes and globs exclude nothing.
  pub new_lem : (cfg : FilterConfig) → NewResult cfg (new glob_match cfg)
  unfolding new
  new_lem cfg =
      made-NewResult cfg (sort_globs glob_match cfg.globs ([], []))
        (λ f g. sort_globs-Sorted glob_match f g cfg.globs [] [])
