-- ===== src/Filter.antt =====
-- internal/filter/matcher.go, with slash_unix.go: the exclusion of paths by prefixes, by globs and by
-- a predicate of the caller. filepath.Match is a parameter, `glob_match pattern name`, whose `none`
-- is ErrBadPattern. On this build `filepath.Separator` is '/'.
pub mod Cleaning
pub mod Base
pub mod Excluding
pub mod Rule
mod Tests
use go_gaze.Common.{
  ℕ, zero, suc, ◌+◌, ◌-◌, Bool, true, false, ◌&&◌, ◌||◌, not, Option, none, some, List, [], ◌∷◌,
  ◌++◌, Bytes, codes, ltb, ◌==◌, nat_eq, bytes_eq, length, take, drop, any, if◌then◌else◌,
}
use go_gaze.Errors.{Error, invalid_glob, Result, ok, err, ◌>>=◌}
use go_gaze.FilePath.{separator, dot, byte_is, last_index_byte}
use go_gaze.GoPath.{clean, is_blank, head_is}

abbrev pub Predicate : Type 0
Predicate = Bytes → Bool → Bool

-- The struct Config of the package.
pub record FilterConfig : Type 0 where
  pub prefixes : List Bytes
  pub globs : List Bytes
  pub exclude : Option Predicate

pub record Matcher : Type 0 where
  pub prefixes : List Bytes
  pub base_globs : List Bytes
  pub path_globs : List Bytes
  pub exclude : Option Predicate

-- The first loop of New.
unfoldable pub clean_prefixes : List Bytes → List Bytes
clean_prefixes [] = []
clean_prefixes (prefix ∷ rest) =
    let prefixes = clean_prefixes rest in
    if is_blank prefix then prefixes else clean prefix ∷ prefixes

-- strings.ContainsRune(s, c) for an ASCII c.
unfoldable pub contains_byte : Bytes → ℕ → Bool
contains_byte s c = any (λ x. x == c) s

-- One round of the second loop of New, past its two checks: the globs for base names and for paths.
unfoldable pub sort_glob : Bytes → List Bytes × List Bytes → List Bytes × List Bytes
sort_glob glob (base_globs, path_globs) =
    if contains_byte glob b'/' || contains_byte glob separator
    then (base_globs, path_globs ++ glob ∷ [])
    else (
      base_globs ++ glob ∷ [],
      (if not (separator == b'/') then path_globs ++ glob ∷ [] else path_globs),
    )

module _ (glob_match : Bytes → Bytes → Option Bool) where
  -- The second loop of New.
  unfoldable pub sort_globs :
      List Bytes → List Bytes × List Bytes → Result (List Bytes × List Bytes)
  unfolding sort_glob
  sort_globs [] sorted = ok sorted
  sort_globs (glob ∷ rest) sorted =
      let skipped = sort_globs rest sorted in
      let taken = sort_globs rest (sort_glob glob sorted) in
      if is_blank glob then skipped else elim (glob_match glob (codes "probe")) [
        | none ↦ err (invalid_glob glob)
        | some _ ↦ taken
      ]

  abbrev pub make_matcher : FilterConfig → List Bytes × List Bytes → Matcher
  make_matcher cfg (base_globs, path_globs) = record {
    prefixes = clean_prefixes cfg.prefixes;
    base_globs = base_globs;
    path_globs = path_globs;
    exclude = cfg.exclude;
  }

  -- New
  unfoldable pub new : FilterConfig → Result Matcher
  unfolding clean_prefixes sort_globs
  new cfg = sort_globs cfg.globs ([], []) >>= λ sorted. ok (make_matcher cfg sorted)

-- The tests of the loop in cleanFast from one byte on; `starts` says that i is 0 or that the byte
-- before it is a separator.
unfoldable pub needs_clean : Bool → Bytes → Bool
needs_clean starts [] = false
needs_clean starts (c ∷ rest) =
    (c == dot && (starts && (rest == [] || (head_is rest separator || head_is rest dot))))
    || ((c == separator && head_is rest separator) || needs_clean (c == separator) rest)

-- cleanFast
unfoldable pub clean_fast : Bytes → Bytes
unfolding needs_clean
clean_fast path =
    if length path == 0 then clean path else if needs_clean true path then clean path else path

-- The loop of baseFast that strips trailing separators.
unfoldable pub strip_separators : Bytes → Bytes
strip_separators [] = []
strip_separators (c ∷ s) =
    let rest = strip_separators s in if rest == [] && c == separator then [] else c ∷ rest

abbrev pub after_last : Bytes → Option ℕ → Bytes
after_last path none = path
after_last path (some idx) = drop (idx + 1) path

-- baseFast
unfoldable pub base_fast : Bytes → Bytes
unfolding strip_separators
base_fast path =
    let stripped = strip_separators path in
    if path == []
    then dot ∷ []
    else if stripped == []
    then separator ∷ []
    else after_last stripped (last_index_byte stripped separator)

-- toSlashFast of slash_unix.go
unfoldable pub to_slash_fast : Bytes → Bytes
to_slash_fast path = path

-- The test in the loop over the prefixes.
unfoldable pub at_or_below : Bytes → Bytes → Bool
at_or_below path prefix =
    path == prefix
    || (ltb (length prefix) (length path)
        && (byte_is path (length prefix) separator && take (length prefix) path == prefix))

-- ok, _ := filepath.Match(...)
abbrev pub is_match : Option Bool → Bool
is_match none = false
is_match (some matched) = matched

abbrev pub excludes : Option Predicate → Bytes → Bool → Bool
excludes none path is_dir = false
excludes (some exclude) path is_dir = exclude path is_dir

abbrev pub is_none {ℓ} : {A : Type ℓ} → Option A → Bool
is_none none = true
is_none (some x) = false

module _ (glob_match : Bytes → Bytes → Option Bool) where
  -- The loops over the globs, each behind its test on the length.
  unfoldable pub matches_base : Matcher → Bytes → Bool
  unfolding base_fast
  matches_base m path =
      ltb 0 (length m.base_globs)
      && any (λ glob. is_match (glob_match glob (base_fast path))) m.base_globs

  unfoldable pub matches_path : Matcher → Bytes → Bool
  unfolding to_slash_fast
  matches_path m path =
      ltb 0 (length m.path_globs)
      && any (λ glob. is_match (glob_match glob (to_slash_fast path))) m.path_globs

  -- ShouldExclude after its first return, on the cleaned path.
  unfoldable pub excluded_path : Matcher → Bytes → Bool → Bool
  unfolding at_or_below matches_base matches_path
  excluded_path m path is_dir =
      if any (at_or_below path) m.prefixes
      then true
      else if matches_base m path
      then true
      else if matches_path m path
      then true
      else excludes m.exclude path is_dir

  -- ShouldExclude
  unfoldable pub should_exclude : Matcher → Bytes → Bool → Bool
  unfolding excluded_path clean_fast
  should_exclude m path is_dir =
      if length m.prefixes == 0
        && (length m.base_globs == 0 && (length m.path_globs == 0 && is_none m.exclude))
      then false
      else excluded_path m (clean_fast path) is_dir
