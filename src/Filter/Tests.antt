-- ===== src/Filter/Tests.antt =====
-- Runs of the filter of internal/filter/matcher.go, and instances of its theorems. The globs of the
-- runs match only themselves, and the glob `[` is bad.
use go_gaze.Common.{
  ◌≡◌, refl, Bool, true, false, Option, some, none, [], ◌∷◌, Bytes, codes, ◌==◌, bytes_eq,
  if◌then◌else◌,
}
use go_gaze.GoPath.{clean}
use go_gaze.Filter.{FilterConfig, new, clean_fast, base_fast}
use go_gaze.Filter.Base.{base_name, base_fast-eq-base_name}
use go_gaze.Filter.Cleaning.{clean_fast-eq-clean}
use go_gaze.Filter.Rule.{NewResult, new_lem}

abbrev glob_match : Bytes → Bytes → Option Bool
glob_match glob path = if glob == codes "[" then none else some (glob == path)

abbrev cfg : FilterConfig
cfg = record {
  prefixes = codes "/src/vendor/" ∷ [];
  globs = codes ".git" ∷ codes "/src/x/y" ∷ [];
  exclude = none;
}

clean_run : clean_fast (codes "/src/../lib//a") ≡ codes "/lib/a"
unfolding clean_fast go_gaze.Common.bytes_beq clean
clean_run = refl

clean_example : clean_fast (codes "/src/../lib//a") ≡ clean (codes "/src/../lib//a")
unfolding go_gaze.Filter.Cleaning.ends_in_separator
clean_example = clean_fast-eq-clean (codes "/src/../lib//a") refl

base_example : base_fast (codes "/src/a.go//") ≡ base_name (codes "/src/a.go//")
base_example = base_fast-eq-base_name (codes "/src/a.go//")

new_example : NewResult glob_match cfg (new glob_match cfg)
new_example = new_lem glob_match cfg
