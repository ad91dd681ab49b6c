-- ===== src/Windows/Tests.antt =====
-- Instances of the theorems on internal/backend/backend_windows.go, with names of ASCII characters.
use go_gaze.Common.{
  ℕ, ◌+◌, ◌≤◌, ◌≡◌, refl, Bool, true, false, List, [], ◌∷◌, ◌++◌, arith, Bytes, codes, length,
}
use go_gaze.Errors.{ok}
use go_gaze.Windows.{WindowsRoot}
use go_gaze.Windows.Reading.{Info, parse, parse_buffer}
use go_gaze.Windows.Changes.{Paths, action_added, action_modified, change_all}
use go_gaze.Windows.Parsed.{encode_all, infos_of, buffer_entries}
use go_gaze.Windows.Ending.{parse_enough}
use go_gaze.Windows.Pairing.{sent_first, old_info, new_info, renamed, reports, renamed_across}

abbrev paths : Paths
paths = record {
  decode = λ name. name;
  from_slash = λ path. path;
  join = λ dir name. dir ++ codes "/" ++ name;
  clean = λ path. path;
  stat = λ path. ok (record { is_symlink = false; is_dir = false });
}

abbrev root : WindowsRoot
root = record {
  target = record { path = codes "C:"; watch_path = codes "C:"; is_dir = true; recursive = true };
  handle = 8;
}

abbrev modified : Info
modified = record { action = action_modified; name = codes "m" }

abbrev created : Info
created = record { action = action_added; name = codes "new" }

across_example :
    change_all paths root
      (old_info (codes "a") ∷ (modified ∷ []) ++ new_info (codes "b") ∷ created ∷ [])
      []
    ≡ sent_first
        (reports paths root (modified ∷ []) ++ renamed paths root (codes "a") (codes "b") ∷ [])
        (change_all paths root (created ∷ []) [])
unfolding go_gaze.Common.bytes_beq go_gaze.Windows.Changes.full_path
across_example =
    renamed_across paths root (codes "a") (codes "b") (modified ∷ []) (created ∷ []) []
      ((ground arith, ground arith), tt) refl

abbrev entries : List (Info × ℕ)
entries = (created, 2) ∷ (modified, 0) ∷ []

entries_example :
    parse_buffer (encode_all entries (new_info (codes "b")) (1 ∷ []))
    ≡ infos_of entries (new_info (codes "b"))
entries_example =
    buffer_entries entries (new_info (codes "b")) (1 ∷ [])
      (
        record {
          action = omega arith;
          size = omega arith;
          units = (omega arith, (omega arith, (omega arith, tt)));
        },
        (record { action = omega arith; size = omega arith; units = (omega arith, tt) }, tt),
      )
      (record { action = omega arith; size = omega arith; units = (omega arith, tt) })

enough_example :
    parse (3 + length (encode_all entries modified [])) (encode_all entries modified [])
    ≡ parse_buffer (encode_all entries modified [])
enough_example = parse_enough 3 (encode_all entries modified [])
