-- ===== src/Tree/Tests.antt =====
-- Runs of the index of internal/tree/index.go, and instances of its theorems.
use go_gaze.Common.{codes, bytes_eq, ◌≡◌, refl, true, false, some, none, List, [], ◌∷◌, Bytes, any}
use go_gaze.Common.Assoc.{lookup}
use go_gaze.Tree.{Root, Index, PathSet, empty, add, move_prefix, matches, walk, walk_fuel}
use go_gaze.FilePath.{has_path_prefix}
use go_gaze.Tree.Walk.{reaches_any, walk-total}
use go_gaze.Tree.Matching.{covered, covers}
use go_gaze.Tree.Moving.{relocated_root}
use go_gaze.Tree.Moved.{matches-move_prefix}
use go_gaze.Tree.Runs.{
  IsIndex, Call, adds, removes, moves, run, call-IsIndex, empty-IsIndex, matches-run,
}

abbrev src_root : Root
src_root = record {
  path = codes "/src";
  watch_path = codes "/src";
  is_dir = true;
  recursive = true;
}

abbrev file_root : Root
file_root = record {
  path = codes "/etc/hosts";
  watch_path = codes "/etc";
  is_dir = false;
  recursive = false;
}

abbrev dirs : PathSet
dirs = (codes "/src", tt) ∷ []

walk_example :
    walk (walk_fuel (codes "/src/a/b")) dirs (codes "/src/a/b")
    ≡ some (reaches_any dirs (codes "/src/a/b"))
walk_example = walk-total dirs (codes "/src/a/b")

abbrev calls : List Call
calls =
    adds src_root
    ∷ adds file_root
    ∷ moves (codes "/src") (codes "/lib")
    ∷ removes (codes "/etc/hosts")
    ∷ []

moved_run : matches (run calls empty) (codes "/lib/a/b") ≡ true
unfolding run matches go_gaze.Common.Assoc.has go_gaze.Tree.remove lookup move_prefix add
    go_gaze.Tree.rebuild go_gaze.Common.Assoc.insert go_gaze.Common.bytes_beq has_path_prefix
    go_gaze.FilePath.parent_dir
moved_run = refl

matches_example :
    matches (run calls empty) (codes "/lib/a/b")
    ≡ covered (run calls empty).roots (codes "/lib/a/b")
matches_example = matches-run calls (codes "/lib/a/b")

abbrev one_root : Index
one_root = record {
  roots = (codes "/src", src_root) ∷ [];
  file_roots = [];
  flat_dirs = [];
  recursive_dirs = dirs;
}

one_root-IsIndex : IsIndex one_root
unfolding add go_gaze.Tree.Runs.call go_gaze.Tree.rebuild go_gaze.Common.Assoc.insert
one_root-IsIndex = call-IsIndex (adds src_root) empty-IsIndex

matches-move_prefix_example :
    matches (move_prefix (codes "/src") (codes "/lib") one_root) (codes "/lib/x")
    ≡ any
        (λ e. covers (codes "/lib/x") (relocated_root (codes "/src") (codes "/lib") e.1))
        one_root.roots
unfolding has_path_prefix go_gaze.Common.bytes_beq
matches-move_prefix_example =
    matches-move_prefix one_root (codes "/src") (codes "/lib") (codes "/lib/x") one_root-IsIndex
      (refl, tt)
