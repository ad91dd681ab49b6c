-- ===== src/FilePath/Tests.antt =====
-- Runs of the functions of internal/utils/path.go, and instances of their theorems.
use go_gaze.Common.{codes, ◌≡◌, ◌↔◌, ◌⊎◌, refl, inr, true, false, ◌∷◌, ◌++◌, [], Bytes, arith}
use go_gaze.FilePath.{separator, has_path_prefix, join_moved_path, parent_dir}
use go_gaze.FilePath.Prefix.{has_path_prefix_iff, join_moved_path_roundtrip, has_path_prefix-root}

abbrev file : Bytes
file = codes "/src/a.go"

abbrev src : Bytes
src = codes "/src"

prefix_run : has_path_prefix file src ≡ true
unfolding has_path_prefix go_gaze.Common.bytes_beq
prefix_run = refl

sibling_run : has_path_prefix (codes "/srcs/a.go") src ≡ false
unfolding has_path_prefix go_gaze.Common.bytes_beq
sibling_run = refl

parent_run : parent_dir file ≡ src
unfolding parent_dir
parent_run = refl

move_run : join_moved_path file src (codes "/lib") ≡ codes "/lib/a.go"
unfolding join_moved_path go_gaze.Common.bytes_beq
move_run = refl

has_path_prefix_example :
    (has_path_prefix file src ≡ true)
    ↔ ((file ≡ src) ⊎ ((rest : Bytes) × (file ≡ src ++ separator ∷ rest)))
has_path_prefix_example = has_path_prefix_iff file src

join_moved_path_example :
    (has_path_prefix (join_moved_path file src (codes "/lib")) (codes "/lib") ≡ true)
    × (join_moved_path (join_moved_path file src (codes "/lib")) (codes "/lib") src ≡ file)
join_moved_path_example = join_moved_path_roundtrip file src (codes "/lib") prefix_run

root_example : has_path_prefix (codes "/src") (codes "/") ≡ false
root_example = has_path_prefix-root 115 (codes "rc") (λ e. ground (arith, e))
