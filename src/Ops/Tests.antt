-- ===== src/Ops/Tests.antt =====
-- Runs of Op.String of types.go, and instances of its theorems.
use mathlib.Core.Option
use go_gaze.Common.{◌≡◌, ◌%◌, refl, some, codes}
use go_gaze.Ops.{op_string}
use go_gaze.Ops.Labels.{describe, mask_of, op_string-eq-describe, op_string-mask_of}

label_run : op_string 9 ≡ some (codes "create|rename")
unfolding op_string
label_run = refl

op_string_example : op_string 73 ≡ some (describe 73)
op_string_example = op_string-eq-describe 73

mask_example : Option.map mask_of (op_string 73) ≡ some (73 % 64)
mask_example = op_string-mask_of 73
