-- ===== src/Config/Tests.antt =====
-- Runs of resolveConfig of config.go, and instances of its theorems.
use go_gaze.Common.{◌≡◌, refl}
use go_gaze.Common.Int.{pos, negsuc}
use go_gaze.Ops.{op_write}
use go_gaze.Config.{Config, zero_config, resolve_config}
use go_gaze.Config.Resolving.{IsResolved, resolve_config-IsResolved}

abbrev writes_only : Config
writes_only = record zero_config { ops = op_write; queue_capacity = negsuc 4 }

capacity_run : (resolve_config 7 writes_only).queue_capacity ≡ pos 1024
unfolding resolve_config
capacity_run = refl

resolve_config_example :
    IsResolved 7 writes_only (resolve_config 7 writes_only)
    × (resolve_config 7 (resolve_config 7 writes_only) ≡ resolve_config 7 writes_only)
resolve_config_example = resolve_config-IsResolved 7 writes_only
