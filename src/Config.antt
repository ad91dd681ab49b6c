-- ===== src/Config.antt =====
-- types.go (Config, RecursionMode), config.go and pickConfig of watcher.go. A handler is a function
-- that may panic: it returns the value of the panic, or `none`. A logger is known by a number.
pub mod Resolving
mod Tests
use Prim.Native.Nat.{bit_or}
use go_gaze.Common.{
  ℕ, Bool, true, false, Option, none, some, List, [], ◌∷◌, Bytes, ◌==◌, nat_eq, if◌then◌else◌,
}
use go_gaze.Common.Int.{ℤ, pos, negsuc, leb_ℤ}
use go_gaze.Errors.{Error, too_many_configs, Result, ok, err}
use go_gaze.Ops.{Op, op_overflow, all_ops, Event, PathInfo}

-- RecursionMode is a uint8.
abbrev pub RecursionMode : Type 0
RecursionMode = ℕ

abbrev pub recursion_default : RecursionMode
recursion_default = 0

abbrev pub recursion_disabled : RecursionMode
recursion_disabled = 1

abbrev pub recursion_enabled : RecursionMode
recursion_enabled = 2

abbrev pub Panic : Type 0
Panic = Option Bytes

pub record Config : Type 0 where
  pub recursion : RecursionMode
  pub exclude_globs : List Bytes
  pub exclude_prefixes : List Bytes
  pub exclude : Option (PathInfo → Bool)
  pub on_event : Option (Event → Panic)
  pub on_error : Option (Error → Panic)
  pub logger : Option ℕ
  pub ops : Op
  pub queue_capacity : ℤ
  pub follow_symlinks : Bool

-- Config{}
abbrev pub zero_config : Config
zero_config = record {
  recursion = recursion_default;
  exclude_globs = [];
  exclude_prefixes = [];
  exclude = none;
  on_event = none;
  on_error = none;
  logger = none;
  ops = 0;
  queue_capacity = pos 0;
  follow_symlinks = false;
}

-- defaultConfig, with the logger that slog.Default() returns.
unfoldable pub default_config : ℕ → Config
default_config slog_default = record zero_config {
  logger = some slog_default;
  ops = all_ops;
  queue_capacity = pos 1024;
}

-- The three corrections of resolveConfig.
unfoldable pub resolve_ops : Op → Op
resolve_ops ops = if ops == 0 then all_ops else bit_or ops op_overflow

unfoldable pub resolve_capacity : ℕ → ℤ → ℤ
unfolding default_config
resolve_capacity slog_default capacity =
    if leb_ℤ capacity 0 then (default_config slog_default).queue_capacity else capacity

abbrev pub or_logger : Option ℕ → Option ℕ → Option ℕ
or_logger none default = default
or_logger (some logger) default = some logger

unfoldable pub resolve_logger : ℕ → Option ℕ → Option ℕ
unfolding default_config
resolve_logger slog_default logger = or_logger logger (default_config slog_default).logger

-- resolveConfig: every field of the default is replaced by that of the override, then corrected.
unfoldable pub resolve_config : ℕ → Config → Config
unfolding default_config resolve_ops resolve_capacity resolve_logger
resolve_config slog_default override = record (default_config slog_default) {
  recursion = override.recursion;
  exclude_globs = override.exclude_globs;
  exclude_prefixes = override.exclude_prefixes;
  exclude = override.exclude;
  on_event = override.on_event;
  on_error = override.on_error;
  logger = resolve_logger slog_default override.logger;
  ops = resolve_ops override.ops;
  queue_capacity = resolve_capacity slog_default override.queue_capacity;
  follow_symlinks = override.follow_symlinks;
}

-- recursiveEnabled
unfoldable pub recursive_enabled : Config → Bool → Bool
recursive_enabled cfg default_value =
    if cfg.recursion == recursion_enabled
    then true
    else if cfg.recursion == recursion_disabled
    then false
    else if cfg.recursion == recursion_default
    then default_value
    else default_value

-- pickConfig
unfoldable pub pick_config : List Config → Result Config
pick_config [] = ok zero_config
pick_config (cfg ∷ []) = ok cfg
pick_config (_ ∷ _ ∷ _) = err too_many_configs
