-- ===== src/Env.antt =====
-- What the watcher uses and does not implement: the file system, the working directory, the default
-- logger, filepath.Match; and the backend behind the interface of internal/backend/backend.go.
use go_gaze.Common.{ℕ, Bool, Option, Bytes}
use go_gaze.Errors.{Error, Result}

-- os.FileInfo, as far as the watcher reads it.
pub record FileInfo : Type 0 where
  pub is_symlink : Bool
  pub is_dir : Bool

pub record Env : Type 0 where
  pub slog_default : ℕ
  pub glob_match : Bytes → Bytes → Option Bool
  pub getwd : Result Bytes
  pub lstat : Bytes → Result FileInfo
  pub stat : Bytes → Result FileInfo
  pub eval_symlinks : Bytes → Result Bytes

-- backend.Target
pub record Target : Type 0 where
  pub path : Bytes
  pub watch_path : Bytes
  pub is_dir : Bool
  pub recursive : Bool

-- backend.Config
pub record BackendConfig : Type 0 where
  pub buffer_size : ℕ
  pub follow_symlinks : Bool
  pub should_exclude : Bytes → Bool → Bool

-- backend.New and the methods of backend.Watcher that change its state; an error is a value.
pub record Driver (D : Type 0) : Type 0 where
  pub new : BackendConfig → Result D
  pub add : Target → D → D × Option Error
  pub remove : Bytes → D → D × Option Error
  pub close : D → D × Option Error
