-- ===== src/Linux/Driver.antt =====
-- The Linux backend as a backend of the watcher: internal/backend/backend_linux.go behind the
-- interface of internal/backend/backend.go. The file system `files` and the answers of
-- unix.InotifyInit1 and unix.Close are fixed, and the backend's goroutine does not run here:
-- what is stated over this driver concerns one event and the calls right after it.
use go_gaze.Common.{Option}
use go_gaze.Errors.{Error, Result, ok, ◌>>=◌}
use go_gaze.Env.{BackendConfig, Driver}
use go_gaze.Linux.{Inotify, LinuxWatcher, remove}
use go_gaze.Linux.Walking.{Files}
use go_gaze.Linux.Adding.{new, add, close}

module _ {K : Type 0} (inotify : Inotify K) (files : Files) (init : Result K)
    (closing : Option Error) where
  -- New, Add, Remove and Close. The configuration stays with the backend; `init` is the answer of unix.InotifyInit1, `closing`
  -- that of unix.Close.
  abbrev pub linux_driver : Driver (BackendConfig × LinuxWatcher K)
  linux_driver = record {
    new = λ cfg. init >>= λ kernel. ok (cfg, new kernel);
    add = λ target d. let (w, e) = add inotify files d.0 target d.1 in ((d.0, w), e);
    remove = λ path d. let (w, e) = remove inotify path d.1 in ((d.0, w), e);
    close = λ d. let (w, e) = close closing d.1 in ((d.0, w), e);
  }
