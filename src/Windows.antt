-- ===== src/Windows.antt =====
-- internal/backend/backend_windows.go: New, Add, Remove, Close and closeWindowsHandle. The system
-- calls are a parameter with a state of its own; an error that is wrapped counts as itself. The
-- parsing of the buffer is in Windows/Reading, what runRoot does in Windows/Changes.
pub mod Reading
pub mod Parsed
pub mod Ending
pub mod Changes
pub mod Pairing
mod Tests
use go_gaze.Common.{
  ℕ, Bool, true, false, ◌||◌, not, Option, none, some, List, [], ◌∷◌, ◌++◌, Bytes, ◌==◌, nat_eq,
  bytes_eq, if◌then◌else◌,
}
use go_gaze.Common.Assoc.{Map, lookup, delete, insert, has}
use go_gaze.Errors.{Error, os_error, os_closed, os_not_exist, Result, ok, err}
use go_gaze.Env.{Target}

-- windows.UTF16PtrFromString and the calls on handles.
pub record System (K : Type 0) : Type 0 where
  pub utf16_ptr : Bytes → Result (List ℕ)
  pub create_file : List ℕ → K → K × Result ℕ
  pub cancel_io_ex : ℕ → K → K × Option Error
  pub cancel_io : ℕ → K → K × Option Error
  pub close_handle : ℕ → K → K × Option Error

-- windowsRoot; its channel says that its goroutine has started, which Add waits for.
pub record WindowsRoot : Type 0 where
  pub target : Target
  pub handle : ℕ

-- windowsWatcher, without its channels. `started` is what the wait group counts, with the roots of
-- goroutines that have ended since.
pub record WindowsWatcher (K : Type 0) : Type 0 where
  pub kernel : K
  pub closed : Bool
  pub roots : Map Bytes WindowsRoot
  pub started : List WindowsRoot

-- windows.ERROR_INVALID_HANDLE
abbrev pub invalid_handle : ℕ
invalid_handle = 6

-- windows.ERROR_OPERATION_ABORTED
abbrev pub operation_aborted : ℕ
operation_aborted = 995

-- windows.ERROR_NOT_FOUND
abbrev pub not_found : ℕ
not_found = 1168

-- errors.Is for an error of the system.
unfoldable pub is_os_error : ℕ → Error → Bool
is_os_error n (os_error m) = m == n
is_os_error n _ = false

-- New
unfoldable pub new : {K : Type 0} → K → WindowsWatcher K
new kernel = record { kernel = kernel; closed = false; roots = []; started = [] }

module _ {K : Type 0} where
  abbrev opened : Target → WindowsWatcher K → K × Result ℕ → WindowsWatcher K × Option Error
  opened target w (kernel, err e) = (record w { kernel = kernel }, some e)
  opened target w (kernel, ok handle) =
      let root : WindowsRoot = record { target = target; handle = handle } in
      (
        record w {
          kernel = kernel;
          roots = insert target.path root w.roots;
          started = w.started ++ root ∷ [];
        },
        none,
      )

module _ {K : Type 0} (system : System K) where
  abbrev open_root : Target → WindowsWatcher K → Result (List ℕ) → WindowsWatcher K × Option Error
  open_root target w (err e) = (w, some e)
  open_root target w (ok ptr) = opened target w (system.create_file ptr w.kernel)

  -- Add
  unfoldable pub add : Target → WindowsWatcher K → WindowsWatcher K × Option Error
  add target w =
      if w.closed
      then (w, some os_closed)
      else if has target.path w.roots
      then (w, none)
      else open_root target w (system.utf16_ptr target.watch_path)

  abbrev cancelled : ℕ → K × Option Error → K
  cancelled handle (kernel, none) = kernel
  cancelled handle (kernel, some e) =
      if is_os_error not_found e || is_os_error invalid_handle e
      then kernel
      else (system.cancel_io handle kernel).0

  -- closeWindowsHandle
  unfoldable pub close_windows_handle : ℕ → K → K × Option Error
  unfolding is_os_error
  close_windows_handle handle kernel =
      system.close_handle handle (cancelled handle (system.cancel_io_ex handle kernel))

  abbrev remove_root :
      Bytes → WindowsWatcher K → Option WindowsRoot → WindowsWatcher K × Option Error
  remove_root path w none = (w, some os_not_exist)
  remove_root path w (some root) =
      let (kernel, answer) = close_windows_handle root.handle w.kernel in
      (record w { kernel = kernel; roots = delete path w.roots }, answer)

  -- Remove
  unfoldable pub remove : Bytes → WindowsWatcher K → WindowsWatcher K × Option Error
  unfolding close_windows_handle
  remove path w = remove_root path w (lookup path w.roots)

  -- The loop of Close, which ignores the errors.
  unfoldable pub close_all : Map Bytes WindowsRoot → K → K
  unfolding close_windows_handle
  close_all [] kernel = kernel
  close_all ((path, root) ∷ rest) kernel =
      close_all rest (close_windows_handle root.handle kernel).0

  -- Close up to the wait for its goroutines.
  unfoldable pub close : WindowsWatcher K → WindowsWatcher K × Option Error
  unfolding close_all
  close w =
      if w.closed
      then (w, none)
      else (record w { closed = true; roots = []; kernel = close_all w.roots w.kernel }, none)
