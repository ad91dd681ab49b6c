-- ===== src/Lib.antt =====
-- Verification of go-gaze, a recursive file watcher for Go.
--
-- The program. A Watcher (watcher.go) has a configuration (config.go, types.go), a filter of excluded
-- paths (internal/filter), an index of its roots (internal/tree), a bounded queue of events
-- (internal/queue) and a backend of the operating system (internal/backend). Add and Remove change
-- the index and call the backend. One goroutine, runBackend, takes the events of the backend, lets
-- the index follow renames, asks the index and the filter, and pushes what remains on the queue; a
-- second one, runEvents, pops events and calls the user's handler. Close closes the backend, which
-- closes its channels; runBackend then closes the queue, runEvents drains it, and Close returns.
--
-- The files.
--   FilePath       internal/utils/path.go: HasPathPrefix, JoinMovedPath, ParentDir
--   Tree           internal/tree/index.go: Root, Index, Add, Remove, MovePrefix, Matches, rebuild
--   Queue          internal/queue/queue.go: New, Push, Pop, Close; Queue/Steps: their interleavings
--   Filter         internal/filter/matcher.go, slash_unix.go: New, ShouldExclude, cleanFast, baseFast
--   Ops            types.go: Op, Has, String, Event, PathInfo; the same masks of
--                  internal/backend/backend.go
--   Config         config.go, and Config, RecursionMode of types.go, pickConfig of watcher.go
--   Errors         the errors of the program, and results that may be one
--   GoPath         filepath.Clean, Join, Dir and strings.TrimSpace, as far as the program uses them
--   Env            what the watcher is given: the file system, filepath.Match, and the interface of
--                  internal/backend/backend.go
--   Watcher        watcher.go: the constructors, Add, Remove, Close, prepareTarget
--   Watcher/Events watcher.go: handleBackendEvent, emitError, dispatchEvent, dispatchError
--   Watcher/Life   watcher.go: runBackend and runEvents as a step relation
--   Linux          internal/backend/backend_linux.go: addDir, Remove, removeWatchedPrefix,
--                  renameWatchedPrefix, dropWatch, takeRename
--   Linux/Walking  internal/backend/helpers.go: walkPath
--   Linux/Adding   backend_linux.go: New, Add, Close, addRecursiveDirIfNeeded
--   Linux/Handling backend_linux.go: handle, flushPending
--   Linux/Reading  backend_linux.go: the parsing of the buffer in run, trimNull
--   Linux/Polling  backend_linux.go: a round of run's loop, emitError
--   Linux/Calls    runs of the Linux backend, by its calls and the rounds of its goroutine
--   Linux/Driver   the Linux backend behind the interface of internal/backend/backend.go, with a
--                  fixed file system and without its goroutine; Linux/Renamed: one rename that a
--                  watcher over it handles, and the call of Remove after it
--   Windows        internal/backend/backend_windows.go: New, Add, Remove, Close, closeWindowsHandle
--   Windows/Reading, Windows/Changes
--                  backend_windows.go: the parsing of the buffer in runRoot, the events of its
--                  entries, a round of runRoot's loop, probeDir
--   Darwin         internal/backend/backend_darwin.go: New, Remove, Close, unregisterLocked,
--                  renamePath, renamePrefix, removePathIfWatched, removePrefixIfWatched
--   Darwin/Adding  backend_darwin.go: Add, enrollDirectoryTarget, addPath, readDirSnapshot
--   Darwin/Scanning
--                  backend_darwin.go: rescanDir, the renames, removals and creations of its diffs
--   Darwin/Handling
--                  backend_darwin.go: handle, a round of run's loop, emitError
--   Darwin/Calls   runs of the Darwin backend, by its calls and the rounds of its goroutine
--   Common         shared names, Boolean tests, association lists, integers, bit operations
-- Child modules hold the proofs, and a child module Tests the runs at concrete inputs.
--
-- The correspondence. A string is the list of its bytes. A method on a pointer takes the state and
-- returns the new one; a lock makes each method of the index one step. A Go map is an association
-- list, whose order stands for any order in which Go may range over the map. An int is ℤ, an Op, a
-- uint32 on which the program uses only bit operations, is a natural number. A blocked select is the
-- result `none`; where two cases are ready the choice is an argument. A panic of a handler is a value
-- that the handler returns. The separator is '/', as on every system but Windows.
--
-- Bounds and fuel. The loop of Matches runs on fuel, with two more than the length of the path, since
-- each step but the last shortens the path. The loops over the buffers of the Linux and the Windows
-- backend have the length of the buffer as fuel, since each round that goes on takes at least one
-- byte. All other loops are structural.
--
-- The backends. The file system, inotify, kqueue and the system calls of Windows, with states of their
-- own where they have one, and the clock are arguments, and no theorem assumes anything of what they
-- answer. The file system does not change during one call of a backend, and in a run of a watcher over
-- an arbitrary backend the file system that the watcher itself asks gives the same answers to every
-- call. A method that sends events returns them in order. The words of the buffers are little-endian. The errors channel is its buffer of 64 errors.
--
-- Parameters. filepath.Match, os.Lstat, os.Stat, filepath.EvalSymlinks, os.Getwd, slog.Default and
-- the backend are arguments, and no theorem assumes anything of them. The user's handlers and
-- Config.Exclude are arguments too; a handler returns or panics and does not call the watcher.
--
-- Not modelled: a send on a full events channel of a backend, which waits; two methods of a backend
-- that overlap, of which each takes the mutex several times; the pools of maps of the Darwin backend;
-- the stub backend, one function that fails; example/ and types/, which hold no logic; scripts/ and
-- docs/, which are no part of the library. Calls of Add, Remove and Close are each one step, so two
-- that overlap are taken one after the other.
pub mod Common
pub mod FilePath
pub mod Tree
pub mod Ops
pub mod Queue
pub mod Errors
pub mod GoPath
pub mod Filter
pub mod Config
pub mod Env
pub mod Watcher
pub mod Linux
pub mod Windows
pub mod Darwin
