-- ===== src/Linux/Calls.antt =====
-- internal/backend/backend_linux.go: runs of the backend, by the calls of its user and the rounds of
-- its goroutine.
use go_gaze.Common.{
  ℕ, ◌≡◌, refl, sym, ◌∙◌, ap, true, Option, none, some, List, [], ◌∷◌, Bytes, bytes_eq,
}
use go_gaze.Common.Assoc.{lookup, has}
use go_gaze.Errors.{Error}
use go_gaze.Env.{Target, BackendConfig}
use go_gaze.Linux.{Inotify, Node, LinuxWatcher, remove}
use go_gaze.Linux.Keys.{enrolled_for, enrolled-has}
use go_gaze.Linux.Walking.{Files}
use go_gaze.Linux.Masks.{RawEvent}
use go_gaze.Linux.Adding.{new, close, add}
use go_gaze.Linux.Handling.{Sent, handle, flush_pending}
use go_gaze.Linux.Owned.{IsOwned}
use go_gaze.Linux.Owning.{remove-IsOwned}
use go_gaze.Linux.Added.{new-IsOwned, close-IsOwned, add-IsOwned}
use go_gaze.Linux.Polling.{InotifyError, Moment, Round, round}
use go_gaze.Linux.Rounds.{round-IsRound}
use go_gaze.Linux.Running.{Handled, handled, handle-Handled, flush_loop-IsOwned}

-- Each call has the file system that it finds. Kernel events and flushes stand alone too, since the goroutine's rounds are not one critical
-- section.
pub data Call : Type 0 where
  adds : Files → Target → Call
  removes : Bytes → Call
  closes : Option Error → Call
  handles : Files → ℕ → RawEvent → Call
  flushes : ℕ → Call
  rounds : Files → Moment → List InotifyError → Call

module _ {K : Type 0} (inotify : Inotify K) (cfg : BackendConfig) where
  abbrev state_of : Option (Sent K) → Option (LinuxWatcher K)
  state_of none = none
  state_of (some (w, sent)) = some w

  abbrev left_by : Option (Round K) → Option (LinuxWatcher K)
  left_by none = none
  left_by (some r) = some r.state

  unfoldable pub step : Call → LinuxWatcher K → Option (LinuxWatcher K)
  unfolding add remove close handle flush_pending round
  step (adds files target) w = some (add inotify files cfg target w).0
  step (removes path) w = some (remove inotify path w).0
  step (closes answer) w = some (close answer w).0
  step (handles files now raw) w = state_of (handle inotify files cfg now raw w)
  step (flushes cutoff) w = some (flush_pending inotify cutoff w).0
  step (rounds files moment errors) w = left_by (round inotify files cfg moment errors w)

  -- `none` is a panic.
  unfoldable pub run : List Call → LinuxWatcher K → Option (LinuxWatcher K)
  unfolding step
  run [] w = some w
  run (c ∷ calls) w = elim (step c w) [ none ↦ none | some w' ↦ run calls w' ]

  record Runs (r : Option (LinuxWatcher K)) : Type 0 where
    last : LinuxWatcher K
    same : r ≡ some last
    owned : IsOwned last

  state_of-Runs : (r : Option (Sent K)) → Handled r → Runs (state_of r)
  state_of-Runs _ (handled r h) = record { last = r.0; same = refl; owned = h }

  step-Runs : (c : Call) (w : LinuxWatcher K) → IsOwned w → Runs (step c w)
  unfolding step flush_pending
  step-Runs (adds files target) w h = record {
    last = _;
    same = refl;
    owned = add-IsOwned inotify files cfg target w h;
  }
  step-Runs (removes path) w h = record {
    last = _;
    same = refl;
    owned = remove-IsOwned inotify path w h;
  }
  step-Runs (closes answer) w h = record { last = _; same = refl; owned = close-IsOwned answer w h }
  step-Runs (handles files now raw) w h =
      state_of-Runs (handle inotify files cfg now raw w)
        (handle-Handled inotify files cfg now raw w h)
  step-Runs (flushes cutoff) w h = record {
    last = _;
    same = refl;
    owned = flush_loop-IsOwned inotify cutoff w.pending w h;
  }
  step-Runs (rounds files moment errors) w h =
      let r = round-IsRound inotify files cfg moment errors w h in
      record { last = r.last.state; same = ap left_by r.same; owned = r.owned }

  run-Runs : (calls : List Call) (w : LinuxWatcher K) → IsOwned w → Runs (run calls w)
  unfolding run
  run-Runs [] w h = record { last = w; same = refl; owned = h }
  run-Runs (c ∷ calls) w h =
      let first = step-Runs c w h in
      let rest = run-Runs calls first.last first.owned in
      record { last = rest.last; same = rw (first.same, run) rest.same; owned = rest.owned }

  -- From a new backend, whatever calls, kernel events, flushes and rounds follow, in any order, and
  -- whatever the kernel and the file system answer: renameWatchedPrefix meets no path without a node, and in
  -- the end every watched directory has a root for which it is watched, which is a current root and
  -- has the directory in its set.
  pub watched_for_root :
      (kernel : K) (calls : List Call)
      → (w : LinuxWatcher K) × (run calls (new kernel) ≡ some w)
        × ((path : Bytes) (node : Node)
            → lookup path w.watched ≡ some node
            → (root : Bytes) × (has root node.roots ≡ true)
              × (has root w.roots ≡ true)
              × (enrolled_for root path w.root_dirs ≡ true))
  watched_for_root kernel calls =
      let r = run-Runs calls (new kernel) (new-IsOwned kernel) in
      (
        r.last,
        r.same,
        λ path node e.
            let (root, m) = r.owned.used path node e in
            let o = r.owned.owned path node root e m in
            (root, m, sym (r.owned.keys root) ∙ enrolled-has root path r.last.root_dirs o, o),
      )
