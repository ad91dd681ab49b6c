-- ===== src/Darwin/Calls.antt =====
-- internal/backend/backend_darwin.go: runs of the backend, by the calls of its user and the rounds of its
-- goroutine.
use go_gaze.Common.{
  ℕ, ◌≡◌, refl, sym, ◌∙◌, true, Option, none, some, List, [], ◌∷◌, Bytes, bytes_eq,
}
use go_gaze.Common.Assoc.{lookup, has, All-lookup}
use go_gaze.Errors.{Error}
use go_gaze.Env.{Target, BackendConfig}
use go_gaze.Linux.Keys.{enrolled_for, enrolled-has}
use go_gaze.Darwin.{Kqueue, Node, DarwinWatcher, new, remove, close}
use go_gaze.Darwin.Adding.{Disk, add}
use go_gaze.Darwin.Scanning.{Sent}
use go_gaze.Darwin.Handling.{Kevent, Answer, Round, handle, round}
use go_gaze.Darwin.Keys.{has_root}
use go_gaze.Darwin.Owned.{IsNamed, IsOwned, new-IsOwned, close-IsOwned}
use go_gaze.Darwin.Removing.{remove-IsOwned}
use go_gaze.Darwin.Added.{add-IsOwned}
use go_gaze.Darwin.Scanned.{Handled, handled}
use go_gaze.Darwin.Handled.{handle-Handled, RoundDone, round_done, round-RoundDone}

-- Each call has the file system that it finds. Kernel events stand alone too, since the goroutine's
-- rounds are not one critical section.
pub data Call : Type 0 where
  adds : Disk → Target → Call
  removes : Bytes → Call
  closes : Call
  handles : Disk → Kevent → Call
  rounds : Disk → Answer → List Error → Call

module _ {K : Type 0} where
  abbrev state_of : Option (Sent K) → Option (DarwinWatcher K)
  state_of none = none
  state_of (some (w, sent)) = some w

  abbrev left_by : Option (Round K) → Option (DarwinWatcher K)
  left_by none = none
  left_by (some r) = some r.state

  record Runs (r : Option (DarwinWatcher K)) : Type 0 where
    last : DarwinWatcher K
    same : r ≡ some last
    owned : IsOwned last

  state_of-Runs : (r : Option (Sent K)) → Handled r → Runs (state_of r)
  state_of-Runs _ (handled r h) = record { last = r.0; same = refl; owned = h }

  left_by-Runs : (r : Option (Round K)) → RoundDone r → Runs (left_by r)
  left_by-Runs _ (round_done r h) = record { last = r.state; same = refl; owned = h }

module _ {K : Type 0} (kqueue : Kqueue K) (cfg : BackendConfig) where
  unfoldable pub step : Call → DarwinWatcher K → Option (DarwinWatcher K)
  unfolding add remove close handle round
  step (adds disk target) w = some (add kqueue disk cfg target w).0
  step (removes path) w = some (remove kqueue path w).0
  step closes w = some (close kqueue w).0
  step (handles disk event) w = state_of (handle kqueue disk cfg event w)
  step (rounds disk answer errors) w = left_by (round kqueue disk cfg answer errors w)

  -- `none` is a panic.
  unfoldable pub run : List Call → DarwinWatcher K → Option (DarwinWatcher K)
  unfolding step
  run [] w = some w
  run (c ∷ calls) w = elim (step c w) [ none ↦ none | some w' ↦ run calls w' ]

  step-Runs : (c : Call) (w : DarwinWatcher K) → IsOwned w → Runs (step c w)
  unfolding step
  step-Runs (adds disk target) w h = record {
    last = _;
    same = refl;
    owned = add-IsOwned kqueue disk cfg target w h;
  }
  step-Runs (removes path) w h = record {
    last = _;
    same = refl;
    owned = remove-IsOwned kqueue path w h;
  }
  step-Runs closes w h = record { last = _; same = refl; owned = close-IsOwned kqueue w h }
  step-Runs (handles disk event) w h =
      state_of-Runs (handle kqueue disk cfg event w) (handle-Handled kqueue disk cfg event w h)
  step-Runs (rounds disk answer errors) w h =
      left_by-Runs (round kqueue disk cfg answer errors w)
        (round-RoundDone kqueue disk cfg answer errors w h)

  run-Runs : (calls : List Call) (w : DarwinWatcher K) → IsOwned w → Runs (run calls w)
  unfolding run
  run-Runs [] w h = record { last = w; same = refl; owned = h }
  run-Runs (c ∷ calls) w h =
      let first = step-Runs c w h in
      let rest = run-Runs calls first.last first.owned in
      record { last = rest.last; same = rw (first.same, run) rest.same; owned = rest.owned }

  -- From a new backend, whatever calls, kernel events and rounds follow, in any order, and whatever the
  -- system calls and the file system answer: no rename meets a path without a node or a root without
  -- a set, so nothing panics, and in the end each watched node knows its path, and each of its roots
  -- is a current root and has the path in its set.
  pub nodes_have_roots :
      (kernel : K) (kq : ℕ) (calls : List Call)
      → (w : DarwinWatcher K) × (run calls (new kernel kq) ≡ some w)
        × ((path : Bytes) (node : Node)
            → lookup path w.watched ≡ some node
            → (node.path ≡ path)
              × ((root : Bytes)
                  → has_root root node.roots ≡ true
                  → (has root w.roots ≡ true) × (enrolled_for root path w.root_nodes ≡ true)))
  nodes_have_roots kernel kq calls =
      let r = run-Runs calls (new kernel kq) (new-IsOwned kernel kq) in
      (
        r.last,
        r.same,
        λ path node e. (
          All-lookup IsNamed path r.last.watched node r.owned.named e,
          λ root m.
              let o = r.owned.owned path node root e m in
              (sym (r.owned.keys root) ∙ enrolled-has root path r.last.root_nodes o, o),
        ),
      )
