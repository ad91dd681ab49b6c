-- ===== src/Watcher/Life/Order.antt =====
-- watcher.go: what every interleaving of a watcher's goroutines and its users keeps.
use go_gaze.Common.{◌≡◌, refl, sym, ◌∙◌, ap, true, [], ◌++◌, arith}
use mathlib.Core.List.{append-nil}
use go_gaze.Ops.{Event}
use go_gaze.Queue
use go_gaze.Queue.{Queue, push, pop, store_closed, close_done}
use go_gaze.Common.Int.{ℤ}
use go_gaze.Config.{Config}
use go_gaze.Env.{Env, Driver}
use go_gaze.Watcher.{Watcher}
use go_gaze.Watcher.Events.{handle_backend_event}
use go_gaze.Watcher.Life.Kept.{Kept, add-Kept, remove-Kept, close-Kept}
use go_gaze.Watcher.Life.{
  ended, waiting, Life, start, Step, adds_path, removes_path, closes, receives, pushes, reports,
  events_closed, errors_closed, leaves, marks, pops, returns, Reach, here, next,
}
use go_gaze.Watcher.Life.Live.{
  is_marked, is_ended, dispatch_all, IsLive, in_order-selecting, start-IsLive, called-IsLive,
  received-IsLive, pushed-IsLive, popped-IsLive, returned-IsLive,
}

module _ {D : Type 0} (env : Env) (drv : Driver D) where
  handle-Kept : (evt : Event) (w : Watcher D) → Kept w (handle_backend_event env evt w).0
  unfolding handle_backend_event
  handle-Kept evt w = record { queue = refl; cfg = refl }

  pub Step-IsLive : {cfg : Config} {l m : Life D} → Step env drv l m → IsLive cfg l → IsLive cfg m
  unfolding store_closed close_done
  Step-IsLive (adds_path path) h = called-IsLive _ _ (add-Kept env drv path _) h
  Step-IsLive (removes_path path) h = called-IsLive _ _ (remove-Kept env drv path _) h
  Step-IsLive closes h = called-IsLive _ _ (close-Kept env drv _) h
  Step-IsLive {l} (receives evt p o) h = received-IsLive l h _ _ (handle-Kept evt l.watcher) p
  Step-IsLive {l} (pushes first pushed evt q p e) h = pushed-IsLive l h first pushed evt q p e
  Step-IsLive {l} (reports e p o) h = record {
    same_cfg = h.same_cfg;
    in_order = h.in_order;
    acted = h.acted;
    marked = h.marked;
    finished = h.finished;
    drained = h.drained;
    has_room = h.has_room;
  }
  Step-IsLive {l} (events_closed p) h = record {
    same_cfg = h.same_cfg;
    in_order = h.in_order;
    acted = h.acted;
    marked = h.marked;
    finished = h.finished;
    drained = h.drained;
    has_room = h.has_room;
  }
  Step-IsLive {l} (errors_closed p) h = record {
    same_cfg = h.same_cfg;
    in_order = h.in_order;
    acted = h.acted;
    marked = h.marked;
    finished = h.finished;
    drained = h.drained;
    has_room = h.has_room;
  }
  Step-IsLive {l} (leaves p eo ro) h = record {
    same_cfg = h.same_cfg;
    in_order = in_order-selecting l h p ∙ ap (λ items. l.dispatched ++ items) (sym (append-nil _));
    acted = h.acted;
    marked = refl;
    finished = h.finished ∙ ap is_ended p;
    drained = λ d. ground (arith, h.drained, p);
    has_room = h.has_room;
  }
  Step-IsLive {l} (marks p) h = record {
    same_cfg = h.same_cfg;
    in_order = h.in_order ∙ ap (λ q. l.dispatched ++ (l.watcher.queue.items ++ waiting q)) p;
    acted = h.acted;
    marked = h.marked ∙ ap is_marked p;
    finished = refl;
    drained = λ d. ground (arith, h.drained, p);
    has_room = h.has_room;
  }
  Step-IsLive {l} (pops first evt q o e) h = popped-IsLive l h first evt q o e
  Step-IsLive {l} (returns first q o e) h = returned-IsLive l h first q e

  pub Reach-IsLive : {cfg : Config} {l m : Life D} → Reach env drv l m → IsLive cfg l → IsLive cfg m
  Reach-IsLive here h = h
  Reach-IsLive (next r s) h = Step-IsLive s (Reach-IsLive r h)

  -- From the start of a watcher with a new queue, however the goroutines and the users' calls
  -- interleave, the events that were admitted are those
  -- dispatched, then those in the buffer, then the one that waits for its Push: none is lost,
  -- doubled or overtaken. The effects of runEvents are those of dispatching them in that order.
  pub events_in_order :
      (w : Watcher D) (n : ℤ) (l : Life D)
      → w.queue ≡ Queue.new n
      → Reach env drv (start w) l
      → (l.admitted ≡ l.dispatched ++ (l.watcher.queue.items ++ waiting l.phase))
        × (l.effects ≡ dispatch_all w.cfg l.dispatched)
  events_in_order w n l e r = let h = Reach-IsLive r (start-IsLive w n e) in (h.in_order, h.acted)

  -- From the start of a watcher with a new queue, when runEvents has returned, every admitted event has been dispatched, once and in order, and
  -- runBackend has closed the queue.
  pub done_dispatched :
      (w : Watcher D) (n : ℤ) (l : Life D)
      → w.queue ≡ Queue.new n
      → Reach env drv (start w) l
      → l.done ≡ true
      → (l.phase ≡ ended)
        × (l.dispatched ≡ l.admitted)
        × (l.effects ≡ dispatch_all w.cfg l.admitted)
  done_dispatched w n l e r d =
      let h = Reach-IsLive r (start-IsLive w n e) in
      let (items, p) = h.drained d in
      let same =
        h.in_order
        ∙ (ap (λ q. l.dispatched ++ (l.watcher.queue.items ++ waiting q)) p
            ∙ (ap (λ i. l.dispatched ++ (i ++ [])) items ∙ append-nil _)) in
      (p, sym same, h.acted ∙ ap (dispatch_all w.cfg) (sym same))
