-- ===== src/Watcher/Life/Live.antt =====
-- watcher.go: the invariant of a watcher's goroutines, and each kind of step on its own.
use go_gaze.Common.{
  ◌≤◌, ◌≡◌, refl, sym, ◌∙◌, ap, Bool, true, false, Option, none, some, List, [], ◌∷◌, ◌++◌, arith,
}
use mathlib.Core.List.{append_assoc, append-nil}
use go_gaze.Ops.{Event}
use go_gaze.Queue
use go_gaze.Queue.{Queue, push, pop, store_closed, close_done}
use go_gaze.Queue.Calls.{push_result, pop_result}
use go_gaze.Common.Int.{ℤ}
use go_gaze.Config.{Config}
use go_gaze.Watcher.{Watcher}
use go_gaze.Watcher.Events.{Effect, dispatch_event}
use go_gaze.Watcher.Life.Kept.{Kept}
use go_gaze.Watcher.Life.{
  Phase, selecting, marking, ended, pushing, phase_after, waiting, event_list, Life, start,
}

abbrev pub is_marked : Phase → Bool
is_marked marking = true
is_marked ended = true
is_marked _ = false

abbrev pub is_ended : Phase → Bool
is_ended ended = true
is_ended _ = false

is_ended_inv : (p : Phase) → is_ended p ≡ true → p ≡ ended
is_ended_inv selecting e = ground arith
is_ended_inv marking e = ground arith
is_ended_inv ended e = refl
is_ended_inv (pushing evt) e = ground arith

-- The effects of dispatching events one after another.
unfoldable pub dispatch_all : Config → List Event → List Effect
dispatch_all cfg [] = []
dispatch_all cfg (evt ∷ evts) = dispatch_event cfg evt ++ dispatch_all cfg evts

dispatch_all-snoc :
    (cfg : Config) (evts : List Event) (evt : Event)
    → dispatch_all cfg (evts ++ evt ∷ []) ≡ dispatch_all cfg evts ++ dispatch_event cfg evt
unfolding dispatch_all
dispatch_all-snoc cfg [] evt = append-nil _
dispatch_all-snoc cfg (e ∷ evts) evt =
    ap (λ l. dispatch_event cfg e ++ l) (dispatch_all-snoc cfg evts evt)
    ∙ sym (append_assoc (dispatch_event cfg e) (dispatch_all cfg evts) (dispatch_event cfg evt))

-- What every interleaving keeps: the admitted events are the dispatched ones, then those of the
-- buffer, then the one that waits for its Push.
pub record IsLive {D : Type 0} (cfg : Config) (l : Life D) : Type 0 where
  pub same_cfg : l.watcher.cfg ≡ cfg
  pub in_order : l.admitted ≡ l.dispatched ++ (l.watcher.queue.items ++ waiting l.phase)
  pub acted : l.effects ≡ dispatch_all cfg l.dispatched
  pub marked : l.watcher.queue.closed ≡ is_marked l.phase
  pub finished : l.watcher.queue.is_done ≡ is_ended l.phase
  pub drained : l.done ≡ true → (l.watcher.queue.items ≡ []) × (l.phase ≡ ended)
  pub has_room : 1 ≤ l.watcher.queue.cap

pub start-IsLive :
    {D : Type 0} (w : Watcher D) (n : ℤ) → w.queue ≡ Queue.new n → IsLive w.cfg (start w)
unfolding Queue.new Queue.capacity_of dispatch_all
start-IsLive w n e = record {
  same_cfg = refl;
  in_order = rw e refl;
  acted = refl;
  marked = rw e refl;
  finished = rw e refl;
  drained = λ d. ground arith;
  has_room = rw e ground arith;
}

-- A call that leaves the queue and the configuration alone.
pub called-IsLive :
    {D : Type 0} {cfg : Config} (l : Life D) (w : Watcher D)
    → Kept l.watcher w
    → IsLive cfg l
    → IsLive cfg (record l { watcher = w })
called-IsLive l w k h = record {
  same_cfg = k.cfg ∙ h.same_cfg;
  in_order = rw k.queue h.in_order;
  acted = h.acted;
  marked = rw k.queue h.marked;
  finished = rw k.queue h.finished;
  drained = rw k.queue h.drained;
  has_room = rw k.queue h.has_room;
}

module _ {D : Type 0} {cfg : Config} (l : Life D) (h : IsLive cfg l) where
  -- At the select no event waits.
  pub in_order-selecting : l.phase ≡ selecting → l.admitted ≡ l.dispatched ++ l.watcher.queue.items
  in_order-selecting p =
      h.in_order
      ∙ (ap (λ q. l.dispatched ++ (l.watcher.queue.items ++ waiting q)) p
          ∙ ap (λ items. l.dispatched ++ items) (append-nil _))

  in_order-received :
      (answer : Option Event)
      → l.phase ≡ selecting
      → l.admitted ++ event_list answer
        ≡ l.dispatched ++ (l.watcher.queue.items ++ waiting (phase_after answer))
  in_order-received none p =
      append-nil _
      ∙ (in_order-selecting p ∙ ap (λ items. l.dispatched ++ items) (sym (append-nil _)))
  in_order-received (some evt) p =
      ap (λ evts. evts ++ evt ∷ []) (in_order-selecting p) ∙ append_assoc l.dispatched _ _

  phase_after-open :
      (answer : Option Event)
      → (is_marked (phase_after answer) ≡ false) × (is_ended (phase_after answer) ≡ false)
  phase_after-open none = (refl, refl)
  phase_after-open (some evt) = (refl, refl)

  -- handleBackendEvent, with its Push still to come.
  pub received-IsLive :
      (w : Watcher D) (answer : Option Event)
      → Kept l.watcher w
      → l.phase ≡ selecting
      → IsLive cfg (record l {
        watcher = w;
        phase = phase_after answer;
        admitted = l.admitted ++ event_list answer;
      })
  received-IsLive w answer k p = record {
    same_cfg = k.cfg ∙ h.same_cfg;
    in_order = rw k.queue (in_order-received answer p);
    acted = h.acted;
    marked = rw k.queue (h.marked ∙ (ap is_marked p ∙ sym (phase_after-open answer).0));
    finished = rw k.queue (h.finished ∙ (ap is_ended p ∙ sym (phase_after-open answer).1));
    drained = λ d. ground (arith, h.drained, p);
    has_room = rw k.queue h.has_room;
  }

  pub pushed-IsLive :
      (first pushed : Bool) (evt : Event) (q : Queue Event)
      → l.phase ≡ pushing evt
      → push first evt l.watcher.queue ≡ some (q, pushed)
      → IsLive cfg (record l { watcher = record l.watcher { queue = q }; phase = selecting })
  pushed-IsLive first true evt q p e =
      let (same, room) = push_result first evt l.watcher.queue e in
      record {
        same_cfg = h.same_cfg;
        in_order =
            h.in_order
            ∙ rw same (
                ap (λ r. l.dispatched ++ (l.watcher.queue.items ++ waiting r)) p
                ∙ ap (λ items. l.dispatched ++ items) (sym (append-nil _)));
        acted = h.acted;
        marked = rw same (h.marked ∙ ap is_marked p);
        finished = rw same (h.finished ∙ ap is_ended p);
        drained = λ d. ground (arith, h.drained, p);
        has_room = rw same h.has_room;
      }
  pushed-IsLive first false evt q p e =
      let (same, shut) = push_result first evt l.watcher.queue e in
      absurd (ground (arith, shut, h.marked ∙ ap is_marked p, h.finished ∙ ap is_ended p))

  pub popped-IsLive :
      (first : Bool) (evt : Event) (q : Queue Event)
      → l.done ≡ false
      → pop first l.watcher.queue ≡ some (q, some evt)
      → IsLive cfg (record l {
        watcher = record l.watcher { queue = q };
        dispatched = l.dispatched ++ evt ∷ [];
        effects = l.effects ++ dispatch_event l.watcher.cfg evt;
      })
  popped-IsLive first evt q o e =
      let (items, same) = pop_result first l.watcher.queue e in
      record {
        same_cfg = h.same_cfg;
        in_order =
            h.in_order
            ∙ (ap (λ r. l.dispatched ++ (r ++ waiting l.phase)) items
                ∙ sym (append_assoc l.dispatched (evt ∷ []) _));
        acted =
            ap (λ fx. fx ++ dispatch_event l.watcher.cfg evt) h.acted
            ∙ (ap (λ c. dispatch_all cfg l.dispatched ++ dispatch_event c evt) h.same_cfg
                ∙ sym (dispatch_all-snoc cfg l.dispatched evt));
        marked = rw same h.marked;
        finished = rw same h.finished;
        drained = λ d. ground arith;
        has_room = rw same h.has_room;
      }

  pub returned-IsLive :
      (first : Bool) (q : Queue Event)
      → pop first l.watcher.queue ≡ some (q, none)
      → IsLive cfg (record l { watcher = record l.watcher { queue = q }; done = true })
  returned-IsLive first q e =
      let (same, empty, done) = pop_result first l.watcher.queue e in
      record {
        same_cfg = h.same_cfg;
        in_order = rw same h.in_order;
        acted = h.acted;
        marked = rw same h.marked;
        finished = rw same h.finished;
        drained = λ d. (rw same empty, is_ended_inv l.phase (sym h.finished ∙ done));
        has_room = rw same h.has_room;
      }
