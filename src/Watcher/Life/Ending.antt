-- ===== src/Watcher/Life/Ending.antt =====
-- watcher.go: the goroutines of a watcher can always come to their end, by which Close waits.
use go_gaze.Common.{
  ◌≤◌, ◌≡◌, refl, ◌∙◌, ap, true, false, Bool-cases, inl, inr, none, some, List, [], ◌∷◌, arith,
}
use go_gaze.Common.Int.{ℤ}
use go_gaze.Ops.{Event}
use go_gaze.Queue
use go_gaze.Queue.{Queue, push, pop, store_closed, close_done}
use go_gaze.Config.{Config}
use go_gaze.Env.{Env, Driver}
use go_gaze.Watcher.{Watcher}
use go_gaze.Watcher.Life.{
  Phase, selecting, marking, ended, pushing, Life, start, Step, pushes, events_closed,
  errors_closed, leaves, marks, pops, returns, Reach, here, next,
}
use go_gaze.Watcher.Life.Live.{is_marked, is_ended, IsLive, start-IsLive}
use go_gaze.Watcher.Life.Order.{Step-IsLive, Reach-IsLive, done_dispatched}

pop-first :
    (q : Queue Event) (v : Event) (rest : List Event)
    → q.items ≡ v ∷ rest
    → pop true q ≡ some (record q { items = rest }, some v)
unfolding pop
pop-first q v rest e = ground arith

pop-last : (q : Queue Event) → q.items ≡ [] → q.is_done ≡ true → pop true q ≡ some (q, none)
unfolding pop
pop-last q e d = ground arith

push-free :
    (q : Queue Event) (v : Event)
    → q.items ≡ []
    → 1 ≤ q.cap
    → q.closed ≡ false
    → push true v q ≡ some (record q { items = v ∷ [] }, true)
unfolding push
push-free q v e c o = ground arith

module _ {D : Type 0} (env : Env) (drv : Driver D) where
  -- Steps from here lead to the end of both goroutines, with no other event admitted.
  pub record Ends (l : Life D) : Type 0 where
    pub last : Life D
    pub path : Reach env drv l last
    pub done : last.done ≡ true
    pub admitted : last.admitted ≡ l.admitted

  Reach-first : {l m n : Life D} → Step env drv l m → Reach env drv m n → Reach env drv l n
  Reach-first s here = next here s
  Reach-first s (next r t) = next (Reach-first s r) t

  Ends-first : {l m : Life D} → Step env drv l m → m.admitted ≡ l.admitted → Ends m → Ends l
  Ends-first s e r = record {
    last = r.last;
    path = Reach-first s r.path;
    done = r.done;
    admitted = r.admitted ∙ e;
  }

  Ends-here : (l : Life D) → l.done ≡ true → Ends l
  Ends-here l d = record { last = l; path = here; done = d; admitted = refl }

  -- runEvents takes what the buffer holds, and returns.
  ended-Ends :
      {cfg : Config} (items : List Event) (l : Life D)
      → l.watcher.queue.items ≡ items
      → l.phase ≡ ended
      → l.done ≡ false
      → IsLive cfg l
      → Ends l
  ended-Ends [] l e p d h =
      Ends-first (returns true l.watcher.queue d (pop-last _ e (h.finished ∙ ap is_ended p))) refl
        (Ends-here _ refl)
  ended-Ends (evt ∷ items) l e p d h =
      let s =
        pops true evt (record l.watcher.queue { items = items }) d (pop-first _ evt items e) in
      Ends-first s refl (ended-Ends items _ refl p d (Step-IsLive env drv s h))

  marking-Ends : {cfg : Config} (l : Life D) → l.phase ≡ marking → IsLive cfg l → Ends l
  unfolding close_done
  marking-Ends l p h = elim (Bool-cases l.done) [
    | inl d ↦ Ends-here l d
    | inr d ↦
        Ends-first (marks p) refl (ended-Ends _ _ refl refl d (Step-IsLive env drv (marks p) h))
  ]

  -- The backend closes its channels, and the loop of runBackend ends.
  selecting-Ends : {cfg : Config} (l : Life D) → l.phase ≡ selecting → IsLive cfg l → Ends l
  selecting-Ends l p h =
      let s1 : Step env drv l (record l { evt_open = false }) = events_closed p in
      let s2 : Step env drv (record l { evt_open = false })
          (record l { evt_open = false; err_open = false }) =
        errors_closed p in
      let h3 =
        Step-IsLive env drv (leaves p refl refl)
          (Step-IsLive env drv s2 (Step-IsLive env drv s1 h)) in
      Ends-first s1 refl
        (Ends-first s2 refl (Ends-first (leaves p refl refl) refl (marking-Ends _ refl h3)))

  -- A Push that finds the buffer full waits until runEvents has taken from it.
  pushing-Ends :
      {cfg : Config} (items : List Event) (l : Life D) (evt : Event)
      → l.watcher.queue.items ≡ items
      → l.phase ≡ pushing evt
      → l.done ≡ false
      → IsLive cfg l
      → Ends l
  pushing-Ends [] l evt e p d h =
      let s =
        pushes true true evt _ p
          (push-free l.watcher.queue evt e h.has_room (h.marked ∙ ap is_marked p)) in
      Ends-first s refl (selecting-Ends _ refl (Step-IsLive env drv s h))
  pushing-Ends (v ∷ items) l evt e p d h =
      let s = pops true v (record l.watcher.queue { items = items }) d (pop-first _ v items e) in
      Ends-first s refl (pushing-Ends items _ evt refl p d (Step-IsLive env drv s h))

  live-Ends :
      {cfg : Config} (phase : Phase) (l : Life D)
      → l.phase ≡ phase
      → l.done ≡ false
      → IsLive cfg l
      → Ends l
  live-Ends selecting l p d h = selecting-Ends l p h
  live-Ends marking l p d h = marking-Ends l p h
  live-Ends ended l p d h = ended-Ends _ l refl p d h
  live-Ends (pushing evt) l p d h = pushing-Ends _ l evt refl p d h

  Reach-append : {l m n : Life D} → Reach env drv l m → Reach env drv m n → Reach env drv l n
  Reach-append r here = r
  Reach-append r (next t s) = next (Reach-append r t) s

  -- From every state that a watcher with a new queue can reach from its start, also one where a Push waits for room, some sequence
  -- of steps leads to the end of both goroutines with no other event admitted; the events dispatched
  -- by then are those admitted before it, in order.
  pub goroutines_end :
      (w : Watcher D) (n : ℤ) (l : Life D)
      → w.queue ≡ Queue.new n
      → Reach env drv (start w) l
      → (m : Life D) × Reach env drv l m
        × (m.done ≡ true)
        × (m.phase ≡ ended)
        × (m.dispatched ≡ l.admitted)
  goroutines_end w n l e r = elim (Bool-cases l.done) [
    | inl d ↦ let (p, same, _) = done_dispatched env drv w n l e r d in (l, here, d, p, same)
    | inr d ↦
        let end = live-Ends _ l refl d (Reach-IsLive env drv r (start-IsLive w n e)) in
        let (p, same, _) =
          done_dispatched env drv w n end.last e (Reach-append r end.path) end.done in
        (end.last, end.path, end.done, p, same ∙ end.admitted)
  ]
