-- ===== src/Queue/Steps.antt =====
-- internal/queue/queue.go: any number of goroutines in Push and Pop, and one in Close, step by step.
-- Each atomic action of the code is a step: the load of `closed`, each select, and the two actions
-- of Close. So a Push may pass its check before Close and reach its select after it.
use go_gaze.Common.{
  ℕ, suc, ◌≤◌, ◌≡◌, refl, sym, ◌∙◌, ap, true, false, none, some, List, [], ◌∷◌, ◌++◌, arith, length,
  length-append,
}
use go_gaze.Common.Int.{ℤ}
use mathlib.Core.List.{append_assoc}
use go_gaze.Queue.{Queue, new, send, receive, pop_drain, store_closed, close_done}

-- `checked` counts the Pushes between their check and their select, `draining` the Pops that found
-- `done` closed; `accepted` and `delivered` record the values in the order of their steps.
pub record System {ℓ} (A : Type ℓ) : Type ℓ where
  pub queue : Queue A
  pub checked : List A
  pub draining : ℕ
  pub accepted : List A
  pub delivered : List A

abbrev pub start {ℓ} : {A : Type ℓ} → ℤ → System A
start capacity = record {
  queue = new capacity;
  checked = [];
  draining = 0;
  accepted = [];
  delivered = [];
}

module _ {ℓ} {A : Type ℓ} where
  pub data Step (s : System A) : System A → Type ℓ where
    -- Push loads `closed`, finds it false and goes on to its select.
    check : (v : A) → s.queue.closed ≡ false → Step s (record s { checked = v ∷ s.checked })
    -- The select of a Push sends.
    push :
        (before after : List A) (v : A) (q : Queue A)
        → s.checked ≡ before ++ v ∷ after
        → send v s.queue ≡ some q
        → Step s
            (record s { queue = q; checked = before ++ after; accepted = s.accepted ++ v ∷ [] })
    -- The select of a Push finds `done` closed, and Push returns false.
    refuse :
        (before after : List A) (v : A)
        → s.checked ≡ before ++ v ∷ after
        → s.queue.is_done ≡ true
        → Step s (record s { checked = before ++ after })
    -- The select of a Pop receives.
    pop :
        (v : A) (q : Queue A)
        → receive s.queue ≡ some (v, q)
        → Step s (record s { queue = q; delivered = s.delivered ++ v ∷ [] })
    -- The select of a Pop finds `done` closed.
    see_done : s.queue.is_done ≡ true → Step s (record s { draining = suc s.draining })
    -- The inner select of such a Pop returns a value.
    drain :
        (n : ℕ) (v : A) (q : Queue A)
        → s.draining ≡ suc n
        → pop_drain s.queue ≡ (q, some v)
        → Step s (record s { queue = q; draining = n; delivered = s.delivered ++ v ∷ [] })
    -- The inner select of such a Pop takes its default, and Pop returns false.
    give_up :
        (n : ℕ)
        → s.draining ≡ suc n
        → pop_drain s.queue ≡ (s.queue, none)
        → Step s (record s { draining = n })
    store : Step s (record s { queue = store_closed s.queue })
    finish : s.queue.closed ≡ true → Step s (record s { queue = close_done s.queue })

  pub data Reach (s : System A) : System A → Type ℓ where
    here : Reach s s
    next : {t u : System A} → Reach s t → Step t u → Reach s u

  -- What every interleaving keeps.
  pub record IsFifo (s : System A) : Type ℓ where
    pub in_order : s.accepted ≡ s.delivered ++ s.queue.items
    pub bounded : length s.queue.items ≤ s.queue.cap
    pub has_room : 1 ≤ s.queue.cap
    pub done_closed : s.queue.is_done ≡ true → s.queue.closed ≡ true

  send_inv :
      (v : A) (q q' : Queue A)
      → send v q ≡ some q'
      → (q' ≡ record q { items = q.items ++ v ∷ [] }) × (suc (length q.items) ≤ q.cap)
  unfolding send
  send_inv v q q' h = ground arith

  receive_inv :
      (q : Queue A) (v : A) (q' : Queue A)
      → receive q ≡ some (v, q')
      → (q.items ≡ v ∷ q'.items) × (q' ≡ record q { items = q'.items })
  unfolding receive
  receive_inv q v q' h = ground arith

  pop_drain_inv :
      (q : Queue A) (v : A) (q' : Queue A)
      → pop_drain q ≡ (q', some v)
      → (q.items ≡ v ∷ q'.items) × (q' ≡ record q { items = q'.items })
  unfolding pop_drain
  pop_drain_inv q v q' h = ground arith

  module _ {s : System A} (h : IsFifo s) where
    IsFifo-sent :
        (v : A) (q : Queue A) (rest : List A)
        → send v s.queue ≡ some q
        → IsFifo (record s { queue = q; checked = rest; accepted = s.accepted ++ v ∷ [] })
    IsFifo-sent v q rest e =
        let (same, room) = send_inv v s.queue q e in
        record {
          in_order = rw (same, h.in_order) (append_assoc s.delivered s.queue.items (v ∷ []));
          bounded = rw same (omega (arith, length-append s.queue.items (v ∷ [])));
          has_room = rw same h.has_room;
          done_closed = rw same h.done_closed;
        }

    IsFifo-received :
        (v : A) (q : Queue A) (n : ℕ)
        → s.queue.items ≡ v ∷ q.items
        → q ≡ record s.queue { items = q.items }
        → IsFifo (record s { queue = q; draining = n; delivered = s.delivered ++ v ∷ [] })
    IsFifo-received v q n e same = record {
      in_order =
          h.in_order
          ∙ (ap (λ l. s.delivered ++ l) e ∙ sym (append_assoc s.delivered (v ∷ []) q.items));
      bounded = ground (arith, h.bounded);
      has_room = ground (arith, h.has_room);
      done_closed = λ d. ground (arith, h.done_closed);
    }

  Step-IsFifo : {s t : System A} → Step s t → IsFifo s → IsFifo t
  Step-IsFifo (check v e) h = record {
    in_order = h.in_order;
    bounded = h.bounded;
    has_room = h.has_room;
    done_closed = h.done_closed;
  }
  Step-IsFifo (push before after v q at_v e) h = IsFifo-sent h v q (before ++ after) e
  Step-IsFifo (refuse before after v at_v e) h = record {
    in_order = h.in_order;
    bounded = h.bounded;
    has_room = h.has_room;
    done_closed = h.done_closed;
  }
  Step-IsFifo (pop v q e) h =
      let (items, same) = receive_inv _ v q e in IsFifo-received h v q _ items same
  Step-IsFifo (see_done e) h = record {
    in_order = h.in_order;
    bounded = h.bounded;
    has_room = h.has_room;
    done_closed = h.done_closed;
  }
  Step-IsFifo (drain n v q e f) h =
      let (items, same) = pop_drain_inv _ v q f in IsFifo-received h v q n items same
  Step-IsFifo (give_up n e f) h = record {
    in_order = h.in_order;
    bounded = h.bounded;
    has_room = h.has_room;
    done_closed = h.done_closed;
  }
  Step-IsFifo store h =
      unfold store_closed in
      record {
        in_order = h.in_order;
        bounded = h.bounded;
        has_room = h.has_room;
        done_closed = λ _. refl;
      }
  Step-IsFifo (finish e) h =
      unfold close_done in
      record {
        in_order = h.in_order;
        bounded = h.bounded;
        has_room = h.has_room;
        done_closed = λ _. e;
      }

  start-IsFifo : (capacity : ℤ) → IsFifo (start {A = A} capacity)
  unfolding new
  start-IsFifo capacity = record {
    in_order = refl;
    bounded = omega arith;
    has_room = ground arith;
    done_closed = λ d. d;
  }

  -- However the goroutines interleave, what was accepted is what was delivered, followed by what
  -- the buffer holds, in one order; the buffer keeps its bound, which is at least 1.
  pub Reach-IsFifo : (capacity : ℤ) (s : System A) → Reach (start capacity) s → IsFifo s
  Reach-IsFifo capacity s here = start-IsFifo capacity
  Reach-IsFifo capacity s (next {t} r st) = Step-IsFifo st (Reach-IsFifo capacity t r)
