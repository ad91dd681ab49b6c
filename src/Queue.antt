-- ===== src/Queue.antt =====
-- internal/queue/queue.go: a bounded queue between the backend's goroutine and the handler's.
-- `items` is the buffer of the channel `ch`, oldest first, and `cap` its capacity; `is_done` says
-- that the channel `done` is closed. A `select` with no ready case blocks, which is `none`; where
-- both cases are ready Go picks either, so the functions take the choice as their first argument.
pub mod Steps
pub mod Calls
mod Tests
use go_gaze.Common.{
  ℕ, zero, suc, Bool, true, false, Option, none, some, List, [], ◌∷◌, ◌++◌, ltb, length,
  if◌then◌else◌,
}
use go_gaze.Common.Int.{ℤ, pos, negsuc, leb_ℤ}

pub record Queue {ℓ} (A : Type ℓ) : Type ℓ where
  pub items : List A
  pub cap : ℕ
  pub closed : Bool
  pub is_done : Bool

-- The capacity that New uses.
unfoldable pub capacity_of : ℤ → ℕ
capacity_of (pos n) = if ltb n 1 then 1 else n
capacity_of (negsuc n) = 1

module _ {ℓ} {A : Type ℓ} where
  -- New
  unfoldable pub new : ℤ → Queue A
  unfolding capacity_of
  new capacity = record { items = []; cap = capacity_of capacity; closed = false; is_done = false }

  -- The case `q.ch <- v`.
  unfoldable pub send : A → Queue A → Option (Queue A)
  send v q =
      if ltb (length q.items) q.cap then some (record q { items = q.items ++ v ∷ [] }) else none

  abbrev received : Queue A → List A → Option (A × Queue A)
  received q [] = none
  received q (v ∷ rest) = some (v, record q { items = rest })

  -- The case `value := <-q.ch`.
  unfoldable pub receive : Queue A → Option (A × Queue A)
  receive q = received q q.items

  abbrev sent : Queue A → Bool → Bool → Option (Queue A) → Option (Queue A × Bool)
  sent q first true none = some (q, false)
  sent q first false none = none
  sent q first false (some q') = some (q', true)
  sent q true true (some q') = some (q', true)
  sent q false true (some q') = some (q, false)

  -- The select of Push; `first` picks the send where both cases are ready.
  unfoldable pub push_select : Bool → A → Queue A → Option (Queue A × Bool)
  unfolding send
  push_select first v q = sent q first q.is_done (send v q)

  -- Push
  unfoldable pub push : Bool → A → Queue A → Option (Queue A × Bool)
  unfolding push_select
  push first v q = if q.closed then some (q, false) else push_select first v q

  abbrev drained : Queue A → Option (A × Queue A) → Queue A × Option A
  drained q none = (q, none)
  drained q (some (v, q')) = (q', some v)

  -- The inner select of Pop, once `done` is closed; its result is `none` for (zero, false).
  unfoldable pub pop_drain : Queue A → Queue A × Option A
  unfolding receive
  pop_drain q = drained q (receive q)

  abbrev popped : Queue A → Bool → Bool → Option (A × Queue A) → Option (Queue A × Option A)
  popped q first false none = none
  popped q first false (some (v, q')) = some (q', some v)
  popped q true true (some (v, q')) = some (q', some v)
  popped q first true r = some (pop_drain q)

  -- Pop; `first` picks the receive where both cases are ready.
  unfoldable pub pop : Bool → Queue A → Option (Queue A × Option A)
  unfolding receive pop_drain
  pop first q = popped q first q.is_done (receive q)

  -- closed.Store(true), and close(q.done): the two steps of Close.
  unfoldable pub store_closed : Queue A → Queue A
  store_closed q = record q { closed = true }

  unfoldable pub close_done : Queue A → Queue A
  close_done q = record q { is_done = true }

  -- Close. The `sync.Once` makes later calls do nothing, and they would set what is set.
  unfoldable pub close : Queue A → Queue A
  unfolding store_closed close_done
  close q = close_done (store_closed q)
