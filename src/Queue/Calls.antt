-- ===== src/Queue/Calls.antt =====
-- internal/queue/queue.go: what Push and Pop do in every state of the queue.
use go_gaze.Common.{
  ◌≤◌, ◌<◌, ◌≡◌, refl, ◌↔◌, ◌⊎◌, Bool, true, false, Option, none, some, [], ◌∷◌, ◌++◌, arith,
  length,
}
use go_gaze.Queue.{Queue, push, pop, pop_drain, close}

module _ {ℓ} {A : Type ℓ} where
  -- Push blocks exactly when the queue is open and its buffer is full.
  pub push_blocks_iff :
      (first : Bool) (v : A) (q : Queue A)
      → (push first v q ≡ none)
        ↔ ((q.closed ≡ false) × (q.is_done ≡ false) × (q.cap ≤ length q.items))
  unfolding push
  push_blocks_iff first v q = (λ h. (ground arith, ground arith, ground arith), λ h. ground arith)

  -- Pop blocks exactly when the queue is open and its buffer is empty.
  pub pop_blocks_iff :
      (first : Bool) (q : Queue A) → (pop first q ≡ none) ↔ ((q.is_done ≡ false) × (q.items ≡ []))
  unfolding pop
  pop_blocks_iff first q = (λ h. ground arith, λ h. ground arith)

  -- The two ways in which Push returns.
  abbrev pub PushResult : A → Queue A → Queue A × Bool → Type ℓ
  PushResult v q (q', true) =
      (q' ≡ record q { items = q.items ++ v ∷ [] }) × (length q.items < q.cap)
  PushResult v q (q', false) = (q' ≡ q) × ((q.closed ≡ true) ⊎ (q.is_done ≡ true))

  -- A Push that returned true has put its value last in the buffer, which had room; one that
  -- returned false has changed nothing, and the queue was closing.
  pub push_result :
      (first : Bool) (v : A) (q : Queue A) {r : Queue A × Bool}
      → push first v q ≡ some r
      → PushResult v q r
  unfolding push
  push_result first v q {r = (q', true)} h = (ground arith, ground arith)
  push_result first v q {r = (q', false)} h = (ground arith, ground arith)

  -- The two ways in which Pop returns.
  abbrev pub PopResult : Queue A → Queue A × Option A → Type ℓ
  PopResult q (q', some v) = (q.items ≡ v ∷ q'.items) × (q' ≡ record q { items = q'.items })
  PopResult q (q', none) = (q' ≡ q) × (q.items ≡ []) × (q.is_done ≡ true)

  -- A Pop that returned a value has taken the oldest one; a Pop that returned none has changed
  -- nothing, the buffer was empty and `done` was closed.
  pub pop_result :
      (first : Bool) (q : Queue A) {r : Queue A × Option A} → pop first q ≡ some r → PopResult q r
  unfolding pop
  pop_result first q {r = (q', some v)} h = (ground arith, ground arith)
  pop_result first q {r = (q', none)} h = (ground arith, ground arith, ground arith)

  -- After Close a Push returns false at once, also where there is room.
  pub push-close :
      (first : Bool) (v : A) (q : Queue A) → push first v (close q) ≡ some (close q, false)
  unfolding push close
  push-close first v q = refl

  -- Once `done` is closed Pop does not block: it returns the oldest value, or none if there is none.
  pub pop-done : (first : Bool) (q : Queue A) → q.is_done ≡ true → pop first q ≡ some (pop_drain q)
  unfolding pop
  pop-done first q h = ground arith
