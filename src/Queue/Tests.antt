-- ===== src/Queue/Tests.antt =====
-- Runs of the queue of internal/queue/queue.go, and instances of its theorems.
use go_gaze.Common.{ℕ, ◌≡◌, refl, true, false, some, [], ◌∷◌}
use go_gaze.Common.Int.{pos}
use go_gaze.Queue.{Queue, push, pop, send, new}
use go_gaze.Queue.Calls.{PushResult, PopResult, push_result, pop_result}
use go_gaze.Queue.Steps.{Reach, here, next, start, check, push as pushes, IsFifo, Reach-IsFifo}

abbrev full : Queue ℕ
full = record { items = 5 ∷ 6 ∷ []; cap = 2; closed = false; is_done = false }

abbrev half : Queue ℕ
half = record { items = 5 ∷ []; cap = 2; closed = false; is_done = false }

pushed : push true 6 half ≡ some (full, true)
unfolding push
pushed = refl

popped : pop true full ≡ some (record full { items = 6 ∷ [] }, some 5)
unfolding pop
popped = refl

push_result_example : PushResult 6 half (full, true)
push_result_example = push_result true 6 half pushed

pop_result_example : PopResult full (record full { items = 6 ∷ [] }, some 5)
pop_result_example = pop_result true full popped

abbrev sent : Queue ℕ
sent = record { items = 4 ∷ []; cap = 3; closed = false; is_done = false }

one_sent :
    Reach
      (start (pos 3))
      (record { queue = sent; checked = []; draining = 0; accepted = 4 ∷ []; delivered = [] })
unfolding new send
one_sent = next (next here (check 4 refl)) (pushes [] [] 4 sent refl refl)

steps_example :
    IsFifo (record { queue = sent; checked = []; draining = 0; accepted = 4 ∷ []; delivered = [] })
steps_example = Reach-IsFifo (pos 3) _ one_sent
