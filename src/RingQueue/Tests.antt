-- ===== src/RingQueue/Tests.antt =====
-- flowcontrol/bbr/queue.go: the queue at concrete elements.
use go_capnp.Base.{ℕ, ◌+◌, ◌≡◌, List, [], ◌∷◌, ◌⊎◌, arith}
use mathlib.Core.List.{foldl}
use go_capnp.Base.Result.{ok, panic}
use go_capnp.RingQueue.{Queue, push, pop, fold_queue, new_queue}
use go_capnp.RingQueue.Rotation.{elements}
use go_capnp.RingQueue.Refines.{IsQueue}
use go_capnp.RingQueue.Fifo.{push-elements, pop-elements, fold_queue-elements, new_queue-run}
use go_capnp.RingQueue.Fifo.{Call, pushes, pops, run, run_list}

-- Full, with its elements around the end of the buffer.
abbrev wrapped_queue : Queue ℕ
wrapped_queue = record { buf = 30 ∷ 10 ∷ 20 ∷ []; start = 1; length = 3 }

wrapped_queue-IsQueue : IsQueue wrapped_queue
wrapped_queue-IsQueue = record { head = omega arith; fits = omega arith }

push-elements_example :
    (more : Queue ℕ) × (push 0 wrapped_queue 40 ≡ ok more)
    × IsQueue more
    × (elements more ≡ 10 ∷ 20 ∷ 30 ∷ 40 ∷ [])
push-elements_example = push-elements 0 wrapped_queue 40 wrapped_queue-IsQueue

pop-elements_example :
    ((elements wrapped_queue ≡ []) × (pop wrapped_queue ≡ panic "empty queue"))
    ⊎ ((x : ℕ) × (rest : Queue ℕ) × (pop wrapped_queue ≡ ok (x, rest))
        × IsQueue rest
        × (elements wrapped_queue ≡ x ∷ elements rest))
pop-elements_example = pop-elements wrapped_queue wrapped_queue-IsQueue

fold_queue-elements_example :
    fold_queue wrapped_queue 0 (λ acc x. acc + x)
    ≡ ok (foldl (λ acc x. acc + x) 0 (10 ∷ 20 ∷ 30 ∷ []))
fold_queue-elements_example =
    fold_queue-elements wrapped_queue 0 (λ acc x. acc + x) wrapped_queue-IsQueue

abbrev calls : List (Call ℕ)
calls = pushes 1 ∷ pushes 2 ∷ pops ∷ pushes 3 ∷ pops ∷ pops ∷ []

new_queue-run_example : run 0 (new_queue 0 1) calls ≡ run_list [] calls
new_queue-run_example = new_queue-run 0 1 calls
