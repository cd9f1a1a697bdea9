-- ===== src/Linked/Tests.antt =====
-- Runs of the linked queues with numbers as payloads.
use fast_mpmc_queue.Prelude.{
  ℕ, ◌-◌, ◌≤◌, ◌<◌, ◌≡◌, arith, refl, true, false, some, List, [], ◌∷◌, ◌++◌, replicate,
}
use fast_mpmc_queue.Linked.{
  Queue, empty, Act, go, call_enqueue, call_dequeue, call_empty, start, step, run,
}
use fast_mpmc_queue.Nodes.{waiting, pointers}
use fast_mpmc_queue.Linked.Steps.{in_lock}
use fast_mpmc_queue.Linked.Destroy.{AtRest, destroy, destroy_all, empty-all_dequeued}
use fast_mpmc_queue.Linked.Safety.{touched, fifo_order, no_dangling, one_at_a_time}

-- Two producers whose exchanges of `m_tail` and stores to `m_next` cross, and the consumer.
abbrev crossing : List (ℕ × Act ℕ)
crossing =
    (1, call_enqueue 7)
    ∷ (2, call_enqueue 8)
    ∷ (1, go)
    ∷ (2, go)
    ∷ (1, go)
    ∷ (2, go)
    ∷ (2, go)
    ∷ (1, go)
    ∷ []

abbrev reading : List (ℕ × Act ℕ)
reading = crossing ++ (0, call_dequeue) ∷ (0, go) ∷ (0, go) ∷ []

abbrev both : List (ℕ × Act ℕ)
both = reading ++ replicate 2 (0, go) ++ (0, call_dequeue) ∷ replicate 4 (0, go)

crossing-in_order : (run false start crossing).enqueued ≡ 8 ∷ 7 ∷ []
unfolding run step start
crossing-in_order = refl

both_received : (run false start both).dequeued ≡ some 8 ∷ some 7 ∷ []
unfolding run step start
both_received = refl

about_to_read : touched ((run false start reading).pc 0) ≡ some 0
unfolding run step start
about_to_read = refl

-- The same with the lock: thread 2 waits while thread 1 is inside.
abbrev contending : List (ℕ × Act ℕ)
contending = (1, call_enqueue 7) ∷ (1, go) ∷ (1, go) ∷ (2, call_dequeue) ∷ (2, go) ∷ (2, go) ∷ []

first_inside : in_lock ((run true start contending).pc 1) ≡ true
unfolding run step start
first_inside = refl

fifo_order_example :
    let s = run false start both in
    pointers s.enqueued
    ≡ waiting s.queue.data_of s.queue.head (s.queue.tail - s.queue.head) ++ s.dequeued
fifo_order_example = fifo_order false both refl

-- The consumer reads the head in `empty`.
abbrev looking : List (ℕ × Act ℕ)
looking = crossing ++ (0, call_empty) ∷ (0, go) ∷ []

about_to_look : touched ((run false start looking).pc 0) ≡ some 0
unfolding run step start
about_to_look = refl

no_dangling_example :
    let s = run false start looking in
    (s.queue.deleted s.queue.head ≡ false)
    × ((i k : ℕ) → touched (s.pc i) ≡ some k → (s.queue.deleted k ≡ false) × (k ≤ s.queue.tail))
no_dangling_example = no_dangling false looking refl refl

-- With the lock, a thread inside `empty`, which does not take it, is about to read a node that another
-- thread's `dequeue` has deleted.
abbrev dangling : List (ℕ × Act ℕ)
dangling =
    (1, call_enqueue 7) ∷ replicate 5 (1, go)
    ++ (2, call_empty) ∷ (2, go) ∷ (0, call_dequeue) ∷ replicate 5 (0, go)

empty_dangles :
    let s = run true start dangling in (touched (s.pc 2) ≡ some 0) × (s.queue.deleted 0 ≡ true)
unfolding run step start
empty_dangles = (refl, refl)

one_at_a_time_example :
    let s = run true start contending in
    (s.queue.spinlock ≡ true) × (in_lock (s.pc 2) ≡ true → ◌≡◌ {A = ℕ} 1 2)
one_at_a_time_example = one_at_a_time contending refl 1 2 first_inside

all-AtRest : AtRest (run false start both)
unfolding run step start
all-AtRest i = ground arith

all_gone : empty (run false start both).queue ≡ true
unfolding run step start
all_gone = refl

abbrev one_each : List (ℕ × Act ℕ)
one_each = (1, call_enqueue 7) ∷ replicate 5 (1, go) ++ (2, call_dequeue) ∷ replicate 6 (2, go)

one_each-AtRest : AtRest (run true start one_each)
unfolding run step start
one_each-AtRest i = ground arith

destroy_all_example :
    let s = run true start one_each in
    (r : Queue ℕ) × (destroy true s.queue ≡ some r)
    × ((k : ℕ) → k ≤ s.queue.tail → r.deleted k ≡ true)
    × ((k : ℕ) → s.queue.tail < k → r.deleted k ≡ false)
destroy_all_example = destroy_all true one_each refl one_each-AtRest

empty-all_dequeued_example : let s = run false start both in pointers s.enqueued ≡ s.dequeued
empty-all_dequeued_example = empty-all_dequeued false both refl all-AtRest all_gone
