-- ===== src/Static/Tests.antt =====
-- Runs of the static queue: two slots, two threads, payloads that are numbers.
use fast_mpmc_queue.Prelude.{
  ℕ, ◌+◌, ◌≤◌, ◌<◌, ◌≡◌, ◌≢◌, refl, true, false, some, List, [], ◌∷◌, arith, pos, pos_part,
  neg_part, replicate, wrap32, ◌+ℤ◌, ◌-ℤ◌,
}
use mathlib.Core.List.{◌++◌}
use fast_mpmc_queue.Algo.{reduce}
use fast_mpmc_queue.Slots.{prod_locked, ready, cons_locked, is_state}
use fast_mpmc_queue.Slots.Protocol.{slot_of}
use fast_mpmc_queue.Slots.Delivery.{load, stock}
use fast_mpmc_queue.Slots.Threads.{Simulated}
use fast_mpmc_queue.Static.{
  Queue, produce_enter, produce_take, producer, consume_loop, consumer, Act, go, spurious,
  call_producer_slot, call_consumer_slot, write_producer, call_complete, destroy, empty,
}
use fast_mpmc_queue.Static.Machine.{System, start, step, turn, run}
use fast_mpmc_queue.Static.View.{claim_of, view}
use fast_mpmc_queue.Static.Safety.{
  step_refines, exclusive, accessor_asserts, free_count_bounds, empty-ne_ready,
}
use fast_mpmc_queue.Static.Delivery.{delivered}
use fast_mpmc_queue.Static.Progress.{
  has_returned, is_consuming, follow, producer_slot_returns, consumer_slot_stops,
}
use fast_mpmc_queue.Static.Waiting.{consumer_slot_waits}

-- Thread 0 gets a slot and fills it; thread 1 calls `consumer_slot` and gets as far as it can.
abbrev filling : List (ℕ × Act ℕ)
filling = (0, call_producer_slot 1) ∷ replicate 6 (0, go) ++ (0, write_producer 7) ∷ []

abbrev waiting : List (ℕ × Act ℕ)
waiting = filling ++ (1, call_consumer_slot) ∷ []

abbrev publishing : List (ℕ × Act ℕ)
publishing = filling ++ (0, call_complete) ∷ (0, destroy) ∷ []

abbrev receiving : List (ℕ × Act ℕ)
receiving = publishing ++ (1, call_consumer_slot) ∷ replicate 4 (1, go)

abbrev receiving_all : List (ℕ × Act ℕ)
receiving_all = receiving ++ (1, call_complete) ∷ (1, destroy) ∷ (1, go) ∷ []

abbrev after_run : List (ℕ × Act ℕ) → System ℕ
after_run xs = run 2 false 2 (start 2 0) xs

producer_alive : (after_run filling).pc 0 ≡ producer 0 false
unfolding run turn step start reduce wrap32 ◌+ℤ◌ ◌-ℤ◌
producer_alive = refl

consumer_alive : (after_run receiving).pc 1 ≡ consumer 0 false
unfolding run turn step start reduce wrap32 ◌+ℤ◌ ◌-ℤ◌
consumer_alive = refl

all_received : (after_run receiving_all).consumed ≡ 7 ∷ []
unfolding run turn step start reduce wrap32 ◌+ℤ◌ ◌-ℤ◌
all_received = refl

all_free : empty 2 (after_run receiving_all).queue ≡ true
unfolding run turn step start reduce wrap32 ◌+ℤ◌ ◌-ℤ◌ empty
all_free = refl

holds_slot_0 : slot_of (claim_of ((after_run filling).pc 0)) ≡ some 0
unfolding run turn step start reduce wrap32 ◌+ℤ◌ ◌-ℤ◌
holds_slot_0 = refl

still_enabled : (after_run waiting).queue.consumer_enable ≡ true
unfolding run turn step start reduce wrap32 ◌+ℤ◌ ◌-ℤ◌
still_enabled = refl

still_producing : (after_run waiting).pc 0 ≡ producer 0 false
unfolding run turn step start reduce wrap32 ◌+ℤ◌ ◌-ℤ◌
still_producing = refl

inside_call : is_consuming ((after_run waiting).pc 1) ≡ true
unfolding run turn step start reduce wrap32 ◌+ℤ◌ ◌-ℤ◌
inside_call = refl

none_ready : (k : ℕ) → is_state ((after_run waiting).queue.state k) ready ≡ false
unfolding run turn step start reduce wrap32 ◌+ℤ◌ ◌-ℤ◌
none_ready k = ground arith

step_refines_example :
    Simulated 2 false
      (view 2 (after_run publishing))
      (view 2 (turn 2 false 2 (after_run publishing) (1, call_consumer_slot)))
step_refines_example =
    step_refines 2 false 2 0 (omega arith) (omega arith) publishing (1, call_consumer_slot)

exclusive_example : ◌≡◌ {A = ℕ} 0 0
exclusive_example =
    exclusive 2 false 2 0 (omega arith) (omega arith) filling 0 0 0 holds_slot_0 holds_slot_0

accessor_asserts_example :
    let s = after_run receiving in
    (s.pc 1 ≡ produce_take 0 → (0 < 2) × (s.queue.state 0 ≡ prod_locked))
    × (s.pc 1 ≡ producer 0 false → (0 < 2) × (s.queue.state 0 ≡ prod_locked))
    × (s.pc 1 ≡ consumer 0 false → (0 < 2) × (s.queue.state 0 ≡ cons_locked))
accessor_asserts_example =
    accessor_asserts 2 false 2 0 (omega arith) (omega arith) receiving 1 0 false

free_count_bounds_example :
    let s = after_run receiving in
    (pos_part s.queue.free_count ≤ 2) × (neg_part s.queue.free_count ≤ 2)
free_count_bounds_example = free_count_bounds 2 false 2 0 (omega arith) (omega arith) receiving

empty-ne_ready_example :
    let s = after_run receiving_all in (s.queue.state 0 ≢ ready) × (s.queue.state 0 ≢ cons_locked)
empty-ne_ready_example =
    empty-ne_ready 2 false 2 0 (omega arith) (omega arith) receiving_all all_free 0

delivered_example :
    let s = after_run publishing in
    load (λ (x : ℕ). x) s.published
    ≡ load (λ (x : ℕ). x) s.consumed + stock (λ (x : ℕ). x) 2 s.queue.state s.queue.payload
delivered_example =
    delivered (λ (x : ℕ). x) 2 false 2 (omega arith) (omega arith) 0 publishing
      (refl, (refl, (refl, (refl, (refl, (refl, (refl, (refl, (refl, (refl, tt))))))))))

-- A queue that other threads leave without a free slot to take.
abbrev busy : Queue ℕ
busy = record {
  producer_index = 1;
  producer_enable = true;
  consumer_index = 0;
  consumer_enable = false;
  free_count = pos 1;
  state = λ k. prod_locked;
  payload = λ k. 0;
}

producer_slot_returns_example :
    has_returned (follow 2 false (replicate 31 (busy, spurious)) (produce_enter 1)) ≡ true
producer_slot_returns_example =
    producer_slot_returns 2 false 1 (replicate 31 (busy, spurious)) (omega arith) (omega arith)
      (omega arith)

consumer_slot_stops_example :
    has_returned (follow 2 false (replicate 6 (busy, go)) consume_loop) ≡ true
consumer_slot_stops_example =
    consumer_slot_stops 2 false consume_loop (replicate 6 (busy, go)) refl
      (refl, (refl, (refl, (refl, (refl, (refl, tt)))))) (omega arith)

consumer_slot_waits_example :
    is_consuming ((run 2 false 2 (after_run waiting) (replicate 1000 (1, go))).pc 1) ≡ true
consumer_slot_waits_example =
    consumer_slot_waits 2 false 2 0 waiting 1 0 0 false 1000 (omega arith) (omega arith)
      (omega arith) still_producing still_enabled none_ready inside_call
