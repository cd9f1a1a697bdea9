-- ===== src/Dynamic/Tests.antt =====
-- Runs of the dynamic queue: blocks of two slots, at most two of them, two threads.
use fast_mpmc_queue.Prelude.{
  ℕ, ◌+◌, ◌-◌, ◌*◌, ◌≤◌, ◌<◌, ◌≡◌, ◌≢◌, refl, true, false, some, List, [], ◌∷◌, ◌++◌, arith, pos,
  pos_part, neg_part, replicate, wrap32, ◌+ℤ◌, ◌-ℤ◌,
}
use fast_mpmc_queue.Slots.{prod_locked, ready, cons_locked}
use fast_mpmc_queue.Slots.Protocol.{slot_of}
use fast_mpmc_queue.Slots.Delivery.{load, stock}
use fast_mpmc_queue.Slots.Threads.{Simulated}
use fast_mpmc_queue.Dynamic.{
  Config, GrowthPolicy, produce_take, producer, consumer, Act, go, call_producer_slot,
  call_consumer_slot, write_producer, destroy,
}
use fast_mpmc_queue.Dynamic.Consume.{empty}
use fast_mpmc_queue.Dynamic.Machine.{System, start, step, turn, run}
use fast_mpmc_queue.Dynamic.View.{claim_of, cap_of, view}
use fast_mpmc_queue.Dynamic.Ring.{ring_next}
use fast_mpmc_queue.Dynamic.Capacity.{w_link, count}
use fast_mpmc_queue.Dynamic.Lock.{in_grow}
use fast_mpmc_queue.Dynamic.Invariant.{IsFit}
use fast_mpmc_queue.Dynamic.Safety.{
  access_refines, slots_exclusive, accessors_locked, capacity_bounds, free_slots_bounds,
  ring_closed, grow_exclusive, empty-ne_taken,
}
use fast_mpmc_queue.Dynamic.Delivery.{nothing_lost}

abbrev config : Config
config = record {
  block_size = 2;
  max_blocks = 2;
  auto_complete = true;
  growth = GrowthPolicy.round;
}

abbrev config-IsFit : IsFit config 2
config-IsFit = record { wide = omega arith; some_blocks = omega arith; small = omega arith }

-- Thread 0 gets a slot, fills it and publishes it.
abbrev taking : List (ℕ × Act ℕ)
taking = (0, call_producer_slot 1) ∷ replicate 8 (0, go)

abbrev publishing : ℕ → List (ℕ × Act ℕ)
publishing v = taking ++ (0, write_producer v) ∷ (0, destroy) ∷ []

-- Both slots are in use, and the next call links a block.
abbrev growing : List (ℕ × Act ℕ)
growing = publishing 7 ++ publishing 8 ++ (0, call_producer_slot 1) ∷ replicate 6 (0, go)

-- It goes on to a slot of the new block.
abbrev grown : List (ℕ × Act ℕ)
grown = growing ++ replicate 11 (0, go)

-- Thread 1 receives the first payload.
abbrev receiving : List (ℕ × Act ℕ)
receiving = publishing 7 ++ (1, call_consumer_slot) ∷ replicate 7 (1, go)

abbrev receiving_all : List (ℕ × Act ℕ)
receiving_all = receiving ++ (1, destroy) ∷ (1, go) ∷ []

abbrev after_run : List (ℕ × Act ℕ) → System ℕ
after_run xs = run config 2 (start config 0) xs

taken_new_slot : (after_run grown).pc 0 ≡ producer 2 false
unfolding run turn step start wrap32 ◌+ℤ◌ ◌-ℤ◌
taken_new_slot = refl

capacity_grown : (after_run grown).queue.capacity ≡ pos 4
unfolding run turn step start wrap32 ◌+ℤ◌ ◌-ℤ◌
capacity_grown = refl

received_first : (after_run receiving_all).consumed ≡ 7 ∷ []
unfolding run turn step start wrap32 ◌+ℤ◌ ◌-ℤ◌
received_first = refl

nothing_taken : empty (after_run receiving_all).queue ≡ true
unfolding run turn step start wrap32 ◌+ℤ◌ ◌-ℤ◌ empty
nothing_taken = refl

new_slot_held : slot_of (claim_of 2 ((after_run grown).pc 0)) ≡ some 2
unfolding run turn step start wrap32 ◌+ℤ◌ ◌-ℤ◌
new_slot_held = refl

inside_grow : in_grow ((after_run growing).pc 0) ≡ true
unfolding run turn step start wrap32 ◌+ℤ◌ ◌-ℤ◌
inside_grow = refl

access_refines_example :
    Simulated 2 false
      (view config (after_run growing))
      (view config (turn config 2 (after_run growing) (0, go)))
access_refines_example = access_refines config 2 0 config-IsFit growing (0, go)

slots_exclusive_example : ◌≡◌ {A = ℕ} 0 0
slots_exclusive_example =
    slots_exclusive config 2 0 config-IsFit grown 0 0 2 new_slot_held new_slot_held

accessors_locked_example :
    let s = after_run grown in
    (s.pc 0 ≡ produce_take 2 → (2 < cap_of config s.queue) × (s.queue.state 2 ≡ prod_locked))
    × (s.pc 0 ≡ producer 2 false → (2 < cap_of config s.queue) × (s.queue.state 2 ≡ prod_locked))
    × (s.pc 0 ≡ consumer 2 false → (2 < cap_of config s.queue) × (s.queue.state 2 ≡ cons_locked))
accessors_locked_example = accessors_locked config 2 0 config-IsFit grown 0 2 false

capacity_bounds_example :
    let s = after_run growing in
    (neg_part s.queue.capacity ≡ 0)
    × (pos_part s.queue.capacity + 2 * count w_link 2 s.pc ≡ cap_of config s.queue)
    × (cap_of config s.queue ≤ 2 * (2 + (2 - 1)))
capacity_bounds_example = capacity_bounds config 2 0 config-IsFit growing

free_slots_bounds_example :
    let s = after_run growing in
    (pos_part s.queue.free_count ≤ cap_of config s.queue) × (neg_part s.queue.free_count ≤ 2 * 2)
free_slots_bounds_example = free_slots_bounds config 2 0 config-IsFit growing

ring_closed_example :
    let s = after_run growing in
    ((j : ℕ) → j < cap_of config s.queue → s.queue.next j ≡ ring_next (cap_of config s.queue) j)
    × (s.queue.producer_cursor < cap_of config s.queue)
    × (s.queue.consumer_cursor < cap_of config s.queue)
ring_closed_example = ring_closed config 2 0 config-IsFit growing

grow_exclusive_example :
    let s = after_run growing in
    (s.queue.spinlock ≡ true) × (in_grow (s.pc 1) ≡ true → ◌≡◌ {A = ℕ} 0 1)
grow_exclusive_example = grow_exclusive config 2 0 config-IsFit growing 0 1 inside_grow

empty-ne_taken_example :
    let s = after_run receiving_all in (s.queue.state 0 ≢ ready) × (s.queue.state 0 ≢ cons_locked)
empty-ne_taken_example = empty-ne_taken config 2 0 config-IsFit receiving_all nothing_taken 0

nothing_lost_example :
    let s = after_run receiving in
    load (λ (x : ℕ). x) s.published
    ≡ load (λ (x : ℕ). x) s.consumed
      + stock (λ (x : ℕ). x) (cap_of config s.queue) s.queue.state s.queue.payload
nothing_lost_example = nothing_lost (λ (x : ℕ). x) config 2 config-IsFit 0 receiving
