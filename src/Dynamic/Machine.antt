-- ===== src/Dynamic/Machine.antt =====
-- The threads of a program over one dynamic queue, interleaved by a schedule.
use fast_mpmc_queue.Prelude.{ℕ, false, List, [], ◌∷◌, ltb, if◌then◌else◌}
use fast_mpmc_queue.Slots.Threads
use fast_mpmc_queue.Slots.Threads.{quietly, after}
use fast_mpmc_queue.Dynamic.{
  Config, Queue, new_queue, Pc, idle, stopping, produce_enter, check_free, check_capacity,
  grow_lock, grow_test, grow_link, grow_capacity, grow_free, grow_cursor, grow_unlock,
  produce_round, produce_load, produce_next, produce_store, produce_lock, produce_test,
  produce_take, producer, consume_loop, consume_free, consume_capacity, consume_load, consume_next,
  consume_store, consume_lock, consumer, refund, Act, Outcome,
}
use fast_mpmc_queue.Dynamic.Grow.{
  step_check_free, step_check_capacity, step_grow_lock, step_grow_test, step_grow_link,
  step_grow_capacity, step_grow_free, step_grow_cursor, step_grow_unlock,
}
use fast_mpmc_queue.Dynamic.Produce.{
  step_produce_enter, step_produce_round, step_produce_load, step_produce_next, step_produce_store,
  step_produce_lock, step_produce_test, step_produce_take, use_producer,
}
use fast_mpmc_queue.Dynamic.Consume.{
  step_consume_loop, step_consume_free, step_consume_capacity, step_consume_load, step_consume_next,
  step_consume_store, step_consume_lock, use_consumer, step_refund, begin,
}

abbrev pub System {ℓ} : Type ℓ → Type ℓ
System A = Threads.System (Queue A) Pc A

unfoldable pub start {ℓ} : {A : Type ℓ} → Config → (default : A) → System A
unfolding new_queue
start c default = record {
  queue = new_queue c default;
  pc = λ i. idle;
  published = [];
  consumed = [];
}

module _ {ℓ} {A : Type ℓ} (c : Config) where
  -- One access of one thread.
  unfoldable pub step : Queue A → Pc → Act A → Outcome A
  unfolding step_check_free step_check_capacity step_grow_lock step_grow_test step_grow_link
      step_grow_capacity step_grow_free step_grow_cursor step_grow_unlock step_produce_enter
      step_produce_round step_produce_load step_produce_next step_produce_store step_produce_lock
      step_produce_test step_produce_take use_producer step_consume_loop step_consume_free
      step_consume_capacity step_consume_load step_consume_next step_consume_store step_consume_lock
      use_consumer step_refund begin
  step q idle a = begin q a
  step q stopping a = quietly (record q { consumer_enable = false }) idle
  step q (produce_enter attempts) a = step_produce_enter c q attempts
  step q (check_free to) a = step_check_free c q to
  step q (check_capacity to) a = step_check_capacity c q to
  step q (grow_lock to) a = step_grow_lock c q to
  step q (grow_test to) a = step_grow_test c q to
  step q (grow_link to) a = step_grow_link c q to a
  step q (grow_capacity to last_slot) a = step_grow_capacity c q to last_slot
  step q (grow_free to last_slot) a = step_grow_free c q to last_slot
  step q (grow_cursor to last_slot) a = step_grow_cursor c q to last_slot
  step q (grow_unlock to grown) a = step_grow_unlock c q to grown
  step q (produce_round attempts) a = step_produce_round c q attempts
  step q (produce_load attempts count) a = step_produce_load c q attempts count
  step q (produce_next attempts count current) a = step_produce_next c q attempts count current
  step q (produce_store attempts count current target) a =
      step_produce_store c q attempts count current target
  step q (produce_lock attempts count current) a = step_produce_lock c q attempts count current
  step q (produce_test attempts count) a = step_produce_test c q attempts count
  step q (produce_take slot) a = step_produce_take c q slot
  step q (producer slot m_complete) a = use_producer c q slot m_complete a
  step q consume_loop a = step_consume_loop c q
  step q consume_free a = step_consume_free c q
  step q (consume_capacity seen_free) a = step_consume_capacity c q seen_free
  step q consume_load a = step_consume_load c q
  step q (consume_next current) a = step_consume_next c q current
  step q (consume_store current target) a = step_consume_store c q current target
  step q (consume_lock current) a = step_consume_lock c q current
  step q (consumer slot m_complete) a = use_consumer c q slot m_complete a
  step q refund a = step_refund c q

  -- One entry of a schedule: a thread, one of `n`, and what it chooses to do.
  unfoldable pub turn : (n : ℕ) → System A → ℕ × Act A → System A
  turn n s (i, a) = if ltb i n then after s i (step s.queue (s.pc i) a) else s

  unfoldable pub run : (n : ℕ) → System A → List (ℕ × Act A) → System A
  run n s [] = s
  run n s (x ∷ xs) = run n (turn n s x) xs
