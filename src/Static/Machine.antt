-- ===== src/Static/Machine.antt =====
-- The threads of a program over one static queue, interleaved by a schedule.
use fast_mpmc_queue.Prelude.{ℕ, Bool, false, List, [], ◌∷◌, ltb, if◌then◌else◌}
use fast_mpmc_queue.Slots.Threads
use fast_mpmc_queue.Slots.Threads.{quietly, after}
use fast_mpmc_queue.Static.{
  Queue, Pc, idle, stopping, produce_enter, produce_loop, produce_free, produce_index, produce_fold,
  produce_lock, produce_take, producer, consume_loop, consume_free, consume_index, consume_fold,
  consume_lock, consumer, refund, Act, Outcome, new_queue, step_produce_enter, step_produce_loop,
  step_produce_free, step_produce_index, step_produce_fold, step_produce_lock, step_produce_take,
  step_consume_loop, step_consume_free, step_consume_index, step_consume_fold, step_consume_lock,
  step_refund, use_producer, use_consumer, begin,
}

abbrev pub System {ℓ} : Type ℓ → Type ℓ
System A = Threads.System (Queue A) Pc A

unfoldable pub start {ℓ} : {A : Type ℓ} (size : ℕ) (default : A) → System A
unfolding new_queue
start size default = record {
  queue = new_queue size default;
  pc = λ i. idle;
  published = [];
  consumed = [];
}

module _ {ℓ} {A : Type ℓ} (size : ℕ) (auto_complete : Bool) where
  -- One access of one thread.
  unfoldable pub step : Queue A → Pc → Act A → Outcome A
  unfolding step_produce_enter step_produce_loop step_produce_free step_produce_index
      step_produce_fold step_produce_lock step_produce_take step_consume_loop step_consume_free
      step_consume_index step_consume_fold step_consume_lock step_refund use_producer use_consumer
      begin
  step q idle a = begin q a
  step q stopping a = quietly (record q { consumer_enable = false }) idle
  step q (produce_enter attempts) a = step_produce_enter size q attempts
  step q (produce_loop attempts count) a = step_produce_loop size q attempts count
  step q (produce_free attempts count) a = step_produce_free size q attempts count
  step q (produce_index attempts count) a = step_produce_index size q attempts count
  step q (produce_fold attempts count current) a = step_produce_fold size q attempts count current a
  step q (produce_lock attempts count index) a = step_produce_lock size q attempts count index
  step q (produce_take index) a = step_produce_take size q index
  step q (producer index m_complete) a = use_producer auto_complete q index m_complete a
  step q consume_loop a = step_consume_loop size q
  step q consume_free a = step_consume_free size q
  step q consume_index a = step_consume_index size q
  step q (consume_fold current) a = step_consume_fold size q current a
  step q (consume_lock index) a = step_consume_lock size q index
  step q (consumer index m_complete) a = use_consumer auto_complete q index m_complete a
  step q refund a = step_refund size q

  -- One entry of a schedule: a thread, one of `n`, and what it chooses to do.
  unfoldable pub turn : (n : ℕ) → System A → ℕ × Act A → System A
  turn n s (i, a) = if ltb i n then after s i (step s.queue (s.pc i) a) else s

  unfoldable pub run : (n : ℕ) → System A → List (ℕ × Act A) → System A
  run n s [] = s
  run n s (x ∷ xs) = run n (turn n s x) xs
