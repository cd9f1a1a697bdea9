-- ===== src/Dynamic/Produce.antt =====
-- `producer_slot` of dynamic_fast_mpmc_queue, and the accessor of a producer.
use fast_mpmc_queue.Prelude.{ℕ, Bool, false, if◌then◌else◌, update, ℤ, pos, ◌-ℤ◌, wrap32}
use fast_mpmc_queue.Slots.Threads.{quietly, publish}
use fast_mpmc_queue.Slots.{free, prod_locked, ready, is_state, complete, is_complete}
use fast_mpmc_queue.Dynamic.{
  Config, GrowthPolicy, Queue, at_call, at_step, idle, check_free, produce_next, produce_store,
  produce_lock, produce_test, produce_take, producer, refund, Act, write_producer, call_complete,
  destroy, Outcome,
}
use fast_mpmc_queue.Dynamic.Grow.{loop_head}

module _ {ℓ} {A : Type ℓ} (c : Config) (q : Queue A) where
  unfoldable pub step_produce_enter : (attempts : ℕ) → Outcome A
  step_produce_enter attempts =
      quietly q (if q.producer_enable then check_free (at_call attempts) else idle)

  -- `count = m_capacity.load()`
  unfoldable pub step_produce_round : (attempts : ℕ) → Outcome A
  unfolding loop_head
  step_produce_round attempts = quietly q (loop_head c attempts q.capacity)

  -- `current = m_cursor.load(); m_cursor.store(current->m_next);`
  unfoldable pub step_produce_load : (attempts : ℕ) (count : ℤ) → Outcome A
  step_produce_load attempts count = quietly q (produce_next attempts count q.producer_cursor)

  unfoldable pub step_produce_next : (attempts : ℕ) (count : ℤ) (current : ℕ) → Outcome A
  step_produce_next attempts count current =
      quietly q (produce_store attempts count current (q.next current))

  unfoldable pub step_produce_store : (attempts : ℕ) (count : ℤ) (current target : ℕ) → Outcome A
  step_produce_store attempts count current target =
      quietly (record q { producer_cursor = target }) (produce_lock attempts count current)

  unfoldable pub step_produce_lock : (attempts : ℕ) (count : ℤ) (current : ℕ) → Outcome A
  step_produce_lock attempts count current =
      if is_state (q.state current) free
      then quietly (record q { state = update q.state current prod_locked }) (produce_take current)
      else quietly q (produce_test attempts count)

  -- The test of `m_enable` in the loop, and the policy `step`.
  unfoldable pub step_produce_test : (attempts : ℕ) (count : ℤ) → Outcome A
  unfolding loop_head
  step_produce_test attempts count = quietly q (
      if q.producer_enable
      then elim c.growth [
        | GrowthPolicy.step ↦ check_free (at_step attempts count)
        | _ ↦ loop_head c attempts (wrap32 (count -ℤ pos 1))
      ]
      else idle)

  unfoldable pub step_produce_take : (slot : ℕ) → Outcome A
  step_produce_take slot =
      quietly (record q { free_count = wrap32 (q.free_count -ℤ pos 1) }) (producer slot false)

  -- The first part of `~producer_accessor`: the store that publishes the slot or gives it back.
  unfoldable pub destroy_producer : (slot : ℕ) (m_complete : Bool) → Outcome A
  destroy_producer slot m_complete =
      if is_complete c.auto_complete m_complete
      then record {
        queue = record q { state = update q.state slot ready };
        pc = idle;
        event = publish (q.payload slot);
      }
      else quietly (record q { state = update q.state slot free }) refund

  -- What the owner of a producer's accessor may do with it.
  unfoldable pub use_producer : (slot : ℕ) (m_complete : Bool) → Act A → Outcome A
  unfolding destroy_producer
  use_producer slot m_complete (write_producer v) =
      quietly (record q { payload = update q.payload slot v }) (producer slot m_complete)
  use_producer slot m_complete call_complete =
      quietly q (producer slot (complete c.auto_complete m_complete))
  use_producer slot m_complete destroy = destroy_producer slot m_complete
  use_producer slot m_complete _ = quietly q (producer slot m_complete)
