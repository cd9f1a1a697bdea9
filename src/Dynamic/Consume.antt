-- ===== src/Dynamic/Consume.antt =====
-- `consumer_slot` of dynamic_fast_mpmc_queue, the accessor of a consumer, and the calls that an idle
-- thread may begin.
use fast_mpmc_queue.Prelude.{
  ℕ, Bool, false, if◌then◌else◌, update, ℤ, pos, ◌+ℤ◌, ltb_ℤ, eqb_ℤ, wrap32,
}
use fast_mpmc_queue.Slots.Threads.{quietly, consume}
use fast_mpmc_queue.Slots.{free, ready, cons_locked, is_state, complete, is_complete}
use fast_mpmc_queue.Dynamic.{
  Config, Queue, idle, stopping, produce_enter, consume_loop, consume_free, consume_capacity,
  consume_load, consume_next, consume_store, consume_lock, consumer, refund, Act,
  call_producer_slot, call_consumer_slot, call_shutdown, call_stop, call_complete, destroy, Outcome,
}

module _ {ℓ} {A : Type ℓ} where
  abbrev pub capacity : Queue A → ℤ
  capacity q = q.capacity

  abbrev pub free_slots : Queue A → ℤ
  free_slots q = q.free_count

  -- Both counters as they stand at one moment.
  unfoldable pub empty : Queue A → Bool
  empty q = eqb_ℤ q.free_count q.capacity

  abbrev pub producing : Queue A → Bool
  producing q = q.producer_enable

  abbrev pub consuming : Queue A → Bool
  consuming q = q.consumer_enable

module _ {ℓ} {A : Type ℓ} (c : Config) (q : Queue A) where
  -- `while (m_enable.test() && m_free.load() < m_capacity.load())`
  unfoldable pub step_consume_loop : Outcome A
  step_consume_loop = quietly q (if q.consumer_enable then consume_free else idle)

  unfoldable pub step_consume_free : Outcome A
  step_consume_free = quietly q (consume_capacity q.free_count)

  unfoldable pub step_consume_capacity : (seen_free : ℤ) → Outcome A
  step_consume_capacity seen_free =
      quietly q (if ltb_ℤ seen_free q.capacity then consume_load else idle)

  unfoldable pub step_consume_load : Outcome A
  step_consume_load = quietly q (consume_next q.consumer_cursor)

  unfoldable pub step_consume_next : (current : ℕ) → Outcome A
  step_consume_next current = quietly q (consume_store current (q.next current))

  unfoldable pub step_consume_store : (current target : ℕ) → Outcome A
  step_consume_store current target =
      quietly (record q { consumer_cursor = target }) (consume_lock current)

  unfoldable pub step_consume_lock : (current : ℕ) → Outcome A
  step_consume_lock current =
      if is_state (q.state current) ready
      then quietly (record q { state = update q.state current cons_locked })
          (consumer current false)
      else quietly q consume_loop

  -- The first part of `~consumer_accessor`.
  unfoldable pub destroy_consumer : (slot : ℕ) (m_complete : Bool) → Outcome A
  destroy_consumer slot m_complete =
      if is_complete c.auto_complete m_complete
      then record {
        queue = record q { state = update q.state slot free };
        pc = refund;
        event = consume (q.payload slot);
      }
      else quietly (record q { state = update q.state slot ready }) idle

  -- What the owner of a consumer's accessor may do with it.
  unfoldable pub use_consumer : (slot : ℕ) (m_complete : Bool) → Act A → Outcome A
  unfolding destroy_consumer
  use_consumer slot m_complete call_complete =
      quietly q (consumer slot (complete c.auto_complete m_complete))
  use_consumer slot m_complete destroy = destroy_consumer slot m_complete
  use_consumer slot m_complete _ = quietly q (consumer slot m_complete)

  -- The `fetch_add` of an accessor's destructor.
  unfoldable pub step_refund : Outcome A
  step_refund = quietly (record q { free_count = wrap32 (q.free_count +ℤ pos 1) }) idle

-- The calls that an idle thread may begin. `shutdown` is one store, `stop` the first of two.
unfoldable pub begin {ℓ} : {A : Type ℓ} → Queue A → Act A → Outcome A
begin q (call_producer_slot attempts) = quietly q (produce_enter attempts)
begin q call_consumer_slot = quietly q consume_loop
begin q call_shutdown = quietly (record q { producer_enable = false }) idle
begin q call_stop = quietly (record q { producer_enable = false }) stopping
begin q _ = quietly q idle
