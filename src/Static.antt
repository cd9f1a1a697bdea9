-- ===== src/Static.antt =====
-- include/xtxn/static_fast_mpmc_queue.hpp: the queue over a fixed array of slots. Threads run its
-- functions one access of a shared atomic at a time, in any interleaving.
pub mod Machine
pub mod View
pub mod Refine
pub mod Invariant
pub mod Safety
pub mod Delivery
pub mod Progress
pub mod Waiting
mod Tests
use fast_mpmc_queue.Prelude.{
  ℕ, ◌+◌, ◌-◌, ◌%◌, ◌^◌, ◌≡◌, Bool, true, false, ◌==◌, leb, if◌then◌else◌, not, update, ℤ, pos,
  ◌+ℤ◌, ◌-ℤ◌, ltb_ℤ, eqb_ℤ, wrap32,
}
use fast_mpmc_queue.Algo.{next_of, fold_back, reduce}
use fast_mpmc_queue.Slots.Threads
use fast_mpmc_queue.Slots.Threads.{publish, consume, quietly}
use fast_mpmc_queue.Slots.{
  SlotState, free, prod_locked, ready, cons_locked, is_state, complete, is_complete,
}

-- The members of the queue. The two arrays are indexed by number; the size is a parameter of the
-- functions below.
pub record Queue {ℓ} (A : Type ℓ) : Type ℓ where
  pub producer_index : ℕ
  pub producer_enable : Bool
  pub consumer_index : ℕ
  pub consumer_enable : Bool
  pub free_count : ℤ
  pub state : ℕ → SlotState
  pub payload : ℕ → A

-- The constructor of the queue: all slots free, both directions enabled.
pub new_queue {ℓ} : {A : Type ℓ} (size : ℕ) (default : A) → Queue A
new_queue size default = record {
  producer_index = 0;
  producer_enable = true;
  consumer_index = 0;
  consumer_enable = true;
  free_count = pos size;
  state = λ k. free;
  payload = λ k. default;
}

module _ {ℓ} {A : Type ℓ} where
  abbrev pub free_slots : Queue A → ℤ
  free_slots q = q.free_count

  pub empty : (size : ℕ) → Queue A → Bool
  empty size q = eqb_ℤ q.free_count (pos size)

  abbrev pub producing : Queue A → Bool
  producing q = q.producer_enable

  abbrev pub consuming : Queue A → Bool
  consuming q = q.consumer_enable

-- Where a thread stands: the access that it makes next, with the local variables that are live.
pub data Pc : Type 0 where
  idle : Pc
  stopping : Pc  -- the second store of `stop`
  produce_enter : (attempts : ℕ) → Pc  -- the first test of `m_enable` in `producer_slot`
  produce_loop : (attempts count : ℕ) → Pc  -- the head of the `for` loop
  produce_free : (attempts count : ℕ) → Pc  -- the load of `m_free` in its condition
  produce_index : (attempts count : ℕ) → Pc  -- `fetch_add` of `iterate_post_inc`
  produce_fold : (attempts count current : ℕ) → Pc  -- its compare-exchange
  produce_lock : (attempts count index : ℕ) → Pc  -- the compare-exchange on the slot's state
  produce_take : (index : ℕ) → Pc  -- `fetch_sub` in the accessor's constructor
  producer : (index : ℕ) (m_complete : Bool) → Pc  -- the producer's accessor is alive
  consume_loop : Pc  -- the head of the `while` loop of `consumer_slot`
  consume_free : Pc
  consume_index : Pc
  consume_fold : (current : ℕ) → Pc
  consume_lock : (index : ℕ) → Pc
  consumer : (index : ℕ) (m_complete : Bool) → Pc  -- the consumer's accessor is alive
  refund : Pc  -- `m_free.fetch_add(1)` in an accessor's destructor

-- What is not decided by the code: the calls that a thread makes, the payload that it writes, and
-- whether a weak compare-exchange fails spuriously.
pub data Act {ℓ} (A : Type ℓ) : Type ℓ where
  go : Act A
  spurious : Act A
  call_producer_slot : (attempts : ℕ) → Act A
  call_consumer_slot : Act A
  call_shutdown : Act A
  call_stop : Act A
  write_producer : A → Act A
  write_consumer : A → Act A
  call_complete : Act A
  destroy : Act A

-- A queue after a step, where the thread stands then, and what it handed over.
abbrev pub Outcome {ℓ} : Type ℓ → Type ℓ
Outcome A = Threads.Outcome (Queue A) Pc A

module _ {ℓ} {A : Type ℓ} where
  abbrev pub is_spurious : Act A → Bool
  is_spurious spurious = true
  is_spurious _ = false

  abbrev pub is_write_consumer : Act A → Bool
  is_write_consumer (write_consumer v) = true
  is_write_consumer _ = false

-- `--slot_acquire_attempts` on an unsigned of 32 bits, then the next round of the `do` loop or the
-- end of the call with an invalid accessor.
pub next_attempt : (size attempts : ℕ) → Pc
next_attempt size attempts =
    let left = (attempts + 2 ^ 32 - 1) % 2 ^ 32 in
    if left == 0 then idle else produce_loop left size

module _ {ℓ} {A : Type ℓ} (size : ℕ) (q : Queue A) where
  -- The functions of the class, an access at a time: `producer_slot`.
  pub step_produce_enter : (attempts : ℕ) → Outcome A
  step_produce_enter attempts =
      quietly q (if q.producer_enable then produce_loop attempts size else idle)

  pub step_produce_loop : (attempts count : ℕ) → Outcome A
  unfolding next_attempt
  step_produce_loop attempts count = quietly q (
      if count == 0
      then next_attempt size attempts
      else (if q.producer_enable then produce_free attempts count else next_attempt size attempts))

  pub step_produce_free : (attempts count : ℕ) → Outcome A
  unfolding next_attempt
  step_produce_free attempts count = quietly q (
      if eqb_ℤ q.free_count (pos 0)
      then next_attempt size attempts
      else produce_index attempts count)

  pub step_produce_index : (attempts count : ℕ) → Outcome A
  step_produce_index attempts count =
      let current = q.producer_index in
      quietly (record q { producer_index = next_of current })
        (if leb size (next_of current)
          then produce_fold attempts count current
          else produce_lock attempts count (reduce size current))

  pub step_produce_fold : (attempts count current : ℕ) → Act A → Outcome A
  step_produce_fold attempts count current act =
      quietly
        (record q {
          producer_index = fold_back size (next_of current) q.producer_index (is_spurious act);
        })
        (produce_lock attempts count (reduce size current))

  pub step_produce_lock : (attempts count index : ℕ) → Outcome A
  step_produce_lock attempts count index =
      if is_state (q.state index) free
      then quietly (record q { state = update q.state index prod_locked }) (produce_take index)
      else quietly q (produce_loop attempts (count - 1))

  pub step_produce_take : (index : ℕ) → Outcome A
  step_produce_take index =
      quietly (record q { free_count = wrap32 (q.free_count -ℤ pos 1) }) (producer index false)

  -- `consumer_slot`.
  pub step_consume_loop : Outcome A
  step_consume_loop = quietly q (if q.consumer_enable then consume_free else idle)

  pub step_consume_free : Outcome A
  step_consume_free = quietly q (if ltb_ℤ q.free_count (pos size) then consume_index else idle)

  pub step_consume_index : Outcome A
  step_consume_index =
      let current = q.consumer_index in
      quietly (record q { consumer_index = next_of current })
        (if leb size (next_of current)
          then consume_fold current
          else consume_lock (reduce size current))

  pub step_consume_fold : (current : ℕ) → Act A → Outcome A
  step_consume_fold current act =
      quietly
        (record q {
          consumer_index = fold_back size (next_of current) q.consumer_index (is_spurious act);
        })
        (consume_lock (reduce size current))

  pub step_consume_lock : (index : ℕ) → Outcome A
  step_consume_lock index =
      if is_state (q.state index) ready
      then quietly (record q { state = update q.state index cons_locked }) (consumer index false)
      else quietly q consume_loop

  -- The `fetch_add` of an accessor's destructor.
  pub step_refund : Outcome A
  step_refund = quietly (record q { free_count = wrap32 (q.free_count +ℤ pos 1) }) idle

module _ {ℓ} {A : Type ℓ} (auto_complete : Bool) (q : Queue A) where
  -- The first part of `~producer_accessor`: the store that publishes the slot or gives it back.
  pub destroy_producer : (index : ℕ) (m_complete : Bool) → Outcome A
  destroy_producer index m_complete =
      if is_complete auto_complete m_complete
      then record {
        queue = record q { state = update q.state index ready };
        pc = idle;
        event = publish (q.payload index);
      }
      else quietly (record q { state = update q.state index free }) refund

  -- The first part of `~consumer_accessor`.
  pub destroy_consumer : (index : ℕ) (m_complete : Bool) → Outcome A
  destroy_consumer index m_complete =
      if is_complete auto_complete m_complete
      then record {
        queue = record q { state = update q.state index free };
        pc = refund;
        event = consume (q.payload index);
      }
      else quietly (record q { state = update q.state index ready }) idle

  -- What the owner of a producer's accessor may do with it.
  pub use_producer : (index : ℕ) (m_complete : Bool) → Act A → Outcome A
  unfolding destroy_producer
  use_producer index m_complete (write_producer v) =
      quietly (record q { payload = update q.payload index v }) (producer index m_complete)
  use_producer index m_complete call_complete =
      quietly q (producer index (complete auto_complete m_complete))
  use_producer index m_complete destroy = destroy_producer index m_complete
  use_producer index m_complete _ = quietly q (producer index m_complete)

  -- The accessor of a consumer gives a mutable reference too.
  pub use_consumer : (index : ℕ) (m_complete : Bool) → Act A → Outcome A
  unfolding destroy_consumer
  use_consumer index m_complete (write_consumer v) =
      quietly (record q { payload = update q.payload index v }) (consumer index m_complete)
  use_consumer index m_complete call_complete =
      quietly q (consumer index (complete auto_complete m_complete))
  use_consumer index m_complete destroy = destroy_consumer index m_complete
  use_consumer index m_complete _ = quietly q (consumer index m_complete)

-- The calls that an idle thread may begin. `shutdown` is one store, `stop` the first of two.
unfoldable pub begin {ℓ} : {A : Type ℓ} → Queue A → Act A → Outcome A
begin q (call_producer_slot attempts) = quietly q (produce_enter attempts)
begin q call_consumer_slot = quietly q consume_loop
begin q call_shutdown = quietly (record q { producer_enable = false }) idle
begin q call_stop = quietly (record q { producer_enable = false }) stopping
begin q _ = quietly q idle
