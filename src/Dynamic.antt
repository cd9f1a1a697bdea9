-- ===== src/Dynamic.antt =====
-- include/xtxn/dynamic_fast_mpmc_queue.hpp: the queue over a ring of slots that grows by blocks.
-- Threads run its functions one access of a shared variable at a time, in any interleaving.
pub mod Grow
pub mod Produce
pub mod Consume
pub mod Machine
pub mod View
pub mod Ring
pub mod Access
pub mod Refine
pub mod Capacity
pub mod Limit
pub mod Lock
pub mod Invariant
pub mod Safety
pub mod Delivery
mod Tests
use fast_mpmc_queue.Prelude.{
  ℕ, suc, ◌+◌, ◌-◌, ◌*◌, ◌%◌, ◌^◌, Bool, true, false, not, ◌==◌, leb, ltb, ◌&&◌, if◌then◌else◌,
  update, ℤ, pos, ◌+ℤ◌, ◌-ℤ◌, ltb_ℤ, eqb_ℤ, wrap32,
}
use fast_mpmc_queue.Slots.Threads
use fast_mpmc_queue.Slots.Threads.{publish, consume, quietly}
use fast_mpmc_queue.Slots.{
  SlotState, free, prod_locked, ready, cons_locked, is_state, complete, is_complete,
}

-- `queue_growth_policy`
pub data GrowthPolicy : Type 0 where
  call round step : GrowthPolicy

-- The template parameters: S, L, C and G.
pub record Config : Type 0 where
  pub block_size : ℕ
  pub max_blocks : ℕ
  pub auto_complete : Bool
  pub growth : GrowthPolicy

-- A slot is named by its place in the order of allocation: slot `k` of block `b` is
-- `b * block_size + k`. A block is named by its place in the chain of blocks.
pub record Queue {ℓ} (A : Type ℓ) : Type ℓ where
  pub last_block : ℕ
  pub capacity : ℤ
  pub spinlock : Bool
  pub producer_cursor : ℕ
  pub producer_enable : Bool
  pub consumer_cursor : ℕ
  pub consumer_enable : Bool
  pub free_count : ℤ
  pub next : ℕ → ℕ  -- `m_next` of a slot
  pub state : ℕ → SlotState
  pub payload : ℕ → A

-- `assemble` on the block that begins at slot `first`: its slots are chained, and the last one goes
-- on to `target`.
unfoldable pub assemble : (block_size first target : ℕ) → (ℕ → ℕ) → ℕ → ℕ
assemble block_size first target next j =
    if leb first j && ltb (j + 1) (first + block_size)
    then j + 1
    else (if (j + 1) == (first + block_size) then target else next j)

-- The slots of the blocks up to `last_block`.
abbrev pub slot_count : (block_size last_block : ℕ) → ℕ
slot_count block_size last_block = (last_block + 1) * block_size

-- The constructor of the queue: one block, closed to a ring.
unfoldable pub new_queue {ℓ} : {A : Type ℓ} → Config → (default : A) → Queue A
unfolding assemble
new_queue c default = record {
  last_block = 0;
  capacity = pos c.block_size;
  spinlock = false;
  producer_cursor = 0;
  producer_enable = true;
  consumer_cursor = 0;
  consumer_enable = true;
  free_count = pos c.block_size;
  next = assemble c.block_size 0 0 (λ j. 0);
  state = λ k. free;
  payload = λ k. default;
}

-- Where `producer_slot` goes on when the check for a free slot, or a growth, has succeeded.
pub data Resume : Type 0 where
  at_call : (attempts : ℕ) → Resume
  at_step : (attempts : ℕ) (count : ℤ) → Resume
  at_round : (attempts : ℕ) → Resume

-- Where a thread stands: the access that it makes next, with the local variables that are live.
pub data Pc : Type 0 where
  idle : Pc
  stopping : Pc  -- the second store of `stop`
  produce_enter : (attempts : ℕ) → Pc  -- the first test of `m_enable`
  check_free : (to : Resume) → Pc  -- `m_free.load() == 0`
  check_capacity : (to : Resume) → Pc  -- `m_capacity.load() >= S * L`
  grow_lock : (to : Resume) → Pc  -- the spinlock of `grow`
  grow_test : (to : Resume) → Pc  -- `if (m_free.load())` under the lock
  grow_link : (to : Resume) → Pc  -- the new block
  grow_capacity : (to : Resume) (last_slot : ℕ) → Pc
  grow_free : (to : Resume) (last_slot : ℕ) → Pc
  grow_cursor : (to : Resume) (last_slot : ℕ) → Pc
  grow_unlock : (to : Resume) (grown : Bool) → Pc  -- the end of the scope of the lock
  produce_round : (attempts : ℕ) → Pc  -- `count = m_capacity.load()`
  produce_load : (attempts : ℕ) (count : ℤ) → Pc  -- the load of the cursor
  produce_next : (attempts : ℕ) (count : ℤ) (current : ℕ) → Pc  -- the read of `m_next`
  produce_store : (attempts : ℕ) (count : ℤ) (current target : ℕ) → Pc
  produce_lock : (attempts : ℕ) (count : ℤ) (current : ℕ) → Pc  -- the compare-exchange
  produce_test : (attempts : ℕ) (count : ℤ) → Pc  -- the test of `m_enable` after it
  produce_take : (slot : ℕ) → Pc  -- `fetch_sub` in the accessor's constructor
  producer : (slot : ℕ) (m_complete : Bool) → Pc
  consume_loop : Pc  -- the test of `m_enable`
  consume_free : Pc  -- the load of `m_free`
  consume_capacity : (seen_free : ℤ) → Pc  -- the load of `m_capacity`
  consume_load : Pc
  consume_next : (current : ℕ) → Pc
  consume_store : (current target : ℕ) → Pc
  consume_lock : (current : ℕ) → Pc
  consumer : (slot : ℕ) (m_complete : Bool) → Pc
  refund : Pc  -- `m_free.fetch_add(1)` in an accessor's destructor

-- What is not decided by the code: the calls that a thread makes, the payload that it writes, and
-- whether `new block` throws. The accessor of a consumer gives no access for writing.
pub data Act {ℓ} (A : Type ℓ) : Type ℓ where
  go : Act A
  bad_alloc : Act A
  call_producer_slot : (attempts : ℕ) → Act A
  call_consumer_slot : Act A
  call_shutdown : Act A
  call_stop : Act A
  write_producer : A → Act A
  call_complete : Act A
  destroy : Act A

abbrev pub Outcome {ℓ} : Type ℓ → Type ℓ
Outcome A = Threads.Outcome (Queue A) Pc A

abbrev pub allocates {ℓ} : {A : Type ℓ} → Act A → Bool
allocates bad_alloc = false
allocates _ = true
