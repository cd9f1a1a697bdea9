-- ===== src/Dynamic/View.antt =====
-- What the slot protocol sees of a dynamic queue and its threads.
use fast_mpmc_queue.Prelude.{ℕ, ◌<◌, ◌≤◌, arith}
use fast_mpmc_queue.Slots.Protocol.{Claim, View}
use fast_mpmc_queue.Slots.Threads
use fast_mpmc_queue.Slots.Threads.{Core}
use fast_mpmc_queue.Dynamic.{
  Config, Queue, slot_count, Pc, idle, grow_capacity, grow_free, grow_cursor, produce_next,
  produce_store, produce_lock, produce_take, producer, consume_next, consume_store, consume_lock,
  consumer, refund,
}
use fast_mpmc_queue.Dynamic.Machine.{System}

-- What the thread holds. A thread that has linked a block owes its slots to the free counter.
abbrev pub claim_of : (block_size : ℕ) → Pc → Claim
claim_of block_size (grow_capacity to last_slot) = Claim.owing block_size
claim_of block_size (grow_free to last_slot) = Claim.owing block_size
claim_of block_size (produce_take slot) = Claim.locking slot
claim_of block_size (producer slot _) = Claim.producing slot
claim_of block_size (consumer slot _) = Claim.consuming slot
claim_of block_size refund = Claim.owing 1
claim_of block_size _ = Claim.idle

-- The slots that a thread has in its local variables exist.
abbrev pub IsInside : ℕ → Pc → Type 0
IsInside cap (grow_capacity to last_slot) = last_slot < cap
IsInside cap (grow_free to last_slot) = last_slot < cap
IsInside cap (grow_cursor to last_slot) = last_slot < cap
IsInside cap (produce_next attempts count current) = current < cap
IsInside cap (produce_store attempts count current target) = (current < cap) × (target < cap)
IsInside cap (produce_lock attempts count current) = current < cap
IsInside cap (consume_next current) = current < cap
IsInside cap (consume_store current target) = (current < cap) × (target < cap)
IsInside cap (consume_lock current) = current < cap
IsInside cap _ = Unit

pub IsInside-mono : (cap cap' : ℕ) (p : Pc) → cap ≤ cap' → IsInside cap p → IsInside cap' p
IsInside-mono cap cap' idle h i = tt
IsInside-mono cap cap' _ h i = ground arith

module _ {ℓ} {A : Type ℓ} (c : Config) where
  -- The slots that are linked.
  abbrev pub cap_of : Queue A → ℕ
  cap_of q = slot_count c.block_size q.last_block

  abbrev pub core : Queue A → Core A
  core q = record { cap = cap_of q; balance = q.free_count; state = q.state; payload = q.payload }

  abbrev pub view : System A → View A
  view s = Threads.view core (claim_of c.block_size) s
