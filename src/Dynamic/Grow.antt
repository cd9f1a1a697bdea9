-- ===== src/Dynamic/Grow.antt =====
-- `grow` of dynamic_fast_mpmc_queue, and the check that comes before it.
use fast_mpmc_queue.Prelude.{
  ℕ, ◌+◌, ◌-◌, ◌*◌, ◌%◌, ◌^◌, Bool, true, false, ◌==◌, if◌then◌else◌, update, ℤ, pos, ◌+ℤ◌, ◌-ℤ◌,
  ltb_ℤ, eqb_ℤ, wrap32,
}
use fast_mpmc_queue.Slots.Threads.{quietly}
use fast_mpmc_queue.Dynamic.{
  Config, GrowthPolicy, Queue, slot_count, assemble, Resume, at_call, at_step, at_round, Pc, idle,
  check_free, check_capacity, grow_lock, grow_test, grow_link, grow_capacity, grow_free,
  grow_cursor, grow_unlock, produce_round, produce_load, Act, allocates, Outcome,
}

-- The end of a round of `for (count = m_capacity; count; --count)`: the next attempt, or the end of
-- the call. `--acquire_attempts` wraps at 32 bits.
pub end_round : Config → (attempts : ℕ) → Pc
end_round c attempts =
    let left = (attempts + 2 ^ 32 - 1) % 2 ^ 32 in
    if left == 0
    then idle
    else elim c.growth [ GrowthPolicy.round ↦ check_free (at_round left) | _ ↦ produce_round left ]

-- The head of that loop, with `count` to be tested.
unfoldable pub loop_head : Config → (attempts : ℕ) (count : ℤ) → Pc
unfolding end_round
loop_head c attempts count =
    if eqb_ℤ count (pos 0) then end_round c attempts else produce_load attempts count

-- Where a successful check leads.
unfoldable pub resume : Config → Resume → Pc
unfolding loop_head
resume c (at_call attempts) = produce_round attempts
resume c (at_step attempts count) = loop_head c attempts (wrap32 (count -ℤ pos 1))
resume c (at_round attempts) = produce_round attempts

module _ {ℓ} {A : Type ℓ} (c : Config) (q : Queue A) where
  -- `m_free.load() == 0 && (…)`
  unfoldable pub step_check_free : Resume → Outcome A
  unfolding resume
  step_check_free to =
      quietly q (if eqb_ℤ q.free_count (pos 0) then check_capacity to else resume c to)

  -- `m_capacity.load() >= S * L || !grow()`
  unfoldable pub step_check_capacity : Resume → Outcome A
  step_check_capacity to =
      quietly q
        (if ltb_ℤ q.capacity (pos (c.block_size * c.max_blocks)) then grow_lock to else idle)

  -- `while (m_flag.test_and_set())` of the spinlock
  unfoldable pub step_grow_lock : Resume → Outcome A
  step_grow_lock to =
      quietly (record q { spinlock = true }) (if q.spinlock then grow_lock to else grow_test to)

  -- `if (m_free.load()) return true;`
  unfoldable pub step_grow_test : Resume → Outcome A
  step_grow_test to =
      quietly q (if eqb_ℤ q.free_count (pos 0) then grow_link to else grow_unlock to true)

  -- The block is allocated and assembled before anyone can reach it, and the ring is opened to it by
  -- one write. If the allocation throws, the last slot is closed to the first again.
  unfoldable pub step_grow_link : Resume → Act A → Outcome A
  unfolding assemble
  step_grow_link to a =
      let first_new = slot_count c.block_size q.last_block in
      let last_slot = first_new - 1 in
      if allocates a
      then quietly
          (record q {
            last_block = q.last_block + 1;
            next =
                update (assemble c.block_size first_new (q.next last_slot) q.next) last_slot
                  first_new;
          })
          (grow_capacity to last_slot)
      else quietly (record q { next = update q.next last_slot 0 }) (grow_unlock to false)

  unfoldable pub step_grow_capacity : Resume → (last_slot : ℕ) → Outcome A
  step_grow_capacity to last_slot =
      quietly (record q { capacity = wrap32 (q.capacity +ℤ pos c.block_size) })
        (grow_free to last_slot)

  unfoldable pub step_grow_free : Resume → (last_slot : ℕ) → Outcome A
  step_grow_free to last_slot =
      quietly (record q { free_count = wrap32 (q.free_count +ℤ pos c.block_size) })
        (grow_cursor to last_slot)

  unfoldable pub step_grow_cursor : Resume → (last_slot : ℕ) → Outcome A
  step_grow_cursor to last_slot =
      quietly (record q { producer_cursor = q.next last_slot }) (grow_unlock to true)

  unfoldable pub step_grow_unlock : Resume → (grown : Bool) → Outcome A
  unfolding resume
  step_grow_unlock to grown =
      quietly (record q { spinlock = false }) (if grown then resume c to else idle)
