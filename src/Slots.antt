-- ===== src/Slots.antt =====
-- include/xtxn/fast_mpmc_queue_commons.hpp: the states of a slot and the completion of an accessor,
-- and (in the children) the protocol by which both fast queues hand slots from thread to thread.
pub mod Protocol
pub mod Counts
pub mod Invariant
pub mod Moves
pub mod Bounds
pub mod Threads
pub mod Delivery
use fast_mpmc_queue.Prelude.{Bool, true, false, ◌||◌, if◌then◌else◌}

-- `queue_slot_state`
pub data SlotState : Type 0 where
  free prod_locked ready cons_locked : SlotState

-- The test of a compare-exchange on a slot's state.
abbrev pub is_state : SlotState → SlotState → Bool
is_state free free = true
is_state prod_locked prod_locked = true
is_state ready ready = true
is_state cons_locked cons_locked = true
is_state _ _ = false

-- `complete()` of the completion mixed into an accessor: it sets `m_complete` of a
-- `manual_completion`, and does nothing in an `auto_completion`.
abbrev pub complete : (auto_complete m_complete : Bool) → Bool
complete auto_complete m_complete = if auto_complete then m_complete else true

-- What the destructor of an accessor asks: was the work on the slot finished?
abbrev pub is_complete : (auto_complete m_complete : Bool) → Bool
is_complete auto_complete m_complete = auto_complete || m_complete
