-- ===== src/Epoch/Transfer.antt =====
-- include/xtxn/mpmc_queue.hpp: the loops of `enqueue` and `dequeue`, one access at a time.
use fast_mpmc_queue.Prelude.{
  ℕ, ◌+◌, ◌==◌, if◌then◌else◌, Option, none, some, ◌∷◌, update, pos, ◌-ℤ◌, wrap64, eqb_ℤ,
}
use fast_mpmc_queue.Epoch.{
  Config, beyond_epoch, put, take, to_dequeue, idle, register_epoch, finish, enqueue_loop,
  enqueue_tail, enqueue_advance, enqueue_link, enqueue_swing, dequeue_loop, dequeue_head,
  dequeue_tail, dequeue_advance, dequeue_test, dequeue_exchange, dequeue_stamp, dequeue_push,
  dequeue_store, purge_lock, System,
}
use fast_mpmc_queue.Epoch.Register.{move}

module _ {ℓ} {A : Type ℓ} (s : System A) (i : ℕ) where
  unfoldable pub step_enqueue_test : A → System A
  step_enqueue_test v = record s {
    pc = update s.pc i (if s.queue.producing then register_epoch (put v) else idle);
    refused = if s.queue.producing then s.refused else v ∷ s.refused;
  }

  unfoldable pub step_enqueue_loop : A → (epoch : ℕ) → System A
  step_enqueue_loop v epoch = record s {
    pc = update s.pc i (if s.queue.producing then enqueue_tail v epoch else finish epoch);
    leaked = if s.queue.producing then s.leaked else v ∷ s.leaked;
  }

  unfoldable pub step_enqueue_next : A → (epoch tail : ℕ) → System A
  step_enqueue_next v epoch tail = move s i s.queue (elim (s.queue.next tail) [
    | none ↦ enqueue_link v epoch tail
    | some n ↦ enqueue_advance v epoch n
  ])

  unfoldable pub step_enqueue_advance : A → (epoch next : ℕ) → System A
  step_enqueue_advance v epoch next =
      move s i (record s.queue { tail = next }) (enqueue_loop v epoch)

  -- The compare-exchange, when the successor of `tail` is found as it is.
  unfoldable pub link_after : A → (epoch tail : ℕ) (found : Option ℕ) → System A
  link_after v epoch tail none = record s {
    queue = record s.queue {
      allocated = s.queue.allocated + 1;
      next = update s.queue.next tail (some s.queue.allocated);
      data_of = update s.queue.data_of s.queue.allocated (some v);
    };
    pc = update s.pc i (enqueue_swing epoch s.queue.allocated);
    enqueued = v ∷ s.enqueued;
  }
  link_after v epoch tail (some n) = move s i s.queue (enqueue_loop v epoch)

  unfoldable pub step_enqueue_link : A → (epoch tail : ℕ) → System A
  step_enqueue_link v epoch tail = link_after v epoch tail (s.queue.next tail)

  unfoldable pub step_enqueue_swing : (epoch new_node : ℕ) → System A
  step_enqueue_swing epoch new_node = move s i (record s.queue { tail = new_node }) (finish epoch)

  -- `m_purge_counter.fetch_sub(1)`; without a purge thread, the call that takes it from 1 purges.
  unfoldable pub step_dequeue_count : Config → System A
  step_dequeue_count c =
      move s i (record s.queue { purge_counter = wrap64 (s.queue.purge_counter -ℤ pos 1) })
        (if c.purge_thread
          then register_epoch take
          else if eqb_ℤ s.queue.purge_counter (pos 1)
          then purge_lock to_dequeue
          else register_epoch take)

  unfoldable pub step_dequeue_loop : (epoch : ℕ) → System A
  step_dequeue_loop epoch =
      move s i s.queue (if s.queue.consuming then dequeue_head epoch else finish epoch)

  unfoldable pub step_dequeue_next : (epoch head : ℕ) → System A
  step_dequeue_next epoch head =
      move s i s.queue
        (elim (s.queue.next head) [ none ↦ finish epoch | some f ↦ dequeue_tail epoch head f ])

  unfoldable pub step_dequeue_tail : (epoch head first : ℕ) → System A
  step_dequeue_tail epoch head first = move s i s.queue (
      if s.queue.tail == head
      then dequeue_advance epoch head first
      else dequeue_test epoch head first)

  unfoldable pub step_dequeue_advance : (epoch head first : ℕ) → System A
  step_dequeue_advance epoch head first =
      move s i (record s.queue { tail = first }) (dequeue_loop epoch)

  unfoldable pub step_dequeue_test : (epoch head first : ℕ) → System A
  step_dequeue_test epoch head first = move s i s.queue (
      if s.queue.deleted_at first == beyond_epoch
      then dequeue_exchange epoch head first
      else dequeue_loop epoch)

  -- The data is moved out of the new head by the thread that has made it the head.
  unfoldable pub step_dequeue_exchange : (epoch head first : ℕ) → System A
  step_dequeue_exchange epoch head first =
      if s.queue.head == head
      then record s {
        queue = record s.queue { head = first; data_of = update s.queue.data_of first none };
        pc = update s.pc i (dequeue_stamp epoch head first);
        dequeued = s.queue.data_of first ∷ s.dequeued;
      }
      else move s i s.queue (dequeue_loop epoch)

  unfoldable pub step_dequeue_stamp : (epoch head first : ℕ) → System A
  step_dequeue_stamp epoch head first =
      move s i (record s.queue { deleted_at = update s.queue.deleted_at first epoch })
        (dequeue_push epoch head)

  unfoldable pub step_dequeue_push : (epoch head : ℕ) → System A
  step_dequeue_push epoch head =
      move s i (record s.queue { deleted = some head }) (dequeue_store epoch head s.queue.deleted)

  unfoldable pub step_dequeue_store : (epoch head : ℕ) (old : Option ℕ) → System A
  step_dequeue_store epoch head old =
      move s i (record s.queue { next_deleted = update s.queue.next_deleted head old })
        (finish epoch)
