-- ===== src/Epoch/Machine.antt =====
-- include/xtxn/mpmc_queue.hpp: its constructor, and its threads interleaved.
use fast_mpmc_queue.Prelude.{
  ℕ, ◌+◌, true, false, ◌==◌, if◌then◌else◌, none, List, [], ◌∷◌, pos, update,
}
use fast_mpmc_queue.Epoch.{
  Config, before_epoch, beyond_epoch, Queue, Pc, idle, aborted, construct_producing,
  construct_consuming, stopping, touch_lock, touch_assign, escape_lock, escape_erase, leave_map,
  register_epoch, register_lock, register_insert, register_unlock, finish, enqueue_test,
  enqueue_loop, enqueue_tail, enqueue_next, enqueue_advance, enqueue_link, enqueue_swing,
  dequeue_count, dequeue_loop, dequeue_head, dequeue_next, dequeue_tail, dequeue_advance,
  dequeue_test, dequeue_exchange, dequeue_stamp, dequeue_push, dequeue_store, purge_lock,
  purge_epoch, purge_map_lock, purge_min, purge_map_unlock, purge_list, purge_skip, purge_next,
  purge_at, purge_keep, purge_delete, purge_end, purge_unlock, reset_counter, cleaner_loop,
  cleaner_count, cleaner_yield, Act, System,
}
use fast_mpmc_queue.Epoch.Register.{
  move, begin, step_map_lock, step_map_unlock, step_touch_assign, step_escape_erase,
  step_register_epoch, step_register_insert, step_register_unlock, step_finish,
}
use fast_mpmc_queue.Epoch.Transfer.{
  step_enqueue_test, step_enqueue_loop, step_enqueue_next, step_enqueue_advance, step_enqueue_link,
  step_enqueue_swing, step_dequeue_count, step_dequeue_loop, step_dequeue_next, step_dequeue_tail,
  step_dequeue_advance, step_dequeue_test, step_dequeue_exchange, step_dequeue_stamp,
  step_dequeue_push, step_dequeue_store,
}
use fast_mpmc_queue.Epoch.Purge.{
  step_purge_lock, step_purge_min, step_purge_map_unlock, step_purge_list, step_purge_skip,
  step_purge_at, step_purge_keep, step_purge_delete, step_purge_end, step_purge_unlock,
  step_reset_counter, step_cleaner_loop, step_cleaner_count, step_cleaner_yield,
}

module _ {ℓ} {A : Type ℓ} (c : Config) where
  unfoldable pub new_queue : Queue A
  new_queue = record {
    head = 0;
    tail = 0;
    deleted = none;
    purge_counter = pos c.purge_counter;
    epoch = before_epoch + 1;
    purge_sl = false;
    epoch_sl = false;
    thread_epoch = [];
    producing = false;
    consuming = false;
    allocated = 1;
    next = λ k. none;
    next_deleted = λ k. none;
    deleted_at = λ k. beyond_epoch;
    data_of = λ k. none;
    freed = λ k. false;
  }

  -- Thread 0 is in the constructor and has started the purge thread, thread 1, if there is one.
  unfoldable pub start : System A
  unfolding new_queue
  start = record {
    queue = new_queue;
    pc = λ i.
        if i == 0
        then construct_producing
        else if i == 1
        then (if c.purge_thread then cleaner_loop else idle)
        else idle;
    is_built = false;
    enqueued = [];
    dequeued = [];
    called = [];
    refused = [];
    leaked = [];
  }

  module _ (s : System A) (i : ℕ) where
    unfoldable pub step_construct_consuming : System A
    step_construct_consuming = record s {
      queue = record s.queue { consuming = true };
      pc = update s.pc i idle;
      is_built = true;
    }

    -- One access of thread `i`, which stands at the given place.
    unfoldable pub step : Pc A → Act A → System A
    unfolding step_construct_consuming begin step_map_lock step_map_unlock step_touch_assign
        step_escape_erase step_register_epoch step_register_insert step_register_unlock step_finish
        step_enqueue_test step_enqueue_loop step_enqueue_next step_enqueue_advance step_enqueue_link
        step_enqueue_swing step_dequeue_count step_dequeue_loop step_dequeue_next step_dequeue_tail
        step_dequeue_advance step_dequeue_test step_dequeue_exchange step_dequeue_stamp
        step_dequeue_push step_dequeue_store step_purge_lock step_purge_min step_purge_map_unlock
        step_purge_list step_purge_skip step_purge_at step_purge_keep step_purge_delete
        step_purge_end step_purge_unlock step_reset_counter step_cleaner_loop step_cleaner_count
        step_cleaner_yield
    step idle a = begin s i a
    step (aborted op) a = move s i s.queue (aborted op)
    step construct_producing a = move s i (record s.queue { producing = true }) construct_consuming
    step construct_consuming a = step_construct_consuming
    step stopping a = move s i (record s.queue { consuming = false }) idle
    step touch_lock a = step_map_lock s i touch_lock touch_assign
    step touch_assign a = step_touch_assign s i
    step escape_lock a = step_map_lock s i escape_lock escape_erase
    step escape_erase a = step_escape_erase s i
    step leave_map a = step_map_unlock s i idle
    step (register_epoch op) a = step_register_epoch s i op
    step (register_lock op epoch) a =
        step_map_lock s i (register_lock op epoch) (register_insert op epoch)
    step (register_insert op epoch) a = step_register_insert s i op epoch
    step (register_unlock op epoch) a = step_register_unlock s i op epoch
    step (finish epoch) a = step_finish s i epoch
    step (enqueue_test v) a = step_enqueue_test s i v
    step (enqueue_loop v epoch) a = step_enqueue_loop s i v epoch
    step (enqueue_tail v epoch) a = move s i s.queue (enqueue_next v epoch s.queue.tail)
    step (enqueue_next v epoch tail) a = step_enqueue_next s i v epoch tail
    step (enqueue_advance v epoch next) a = step_enqueue_advance s i v epoch next
    step (enqueue_link v epoch tail) a = step_enqueue_link s i v epoch tail
    step (enqueue_swing epoch new_node) a = step_enqueue_swing s i epoch new_node
    step dequeue_count a = step_dequeue_count s i c
    step (dequeue_loop epoch) a = step_dequeue_loop s i epoch
    step (dequeue_head epoch) a = move s i s.queue (dequeue_next epoch s.queue.head)
    step (dequeue_next epoch head) a = step_dequeue_next s i epoch head
    step (dequeue_tail epoch head first) a = step_dequeue_tail s i epoch head first
    step (dequeue_advance epoch head first) a = step_dequeue_advance s i epoch head first
    step (dequeue_test epoch head first) a = step_dequeue_test s i epoch head first
    step (dequeue_exchange epoch head first) a = step_dequeue_exchange s i epoch head first
    step (dequeue_stamp epoch head first) a = step_dequeue_stamp s i epoch head first
    step (dequeue_push epoch head) a = step_dequeue_push s i epoch head
    step (dequeue_store epoch head old) a = step_dequeue_store s i epoch head old
    step (purge_lock r) a = step_purge_lock s i r
    step (purge_epoch r) a = move s i s.queue (purge_map_lock r s.queue.epoch)
    step (purge_map_lock r bound) a = step_map_lock s i (purge_map_lock r bound) (purge_min r bound)
    step (purge_min r bound) a = step_purge_min s i r bound
    step (purge_map_unlock r bound) a = step_purge_map_unlock s i r bound
    step (purge_list r bound) a = step_purge_list s i c r bound
    step (purge_skip r bound count current) a = step_purge_skip s i r bound count current
    step (purge_next r bound last current) a =
        move s i s.queue (purge_at r bound last current (s.queue.next_deleted current))
    step (purge_at r bound last current next) a = step_purge_at s i r bound last current next
    step (purge_keep r bound last current next) a = step_purge_keep s i r bound last current next
    step (purge_delete r bound last current next) a =
        step_purge_delete s i r bound last current next
    step (purge_end r last) a = step_purge_end s i r last
    step (purge_unlock r) a = step_purge_unlock s i r
    step (reset_counter r) a = step_reset_counter s i c r
    step cleaner_loop a = step_cleaner_loop s i
    step cleaner_count a = step_cleaner_count s i
    step cleaner_yield a = step_cleaner_yield s i

  -- A schedule: a list of threads and what they choose.
  unfoldable pub run : System A → List (ℕ × Act A) → System A
  run s [] = s
  run s ((i, a) ∷ xs) = run (step s i (s.pc i) a) xs
