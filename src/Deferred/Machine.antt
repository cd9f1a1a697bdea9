-- ===== src/Deferred/Machine.antt =====
-- mpmcdd_queue with its threads interleaved: the accesses of `enqueue`, `dequeue` and `purge` one by
-- one, with the locks of color_barrier.hpp that they hold. A node is named by its place in the order in
-- which the nodes are linked; it is private to its thread before that.
use fast_mpmc_queue.Prelude.{
  ℕ, ◌+◌, true, false, ◌==◌, if◌then◌else◌, Option, none, some, List, [], ◌∷◌, update,
}
use fast_mpmc_queue.Barrier.{ColorBarrier, incremented, decremented}
use fast_mpmc_queue.Deferred.{Queue, new_queue}

-- Where a thread stands: the access that it makes next.
pub data Pc {ℓ} (A : Type ℓ) : Type ℓ where
  idle : Pc A
  stopping : Pc A  -- the second store of `stop`
  leave_green : Pc A  -- `~green_lock`
  enqueue_test : A → Pc A
  enqueue_wait : A → Pc A  -- the loop of `green_lock`
  enqueue_enter : A → Pc A  -- its increment
  enqueue_loop : A → Pc A  -- the test of `m_producing`
  enqueue_tail : A → Pc A
  enqueue_next : A → (tail : ℕ) → Pc A
  enqueue_check : A → (tail : ℕ) (next : Option ℕ) → Pc A  -- `m_tail.load() == tail`
  enqueue_advance : A → (next : ℕ) → Pc A  -- `m_tail.store(next)`
  enqueue_link : A → (tail : ℕ) → Pc A  -- the compare-exchange
  dequeue_wait : Pc A
  dequeue_enter : Pc A
  dequeue_loop : Pc A  -- the test of `m_consuming`
  dequeue_head : Pc A
  dequeue_next : (head : ℕ) → Pc A
  dequeue_check : (head : ℕ) (first : Option ℕ) → Pc A  -- `head == m_head.load()`
  dequeue_tail : (head first : ℕ) → Pc A  -- `m_tail.load() == head`
  dequeue_advance : (head first : ℕ) → Pc A  -- the compare-exchange on `m_tail`
  dequeue_mark : (head first : ℕ) → Pc A  -- `m_deleted.test_and_set()`
  dequeue_exchange : (head first : ℕ) → Pc A  -- the compare-exchange on `m_head`
  dequeue_push : (head : ℕ) → Pc A  -- `m_deleted.exchange(head)`
  dequeue_store : (head : ℕ) (old : Option ℕ) → Pc A  -- the store to `m_next_deleted`
  purge_wait : Pc A  -- the loop of `red_lock`
  purge_enter : Pc A
  purge_list : Pc A  -- the load of `m_deleted`
  purge_loop : (current : Option ℕ) → Pc A
  purge_next : (current : ℕ) → Pc A
  purge_delete : (current : ℕ) (next : Option ℕ) → Pc A
  leave_red : Pc A

pub data Act {ℓ} (A : Type ℓ) : Type ℓ where
  go : Act A
  call_enqueue : A → Act A
  call_dequeue : Act A
  call_purge : Act A
  call_shutdown : Act A
  call_stop : Act A

-- The queue, its barrier and its threads; which thread was the last to store to `m_tail` in `enqueue`;
-- and what has entered the queue and what `dequeue` has taken from it, the newest first. Of the calls
-- of `enqueue`, the payloads of all, of those that have returned false, and of those that return true
-- without having linked a node, since the loop has found `m_producing` clear.
pub record System {ℓ} (A : Type ℓ) : Type ℓ where
  pub queue : Queue A
  pub barrier : ColorBarrier
  pub pc : ℕ → Pc A
  pub mover : ℕ
  pub enqueued : List A
  pub dequeued : List (Option A)
  pub called : List A
  pub refused : List A
  pub leaked : List A

module _ {ℓ} {A : Type ℓ} where
  unfoldable pub start : System A
  unfolding new_queue
  start = record {
    queue = new_queue;
    barrier = record { red_counter = 0; green_counter = 0 };
    pc = λ i. idle;
    mover = 0;
    enqueued = [];
    dequeued = [];
    called = [];
    refused = [];
    leaked = [];
  }

  -- The thread moves on, and the queue or the barrier changes.
  abbrev pub move : System A → ℕ → Queue A → Pc A → System A
  move s i q p = record s { queue = q; pc = update s.pc i p }

  abbrev pub pass : System A → ℕ → ColorBarrier → Pc A → System A
  pass s i b p = record s { barrier = b; pc = update s.pc i p }

  module _ (s : System A) (i : ℕ) where
    -- The calls that an idle thread may begin.
    unfoldable pub begin : Act A → System A
    begin (call_enqueue v) = record s { pc = update s.pc i (enqueue_test v); called = v ∷ s.called }
    begin call_dequeue = move s i s.queue dequeue_wait
    begin call_purge = move s i s.queue purge_wait
    begin call_shutdown = move s i (record s.queue { producing = false }) idle
    begin call_stop = move s i (record s.queue { producing = false }) stopping
    begin go = move s i s.queue idle

    -- The constructors and destructors of the two locks.
    unfoldable pub step_green_wait : (again inside : Pc A) → System A
    step_green_wait again inside =
        move s i s.queue (if s.barrier.red_counter == 0 then inside else again)

    unfoldable pub step_green_enter : (inside : Pc A) → System A
    step_green_enter inside =
        pass s i (record s.barrier { green_counter = incremented s.barrier.green_counter }) inside

    unfoldable pub step_leave_green : System A
    step_leave_green =
        pass s i (record s.barrier { green_counter = decremented s.barrier.green_counter }) idle

    unfoldable pub step_red_wait : System A
    step_red_wait =
        move s i s.queue (if s.barrier.green_counter == 0 then purge_enter else purge_wait)

    unfoldable pub step_red_enter : System A
    step_red_enter =
        pass s i (record s.barrier { red_counter = incremented s.barrier.red_counter }) purge_list

    unfoldable pub step_leave_red : System A
    step_leave_red =
        pass s i (record s.barrier { red_counter = decremented s.barrier.red_counter }) idle

    -- `enqueue`
    unfoldable pub step_enqueue_test : A → System A
    step_enqueue_test v = record s {
      pc = update s.pc i (if s.queue.producing then enqueue_wait v else idle);
      refused = if s.queue.producing then s.refused else v ∷ s.refused;
    }

    unfoldable pub step_enqueue_loop : A → System A
    step_enqueue_loop v = record s {
      pc = update s.pc i (if s.queue.producing then enqueue_tail v else leave_green);
      leaked = if s.queue.producing then s.leaked else v ∷ s.leaked;
    }

    unfoldable pub step_enqueue_check : A → (tail : ℕ) (next : Option ℕ) → System A
    step_enqueue_check v tail next = move s i s.queue (
        if s.queue.tail == tail
        then elim next [ none ↦ enqueue_link v tail | some n ↦ enqueue_advance v n ]
        else enqueue_loop v)

    unfoldable pub step_enqueue_advance : A → (next : ℕ) → System A
    step_enqueue_advance v next = record s {
      queue = record s.queue { tail = next };
      pc = update s.pc i (enqueue_loop v);
      mover = i;
    }

    -- The compare-exchange, when the successor of `tail` is found as it is.
    unfoldable pub link_after : A → (tail : ℕ) (found : Option ℕ) → System A
    link_after v tail none = record s {
      queue = record s.queue {
        allocated = s.queue.allocated + 1;
        next = update s.queue.next tail (some s.queue.allocated);
        data_of = update s.queue.data_of s.queue.allocated (some v);
      };
      pc = update s.pc i leave_green;
      enqueued = v ∷ s.enqueued;
    }
    link_after v tail (some n) = move s i s.queue (enqueue_loop v)

    unfoldable pub step_enqueue_link : A → (tail : ℕ) → System A
    step_enqueue_link v tail = link_after v tail (s.queue.next tail)

    -- `dequeue`
    unfoldable pub step_dequeue_loop : System A
    step_dequeue_loop = move s i s.queue (if s.queue.consuming then dequeue_head else leave_green)

    unfoldable pub step_dequeue_check : (head : ℕ) (first : Option ℕ) → System A
    step_dequeue_check head first = move s i s.queue (
        if head == s.queue.head
        then elim first [ none ↦ leave_green | some f ↦ dequeue_tail head f ]
        else dequeue_loop)

    unfoldable pub step_dequeue_tail : (head first : ℕ) → System A
    step_dequeue_tail head first =
        move s i s.queue
          (if s.queue.tail == head then dequeue_advance head first else dequeue_mark head first)

    unfoldable pub step_dequeue_advance : (head first : ℕ) → System A
    step_dequeue_advance head first =
        move s i (record s.queue { tail = if s.queue.tail == head then first else s.queue.tail })
          dequeue_loop

    unfoldable pub step_dequeue_mark : (head first : ℕ) → System A
    step_dequeue_mark head first =
        move s i (record s.queue { is_deleted = update s.queue.is_deleted first true })
          (if s.queue.is_deleted first then dequeue_loop else dequeue_exchange head first)

    -- The data is moved out of the new head by the thread that has made it the head.
    unfoldable pub step_dequeue_exchange : (head first : ℕ) → System A
    step_dequeue_exchange head first =
        if s.queue.head == head
        then record s {
          queue = record s.queue { head = first; data_of = update s.queue.data_of first none };
          pc = update s.pc i (dequeue_push head);
          dequeued = s.queue.data_of first ∷ s.dequeued;
        }
        else move s i s.queue dequeue_loop

    unfoldable pub step_dequeue_push : (head : ℕ) → System A
    step_dequeue_push head =
        move s i (record s.queue { deleted = some head }) (dequeue_store head s.queue.deleted)

    unfoldable pub step_dequeue_store : (head : ℕ) (old : Option ℕ) → System A
    step_dequeue_store head old =
        move s i (record s.queue { next_deleted = update s.queue.next_deleted head old })
          leave_green

    -- `purge`
    unfoldable pub step_purge_loop : (current : Option ℕ) → System A
    step_purge_loop current = move s i s.queue (elim current [
      | none ↦ leave_red
      | some k ↦ if s.queue.consuming then purge_next k else leave_red
    ])

    unfoldable pub step_purge_delete : (current : ℕ) (next : Option ℕ) → System A
    step_purge_delete current next =
        move s i (record s.queue { freed = update s.queue.freed current true }) (purge_loop next)

    -- One access of thread `i`, which stands at the given place.
    unfoldable pub step : Pc A → Act A → System A
    unfolding begin step_green_wait step_green_enter step_leave_green step_red_wait step_red_enter
        step_leave_red step_enqueue_test step_enqueue_loop step_enqueue_check step_enqueue_advance
        step_enqueue_link step_dequeue_loop step_dequeue_check step_dequeue_tail
        step_dequeue_advance step_dequeue_mark step_dequeue_exchange step_dequeue_push
        step_dequeue_store step_purge_loop step_purge_delete
    step idle a = begin a
    step stopping a = move s i (record s.queue { consuming = false }) idle
    step leave_green a = step_leave_green
    step (enqueue_test v) a = step_enqueue_test v
    step (enqueue_wait v) a = step_green_wait (enqueue_wait v) (enqueue_enter v)
    step (enqueue_enter v) a = step_green_enter (enqueue_loop v)
    step (enqueue_loop v) a = step_enqueue_loop v
    step (enqueue_tail v) a = move s i s.queue (enqueue_next v s.queue.tail)
    step (enqueue_next v tail) a = move s i s.queue (enqueue_check v tail (s.queue.next tail))
    step (enqueue_check v tail next) a = step_enqueue_check v tail next
    step (enqueue_advance v next) a = step_enqueue_advance v next
    step (enqueue_link v tail) a = step_enqueue_link v tail
    step dequeue_wait a = step_green_wait dequeue_wait dequeue_enter
    step dequeue_enter a = step_green_enter dequeue_loop
    step dequeue_loop a = step_dequeue_loop
    step dequeue_head a = move s i s.queue (dequeue_next s.queue.head)
    step (dequeue_next head) a = move s i s.queue (dequeue_check head (s.queue.next head))
    step (dequeue_check head first) a = step_dequeue_check head first
    step (dequeue_tail head first) a = step_dequeue_tail head first
    step (dequeue_advance head first) a = step_dequeue_advance head first
    step (dequeue_mark head first) a = step_dequeue_mark head first
    step (dequeue_exchange head first) a = step_dequeue_exchange head first
    step (dequeue_push head) a = step_dequeue_push head
    step (dequeue_store head old) a = step_dequeue_store head old
    step purge_wait a = step_red_wait
    step purge_enter a = step_red_enter
    step purge_list a = move s i s.queue (purge_loop s.queue.deleted)
    step (purge_loop current) a = step_purge_loop current
    step (purge_next current) a =
        move s i s.queue (purge_delete current (s.queue.next_deleted current))
    step (purge_delete current next) a = step_purge_delete current next
    step leave_red a = step_leave_red

  -- A schedule: a list of threads and what they choose.
  unfoldable pub run : System A → List (ℕ × Act A) → System A
  run s [] = s
  run s ((i, a) ∷ xs) = run (step s i (s.pc i) a) xs
