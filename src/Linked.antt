-- ===== src/Linked.antt =====
-- include/xtxn/mpsc_queue.hpp and include/xtxn/mpmcsl_queue.hpp: queues of linked nodes. The two
-- classes differ in one thing: mpmcsl_queue holds its spinlock during an operation and allows many
-- consumers, mpsc_queue has no lock and wants one consumer. `locked` tells them apart.
pub mod Chain
pub mod Steps
pub mod Whole
pub mod Invariant
pub mod Reading
pub mod Safety
pub mod Destroy
mod Tests
use fast_mpmc_queue.Prelude.{
  ℕ, suc, ◌+◌, ◌≡◌, Bool, true, false, not, ◌&&◌, ◌||◌, ◌==◌, ltb, if◌then◌else◌, Option, none,
  some, List, [], ◌∷◌, update,
}
use fast_mpmc_queue.Spinlock.{try_lock, unlock}

-- A node is named by its place in the order in which `m_tail.exchange` takes the nodes in; it is
-- private to its thread before that. The node 0 is the constructor's.
pub record Queue {ℓ} (A : Type ℓ) : Type ℓ where
  pub head : ℕ
  pub tail : ℕ
  pub spinlock : Bool
  pub producing : Bool
  pub consuming : Bool
  pub next : ℕ → Option ℕ  -- `m_next` of a node
  pub data_of : ℕ → Option A  -- `m_data` of a node
  pub deleted : ℕ → Bool

unfoldable pub new_queue {ℓ} : {A : Type ℓ} → Queue A
new_queue = record {
  head = 0;
  tail = 0;
  spinlock = false;
  producing = true;
  consuming = true;
  next = λ k. none;
  data_of = λ k. none;
  deleted = λ k. false;
}

-- Where a thread stands: the access that it makes next.
pub data Pc {ℓ} (A : Type ℓ) : Type ℓ where
  idle : Pc A
  stopping : Pc A  -- the second store of `stop`
  enqueue_test : A → Pc A
  enqueue_lock : A → Pc A
  enqueue_exchange : A → Pc A
  enqueue_link : (before node : ℕ) → Pc A  -- the store to `m_next` of the node before
  dequeue_test : Pc A
  dequeue_lock : Pc A
  dequeue_head : Pc A
  dequeue_next : (head : ℕ) → Pc A
  dequeue_exchange : (next : ℕ) → Pc A  -- and `delete`, and the move of `m_data`
  unlocking : Pc A
  empty_head : Pc A  -- `m_head.load()` of `empty`, which takes no lock
  empty_next : (head : ℕ) → Pc A  -- `->m_next.load()` of `empty`

pub data Act {ℓ} (A : Type ℓ) : Type ℓ where
  go : Act A
  call_enqueue : A → Act A
  call_dequeue : Act A
  call_shutdown : Act A
  call_stop : Act A
  call_empty : Act A

-- A program: the queue, its threads, and what has entered the queue and what `dequeue` has returned
-- from it, the newest first.
pub record System {ℓ} (A : Type ℓ) : Type ℓ where
  pub queue : Queue A
  pub pc : ℕ → Pc A
  pub enqueued : List A
  pub dequeued : List (Option A)

module _ {ℓ} {A : Type ℓ} where
  unfoldable pub start : System A
  unfolding new_queue
  start = record { queue = new_queue; pc = λ i. idle; enqueued = []; dequeued = [] }

  -- `empty`, with no other thread between its two loads.
  abbrev pub empty : Queue A → Bool
  empty q = elim (q.next q.head) [ none ↦ true | some n ↦ false ]

  -- The thread moves on, and the queue changes.
  abbrev pub move : System A → ℕ → Queue A → Pc A → System A
  move s i q p = record s { queue = q; pc = update s.pc i p }

  module _ (locked : Bool) (s : System A) (i : ℕ) where
    -- The calls that an idle thread may begin.
    unfoldable pub begin : Act A → System A
    begin (call_enqueue v) = move s i s.queue (enqueue_test v)
    begin call_dequeue = move s i s.queue dequeue_test
    begin call_shutdown = move s i (record s.queue { producing = false }) idle
    begin call_stop = move s i (record s.queue { producing = false }) stopping
    begin call_empty = move s i s.queue empty_head
    begin go = move s i s.queue idle

    -- The end of an operation: the scope of the lock, where there is one.
    abbrev pub finish : Pc A
    finish = if locked then unlocking else idle

    unfoldable pub step_enqueue_test : A → System A
    step_enqueue_test v = move s i s.queue (
        if s.queue.producing then (if locked then enqueue_lock v else enqueue_exchange v) else idle)

    -- One round of `lock`, and where a thread goes on that has got it.
    unfoldable pub step_lock : (again inside : Pc A) → System A
    step_lock again inside =
        let (flag, got) = try_lock s.queue.spinlock in
        move s i (record s.queue { spinlock = flag }) (if got then inside else again)

    -- `new node` and `m_tail.exchange(new_node)`
    unfoldable pub step_enqueue_exchange : A → System A
    step_enqueue_exchange v =
        let node = s.queue.tail + 1 in
        record {
          queue = record s.queue { tail = node; data_of = update s.queue.data_of node (some v) };
          pc = update s.pc i (enqueue_link s.queue.tail node);
          enqueued = v ∷ s.enqueued;
          dequeued = s.dequeued;
        }

    -- `->m_next.store(new_node)`
    unfoldable pub step_enqueue_link : (before node : ℕ) → System A
    step_enqueue_link before node =
        move s i (record s.queue { next = update s.queue.next before (some node) }) finish

    unfoldable pub step_dequeue_test : System A
    step_dequeue_test =
        move s i s.queue
          (if s.queue.consuming then (if locked then dequeue_lock else dequeue_head) else idle)

    -- `m_head.load()->m_next.load()`
    unfoldable pub step_dequeue_head : System A
    step_dequeue_head = move s i s.queue (dequeue_next s.queue.head)

    unfoldable pub step_dequeue_next : (head : ℕ) → System A
    step_dequeue_next head =
        move s i s.queue (elim (s.queue.next head) [ none ↦ finish | some n ↦ dequeue_exchange n ])

    -- `delete m_head.exchange(next)`, and the data of the new head is moved out.
    unfoldable pub step_dequeue_exchange : (next : ℕ) → System A
    step_dequeue_exchange next = record {
      queue = record s.queue {
        head = next;
        deleted = update s.queue.deleted s.queue.head true;
        data_of = update s.queue.data_of next none;
      };
      pc = update s.pc i finish;
      enqueued = s.enqueued;
      dequeued = s.queue.data_of next ∷ s.dequeued;
    }

    unfoldable pub step_unlock : System A
    step_unlock = move s i (record s.queue { spinlock = unlock s.queue.spinlock }) idle

    -- `m_head.load()` of `empty`, and `->m_next.load()`, whose answer the machine does not keep.
    unfoldable pub step_empty_head : System A
    step_empty_head = move s i s.queue (empty_next s.queue.head)

    unfoldable pub step_empty_next : (head : ℕ) → System A
    step_empty_next head = move s i s.queue idle

    -- One access of thread `i`, which stands at the given place.
    unfoldable pub step : Pc A → Act A → System A
    unfolding begin step_enqueue_test step_lock step_enqueue_exchange step_enqueue_link
        step_dequeue_test step_dequeue_head step_dequeue_next step_dequeue_exchange step_unlock
        step_empty_head step_empty_next
    step idle a = begin a
    step stopping a = move s i (record s.queue { consuming = false }) idle
    step (enqueue_test v) a = step_enqueue_test v
    step (enqueue_lock v) a = step_lock (enqueue_lock v) (enqueue_exchange v)
    step (enqueue_exchange v) a = step_enqueue_exchange v
    step (enqueue_link before node) a = step_enqueue_link before node
    step dequeue_test a = step_dequeue_test
    step dequeue_lock a = step_lock dequeue_lock dequeue_head
    step dequeue_head a = step_dequeue_head
    step (dequeue_next head) a = step_dequeue_next head
    step (dequeue_exchange next) a = step_dequeue_exchange next
    step unlocking a = step_unlock
    step empty_head a = step_empty_head
    step (empty_next head) a = step_empty_next head

  -- A schedule: a list of threads and what they choose.
  unfoldable pub run : (locked : Bool) → System A → List (ℕ × Act A) → System A
  run locked s [] = s
  run locked s ((i, a) ∷ xs) = run locked (step locked s i (s.pc i) a) xs

  -- Without a lock, only thread 0 calls `dequeue`.
  abbrev pub is_call_dequeue : Act A → Bool
  is_call_dequeue call_dequeue = true
  is_call_dequeue _ = false

  abbrev pub is_legal : (locked : Bool) → List (ℕ × Act A) → Bool
  is_legal locked [] = true
  is_legal locked ((i, a) ∷ xs) =
      (locked || not (is_call_dequeue a) || i == 0) && is_legal locked xs

  -- A schedule in which `empty` is called by the consumer of a queue without a lock only.
  abbrev pub is_call_empty : Act A → Bool
  is_call_empty call_empty = true
  is_call_empty _ = false

  abbrev pub is_careful : (locked : Bool) → List (ℕ × Act A) → Bool
  is_careful locked [] = true
  is_careful locked ((i, a) ∷ xs) =
      (not (is_call_empty a) || (not locked && i == 0)) && is_careful locked xs
