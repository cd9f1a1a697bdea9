-- ===== src/Linked/Safety.antt =====
-- What the linked queues guarantee after every schedule of their threads.
use fast_mpmc_queue.Prelude.{
  ℕ, ◌-◌, ◌≤◌, ◌≡◌, refl, Bool, true, false, arith, Option, none, some, List, ◌++◌,
}
use fast_mpmc_queue.Linked.{
  Queue, Pc, enqueue_link, dequeue_next, dequeue_exchange, empty_next, Act, start, run, is_legal,
  is_careful,
}
use fast_mpmc_queue.Nodes.{waiting, pointers}
use fast_mpmc_queue.Linked.Chain.{IsChain, Knows}
use fast_mpmc_queue.Linked.Steps.{in_lock}
use fast_mpmc_queue.Linked.Reading.{IsReader, run-IsReader}
use fast_mpmc_queue.Linked.Invariant.{IsSound, start-IsSound, run-IsSound}

-- The node whose members the next access of a thread reads, writes or moves.
abbrev pub touched {ℓ} : {A : Type ℓ} → Pc A → Option ℕ
touched (enqueue_link before node) = some before
touched (dequeue_next head) = some head
touched (dequeue_exchange next) = some next
touched (empty_next head) = some head
touched _ = none

touched-alive {ℓ} :
    {A : Type ℓ} (locked : Bool) (j : ℕ) {q : Queue A} {enqueued : List A}
    {dequeued : List (Option A)}
    → IsChain q enqueued dequeued
    → (p : Pc A) → Knows q p
    → IsReader locked q.head j p
    → (k : ℕ) → touched p ≡ some k
    → (q.head ≤ k) × (k ≤ q.tail)
touched-alive locked j {q = q} ok (enqueue_link before node) h r k e =
    ground (arith, ok.passed before)
touched-alive locked j {q = q} ok (dequeue_next head) h r k e = ground (arith, ok.order)
touched-alive locked j {q = q} ok (dequeue_exchange next) h r k e =
    ground (arith, ok.link q.head next h)
touched-alive locked j {q = q} ok (empty_next head) h r k e = ground (arith, ok.order, r)
touched-alive locked j ok _ h r k e = cc

module _ {ℓ} {A : Type ℓ} (locked : Bool) (schedule : List (ℕ × Act A))
    (legal : is_legal locked schedule ≡ true) where
  sound : IsSound locked (run locked start schedule)
  sound = run-IsSound locked start schedule legal (start-IsSound locked)

  -- With a lock, or with no other thread than thread 0 calling `dequeue`: after every schedule, the
  -- pointers that entered the queue, in the order of the exchanges of `m_tail`, are the pointers that
  -- `dequeue` has returned, in that order, and then those of the nodes after the head. So `dequeue`
  -- is first-in first-out, and loses, repeats and invents nothing.
  pub fifo_order :
      let s = run locked start schedule in
      pointers s.enqueued
      ≡ waiting s.queue.data_of s.queue.head (s.queue.tail - s.queue.head) ++ s.dequeued
  fifo_order = sound.chain.fifo

  -- With a lock and no calls of `empty`, or without one and with no other thread than thread 0 calling
  -- `dequeue` and `empty`: after every schedule, the node that `m_head` points to has not been
  -- deleted, so no node is deleted twice, and the node whose members a thread's next access touches
  -- exists and has not been deleted.
  pub no_dangling :
      is_careful locked schedule ≡ true
      → let s = run locked start schedule in
        (s.queue.deleted s.queue.head ≡ false)
        × ((i k : ℕ) → touched (s.pc i) ≡ some k → (s.queue.deleted k ≡ false) × (k ≤ s.queue.tail))
  no_dangling careful = (
    sound.chain.alive (run locked start schedule).queue.head (omega arith),
    λ i k e.
        let s = run locked start schedule in
        let reader = run-IsReader locked schedule legal careful i in
        let bounds = touched-alive locked i sound.chain (s.pc i) (sound.knows i) reader k e in
        (sound.chain.alive k bounds.0, bounds.1),
  )

-- With a lock: after every schedule, at most one thread is between the acquisition and the release of
-- the spinlock, and the flag is set while one is.
pub one_at_a_time {ℓ} :
    {A : Type ℓ} (schedule : List (ℕ × Act A))
    → is_legal true schedule ≡ true
    → (i j : ℕ)
    → let s = run true start schedule in
      in_lock (s.pc i) ≡ true → (s.queue.spinlock ≡ true) × (in_lock (s.pc j) ≡ true → i ≡ j)
one_at_a_time schedule legal i j e =
    let ok = (run-IsSound true start schedule legal (start-IsSound true)).guarded refl in
    (ok.held i e, ok.alone i j e)
