-- ===== src/Epoch/Order.antt =====
-- The linked nodes of mpmc_queue: their order, and what the threads know of them.
use fast_mpmc_queue.Prelude.{ℕ, zero, suc, ◌≤◌, ◌<◌, ◌≡◌, ◌≢◌, true, arith, Option, none, some}
use fast_mpmc_queue.Nodes.{Below, Below-mono, IsOrdered}
use fast_mpmc_queue.Epoch.{
  beyond_epoch, Queue, Return, Pc, idle, enqueue_next, enqueue_advance, enqueue_link, enqueue_swing,
  dequeue_next, dequeue_tail, dequeue_advance, dequeue_test, dequeue_exchange, dequeue_stamp,
  dequeue_push, dequeue_store, purge_skip, purge_next, purge_at, purge_keep, purge_delete,
  purge_end, System,
}
use fast_mpmc_queue.Epoch.Purge.{sweep_on, skipped, skip_on}

module _ {ℓ} {A : Type ℓ} where
  -- What a thread knows from its earlier accesses.
  abbrev pub Knows : Queue A → Pc A → Type 0
  Knows q (enqueue_next v epoch tail) = tail < q.allocated
  Knows q (enqueue_advance v epoch next) = next < q.allocated
  Knows q (enqueue_link v epoch tail) = tail < q.allocated
  Knows q (enqueue_swing epoch new_node) = new_node < q.allocated
  Knows q (dequeue_next epoch head) = head ≤ q.head
  Knows q (dequeue_tail epoch head first) =
      (head ≤ q.head) × (first ≡ suc head) × (first < q.allocated)
  Knows q (dequeue_advance epoch head first) =
      (head ≤ q.head) × (first ≡ suc head) × (first < q.allocated)
  Knows q (dequeue_test epoch head first) =
      (head ≤ q.head) × (first ≡ suc head) × (first < q.allocated)
  Knows q (dequeue_exchange epoch head first) =
      (head ≤ q.head) × (first ≡ suc head) × (first < q.allocated)
  Knows q (dequeue_stamp epoch head first) = (first ≡ suc head) × (first ≤ q.head)
  Knows q (dequeue_push epoch head) = head < q.head
  Knows q (dequeue_store epoch head old) = (head < q.head) × Below q.head old
  Knows q (purge_skip r bound count current) = current < q.head
  Knows q (purge_next r bound last current) = (last < q.head) × (current < q.head)
  Knows q (purge_at r bound last current next) =
      (last < q.head) × (current < q.head) × Below q.head next
  Knows q (purge_keep r bound last current next) =
      (last < q.head) × (current < q.head) × Below q.head next
  Knows q (purge_delete r bound last current next) =
      (last < q.head) × (current < q.head) × Below q.head next
  Knows q (purge_end r last) = last < q.head
  Knows q _ = Unit

  -- The queue, without its threads. A node that has been dequeued is not after the head; the nodes
  -- that wait for deletion, and those that are deleted, are behind the head.
  pub record IsShaped (q : Queue A) : Type 0 where
    pub tail_in : q.tail < q.allocated
    pub stamped : (k : ℕ) → q.deleted_at k ≢ beyond_epoch → k ≤ q.head
    pub listed : Below q.head q.deleted
    pub chained : (k : ℕ) → Below q.head (q.next_deleted k)
    pub behind : (k : ℕ) → q.freed k ≡ true → k < q.head

  -- What a thread knows stays true when nodes are added and the head moves on.
  pub Knows-grow :
      (q r : Queue A) (p : Pc A)
      → q.allocated ≤ r.allocated
      → q.head ≤ r.head
      → Knows q p
      → Knows r p
  Knows-grow q r (dequeue_store epoch head old) a h g =
      (omega (arith, g.0), Below-mono q.head r.head old h g.1)
  Knows-grow q r (purge_at x bound last current next) a h g =
      (omega (arith, g.0), omega (arith, g.1), Below-mono q.head r.head next h g.2)
  Knows-grow q r (purge_keep x bound last current next) a h g =
      (omega (arith, g.0), omega (arith, g.1), Below-mono q.head r.head next h g.2)
  Knows-grow q r (purge_delete x bound last current next) a h g =
      (omega (arith, g.0), omega (arith, g.1), Below-mono q.head r.head next h g.2)
  Knows-grow q r (enqueue_next v epoch tail) a h g = omega arith
  Knows-grow q r (enqueue_advance v epoch next) a h g = omega arith
  Knows-grow q r (enqueue_link v epoch tail) a h g = omega arith
  Knows-grow q r (enqueue_swing epoch new_node) a h g = omega arith
  Knows-grow q r (dequeue_next epoch head) a h g = omega arith
  Knows-grow q r (dequeue_tail epoch head first) a h g = omega arith
  Knows-grow q r (dequeue_advance epoch head first) a h g = omega arith
  Knows-grow q r (dequeue_test epoch head first) a h g = omega arith
  Knows-grow q r (dequeue_exchange epoch head first) a h g = omega arith
  Knows-grow q r (dequeue_stamp epoch head first) a h g = omega arith
  Knows-grow q r (dequeue_push epoch head) a h g = omega arith
  Knows-grow q r (purge_skip x bound count current) a h g = omega arith
  Knows-grow q r (purge_next x bound last current) a h g = omega arith
  Knows-grow q r (purge_end x last) a h g = omega arith
  Knows-grow q r idle a h g = tt
  Knows-grow q r _ a h g = tt

  -- What `purge` knows where its loops go on.
  pub sweep_on-Knows :
      (q : Queue A) (r : Return) (bound last : ℕ) (x : Option ℕ)
      → last < q.head
      → Below q.head x
      → Knows q (sweep_on r bound last x)
  sweep_on-Knows q r bound last none h g = h
  sweep_on-Knows q r bound last (some k) h g = (h, g)

  skipped-Knows :
      (q : Queue A) (r : Return) (bound : ℕ) (last x : Option ℕ)
      → Below q.head last
      → Below q.head x
      → Knows q (skipped r bound last x)
  skipped-Knows q r bound none x h g = tt
  skipped-Knows q r bound (some l) x h g = sweep_on-Knows q r bound l x h g

  pub skip_on-Knows :
      (q : Queue A) (r : Return) (bound count : ℕ) (last x : Option ℕ)
      → Below q.head last
      → Below q.head x
      → Knows q (skip_on r bound count last x)
  skip_on-Knows q r bound count last none h g = skipped-Knows q r bound last none h tt
  skip_on-Knows q r bound zero last (some k) h g = skipped-Knows q r bound last (some k) h g
  skip_on-Knows q r bound (suc count) last (some k) h g = g

  -- What a step does to the nodes and the head.
  pub record Grows (q r : Queue A) : Type 0 where
    pub more : q.allocated ≤ r.allocated
    pub on : q.head ≤ r.head

  abbrev pub Ordered : System A → Type ℓ
  Ordered s =
      IsOrdered s.queue.next s.queue.data_of s.queue.allocated s.queue.head s.enqueued s.dequeued
