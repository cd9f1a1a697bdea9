-- ===== src/Deferred/Order.antt =====
-- The linked nodes of mpmcdd_queue under interleaving: their order, and what the threads know of them.
use fast_mpmc_queue.Prelude.{
  ℕ, suc, ◌≤◌, ◌<◌, ◌≡◌, ◌⊎◌, inl, inr, refl, Bool, true, false, arith, ◌==◌, Option, none, some,
  update, Bool-cases,
}
use fast_mpmc_queue.Nodes.{
  Below, Follows, Below-mono, Follows-mono, Follows-next, IsOrdered, link-IsOrdered, take-IsOrdered,
}
use fast_mpmc_queue.Deferred.{Queue}
use fast_mpmc_queue.Deferred.Machine.{
  Pc, idle, enqueue_test, enqueue_wait, enqueue_loop, enqueue_tail, enqueue_next, enqueue_check,
  enqueue_advance, enqueue_link, dequeue_wait, dequeue_loop, dequeue_head, dequeue_next,
  dequeue_check, dequeue_tail, dequeue_advance, dequeue_mark, dequeue_exchange, dequeue_push,
  dequeue_store, purge_wait, purge_list, purge_loop, purge_next, purge_delete, Act, go,
  call_enqueue, call_dequeue, call_purge, call_shutdown, call_stop, System, step, begin, link_after,
}

module _ {ℓ} {A : Type ℓ} where
  -- What a thread knows from its earlier accesses.
  abbrev pub Knows : Queue A → Pc A → Type 0
  Knows q (enqueue_next v tail) = tail < q.allocated
  Knows q (enqueue_check v tail next) = (tail < q.allocated) × Follows q.allocated tail next
  Knows q (enqueue_advance v next) = next < q.allocated
  Knows q (enqueue_link v tail) = tail < q.allocated
  Knows q (dequeue_next head) = head ≤ q.head
  Knows q (dequeue_check head first) = (head ≤ q.head) × Follows q.allocated head first
  Knows q (dequeue_tail head first) = (head ≤ q.head) × (first ≡ suc head) × (first < q.allocated)
  Knows q (dequeue_advance head first) =
      (head ≤ q.head) × (first ≡ suc head) × (first < q.allocated)
  Knows q (dequeue_mark head first) = (head ≤ q.head) × (first ≡ suc head) × (first < q.allocated)
  Knows q (dequeue_exchange head first) =
      (head ≡ q.head) × (first ≡ suc head) × (first < q.allocated) × (q.is_deleted first ≡ true)
  Knows q (dequeue_push head) = head < q.head
  Knows q (dequeue_store head old) = (head < q.head) × Below q.head old
  Knows q (purge_loop current) = Below q.head current
  Knows q (purge_next current) = current < q.head
  Knows q (purge_delete current next) = (current < q.head) × Below q.head next
  Knows q _ = Unit

  abbrev pub is_exchanging : Pc A → Bool
  is_exchanging (dequeue_exchange head first) = true
  is_exchanging _ = false

  -- The queue, without its tail and its threads. A node behind the head is marked; the nodes that wait
  -- for deletion, and those that are deleted, are behind the head.
  pub record IsShaped (q : Queue A) : Type 0 where
    pub tail_in : q.tail < q.allocated
    pub marked : (k : ℕ) → 0 < k → k ≤ q.head → q.is_deleted k ≡ true
    pub listed : Below q.head q.deleted
    pub chained : (k : ℕ) → Below q.head (q.next_deleted k)
    pub behind : (k : ℕ) → q.freed k ≡ true → k < q.head

  -- What a thread knows stays true when nodes are added, the head moves on, and nodes are marked,
  -- unless the thread is about to move the head.
  pub Knows-grow :
      (q r : Queue A) (p : Pc A)
      → q.allocated ≤ r.allocated
      → q.head ≤ r.head
      → is_exchanging p ≡ false
        ⊎ ((q.head ≡ r.head) × ((k : ℕ) → q.is_deleted k ≡ true → r.is_deleted k ≡ true))
      → Knows q p
      → Knows r p
  Knows-grow q r (enqueue_next v tail) a h x g = omega arith
  Knows-grow q r (enqueue_check v tail next) a h x g =
      (omega (arith, g.0), Follows-mono q.allocated r.allocated tail next a g.1)
  Knows-grow q r (enqueue_advance v next) a h x g = omega arith
  Knows-grow q r (enqueue_link v tail) a h x g = omega arith
  Knows-grow q r (dequeue_next head) a h x g = omega arith
  Knows-grow q r (dequeue_check head first) a h x g =
      (omega (arith, g.0), Follows-mono q.allocated r.allocated head first a g.1)
  Knows-grow q r (dequeue_tail head first) a h x g = omega arith
  Knows-grow q r (dequeue_advance head first) a h x g = omega arith
  Knows-grow q r (dequeue_mark head first) a h x g = omega arith
  Knows-grow q r (dequeue_exchange head first) a h (inl e) g = cc
  Knows-grow q r (dequeue_exchange head first) a h (inr (e, keep)) g =
      (omega (arith, g.0), g.1, omega (arith, g.2), keep first g.3)
  Knows-grow q r (dequeue_push head) a h x g = omega arith
  Knows-grow q r (dequeue_store head old) a h x g =
      (omega (arith, g.0), Below-mono q.head r.head old h g.1)
  Knows-grow q r (purge_loop current) a h x g = Below-mono q.head r.head current h g
  Knows-grow q r (purge_next current) a h x g = omega arith
  Knows-grow q r (purge_delete current next) a h x g =
      (omega (arith, g.0), Below-mono q.head r.head next h g.1)
  Knows-grow q r idle a h x g = tt
  Knows-grow q r _ a h x g = tt

  -- What a step may do to the queue, so that other threads know what they knew.
  pub record Grows (q r : Queue A) (p : Pc A) : Type 0 where
    pub more : q.allocated ≤ r.allocated
    pub on : q.head ≤ r.head
    pub marks : (k : ℕ) → q.is_deleted k ≡ true → r.is_deleted k ≡ true
    pub same_head : is_exchanging p ≡ false → q.head ≡ r.head

  module _ (s : System A) (i : ℕ) where
    link_after-IsOrdered :
        (v : A) (tail : ℕ) (x : Option ℕ)
        → IsOrdered s.queue.next s.queue.data_of s.queue.allocated s.queue.head s.enqueued
            s.dequeued
        → tail < s.queue.allocated
        → s.queue.next tail ≡ x
        → let t = link_after s i v tail x in
          IsOrdered t.queue.next t.queue.data_of t.queue.allocated t.queue.head t.enqueued
            t.dequeued
    unfolding link_after
    link_after-IsOrdered v tail none ok h e = link-IsOrdered ok tail v h e
    link_after-IsOrdered v tail (some n) ok h e = ok

    link_after-Grows :
        (v : A) (tail : ℕ) (x : Option ℕ)
        → Grows s.queue (link_after s i v tail x).queue (enqueue_link v tail)
    unfolding link_after
    link_after-Grows v tail none = ground arith
    link_after-Grows v tail (some n) = ground arith

    link_after-goes :
        (v : A) (tail : ℕ) (x : Option ℕ)
        → let t = link_after s i v tail x in
          (p' : Pc A) × (t.pc ≡ update s.pc i p') × Knows t.queue p'
    unfolding link_after
    link_after-goes v tail none = (_, refl, tt)
    link_after-goes v tail (some n) = (_, refl, tt)

    pub step-IsOrdered :
        (p : Pc A) (a : Act A)
        → IsOrdered s.queue.next s.queue.data_of s.queue.allocated s.queue.head s.enqueued
            s.dequeued
        → Knows s.queue p
        → let t = step s i p a in
          IsOrdered t.queue.next t.queue.data_of t.queue.allocated t.queue.head t.enqueued
            t.dequeued
    unfolding step begin
    step-IsOrdered idle (call_enqueue v) ok h = ok
    step-IsOrdered idle call_dequeue ok h = ok
    step-IsOrdered idle call_purge ok h = ok
    step-IsOrdered idle call_shutdown ok h = ok
    step-IsOrdered idle call_stop ok h = ok
    step-IsOrdered idle go ok h = ok
    step-IsOrdered (enqueue_link v tail) a ok h =
        link_after-IsOrdered v tail (s.queue.next tail) ok h refl
    step-IsOrdered (dequeue_exchange head first) a ok h = elim (Bool-cases (s.queue.head == head)) [
      | inl same ↦ rw same (take-IsOrdered ok first (ground (arith, ok.links s.queue.head)))
      | inr moved ↦ rw moved ok
    ]
    step-IsOrdered _ a ok h = ok

    pub step-Grows : (p : Pc A) (a : Act A) → Knows s.queue p → Grows s.queue (step s i p a).queue p
    unfolding step begin
    step-Grows idle a h = ground arith
    step-Grows (enqueue_link v tail) a h = link_after-Grows v tail (s.queue.next tail)
    step-Grows (dequeue_mark head first) a h = ground arith
    step-Grows (dequeue_exchange head first) a h = ground arith
    step-Grows _ a h = ground arith

    -- Where the thread goes, and what it knows there.
    pub step-goes :
        (p : Pc A) (a : Act A)
        → IsOrdered s.queue.next s.queue.data_of s.queue.allocated s.queue.head s.enqueued
            s.dequeued
        → IsShaped s.queue
        → Knows s.queue p
        → let t = step s i p a in (p' : Pc A) × (t.pc ≡ update s.pc i p') × Knows t.queue p'
    unfolding step begin
    step-goes idle (call_enqueue v) ok sh h = (_, refl, tt)
    step-goes idle call_dequeue ok sh h = (_, refl, tt)
    step-goes idle call_purge ok sh h = (_, refl, tt)
    step-goes idle call_shutdown ok sh h = (_, refl, tt)
    step-goes idle call_stop ok sh h = (_, refl, tt)
    step-goes idle go ok sh h = (_, refl, tt)
    step-goes (enqueue_test v) a ok sh h = (_, refl, ground arith)
    step-goes (enqueue_wait v) a ok sh h = (_, refl, ground arith)
    step-goes (enqueue_loop v) a ok sh h = (_, refl, ground arith)
    step-goes (enqueue_tail v) a ok sh h = (_, refl, sh.tail_in)
    step-goes (enqueue_next v tail) a ok sh h =
        (_, refl, (h, Follows-next ok tail (s.queue.next tail) refl))
    step-goes (enqueue_check v tail next) a ok sh h = (_, refl, ground arith)
    step-goes (enqueue_link v tail) a ok sh h = link_after-goes v tail (s.queue.next tail)
    step-goes dequeue_wait a ok sh h = (_, refl, ground arith)
    step-goes dequeue_loop a ok sh h = (_, refl, ground arith)
    step-goes dequeue_head a ok sh h = (_, refl, omega arith)
    step-goes (dequeue_next head) a ok sh h =
        (_, refl, (h, Follows-next ok head (s.queue.next head) refl))
    step-goes (dequeue_check head first) a ok sh h = (_, refl, ground arith)
    step-goes (dequeue_tail head first) a ok sh h = (_, refl, ground arith)
    step-goes (dequeue_mark head first) a ok sh h = (_, refl, ground (arith, sh.marked first))
    step-goes (dequeue_exchange head first) a ok sh h = elim (Bool-cases (s.queue.head == head)) [
      | inl same ↦ rw same (_, refl, omega (arith, h))
      | inr moved ↦ rw moved (_, refl, tt)
    ]
    step-goes (dequeue_push head) a ok sh h = (_, refl, (h, sh.listed))
    step-goes purge_wait a ok sh h = (_, refl, ground arith)
    step-goes purge_list a ok sh h = (_, refl, sh.listed)
    step-goes (purge_loop none) a ok sh h = (_, refl, tt)
    step-goes (purge_loop (some k)) a ok sh h = (_, refl, ground arith)
    step-goes (purge_next current) a ok sh h = (_, refl, (h, sh.chained current))
    step-goes (purge_delete current next) a ok sh h = (_, refl, h.1)
    step-goes _ a ok sh h = (_, refl, tt)
