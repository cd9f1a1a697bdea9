-- ===== src/Linked/Chain.antt =====
-- What holds of the linked nodes at every moment: the chain from the head to the tail.
use fast_mpmc_queue.Prelude.{
  ℕ, suc, ◌+◌, ◌-◌, ◌≤◌, ◌<◌, ◌≡◌, ◌≢◌, refl, ap, ◌∙◌, Bool, true, false, arith, Option, none, some,
  List, ◌∷◌, ◌++◌, update,
}
use fast_mpmc_queue.Nodes.{waiting, pointers, fifo-push, fifo-take}
use fast_mpmc_queue.Linked.{Queue, Pc, enqueue_link, dequeue_head, dequeue_next, dequeue_exchange}

none_of : (x : Option ℕ) → ((j : ℕ) → x ≢ some j) → x ≡ none
none_of none h = refl
none_of (some j) h = absurd (h j refl)

module _ {ℓ} {A : Type ℓ} where
  -- The links follow the order of the nodes, the head has come to its node by links, and what
  -- entered is what waits and what has left.
  pub record IsChain (q : Queue A) (enqueued : List A) (dequeued : List (Option A)) : Type ℓ where
    pub order : q.head ≤ q.tail
    pub link : (k j : ℕ) → q.next k ≡ some j → (j ≡ suc k) × (k < q.tail)
    pub passed : (k : ℕ) → k < q.head → q.next k ≢ none
    pub alive : (k : ℕ) → q.head ≤ k → q.deleted k ≡ false
    pub gone : (k : ℕ) → k < q.head → q.deleted k ≡ true
    pub fifo : pointers enqueued ≡ waiting q.data_of q.head (q.tail - q.head) ++ dequeued

  -- The chain is open at the tail.
  pub tail_open :
      {q : Queue A} {enqueued : List A} {dequeued : List (Option A)}
      → IsChain q enqueued dequeued
      → q.next q.tail ≡ none
  tail_open {q = q} ok = none_of (q.next q.tail) λ j e. omega (arith, ok.link q.tail j e)

  -- What a thread knows from its earlier accesses.
  abbrev pub Knows : Queue A → Pc A → Type 0
  Knows q (enqueue_link before node) =
      (node ≡ suc before) × (before < q.tail) × (q.next before ≡ none)
  Knows q (dequeue_next head) = head ≡ q.head
  Knows q (dequeue_exchange next) = q.next q.head ≡ some next
  Knows q _ = Unit

  -- The node that a thread is about to link.
  abbrev pub link_of : Pc A → Option ℕ
  link_of (enqueue_link before node) = some before
  link_of _ = none

  -- A thread inside `dequeue` that has read the head or is about to.
  abbrev pub is_dequeuing : Pc A → Bool
  is_dequeuing dequeue_head = true
  is_dequeuing (dequeue_next head) = true
  is_dequeuing (dequeue_exchange next) = true
  is_dequeuing _ = false

  module _ {q : Queue A} {enqueued : List A} {dequeued : List (Option A)}
      (ok : IsChain q enqueued dequeued) where
    pub IsChain-exchange :
        (v : A)
        → IsChain
            (record q { tail = q.tail + 1; data_of = update q.data_of (q.tail + 1) (some v) })
            (v ∷ enqueued)
            dequeued
    IsChain-exchange v = record {
      order = omega (arith, ok.order);
      link = λ k j e. ground (arith, ok.link k j e);
      passed = ok.passed;
      alive = ok.alive;
      gone = ok.gone;
      fifo =
          let count = q.tail - q.head in
          let last : q.tail + 1 ≡ q.head + suc count = omega (arith, ok.order) in
          let one_more : q.head + suc count - q.head ≡ suc count = omega arith in
          rw (last, one_more) (fifo-push q.data_of q.head count enqueued dequeued v ok.fifo);
    }

    pub IsChain-link :
        (before node : ℕ)
        → Knows q (enqueue_link before node)
        → IsChain (record q { next = update q.next before (some node) }) enqueued dequeued
    IsChain-link before node h = record {
      order = ok.order;
      link = λ k j e. ground (arith, ok.link k j);
      passed = λ k e. ground (arith, ok.passed k);
      alive = ok.alive;
      gone = ok.gone;
      fifo = ok.fifo;
    }

    pub IsChain-dequeue :
        (next : ℕ)
        → Knows q (dequeue_exchange next)
        → IsChain
            (record q {
              head = next;
              deleted = update q.deleted q.head true;
              data_of = update q.data_of next none;
            })
            enqueued
            (q.data_of next ∷ dequeued)
    IsChain-dequeue next h =
        let l = ok.link q.head next h in
        record {
          order = omega (arith, l);
          link = ok.link;
          passed = λ k e. ground (arith, ok.passed k);
          alive = λ k e. ground (arith, ok.alive k);
          gone = λ k e. ground (arith, ok.gone k);
          fifo =
              let count = q.tail - (q.head + 1) in
              let first : next ≡ q.head + 1 = omega (arith, l) in
              let one_more : q.tail - q.head ≡ suc count = omega (arith, l) in
              rw first (
                fifo-take q.data_of q.head count enqueued dequeued
                  (ok.fifo ∙ ap (λ c. waiting q.data_of q.head c ++ dequeued) one_more));
        }

    -- Flags do not matter.
    pub IsChain-flags :
        (spinlock producing consuming : Bool)
        → IsChain
            (record q { spinlock = spinlock; producing = producing; consuming = consuming })
            enqueued
            dequeued
    IsChain-flags spinlock producing consuming = record {
      order = ok.order;
      link = ok.link;
      passed = ok.passed;
      alive = ok.alive;
      gone = ok.gone;
      fifo = ok.fifo;
    }

  module _ (q : Queue A) where
    -- What other threads know stays true.
    pub Knows-exchange :
        (p : Pc A) (d : ℕ → Option A)
        → Knows q p
        → Knows (record q { tail = q.tail + 1; data_of = d }) p
    Knows-exchange (enqueue_link before node) d h = (h.0, omega (arith, h.1), h.2)
    Knows-exchange (dequeue_next head) d h = h
    Knows-exchange (dequeue_exchange next) d h = h
    Knows-exchange _ d h = tt

    pub Knows-link :
        (p : Pc A) (before node : ℕ)
        → link_of p ≢ some before
        → q.next before ≡ none
        → Knows q p
        → Knows (record q { next = update q.next before (some node) }) p
    Knows-link (enqueue_link b n) before node other open_end h = (h.0, h.1, ground arith)
    Knows-link (dequeue_next head) before node other open_end h = h
    Knows-link (dequeue_exchange next) before node other open_end h = ground arith
    Knows-link _ before node other open_end h = tt

    pub Knows-dequeue :
        (p : Pc A) (next : ℕ) (d : ℕ → Option A) (gone : ℕ → Bool)
        → is_dequeuing p ≡ false
        → Knows q p
        → Knows (record q { head = next; deleted = gone; data_of = d }) p
    Knows-dequeue (enqueue_link b n) next d gone other h = h
    Knows-dequeue (dequeue_next head) next d gone other h = cc
    Knows-dequeue (dequeue_exchange n) next d gone other h = cc
    Knows-dequeue _ next d gone other h = tt
