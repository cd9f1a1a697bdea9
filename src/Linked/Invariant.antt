-- ===== src/Linked/Invariant.antt =====
-- The invariant of the linked queues.
use fast_mpmc_queue.Prelude.{
  ◌≤◌, ℕ, ◌+◌, ◌<◌, ◌≡◌, ◌≢◌, refl, ap, ◌∙◌, sym, Bool, true, false, arith, none, some, List, [],
  ◌∷◌, update,
}
use native.Mathlib.Decide.{ℕ_discrete}
use fast_mpmc_queue.Spinlock.{Guarded, Owned}
use fast_mpmc_queue.Linked.{
  Pc, idle, stopping, enqueue_test, enqueue_lock, enqueue_exchange, enqueue_link, dequeue_test,
  dequeue_lock, dequeue_head, dequeue_next, dequeue_exchange, unlocking, empty_head, empty_next,
  Act, System, step, run, begin, start, new_queue, is_call_dequeue, is_legal,
}
use fast_mpmc_queue.Linked.Steps.{
  in_lock, in_dequeue, step-IsChain, step-Guarded, step-Owned, step-one, step-links,
}
use fast_mpmc_queue.Linked.Whole.{step-IsWhole}
use fast_mpmc_queue.Nodes.{waiting-zero}
use fast_mpmc_queue.Linked.Chain.{
  IsChain, tail_open, Knows, link_of, is_dequeuing, Knows-exchange, Knows-link, Knows-dequeue,
}

module _ {ℓ} {A : Type ℓ} where
  dequeuing-in_lock :
      (p : Pc A) → is_dequeuing p ≡ true → (in_lock p ≡ true) × (in_dequeue p ≡ true)
  dequeuing-in_lock p e = ground arith

  pub record IsSound (locked : Bool) (s : System A) : Type ℓ where
    pub chain : IsChain s.queue s.enqueued s.dequeued
    pub knows : (i : ℕ) → Knows s.queue (s.pc i)
    pub links : (i j k : ℕ) → link_of (s.pc i) ≡ some k → link_of (s.pc j) ≡ some k → i ≡ j
    pub whole :
        (k : ℕ)
        → s.queue.head ≤ k
        → k < s.queue.tail
        → s.queue.next k ≡ none
        → (i : ℕ) × (link_of (s.pc i) ≡ some k)
    pub guarded : locked ≡ true → Guarded s.queue.spinlock (λ i. in_lock (s.pc i))
    pub owned : locked ≡ true → Owned s.queue.spinlock (λ i. in_lock (s.pc i))
    pub one : locked ≡ false → (i : ℕ) → in_dequeue (s.pc i) ≡ true → i ≡ 0

  -- At most one thread is inside `dequeue` beyond the lock or the test.
  pub one_dequeuer :
      {locked : Bool} {s : System A}
      → IsSound locked s
      → (i j : ℕ) → is_dequeuing (s.pc i) ≡ true
      → is_dequeuing (s.pc j) ≡ true
      → i ≡ j
  one_dequeuer {locked = true} {s = s} ok i j p q =
      (ok.guarded refl).alone i j (dequeuing-in_lock (s.pc i) p).0 (dequeuing-in_lock (s.pc j) q).0
  one_dequeuer {locked = false} {s = s} ok i j p q =
      ok.one refl i (dequeuing-in_lock (s.pc i) p).1
      ∙ sym (ok.one refl j (dequeuing-in_lock (s.pc j) q).1)

  not_dequeuing : (p : Pc A) → is_dequeuing p ≢ true → is_dequeuing p ≡ false
  not_dequeuing p h = ground arith

  module _ (locked : Bool) (s : System A) (i : ℕ) where
    step-Knows :
        (p : Pc A) (a : Act A)
        → s.pc i ≡ p
        → IsSound locked s
        → let t = step locked s i p a in (j : ℕ) → Knows t.queue (t.pc j)
    unfolding step begin
    step-Knows idle a e ok j = ground (arith, ok.knows j)
    step-Knows stopping a e ok j = ground (arith, ok.knows j)
    step-Knows (enqueue_test v) a e ok j = ground (arith, ok.knows j)
    step-Knows (enqueue_lock v) a e ok j = ground (arith, ok.knows j)
    step-Knows (enqueue_exchange v) a e ok j = elim (ℕ_discrete j i) [
      | yes p ↦ rw p (ground (arith, tail_open ok.chain))
      | no p ↦ ground (
        arith,
        Knows-exchange s.queue (s.pc j) (update s.queue.data_of (s.queue.tail + 1) (some v))
            (ok.knows j),
      )
    ]
    step-Knows (enqueue_link before node) a e ok j = elim (ℕ_discrete j i) [
      | yes p ↦ rw p (ground arith)
      | no p ↦
          let mine = rw e at (ok.knows i) in
          ground (
            arith,
            Knows-link s.queue (s.pc j) before node (λ f. p (ok.links j i before f (ap link_of e)))
                mine.2 (ok.knows j),
          )
    ]
    step-Knows dequeue_test a e ok j = ground (arith, ok.knows j)
    step-Knows dequeue_lock a e ok j = ground (arith, ok.knows j)
    step-Knows dequeue_head a e ok j = ground (arith, ok.knows j)
    step-Knows (dequeue_next head) a e ok j = ground (arith, ok.knows j, ok.knows i)
    step-Knows (dequeue_exchange next) a e ok j = elim (ℕ_discrete j i) [
      | yes p ↦ rw p (ground arith)
      | no p ↦ ground (
        arith,
        Knows-dequeue s.queue (s.pc j) next (update s.queue.data_of next none)
            (update s.queue.deleted s.queue.head true)
            (not_dequeuing (s.pc j) (λ f. p (one_dequeuer ok j i f (ap is_dequeuing e))))
            (ok.knows j),
      )
    ]
    step-Knows unlocking a e ok j = ground (arith, ok.knows j)
    step-Knows empty_head a e ok j = ground (arith, ok.knows j)
    step-Knows (empty_next head) a e ok j = ground (arith, ok.knows j)

    -- Every access keeps the invariant.
    pub step-IsSound :
        (a : Act A)
        → IsSound locked s
        → (locked ≡ false → is_call_dequeue a ≡ true → i ≡ 0)
        → IsSound locked (step locked s i (s.pc i) a)
    step-IsSound a ok legal = record {
      chain = step-IsChain locked s i (s.pc i) a ok.chain (ok.knows i);
      knows = step-Knows (s.pc i) a refl ok;
      links =
          step-links locked s i (s.pc i) a refl (λ j k e. below (s.pc j) k (ok.knows j) e) ok.links;
      whole = step-IsWhole locked s i (s.pc i) a refl ok.chain (ok.knows i) ok.whole;
      guarded = λ h. step-Guarded locked s i a h (ok.guarded h);
      owned = λ h. step-Owned locked s i a h (ok.owned h);
      one = λ h. step-one locked s i (s.pc i) a refl (ok.one h) (legal h);
    }
      where
        below : (p : Pc A) (k : ℕ) → Knows s.queue p → link_of p ≡ some k → k < s.queue.tail
        below (enqueue_link before node) k h e = ground arith
        below _ k h e = cc

  pub start-IsSound : (locked : Bool) → IsSound locked start
  unfolding start new_queue
  start-IsSound locked = record {
    chain = record {
      order = omega arith;
      link = λ k j e. cc;
      passed = λ k h. absurd (omega arith);
      alive = λ k h. refl;
      gone = λ k h. absurd (omega arith);
      fifo = rw (waiting-zero {A = A} (λ k. none) 0) refl;
    };
    knows = λ i. tt;
    links = λ i j k e f. cc;
    whole = λ k l h e. absurd (omega arith);
    owned = λ h. record { owner = λ e. cc };
    guarded = λ h. record { held = λ i e. cc; alone = λ i j e f. cc };
    one = λ h i e. cc;
  }

  pub run-IsSound :
      (locked : Bool) (s : System A) (xs : List (ℕ × Act A))
      → is_legal locked xs ≡ true
      → IsSound locked s
      → IsSound locked (run locked s xs)
  unfolding run
  run-IsSound locked s [] l ok = ok
  run-IsSound locked s ((i, a) ∷ xs) l ok =
      run-IsSound locked (step locked s i (s.pc i) a) xs (ground arith)
        (step-IsSound locked s i a ok (λ f g. ground arith))
