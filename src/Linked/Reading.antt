-- ===== src/Linked/Reading.antt =====
-- The calls of `empty` from the consumer of a queue without a lock: the node they read is the head.
use fast_mpmc_queue.Prelude.{ℕ, ◌≡◌, ◌≢◌, refl, ap, Bool, true, false, arith, List, [], ◌∷◌}
use native.Mathlib.Decide.{ℕ_discrete}
use fast_mpmc_queue.Linked.{
  Pc, idle, stopping, enqueue_test, enqueue_lock, enqueue_exchange, enqueue_link, dequeue_test,
  dequeue_lock, dequeue_head, dequeue_next, dequeue_exchange, unlocking, empty_head, empty_next,
  Act, System, step, run, begin, start, is_legal, is_call_empty, is_careful,
}
use fast_mpmc_queue.Linked.Steps.{in_dequeue}
use fast_mpmc_queue.Linked.Invariant.{IsSound, step-IsSound, start-IsSound}

module _ {ℓ} {A : Type ℓ} where
  -- What is known of thread `j` inside `empty`.
  abbrev pub IsReader : (locked : Bool) (head j : ℕ) → Pc A → Type 0
  IsReader locked head j empty_head = (locked ≡ false) × (j ≡ 0)
  IsReader locked head j (empty_next h) = (locked ≡ false) × (j ≡ 0) × (h ≡ head)
  IsReader locked head j _ = Unit

  -- Another thread that takes the head is the consumer, and is not inside `empty`.
  IsReader-dequeue :
      (locked : Bool) (head next i j : ℕ) (p : Pc A)
      → j ≢ i
      → (locked ≡ false → i ≡ 0)
      → IsReader locked head j p
      → IsReader locked next j p
  IsReader-dequeue locked head next i j empty_head other one h = h
  IsReader-dequeue locked head next i j (empty_next k) other one h =
      absurd (omega (arith, h.1, one h.0, other))
  IsReader-dequeue locked head next i j _ other one h = tt

  module _ (locked : Bool) (s : System A) (i : ℕ) where
    step-IsReader :
        (p : Pc A) (a : Act A)
        → s.pc i ≡ p
        → IsSound locked s
        → (is_call_empty a ≡ true → (locked ≡ false) × (i ≡ 0))
        → ((j : ℕ) → IsReader locked s.queue.head j (s.pc j))
        → let t = step locked s i p a in (j : ℕ) → IsReader locked t.queue.head j (t.pc j)
    unfolding step begin
    step-IsReader idle a e ok careful h j = ground (arith, h j, careful)
    step-IsReader stopping a e ok careful h j = ground (arith, h j)
    step-IsReader (enqueue_test v) a e ok careful h j = ground (arith, h j)
    step-IsReader (enqueue_lock v) a e ok careful h j = ground (arith, h j)
    step-IsReader (enqueue_exchange v) a e ok careful h j = ground (arith, h j)
    step-IsReader (enqueue_link before node) a e ok careful h j = ground (arith, h j)
    step-IsReader dequeue_test a e ok careful h j = ground (arith, h j)
    step-IsReader dequeue_lock a e ok careful h j = ground (arith, h j)
    step-IsReader dequeue_head a e ok careful h j = ground (arith, h j)
    step-IsReader (dequeue_next head) a e ok careful h j = ground (arith, h j)
    step-IsReader (dequeue_exchange next) a e ok careful h j = elim (ℕ_discrete j i) [
      | yes p ↦ rw p (ground arith)
      | no p ↦ ground (
        arith,
        IsReader-dequeue locked s.queue.head next i j (s.pc j) p (λ f. ok.one f i (ap in_dequeue e))
            (h j),
      )
    ]
    step-IsReader unlocking a e ok careful h j = ground (arith, h j)
    step-IsReader empty_head a e ok careful h j = ground (arith, h j, h i)
    step-IsReader (empty_next head) a e ok careful h j = ground (arith, h j)

  readers :
      (locked : Bool) (s : System A) (xs : List (ℕ × Act A))
      → is_legal locked xs ≡ true
      → is_careful locked xs ≡ true
      → IsSound locked s
      → ((j : ℕ) → IsReader locked s.queue.head j (s.pc j))
      → let t = run locked s xs in (j : ℕ) → IsReader locked t.queue.head j (t.pc j)
  unfolding run
  readers locked s [] l c ok h = h
  readers locked s ((i, a) ∷ xs) l c ok h =
      readers locked (step locked s i (s.pc i) a) xs (ground arith) (ground arith)
        (step-IsSound locked s i a ok (λ f g. ground arith))
        (step-IsReader locked s i (s.pc i) a refl ok (λ e. ground arith) h)

  pub run-IsReader :
      (locked : Bool) (xs : List (ℕ × Act A))
      → is_legal locked xs ≡ true
      → is_careful locked xs ≡ true
      → let s = run locked start xs in (j : ℕ) → IsReader locked s.queue.head j (s.pc j)
  unfolding start
  run-IsReader locked xs l c = readers locked start xs l c (start-IsSound locked) (λ j. tt)
