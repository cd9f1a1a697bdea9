-- ===== src/Deferred/Invariant.antt =====
-- The invariant of mpmcdd_queue under interleaving.
use fast_mpmc_queue.Prelude.{
  ℕ, ◌≡◌, ◌≢◌, ◌⊎◌, inl, inr, refl, true, false, arith, none, List, [], ◌∷◌, update, Bool-cases,
}
use native.Mathlib.Decide.{ℕ_discrete}
use fast_mpmc_queue.Nodes.{IsOrdered, waiting-zero}
use fast_mpmc_queue.Deferred.{new_queue}
use fast_mpmc_queue.Deferred.Machine.{Pc, Act, System, start, step, run}
use fast_mpmc_queue.Deferred.Order.{
  Knows, Knows-grow, is_exchanging, IsShaped, step-IsOrdered, step-Grows, step-goes,
}
use fast_mpmc_queue.Deferred.Shape.{step-IsShaped, marks_first, unmarked}

module _ {ℓ} {A : Type ℓ} where
  pub record IsSound (s : System A) : Type ℓ where
    pub nodes :
        IsOrdered s.queue.next s.queue.data_of s.queue.allocated s.queue.head s.enqueued s.dequeued
    pub shape : IsShaped s.queue
    pub knows : (i : ℕ) → Knows s.queue (s.pc i)
    pub one : (i j : ℕ) → is_exchanging (s.pc i) ≡ true → is_exchanging (s.pc j) ≡ true → i ≡ j

  module _ (s : System A) (i : ℕ) (a : Act A) (ok : IsSound s) where
    abbrev after_step : System A
    after_step = step s i (s.pc i) a

    abbrev goes : (p' : Pc A) × (after_step.pc ≡ update s.pc i p') × Knows after_step.queue p'
    goes = step-goes s i (s.pc i) a ok.nodes ok.shape (ok.knows i)

    other_pc : (j : ℕ) → j ≢ i → after_step.pc j ≡ s.pc j
    other_pc j h = let (p', e, k) = goes in rw e (ground arith)

    own_pc : after_step.pc i ≡ goes.0
    own_pc = let (p', e, k) = goes in rw e (ground arith)

    -- Another thread may be about to move the head only if this one does not.
    not_both :
        (j : ℕ)
        → j ≢ i
        → is_exchanging (s.pc j) ≡ false
          ⊎ ((s.queue.head ≡ after_step.queue.head)
              × ((k : ℕ) → s.queue.is_deleted k ≡ true → after_step.queue.is_deleted k ≡ true))
    not_both j h =
        let g = step-Grows s i (s.pc i) a (ok.knows i) in
        elim (Bool-cases (is_exchanging (s.pc j))) [
          | inl there ↦ inr (g.same_head (ground (arith, ok.one i j)), g.marks)
          | inr away ↦ inl away
        ]

    step-Knows : (j : ℕ) → Knows after_step.queue (after_step.pc j)
    step-Knows j = elim (ℕ_discrete j i) [
      | yes p ↦ rw (p, own_pc) goes.2
      | no p ↦
          let g = step-Grows s i (s.pc i) a (ok.knows i) in
          rw (other_pc j p)
            (Knows-grow s.queue after_step.queue (s.pc j) g.more g.on (not_both j p) (ok.knows j))
    ]

    -- Who marks the node after the head is the first to do so, and nobody else is about to move it.
    marks_alone :
        (j : ℕ)
        → j ≢ i
        → is_exchanging (after_step.pc i) ≡ true
        → is_exchanging (after_step.pc j) ≡ false
    marks_alone j h e =
        let (head, first, at_mark, fresh) = marks_first s i (s.pc i) a e in
        rw (other_pc j h) (
          unmarked s i (s.pc j) head first ok.shape (rw at_mark at (ok.knows i)) (ok.knows j) fresh)

    step-one :
        (j l : ℕ)
        → is_exchanging (after_step.pc j) ≡ true
        → is_exchanging (after_step.pc l) ≡ true
        → j ≡ l
    step-one j l f g = elim (ℕ_discrete j i) [
      | yes p ↦ elim (ℕ_discrete l i) [
        | yes q ↦ omega arith
        | no q ↦ absurd (ground (arith, marks_alone l q (rw p at f)))
      ]
      | no p ↦ elim (ℕ_discrete l i) [
        | yes q ↦ absurd (ground (arith, marks_alone j p (rw q at g)))
        | no q ↦ ok.one j l (rw (other_pc j p) at f) (rw (other_pc l q) at g)
      ]
    ]

    pub step-IsSound : IsSound after_step
    step-IsSound = record {
      nodes = step-IsOrdered s i (s.pc i) a ok.nodes (ok.knows i);
      shape = step-IsShaped s i (s.pc i) a ok.shape (ok.knows i);
      knows = step-Knows;
      one = step-one;
    }

  pub start-IsSound : IsSound start
  unfolding start new_queue
  start-IsSound = record {
    nodes = record {
      inside = omega arith;
      links = λ k. ground arith;
      fifo = rw (waiting-zero {A = A} (λ k. none) 0) refl;
    };
    shape = record {
      tail_in = omega arith;
      marked = λ k l h. absurd (omega arith);
      listed = tt;
      chained = λ k. tt;
      behind = λ k h. cc;
    };
    knows = λ i. tt;
    one = λ i j f g. cc;
  }

  pub run-IsSound : (s : System A) (xs : List (ℕ × Act A)) → IsSound s → IsSound (run s xs)
  unfolding run
  run-IsSound s [] ok = ok
  run-IsSound s ((i, a) ∷ xs) ok = run-IsSound (step s i (s.pc i) a) xs (step-IsSound s i a ok)
