-- ===== src/Epoch/Balance.antt =====
-- The payloads that `enqueue` of mpmc_queue is called with, after every schedule.
use fast_mpmc_queue.Prelude.{
  ℕ, ◌+◌, ◌<◌, ◌≡◌, ◌≢◌, ◌⊎◌, inl, inr, refl, sym, ◌∙◌, Bool, true, arith, List, [], ◌∷◌, update,
  total-update, total-eq-zero,
}
use native.Mathlib.Decide.{ℕ_discrete}
use fast_mpmc_queue.Nodes.{weigh, is_within}
use fast_mpmc_queue.Epoch.{
  Config, put, take, Pc, construct_producing, construct_consuming, register_epoch, register_lock,
  register_insert, register_unlock, enqueue_test, enqueue_loop, enqueue_tail, enqueue_next,
  enqueue_advance, enqueue_link, Act, System,
}
use fast_mpmc_queue.Epoch.Account.{hand, in_hand, settled, Placed, IsOn, step-Pays}
use fast_mpmc_queue.Epoch.Machine.{new_queue, start, step, run}

module _ {ℓ} {A : Type ℓ} where
  -- A thread other than thread 0 stays in its place when the constructor returns.
  Placed-built : (b : Bool) (j : ℕ) (p : Pc A) → j ≢ 0 → Placed b j p → Placed true j p
  Placed-built b j construct_producing h g = absurd (h g.1)
  Placed-built b j construct_consuming h g = absurd (h g.1)
  Placed-built b j (enqueue_test v) h g = refl
  Placed-built b j (register_epoch (put v)) h g = refl
  Placed-built b j (register_lock (put v) epoch) h g = refl
  Placed-built b j (register_insert (put v) epoch) h g = refl
  Placed-built b j (register_unlock (put v) epoch) h g = refl
  Placed-built b j (register_epoch take) h g = tt
  Placed-built b j (register_lock take epoch) h g = tt
  Placed-built b j (register_insert take epoch) h g = tt
  Placed-built b j (register_unlock take epoch) h g = tt
  Placed-built b j (enqueue_loop v epoch) h g = refl
  Placed-built b j (enqueue_tail v epoch) h g = refl
  Placed-built b j (enqueue_next v epoch tail) h g = refl
  Placed-built b j (enqueue_advance v epoch next) h g = refl
  Placed-built b j (enqueue_link v epoch tail) h g = refl
  Placed-built b j _ h g = tt

  pub record IsAccounted (w : A → ℕ) (n : ℕ) (s : System A) : Type ℓ where
    pub balance : weigh w s.called ≡ settled w s + in_hand w n s.pc
    placed : (j : ℕ) → Placed s.is_built j (s.pc j)
    pub on : IsOn s

  module _ (w : A → ℕ) (c : Config) (n : ℕ) where
    step-IsAccounted :
        (s : System A) (i : ℕ) (a : Act A)
        → i < n
        → IsAccounted w n s
        → IsAccounted w n (step c s i (s.pc i) a)
    step-IsAccounted s i a thread ok =
        let (p', e, pays, mine, built, on) = step-Pays w c s i (s.pc i) a (ok.placed i) in
        record {
          balance =
              rw e (omega (arith, pays, ok.balance, total-update n (hand w) s.pc i p' thread));
          placed = λ j. rw e (moved s i _ p' j mine built (ok.placed j));
          on = on ok.on;
        }
      where
        elsewhere :
            (s : System A) (i : ℕ) (b : Bool) (j : ℕ)
            → j ≢ i
            → (b ≡ s.is_built) ⊎ ((b ≡ true) × (i ≡ 0))
            → Placed s.is_built j (s.pc j)
            → Placed b j (s.pc j)
        elsewhere s i b j e (inl same) other = rw same other
        elsewhere s i b j e (inr (yes_built, first)) other =
            rw yes_built (Placed-built s.is_built j (s.pc j) (λ z. e (z ∙ sym first)) other)

        moved :
            (s : System A) (i : ℕ) (b : Bool) (p' : Pc A) (j : ℕ)
            → Placed b i p'
            → (b ≡ s.is_built) ⊎ ((b ≡ true) × (i ≡ 0))
            → Placed s.is_built j (s.pc j)
            → Placed b j (update s.pc i p' j)
        moved s i b p' j mine built other = elim (ℕ_discrete j i) [
          | yes e ↦ rw e (ground (arith, mine))
          | no e ↦ ground (arith, elsewhere s i b j e built other)
        ]

    accounts :
        (s : System A) (xs : List (ℕ × Act A))
        → is_within n xs ≡ true
        → IsAccounted w n s
        → IsAccounted w n (run c s xs)
    unfolding run
    accounts s [] h ok = ok
    accounts s ((i, a) ∷ xs) h ok =
        accounts (step c s i (s.pc i) a) xs (ground arith)
          (step-IsAccounted s i a (ground arith) ok)

    -- The payloads of all calls are linked, refused, dropped or in hand.
    pub run-IsAccounted :
        (xs : List (ℕ × Act A)) → is_within n xs ≡ true → IsAccounted w n (run c (start c) xs)
    unfolding start new_queue weigh
    run-IsAccounted xs h = accounts (start c) xs h (record {
      balance = rw (total-eq-zero n (λ j. hand w ((start c).pc j)) (λ j p. ground arith)) refl;
      placed = λ j. ground arith;
      on = λ e. (refl, refl);
    })
