-- ===== src/Dynamic/Delivery.antt =====
-- What the dynamic queue hands over from its producers to its consumers.
use mathlib.Core.Path.{subst}
use fast_mpmc_queue.Prelude.{ℕ, ◌+◌, ◌≡◌, refl, false, List, [], ◌∷◌, arith}
use fast_mpmc_queue.Slots.{free}
use fast_mpmc_queue.Slots.Delivery.{load, stock, Delivered, fresh-Delivered}
use fast_mpmc_queue.Slots.Threads.{Simulated-Delivered}
use fast_mpmc_queue.Dynamic.{Config, slot_count, new_queue, Act}
use fast_mpmc_queue.Dynamic.Machine.{System, start, turn, run}
use fast_mpmc_queue.Dynamic.View.{cap_of, view}
use fast_mpmc_queue.Dynamic.Invariant.{IsFit, IsSound, start-IsSound, turn-IsSound, turn-Simulated}

module _ {ℓ} {A : Type ℓ} (weight : A → ℕ) (c : Config) (n : ℕ) (fit : IsFit c n) where
  run-Delivered :
      (s : System A) (xs : List (ℕ × Act A))
      → IsSound c n fit s
      → Delivered weight (view c s)
      → Delivered weight (view c (run c n s xs))
  unfolding run
  run-Delivered s [] ok d = d
  run-Delivered s (x ∷ xs) ok d =
      run-Delivered (turn c n s x) xs (turn-IsSound c n fit s ok x)
        (Simulated-Delivered weight {b = false} refl ok.inv (turn-Simulated c n fit s ok x) d)

  start-Delivered : (default : A) → Delivered weight (view c (start c default))
  unfolding start new_queue Delivered
  start-Delivered default =
      subst (λ (m : ℕ). load weight [] ≡ load weight [] + stock weight m (λ k. free) (λ k. default))
        one_block (unfold Delivered in fresh-Delivered weight c.block_size (λ k. default))
    where
      one_block : c.block_size ≡ slot_count c.block_size 0
      one_block = omega arith

  -- For parameters that fit `n` threads, and for every weight of payloads: after every schedule, what
  -- producers have published weighs as much as what consumers have finished with and what lies in
  -- slots that are ready or held by a consumer, taken together.
  pub nothing_lost :
      (default : A) (schedule : List (ℕ × Act A))
      → let s = run c n (start c default) schedule in
        load weight s.published
        ≡ load weight s.consumed + stock weight (cap_of c s.queue) s.queue.state s.queue.payload
  unfolding Delivered
  nothing_lost default schedule =
      run-Delivered (start c default) schedule (start-IsSound c n fit default)
        (start-Delivered default)
