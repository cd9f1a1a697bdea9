-- ===== src/Static/Delivery.antt =====
-- What the static queue hands over from its producers to its consumers.
use fast_mpmc_queue.Prelude.{ℕ, ◌+◌, ◌^◌, ◌<◌, ◌≡◌, Bool, false, List, [], ◌∷◌}
use fast_mpmc_queue.Slots.Delivery.{load, stock, Delivered, fresh-Delivered}
use fast_mpmc_queue.Static.{Act, is_write_consumer}
use fast_mpmc_queue.Static.Machine.{System, start, turn, run}
use fast_mpmc_queue.Static.View.{view}
use fast_mpmc_queue.Slots.Threads.{Simulated-Delivered}
use fast_mpmc_queue.Static.Invariant.{IsSound, start-IsSound, turn-IsSound, turn-Simulated}

-- A schedule in which no consumer writes to the payload that it received.
abbrev pub IsReadOnly {ℓ} : {A : Type ℓ} → List (ℕ × Act A) → Type 0
IsReadOnly [] = Unit
IsReadOnly (x ∷ xs) = (is_write_consumer x.1 ≡ false) × IsReadOnly xs

module _ {ℓ} {A : Type ℓ} (weight : A → ℕ) where
  module _ (size : ℕ) (auto_complete : Bool) (n : ℕ) (wide : 1 < size)
      (fits : size + n < 2 ^ 31) where
    run-Delivered :
        (s : System A) (xs : List (ℕ × Act A))
        → IsReadOnly xs
        → IsSound size auto_complete n s
        → Delivered weight (view size s)
        → Delivered weight (view size (run size auto_complete n s xs))
    unfolding run
    run-Delivered s [] r ok d = d
    run-Delivered s (x ∷ xs) r ok d =
        run-Delivered (turn size auto_complete n s x) xs r.1
          (turn-IsSound size auto_complete n wide fits s x ok)
          (Simulated-Delivered weight r.0 ok.inv
            (turn-Simulated size auto_complete n wide fits s x ok) d)

    -- For a queue of more than one slot, with `size` and the number of threads together below 2^31,
    -- and for every weight of payloads: after every schedule in which no consumer writes to its
    -- payload, what producers have published weighs as much as what consumers have finished with
    -- and what lies in slots that are ready or held by a consumer, taken together.
    pub delivered :
        (default : A) (schedule : List (ℕ × Act A))
        → IsReadOnly schedule
        → let s = run size auto_complete n (start size default) schedule in
          load weight s.published
          ≡ load weight s.consumed + stock weight size s.queue.state s.queue.payload
    unfolding Delivered
    delivered default schedule r =
        run-Delivered (start size default) schedule r (start-IsSound size auto_complete n default)
          (unfold start in fresh-Delivered weight size (λ k. default))
