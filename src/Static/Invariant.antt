-- ===== src/Static/Invariant.antt =====
-- What holds of the static queue after every schedule.
use fast_mpmc_queue.Prelude.{
  ℕ, ◌+◌, ◌^◌, ◌<◌, refl, inl, inr, Bool, List, [], ◌∷◌, arith, Bool-cases, ltb,
}
use fast_mpmc_queue.Algo.Laws.{reduce-lt}
use fast_mpmc_queue.Slots.Invariant.{Inv, fresh-Inv}
use fast_mpmc_queue.Static.{
  Queue, Pc, idle, stopping, produce_enter, produce_loop, produce_free, produce_index, produce_fold,
  produce_lock, produce_take, producer, consume_loop, consume_free, consume_index, consume_fold,
  consume_lock, consumer, refund, Act, begin, is_write_consumer,
}
use fast_mpmc_queue.Static.Machine.{System, start, step, turn, run}
use fast_mpmc_queue.Static.View.{IsInside, view}
use fast_mpmc_queue.Slots.Threads.{Simulated, stays, Simulated-Inv}
use fast_mpmc_queue.Static.Refine.{step-Simulated}

module _ {ℓ} {A : Type ℓ} (size : ℕ) (auto_complete : Bool) (n : ℕ) where
  -- The protocol's invariant, and indices in range.
  pub record IsSound (s : System A) : Type 0 where
    pub inv : Inv n (view size s)
    pub inside : (i : ℕ) → IsInside size (s.pc i)

  pub start-IsSound : (default : A) → IsSound (start size default)
  unfolding start
  start-IsSound default = record { inv = fresh-Inv n size (λ k. default); inside = λ i. tt }

  -- A loop of `iterate_post_inc` leaves an index below the size.
  step-IsInside :
      1 < size
      → (q : Queue A) (p : Pc) (a : Act A) → IsInside size p
      → IsInside size (step size auto_complete q p a).pc
  unfolding step begin
  step-IsInside wide q idle a h = ground arith
  step-IsInside wide q stopping a h = tt
  step-IsInside wide q (produce_enter attempts) a h = ground arith
  step-IsInside wide q (produce_loop attempts count) a h = ground arith
  step-IsInside wide q (produce_free attempts count) a h = ground arith
  step-IsInside wide q (produce_index attempts count) a h =
      ground (arith, reduce-lt size q.producer_index)
  step-IsInside wide q (produce_fold attempts count current) a h = reduce-lt size current wide
  step-IsInside wide q (produce_lock attempts count index) a h = ground arith
  step-IsInside wide q (produce_take index) a h = tt
  step-IsInside wide q (producer index c) a h = ground arith
  step-IsInside wide q consume_loop a h = ground arith
  step-IsInside wide q consume_free a h = ground arith
  step-IsInside wide q consume_index a h = ground (arith, reduce-lt size q.consumer_index)
  step-IsInside wide q (consume_fold current) a h = reduce-lt size current wide
  step-IsInside wide q (consume_lock index) a h = ground arith
  step-IsInside wide q (consumer index c) a h = ground arith
  step-IsInside wide q refund a h = tt

  module _ (wide : 1 < size) (fits : size + n < 2 ^ 31) where
    pub turn-Simulated :
        (s : System A) (x : ℕ × Act A)
        → IsSound s
        → Simulated n
            (is_write_consumer x.1)
            (view size s)
            (view size (turn size auto_complete n s x))
    unfolding turn
    turn-Simulated s (i, a) ok = elim (Bool-cases (ltb i n)) [
      | inl thread ↦ rw thread (
          step-Simulated size auto_complete s i (ground arith) ok.inv fits (s.pc i) a refl
            (ok.inside i))
      | inr none ↦ rw none (stays refl)
    ]

    pub turn-IsSound :
        (s : System A) (x : ℕ × Act A) → IsSound s → IsSound (turn size auto_complete n s x)
    unfolding turn
    turn-IsSound s (i, a) ok = record {
      inv = Simulated-Inv ok.inv (turn-Simulated s (i, a) ok);
      inside =
          λ j. ground (arith, ok.inside j, step-IsInside wide s.queue (s.pc i) a (ok.inside i));
    }

    pub run-IsSound :
        (s : System A) (xs : List (ℕ × Act A)) → IsSound s → IsSound (run size auto_complete n s xs)
    unfolding run
    run-IsSound s [] ok = ok
    run-IsSound s (x ∷ xs) ok = run-IsSound (turn size auto_complete n s x) xs (turn-IsSound s x ok)
