-- ===== src/Dynamic/Invariant.antt =====
-- What holds of the dynamic queue after every schedule.
use mathlib.Core.Path.{subst}
use fast_mpmc_queue.Prelude.{
  ℕ, ◌+◌, ◌-◌, ◌*◌, ◌^◌, ◌<◌, ◌≡◌, refl, inl, inr, false, List, [], ◌∷◌, arith, Bool-cases, ltb,
}
use fast_mpmc_queue.Slots.Invariant.{Inv, fresh-Inv}
use fast_mpmc_queue.Slots.Threads.{Simulated, stays, after, Simulated-Inv}
use fast_mpmc_queue.Dynamic.{Config, slot_count, new_queue, Act}
use fast_mpmc_queue.Dynamic.Machine.{System, start, step, turn, run}
use fast_mpmc_queue.Dynamic.View.{IsInside, IsInside-mono, cap_of, view}
use fast_mpmc_queue.Dynamic.Ring.{IsRing, new_queue-IsRing, step-IsRing, step-cap-le, step-IsInside}
use fast_mpmc_queue.Dynamic.Capacity.{mul_mono, HasCapacity, start-HasCapacity}
use fast_mpmc_queue.Dynamic.Limit.{step-HasCapacity}
use fast_mpmc_queue.Dynamic.Lock.{IsLocked, step-IsLocked}
use fast_mpmc_queue.Dynamic.Refine.{step-Simulated}

-- Parameters that the class accepts, and small enough for its counters with `n` threads: the blocks
-- that `max_blocks` allows, twice as many as there are threads, and one more.
pub record IsFit (c : Config) (n : ℕ) : Type 0 where
  pub wide : 1 < c.block_size
  pub some_blocks : 0 < c.max_blocks
  pub small :
      c.block_size * c.max_blocks + c.block_size * n + n * c.block_size + c.block_size < 2 ^ 31

module _ {ℓ} {A : Type ℓ} (c : Config) (n : ℕ) (fit : IsFit c n) where
  pub record IsSound (s : System A) : Type 0 where
    pub inv : Inv n (view c s)
    pub ring : IsRing c s.queue
    pub inside : (i : ℕ) → IsInside (cap_of c s.queue) (s.pc i)
    pub capacity : HasCapacity c n s
    pub locked : IsLocked c s

  start-Inv : (default : A) → Inv n (view c (start c default))
  unfolding start new_queue
  start-Inv default =
      subst (λ (m : ℕ). Inv n (record (view c (start c default)) { cap = m })) one_block
        (fresh-Inv n c.block_size (λ k. default))
    where
      one_block : c.block_size ≡ slot_count c.block_size 0
      one_block = omega arith

  pub start-IsSound : (default : A) → IsSound (start c default)
  unfolding start
  start-IsSound default = record {
    inv = start-Inv default;
    ring = new_queue-IsRing c default (omega (arith, fit.wide));
    inside = λ i. tt;
    capacity = start-HasCapacity c n default fit.some_blocks;
    locked = record { held = λ i h. cc; alone = λ i j h l. cc };
  }

  module _ (s : System A) (ok : IsSound s) where
    small_cap : cap_of c s.queue + n * c.block_size + c.block_size < 2 ^ 31
    small_cap =
        omega (arith, fit.small, ok.capacity.limited, mul_mono c.block_size (n - 1) n (omega arith))

    pub turn-Simulated : (x : ℕ × Act A) → Simulated n false (view c s) (view c (turn c n s x))
    unfolding turn
    turn-Simulated (i, a) = elim (Bool-cases (ltb i n)) [
      | inl thread ↦ rw thread (
          step-Simulated c s i (ground arith) ok.inv (omega (arith, fit.wide)) small_cap (s.pc i) a
            refl (ok.inside i))
      | inr none ↦ rw none (stays refl)
    ]

    -- A step of a thread that exists.
    step-IsSound : (i : ℕ) (a : Act A) → i < n → IsSound (after s i (step c s.queue (s.pc i) a))
    step-IsSound i a thread = record {
      inv = Simulated-Inv ok.inv (
          step-Simulated c s i thread ok.inv (omega (arith, fit.wide)) small_cap (s.pc i) a refl
            (ok.inside i));
      ring = step-IsRing c s.queue (s.pc i) a (omega (arith, fit.wide)) ok.ring (ok.inside i);
      inside = λ j. ground (
        arith,
        step-IsInside c s.queue (s.pc i) a (omega (arith, fit.wide)) ok.ring (ok.inside i),
        IsInside-mono (cap_of c s.queue) (cap_of c (step c s.queue (s.pc i) a).queue) (s.pc j)
            (step-cap-le c s.queue (s.pc i) a) (ok.inside j),
      );
      capacity =
          step-HasCapacity c s i thread ok.capacity (s.pc i) a refl (omega (arith, small_cap));
      locked = step-IsLocked c s i a ok.locked;
    }

    pub turn-IsSound : (x : ℕ × Act A) → IsSound (turn c n s x)
    unfolding turn
    turn-IsSound (i, a) = elim (Bool-cases (ltb i n)) [
      | inl thread ↦ rw thread (step-IsSound i a (ground arith))
      | inr none ↦ rw none ok
    ]

  pub run-IsSound : (s : System A) (xs : List (ℕ × Act A)) → IsSound s → IsSound (run c n s xs)
  unfolding run
  run-IsSound s [] ok = ok
  run-IsSound s (x ∷ xs) ok = run-IsSound (turn c n s x) xs (turn-IsSound s ok x)
