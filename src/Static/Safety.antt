-- ===== src/Static/Safety.antt =====
-- What the static queue guarantees after every schedule of its threads.
use fast_mpmc_queue.Prelude.{
  ℕ, ◌+◌, ◌^◌, ◌≤◌, ◌<◌, ◌≡◌, ◌≢◌, ap, Bool, true, some, List, arith, pos_part, neg_part, eqb_ℤ→eq,
}
use fast_mpmc_queue.Slots.{prod_locked, ready, cons_locked}
use fast_mpmc_queue.Slots.Protocol.{slot_of}
use fast_mpmc_queue.Slots.Counts.{c_owing, claims-le}
use fast_mpmc_queue.Slots.Invariant.{locking-held, producing-held, consuming-held}
use fast_mpmc_queue.Slots.Bounds.{balance_bounds, full_balance-ne_ready}
use fast_mpmc_queue.Static.{produce_take, producer, consumer, Act, is_write_consumer, empty}
use fast_mpmc_queue.Static.Machine.{System, start, turn, run}
use fast_mpmc_queue.Static.View.{claim_of, view}
use fast_mpmc_queue.Slots.Threads.{Simulated}
use fast_mpmc_queue.Static.Refine.{owing_at_most_one}
use fast_mpmc_queue.Static.Invariant.{IsSound, start-IsSound, run-IsSound, turn-Simulated}

module _ {ℓ} {A : Type ℓ} (size : ℕ) (auto_complete : Bool) (n : ℕ) (default : A) (wide : 1 < size)
    (fits : size + n < 2 ^ 31) (schedule : List (ℕ × Act A)) where
  -- The program after the schedule.
  abbrev reached : System A
  reached = run size auto_complete n (start size default) schedule

  sound : IsSound size auto_complete n reached
  sound =
      run-IsSound size auto_complete n wide fits (start size default) schedule
        (start-IsSound size auto_complete n default)

  -- For a queue of more than one slot, with `size` and the number of threads together below 2^31:
  -- after every schedule, whatever thread is scheduled next, its access is a move of the slot
  -- protocol, or, if the thread chose a consumer's write, a write to the payload that it holds, or is
  -- not seen by the protocol.
  pub step_refines :
      (x : ℕ × Act A)
      → Simulated n
          (is_write_consumer x.1)
          (view size (run size auto_complete n (start size default) schedule))
          (view size
            (turn size auto_complete n (run size auto_complete n (start size default) schedule) x))
  step_refines x = turn-Simulated size auto_complete n wide fits reached x sound

  -- For a queue of more than one slot, with `size` and the number of threads together below 2^31:
  -- after every schedule, two threads never hold the same slot, be it as a producer that has just
  -- locked it or behind an accessor of either kind.
  pub exclusive :
      (i j k : ℕ)
      → slot_of (claim_of ((run size auto_complete n (start size default) schedule).pc i)) ≡ some k
      → slot_of (claim_of ((run size auto_complete n (start size default) schedule).pc j)) ≡ some k
      → i ≡ j
  exclusive i j k p q = sound.inv.unique i j k p q

  -- For a queue of more than one slot, with `size` and the number of threads together below 2^31:
  -- after every schedule, the assertions of the accessors hold. The slot of a producer's accessor,
  -- alive or about to be constructed, is inside the array and in state `prod_locked`, and the slot
  -- of a consumer's accessor is inside the array and in state `cons_locked`.
  pub accessor_asserts :
      (i k : ℕ) (c : Bool)
      → let s = run size auto_complete n (start size default) schedule in
        (s.pc i ≡ produce_take k → (k < size) × (s.queue.state k ≡ prod_locked))
        × (s.pc i ≡ producer k c → (k < size) × (s.queue.state k ≡ prod_locked))
        × (s.pc i ≡ consumer k c → (k < size) × (s.queue.state k ≡ cons_locked))
  accessor_asserts i k c = (
    λ e. locking-held sound.inv i k (ap claim_of e),
    λ e. producing-held sound.inv i k (ap claim_of e),
    λ e. consuming-held sound.inv i k (ap claim_of e),
  )

  -- For a queue of more than one slot, with `size` and the number of threads together below 2^31:
  -- after every schedule, `m_free` is at most the size, and below zero by at most the number of
  -- threads, so the 32-bit counter never wraps.
  pub free_count_bounds :
      let s = run size auto_complete n (start size default) schedule in
      (pos_part s.queue.free_count ≤ size) × (neg_part s.queue.free_count ≤ n)
  free_count_bounds =
      let owed =
        claims-le c_owing 1 n (λ j. claim_of (reached.pc j))
          (λ j. owing_at_most_one (reached.pc j)) in
      omega (arith, balance_bounds sound.inv, owed)

  -- For a queue of more than one slot, with `size` and the number of threads together below 2^31:
  -- if `empty()` answers true after a schedule, no slot is ready and no consumer holds one.
  pub empty-ne_ready :
      empty size (run size auto_complete n (start size default) schedule).queue ≡ true
      → (k : ℕ)
      → let s = run size auto_complete n (start size default) schedule in
        (s.queue.state k ≢ ready) × (s.queue.state k ≢ cons_locked)
  unfolding empty
  empty-ne_ready e k = full_balance-ne_ready sound.inv (eqb_ℤ→eq _ _ e) k
