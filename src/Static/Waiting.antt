-- ===== src/Static/Waiting.antt =====
-- `consumer_slot` of the static queue while a producer's accessor is alive.
use fast_mpmc_queue.Prelude.{
  ℕ, zero, suc, ◌+◌, ◌^◌, ◌≤◌, ◌<◌, ◌≡◌, refl, ap, Bool, true, false, List, arith, lt→ltb,
  replicate, ltb_ℤ, pos,
}
use fast_mpmc_queue.Slots.{ready, is_state}
use fast_mpmc_queue.Slots.Counts.{c_producing, claims, le-claims}
use fast_mpmc_queue.Slots.Bounds.{balance_lem}
use fast_mpmc_queue.Static.{
  Queue, Pc, producer, consume_loop, consume_free, consume_index, consume_fold, consume_lock, Act,
  go,
}
use fast_mpmc_queue.Static.Machine.{System, start, step, turn, run}
use fast_mpmc_queue.Static.View.{claim_of}
use fast_mpmc_queue.Static.Invariant.{IsSound, start-IsSound, run-IsSound}
use fast_mpmc_queue.Static.Progress.{is_consuming}

-- Consuming is enabled, a slot is taken, and none is ready.
record IsDry {ℓ} {A : Type ℓ} (size : ℕ) (q : Queue A) : Type 0 where
  enabled : q.consumer_enable ≡ true
  taken : ltb_ℤ q.free_count (pos size) ≡ true
  none_ready : (k : ℕ) → is_state (q.state k) ready ≡ false

module _ {ℓ} {A : Type ℓ} (size : ℕ) (auto_complete : Bool) where
  -- On such a queue a step of `consumer_slot` moves the cursor at most.
  step-IsDry :
      (q : Queue A) (p : Pc) (a : Act A)
      → IsDry size q
      → is_consuming p ≡ true
      → let o = step size auto_complete q p a in IsDry size o.queue × (is_consuming o.pc ≡ true)
  unfolding step
  step-IsDry q consume_loop a d c = (d, rw d.enabled)
  step-IsDry q consume_free a d c = (d, rw d.taken)
  step-IsDry q consume_index a d c =
      (record { enabled = d.enabled; taken = d.taken; none_ready = d.none_ready }, ground arith)
  step-IsDry q (consume_fold current) a d c =
      (record { enabled = d.enabled; taken = d.taken; none_ready = d.none_ready }, refl)
  step-IsDry q (consume_lock index) a d c = rw (d.none_ready index) (d, refl)
  step-IsDry q _ a d c = cc

  module _ (n : ℕ) (i : ℕ) where
    turn-IsDry :
        (s : System A)
        → IsDry size s.queue
        → is_consuming (s.pc i) ≡ true
        → let t = turn size auto_complete n s (i, go) in
          IsDry size t.queue × (is_consuming (t.pc i) ≡ true)
    unfolding turn
    turn-IsDry s d c = ground (arith, step-IsDry s.queue (s.pc i) go d c)

    run-IsDry :
        (m : ℕ) (s : System A)
        → IsDry size s.queue
        → is_consuming (s.pc i) ≡ true
        → is_consuming ((run size auto_complete n s (replicate m (i, go))).pc i) ≡ true
    unfolding run
    run-IsDry zero s d c = c
    run-IsDry (suc m) s d c =
        let (d', c') = turn-IsDry s d c in run-IsDry m (turn size auto_complete n s (i, go)) d' c'

  -- For a queue of more than one slot, with `size` and the number of threads together below 2^31:
  -- if after some schedule a thread `j` has a producer's accessor alive, consuming is enabled and no
  -- slot is ready, then a thread `i` inside `consumer_slot` that runs alone from there does not
  -- return, however many accesses it makes.
  pub consumer_slot_waits :
      (n : ℕ) (default : A) (schedule : List (ℕ × Act A)) (i j k : ℕ) (c : Bool) (m : ℕ)
      → 1 < size
      → size + n < 2 ^ 31
      → let s = run size auto_complete n (start size default) schedule in
        j < n
        → s.pc j ≡ producer k c
        → s.queue.consumer_enable ≡ true
        → ((k : ℕ) → is_state (s.queue.state k) ready ≡ false)
        → is_consuming (s.pc i) ≡ true
        → is_consuming ((run size auto_complete n s (replicate m (i, go))).pc i) ≡ true
  consumer_slot_waits n default schedule i j k c m wide fits thread alive on dry inside =
      run-IsDry n i m s (record { enabled = on; taken = some_taken; none_ready = dry }) inside
    where
      s : System A
      s = run size auto_complete n (start size default) schedule

      sound : IsSound size auto_complete n s
      sound =
          run-IsSound size auto_complete n wide fits (start size default) schedule
            (start-IsSound size auto_complete n default)

      filling : 1 ≤ claims c_producing n (λ x. claim_of (s.pc x))
      filling =
          let weight : c_producing (claim_of (s.pc j)) ≡ 1 =
            ap (λ p. c_producing (claim_of p)) alive in
          omega (arith, weight, le-claims c_producing n (λ x. claim_of (s.pc x)) j thread)

      some_taken : ltb_ℤ s.queue.free_count (pos size) ≡ true
      some_taken = lt→ltb _ _ (omega (arith, filling, balance_lem sound.inv))
