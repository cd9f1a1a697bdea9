-- ===== src/Static/Refine.antt =====
-- The accesses of the static queue as moves of the slot protocol.
use fast_mpmc_queue.Prelude.{
  ℕ, ◌+◌, ◌-◌, ◌^◌, ◌≤◌, ◌<◌, ◌≡◌, refl, ap, inl, inr, Bool, false, arith, Bool-cases, update, ℤ,
  pos, pos_part, neg_part, ◌+ℤ◌, ◌-ℤ◌, wrap32, wrap32_in_range, +ℤ_cases, -ℤ_cases,
}
use fast_mpmc_queue.Slots.{free, prod_locked, ready, cons_locked, is_state, complete, is_complete}
use fast_mpmc_queue.Slots.Protocol
use fast_mpmc_queue.Slots.Protocol.{Claim, View, Step, Alter, alter}
use fast_mpmc_queue.Slots.Invariant.{Inv}
use fast_mpmc_queue.Slots.Invariant.{locking-held}
use fast_mpmc_queue.Slots.Counts.{c_owing, claims-le}
use fast_mpmc_queue.Slots.Bounds.{balance_bounds}
use fast_mpmc_queue.Static.{
  Pc, idle, stopping, produce_enter, produce_loop, produce_free, produce_index, produce_fold,
  produce_lock, produce_take, producer, consume_loop, consume_free, consume_index, consume_fold,
  consume_lock, consumer, refund, Act, Outcome, write_producer, write_consumer, call_complete,
  destroy, call_producer_slot, call_consumer_slot, call_shutdown, call_stop, is_write_consumer,
}
use fast_mpmc_queue.Static.Machine.{System, step}
use fast_mpmc_queue.Static.View.{claim_of, IsInside, core, view}
use fast_mpmc_queue.Slots.Threads.{
  Simulated, moves, alters, quiet, publish, consume, quietly, after, is_state-free, is_state-ready,
  quiet_step, moved_by, same_claims, counted,
}

pub owing_at_most_one : (p : Pc) → c_owing (claim_of p) ≤ 1
owing_at_most_one refund = omega arith
owing_at_most_one _ = omega arith

-- The steps of one thread.
module _ {ℓ} {A : Type ℓ} (size : ℕ) (auto_complete : Bool) {n : ℕ} (s : System A) (i : ℕ)
    (thread : i < n) where
  abbrev Result : Pc → Act A → Type ℓ
  Result p a =
      Simulated n (is_write_consumer a) (view size s)
        (view size (after s i (step size auto_complete s.queue p a)))

  simulated_produce_lock :
      (attempts count index : ℕ) (a : Act A)
      → index < size
      → s.pc i ≡ produce_lock attempts count index
      → Result (produce_lock attempts count index) a
  unfolding step
  simulated_produce_lock attempts count index a inside e =
      elim (Bool-cases (is_state (s.queue.state index) free)) [
        | inl won ↦ rw won (
            moved_by (core size) claim_of s i
              (quietly (record s.queue { state = update s.queue.state index prod_locked })
                (produce_take index))
              (Protocol.lock i index thread inside (ap claim_of e) (is_state-free _ won)))
        | inr lost ↦ rw lost (
            quiet_step (core size) claim_of s i
              (quietly s.queue (produce_loop attempts (count - 1))) e refl refl refl)
      ]

  simulated_consume_lock :
      (index : ℕ) (a : Act A)
      → index < size
      → s.pc i ≡ consume_lock index
      → Result (consume_lock index) a
  unfolding step
  simulated_consume_lock index a inside e =
      elim (Bool-cases (is_state (s.queue.state index) ready)) [
        | inl won ↦ rw won (
            moved_by (core size) claim_of s i
              (quietly (record s.queue { state = update s.queue.state index cons_locked })
                (consumer index false))
              (Protocol.receive i index thread inside (ap claim_of e) (is_state-ready _ won)))
        | inr lost ↦
            rw lost
              (quiet_step (core size) claim_of s i (quietly s.queue consume_loop) e refl refl refl)
      ]

  simulated_producer :
      (index : ℕ) (c : Bool) (a : Act A) → s.pc i ≡ producer index c → Result (producer index c) a
  unfolding step
  simulated_producer index c (write_producer v) e =
      moves (Protocol.write i index v thread (ap claim_of e)) (
        same_claims (core size) claim_of s i
          (record s.queue { payload = update s.queue.payload index v }) _ e refl)
  simulated_producer index c call_complete e =
      quiet_step (core size) claim_of s i
        (quietly s.queue (producer index (complete auto_complete c))) e refl refl refl
  simulated_producer index c destroy e = elim (Bool-cases (is_complete auto_complete c)) [
    | inl done ↦ rw done (
        moved_by (core size) claim_of s i
          (record {
            queue = record s.queue { state = update s.queue.state index ready };
            pc = idle;
            event = publish (s.queue.payload index);
          })
          (Protocol.publish i index thread (ap claim_of e)))
    | inr undone ↦ rw undone (
        moved_by (core size) claim_of s i
          (quietly (record s.queue { state = update s.queue.state index free }) refund)
          (Protocol.cancel i index thread (ap claim_of e)))
  ]
  simulated_producer index c _ e =
      quiet_step (core size) claim_of s i (quietly s.queue (producer index c)) e refl refl refl

  simulated_consumer :
      (index : ℕ) (c : Bool) (a : Act A) → s.pc i ≡ consumer index c → Result (consumer index c) a
  unfolding step
  simulated_consumer index c (write_consumer v) e =
      alters refl (alter i index v thread (ap claim_of e)) (
        same_claims (core size) claim_of s i
          (record s.queue { payload = update s.queue.payload index v }) _ e refl)
  simulated_consumer index c call_complete e =
      quiet_step (core size) claim_of s i
        (quietly s.queue (consumer index (complete auto_complete c))) e refl refl refl
  simulated_consumer index c destroy e = elim (Bool-cases (is_complete auto_complete c)) [
    | inl done ↦ rw done (
        moved_by (core size) claim_of s i
          (record {
            queue = record s.queue { state = update s.queue.state index free };
            pc = refund;
            event = consume (s.queue.payload index);
          })
          (Protocol.finish i index thread (ap claim_of e)))
    | inr undone ↦ rw undone (
        moved_by (core size) claim_of s i
          (quietly (record s.queue { state = update s.queue.state index ready }) idle)
          (Protocol.put_back i index thread (ap claim_of e)))
  ]
  simulated_consumer index c _ e =
      quiet_step (core size) claim_of s i (quietly s.queue (consumer index c)) e refl refl refl

module _ {ℓ} {A : Type ℓ} (size : ℕ) (auto_complete : Bool) {n : ℕ} (s : System A) (i : ℕ)
    (thread : i < n) (inv : Inv n (view size s)) (fits : size + n < 2 ^ 31) where
  abbrev o_of : Pc → Act A → Outcome A
  o_of p a = step size auto_complete s.queue p a

  -- The free counter is far from the ends of its type.
  in_range : (pos_part s.queue.free_count ≤ size) × (neg_part s.queue.free_count ≤ n)
  in_range =
      let owed = claims-le c_owing 1 n (λ j. claim_of (s.pc j)) (λ j. owing_at_most_one (s.pc j)) in
      omega (arith, balance_bounds inv, owed)

  -- The core after an addition to the free counter that does not wrap.
  core-wrap :
      (z : ℤ)
      → pos_part z < 2 ^ 31
      → neg_part z ≤ 2 ^ 31
      → core size (record s.queue { free_count = wrap32 z })
        ≡ record (core size s.queue) { balance = z }
  core-wrap z hi lo =
      ap (λ (b : ℤ). record (core size s.queue) { balance = b }) (wrap32_in_range z hi lo)

  -- A step that the protocol does not see.
  unseen :
      (p : Pc) (a : Act A)
      → s.pc i ≡ p
      → claim_of p ≡ claim_of (o_of p a).pc
      → core size (o_of p a).queue ≡ core size s.queue
      → (o_of p a).event ≡ quiet
      → Simulated n (is_write_consumer a) (view size s) (view size (after s i (o_of p a)))
  unseen p a e = quiet_step (core size) claim_of s i (o_of p a) e

  Simulated-begin :
      (a : Act A)
      → s.pc i ≡ idle
      → Simulated n (is_write_consumer a) (view size s) (view size (after s i (o_of idle a)))
  unfolding step
  Simulated-begin (call_producer_slot attempts) e =
      unseen idle (call_producer_slot attempts) e refl refl refl
  Simulated-begin call_consumer_slot e = unseen idle call_consumer_slot e refl refl refl
  Simulated-begin call_shutdown e = unseen idle call_shutdown e refl refl refl
  Simulated-begin call_stop e = unseen idle call_stop e refl refl refl
  Simulated-begin a e = unseen idle a e refl refl refl

  -- Every access of a thread is a move of the protocol, or is not seen by it.
  pub step-Simulated :
      (p : Pc) (a : Act A)
      → s.pc i ≡ p
      → IsInside size p
      → Simulated n
          (is_write_consumer a)
          (view size s)
          (view size (after s i (step size auto_complete s.queue p a)))
  unfolding step
  step-Simulated idle a e h = Simulated-begin a e
  step-Simulated stopping a e h = unseen stopping a e refl refl refl
  step-Simulated (produce_enter attempts) a e h =
      unseen (produce_enter attempts) a e (ground arith) refl refl
  step-Simulated (produce_loop attempts count) a e h =
      unseen (produce_loop attempts count) a e (ground arith) refl refl
  step-Simulated (produce_free attempts count) a e h =
      unseen (produce_free attempts count) a e (ground arith) refl refl
  step-Simulated (produce_index attempts count) a e h =
      unseen (produce_index attempts count) a e (ground arith) refl refl
  step-Simulated (produce_fold attempts count current) a e h =
      unseen (produce_fold attempts count current) a e refl refl refl
  step-Simulated (produce_lock attempts count index) a e h =
      simulated_produce_lock size auto_complete s i thread attempts count index a h e
  step-Simulated (produce_take index) a e h = moves (Protocol.take i index thread (ap claim_of e)) (
      let inside = (locking-held inv i index (ap claim_of e)).0 in
      counted (core size) claim_of s i (o_of (produce_take index) a).queue (producer index false)
        (s.queue.free_count -ℤ pos 1)
        (core-wrap (s.queue.free_count -ℤ pos 1)
          (omega (arith, in_range, -ℤ_cases s.queue.free_count))
          (omega (arith, in_range, -ℤ_cases s.queue.free_count))))
  step-Simulated (producer index c) a e h =
      simulated_producer size auto_complete s i thread index c a e
  step-Simulated consume_loop a e h = unseen consume_loop a e (ground arith) refl refl
  step-Simulated consume_free a e h = unseen consume_free a e (ground arith) refl refl
  step-Simulated consume_index a e h = unseen consume_index a e (ground arith) refl refl
  step-Simulated (consume_fold current) a e h = unseen (consume_fold current) a e refl refl refl
  step-Simulated (consume_lock index) a e h =
      simulated_consume_lock size auto_complete s i thread index a h e
  step-Simulated (consumer index c) a e h =
      simulated_consumer size auto_complete s i thread index c a e
  step-Simulated refund a e h = moves (Protocol.repay i 1 thread (ap claim_of e)) (
      counted (core size) claim_of s i (o_of refund a).queue idle (s.queue.free_count +ℤ pos 1) (
        core-wrap (s.queue.free_count +ℤ pos 1)
          (omega (arith, in_range, +ℤ_cases s.queue.free_count 1))
          (omega (arith, in_range, +ℤ_cases s.queue.free_count 1))))
