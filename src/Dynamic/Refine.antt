-- ===== src/Dynamic/Refine.antt =====
-- The accesses of the dynamic queue as moves of the slot protocol.
use fast_mpmc_queue.Prelude.{
  ℕ, ◌+◌, ◌-◌, ◌*◌, ◌^◌, ◌≤◌, ◌<◌, ◌≡◌, refl, sym, ap, ◌∙◌, inl, inr, false, arith, Bool-cases,
  update, ℤ, pos, pos_part, neg_part, ◌+ℤ◌, ◌-ℤ◌, wrap32, wrap32_in_range, +ℤ_cases, -ℤ_cases,
}
use fast_mpmc_queue.Slots.Protocol
use fast_mpmc_queue.Slots.Protocol.{Claim}
use fast_mpmc_queue.Slots.Counts.{c_owing, claims-le}
use fast_mpmc_queue.Slots.Invariant.{Inv}
use fast_mpmc_queue.Slots.Bounds.{balance_bounds}
use fast_mpmc_queue.Slots.Threads.{
  view_of, Simulated, moves, quiet, quietly, after, quiet_step, view-after, counted,
}
use fast_mpmc_queue.Dynamic.{
  Config, slot_count, Resume, Pc, idle, produce_enter, check_free, check_capacity, grow_lock,
  grow_test, grow_link, grow_capacity, grow_free, grow_cursor, grow_unlock, produce_round,
  produce_lock, produce_test, produce_take, producer, consume_loop, consume_capacity, consume_lock,
  consumer, refund, Act, allocates, Outcome, assemble,
}
use fast_mpmc_queue.Dynamic.Consume.{begin}
use fast_mpmc_queue.Dynamic.Machine.{System, step}
use fast_mpmc_queue.Dynamic.View.{claim_of, IsInside, cap_of, core, view}
use fast_mpmc_queue.Dynamic.Access.{
  claim_of-resume, claim_of-loop_head, owing_at_most, simulated_produce_lock,
  simulated_consume_lock, simulated_producer, simulated_consumer,
}

-- The counters are far from the ends of their types.
module _ {ℓ} {A : Type ℓ} (c : Config) {n : ℕ} (s : System A) (i : ℕ) (thread : i < n)
    (inv : Inv n (view c s)) (some_slots : 0 < c.block_size)
    (fits : cap_of c s.queue + n * c.block_size + c.block_size < 2 ^ 31) where
  abbrev o_of : Pc → Act A → Outcome A
  o_of p a = step c s.queue p a

  in_range :
      (pos_part s.queue.free_count ≤ cap_of c s.queue)
      × (neg_part s.queue.free_count ≤ n * c.block_size)
  in_range =
      let owed =
        claims-le c_owing c.block_size n (λ j. claim_of c.block_size (s.pc j))
          (λ j. owing_at_most c.block_size some_slots (s.pc j)) in
      omega (arith, balance_bounds inv, owed)

  -- The core after an addition to the free counter that does not wrap.
  core-wrap :
      (z : ℤ)
      → pos_part z < 2 ^ 31
      → neg_part z ≤ 2 ^ 31
      → core c (record s.queue { free_count = wrap32 z }) ≡ record (core c s.queue) { balance = z }
  core-wrap z hi lo =
      ap (λ (b : ℤ). record (core c s.queue) { balance = b }) (wrap32_in_range z hi lo)

  -- A step that the protocol does not see.
  unseen :
      (p : Pc) (a : Act A)
      → s.pc i ≡ p
      → claim_of c.block_size p ≡ claim_of c.block_size (o_of p a).pc
      → core c (o_of p a).queue ≡ core c s.queue
      → (o_of p a).event ≡ quiet
      → Simulated n false (view c s) (view c (after s i (o_of p a)))
  unseen p a e = quiet_step (core c) (claim_of c.block_size) s i (o_of p a) e

  -- An addition of what the thread owes.
  repaid :
      (m : ℕ) (p : Pc)
      → claim_of c.block_size (s.pc i) ≡ Claim.owing m
      → claim_of c.block_size p ≡ Claim.idle
      → m ≤ c.block_size
      → let q = record s.queue { free_count = wrap32 (s.queue.free_count +ℤ pos m) } in
        Simulated n false (view c s) (view c (after s i (quietly q p)))
  repaid m p owes done small = moves (Protocol.repay i m thread owes) (
      counted (core c) (claim_of c.block_size) s i
        (record s.queue { free_count = wrap32 (s.queue.free_count +ℤ pos m) }) p
        (s.queue.free_count +ℤ pos m)
        (core-wrap (s.queue.free_count +ℤ pos m)
          (omega (arith, in_range, +ℤ_cases s.queue.free_count m))
          (omega (arith, in_range, +ℤ_cases s.queue.free_count m)))
      ∙ ap
          (λ (d : Claim).
            view_of (record (core c s.queue) { balance = s.queue.free_count +ℤ pos m })
              (update (λ j. claim_of c.block_size (s.pc j)) i d) s.published s.consumed)
          done)

  Simulated-grow_link :
      (to : Resume) (a : Act A)
      → s.pc i ≡ grow_link to
      → Simulated n false (view c s) (view c (after s i (o_of (grow_link to) a)))
  unfolding step
  Simulated-grow_link to a e = elim (Bool-cases (allocates a)) [
    | inl new ↦ rw new (
        moves (Protocol.extend i c.block_size thread (ap (claim_of c.block_size) e)) (
          view-after (core c) (claim_of c.block_size) s i linked
          ∙ ap
              (λ (m : ℕ).
                view_of (record (core c s.queue) { cap = m })
                  (update (λ j. claim_of c.block_size (s.pc j)) i (Claim.owing c.block_size))
                  s.published s.consumed)
              longer))
    | inr none ↦ rw none (
        quiet_step (core c) (claim_of c.block_size) s i
          (quietly (record s.queue { next = update s.queue.next last_slot 0 })
            (grow_unlock to false))
          e refl refl refl)
  ]
    where
      first_new : ℕ
      first_new = slot_count c.block_size s.queue.last_block

      last_slot : ℕ
      last_slot = first_new - 1

      longer : slot_count c.block_size (s.queue.last_block + 1) ≡ first_new + c.block_size
      longer = omega arith

      linked : Outcome A
      linked =
          quietly
            (record s.queue {
              last_block = s.queue.last_block + 1;
              next =
                  update (assemble c.block_size first_new (s.queue.next last_slot) s.queue.next)
                    last_slot first_new;
            })
            (grow_capacity to last_slot)

  -- Every access of a thread is a move of the protocol, or is not seen by it.
  pub step-Simulated :
      (p : Pc) (a : Act A)
      → s.pc i ≡ p
      → IsInside (cap_of c s.queue) p
      → Simulated n false (view c s) (view c (after s i (step c s.queue p a)))
  unfolding step begin
  step-Simulated idle a e h = unseen idle a e (ground arith) (ground arith) (ground arith)
  step-Simulated (check_free to) a e h =
      unseen (check_free to) a e (ground (arith, claim_of-resume c.block_size c to)) refl refl
  step-Simulated (check_capacity to) a e h = unseen (check_capacity to) a e (ground arith) refl refl
  step-Simulated (grow_lock to) a e h = unseen (grow_lock to) a e (ground arith) refl refl
  step-Simulated (grow_test to) a e h = unseen (grow_test to) a e (ground arith) refl refl
  step-Simulated (grow_link to) a e h = Simulated-grow_link to a e
  step-Simulated (grow_capacity to last_slot) a e h =
      unseen (grow_capacity to last_slot) a e refl refl refl
  step-Simulated (grow_free to last_slot) a e h =
      repaid c.block_size (grow_cursor to last_slot) (ap (claim_of c.block_size) e) refl
        (omega arith)
  step-Simulated (grow_cursor to last_slot) a e h =
      unseen (grow_cursor to last_slot) a e refl refl refl
  step-Simulated (grow_unlock to grown) a e h =
      unseen (grow_unlock to grown) a e (ground (arith, claim_of-resume c.block_size c to)) refl
        refl
  step-Simulated (produce_enter attempts) a e h =
      unseen (produce_enter attempts) a e (ground arith) refl refl
  step-Simulated (produce_round attempts) a e h =
      unseen (produce_round attempts) a e
        (sym (claim_of-loop_head c.block_size c attempts s.queue.capacity)) refl refl
  step-Simulated (produce_lock attempts count current) a e h =
      simulated_produce_lock c s i thread attempts count current a h e
  step-Simulated (produce_test attempts count) a e h =
      unseen (produce_test attempts count) a e
        (ground (arith, claim_of-loop_head c.block_size c attempts (wrap32 (count -ℤ pos 1)))) refl
        refl
  step-Simulated (produce_take slot) a e h =
      moves (Protocol.take i slot thread (ap (claim_of c.block_size) e)) (
        counted (core c) (claim_of c.block_size) s i (o_of (produce_take slot) a).queue
          (producer slot false) (s.queue.free_count -ℤ pos 1)
          (core-wrap (s.queue.free_count -ℤ pos 1)
            (omega (arith, in_range, -ℤ_cases s.queue.free_count))
            (omega (arith, in_range, -ℤ_cases s.queue.free_count))))
  step-Simulated (producer slot d) a e h = simulated_producer c s i thread slot d a e
  step-Simulated consume_loop a e h = unseen consume_loop a e (ground arith) refl refl
  step-Simulated (consume_capacity seen_free) a e h =
      unseen (consume_capacity seen_free) a e (ground arith) refl refl
  step-Simulated (consume_lock current) a e h = simulated_consume_lock c s i thread current a h e
  step-Simulated (consumer slot d) a e h = simulated_consumer c s i thread slot d a e
  step-Simulated refund a e h = repaid 1 idle (ap (claim_of c.block_size) e) refl some_slots
  step-Simulated p a e h = unseen p a e refl refl refl
