-- ===== src/Dynamic/Access.antt =====
-- The accesses of the dynamic queue that lock a slot, and those of an accessor, as moves.
use fast_mpmc_queue.Prelude.{
  ℕ, ◌≤◌, ◌<◌, ◌≡◌, refl, ap, inl, inr, Bool, false, arith, Bool-cases, update, ℤ,
}
use fast_mpmc_queue.Slots.{free, prod_locked, ready, cons_locked, is_state, complete, is_complete}
use fast_mpmc_queue.Slots.Protocol
use fast_mpmc_queue.Slots.Protocol.{Claim}
use fast_mpmc_queue.Slots.Counts.{c_owing}
use fast_mpmc_queue.Slots.Threads.{
  Simulated, moves, publish, consume, quietly, after, is_state-free, is_state-ready, quiet_step,
  moved_by, same_claims,
}
use fast_mpmc_queue.Dynamic.{
  Config, Resume, at_call, at_step, at_round, Pc, idle, produce_lock, produce_test, produce_take,
  producer, consume_loop, consume_lock, consumer, refund, Act, write_producer, call_complete,
  destroy,
}
use fast_mpmc_queue.Dynamic.Grow.{resume, loop_head}
use fast_mpmc_queue.Dynamic.Machine.{System, step}
use fast_mpmc_queue.Dynamic.View.{claim_of, cap_of, core, view}

pub claim_of-resume :
    (size : ℕ) (c : Config) (to : Resume) → claim_of size (resume c to) ≡ Claim.idle
unfolding resume
claim_of-resume size c (at_call attempts) = refl
claim_of-resume size c (at_step attempts count) = ground arith
claim_of-resume size c (at_round attempts) = refl

pub claim_of-loop_head :
    (size : ℕ) (c : Config) (attempts : ℕ) (count : ℤ)
    → claim_of size (loop_head c attempts count) ≡ Claim.idle
unfolding loop_head
claim_of-loop_head size c attempts count = ground arith

pub owing_at_most : (size : ℕ) → 0 < size → (p : Pc) → c_owing (claim_of size p) ≤ size
owing_at_most size z refund = z
owing_at_most size z _ = omega arith

module _ {ℓ} {A : Type ℓ} (c : Config) {n : ℕ} (s : System A) (i : ℕ) (thread : i < n) where
  -- The view after the step of thread `i` from `p`.
  abbrev pub Result : Pc → Act A → Type ℓ
  Result p a = Simulated n false (view c s) (view c (after s i (step c s.queue p a)))

  pub simulated_produce_lock :
      (attempts : ℕ) (count : ℤ) (current : ℕ) (a : Act A)
      → current < cap_of c s.queue
      → s.pc i ≡ produce_lock attempts count current
      → Result (produce_lock attempts count current) a
  unfolding step
  simulated_produce_lock attempts count current a inside e =
      elim (Bool-cases (is_state (s.queue.state current) free)) [
        | inl won ↦ rw won (
            moved_by (core c) (claim_of c.block_size) s i
              (quietly (record s.queue { state = update s.queue.state current prod_locked })
                (produce_take current))
              (Protocol.lock i current thread inside (ap (claim_of c.block_size) e)
                (is_state-free _ won)))
        | inr lost ↦ rw lost (
            quiet_step (core c) (claim_of c.block_size) s i
              (quietly s.queue (produce_test attempts count)) e refl refl refl)
      ]

  pub simulated_consume_lock :
      (current : ℕ) (a : Act A)
      → current < cap_of c s.queue
      → s.pc i ≡ consume_lock current
      → Result (consume_lock current) a
  unfolding step
  simulated_consume_lock current a inside e =
      elim (Bool-cases (is_state (s.queue.state current) ready)) [
        | inl won ↦ rw won (
            moved_by (core c) (claim_of c.block_size) s i
              (quietly (record s.queue { state = update s.queue.state current cons_locked })
                (consumer current false))
              (Protocol.receive i current thread inside (ap (claim_of c.block_size) e)
                (is_state-ready _ won)))
        | inr lost ↦ rw lost (
            quiet_step (core c) (claim_of c.block_size) s i (quietly s.queue consume_loop) e refl
              refl refl)
      ]

  pub simulated_producer :
      (slot : ℕ) (d : Bool) (a : Act A) → s.pc i ≡ producer slot d → Result (producer slot d) a
  unfolding step
  simulated_producer slot d (write_producer v) e =
      moves (Protocol.write i slot v thread (ap (claim_of c.block_size) e)) (
        same_claims (core c) (claim_of c.block_size) s i
          (record s.queue { payload = update s.queue.payload slot v }) _ e refl)
  simulated_producer slot d call_complete e =
      quiet_step (core c) (claim_of c.block_size) s i
        (quietly s.queue (producer slot (complete c.auto_complete d))) e refl refl refl
  simulated_producer slot d destroy e = elim (Bool-cases (is_complete c.auto_complete d)) [
    | inl done ↦ rw done (
        moved_by (core c) (claim_of c.block_size) s i
          (record {
            queue = record s.queue { state = update s.queue.state slot ready };
            pc = idle;
            event = publish (s.queue.payload slot);
          })
          (Protocol.publish i slot thread (ap (claim_of c.block_size) e)))
    | inr undone ↦ rw undone (
        moved_by (core c) (claim_of c.block_size) s i
          (quietly (record s.queue { state = update s.queue.state slot free }) refund)
          (Protocol.cancel i slot thread (ap (claim_of c.block_size) e)))
  ]
  simulated_producer slot d _ e =
      quiet_step (core c) (claim_of c.block_size) s i (quietly s.queue (producer slot d)) e refl
        refl refl

  pub simulated_consumer :
      (slot : ℕ) (d : Bool) (a : Act A) → s.pc i ≡ consumer slot d → Result (consumer slot d) a
  unfolding step
  simulated_consumer slot d call_complete e =
      quiet_step (core c) (claim_of c.block_size) s i
        (quietly s.queue (consumer slot (complete c.auto_complete d))) e refl refl refl
  simulated_consumer slot d destroy e = elim (Bool-cases (is_complete c.auto_complete d)) [
    | inl done ↦ rw done (
        moved_by (core c) (claim_of c.block_size) s i
          (record {
            queue = record s.queue { state = update s.queue.state slot free };
            pc = refund;
            event = consume (s.queue.payload slot);
          })
          (Protocol.finish i slot thread (ap (claim_of c.block_size) e)))
    | inr undone ↦ rw undone (
        moved_by (core c) (claim_of c.block_size) s i
          (quietly (record s.queue { state = update s.queue.state slot ready }) idle)
          (Protocol.put_back i slot thread (ap (claim_of c.block_size) e)))
  ]
  simulated_consumer slot d _ e =
      quiet_step (core c) (claim_of c.block_size) s i (quietly s.queue (consumer slot d)) e refl
        refl refl
