-- ===== src/Dynamic/Limit.antt =====
-- The accesses of the dynamic queue, and the count of its slots with its bound.
use fast_mpmc_queue.Prelude.{
  ℕ, ◌+◌, ◌-◌, ◌*◌, ◌^◌, ◌≤◌, ◌<◌, ◌≡◌, refl, ap, inl, inr, true, false, arith, Bool-cases, ltb_ℤ,
  update, pos, pos_part, ◌+ℤ◌, ◌-ℤ◌, wrap32, wrap32_in_range, +ℤ_cases, +ℤ_parts,
}
use fast_mpmc_queue.Slots.Threads.{after, quietly}
use fast_mpmc_queue.Dynamic.{
  Config, Resume, slot_count, Pc, idle, check_free, check_capacity, grow_lock, grow_test, grow_link,
  grow_capacity, grow_free, grow_unlock, produce_round, produce_lock, produce_test, producer,
  consume_lock, consumer, produce_enter, consume_loop, consume_capacity, Act, allocates, Outcome,
}
use fast_mpmc_queue.Dynamic.Consume.{begin}
use fast_mpmc_queue.Dynamic.Machine.{System, step}
use fast_mpmc_queue.Dynamic.View.{cap_of}
use fast_mpmc_queue.Dynamic.Capacity.{
  w_link, w_wait, count, count-update, counts_le, mul_mono, mul_room, scaled_pred, scaled_diff,
  w-resume, w-loop_head, HasCapacity, keep,
}

module _ {ℓ} {A : Type ℓ} (c : Config) {n : ℕ} (s : System A) (i : ℕ) (thread : i < n)
    (ok : HasCapacity c n s) where
  abbrev o_of : Pc → Act A → Outcome A
  o_of p a = step c s.queue p a

  -- The counts after a step of thread `i`.
  same_links :
      (p p' : Pc)
      → s.pc i ≡ p
      → count w_link n (update s.pc i p') + w_link p ≡ count w_link n s.pc + w_link p'
  same_links p p' e = rw e at (count-update w_link n s.pc i p' thread)

  same_waits :
      (p p' : Pc)
      → s.pc i ≡ p
      → count w_wait n (update s.pc i p') + w_wait p ≡ count w_wait n s.pc + w_wait p'
  same_waits p p' e = rw e at (count-update w_wait n s.pc i p' thread)

  kept :
      (p : Pc) (a : Act A)
      → s.pc i ≡ p
      → (o_of p a).queue.capacity ≡ s.queue.capacity
      → (o_of p a).queue.last_block ≡ s.queue.last_block
      → w_link (o_of p a).pc ≡ w_link p
      → w_wait (o_of p a).pc ≤ w_wait p
      → HasCapacity c n (after s i (o_of p a))
  kept p a e ec el wl ww = keep c n s i thread ok (o_of p a) ec el (rw e wl) (rw e ww)

  -- A thread that sees room for a block.
  enter_grow :
      (to : Resume)
      → s.pc i ≡ check_capacity to
      → ltb_ℤ s.queue.capacity (pos (c.block_size * c.max_blocks)) ≡ true
      → HasCapacity c n (after s i (quietly s.queue (grow_lock to)))
  enter_grow to e room =
      let links = same_links (check_capacity to) (grow_lock to) e in
      let waits = same_waits (check_capacity to) (grow_lock to) e in
      let pc' : ℕ → Pc = update s.pc i (grow_lock to) in
      let few =
        mul_mono c.block_size (count w_link n pc' + count w_wait n pc') n (counts_le n pc') in
      let others : c.block_size * n ≡ c.block_size * (n - 1) + c.block_size =
        scaled_pred c.block_size n (omega (arith, thread)) in
      let below : pos_part s.queue.capacity < c.block_size * c.max_blocks =
        ground (arith, ok.not_negative) in
      let same : count w_link n pc' ≡ count w_link n s.pc = omega (arith, links) in
      let in_blocks =
        scaled_diff c.block_size (s.queue.last_block + 1) (count w_link n s.pc)
          (pos_part s.queue.capacity) ok.counts in
      let a_block_below =
        mul_room c.block_size (s.queue.last_block + 1 - count w_link n s.pc) c.max_blocks
          (omega (arith, below, ok.counts, in_blocks)) in
      record {
        not_negative = ok.not_negative;
        counts = rw same ok.counts;
        limited = omega (
          arith,
          few,
          others,
          a_block_below,
          same,
          ok.counts,
          ap (λ (t : ℕ). c.block_size * t) same,
        );
      }

  -- A thread that links a block.
  link_block :
      (to : Resume) (last_slot : ℕ) (next : ℕ → ℕ)
      → s.pc i ≡ grow_link to
      → HasCapacity c n (
          after s i (
            quietly
              (record s.queue { last_block = s.queue.last_block + 1; next = next })
              (grow_capacity to last_slot)))
  link_block to last_slot next e =
      let links = same_links (grow_link to) (grow_capacity to last_slot) e in
      let waits = same_waits (grow_link to) (grow_capacity to last_slot) e in
      record {
        not_negative = ok.not_negative;
        counts = omega (arith, ok.counts, ap (λ (t : ℕ). c.block_size * t) links);
        limited = omega (arith, ok.limited, ap (λ (t : ℕ). c.block_size * t) waits);
      }

  -- A thread that adds its block to the capacity.
  add_block :
      (to : Resume) (last_slot : ℕ)
      → s.pc i ≡ grow_capacity to last_slot
      → cap_of c s.queue < 2 ^ 31
      → HasCapacity c n (
          after s i (
            quietly
              (record s.queue { capacity = wrap32 (s.queue.capacity +ℤ pos c.block_size) })
              (grow_free to last_slot)))
  add_block to last_slot e small =
      let links = same_links (grow_capacity to last_slot) (grow_free to last_slot) e in
      let waits = same_waits (grow_capacity to last_slot) (grow_free to last_slot) e in
      let scaled = ap (λ (t : ℕ). c.block_size * t) links in
      let sum = +ℤ_parts s.queue.capacity (pos c.block_size) in
      let parts = +ℤ_cases s.queue.capacity c.block_size in
      let exact =
        wrap32_in_range (s.queue.capacity +ℤ pos c.block_size)
          (omega (arith, parts, scaled, ok.counts)) (omega (arith, parts, ok.not_negative)) in
      let same : count w_wait n (update s.pc i (grow_free to last_slot)) ≡ count w_wait n s.pc =
        omega (arith, waits) in
      record {
        not_negative = rw exact (omega (arith, parts, ok.not_negative));
        counts = rw exact (omega (arith, sum, parts, scaled, ok.counts, ok.not_negative));
        limited = rw same ok.limited;
      }

  pub step-HasCapacity :
      (p : Pc) (a : Act A)
      → s.pc i ≡ p
      → cap_of c s.queue < 2 ^ 31
      → HasCapacity c n (after s i (step c s.queue p a))
  unfolding step begin
  step-HasCapacity idle a e h =
      kept idle a e (ground arith) (ground arith) (ground arith) (ground arith)
  step-HasCapacity (check_free to) a e h =
      kept (check_free to) a e refl refl (ground (arith, w-resume c to))
        (ground (arith, w-resume c to))
  step-HasCapacity (check_capacity to) a e h =
      elim (Bool-cases (ltb_ℤ s.queue.capacity (pos (c.block_size * c.max_blocks)))) [
        | inl room ↦ rw room (enter_grow to e room)
        | inr full ↦
            rw full (keep c n s i thread ok (quietly s.queue idle) refl refl (rw e) (omega arith))
      ]
  step-HasCapacity (grow_lock to) a e h =
      kept (grow_lock to) a e refl refl (ground arith) (ground arith)
  step-HasCapacity (grow_test to) a e h =
      kept (grow_test to) a e refl refl (ground arith) (ground arith)
  step-HasCapacity (grow_link to) a e h = elim (Bool-cases (allocates a)) [
    | inl new ↦ rw new (link_block to _ _ e)
    | inr none ↦ rw none (
        keep c n s i thread ok
          (quietly
            (record s.queue {
              next = update s.queue.next (slot_count c.block_size s.queue.last_block - 1) 0;
            })
            (grow_unlock to false))
          refl refl (rw e) (omega arith))
  ]
  step-HasCapacity (grow_capacity to last_slot) a e h = add_block to last_slot e h
  step-HasCapacity (grow_unlock to grown) a e h =
      kept (grow_unlock to grown) a e refl refl (ground (arith, w-resume c to))
        (ground (arith, w-resume c to))
  step-HasCapacity (produce_enter attempts) a e h =
      kept (produce_enter attempts) a e refl refl (ground arith) (ground arith)
  step-HasCapacity (produce_round attempts) a e h =
      let w = w-loop_head c attempts s.queue.capacity in
      kept (produce_round attempts) a e refl refl w.0 (omega (arith, w))
  step-HasCapacity (produce_lock attempts count current) a e h =
      kept (produce_lock attempts count current) a e (ground arith) (ground arith) (ground arith)
        (ground arith)
  step-HasCapacity (produce_test attempts count) a e h =
      let w = w-loop_head c attempts (wrap32 (count -ℤ pos 1)) in
      kept (produce_test attempts count) a e refl refl (ground (arith, w)) (ground (arith, w))
  step-HasCapacity (producer slot d) a e h =
      kept (producer slot d) a e (ground arith) (ground arith) (ground arith) (ground arith)
  step-HasCapacity consume_loop a e h =
      kept consume_loop a e refl refl (ground arith) (ground arith)
  step-HasCapacity (consume_capacity seen_free) a e h =
      kept (consume_capacity seen_free) a e refl refl (ground arith) (ground arith)
  step-HasCapacity (consume_lock current) a e h =
      kept (consume_lock current) a e (ground arith) (ground arith) (ground arith) (ground arith)
  step-HasCapacity (consumer slot d) a e h =
      kept (consumer slot d) a e (ground arith) (ground arith) (ground arith) (ground arith)
  step-HasCapacity p a e h = kept p a e refl refl refl (omega arith)
