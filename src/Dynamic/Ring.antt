-- ===== src/Dynamic/Ring.antt =====
-- The ring of the slots of the dynamic queue, in the order of allocation.
use fast_mpmc_queue.Prelude.{
  ℕ, ◌+◌, ◌-◌, ◌*◌, ◌≤◌, ◌<◌, ◌≡◌, refl, inl, inr, arith, Bool-cases, ◌==◌, pos, ℤ, wrap32, ◌-ℤ◌,
  if◌then◌else◌, update,
}
use fast_mpmc_queue.Dynamic.{
  Config, Queue, assemble, Resume, at_call, at_step, at_round, Pc, idle, produce_enter, check_free,
  check_capacity, grow_lock, grow_test, grow_link, grow_capacity, grow_free, grow_cursor,
  grow_unlock, produce_round, produce_load, produce_next, produce_store, produce_lock, produce_test,
  producer, consume_loop, consume_capacity, consume_load, consume_next, consume_store, consume_lock,
  consumer, Act, allocates, new_queue,
}
use fast_mpmc_queue.Dynamic.Grow.{resume, loop_head}
use fast_mpmc_queue.Dynamic.Consume.{begin}
use fast_mpmc_queue.Dynamic.Machine.{step}
use fast_mpmc_queue.Dynamic.View.{IsInside, cap_of}

-- The slot after slot `j` in a ring of `cap` slots.
abbrev pub ring_next : (cap j : ℕ) → ℕ
ring_next cap j = if (j + 1) == cap then 0 else j + 1

-- A ring opened at its last slot, with a new block put in, is the longer ring.
link_ring :
    (size cap : ℕ) (next : ℕ → ℕ) (j : ℕ)
    → 0 < size
    → 0 < cap
    → next (cap - 1) ≡ ring_next cap (cap - 1)
    → (j < cap → next j ≡ ring_next cap j)
    → j < cap + size
    → update (assemble size cap (next (cap - 1)) next) (cap - 1) cap j ≡ ring_next (cap + size) j
unfolding assemble
link_ring size cap next j p q last here h = ground arith

IsInside-resume : (c : Config) (cap : ℕ) (to : Resume) → IsInside cap (resume c to)
unfolding resume
IsInside-resume c cap (at_call attempts) = tt
IsInside-resume c cap (at_step attempts count) = ground arith
IsInside-resume c cap (at_round attempts) = tt

IsInside-loop_head :
    (c : Config) (cap attempts : ℕ) (count : ℤ) → IsInside cap (loop_head c attempts count)
unfolding loop_head
IsInside-loop_head c cap attempts count = ground arith

module _ {ℓ} {A : Type ℓ} (c : Config) where
  pub record IsRing (q : Queue A) : Type 0 where
    pub ring : (j : ℕ) → j < cap_of c q → q.next j ≡ ring_next (cap_of c q) j
    pub producer_in : q.producer_cursor < cap_of c q
    pub consumer_in : q.consumer_cursor < cap_of c q

  pub new_queue-IsRing : (default : A) → 0 < c.block_size → IsRing (new_queue c default)
  unfolding new_queue
  new_queue-IsRing default p = record {
    ring = λ j h. ground arith;
    producer_in = omega arith;
    consumer_in = omega arith;
  }

  -- A step that leaves the links and the cursors alone.
  same-IsRing :
      (q r : Queue A)
      → IsRing q
      → r.next ≡ q.next
      → r.last_block ≡ q.last_block
      → r.producer_cursor ≡ q.producer_cursor
      → r.consumer_cursor ≡ q.consumer_cursor
      → IsRing r
  same-IsRing q r ok e l p k = record {
    ring = λ j. rw (e, l) (ok.ring j);
    producer_in = rw (p, l) ok.producer_in;
    consumer_in = rw (k, l) ok.consumer_in;
  }

  -- The new ring after `grow` has linked a block.
  IsRing-link :
      (q : Queue A) (to : Resume) (a : Act A)
      → 0 < c.block_size
      → IsRing q
      → IsRing (step c q (grow_link to) a).queue
  unfolding step
  IsRing-link q to a p ok = elim (Bool-cases (allocates a)) [
    | inl new ↦ rw new (record {
      ring = λ j h. rw longer (
          link_ring c.block_size (cap_of c q) q.next j p room
            (ok.ring (cap_of c q - 1) (omega arith)) (ok.ring j) (rw longer at h));
      producer_in = omega (arith, longer, ok.producer_in);
      consumer_in = omega (arith, longer, ok.consumer_in);
    })
    | inr none ↦ rw none (record {
      ring = λ j h. ground (arith, ok.ring j h);
      producer_in = ok.producer_in;
      consumer_in = ok.consumer_in;
    })
  ]
    where
      room : 0 < cap_of c q
      room = omega (arith, ok.producer_in)

      longer :
          (q.last_block + 1 + 1) * c.block_size ≡ (q.last_block + 1) * c.block_size + c.block_size
      longer = omega arith

  pub step-IsRing :
      (q : Queue A) (p : Pc) (a : Act A)
      → 0 < c.block_size
      → IsRing q
      → IsInside (cap_of c q) p
      → IsRing (step c q p a).queue
  unfolding step begin
  step-IsRing q idle a z ok h =
      same-IsRing q (step c q idle a).queue ok (ground arith) (ground arith) (ground arith)
        (ground arith)
  step-IsRing q (grow_link to) a z ok h = IsRing-link q to a z ok
  step-IsRing q (grow_cursor to last_slot) a z ok h = record {
    ring = ok.ring;
    producer_in = ground (arith, ok.ring last_slot h);
    consumer_in = ok.consumer_in;
  }
  step-IsRing q (produce_store attempts count current target) a z ok h = record {
    ring = ok.ring;
    producer_in = h.1;
    consumer_in = ok.consumer_in;
  }
  step-IsRing q (consume_store current target) a z ok h = record {
    ring = ok.ring;
    producer_in = ok.producer_in;
    consumer_in = h.1;
  }
  step-IsRing q (produce_lock attempts count current) a z ok h =
      same-IsRing q (step c q (produce_lock attempts count current) a).queue ok (ground arith)
        (ground arith) (ground arith) (ground arith)
  step-IsRing q (consume_lock current) a z ok h =
      same-IsRing q (step c q (consume_lock current) a).queue ok (ground arith) (ground arith)
        (ground arith) (ground arith)
  step-IsRing q (producer slot d) a z ok h =
      same-IsRing q (step c q (producer slot d) a).queue ok (ground arith) (ground arith)
        (ground arith) (ground arith)
  step-IsRing q (consumer slot d) a z ok h =
      same-IsRing q (step c q (consumer slot d) a).queue ok (ground arith) (ground arith)
        (ground arith) (ground arith)
  step-IsRing q p a z ok h = same-IsRing q (step c q p a).queue ok refl refl refl refl

  -- The slots that exist never become fewer.
  pub step-cap-le : (q : Queue A) (p : Pc) (a : Act A) → cap_of c q ≤ cap_of c (step c q p a).queue
  unfolding step begin
  step-cap-le q idle a = ground arith
  step-cap-le q (grow_link to) a = elim (Bool-cases (allocates a)) [
    | inl new ↦ rw new (omega arith)
    | inr none ↦ rw none (omega arith)
  ]
  step-cap-le q (produce_lock attempts count current) a = ground arith
  step-cap-le q (consume_lock current) a = ground arith
  step-cap-le q (producer slot d) a = ground arith
  step-cap-le q (consumer slot d) a = ground arith
  step-cap-le q p a = omega arith

  -- A thread takes only slots that exist.
  pub step-IsInside :
      (q : Queue A) (p : Pc) (a : Act A)
      → 0 < c.block_size
      → IsRing q
      → IsInside (cap_of c q) p
      → IsInside (cap_of c (step c q p a).queue) (step c q p a).pc
  unfolding step begin
  step-IsInside q idle a z ok h = ground arith
  step-IsInside q (check_free to) a z ok h = ground (arith, IsInside-resume c (cap_of c q) to)
  step-IsInside q (check_capacity to) a z ok h = ground arith
  step-IsInside q (grow_lock to) a z ok h = ground arith
  step-IsInside q (grow_test to) a z ok h = ground arith
  step-IsInside q (grow_link to) a z ok h = elim (Bool-cases (allocates a)) [
    | inl new ↦ rw new (omega arith)
    | inr none ↦ rw none tt
  ]
  step-IsInside q (grow_capacity to last_slot) a z ok h = h
  step-IsInside q (grow_free to last_slot) a z ok h = h
  step-IsInside q (grow_cursor to last_slot) a z ok h = tt
  step-IsInside q (grow_unlock to grown) a z ok h =
      ground (arith, IsInside-resume c (cap_of c q) to)
  step-IsInside q (produce_enter attempts) a z ok h = ground arith
  step-IsInside q (produce_round attempts) a z ok h =
      IsInside-loop_head c (cap_of c q) attempts q.capacity
  step-IsInside q (produce_load attempts count) a z ok h = ok.producer_in
  step-IsInside q (produce_next attempts count current) a z ok h =
      (h, ground (arith, ok.ring current h))
  step-IsInside q (produce_store attempts count current target) a z ok h = h.0
  step-IsInside q (produce_lock attempts count current) a z ok h = ground arith
  step-IsInside q (produce_test attempts count) a z ok h =
      ground (arith, IsInside-loop_head c (cap_of c q) attempts (wrap32 (count -ℤ pos 1)))
  step-IsInside q (producer slot d) a z ok h = ground arith
  step-IsInside q consume_loop a z ok h = ground arith
  step-IsInside q (consume_capacity seen) a z ok h = ground arith
  step-IsInside q consume_load a z ok h = ok.consumer_in
  step-IsInside q (consume_next current) a z ok h = (h, ground (arith, ok.ring current h))
  step-IsInside q (consume_store current target) a z ok h = h.0
  step-IsInside q (consume_lock current) a z ok h = ground arith
  step-IsInside q (consumer slot d) a z ok h = ground arith
  step-IsInside q p a z ok h = tt
