-- ===== src/Dynamic/Safety.antt =====
-- What the dynamic queue guarantees after every schedule of its threads.
use fast_mpmc_queue.Prelude.{
  ℕ, ◌+◌, ◌-◌, ◌*◌, ◌≤◌, ◌<◌, ◌≡◌, ◌≢◌, ap, Bool, true, false, some, List, arith, pos_part,
  neg_part, eqb_ℤ→eq,
}
use fast_mpmc_queue.Slots.{prod_locked, ready, cons_locked}
use fast_mpmc_queue.Slots.Protocol.{slot_of}
use fast_mpmc_queue.Slots.Counts.{w_ready, w_cons, c_owing, slots, claims-le, le-slots}
use fast_mpmc_queue.Slots.Invariant.{locking-held, producing-held, consuming-held}
use fast_mpmc_queue.Slots.Bounds.{balance_lem, balance_bounds}
use fast_mpmc_queue.Slots.Threads.{Simulated}
use fast_mpmc_queue.Dynamic.{Config, produce_take, producer, consumer, Act}
use fast_mpmc_queue.Dynamic.Consume.{empty}
use fast_mpmc_queue.Dynamic.Machine.{System, start, turn, run}
use fast_mpmc_queue.Dynamic.View.{claim_of, cap_of, view}
use fast_mpmc_queue.Dynamic.Ring.{ring_next}
use fast_mpmc_queue.Dynamic.Capacity.{w_link, count, links_owed}
use fast_mpmc_queue.Dynamic.Lock.{in_grow}
use fast_mpmc_queue.Dynamic.Access.{owing_at_most}
use fast_mpmc_queue.Dynamic.Invariant.{IsFit, IsSound, start-IsSound, run-IsSound, turn-Simulated}

module _ {ℓ} {A : Type ℓ} (c : Config) (n : ℕ) (default : A) (fit : IsFit c n)
    (schedule : List (ℕ × Act A)) where
  -- The program after the schedule.
  abbrev reached : System A
  reached = run c n (start c default) schedule

  sound : IsSound c n fit reached
  sound = run-IsSound c n fit (start c default) schedule (start-IsSound c n fit default)

  -- For parameters that fit `n` threads: after every schedule, whatever thread is scheduled next, its
  -- access is a move of the slot protocol or is not seen by it.
  pub access_refines :
      (x : ℕ × Act A)
      → Simulated n false
          (view c (run c n (start c default) schedule))
          (view c (turn c n (run c n (start c default) schedule) x))
  access_refines x = turn-Simulated c n fit reached sound x

  -- For parameters that fit `n` threads: after every schedule, two threads never hold the same slot,
  -- be it as a producer that has just locked it or behind an accessor of either kind.
  pub slots_exclusive :
      (i j k : ℕ)
      → let s = run c n (start c default) schedule in
        slot_of (claim_of c.block_size (s.pc i)) ≡ some k
        → slot_of (claim_of c.block_size (s.pc j)) ≡ some k
        → i ≡ j
  slots_exclusive i j k p q = sound.inv.unique i j k p q

  -- For parameters that fit `n` threads: after every schedule, the assertions of the accessors hold.
  -- The slot of a producer's accessor, alive or about to be constructed, is a linked slot in state
  -- `prod_locked`, and the slot of a consumer's accessor is a linked slot in state `cons_locked`.
  pub accessors_locked :
      (i k : ℕ) (d : Bool)
      → let s = run c n (start c default) schedule in
        (s.pc i ≡ produce_take k → (k < cap_of c s.queue) × (s.queue.state k ≡ prod_locked))
        × (s.pc i ≡ producer k d → (k < cap_of c s.queue) × (s.queue.state k ≡ prod_locked))
        × (s.pc i ≡ consumer k d → (k < cap_of c s.queue) × (s.queue.state k ≡ cons_locked))
  accessors_locked i k d = (
    λ e. locking-held sound.inv i k (ap (claim_of c.block_size) e),
    λ e. producing-held sound.inv i k (ap (claim_of c.block_size) e),
    λ e. consuming-held sound.inv i k (ap (claim_of c.block_size) e),
  )

  -- For parameters that fit `n` threads: after every schedule, `m_capacity` is not negative, together
  -- with the blocks that `grow` has linked and not yet added it is the number of linked slots, and
  -- these are at most those of `max_blocks + n - 1` blocks, for one thread `max_blocks`.
  pub capacity_bounds :
      let s = run c n (start c default) schedule in
      (neg_part s.queue.capacity ≡ 0)
      × (pos_part s.queue.capacity + c.block_size * count w_link n s.pc ≡ cap_of c s.queue)
      × (cap_of c s.queue ≤ c.block_size * (c.max_blocks + (n - 1)))
  capacity_bounds =
      (sound.capacity.not_negative, sound.capacity.counts, omega (arith, sound.capacity.limited))

  -- For parameters that fit `n` threads: after every schedule, `m_free` is at most the number of
  -- linked slots, and below zero by at most `block_size` for each thread.
  pub free_slots_bounds :
      let s = run c n (start c default) schedule in
      (pos_part s.queue.free_count ≤ cap_of c s.queue)
      × (neg_part s.queue.free_count ≤ n * c.block_size)
  free_slots_bounds =
      let owed =
        claims-le c_owing c.block_size n (λ j. claim_of c.block_size (reached.pc j))
          (λ j. owing_at_most c.block_size (omega (arith, fit.wide)) (reached.pc j)) in
      omega (arith, balance_bounds sound.inv, owed)

  -- For parameters that fit `n` threads: after every schedule, the linked slots form one ring, in the
  -- order of their allocation, and both cursors stand on linked slots.
  pub ring_closed :
      let s = run c n (start c default) schedule in
      ((j : ℕ) → j < cap_of c s.queue → s.queue.next j ≡ ring_next (cap_of c s.queue) j)
      × (s.queue.producer_cursor < cap_of c s.queue)
      × (s.queue.consumer_cursor < cap_of c s.queue)
  ring_closed = (sound.ring.ring, sound.ring.producer_in, sound.ring.consumer_in)

  -- For parameters that fit `n` threads: after every schedule, at most one thread is between the
  -- acquisition and the release of the spinlock of `grow`, and the lock is taken while one is.
  pub grow_exclusive :
      (i j : ℕ)
      → let s = run c n (start c default) schedule in
        in_grow (s.pc i) ≡ true → (s.queue.spinlock ≡ true) × (in_grow (s.pc j) ≡ true → i ≡ j)
  grow_exclusive i j e = (sound.locked.held i e, sound.locked.alone i j e)

  -- For parameters that fit `n` threads: if `empty()` answers true after a schedule, no slot is ready
  -- and no consumer holds one.
  pub empty-ne_taken :
      empty (run c n (start c default) schedule).queue ≡ true
      → (k : ℕ)
      → let s = run c n (start c default) schedule in
        (s.queue.state k ≢ ready) × (s.queue.state k ≢ cons_locked)
  unfolding empty
  empty-ne_taken e k =
      let same = eqb_ℤ→eq reached.queue.free_count reached.queue.capacity e in
      let none_waits : slots w_ready (cap_of c reached.queue) reached.queue.state
            + slots w_cons (cap_of c reached.queue) reached.queue.state
          ≡ 0 =
        omega (
          arith,
          balance_lem sound.inv,
          links_owed c.block_size n reached.pc,
          sound.capacity.counts,
          sound.capacity.not_negative,
          ap pos_part same,
          ap neg_part same,
        ) in
      ground (
        arith,
        none_waits,
        sound.inv.beyond k,
        le-slots w_ready (cap_of c reached.queue) reached.queue.state k,
        le-slots w_cons (cap_of c reached.queue) reached.queue.state k,
      )
