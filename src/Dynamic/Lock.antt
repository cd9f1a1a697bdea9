-- ===== src/Dynamic/Lock.antt =====
-- The spinlock that `grow` of the dynamic queue holds.
use fast_mpmc_queue.Prelude.{
  ℕ, ◌≡◌, refl, inl, inr, Bool, true, false, arith, Bool-cases, apply-update, pos, ℤ, wrap32, ◌-ℤ◌,
}
use fast_mpmc_queue.Spinlock.{Guarded, LockMove, leaves, takes, releases, move-Guarded}
use fast_mpmc_queue.Slots.Threads.{after}
use fast_mpmc_queue.Dynamic.{
  Config, Queue, Resume, at_call, at_step, at_round, Pc, idle, check_free, check_capacity,
  grow_lock, grow_test, grow_link, grow_capacity, grow_free, grow_cursor, grow_unlock,
  produce_round, produce_lock, produce_test, producer, consume_lock, consumer, produce_enter,
  consume_loop, consume_capacity, Act, allocates,
}
use fast_mpmc_queue.Dynamic.Grow.{resume, loop_head}
use fast_mpmc_queue.Dynamic.Consume.{begin}
use fast_mpmc_queue.Dynamic.Machine.{System, step}

-- Between the acquisition and the release of the lock.
abbrev pub in_grow : Pc → Bool
in_grow (grow_test to) = true
in_grow (grow_link to) = true
in_grow (grow_capacity to last_slot) = true
in_grow (grow_free to last_slot) = true
in_grow (grow_cursor to last_slot) = true
in_grow (grow_unlock to grown) = true
in_grow _ = false

in_grow-resume : (c : Config) (to : Resume) → in_grow (resume c to) ≡ false
unfolding resume
in_grow-resume c (at_call attempts) = refl
in_grow-resume c (at_step attempts count) = ground arith
in_grow-resume c (at_round attempts) = refl

in_grow-loop_head :
    (c : Config) (attempts : ℕ) (count : ℤ) → in_grow (loop_head c attempts count) ≡ false
unfolding loop_head
in_grow-loop_head c attempts count = ground arith

module _ {ℓ} {A : Type ℓ} (c : Config) where
  step-LockMove :
      (q : Queue A) (p : Pc) (a : Act A)
      → let o = step c q p a in LockMove q.spinlock (in_grow p) o.queue.spinlock (in_grow o.pc)
  unfolding step begin
  step-LockMove q idle a = leaves (ground arith) (ground arith)
  step-LockMove q (check_free to) a = leaves refl (ground (arith, in_grow-resume c to))
  step-LockMove q (check_capacity to) a = leaves refl (ground arith)
  step-LockMove q (grow_lock to) a = elim (Bool-cases q.spinlock) [
    | inl held ↦ leaves (rw held) (rw held)
    | inr open_lock ↦ takes open_lock refl (ground arith)
  ]
  step-LockMove q (grow_test to) a = leaves refl (ground arith)
  step-LockMove q (grow_link to) a = elim (Bool-cases (allocates a)) [
    | inl new ↦ rw new (leaves refl refl)
    | inr none ↦ rw none (leaves refl refl)
  ]
  step-LockMove q (grow_unlock to grown) a =
      releases refl (ground (arith, in_grow-resume c to)) refl
  step-LockMove q (produce_enter attempts) a = leaves refl (ground arith)
  step-LockMove q (produce_round attempts) a = leaves refl (in_grow-loop_head c attempts q.capacity)
  step-LockMove q (produce_lock attempts count current) a = leaves (ground arith) (ground arith)
  step-LockMove q (produce_test attempts count) a =
      leaves refl (ground (arith, in_grow-loop_head c attempts (wrap32 (count -ℤ pos 1))))
  step-LockMove q (producer slot d) a = leaves (ground arith) (ground arith)
  step-LockMove q consume_loop a = leaves refl (ground arith)
  step-LockMove q (consume_capacity seen_free) a = leaves refl (ground arith)
  step-LockMove q (consume_lock current) a = leaves (ground arith) (ground arith)
  step-LockMove q (consumer slot d) a = leaves (ground arith) (ground arith)
  step-LockMove q p a = leaves refl refl

  -- Who is between the acquisition and the release holds the lock, and is alone.
  abbrev pub IsLocked : System A → Type 0
  IsLocked s = Guarded s.queue.spinlock (λ i. in_grow (s.pc i))

  pub step-IsLocked :
      (s : System A) (i : ℕ) (a : Act A)
      → IsLocked s
      → IsLocked (after s i (step c s.queue (s.pc i) a))
  step-IsLocked s i a ok =
      rw (apply-update in_grow s.pc i (step c s.queue (s.pc i) a).pc)
        (move-Guarded ok i (step-LockMove s.queue (s.pc i) a))
