-- ===== src/Dynamic/Capacity.antt =====
-- How far the dynamic queue grows: what its capacity counter counts, and the bound on the slots.
use fast_mpmc_queue.Prelude.{
  ℕ, zero, suc, ◌+◌, ◌-◌, ◌*◌, ◌≤◌, ◌<◌, ◌≡◌, ◌⊎◌, inl, inr, refl, ap, arith, leb, Bool-cases,
  update, total, total-update, total-le_mul, total-eq-zero, total-add, total-scale, ℤ, pos_part,
  neg_part,
}
use fast_mpmc_queue.Slots.Counts.{c_owing, claims, total-le_claims}
use fast_mpmc_queue.Slots.Threads.{after}
use fast_mpmc_queue.Dynamic.{
  Config, Resume, at_call, at_step, at_round, Pc, idle, grow_lock, grow_test, grow_link,
  grow_capacity, Outcome,
}
use fast_mpmc_queue.Dynamic.Grow.{resume, loop_head}
use fast_mpmc_queue.Dynamic.Machine.{System, start}
use fast_mpmc_queue.Dynamic.View.{claim_of, cap_of}

-- A block that is linked and not yet in `m_capacity`.
abbrev pub w_link : Pc → ℕ
w_link (grow_capacity to last_slot) = 1
w_link _ = 0

-- A thread that has seen room for a block and has not linked one.
abbrev pub w_wait : Pc → ℕ
w_wait (grow_lock to) = 1
w_wait (grow_test to) = 1
w_wait (grow_link to) = 1
w_wait _ = 0

-- How many of the first `n` threads.
pub count : (Pc → ℕ) → ℕ → (ℕ → Pc) → ℕ
count w n pc = total n (λ j. w (pc j))

pub count-update :
    (w : Pc → ℕ) (n : ℕ) (pc : ℕ → Pc) (i : ℕ) (p : Pc)
    → i < n
    → count w n (update pc i p) + w (pc i) ≡ count w n pc + w p
unfolding count
count-update w n pc i p h = total-update n w pc i p h

count-idle : (w : Pc → ℕ) (n : ℕ) → w idle ≡ 0 → count w n (λ j. idle) ≡ 0
unfolding count
count-idle w n e = total-eq-zero n (λ j. w idle) (λ j h. e)

link_or_wait : (p : Pc) → w_link p + w_wait p ≤ 1
link_or_wait idle = omega arith
link_or_wait _ = omega arith

pub counts_le : (n : ℕ) (pc : ℕ → Pc) → count w_link n pc + count w_wait n pc ≤ n
unfolding count
counts_le n pc = omega (
  arith,
  total-add n (λ j. w_link (pc j)) (λ j. w_wait (pc j)),
  total-le_mul n 1 (λ j. w_link (pc j) + w_wait (pc j)) (λ j. link_or_wait (pc j)),
)

-- Blocks that are linked but not counted are owed.
pub links_owed :
    (size n : ℕ) (pc : ℕ → Pc)
    → size * count w_link n pc ≤ claims c_owing n (λ j. claim_of size (pc j))
unfolding count
links_owed size n pc = omega (
  arith,
  total-scale n size (λ j. w_link (pc j)),
  total-le_claims c_owing n (λ j. size * w_link (pc j)) (λ j. claim_of size (pc j))
      (λ j. one_owed (pc j)),
)
  where
    one_owed : (p : Pc) → size * w_link p ≤ c_owing (claim_of size p)
    one_owed idle = omega arith
    one_owed (grow_capacity to last_slot) = omega arith
    one_owed _ = omega arith

pub mul_mono : (s a b : ℕ) → a ≤ b → s * a ≤ s * b
mul_mono s a b h = grind arith

less_or_more : (a b : ℕ) → (a + 1 ≤ b) ⊎ (b ≤ a)
less_or_more a b = elim (Bool-cases (leb b a)) [
  | inl more ↦ inr (ground arith)
  | inr less ↦ inl (ground arith)
]

-- All blocks are one and the others.
pub scaled_pred : (s n : ℕ) → 0 < n → s * n ≡ s * (n - 1) + s
scaled_pred s zero h = absurd (omega arith)
scaled_pred s (suc m) h = let e : suc m - 1 ≡ m = omega arith in rw e (grind arith)

-- The slots of the blocks that are left when some are taken out.
pub scaled_diff : (s b l p : ℕ) → p + s * l ≡ b * s → s * (b - l) ≡ p
scaled_diff s b l p h = elim (less_or_more b l) [
  | inl less ↦
      let none : b - l ≡ 0 = omega (arith, less) in
      rw none (omega (arith, mul_mono s b l (omega (arith, less))))
  | inr more ↦ omega (arith, h, split s (b - l) l, ap (λ (t : ℕ). s * t) (sum_again more))
]
  where
    split : (s a b : ℕ) → s * (a + b) ≡ s * a + s * b
    split s a b = grind arith

    sum_again : {b l : ℕ} → l ≤ b → (b - l) + l ≡ b
    sum_again h = omega arith

-- What is below a number of blocks is a block or more below it.
pub mul_room : (s a b : ℕ) → s * a < s * b → s * a + s ≤ s * b
mul_room s a b h = elim (less_or_more a b) [
  | inl less ↦ omega (arith, mul_mono s (a + 1) b less)
  | inr more ↦ absurd (omega (arith, mul_mono s b a more))
]

pub w-resume : (c : Config) (to : Resume) → (w_link (resume c to) ≡ 0) × (w_wait (resume c to) ≡ 0)
unfolding resume
w-resume c (at_call attempts) = (refl, refl)
w-resume c (at_step attempts count) = (ground arith, ground arith)
w-resume c (at_round attempts) = (refl, refl)

pub w-loop_head :
    (c : Config) (attempts : ℕ) (count : ℤ)
    → (w_link (loop_head c attempts count) ≡ 0) × (w_wait (loop_head c attempts count) ≡ 0)
unfolding loop_head
w-loop_head c attempts count = (ground arith, ground arith)

module _ {ℓ} {A : Type ℓ} (c : Config) (n : ℕ) where
  -- `m_capacity` counts the linked slots but for the blocks on their way, and the linked slots with
  -- the blocks that may still come are at most those of `max_blocks + n - 1` blocks.
  pub record HasCapacity (s : System A) : Type 0 where
    pub not_negative : neg_part s.queue.capacity ≡ 0
    pub counts : pos_part s.queue.capacity + c.block_size * count w_link n s.pc ≡ cap_of c s.queue
    pub limited :
        cap_of c s.queue + c.block_size * count w_wait n s.pc
        ≤ c.block_size * c.max_blocks + c.block_size * (n - 1)

  pub start-HasCapacity : (default : A) → 0 < c.max_blocks → HasCapacity (start c default)
  unfolding start
  start-HasCapacity default p = record {
    not_negative = refl;
    counts = rw (count-idle w_link n refl) (omega arith);
    limited = rw (count-idle w_wait n refl) (omega (arith, mul_mono c.block_size 1 c.max_blocks p));
  }

  module _ (s : System A) (i : ℕ) (thread : i < n) (ok : HasCapacity s) where
    -- A step that leaves the capacity and the links, and lets no thread in.
    pub keep :
        (o : Outcome A)
        → o.queue.capacity ≡ s.queue.capacity
        → o.queue.last_block ≡ s.queue.last_block
        → w_link o.pc ≡ w_link (s.pc i)
        → w_wait o.pc ≤ w_wait (s.pc i)
        → HasCapacity (after s i o)
    keep o ec el wl ww =
        let fewer =
          mul_mono c.block_size (count w_wait n (update s.pc i o.pc)) (count w_wait n s.pc)
            (omega (arith, count-update w_wait n s.pc i o.pc thread)) in
        let same : count w_link n (update s.pc i o.pc) ≡ count w_link n s.pc =
          omega (arith, count-update w_link n s.pc i o.pc thread) in
        record {
          not_negative = rw ec ok.not_negative;
          counts = rw (ec, el, same) ok.counts;
          limited = rw el (omega (arith, fewer, ok.limited));
        }
