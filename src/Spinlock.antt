-- ===== src/Spinlock.antt =====
-- include/xtxn/spinlock.hpp: the flag of the lock, and what it guards: a region in which at most one
-- thread stands. The waiting policies differ only in what a thread does while it waits.
use fast_mpmc_queue.Prelude.{ℕ, ◌≡◌, ◌∙◌, Bool, true, false, not, arith, update}

-- `m_flag.test_and_set()` leaves the flag set and tells whether it was.
abbrev pub test_and_set : Bool → Bool × Bool
test_and_set flag = (true, flag)

-- One round of the loop of `lock`, and the whole of `try_lock`: the flag, and whether the lock is got.
abbrev pub try_lock : Bool → Bool × Bool
try_lock flag = let (flag', was_set) = test_and_set flag in (flag', not was_set)

abbrev pub unlock : Bool → Bool
unlock flag = false

-- What one access does to the lock and to a thread's place: nothing, or the thread gets a free lock
-- and is inside, or it leaves and frees the lock.
pub data LockMove (flag inside flag' inside' : Bool) : Type 0 where
  leaves : flag' ≡ flag → inside' ≡ inside → LockMove flag inside flag' inside'
  takes : flag ≡ false → flag' ≡ true → inside' ≡ true → LockMove flag inside flag' inside'
  releases : inside ≡ true → inside' ≡ false → flag' ≡ false → LockMove flag inside flag' inside'

-- Who is inside has set the flag, and is alone.
pub record Guarded (flag : Bool) (inside : ℕ → Bool) : Type 0 where
  pub held : (i : ℕ) → inside i ≡ true → flag ≡ true
  pub alone : (i j : ℕ) → inside i ≡ true → inside j ≡ true → i ≡ j

update_same : (f : ℕ → Bool) (i : ℕ) (b : Bool) → b ≡ f i → (j : ℕ) → update f i b j ≡ f j
update_same f i b e j = ground arith

module _ {flag : Bool} {inside : ℕ → Bool} (ok : Guarded flag inside) (i : ℕ) where
  pub move-Guarded :
      {flag' b : Bool} → LockMove flag (inside i) flag' b → Guarded flag' (update inside i b)
  move-Guarded {b = b} (leaves e f) = record {
    held = λ j h. rw e (ok.held j (rw (update_same inside i b f j) at h));
    alone = λ j k h l.
        ok.alone j k (rw (update_same inside i b f j) at h) (rw (update_same inside i b f k) at l);
  }
  move-Guarded (takes e f g) = record {
    held = λ j h. f;
    alone = λ j k h l. ground (arith, ok.held j, ok.held k);
  }
  move-Guarded (releases e f g) = record {
    held = λ j h. ground (arith, ok.alone i j);
    alone = λ j k h l. ground (arith, ok.alone j k);
  }

-- The flag is set by a thread that is inside.
pub record Owned (flag : Bool) (inside : ℕ → Bool) : Type 0 where
  pub owner : flag ≡ true → (i : ℕ) × (inside i ≡ true)

pub move-Owned :
    {flag : Bool} {inside : ℕ → Bool} (i : ℕ) {flag' b : Bool}
    → Owned flag inside
    → LockMove flag (inside i) flag' b
    → Owned flag' (update inside i b)
move-Owned {inside = inside} i {b = b} ok (leaves e f) = record {
  owner = λ h. let (j, g) = ok.owner (ground arith) in (j, update_same inside i b f j ∙ g);
}
move-Owned i ok (takes e f g) = record { owner = λ h. (i, ground arith) }
move-Owned i ok (releases e f g) = record { owner = λ h. cc }
