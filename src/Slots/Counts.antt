-- ===== src/Slots/Counts.antt =====
-- What the slots and the claims weigh in the counts of the protocol.
use fast_mpmc_queue.Prelude.{
  ℕ, zero, suc, ◌+◌, ◌*◌, arith, le-total, total-le_mul, ◌≤◌, ◌<◌, ◌≡◌, update, total, total-update,
  total-eq-zero, total-extend, total_mono,
}
use fast_mpmc_queue.Slots.{SlotState, free, prod_locked, ready, cons_locked}
use fast_mpmc_queue.Slots.Protocol.{Claim, idle, locking, producing, consuming, owing}

abbrev pub w_prod : SlotState → ℕ
w_prod prod_locked = 1
w_prod _ = 0

abbrev pub w_ready : SlotState → ℕ
w_ready ready = 1
w_ready _ = 0

abbrev pub w_cons : SlotState → ℕ
w_cons cons_locked = 1
w_cons _ = 0

abbrev pub c_locking : Claim → ℕ
c_locking (locking _) = 1
c_locking _ = 0

abbrev pub c_producing : Claim → ℕ
c_producing (producing _) = 1
c_producing _ = 0

abbrev pub c_consuming : Claim → ℕ
c_consuming (consuming _) = 1
c_consuming _ = 0

abbrev pub c_owing : Claim → ℕ
c_owing (owing m) = m
c_owing _ = 0

-- The number of the first `cap` slots in a state; and of the first `n` threads with a claim.
pub slots : (SlotState → ℕ) → ℕ → (ℕ → SlotState) → ℕ
slots w cap state = total cap (λ k. w (state k))

pub claims : (Claim → ℕ) → ℕ → (ℕ → Claim) → ℕ
claims c n claim = total n (λ i. c (claim i))

pub slots-eq-zero : (w : SlotState → ℕ) (cap : ℕ) → w free ≡ 0 → slots w cap (λ k. free) ≡ 0
unfolding slots
slots-eq-zero w cap e = total-eq-zero cap (λ k. w free) (λ k h. e)

pub claims-eq-zero : (c : Claim → ℕ) (n : ℕ) → c idle ≡ 0 → claims c n (λ i. idle) ≡ 0
unfolding claims
claims-eq-zero c n e = total-eq-zero n (λ i. c idle) (λ i h. e)

-- Slots beyond the last that are free weigh nothing.
pub slots-extend :
    (w : SlotState → ℕ) (m cap : ℕ) (state : ℕ → SlotState)
    → w free ≡ 0
    → ((k : ℕ) → cap ≤ k → state k ≡ free)
    → slots w (cap + m) state ≡ slots w cap state
unfolding slots
slots-extend w m cap state e beyond =
    total-extend m cap (λ k. w (state k)) (λ k h. rw (beyond k h) e)

-- The counted states exclude one another.
pub slots_sum :
    (cap : ℕ) (state : ℕ → SlotState)
    → slots w_prod cap state + slots w_ready cap state + slots w_cons cap state ≤ cap
unfolding slots total
slots_sum zero state = omega arith
slots_sum (suc cap) state = ground (arith, slots_sum cap state)

pub le-slots :
    (w : SlotState → ℕ) (cap : ℕ) (state : ℕ → SlotState) (k : ℕ)
    → k < cap
    → w (state k) ≤ slots w cap state
unfolding slots
le-slots w cap state k h = le-total cap (λ j. w (state j)) k h

pub le-claims :
    (c : Claim → ℕ) (n : ℕ) (claim : ℕ → Claim) (i : ℕ) → i < n → c (claim i) ≤ claims c n claim
unfolding claims
le-claims c n claim i h = le-total n (λ j. c (claim j)) i h

pub claims-le :
    (c : Claim → ℕ) (m n : ℕ) (claim : ℕ → Claim)
    → ((i : ℕ) → c (claim i) ≤ m)
    → claims c n claim ≤ n * m
unfolding claims
claims-le c m n claim h = total-le_mul n m (λ i. c (claim i)) h

module _ (cap : ℕ) (state : ℕ → SlotState) (k : ℕ) (new : SlotState) where
  -- One slot goes from a state to another.
  pub record Stored (old : SlotState) : Type 0 where
    pub prod :
        slots w_prod cap (update state k new) + w_prod old ≡ slots w_prod cap state + w_prod new
    pub ready :
        slots w_ready cap (update state k new) + w_ready old ≡ slots w_ready cap state + w_ready new
    pub cons :
        slots w_cons cap (update state k new) + w_cons old ≡ slots w_cons cap state + w_cons new

  stored : k < cap → Stored (state k)
  unfolding slots
  stored h = record {
    prod = total-update cap w_prod state k new h;
    ready = total-update cap w_ready state k new h;
    cons = total-update cap w_cons state k new h;
  }

  pub Stored-from : {old : SlotState} → k < cap → state k ≡ old → Stored old
  Stored-from h e = rw e at (stored h)

module _ (n : ℕ) (claim : ℕ → Claim) (i : ℕ) (new : Claim) where
  -- One thread goes from a claim to another.
  pub record Moved (old : Claim) : Type 0 where
    pub locking :
        claims c_locking n (update claim i new) + c_locking old
        ≡ claims c_locking n claim + c_locking new
    pub producing :
        claims c_producing n (update claim i new) + c_producing old
        ≡ claims c_producing n claim + c_producing new
    pub consuming :
        claims c_consuming n (update claim i new) + c_consuming old
        ≡ claims c_consuming n claim + c_consuming new
    pub owing :
        claims c_owing n (update claim i new) + c_owing old ≡ claims c_owing n claim + c_owing new

  moved : i < n → Moved (claim i)
  unfolding claims
  moved h = record {
    locking = total-update n c_locking claim i new h;
    producing = total-update n c_producing claim i new h;
    consuming = total-update n c_consuming claim i new h;
    owing = total-update n c_owing claim i new h;
  }

  pub Moved-from : {old : Claim} → i < n → claim i ≡ old → Moved old
  Moved-from h e = rw e at (moved h)

-- What is below every claim's weight is below their sum.
pub total-le_claims :
    (c : Claim → ℕ) (n : ℕ) (w : ℕ → ℕ) (claim : ℕ → Claim)
    → ((i : ℕ) → w i ≤ c (claim i))
    → total n w ≤ claims c n claim
unfolding claims
total-le_claims c n w claim h = total_mono n w (λ i. c (claim i)) h
