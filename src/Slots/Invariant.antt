-- ===== src/Slots/Invariant.antt =====
-- The invariant of the protocol: who holds which slot, and what the free counter counts.
use fast_mpmc_queue.Prelude.{ℕ, ◌+◌, ◌≤◌, ◌<◌, ◌≡◌, refl, [], some, arith, pos, pos_part, neg_part}
use fast_mpmc_queue.Slots.{SlotState, free, prod_locked, cons_locked}
use fast_mpmc_queue.Slots.Protocol.{Claim, idle, locking, producing, consuming, slot_of, View}
use fast_mpmc_queue.Slots.Counts.{
  w_prod, w_ready, w_cons, c_locking, c_producing, c_consuming, c_owing, slots, claims,
  slots-eq-zero, claims-eq-zero,
}

-- What a claim says of the state of its slot.
abbrev pub Holds : (ℕ → SlotState) → Claim → Type 0
Holds state (locking k) = state k ≡ prod_locked
Holds state (producing k) = state k ≡ prod_locked
Holds state (consuming k) = state k ≡ cons_locked
Holds state _ = Unit

module _ {ℓ} {A : Type ℓ} where
  pub record Inv (n : ℕ) (s : View A) : Type 0 where
    pub range : (i k : ℕ) → slot_of (s.claim i) ≡ some k → k < s.cap
    pub held : (i : ℕ) → Holds s.state (s.claim i)
    pub unique : (i j k : ℕ) → slot_of (s.claim i) ≡ some k → slot_of (s.claim j) ≡ some k → i ≡ j
    pub beyond : (k : ℕ) → s.cap ≤ k → s.state k ≡ free
    pub prods :
        slots w_prod s.cap s.state ≡ claims c_locking n s.claim + claims c_producing n s.claim
    pub cons : slots w_cons s.cap s.state ≡ claims c_consuming n s.claim
    pub counted :
        pos_part s.balance
          + slots w_prod s.cap s.state
          + slots w_ready s.cap s.state
          + slots w_cons s.cap s.state
          + claims c_owing n s.claim
        ≡ neg_part s.balance + s.cap + claims c_locking n s.claim

  -- No slot is in use, and no thread holds anything.
  abbrev pub fresh : ℕ → (ℕ → A) → View A
  fresh cap payload = record {
    cap = cap;
    balance = pos cap;
    state = λ k. free;
    payload = payload;
    claim = λ i. idle;
    published = [];
    consumed = [];
  }

  pub fresh-Inv : (n cap : ℕ) (payload : ℕ → A) → Inv n (fresh cap payload)
  fresh-Inv n cap payload = record {
    range = λ i k e. cc;
    held = λ i. tt;
    unique = λ i j k e. cc;
    beyond = λ k h. refl;
    prods = omega (
      arith,
      slots-eq-zero w_prod cap refl,
      claims-eq-zero c_locking n refl,
      claims-eq-zero c_producing n refl,
    );
    cons = omega (arith, slots-eq-zero w_cons cap refl, claims-eq-zero c_consuming n refl);
    counted = omega (
      arith,
      slots-eq-zero w_prod cap refl,
      slots-eq-zero w_ready cap refl,
      slots-eq-zero w_cons cap refl,
      claims-eq-zero c_owing n refl,
      claims-eq-zero c_locking n refl,
    );
  }

  -- What the invariant says of a thread whose claim is known.
  module _ {n : ℕ} {s : View A} (inv : Inv n s) (i k : ℕ) where
    pub locking-held : s.claim i ≡ locking k → (k < s.cap) × (s.state k ≡ prod_locked)
    locking-held e = ground (arith, inv.range i k, inv.held i)

    pub producing-held : s.claim i ≡ producing k → (k < s.cap) × (s.state k ≡ prod_locked)
    producing-held e = ground (arith, inv.range i k, inv.held i)

    pub consuming-held : s.claim i ≡ consuming k → (k < s.cap) × (s.state k ≡ cons_locked)
    consuming-held e = ground (arith, inv.range i k, inv.held i)
