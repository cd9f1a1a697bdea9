-- ===== src/Slots/Bounds.antt =====
-- The range of the free counter, and what its value tells of the slots.
use fast_mpmc_queue.Prelude.{ℕ, ◌+◌, ◌≤◌, ◌≡◌, ◌≢◌, arith, pos, pos_part, neg_part}
use fast_mpmc_queue.Slots.{ready, cons_locked}
use fast_mpmc_queue.Slots.Protocol.{View}
use fast_mpmc_queue.Slots.Counts.{
  w_ready, w_cons, c_producing, c_owing, slots, claims, slots_sum, le-slots,
}
use fast_mpmc_queue.Slots.Invariant.{Inv}

module _ {ℓ} {A : Type ℓ} {n : ℕ} {s : View A} (inv : Inv n s) where
  -- The free counter and the slots that are taken, ready, or on their way back make up all slots.
  pub balance_lem :
      pos_part s.balance
        + claims c_producing n s.claim
        + slots w_ready s.cap s.state
        + slots w_cons s.cap s.state
        + claims c_owing n s.claim
      ≡ neg_part s.balance + s.cap
  balance_lem = omega arith

  -- The free counter never exceeds the number of slots, and is below zero by no more than is owed.
  pub balance_bounds :
      (pos_part s.balance ≤ s.cap) × (neg_part s.balance ≤ claims c_owing n s.claim)
  balance_bounds = ground (arith, balance_lem, slots_sum s.cap s.state, inv.prods)

  -- When the counter says that every slot is free, no slot holds a payload for a consumer.
  pub full_balance-ne_ready :
      s.balance ≡ pos s.cap → (k : ℕ) → (s.state k ≢ ready) × (s.state k ≢ cons_locked)
  full_balance-ne_ready e k =
      let none_waits : slots w_ready s.cap s.state + slots w_cons s.cap s.state ≡ 0 =
        ground (arith, balance_lem) in
      ground (
        arith,
        none_waits,
        inv.beyond k,
        le-slots w_ready s.cap s.state k,
        le-slots w_cons s.cap s.state k,
      )
