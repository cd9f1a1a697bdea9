-- ===== src/Slots/Delivery.antt =====
-- What is handed over: a payload that a producer publishes waits in a slot until a consumer has
-- finished with it. Payloads are compared by what they weigh, for every weight.
use fast_mpmc_queue.Prelude.{
  ℕ, ◌+◌, ◌≤◌, ◌<◌, ◌≡◌, refl, List, [], ◌∷◌, arith, update, total, total-change, total-congr,
  total-eq-zero, total-extend,
}
use fast_mpmc_queue.Slots.{SlotState, free, prod_locked, ready, cons_locked}
use fast_mpmc_queue.Slots.Protocol.{
  View, Step, lock, take, write, publish, cancel, repay, receive, finish, put_back, extend,
}
use fast_mpmc_queue.Slots.Invariant.{Inv, fresh, producing-held, consuming-held}

-- A slot is loaded from the moment it is ready until the consumer has finished with it.
abbrev pub loaded : SlotState → ℕ → ℕ
loaded ready w = w
loaded cons_locked w = w
loaded _ w = 0

module _ {ℓ} {A : Type ℓ} (weight : A → ℕ) where
  -- The weight of a list of payloads.
  pub load : List A → ℕ
  load [] = 0
  load (x ∷ xs) = weight x + load xs

  -- The weight of the payloads in the slots.
  pub stock : ℕ → (ℕ → SlotState) → (ℕ → A) → ℕ
  stock cap state payload = total cap (λ k. loaded (state k) (weight (payload k)))

  unfoldable pub Delivered : View A → Type 0
  Delivered s = load s.published ≡ load s.consumed + stock s.cap s.state s.payload

  stock-fresh : (cap : ℕ) (payload : ℕ → A) → stock cap (λ k. free) payload ≡ 0
  unfolding stock
  stock-fresh cap payload = total-eq-zero cap _ (λ k h. refl)

  pub fresh-Delivered : (cap : ℕ) (payload : ℕ → A) → Delivered (fresh cap payload)
  unfolding load Delivered
  fresh-Delivered cap payload = omega (arith, stock-fresh cap payload)

  module _ (cap : ℕ) (state : ℕ → SlotState) (payload : ℕ → A) (k : ℕ) where
    stock-store :
        (old new : SlotState)
        → k < cap
        → state k ≡ old
        → stock cap (update state k new) payload + loaded old (weight (payload k))
          ≡ stock cap state payload + loaded new (weight (payload k))
    unfolding stock
    stock-store old new h e =
        let v = λ (j : ℕ). loaded (update state k new j) (weight (payload j)) in
        let w = λ (j : ℕ). loaded (state j) (weight (payload j)) in
        let at_new : v k ≡ loaded new (weight (payload k)) = ground arith in
        let at_old : w k ≡ loaded old (weight (payload k)) = rw e in
        omega (arith, at_new, at_old, total-change cap v w k h (λ j p. ground arith))

    stock-write :
        (v : A)
        → state k ≡ prod_locked
        → stock cap state (update payload k v) ≡ stock cap state payload
    unfolding stock
    stock-write v e = total-congr cap _ _ (λ j h. ground arith)

  stock-extend :
      (m cap : ℕ) (state : ℕ → SlotState) (payload : ℕ → A)
      → ((k : ℕ) → cap ≤ k → state k ≡ free)
      → stock (cap + m) state payload ≡ stock cap state payload
  unfolding stock
  stock-extend m cap state payload beyond = total-extend m cap _ (λ k h. ground (arith, beyond k h))

  -- Every move of the protocol keeps the deliveries in balance.
  pub Step-Delivered : {n : ℕ} {s t : View A} → Inv n s → Step n s t → Delivered s → Delivered t
  unfolding load Delivered
  Step-Delivered {s} inv (lock i k l h c f) d =
      omega (arith, stock-store s.cap s.state s.payload k free prod_locked h f)
  Step-Delivered inv (take i k l c) d = d
  Step-Delivered {s} inv (write i k v l c) d =
      let (h, f) = producing-held inv i k c in
      omega (arith, stock-write s.cap s.state s.payload k v f)
  Step-Delivered {s} inv (publish i k l c) d =
      let (h, f) = producing-held inv i k c in
      omega (arith, stock-store s.cap s.state s.payload k prod_locked ready h f)
  Step-Delivered {s} inv (cancel i k l c) d =
      let (h, f) = producing-held inv i k c in
      omega (arith, stock-store s.cap s.state s.payload k prod_locked free h f)
  Step-Delivered inv (repay i m l c) d = d
  Step-Delivered {s} inv (receive i k l h c f) d =
      omega (arith, stock-store s.cap s.state s.payload k ready cons_locked h f)
  Step-Delivered {s} inv (finish i k l c) d =
      let (h, f) = consuming-held inv i k c in
      omega (arith, stock-store s.cap s.state s.payload k cons_locked free h f)
  Step-Delivered {s} inv (put_back i k l c) d =
      let (h, f) = consuming-held inv i k c in
      omega (arith, stock-store s.cap s.state s.payload k cons_locked ready h f)
  Step-Delivered {s} inv (extend i m l c) d =
      omega (arith, stock-extend m s.cap s.state s.payload inv.beyond)
