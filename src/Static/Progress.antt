-- ===== src/Static/Progress.antt =====
-- When the calls of the static queue return.
use fast_mpmc_queue.Prelude.{
  ℕ, zero, suc, ◌+◌, ◌-◌, ◌*◌, ◌%◌, ◌^◌, ◌≤◌, ◌<◌, ◌≡◌, refl, ◌⊎◌, inl, inr, Bool, true, false,
  List, [], ◌∷◌, arith, Bool-cases, length, leb, ◌==◌, if◌then◌else◌, ltb_ℤ, pos, eqb_ℤ,
}
use fast_mpmc_queue.Algo.{next_of}
use fast_mpmc_queue.Slots.{free, ready, is_state}
use fast_mpmc_queue.Static.{
  Queue, Pc, idle, produce_enter, produce_loop, produce_free, produce_index, produce_fold,
  produce_lock, produce_take, consume_loop, consume_free, consume_index, consume_fold, consume_lock,
  producer, consumer, Act, next_attempt,
}
use fast_mpmc_queue.Static.Machine.{step}

-- A call that has returned, with a slot or without.
abbrev pub has_returned : Pc → Bool
has_returned idle = true
has_returned (producer index m_complete) = true
has_returned (consumer index m_complete) = true
has_returned _ = false

-- The accesses of one attempt: five for each slot, and the test that ends the loop.
abbrev pub accesses : (size : ℕ) → ℕ
accesses size = 5 * size + 1

-- The accesses that `producer_slot` can still make.
abbrev pub rank : (size : ℕ) → Pc → ℕ
rank size (produce_enter attempts) = attempts * accesses size
rank size (produce_loop attempts count) = (attempts - 1) * accesses size + 5 * count
rank size (produce_free attempts count) = (attempts - 1) * accesses size + 5 * count - 1
rank size (produce_index attempts count) = (attempts - 1) * accesses size + 5 * count - 2
rank size (produce_fold attempts count current) = (attempts - 1) * accesses size + 5 * count - 3
rank size (produce_lock attempts count index) = (attempts - 1) * accesses size + 5 * count - 4
rank size _ = 0

-- A thread in `producer_slot`, with the counters that the loops leave.
abbrev pub IsCalling : Pc → Type 0
IsCalling (produce_enter attempts) = (0 < attempts) × (attempts < 2 ^ 32)
IsCalling (produce_loop attempts count) = (0 < attempts) × (attempts < 2 ^ 32)
IsCalling (produce_free attempts count) = (0 < attempts) × (attempts < 2 ^ 32) × (0 < count)
IsCalling (produce_index attempts count) = (0 < attempts) × (attempts < 2 ^ 32) × (0 < count)
IsCalling (produce_fold attempts count current) = (0 < attempts) × (attempts < 2 ^ 32) × (0 < count)
IsCalling (produce_lock attempts count index) = (0 < attempts) × (attempts < 2 ^ 32) × (0 < count)
IsCalling (produce_take index) = Unit
IsCalling _ = ⊥

-- Either the call has returned, or it goes on with fewer accesses left.
abbrev Nearer : (size before : ℕ) → Pc → Type 0
Nearer size before p = (has_returned p ≡ true) ⊎ (IsCalling p × (rank size p < before))

-- An attempt and those after it, of which there is at least one.
attempts_left : (attempts a : ℕ) → 0 < attempts → attempts * a ≡ a + (attempts - 1) * a
attempts_left zero a h = absurd (omega arith)
attempts_left (suc left) a h = let e : suc left - 1 ≡ left = omega arith in rw e (grind arith)

-- `--slot_acquire_attempts` leaves fewer accesses than any round of the attempt that it ends.
next_attempt-Nearer :
    (size attempts k : ℕ)
    → 0 < attempts
    → attempts < 2 ^ 32
    → (attempts - 1) * accesses size ≤ k
    → Nearer size k (next_attempt size attempts)
unfolding next_attempt
next_attempt-Nearer size zero k p h l = absurd (omega arith)
next_attempt-Nearer size (suc left) k p h l =
    let e : (suc left + 2 ^ 32 - 1) % 2 ^ 32 ≡ left = omega arith in
    let all : suc left - 1 ≡ left = omega arith in
    rw e (elim (Bool-cases (left == 0)) [
      | inl over ↦ rw over (inl refl)
      | inr more ↦
          let some_left : 0 < left = ground arith in
          rw more (inr ((some_left, omega arith), fewer left some_left (rw all at l)))
    ])
  where
    fewer :
        (left : ℕ) → 0 < left → left * accesses size ≤ k → (left - 1) * accesses size + 5 * size < k
    fewer left q l = omega (arith, attempts_left left (accesses size) q)

-- A thread in `consumer_slot`.
abbrev pub is_consuming : Pc → Bool
is_consuming consume_loop = true
is_consuming consume_free = true
is_consuming consume_index = true
is_consuming (consume_fold current) = true
is_consuming (consume_lock index) = true
is_consuming _ = false

-- The accesses up to the next test of `m_consumer.m_enable`, that test included.
abbrev to_test : Pc → ℕ
to_test consume_free = 5
to_test consume_index = 4
to_test (consume_fold current) = 3
to_test (consume_lock index) = 2
to_test consume_loop = 1
to_test _ = 0

to_test_le : (p : Pc) → to_test p ≤ 5
to_test_le consume_loop = omega arith
to_test_le _ = omega arith

is_consuming-ne_returned : (p : Pc) → is_consuming p ≡ true → has_returned p ≡ false
is_consuming-ne_returned p c = ground arith

IsCalling-ne_returned : (p : Pc) → IsCalling p → has_returned p ≡ false
IsCalling-ne_returned idle c = absurd c
IsCalling-ne_returned (producer index m_complete) c = absurd c
IsCalling-ne_returned (consumer index m_complete) c = absurd c
IsCalling-ne_returned _ c = refl

-- Each of the accesses finds a queue with the property.
abbrev pub AllSeen {ℓ} : {A : Type ℓ} → (Queue A → Type 0) → List (Queue A × Act A) → Type 0
AllSeen P [] = Unit
AllSeen P ((q, a) ∷ seen) = P q × AllSeen P seen

AllSeen-any {ℓ} : {A : Type ℓ} (seen : List (Queue A × Act A)) → AllSeen (λ q. Unit) seen
AllSeen-any [] = tt
AllSeen-any (x ∷ seen) = (tt, AllSeen-any seen)

module _ {ℓ} {A : Type ℓ} (size : ℕ) (auto_complete : Bool) where
  -- Each access of `producer_slot` ends the call or leaves fewer to make, whatever the queue holds.
  step-Nearer :
      (q : Queue A) (p : Pc) (a : Act A)
      → IsCalling p
      → Nearer size (rank size p) (step size auto_complete q p a).pc
  unfolding step
  step-Nearer q (produce_enter attempts) a c = elim (Bool-cases q.producer_enable) [
    | inl on ↦ rw on (inr (c, omega (arith, attempts_left attempts (accesses size) c.0)))
    | inr off ↦ rw off (inl refl)
  ]
  step-Nearer q (produce_loop attempts count) a c =
      let over =
        next_attempt-Nearer size attempts ((attempts - 1) * accesses size + 5 * count) c.0 c.1
          (omega arith) in
      elim (Bool-cases (count == 0)) [
        | inl last ↦ rw last over
        | inr more ↦ rw more (elim (Bool-cases q.producer_enable) [
          | inl on ↦
              let some_left : 0 < count = ground arith in
              rw on (inr ((c.0, c.1, some_left), omega arith))
          | inr off ↦ rw off over
        ])
      ]
  step-Nearer q (produce_free attempts count) a c = elim (Bool-cases (eqb_ℤ q.free_count (pos 0))) [
    | inl full ↦ rw full (
        next_attempt-Nearer size attempts ((attempts - 1) * accesses size + 5 * count - 1) c.0 c.1
          (omega (arith, c.2)))
    | inr room ↦ rw room (inr (c, omega arith))
  ]
  step-Nearer q (produce_index attempts count) a c =
      elim (Bool-cases (leb size (next_of q.producer_index))) [
        | inl wraps ↦ rw wraps (inr (c, omega arith))
        | inr stays ↦ rw stays (inr (c, omega arith))
      ]
  step-Nearer q (produce_fold attempts count current) a c = inr (c, omega arith)
  step-Nearer q (produce_lock attempts count index) a c =
      elim (Bool-cases (is_state (q.state index) free)) [
        | inl won ↦ rw won (inr (tt, omega (arith, c.2)))
        | inr lost ↦ rw lost (inr ((c.0, c.1), omega (arith, c.2)))
      ]
  step-Nearer q (produce_take index) a c = inl refl
  step-Nearer q _ a c = absurd c

  -- A thread's own accesses, until its call returns: the queue that each of them finds is any,
  -- since other threads run in between.
  pub follow : List (Queue A × Act A) → Pc → Pc
  follow [] p = p
  follow ((q, a) ∷ seen) p =
      let rest = follow seen (step size auto_complete q p a).pc in
      if has_returned p then p else rest

  follow-returned :
      (seen : List (Queue A × Act A)) (p : Pc) → has_returned p ≡ true → follow seen p ≡ p
  unfolding follow
  follow-returned [] p r = refl
  follow-returned (x ∷ seen) p r = rw r

  -- A measure that falls with every access brings the call to its end.
  module _ (P : Pc → Type 0) (Seen : Queue A → Type 0) (measure : Pc → ℕ)
      (running : (p : Pc) → P p → has_returned p ≡ false)
      (falls : (q : Queue A) (p : Pc) (a : Act A)
        → Seen q
        → P p
        → let p' = (step size auto_complete q p a).pc in
          (has_returned p' ≡ true) ⊎ (P p' × (measure p' < measure p))) where
    follow_rule :
        (seen : List (Queue A × Act A)) (p : Pc)
        → AllSeen Seen seen
        → P p
        → measure p < length seen
        → has_returned (follow seen p) ≡ true
    unfolding follow
    follow_rule [] p all c h = absurd (omega arith)
    follow_rule ((q, a) ∷ seen) p all c h =
        rw (running p c)
          (go _ (falls q p a all.0 c) (follow_rule seen (step size auto_complete q p a).pc all.1))
      where
        go :
            (p' : Pc)
            → (has_returned p' ≡ true) ⊎ (P p' × (measure p' < measure p))
            → (P p' → measure p' < length seen → has_returned (follow seen p') ≡ true)
            → has_returned (follow seen p') ≡ true
        go p' (inl r) ih = rw (follow-returned seen p' r) r
        go p' (inr (c, l)) ih = ih c (omega arith)

  -- A call of `producer_slot` with `attempts` at least 1 (and below 2^32) returns within
  -- `1 + attempts * (5 * size + 1)` of its own accesses, the `fetch_sub` of the counter of free slots
  -- included: one for the entry, and in each attempt five for each slot and one for the test that ends
  -- the loop. That holds whatever the other threads do to the queue between them and however often a
  -- weak compare-exchange fails spuriously.
  pub producer_slot_returns :
      (attempts : ℕ) (seen : List (Queue A × Act A))
      → 0 < attempts
      → attempts < 2 ^ 32
      → 1 + attempts * (5 * size + 1) ≤ length seen
      → has_returned (follow seen (produce_enter attempts)) ≡ true
  producer_slot_returns attempts seen p h enough =
      follow_rule IsCalling (λ q. Unit) (rank size) IsCalling-ne_returned
        (λ q x a u c. step-Nearer q x a c) seen (produce_enter attempts) (AllSeen-any seen) (p, h)
        (omega arith)

  step-consuming :
      (q : Queue A) (p : Pc) (a : Act A)
      → q.consumer_enable ≡ false
      → is_consuming p ≡ true
      → let p' = (step size auto_complete q p a).pc in
        (has_returned p' ≡ true) ⊎ ((is_consuming p' ≡ true) × (to_test p' < to_test p))
  unfolding step
  step-consuming q consume_loop a off c = rw off (inl refl)
  step-consuming q consume_free a off c = elim (Bool-cases (ltb_ℤ q.free_count (pos size))) [
    | inl some_taken ↦ rw some_taken (inr (refl, omega arith))
    | inr all_free ↦ rw all_free (inl refl)
  ]
  step-consuming q consume_index a off c = elim (Bool-cases (leb size (next_of q.consumer_index))) [
    | inl wraps ↦ rw wraps (inr (refl, omega arith))
    | inr stays ↦ rw stays (inr (refl, omega arith))
  ]
  step-consuming q (consume_fold current) a off c = inr (refl, omega arith)
  step-consuming q (consume_lock index) a off c =
      elim (Bool-cases (is_state (q.state index) ready)) [
        | inl won ↦ rw won (inl refl)
        | inr lost ↦ rw lost (inr (refl, omega arith))
      ]
  step-consuming q _ a off c = cc

  -- Once consuming is disabled, a thread inside `consumer_slot` returns within six of its own
  -- accesses, whatever else the other threads do.
  pub consumer_slot_stops :
      (p : Pc) (seen : List (Queue A × Act A))
      → is_consuming p ≡ true
      → AllSeen (λ q. q.consumer_enable ≡ false) seen
      → 6 ≤ length seen
      → has_returned (follow seen p) ≡ true
  consumer_slot_stops p seen c stopped enough =
      follow_rule (λ x. is_consuming x ≡ true) (λ q. q.consumer_enable ≡ false) to_test
        (λ x d. is_consuming-ne_returned x d) step-consuming seen p stopped c
        (omega (arith, to_test_le p))
