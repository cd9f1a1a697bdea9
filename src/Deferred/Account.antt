-- ===== src/Deferred/Account.antt =====
-- What becomes of the payloads that `enqueue` of mpmcdd_queue is called with. Payloads are compared by
-- what they weigh, for every weight.
use fast_mpmc_queue.Prelude.{
  ℕ, ◌+◌, ◌<◌, ◌≡◌, refl, true, arith, Option, none, some, List, [], ◌∷◌, update, Bool-cases, inl,
  inr, ◌==◌, total, total-update, total-eq-zero,
}
use fast_mpmc_queue.Nodes.{weigh, is_within}
use fast_mpmc_queue.Deferred.{new_queue}
use fast_mpmc_queue.Deferred.Machine.{
  Pc, idle, enqueue_test, enqueue_wait, enqueue_enter, enqueue_loop, enqueue_tail, enqueue_next,
  enqueue_check, enqueue_advance, enqueue_link, dequeue_wait, dequeue_loop, dequeue_check,
  dequeue_tail, dequeue_mark, dequeue_exchange, purge_wait, purge_loop, Act, go, call_enqueue,
  call_dequeue, call_purge, call_shutdown, call_stop, System, start, step, run, begin, link_after,
}

module _ {ℓ} {A : Type ℓ} where
  -- The payload of a thread inside `enqueue` that has not linked its node.
  abbrev pub hand : (A → ℕ) → Pc A → ℕ
  hand w (enqueue_test v) = w v
  hand w (enqueue_wait v) = w v
  hand w (enqueue_enter v) = w v
  hand w (enqueue_loop v) = w v
  hand w (enqueue_tail v) = w v
  hand w (enqueue_next v tail) = w v
  hand w (enqueue_check v tail next) = w v
  hand w (enqueue_advance v next) = w v
  hand w (enqueue_link v tail) = w v
  hand w _ = 0

  abbrev pub in_hand : (A → ℕ) → (n : ℕ) → (ℕ → Pc A) → ℕ
  in_hand w n pc = total n (λ j. hand w (pc j))

  -- The payloads that are linked, refused or dropped.
  abbrev settled : (A → ℕ) → System A → ℕ
  settled w s = weigh w s.enqueued + weigh w s.refused + weigh w s.leaked

  abbrev pub IsBalanced : (A → ℕ) → (n : ℕ) → System A → Type 0
  IsBalanced w n s = weigh w s.called ≡ settled w s + in_hand w n s.pc

  -- While producing is not disabled, nothing is refused or dropped.
  abbrev pub IsOn : System A → Type ℓ
  IsOn s = s.queue.producing ≡ true → (s.refused ≡ []) × (s.leaked ≡ [])

  module _ (w : A → ℕ) (s : System A) (i : ℕ) where
    -- What a step adds to the calls is settled by it or in the thread's hand.
    abbrev Pays : Pc A → System A → Type ℓ
    Pays p t =
        (p' : Pc A) × (t.pc ≡ update s.pc i p')
        × (weigh w t.called + settled w s + hand w p ≡ weigh w s.called + settled w t + hand w p')

    link_after-Pays :
        (v : A) (tail : ℕ) (x : Option ℕ) → Pays (enqueue_link v tail) (link_after s i v tail x)
    unfolding link_after weigh
    link_after-Pays v tail none = (_, refl, omega arith)
    link_after-Pays v tail (some n) = (_, refl, omega arith)

    step-Pays : (p : Pc A) (a : Act A) → Pays p (step s i p a)
    unfolding step begin weigh
    step-Pays idle (call_enqueue v) = (_, refl, omega arith)
    step-Pays idle call_dequeue = (_, refl, omega arith)
    step-Pays idle call_purge = (_, refl, omega arith)
    step-Pays idle call_shutdown = (_, refl, omega arith)
    step-Pays idle call_stop = (_, refl, omega arith)
    step-Pays idle go = (_, refl, omega arith)
    step-Pays (enqueue_test v) a = (_, refl, ground arith)
    step-Pays (enqueue_wait v) a = (_, refl, ground arith)
    step-Pays (enqueue_loop v) a = (_, refl, ground arith)
    step-Pays (enqueue_check v tail next) a = (_, refl, ground arith)
    step-Pays (enqueue_link v tail) a = link_after-Pays v tail (s.queue.next tail)
    step-Pays dequeue_wait a = (_, refl, ground arith)
    step-Pays dequeue_loop a = (_, refl, ground arith)
    step-Pays (dequeue_check head first) a = (_, refl, ground arith)
    step-Pays (dequeue_tail head first) a = (_, refl, ground arith)
    step-Pays (dequeue_mark head first) a = (_, refl, ground arith)
    step-Pays (dequeue_exchange head first) a = elim (Bool-cases (s.queue.head == head)) [
      | inl same ↦ rw same (_, refl, omega arith)
      | inr moved ↦ rw moved (_, refl, omega arith)
    ]
    step-Pays purge_wait a = (_, refl, ground arith)
    step-Pays (purge_loop current) a = (_, refl, ground arith)
    step-Pays _ a = (_, refl, omega arith)

    step-IsBalanced :
        (n : ℕ) (a : Act A) → i < n → IsBalanced w n s → IsBalanced w n (step s i (s.pc i) a)
    step-IsBalanced n a thread ok =
        let (p', e, pays) = step-Pays (s.pc i) a in
        rw e (omega (arith, pays, ok, total-update n (hand w) s.pc i p' thread))

  module _ (s : System A) (i : ℕ) where
    link_after-IsOn : (v : A) (tail : ℕ) (x : Option ℕ) → IsOn s → IsOn (link_after s i v tail x)
    unfolding link_after
    link_after-IsOn v tail none ok = ok
    link_after-IsOn v tail (some n) ok = ok

    step-IsOn : (p : Pc A) (a : Act A) → IsOn s → IsOn (step s i p a)
    unfolding step begin
    step-IsOn idle (call_enqueue v) ok = ok
    step-IsOn idle call_dequeue ok = ok
    step-IsOn idle call_purge ok = ok
    step-IsOn idle call_shutdown ok = λ h. cc
    step-IsOn idle call_stop ok = λ h. cc
    step-IsOn idle go ok = ok
    step-IsOn (enqueue_test v) a ok = λ h. rw h (ok h)
    step-IsOn (enqueue_loop v) a ok = λ h. rw h (ok h)
    step-IsOn (enqueue_link v tail) a ok = link_after-IsOn v tail (s.queue.next tail) ok
    step-IsOn (dequeue_exchange head first) a ok = elim (Bool-cases (s.queue.head == head)) [
      | inl same ↦ rw same ok
      | inr moved ↦ rw moved ok
    ]
    step-IsOn _ a ok = ok

  accounts :
      (w : A → ℕ) (n : ℕ) (s : System A) (xs : List (ℕ × Act A))
      → is_within n xs ≡ true
      → IsBalanced w n s
      → IsOn s
      → IsBalanced w n (run s xs) × IsOn (run s xs)
  unfolding run
  accounts w n s [] h ok on = (ok, on)
  accounts w n s ((i, a) ∷ xs) h ok on =
      accounts w n (step s i (s.pc i) a) xs (ground arith)
        (step-IsBalanced w s i n a (ground arith) ok) (step-IsOn s i (s.pc i) a on)

  -- The payloads of all calls are linked, refused, dropped or in hand.
  pub run-accounts :
      (w : A → ℕ) (n : ℕ) (xs : List (ℕ × Act A))
      → is_within n xs ≡ true
      → IsBalanced w n (run start xs) × IsOn (run start xs)
  unfolding start new_queue weigh
  run-accounts w n xs h =
      accounts w n start xs h (rw (total-eq-zero n (λ j. 0) (λ j p. refl)) refl) (λ e. (refl, refl))
