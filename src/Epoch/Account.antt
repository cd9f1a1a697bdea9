-- ===== src/Epoch/Account.antt =====
-- What becomes of the payloads that `enqueue` of mpmc_queue is called with. Payloads are compared by
-- what they weigh, for every weight.
use fast_mpmc_queue.Prelude.{
  ℕ, zero, suc, ◌+◌, ◌≡◌, ◌⊎◌, inl, inr, refl, Bool, true, false, not, ◌&&◌, arith, Option, none,
  some, [], update, Bool-cases, ◌==◌, total,
}
use fast_mpmc_queue.Nodes.{weigh}
use fast_mpmc_queue.Epoch.{
  Config, Return, to_caller, to_dequeue, to_cleaner, put, take, Pc, idle, aborted,
  construct_producing, construct_consuming, touch_lock, escape_lock, register_epoch, register_lock,
  register_insert, register_unlock, enqueue_test, enqueue_loop, enqueue_tail, enqueue_next,
  enqueue_advance, enqueue_link, dequeue_count, dequeue_loop, dequeue_next, dequeue_tail,
  dequeue_test, dequeue_exchange, purge_lock, purge_map_lock, purge_map_unlock, purge_list,
  purge_skip, purge_at, purge_keep, purge_delete, purge_unlock, reset_counter, cleaner_loop,
  cleaner_count, cleaner_yield, Act, go, call_enqueue, call_dequeue, call_purge, call_touch,
  call_escape, call_shutdown, call_stop, System,
}
use fast_mpmc_queue.Epoch.Register.{begin}
use fast_mpmc_queue.Epoch.Transfer.{link_after}
use fast_mpmc_queue.Epoch.Purge.{skip_on, sweep_on}
use fast_mpmc_queue.Epoch.Machine.{step}

module _ {ℓ} {A : Type ℓ} where
  -- The payload of a thread inside `enqueue` that has not linked its node.
  abbrev pub hand : (A → ℕ) → Pc A → ℕ
  hand w (enqueue_test v) = w v
  hand w (register_epoch (put v)) = w v
  hand w (register_lock (put v) epoch) = w v
  hand w (register_insert (put v) epoch) = w v
  hand w (register_unlock (put v) epoch) = w v
  hand w (aborted (put v)) = w v
  hand w (enqueue_loop v epoch) = w v
  hand w (enqueue_tail v epoch) = w v
  hand w (enqueue_next v epoch tail) = w v
  hand w (enqueue_advance v epoch next) = w v
  hand w (enqueue_link v epoch tail) = w v
  hand w _ = 0

  abbrev pub in_hand : (A → ℕ) → (n : ℕ) → (ℕ → Pc A) → ℕ
  in_hand w n pc = total n (λ j. hand w (pc j))

  -- The payloads that are linked, refused or dropped.
  abbrev pub settled : (A → ℕ) → System A → ℕ
  settled w s = weigh w s.enqueued + weigh w s.refused + weigh w s.leaked

  -- The constructor is run by thread 0, and `enqueue` is called on a queue that is built.
  abbrev pub Placed : (built : Bool) (j : ℕ) → Pc A → Type 0
  Placed built j construct_producing = (built ≡ false) × (j ≡ 0)
  Placed built j construct_consuming = (built ≡ false) × (j ≡ 0)
  Placed built j (enqueue_test v) = built ≡ true
  Placed built j (register_epoch (put v)) = built ≡ true
  Placed built j (register_lock (put v) epoch) = built ≡ true
  Placed built j (register_insert (put v) epoch) = built ≡ true
  Placed built j (register_unlock (put v) epoch) = built ≡ true
  Placed built j (enqueue_loop v epoch) = built ≡ true
  Placed built j (enqueue_tail v epoch) = built ≡ true
  Placed built j (enqueue_next v epoch tail) = built ≡ true
  Placed built j (enqueue_advance v epoch next) = built ≡ true
  Placed built j (enqueue_link v epoch tail) = built ≡ true
  Placed built j _ = Unit

  -- Nothing is refused or dropped unless producing has been disabled.
  abbrev pub IsOn : System A → Type ℓ
  IsOn s = (s.is_built && not s.queue.producing) ≡ false → (s.refused ≡ []) × (s.leaked ≡ [])

  abbrev Quiet : (A → ℕ) → (built : Bool) (j : ℕ) → Pc A → Type 0
  Quiet w built j p = (hand w p ≡ 0) × Placed built j p

  skip_on-Quiet :
      (w : A → ℕ) (built : Bool) (j : ℕ) (r : Return) (bound count : ℕ) (last x : Option ℕ)
      → Quiet w built j (skip_on r bound count last x)
  skip_on-Quiet w built j r bound count none none = (refl, tt)
  skip_on-Quiet w built j r bound count (some l) none = (refl, tt)
  skip_on-Quiet w built j r bound zero none (some k) = (refl, tt)
  skip_on-Quiet w built j r bound zero (some l) (some k) = (refl, tt)
  skip_on-Quiet w built j r bound (suc count) last (some k) = (refl, tt)

  sweep_on-Quiet :
      (w : A → ℕ) (built : Bool) (j : ℕ) (r : Return) (bound last : ℕ) (x : Option ℕ)
      → Quiet w built j (sweep_on r bound last x)
  sweep_on-Quiet w built j r bound last none = (refl, tt)
  sweep_on-Quiet w built j r bound last (some k) = (refl, tt)

  module _ (w : A → ℕ) (c : Config) (s : System A) (i : ℕ) where
    -- What a step adds to the calls is settled by it or in the thread's hand.
    abbrev Pays : Pc A → System A → Type ℓ
    Pays p t =
        (p' : Pc A) × (t.pc ≡ update s.pc i p')
        × (weigh w t.called + settled w s + hand w p ≡ weigh w s.called + settled w t + hand w p')
        × Placed t.is_built i p'
        × ((t.is_built ≡ s.is_built) ⊎ ((t.is_built ≡ true) × (i ≡ 0)))
        × (IsOn s → IsOn t)

    link_after-Pays :
        (v : A) (epoch tail : ℕ) (x : Option ℕ)
        → s.is_built ≡ true
        → Pays (enqueue_link v epoch tail) (link_after s i v epoch tail x)
    unfolding link_after weigh
    link_after-Pays v epoch tail none h = (_, refl, omega arith, tt, inl refl, λ on. on)
    link_after-Pays v epoch tail (some n) h = (_, refl, omega arith, h, inl refl, λ on. on)

    pub step-Pays : (p : Pc A) (a : Act A) → Placed s.is_built i p → Pays p (step c s i p a)
    unfolding step begin weigh
    step-Pays idle (call_enqueue v) h = (_, refl, ground arith, ground arith, inl refl, λ on. on)
    step-Pays idle call_dequeue h = (_, refl, ground arith, ground arith, inl refl, λ on. on)
    step-Pays idle call_purge h = (_, refl, ground arith, ground arith, inl refl, λ on. on)
    step-Pays idle call_touch h = (_, refl, ground arith, ground arith, inl refl, λ on. on)
    step-Pays idle call_escape h = (_, refl, ground arith, ground arith, inl refl, λ on. on)
    step-Pays idle call_shutdown h = (_, refl, omega arith, tt, inl refl, λ on e. on (ground arith))
    step-Pays idle call_stop h =
        (_, refl, ground arith, ground arith, inl refl, λ on e. on (ground arith))
    step-Pays idle go h = (_, refl, omega arith, tt, inl refl, λ on. on)
    step-Pays construct_producing a h =
        (_, refl, omega arith, h, inl refl, λ on e. on (ground arith))
    step-Pays construct_consuming a h =
        (_, refl, omega arith, tt, inr (refl, h.1), λ on e. on (ground arith))
    step-Pays touch_lock a h = (_, refl, ground arith, ground arith, inl refl, λ on. on)
    step-Pays escape_lock a h = (_, refl, ground arith, ground arith, inl refl, λ on. on)
    step-Pays (register_epoch (put v)) a h =
        (_, refl, ground arith, ground arith, inl refl, λ on. on)
    step-Pays (register_epoch take) a h = (_, refl, ground arith, ground arith, inl refl, λ on. on)
    step-Pays (register_lock (put v) epoch) a h =
        (_, refl, ground arith, ground arith, inl refl, λ on. on)
    step-Pays (register_lock take epoch) a h =
        (_, refl, ground arith, ground arith, inl refl, λ on. on)
    step-Pays (register_insert (put v) epoch) a h = (_, refl, omega arith, h, inl refl, λ on. on)
    step-Pays (register_insert take epoch) a h = (_, refl, omega arith, tt, inl refl, λ on. on)
    step-Pays (register_unlock (put v) epoch) a h = (_, refl, omega arith, h, inl refl, λ on. on)
    step-Pays (register_unlock take epoch) a h = (_, refl, omega arith, tt, inl refl, λ on. on)
    step-Pays (enqueue_test v) a h =
        (_, refl, ground arith, ground arith, inl refl, λ on e. ground (arith, on))
    step-Pays (enqueue_loop v epoch) a h =
        (_, refl, ground arith, ground arith, inl refl, λ on e. ground (arith, on))
    step-Pays (enqueue_next v epoch tail) a h =
        (_, refl, ground arith, ground arith, inl refl, λ on. on)
    step-Pays (enqueue_link v epoch tail) a h = link_after-Pays v epoch tail (s.queue.next tail) h
    step-Pays dequeue_count a h = (_, refl, ground arith, ground arith, inl refl, λ on. on)
    step-Pays (dequeue_loop epoch) a h = (_, refl, ground arith, ground arith, inl refl, λ on. on)
    step-Pays (dequeue_next epoch head) a h =
        (_, refl, ground arith, ground arith, inl refl, λ on. on)
    step-Pays (dequeue_tail epoch head first) a h =
        (_, refl, ground arith, ground arith, inl refl, λ on. on)
    step-Pays (dequeue_test epoch head first) a h =
        (_, refl, ground arith, ground arith, inl refl, λ on. on)
    step-Pays (dequeue_exchange epoch head first) a h = elim (Bool-cases (s.queue.head == head)) [
      | inl same ↦ rw same (_, refl, omega arith, tt, inl refl, λ on. on)
      | inr moved ↦ rw moved (_, refl, omega arith, tt, inl refl, λ on. on)
    ]
    step-Pays (purge_lock r) a h = (_, refl, ground arith, ground arith, inl refl, λ on. on)
    step-Pays (purge_map_lock r bound) a h =
        (_, refl, ground arith, ground arith, inl refl, λ on. on)
    step-Pays (purge_map_unlock r none) a h = (_, refl, omega arith, tt, inl refl, λ on. on)
    step-Pays (purge_map_unlock r (some m)) a h = (_, refl, omega arith, tt, inl refl, λ on. on)
    step-Pays (purge_list r bound) a h =
        let g = skip_on-Quiet w s.is_built i r bound c.skip_first none s.queue.deleted in
        (_, refl, omega (arith, g.0), g.1, inl refl, λ on. on)
    step-Pays (purge_skip r bound count current) a h =
        let g =
          skip_on-Quiet w s.is_built i r bound count (some current)
            (s.queue.next_deleted current) in
        (_, refl, omega (arith, g.0), g.1, inl refl, λ on. on)
    step-Pays (purge_at r bound last current next) a h =
        (_, refl, ground arith, ground arith, inl refl, λ on. on)
    step-Pays (purge_keep r bound last current next) a h =
        let g = sweep_on-Quiet w s.is_built i r bound current next in
        (_, refl, omega (arith, g.0), g.1, inl refl, λ on. on)
    step-Pays (purge_delete r bound last current next) a h =
        let g = sweep_on-Quiet w s.is_built i r bound last next in
        (_, refl, omega (arith, g.0), g.1, inl refl, λ on. on)
    step-Pays (purge_unlock to_caller) a h = (_, refl, omega arith, tt, inl refl, λ on. on)
    step-Pays (purge_unlock to_dequeue) a h = (_, refl, omega arith, tt, inl refl, λ on. on)
    step-Pays (purge_unlock to_cleaner) a h = (_, refl, omega arith, tt, inl refl, λ on. on)
    step-Pays (reset_counter to_caller) a h = (_, refl, omega arith, tt, inl refl, λ on. on)
    step-Pays (reset_counter to_dequeue) a h = (_, refl, omega arith, tt, inl refl, λ on. on)
    step-Pays (reset_counter to_cleaner) a h = (_, refl, omega arith, tt, inl refl, λ on. on)
    step-Pays cleaner_loop a h = (_, refl, ground arith, ground arith, inl refl, λ on. on)
    step-Pays cleaner_count a h = (_, refl, ground arith, ground arith, inl refl, λ on. on)
    step-Pays cleaner_yield a h = (_, refl, ground arith, ground arith, inl refl, λ on. on)
    step-Pays _ a h = (_, refl, omega arith, ground arith, inl refl, λ on. on)
