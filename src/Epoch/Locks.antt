-- ===== src/Epoch/Locks.antt =====
-- The two spinlocks of mpmc_queue: `m_epoch_sl`, which guards the map, and `m_purge_sl`.
use fast_mpmc_queue.Prelude.{
  ℕ, ◌≡◌, inl, inr, refl, Bool, true, false, Bool-cases, not, arith, ◌==◌, if◌then◌else◌, Option,
  none, some, List, [], ◌∷◌, zero, suc, update, apply-update,
}
use fast_mpmc_queue.Spinlock.{Guarded, LockMove, leaves, takes, releases, move-Guarded}
use fast_mpmc_queue.Epoch.{
  Config, Queue, put, take, Return, to_caller, to_dequeue, to_cleaner, Pc, idle, touch_lock,
  touch_assign, escape_lock, escape_erase, leave_map, register_lock, register_insert,
  register_unlock, enqueue_next, enqueue_link, dequeue_next, dequeue_exchange, purge_lock,
  purge_epoch, purge_map_lock, purge_min, purge_map_unlock, purge_list, purge_skip, purge_next,
  purge_at, purge_keep, purge_delete, purge_end, purge_unlock, reset_counter, Act, go, call_enqueue,
  call_dequeue, call_purge, call_touch, call_escape, call_shutdown, call_stop, System,
}
use fast_mpmc_queue.Epoch.Register.{begin}
use fast_mpmc_queue.Epoch.Transfer.{link_after}
use fast_mpmc_queue.Epoch.Purge.{sweep_on, skip_on}
use fast_mpmc_queue.Epoch.Machine.{new_queue, start, step, run}

module _ {ℓ} {A : Type ℓ} where
  -- Between the acquisition and the release of `m_epoch_sl`.
  abbrev pub in_map : Pc A → Bool
  in_map touch_assign = true
  in_map escape_erase = true
  in_map leave_map = true
  in_map (register_insert op epoch) = true
  in_map (register_unlock op epoch) = true
  in_map (purge_min r bound) = true
  in_map (purge_map_unlock r bound) = true
  in_map _ = false

  -- Between the acquisition and the release of `m_purge_sl`.
  abbrev pub in_purge : Pc A → Bool
  in_purge (purge_epoch r) = true
  in_purge (purge_map_lock r bound) = true
  in_purge (purge_min r bound) = true
  in_purge (purge_map_unlock r bound) = true
  in_purge (purge_list r bound) = true
  in_purge (purge_skip r bound count current) = true
  in_purge (purge_next r bound last current) = true
  in_purge (purge_at r bound last current next) = true
  in_purge (purge_keep r bound last current next) = true
  in_purge (purge_delete r bound last current next) = true
  in_purge (purge_end r last) = true
  in_purge (purge_unlock r) = true
  in_purge _ = false

  -- Where `purge` goes on in its loops, it is inside of the one lock and outside of the other.
  abbrev IsSweeping : Pc A → Type 0
  IsSweeping p = (in_map p ≡ false) × (in_purge p ≡ true)

  sweep_on-IsSweeping :
      (q : Queue A) (r : Return) (bound last : ℕ) (x : Option ℕ)
      → IsSweeping (sweep_on {A = A} r bound last x)
  sweep_on-IsSweeping q r bound last none = (refl, refl)
  sweep_on-IsSweeping q r bound last (some k) = (refl, refl)

  skip_on-IsSweeping :
      (q : Queue A) (r : Return) (bound count : ℕ) (last x : Option ℕ)
      → IsSweeping (skip_on {A = A} r bound count last x)
  skip_on-IsSweeping q r bound count none none = (refl, refl)
  skip_on-IsSweeping q r bound count (some l) none = (refl, refl)
  skip_on-IsSweeping q r bound zero none (some k) = (refl, refl)
  skip_on-IsSweeping q r bound zero (some l) (some k) = (refl, refl)
  skip_on-IsSweeping q r bound (suc count) last (some k) = (refl, refl)

  -- A round of the loop of a lock.
  lock_round :
      {flag : Bool} (f : Pc A → Bool) (again inside : Pc A)
      → f again ≡ false
      → f inside ≡ true
      → LockMove flag (f again) true (f (if not flag then inside else again))
  lock_round {flag = true} f again inside e h = leaves refl refl
  lock_round {flag = false} f again inside e h = takes refl refl h

  -- What a step may do to the two locks, when its thread goes to `p'`.
  abbrev Moves : Queue A → Pc A → Queue A → Pc A → Type 0
  Moves q p r p' =
      LockMove q.epoch_sl (in_map p) r.epoch_sl (in_map p')
      × LockMove q.purge_sl (in_purge p) r.purge_sl (in_purge p')

  module _ (c : Config) (s : System A) (i : ℕ) where
    link_after-Moves :
        (v : A) (epoch tail : ℕ) (x : Option ℕ)
        → let t = link_after s i v epoch tail x in
          (p' : Pc A) × (t.pc ≡ update s.pc i p')
          × Moves s.queue (enqueue_link v epoch tail) t.queue p'
    unfolding link_after
    link_after-Moves v epoch tail none = (_, refl, (leaves refl refl, leaves refl refl))
    link_after-Moves v epoch tail (some n) = (_, refl, (leaves refl refl, leaves refl refl))

    step-Moves :
        (p : Pc A) (a : Act A)
        → let t = step c s i p a in
          (p' : Pc A) × (t.pc ≡ update s.pc i p') × Moves s.queue p t.queue p'
    unfolding step begin
    step-Moves idle (call_enqueue v) =
        (_, refl, (leaves refl (ground arith), leaves refl (ground arith)))
    step-Moves idle call_dequeue =
        (_, refl, (leaves refl (ground arith), leaves refl (ground arith)))
    step-Moves idle call_purge = (_, refl, (leaves refl (ground arith), leaves refl (ground arith)))
    step-Moves idle call_touch = (_, refl, (leaves refl (ground arith), leaves refl (ground arith)))
    step-Moves idle call_escape =
        (_, refl, (leaves refl (ground arith), leaves refl (ground arith)))
    step-Moves idle call_shutdown = (_, refl, (leaves refl refl, leaves refl refl))
    step-Moves idle call_stop = (_, refl, (leaves refl (ground arith), leaves refl (ground arith)))
    step-Moves idle go = (_, refl, (leaves refl refl, leaves refl refl))
    step-Moves touch_lock a =
        (_, refl, (lock_round in_map touch_lock _ refl refl, leaves refl (ground arith)))
    step-Moves escape_lock a =
        (_, refl, (lock_round in_map escape_lock _ refl refl, leaves refl (ground arith)))
    step-Moves leave_map a = (_, refl, (releases refl refl refl, leaves refl refl))
    step-Moves (register_lock op epoch) a = (
      _,
      refl,
      (lock_round in_map (register_lock op epoch) _ refl refl, leaves refl (ground arith)),
    )
    step-Moves (register_unlock (put v) epoch) a =
        (_, refl, (releases refl refl refl, leaves refl refl))
    step-Moves (register_unlock take epoch) a =
        (_, refl, (releases refl refl refl, leaves refl refl))
    step-Moves (enqueue_link v epoch tail) a = link_after-Moves v epoch tail (s.queue.next tail)
    step-Moves (enqueue_next v epoch tail) a =
        (_, refl, (leaves refl (ground arith), leaves refl (ground arith)))
    step-Moves (dequeue_next epoch head) a =
        (_, refl, (leaves refl (ground arith), leaves refl (ground arith)))
    step-Moves (dequeue_exchange epoch head first) a = elim (Bool-cases (s.queue.head == head)) [
      | inl same ↦ rw same (_, refl, (leaves refl refl, leaves refl refl))
      | inr moved ↦ rw moved (_, refl, (leaves refl refl, leaves refl refl))
    ]
    step-Moves (purge_lock r) a =
        (_, refl, (leaves refl (ground arith), lock_round in_purge (purge_lock r) _ refl refl))
    step-Moves (purge_map_lock r bound) a = (
      _,
      refl,
      (lock_round in_map (purge_map_lock r bound) _ refl refl, leaves refl (ground arith)),
    )
    step-Moves (purge_map_unlock r none) a = (_, refl, (releases refl refl refl, leaves refl refl))
    step-Moves (purge_map_unlock r (some m)) a =
        (_, refl, (releases refl refl refl, leaves refl refl))
    step-Moves (purge_list r bound) a =
        let g = skip_on-IsSweeping s.queue r bound c.skip_first none s.queue.deleted in
        (_, refl, (leaves refl g.0, leaves refl g.1))
    step-Moves (purge_skip r bound count current) a =
        let g =
          skip_on-IsSweeping s.queue r bound count (some current) (s.queue.next_deleted current) in
        (_, refl, (leaves refl g.0, leaves refl g.1))
    step-Moves (purge_keep r bound last current next) a =
        let g = sweep_on-IsSweeping s.queue r bound current next in
        (_, refl, (leaves refl g.0, leaves refl g.1))
    step-Moves (purge_delete r bound last current next) a =
        let g = sweep_on-IsSweeping s.queue r bound last next in
        (_, refl, (leaves refl g.0, leaves refl g.1))
    step-Moves (purge_unlock to_caller) a = (_, refl, (leaves refl refl, releases refl refl refl))
    step-Moves (purge_unlock to_dequeue) a = (_, refl, (leaves refl refl, releases refl refl refl))
    step-Moves (purge_unlock to_cleaner) a = (_, refl, (leaves refl refl, releases refl refl refl))
    step-Moves (reset_counter to_caller) a = (_, refl, (leaves refl refl, leaves refl refl))
    step-Moves (reset_counter to_dequeue) a = (_, refl, (leaves refl refl, leaves refl refl))
    step-Moves (reset_counter to_cleaner) a = (_, refl, (leaves refl refl, leaves refl refl))
    step-Moves _ a = (_, refl, (leaves refl (ground arith), leaves refl (ground arith)))

  -- Each lock guards its region.
  pub record IsGuarded (s : System A) : Type 0 where
    pub map : Guarded s.queue.epoch_sl (λ i. in_map (s.pc i))
    pub purge : Guarded s.queue.purge_sl (λ i. in_purge (s.pc i))

  module _ (c : Config) where
    pub start-IsGuarded : IsGuarded (start c)
    unfolding start new_queue
    start-IsGuarded = record {
      map = record {
        held = λ i h. absurd (ground arith);
        alone = λ i j h g. absurd (ground arith);
      };
      purge = record {
        held = λ i h. absurd (ground arith);
        alone = λ i j h g. absurd (ground arith);
      };
    }

    step-IsGuarded :
        (s : System A) (i : ℕ) (a : Act A) → IsGuarded s → IsGuarded (step c s i (s.pc i) a)
    step-IsGuarded s i a ok =
        let (p', e, (m, n)) = step-Moves c s i (s.pc i) a in
        record {
          map = rw (e, apply-update in_map s.pc i p') (move-Guarded ok.map i m);
          purge = rw (e, apply-update in_purge s.pc i p') (move-Guarded ok.purge i n);
        }

    pub run-IsGuarded :
        (s : System A) (xs : List (ℕ × Act A)) → IsGuarded s → IsGuarded (run c s xs)
    unfolding run
    run-IsGuarded s [] ok = ok
    run-IsGuarded s ((i, a) ∷ xs) ok =
        run-IsGuarded (step c s i (s.pc i) a) xs (step-IsGuarded s i a ok)
