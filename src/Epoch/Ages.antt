-- ===== src/Epoch/Ages.antt =====
-- The steps of mpmc_queue: what each does to the epochs.
use fast_mpmc_queue.Prelude.{
  ℕ, ◌+◌, ◌≤◌, ◌<◌, ◌≡◌, ◌⊎◌, inl, inr, refl, false, arith, ◌==◌, Option, none, some, List, [], ◌∷◌,
  length, update, Bool-cases,
}
use native.Mathlib.Decide.{ℕ_discrete}
use fast_mpmc_queue.Epoch.{
  Config, before_epoch, beyond_epoch, insert, assign, erase, Queue, Op, put, take, to_caller,
  to_dequeue, to_cleaner, Pc, idle, aborted, touch_assign, escape_erase, leave_map, register_epoch,
  register_lock, register_insert, register_unlock, finish, enqueue_loop, enqueue_next, enqueue_link,
  enqueue_swing, dequeue_loop, dequeue_next, dequeue_exchange, dequeue_stamp, dequeue_push,
  purge_map_unlock, purge_list, purge_skip, purge_keep, purge_delete, purge_unlock, reset_counter,
  Act, go, call_enqueue, call_dequeue, call_purge, call_touch, call_escape, call_shutdown,
  call_stop, System,
}
use fast_mpmc_queue.Epoch.Register.{next_epoch, begin}
use fast_mpmc_queue.Epoch.Transfer.{link_after}
use fast_mpmc_queue.Epoch.Machine.{new_queue, start, step, run}
use fast_mpmc_queue.Epoch.Epochs.{
  AllBelow, AllBelow-mono, insert-AllBelow, assign-AllBelow, erase-AllBelow, Dated, Dated-mono,
  sweep_on-Dated, skip_on-Dated, IsDated,
}

module _ {ℓ} {A : Type ℓ} where
  -- A step takes the epoch on by one at most, and its thread goes to a place with an epoch below it.
  abbrev Ages : System A → ℕ → System A → Type ℓ
  Ages s i t =
      (p' : Pc A) × (t.pc ≡ update s.pc i p')
      × Dated t.queue.epoch p'
      × (s.queue.epoch ≤ t.queue.epoch)
      × (t.queue.epoch ≤ s.queue.epoch + 1)
      × IsDated t.queue

  module _ (c : Config) (s : System A) (i : ℕ) (d : IsDated s.queue) where
    -- A step that leaves the epochs of the queue alone.
    stays :
        (r : Queue A) (p' : Pc A)
        → Dated s.queue.epoch p'
        → r.epoch ≡ s.queue.epoch
        → r.thread_epoch ≡ s.queue.thread_epoch
        → r.deleted_at ≡ s.queue.deleted_at
        → Ages s i (record s { queue = r; pc = update s.pc i p' })
    stays r p' g e m t = (
      p',
      refl,
      rw e g,
      omega arith,
      omega arith,
      record { started = rw e d.started; map = rw (e, m) d.map; stamps = rw (e, t) d.stamps },
    )

    -- A step that changes the map.
    maps :
        (xs : List (ℕ × ℕ)) (p' : Pc A)
        → Dated s.queue.epoch p'
        → AllBelow s.queue.epoch xs
        → Ages s i
            (record s { queue = record s.queue { thread_epoch = xs }; pc = update s.pc i p' })
    maps xs p' g m = (
      p',
      refl,
      g,
      omega arith,
      omega arith,
      record { started = d.started; map = m; stamps = d.stamps },
    )

    link_after-Ages :
        (v : A) (epoch tail : ℕ) (x : Option ℕ)
        → epoch < s.queue.epoch
        → Ages s i (link_after s i v epoch tail x)
    unfolding link_after
    link_after-Ages v epoch tail none g =
        stays (link_after s i v epoch tail none).queue (enqueue_swing epoch s.queue.allocated) g
          refl refl refl
    link_after-Ages v epoch tail (some n) g = stays s.queue (enqueue_loop v epoch) g refl refl refl

    -- `fetch_add` on an epoch that does not wrap.
    next_epoch-lem : s.queue.epoch + 1 < beyond_epoch → next_epoch s.queue.epoch ≡ s.queue.epoch + 1
    next_epoch-lem h = omega arith

    older :
        (m : ℕ)
        → s.queue.epoch ≤ m
        → (k : ℕ) → (s.queue.deleted_at k ≡ beyond_epoch) ⊎ (s.queue.deleted_at k < m)
    older m h k = elim (d.stamps k) [ inl e ↦ inl e | inr l ↦ inr (omega arith) ]

    touch_assign-Ages : s.queue.epoch + 1 < beyond_epoch → Ages s i (step c s i touch_assign go)
    unfolding step
    touch_assign-Ages small =
        let e = s.queue.epoch in
        rw (next_epoch-lem small) (
          leave_map,
          refl,
          tt,
          omega arith,
          omega arith,
          record {
            started = omega (arith, d.started);
            map =
                assign-AllBelow (e + 1) i e (insert i before_epoch s.queue.thread_epoch)
                  (omega arith)
                  (insert-AllBelow (e + 1) i before_epoch s.queue.thread_epoch (omega arith)
                    (AllBelow-mono e (e + 1) s.queue.thread_epoch (omega arith) d.map));
            stamps = older (e + 1) (omega arith);
          },
        )

    register_epoch-Ages :
        (op : Op A)
        → s.queue.epoch + 1 < beyond_epoch
        → Ages s i (step c s i (register_epoch op) go)
    unfolding step
    register_epoch-Ages op small =
        let e = s.queue.epoch in
        let fresh : (e == beyond_epoch) ≡ false = ground arith in
        rw (next_epoch-lem small, fresh)
          (
            register_lock op e,
            refl,
            omega arith,
            omega arith,
            omega arith,
            record {
              started = omega (arith, d.started);
              map = AllBelow-mono e (e + 1) s.queue.thread_epoch (omega arith) d.map;
              stamps = older (e + 1) (omega arith);
            },
          )

    stamp-Ages :
        (epoch head first : ℕ)
        → epoch < s.queue.epoch
        → Ages s i (step c s i (dequeue_stamp epoch head first) go)
    unfolding step
    stamp-Ages epoch head first g = (
      dequeue_push epoch head,
      refl,
      g,
      omega arith,
      omega arith,
      record {
        started = d.started;
        map = d.map;
        stamps = λ k. elim (ℕ_discrete k first) [
          | yes p ↦ inr (ground arith)
          | no p ↦ ground (arith, d.stamps k)
        ];
      },
    )

    step-Ages :
        (p : Pc A) (a : Act A)
        → s.queue.epoch + 1 < beyond_epoch
        → Dated s.queue.epoch p
        → Ages s i (step c s i p a)
    unfolding step begin
    step-Ages touch_assign a small g = touch_assign-Ages small
    step-Ages (register_epoch op) a small g = register_epoch-Ages op small
    step-Ages (dequeue_stamp epoch head first) a small g = stamp-Ages epoch head first g
    step-Ages escape_erase a small g =
        maps (erase i s.queue.thread_epoch) leave_map tt
          (erase-AllBelow s.queue.epoch i s.queue.thread_epoch d.map)
    step-Ages (register_insert op epoch) a small g =
        maps (insert i before_epoch s.queue.thread_epoch) (register_unlock op epoch) g
          (insert-AllBelow s.queue.epoch i before_epoch s.queue.thread_epoch d.started d.map)
    step-Ages (finish epoch) a small g =
        maps (assign i epoch s.queue.thread_epoch) idle tt
          (assign-AllBelow s.queue.epoch i epoch s.queue.thread_epoch g d.map)
    step-Ages (enqueue_link v epoch tail) a small g =
        link_after-Ages v epoch tail (s.queue.next tail) g
    step-Ages (dequeue_exchange epoch head first) a small g =
        elim (Bool-cases (s.queue.head == head)) [
          | inl same ↦ rw same (stays _ (dequeue_stamp epoch head first) g refl refl refl)
          | inr moved ↦ rw moved (stays s.queue (dequeue_loop epoch) g refl refl refl)
        ]
    step-Ages (aborted op) a small g = absurd g
    step-Ages idle (call_enqueue v) small g = stays _ _ (ground arith) refl refl refl
    step-Ages idle call_dequeue small g = stays _ _ (ground arith) refl refl refl
    step-Ages idle call_purge small g = stays _ _ (ground arith) refl refl refl
    step-Ages idle call_touch small g = stays _ _ (ground arith) refl refl refl
    step-Ages idle call_escape small g = stays _ _ (ground arith) refl refl refl
    step-Ages idle call_shutdown small g = stays _ _ (ground arith) refl refl refl
    step-Ages idle call_stop small g = stays _ _ (ground arith) refl refl refl
    step-Ages idle go small g = stays _ _ tt refl refl refl
    step-Ages (register_unlock (put v) epoch) a small g = stays _ _ g refl refl refl
    step-Ages (register_unlock take epoch) a small g = stays _ _ g refl refl refl
    step-Ages (purge_map_unlock r none) a small g = stays _ _ tt refl refl refl
    step-Ages (purge_map_unlock r (some m)) a small g = stays _ _ tt refl refl refl
    step-Ages (purge_list r bound) a small g =
        stays _ _ (skip_on-Dated s.queue s.queue.epoch r bound c.skip_first none s.queue.deleted)
          refl refl refl
    step-Ages (purge_skip r bound count current) a small g =
        stays _ _
          (skip_on-Dated s.queue s.queue.epoch r bound count (some current)
            (s.queue.next_deleted current))
          refl refl refl
    step-Ages (purge_keep r bound last current next) a small g =
        stays _ _ (sweep_on-Dated s.queue s.queue.epoch r bound current next) refl refl refl
    step-Ages (purge_delete r bound last current next) a small g =
        stays _ _ (sweep_on-Dated s.queue s.queue.epoch r bound last next) refl refl refl
    step-Ages (purge_unlock to_caller) a small g = stays _ _ tt refl refl refl
    step-Ages (purge_unlock to_dequeue) a small g = stays _ _ tt refl refl refl
    step-Ages (purge_unlock to_cleaner) a small g = stays _ _ tt refl refl refl
    step-Ages (reset_counter to_caller) a small g = stays _ _ tt refl refl refl
    step-Ages (reset_counter to_dequeue) a small g = stays _ _ tt refl refl refl
    step-Ages (reset_counter to_cleaner) a small g = stays _ _ tt refl refl refl
    step-Ages (enqueue_next v epoch tail) a small g = stays _ _ (ground arith) refl refl refl
    step-Ages (dequeue_next epoch head) a small g = stays _ _ (ground arith) refl refl refl
    step-Ages _ a small g = stays _ _ (ground arith) refl refl refl

  -- The queue and all threads.
  pub record IsYoung (s : System A) : Type 0 where
    pub dates : IsDated s.queue
    pub threads : (i : ℕ) → Dated s.queue.epoch (s.pc i)

  module _ (c : Config) where
    pub start-IsYoung : IsYoung (start c)
    unfolding start new_queue
    start-IsYoung = record {
      dates = record { started = omega arith; map = tt; stamps = λ k. inl refl };
      threads = λ i. ground arith;
    }

    -- A schedule that is too short for the epoch to reach its largest value.
    pub run-IsYoung :
        (s : System A) (xs : List (ℕ × Act A))
        → s.queue.epoch + length xs < beyond_epoch
        → IsYoung s
        → IsYoung (run c s xs) × ((run c s xs).queue.epoch ≤ s.queue.epoch + length xs)
    unfolding run
    run-IsYoung s [] small ok = (ok, omega arith)
    run-IsYoung s ((i, a) ∷ xs) small ok =
        let (p', e, g, up, one, d) =
          step-Ages c s i ok.dates (s.pc i) a (omega arith) (ok.threads i) in
        let t = step c s i (s.pc i) a in
        let young : IsYoung t = record {
          dates = d;
          threads = λ j. elim (ℕ_discrete j i) [
            | yes p ↦ rw (e, p) (ground (arith, g))
            | no p ↦
                rw e (
                  ground (arith, Dated-mono s.queue.epoch t.queue.epoch (s.pc j) up (ok.threads j)))
          ];
        } in
        let (ih, bound) = run-IsYoung t xs (omega arith) young in (ih, omega arith)
