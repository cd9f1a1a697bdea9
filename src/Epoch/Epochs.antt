-- ===== src/Epoch/Epochs.antt =====
-- The epochs of mpmc_queue: the values of `m_epoch`, of the map of threads, and of `m_deleted_at`.
use fast_mpmc_queue.Prelude.{
  ℕ, zero, suc, ◌≤◌, ◌<◌, ◌≡◌, ◌⊎◌, arith, Option, none, some, List, [], ◌∷◌,
}
use fast_mpmc_queue.Epoch.{
  before_epoch, beyond_epoch, insert, assign, erase, Queue, Return, Pc, aborted, register_lock,
  register_insert, register_unlock, finish, enqueue_loop, enqueue_tail, enqueue_next,
  enqueue_advance, enqueue_link, enqueue_swing, dequeue_loop, dequeue_head, dequeue_next,
  dequeue_tail, dequeue_advance, dequeue_test, dequeue_exchange, dequeue_stamp, dequeue_push,
  dequeue_store,
}
use fast_mpmc_queue.Epoch.Purge.{sweep_on, skip_on}

-- All epochs of the map are below a bound.
abbrev pub AllBelow : ℕ → List (ℕ × ℕ) → Type 0
AllBelow n [] = Unit
AllBelow n ((i, e) ∷ xs) = (e < n) × AllBelow n xs

pub AllBelow-mono : (n m : ℕ) (xs : List (ℕ × ℕ)) → n ≤ m → AllBelow n xs → AllBelow m xs
AllBelow-mono n m [] h g = tt
AllBelow-mono n m ((i, e) ∷ xs) h g = (omega (arith, g.0), AllBelow-mono n m xs h g.1)

pub insert-AllBelow :
    (n i e : ℕ) (xs : List (ℕ × ℕ)) → e < n → AllBelow n xs → AllBelow n (insert i e xs)
unfolding insert
insert-AllBelow n i e [] h g = (h, tt)
insert-AllBelow n i e ((j, f) ∷ xs) h g = ground (arith, insert-AllBelow n i e xs h g.1)

pub assign-AllBelow :
    (n i e : ℕ) (xs : List (ℕ × ℕ)) → e < n → AllBelow n xs → AllBelow n (assign i e xs)
unfolding assign
assign-AllBelow n i e [] h g = tt
assign-AllBelow n i e ((j, f) ∷ xs) h g = ground (arith, assign-AllBelow n i e xs h g.1)

pub erase-AllBelow : (n i : ℕ) (xs : List (ℕ × ℕ)) → AllBelow n xs → AllBelow n (erase i xs)
unfolding erase
erase-AllBelow n i [] g = tt
erase-AllBelow n i ((j, f) ∷ xs) g = ground (arith, erase-AllBelow n i xs g.1)

module _ {ℓ} {A : Type ℓ} where
  -- The epoch that a thread has taken is below `n`, and it has not met the largest one.
  abbrev pub Dated : (n : ℕ) → Pc A → Type 0
  Dated n (aborted op) = ⊥
  Dated n (register_lock op epoch) = epoch < n
  Dated n (register_insert op epoch) = epoch < n
  Dated n (register_unlock op epoch) = epoch < n
  Dated n (finish epoch) = epoch < n
  Dated n (enqueue_loop v epoch) = epoch < n
  Dated n (enqueue_tail v epoch) = epoch < n
  Dated n (enqueue_next v epoch tail) = epoch < n
  Dated n (enqueue_advance v epoch next) = epoch < n
  Dated n (enqueue_link v epoch tail) = epoch < n
  Dated n (enqueue_swing epoch new_node) = epoch < n
  Dated n (dequeue_loop epoch) = epoch < n
  Dated n (dequeue_head epoch) = epoch < n
  Dated n (dequeue_next epoch head) = epoch < n
  Dated n (dequeue_tail epoch head first) = epoch < n
  Dated n (dequeue_advance epoch head first) = epoch < n
  Dated n (dequeue_test epoch head first) = epoch < n
  Dated n (dequeue_exchange epoch head first) = epoch < n
  Dated n (dequeue_stamp epoch head first) = epoch < n
  Dated n (dequeue_push epoch head) = epoch < n
  Dated n (dequeue_store epoch head old) = epoch < n
  Dated n _ = Unit

  pub Dated-mono : (n m : ℕ) (p : Pc A) → n ≤ m → Dated n p → Dated m p
  Dated-mono n m (register_lock op epoch) h g = omega arith
  Dated-mono n m (register_insert op epoch) h g = omega arith
  Dated-mono n m (register_unlock op epoch) h g = omega arith
  Dated-mono n m (finish epoch) h g = omega arith
  Dated-mono n m (enqueue_loop v epoch) h g = omega arith
  Dated-mono n m (enqueue_tail v epoch) h g = omega arith
  Dated-mono n m (enqueue_next v epoch tail) h g = omega arith
  Dated-mono n m (enqueue_advance v epoch next) h g = omega arith
  Dated-mono n m (enqueue_link v epoch tail) h g = omega arith
  Dated-mono n m (enqueue_swing epoch new_node) h g = omega arith
  Dated-mono n m (dequeue_loop epoch) h g = omega arith
  Dated-mono n m (dequeue_head epoch) h g = omega arith
  Dated-mono n m (dequeue_next epoch head) h g = omega arith
  Dated-mono n m (dequeue_tail epoch head first) h g = omega arith
  Dated-mono n m (dequeue_advance epoch head first) h g = omega arith
  Dated-mono n m (dequeue_test epoch head first) h g = omega arith
  Dated-mono n m (dequeue_exchange epoch head first) h g = omega arith
  Dated-mono n m (dequeue_stamp epoch head first) h g = omega arith
  Dated-mono n m (dequeue_push epoch head) h g = omega arith
  Dated-mono n m (dequeue_store epoch head old) h g = omega arith
  Dated-mono n m (aborted op) h g = g
  Dated-mono n m _ h g = tt

  pub sweep_on-Dated :
      (q : Queue A) (n : ℕ) (r : Return) (bound last : ℕ) (x : Option ℕ)
      → Dated n (sweep_on {A = A} r bound last x)
  sweep_on-Dated q n r bound last none = tt
  sweep_on-Dated q n r bound last (some k) = tt

  pub skip_on-Dated :
      (q : Queue A) (n : ℕ) (r : Return) (bound count : ℕ) (last x : Option ℕ)
      → Dated n (skip_on {A = A} r bound count last x)
  skip_on-Dated q n r bound count none none = tt
  skip_on-Dated q n r bound count (some l) none = tt
  skip_on-Dated q n r bound zero none (some k) = tt
  skip_on-Dated q n r bound zero (some l) (some k) = tt
  skip_on-Dated q n r bound (suc count) last (some k) = tt

  -- The epochs of the queue are below the next one.
  pub record IsDated (q : Queue A) : Type 0 where
    pub started : before_epoch < q.epoch
    pub map : AllBelow q.epoch q.thread_epoch
    pub stamps : (k : ℕ) → (q.deleted_at k ≡ beyond_epoch) ⊎ (q.deleted_at k < q.epoch)
