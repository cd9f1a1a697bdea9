-- ===== src/Epoch.antt =====
-- include/xtxn/mpmc_queue.hpp: a queue of linked nodes whose deletion waits for an epoch. This file has
-- the state of the queue, of its map from threads to epochs, and of its threads.
pub mod Register
pub mod Transfer
pub mod Purge
pub mod Machine
pub mod Account
pub mod Balance
pub mod Order
pub mod Moves
pub mod Invariant
pub mod Locks
pub mod Epochs
pub mod Ages
pub mod Sweep
pub mod Retain
pub mod Safety
pub mod Destroy
mod Tests
use fast_mpmc_queue.Prelude.{
  ℕ, zero, suc, ◌-◌, ◌^◌, Bool, true, false, ltb, ◌==◌, if◌then◌else◌, Option, none, some, List, [],
  ◌∷◌, ℤ,
}

-- The parameters C, H and S of the class.
pub record Config : Type 0 where
  pub purge_counter : ℕ
  pub purge_thread : Bool
  pub skip_first : ℕ

abbrev pub before_epoch : ℕ
before_epoch = 0

abbrev pub beyond_epoch : ℕ
beyond_epoch = 2 ^ 64 - 1

-- A node is named by its place in the order in which the nodes are linked.
pub record Queue {ℓ} (A : Type ℓ) : Type ℓ where
  pub head : ℕ
  pub tail : ℕ
  pub deleted : Option ℕ  -- the first of the nodes that wait for deletion
  pub purge_counter : ℤ
  pub epoch : ℕ
  pub purge_sl : Bool
  pub epoch_sl : Bool
  pub thread_epoch : List (ℕ × ℕ)
  pub producing : Bool
  pub consuming : Bool
  pub allocated : ℕ
  pub next : ℕ → Option ℕ
  pub next_deleted : ℕ → Option ℕ
  pub deleted_at : ℕ → ℕ
  pub data_of : ℕ → Option A
  pub freed : ℕ → Bool  -- `delete` has been called

-- `m_thread_epoch` is a list of threads and epochs, a thread at most once. An element that `insert`
-- finds stays as it is.
unfoldable pub insert : (thread epoch : ℕ) → List (ℕ × ℕ) → List (ℕ × ℕ)
insert thread epoch [] = (thread, epoch) ∷ []
insert thread epoch ((i, e) ∷ xs) =
    let rest = insert thread epoch xs in if i == thread then (i, e) ∷ xs else (i, e) ∷ rest

-- An assignment to the element of a thread; nothing, if it has been erased.
unfoldable pub assign : (thread epoch : ℕ) → List (ℕ × ℕ) → List (ℕ × ℕ)
assign thread epoch [] = []
assign thread epoch ((i, e) ∷ xs) =
    let rest = assign thread epoch xs in if i == thread then (i, epoch) ∷ xs else (i, e) ∷ rest

unfoldable pub erase : (thread : ℕ) → List (ℕ × ℕ) → List (ℕ × ℕ)
erase thread [] = []
erase thread ((i, e) ∷ xs) =
    let rest = erase thread xs in if i == thread then rest else (i, e) ∷ rest

-- `std::ranges::min_element` by the second component.
unfoldable pub min_epoch : List (ℕ × ℕ) → Option ℕ
min_epoch [] = none
min_epoch ((i, e) ∷ xs) = elim (min_epoch xs) [
  | none ↦ some e
  | some m ↦ some (if ltb m e then m else e)
]

-- What a thread does once it has an epoch.
pub data Op {ℓ} (A : Type ℓ) : Type ℓ where
  put : A → Op A
  take : Op A

-- Where `purge` returns to: the caller of the class, `dequeue`, or the purge thread.
pub data Return : Type 0 where
  to_caller : Return
  to_dequeue : Return
  to_cleaner : Return

-- Where a thread stands: the access that it makes next.
pub data Pc {ℓ} (A : Type ℓ) : Type ℓ where
  idle : Pc A
  aborted : Op A → Pc A  -- an assertion has failed in the call
  construct_producing : Pc A
  construct_consuming : Pc A
  stopping : Pc A
  touch_lock : Pc A
  touch_assign : Pc A
  escape_lock : Pc A
  escape_erase : Pc A
  leave_map : Pc A  -- the release of `m_epoch_sl` in `touch` and `escape`
  register_epoch : Op A → Pc A
  register_lock : Op A → (epoch : ℕ) → Pc A
  register_insert : Op A → (epoch : ℕ) → Pc A
  register_unlock : Op A → (epoch : ℕ) → Pc A
  finish : (epoch : ℕ) → Pc A  -- `*thread_epoch = epoch`
  enqueue_test : A → Pc A
  enqueue_loop : A → (epoch : ℕ) → Pc A
  enqueue_tail : A → (epoch : ℕ) → Pc A
  enqueue_next : A → (epoch tail : ℕ) → Pc A
  enqueue_advance : A → (epoch next : ℕ) → Pc A
  enqueue_link : A → (epoch tail : ℕ) → Pc A  -- the compare-exchange
  enqueue_swing : (epoch new_node : ℕ) → Pc A  -- `m_tail.store(new_node)`
  dequeue_count : Pc A
  dequeue_loop : (epoch : ℕ) → Pc A
  dequeue_head : (epoch : ℕ) → Pc A
  dequeue_next : (epoch head : ℕ) → Pc A
  dequeue_tail : (epoch head first : ℕ) → Pc A
  dequeue_advance : (epoch head first : ℕ) → Pc A
  dequeue_test : (epoch head first : ℕ) → Pc A
  dequeue_exchange : (epoch head first : ℕ) → Pc A
  dequeue_stamp : (epoch head first : ℕ) → Pc A
  dequeue_push : (epoch head : ℕ) → Pc A  -- `m_deleted.exchange(head)`
  dequeue_store : (epoch head : ℕ) (old : Option ℕ) → Pc A
  purge_lock : Return → Pc A
  purge_epoch : Return → Pc A
  purge_map_lock : Return → (bound : ℕ) → Pc A
  purge_min : Return → (bound : ℕ) → Pc A
  purge_map_unlock : Return → (bound : Option ℕ) → Pc A
  purge_list : Return → (bound : ℕ) → Pc A
  purge_skip : Return → (bound count current : ℕ) → Pc A
  purge_next : Return → (bound last current : ℕ) → Pc A
  purge_at : Return → (bound last current : ℕ) (next : Option ℕ) → Pc A
  purge_keep : Return → (bound last current : ℕ) (next : Option ℕ) → Pc A
  purge_delete : Return → (bound last current : ℕ) (next : Option ℕ) → Pc A
  purge_end : Return → (last : ℕ) → Pc A
  purge_unlock : Return → Pc A
  reset_counter : Return → Pc A
  cleaner_loop : Pc A
  cleaner_count : Pc A
  cleaner_yield : Pc A

pub data Act {ℓ} (A : Type ℓ) : Type ℓ where
  go : Act A
  call_enqueue : A → Act A
  call_dequeue : Act A
  call_purge : Act A
  call_touch : Act A
  call_escape : Act A
  call_shutdown : Act A
  call_stop : Act A

-- The queue and its threads; whether the constructor has returned; and what has entered the queue and
-- what `dequeue` has taken from it, the newest first.
pub record System {ℓ} (A : Type ℓ) : Type ℓ where
  pub queue : Queue A
  pub pc : ℕ → Pc A
  pub is_built : Bool
  pub enqueued : List A
  pub dequeued : List (Option A)
  pub called : List A
  pub refused : List A
  pub leaked : List A
