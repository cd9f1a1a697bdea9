-- ===== src/Deferred.antt =====
-- include/xtxn/mpmcdd_queue.hpp: a queue of linked nodes whose deletion is deferred. Here stand the
-- queue and `purge` as it runs with no other thread between its accesses; Machine has the threads
-- interleaved.
pub mod Laws
pub mod Machine
pub mod Account
pub mod Order
pub mod Shape
pub mod Invariant
pub mod Tail
pub mod Safety
pub mod Destroy
mod Tests
use fast_mpmc_queue.Prelude.{
  ℕ, zero, suc, ◌+◌, Bool, true, false, ◌==◌, if◌then◌else◌, Option, none, some, update,
}

-- A node is named by its place in the order of allocation.
pub record Queue {ℓ} (A : Type ℓ) : Type ℓ where
  pub head : ℕ
  pub tail : ℕ
  pub deleted : Option ℕ  -- the first of the nodes that wait for deletion
  pub producing : Bool
  pub consuming : Bool
  pub allocated : ℕ
  pub next : ℕ → Option ℕ
  pub next_deleted : ℕ → Option ℕ
  pub is_deleted : ℕ → Bool  -- `m_deleted` of a node
  pub data_of : ℕ → Option A
  pub freed : ℕ → Bool  -- `delete` has been called

unfoldable pub new_queue {ℓ} : {A : Type ℓ} → Queue A
new_queue = record {
  head = 0;
  tail = 0;
  deleted = none;
  producing = true;
  consuming = true;
  allocated = 1;
  next = λ k. none;
  next_deleted = λ k. none;
  is_deleted = λ k. false;
  data_of = λ k. none;
  freed = λ k. false;
}

module _ {ℓ} {A : Type ℓ} where
  -- The loop of `purge` on fuel; no result if the fuel runs out, or if a node is deleted twice.
  unfoldable pub purge_loop : (fuel : ℕ) → Queue A → Option ℕ → Option (Queue A)
  purge_loop fuel q none = some q
  purge_loop zero q (some k) = none
  purge_loop (suc fuel) q (some k) =
      let rest = purge_loop fuel (record q { freed = update q.freed k true }) (q.next_deleted k) in
      if q.consuming then (if q.freed k then none else rest) else some q

  unfoldable pub purge : (fuel : ℕ) → Queue A → Option (Queue A)
  unfolding purge_loop
  purge fuel q = purge_loop fuel q q.deleted
