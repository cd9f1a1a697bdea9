-- ===== src/Epoch/Destroy.antt =====
-- include/xtxn/mpmc_queue.hpp: the destructor.
use fast_mpmc_queue.Prelude.{
  ℕ, ◌≤◌, ◌<◌, ◌≡◌, ◌≢◌, refl, ap, ◌∙◌, Bool, true, false, not, ◌&&◌, ◌||◌, arith, ◌==◌, ltb, leb,
  if◌then◌else◌, Option, none, some, List,
}
use fast_mpmc_queue.Nodes.{has, Distinct, Chained}
use fast_mpmc_queue.Nodes.Destroy.{destroy_nodes, destroy_nodes_lem, length-Distinct, Chained-Below}
use fast_mpmc_queue.Epoch.{Config, beyond_epoch, Queue, Act, System}
use fast_mpmc_queue.Epoch.Machine.{start, run}
use fast_mpmc_queue.Epoch.Invariant.{IsSound, start-IsSound, run-IsSound}

module _ {ℓ} {A : Type ℓ} where
  -- The queue after `stop()` and the deletions.
  abbrev ended : Queue A → Option (ℕ → Bool) → Option (Queue A)
  ended q none = none
  ended q (some f) = some (record q { producing = false; consuming = false; freed = f })

  unlocked : (b : Bool) (x : Option (Queue A)) → b ≡ false → (if b then none else x) ≡ x
  unlocked b x e = rw e refl

  -- `stop()`, the lock, and the deletions, with a round of each loop for every node that was ever
  -- linked. There is no result if `m_purge_sl` is taken, or if a node is deleted a second time.
  pub destroy : Queue A → Option (Queue A)
  destroy q =
      let marked = λ (k : ℕ). not (q.deleted_at k == beyond_epoch) in
      let all = destroy_nodes q.next q.next_deleted marked q.allocated q.head q.deleted q.freed in
      if q.purge_sl then none else ended q all

  destroy_sound :
      (s : System A) (ks : List ℕ)
      → IsSound s
      → s.queue.purge_sl ≡ false
      → Chained s.queue.next_deleted s.queue.deleted ks
      → Distinct ks
      → ((j : ℕ) → has j ks ≡ true → s.queue.freed j ≡ false)
      → (r : Queue A) × (destroy s.queue ≡ some r)
        × ((j : ℕ)
            → r.freed j
              ≡ (s.queue.freed j || has j ks || (leb s.queue.head j && ltb j s.queue.allocated)))
  unfolding destroy
  destroy_sound s ks ok free ch d unfreed =
      let q = s.queue in
      let marked = λ (k : ℕ). not (q.deleted_at k == beyond_epoch) in
      let low =
        Chained-Below q.head q.next_deleted q.deleted ks ok.shape.listed ok.shape.chained ch in
      let few = length-Distinct q.head ks d low in
      let (f, e, spec) =
        destroy_nodes_lem q.next q.next_deleted marked q.allocated q.head q.deleted q.freed ks
          ok.nodes.inside ok.nodes.links (λ j l. unmarked j l (ok.shape.stamped j)) ok.shape.behind
          (omega (arith, few, ok.nodes.inside)) ch d (λ j l. (low j l, unfreed j l)) in
      (
        record q { producing = false; consuming = false; freed = f },
        unlocked q.purge_sl _ free ∙ ap (ended q) e,
        spec,
      )
    where
      unmarked :
          (j : ℕ)
          → s.queue.head < j
          → (s.queue.deleted_at j ≢ beyond_epoch → j ≤ s.queue.head)
          → not (s.queue.deleted_at j == beyond_epoch) ≡ false
      unmarked j l h = ground arith

-- For all parameters of the class, after a schedule that leaves `m_purge_sl` free: if the list of the
-- nodes that wait for deletion repeats none of its nodes and has no deleted one, then the destructor
-- ends, deletes no node a second time, and after it the deleted nodes are those that were deleted
-- before, those of the list, and all from the head on.
pub destroy-no_double {ℓ} :
    {A : Type ℓ} (c : Config) (schedule : List (ℕ × Act A)) (ks : List ℕ)
    → let s = run c (start c) schedule in
      s.queue.purge_sl ≡ false
      → Chained s.queue.next_deleted s.queue.deleted ks
      → Distinct ks
      → ((j : ℕ) → has j ks ≡ true → s.queue.freed j ≡ false)
      → (r : Queue A) × (destroy s.queue ≡ some r)
        × ((j : ℕ)
            → r.freed j
              ≡ (s.queue.freed j || has j ks || (leb s.queue.head j && ltb j s.queue.allocated)))
destroy-no_double c schedule ks free ch d unfreed =
    let s = run c (start c) schedule in
    destroy_sound s ks (run-IsSound c (start c) schedule (start-IsSound c)) free ch d unfreed
