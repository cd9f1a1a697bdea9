-- ===== src/Deferred/Destroy.antt =====
-- include/xtxn/mpmcdd_queue.hpp: the destructor.
use fast_mpmc_queue.Prelude.{
  ℕ, suc, ◌<◌, ◌≡◌, ◌≢◌, inl, inr, refl, ap, ◌∙◌, Bool, true, false, ◌&&◌, ◌||◌, arith, ◌==◌, ltb,
  leb, if◌then◌else◌, Option, none, some, List, [], ◌∷◌, Bool-cases,
}
use native.Mathlib.Decide.{ℕ_discrete}
use fast_mpmc_queue.Nodes.{has, Distinct, Chained}
use fast_mpmc_queue.Nodes.Destroy.{destroy_nodes, destroy_nodes_lem, length-Distinct, Chained-Below}
use fast_mpmc_queue.Deferred.{Queue, new_queue}
use fast_mpmc_queue.Deferred.Machine.{
  Pc, idle, enqueue_link, dequeue_mark, dequeue_exchange, Act, go, call_enqueue, System, start,
  step, run, begin, link_after,
}
use fast_mpmc_queue.Deferred.Invariant.{IsSound, start-IsSound, step-IsSound, run-IsSound}

module _ {ℓ} {A : Type ℓ} where
  -- A node after the head that is marked is the one that some thread is about to make the head.
  IsClaimed : System A → Type ℓ
  IsClaimed s =
      (k : ℕ)
      → s.queue.head < k
      → s.queue.is_deleted k ≡ true
      → (j : ℕ) × (h : ℕ) × (s.pc j ≡ dequeue_exchange h k)

  module _ (s : System A) (i : ℕ) (ok : IsSound s) (cl : IsClaimed s) where
    link_after-IsClaimed :
        (v : A) (tail : ℕ) (x : Option ℕ)
        → s.pc i ≡ enqueue_link v tail
        → IsClaimed (link_after s i v tail x)
    unfolding link_after IsClaimed
    link_after-IsClaimed v tail none e = λ k l m. let (j, h, f) = cl k l m in (j, h, ground arith)
    link_after-IsClaimed v tail (some n) e =
        λ k l m. let (j, h, f) = cl k l m in (j, h, ground arith)

    mark-IsClaimed :
        (head first : ℕ)
        → s.pc i ≡ dequeue_mark head first
        → IsClaimed (step s i (dequeue_mark head first) go)
    unfolding step IsClaimed
    mark-IsClaimed head first e = λ k l m. elim (Bool-cases (s.queue.is_deleted k)) [
      | inl old ↦ let (j, h, f) = cl k l old in (j, h, ground arith)
      | inr fresh ↦ (i, head, ground arith)
    ]

    exchange-IsClaimed :
        (head first : ℕ)
        → s.pc i ≡ dequeue_exchange head first
        → IsClaimed (step s i (dequeue_exchange head first) go)
    unfolding step IsClaimed
    exchange-IsClaimed head first e =
        let know : (head ≡ s.queue.head)
            × (first ≡ suc head)
            × (first < s.queue.allocated)
            × (s.queue.is_deleted first ≡ true) =
          rw e at (ok.knows i) in
        let same : (s.queue.head == head) ≡ true = ground arith in
        rw same (λ k l m.
          let (j, h, f) = cl k (omega (arith, know)) m in
          (
            j,
            h,
            elim (ℕ_discrete j i) [ yes p ↦ absurd (ground (arith, e)) | no p ↦ ground arith ],
          ))

    step-IsClaimed : (p : Pc A) (a : Act A) → s.pc i ≡ p → IsClaimed (step s i p a)
    unfolding step begin IsClaimed
    step-IsClaimed (enqueue_link v tail) a e = link_after-IsClaimed v tail (s.queue.next tail) e
    step-IsClaimed (dequeue_mark head first) a e = mark-IsClaimed head first e
    step-IsClaimed (dequeue_exchange head first) a e = exchange-IsClaimed head first e
    step-IsClaimed idle (call_enqueue v) e =
        λ k l m. let (j, h, f) = cl k l m in (j, h, ground arith)
    step-IsClaimed idle _ e = λ k l m. let (j, h, f) = cl k l m in (j, h, ground arith)
    step-IsClaimed _ a e = λ k l m. let (j, h, f) = cl k l m in (j, h, ground arith)

  run-IsClaimed :
      (s : System A) (xs : List (ℕ × Act A)) → IsSound s → IsClaimed s → IsClaimed (run s xs)
  unfolding run
  run-IsClaimed s [] ok cl = cl
  run-IsClaimed s ((i, a) ∷ xs) ok cl =
      run-IsClaimed (step s i (s.pc i) a) xs (step-IsSound s i a ok)
        (step-IsClaimed s i ok cl (s.pc i) a refl)

  start-IsClaimed : (s : System A) → s ≡ start → IsClaimed s
  unfolding start new_queue IsClaimed
  start-IsClaimed s e = rw e (λ k l m. cc)

  -- The queue after `stop()` and the deletions.
  abbrev ended : Queue A → Option (ℕ → Bool) → Option (Queue A)
  ended q none = none
  ended q (some f) = some (record q { producing = false; consuming = false; freed = f })

  unlocked : (b : Bool) (x : Option (Queue A)) → b ≡ true → (if b then x else none) ≡ x
  unlocked b x e = rw e refl

  -- `stop()`, the red lock, and the deletions, with a round of each loop for every node that was ever
  -- linked. There is no result if a thread holds a green lock, or if a node is deleted a second time.
  pub destroy : System A → Option (Queue A)
  destroy s =
      let q = s.queue in
      let all =
        destroy_nodes q.next q.next_deleted q.is_deleted q.allocated q.head q.deleted q.freed in
      if s.barrier.green_counter == 0 then ended q all else none

  destroy_sound :
      (s : System A) (ks : List ℕ)
      → IsSound s
      → IsClaimed s
      → ((i : ℕ) → s.pc i ≡ idle)
      → s.barrier.green_counter ≡ 0
      → Chained s.queue.next_deleted s.queue.deleted ks
      → Distinct ks
      → ((j : ℕ) → has j ks ≡ true → s.queue.freed j ≡ false)
      → (r : Queue A) × (destroy s ≡ some r)
        × ((j : ℕ)
            → r.freed j
              ≡ (s.queue.freed j || has j ks || (leb s.queue.head j && ltb j s.queue.allocated)))
  unfolding destroy IsClaimed
  destroy_sound s ks ok cl rest green ch d unfreed =
      let q = s.queue in
      let low =
        Chained-Below q.head q.next_deleted q.deleted ks ok.shape.listed ok.shape.chained ch in
      let few = length-Distinct q.head ks d low in
      let (f, e, spec) =
        destroy_nodes_lem q.next q.next_deleted q.is_deleted q.allocated q.head q.deleted q.freed ks
          ok.nodes.inside ok.nodes.links unmarked ok.shape.behind
          (omega (arith, few, ok.nodes.inside)) ch d (λ j l. (low j l, unfreed j l)) in
      let quiet : (s.barrier.green_counter == 0) ≡ true = rw green refl in
      (
        record q { producing = false; consuming = false; freed = f },
        unlocked (s.barrier.green_counter == 0) _ quiet ∙ ap (ended q) e,
        spec,
      )
    where
      not_there : (p : Pc A) (h k : ℕ) → p ≡ idle → p ≢ dequeue_exchange h k
      not_there p h k e f = cc

      unmarked : (k : ℕ) → s.queue.head < k → s.queue.is_deleted k ≡ false
      unmarked k l = elim (Bool-cases (s.queue.is_deleted k)) [
        | inl m ↦ let (j, h, f) = cl k l m in absurd (not_there (s.pc j) h k (rest j) f)
        | inr m ↦ m
      ]

-- After a schedule that leaves all threads at rest and no green lock held: if the list of the nodes
-- that wait for deletion repeats none of its nodes and has no deleted one, then the destructor ends,
-- deletes no node a second time, and after it the deleted nodes are those that were deleted before,
-- those of the list, and all from the head on.
pub destroy-each_once {ℓ} :
    {A : Type ℓ} (schedule : List (ℕ × Act A)) (ks : List ℕ)
    → let s = run start schedule in
      ((i : ℕ) → s.pc i ≡ idle)
      → s.barrier.green_counter ≡ 0
      → Chained s.queue.next_deleted s.queue.deleted ks
      → Distinct ks
      → ((j : ℕ) → has j ks ≡ true → s.queue.freed j ≡ false)
      → (r : Queue A) × (destroy s ≡ some r)
        × ((j : ℕ)
            → r.freed j
              ≡ (s.queue.freed j || has j ks || (leb s.queue.head j && ltb j s.queue.allocated)))
destroy-each_once schedule ks rest green ch d unfreed =
    let s = run start schedule in
    destroy_sound s ks (run-IsSound start schedule start-IsSound)
      (run-IsClaimed start schedule start-IsSound (start-IsClaimed start refl)) rest green ch d
      unfreed
