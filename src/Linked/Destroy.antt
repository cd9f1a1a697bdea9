-- ===== src/Linked/Destroy.antt =====
-- The destructors of the linked queues, and what `empty` tells of a queue at rest.
use fast_mpmc_queue.Prelude.{
  ℕ, zero, suc, ◌+◌, ◌-◌, ◌≤◌, ◌<◌, ◌≡◌, ◌≢◌, refl, ap, ◌∙◌, Bool, true, false, arith,
  if◌then◌else◌, Option, none, some, List, ◌++◌, update,
}
use fast_mpmc_queue.Linked.{Queue, Pc, idle, Act, System, start, run, is_legal, empty}
use fast_mpmc_queue.Spinlock.{try_lock}
use fast_mpmc_queue.Linked.Steps.{in_lock}
use fast_mpmc_queue.Nodes.{waiting, waiting-zero, pointers}
use fast_mpmc_queue.Linked.Chain.{tail_open, link_of}
use fast_mpmc_queue.Linked.Invariant.{IsSound, start-IsSound, run-IsSound}

module _ {ℓ} {A : Type ℓ} where
  -- `while (current) { next = current->m_next; delete current; current = next; }` on fuel. There is
  -- no result if the fuel runs out, or if a node is deleted that has been deleted before.
  destroy_loop : ℕ → Queue A → Option ℕ → Option (Queue A)
  destroy_loop fuel q none = some q
  destroy_loop zero q (some k) = none
  destroy_loop (suc fuel) q (some k) =
      let rest = destroy_loop fuel (record q { deleted = update q.deleted k true }) (q.next k) in
      if q.deleted k then none else rest

  -- The loop from the head. There is a round for each node that the queue has taken in since the head,
  -- and for the head.
  destroy_nodes : Queue A → Option (Queue A)
  unfolding destroy_loop
  destroy_nodes q = destroy_loop (suc (q.tail - q.head)) q (some q.head)

  -- The destructor: `stop()`, the spinlock where there is one, then the loop. With no thread left that
  -- could unlock it, a lock that is held is waited for without end: there is no result.
  pub destroy : (locked : Bool) → Queue A → Option (Queue A)
  unfolding destroy_nodes
  destroy locked q =
      let (flag, got) = try_lock q.spinlock in
      let stopped : Queue A = record q { producing = false; consuming = false } in
      let all = destroy_nodes stopped in
      let all_locked = destroy_nodes (record stopped { spinlock = flag }) in
      if locked then (if got then all_locked else none) else all

  -- A stretch of linked nodes, none of them deleted, is deleted by a round for each node.
  destroy_loop_lem :
      (count : ℕ) (q : Queue A) (first : ℕ)
      → ((k : ℕ) → first ≤ k → k < first + count → q.next k ≡ some (suc k))
      → q.next (first + count) ≡ none
      → ((k : ℕ) → first ≤ k → q.deleted k ≡ false)
      → (r : Queue A) × (destroy_loop (suc count) q (some first) ≡ some r)
        × ((k : ℕ) → k < first → r.deleted k ≡ q.deleted k)
        × ((k : ℕ) → first ≤ k → k ≤ first + count → r.deleted k ≡ true)
        × ((k : ℕ) → first + count < k → r.deleted k ≡ q.deleted k)
  unfolding destroy_loop
  destroy_loop_lem zero q first linked open_end alive = (
    record q { deleted = update q.deleted first true },
    ground (arith, alive first),
    λ k h. ground arith,
    λ k l h. ground arith,
    λ k h. ground arith,
  )
  destroy_loop_lem (suc count) q first linked open_end alive =
      let q' : Queue A = record q { deleted = update q.deleted first true } in
      let (r, e, below, within, above) =
        destroy_loop_lem count q' (suc first) (λ k l h. linked k (omega arith) (omega arith))
          (rw (next_node count) at open_end) (λ k l. ground (arith, alive k)) in
      (
        r,
        rw (alive first (omega arith), linked first (omega arith) (omega arith)) e,
        λ k h. ground (arith, below k),
        λ k l h. ground (arith, below k, within k),
        λ k h. ground (arith, above k),
      )
    where
      next_node : (count : ℕ) → first + suc count ≡ suc first + count
      next_node count = omega arith

  -- All threads at rest.
  abbrev pub AtRest : System A → Type ℓ
  AtRest s = (i : ℕ) → s.pc i ≡ idle

  -- The chain has no gap when all threads are at rest.
  all_linked :
      {locked : Bool} (s : System A)
      → IsSound locked s
      → AtRest s
      → (k : ℕ) → s.queue.head ≤ k
      → k < s.queue.tail
      → s.queue.next k ≡ some (suc k)
  all_linked s ok rest k lo hi =
      closed (s.queue.next k)
        (λ e. let (i, f) = ok.whole k lo hi e in absurd (idle_links (s.pc i) (rest i) f))
        (λ j e. (ok.chain.link k j e).0)
    where
      idle_links : (p : Pc A) → p ≡ idle → link_of p ≢ some k
      idle_links p e f = cc

      closed : (x : Option ℕ) → x ≢ none → ((j : ℕ) → x ≡ some j → j ≡ suc k) → x ≡ some (suc k)
      closed none h g = absurd (h refl)
      closed (some j) h g = ap some (g j refl)

  -- What the loop leaves, when it ends.
  abbrev AllDeleted : (tail : ℕ) → Option (Queue A) → Type ℓ
  AllDeleted tail out =
      (r : Queue A) × (out ≡ some r)
      × ((k : ℕ) → k ≤ tail → r.deleted k ≡ true)
      × ((k : ℕ) → tail < k → r.deleted k ≡ false)

  destroy_nodes_lem :
      {locked : Bool} (s : System A) (flag : Bool)
      → IsSound locked s
      → AtRest s
      → AllDeleted s.queue.tail
          (destroy_nodes (record s.queue { producing = false; consuming = false; spinlock = flag }))
  unfolding destroy_nodes
  destroy_nodes_lem s flag ok rest =
      let q : Queue A = record s.queue { producing = false; consuming = false; spinlock = flag } in
      let count = q.tail - q.head in
      let last : q.head + count ≡ q.tail = omega (arith, ok.chain.order) in
      let (r, e, below, within, above) =
        destroy_loop_lem count q q.head (λ k l h. all_linked s ok rest k l (omega (arith, last)))
          (rw last (tail_open ok.chain)) ok.chain.alive in
      (
        r,
        e,
        λ k h. ground (arith, last, below k, within k, ok.chain.gone k),
        λ k h. ground (arith, last, above k, ok.chain.alive k, ok.chain.order),
      )

  -- A thread at rest is outside the lock, so the lock is free.
  lock_free : (s : System A) → IsSound true s → AtRest s → s.queue.spinlock ≡ false
  lock_free s ok rest =
      free_unless s.queue.spinlock
        λ e. let (i, h) = (ok.owned refl).owner e in outside (s.pc i) (rest i) h
    where
      outside : (p : Pc A) → p ≡ idle → in_lock p ≢ true
      outside p e h = cc

      free_unless : (flag : Bool) → flag ≢ true → flag ≡ false
      free_unless flag h = ground arith

  destroy_lem :
      (locked : Bool) (s : System A)
      → IsSound locked s
      → AtRest s
      → AllDeleted s.queue.tail (destroy locked s.queue)
  unfolding destroy
  destroy_lem true s ok rest = rw (lock_free s ok rest) (destroy_nodes_lem s true ok rest)
  destroy_lem false s ok rest = destroy_nodes_lem s s.queue.spinlock ok rest

  module _ (locked : Bool) (schedule : List (ℕ × Act A))
      (legal : is_legal locked schedule ≡ true) where
    sound : IsSound locked (run locked start schedule)
    sound = run-IsSound locked start schedule legal (start-IsSound locked)

    -- With a lock, or with no other thread than thread 0 calling `dequeue`: after a schedule that
    -- leaves all threads at rest, the destructor gets the lock, where there is one, and ends; it
    -- deletes no node a second time, and after it
    -- the nodes that were ever in the queue, and no others, are deleted.
    pub destroy_all :
        let s = run locked start schedule in
        AtRest s
        → (r : Queue A) × (destroy locked s.queue ≡ some r)
          × ((k : ℕ) → k ≤ s.queue.tail → r.deleted k ≡ true)
          × ((k : ℕ) → s.queue.tail < k → r.deleted k ≡ false)
    destroy_all rest = destroy_lem locked (run locked start schedule) sound rest

    -- With a lock, or with no other thread than thread 0 calling `dequeue`: if `empty()` answers true
    -- after a schedule that leaves all threads at rest, `dequeue` has returned all that entered the
    -- queue, in the same order.
    pub empty-all_dequeued :
        let s = run locked start schedule in
        AtRest s → empty s.queue ≡ true → pointers s.enqueued ≡ s.dequeued
    empty-all_dequeued rest e =
        let s = run locked start schedule in
        let none_waits : s.queue.tail - s.queue.head ≡ 0 =
          at_tail s (all_linked s sound rest s.queue.head (omega arith)) e in
        sound.chain.fifo
        ∙ ap (λ c. waiting s.queue.data_of s.queue.head c ++ s.dequeued) none_waits
        ∙ ap (λ l. l ++ s.dequeued) (waiting-zero s.queue.data_of s.queue.head)
      where
        at_tail :
            (s : System A)
            → (s.queue.head < s.queue.tail → s.queue.next s.queue.head ≡ some (suc s.queue.head))
            → empty s.queue ≡ true
            → s.queue.tail - s.queue.head ≡ 0
        at_tail s linked e = ground (arith, linked)
