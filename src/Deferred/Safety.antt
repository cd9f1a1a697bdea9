-- ===== src/Deferred/Safety.antt =====
-- What mpmcdd_queue guarantees after every schedule of its threads.
use fast_mpmc_queue.Prelude.{
  ℕ, suc, ◌+◌, ◌-◌, ◌≤◌, ◌<◌, ◌≡◌, refl, Bool, true, false, arith, ltb, Bool-cases, inl, inr,
  Option, none, some, List, [], ◌∷◌, ◌++◌,
}
use fast_mpmc_queue.Nodes.{waiting, pointers, at_end, is_null, none_of_null, weigh, is_within}
use fast_mpmc_queue.Deferred.Account.{in_hand, run-accounts}
use fast_mpmc_queue.Deferred.{Queue}
use fast_mpmc_queue.Deferred.Machine.{
  Pc, idle, enqueue_loop, enqueue_tail, enqueue_next, enqueue_check, enqueue_advance, enqueue_link,
  dequeue_exchange, purge_delete, Act, start, step, run,
}
use fast_mpmc_queue.Deferred.Invariant.{IsSound, start-IsSound, run-IsSound}
use fast_mpmc_queue.Deferred.Tail.{Walks, start-IsWalked, run-IsWalked}

-- `m_head.load()->m_next.load() == nullptr`
unfoldable pub empty {ℓ} : {A : Type ℓ} → Queue A → Bool
empty q = is_null (q.next q.head)

empty-none {ℓ} : {A : Type ℓ} (q : Queue A) → empty q ≡ true → q.next q.head ≡ none
unfolding empty
empty-none q e = none_of_null (q.next q.head) e

module _ {ℓ} {A : Type ℓ} where
  -- In the loop of `enqueue`.
  abbrev pub is_enqueuing : Pc A → Bool
  is_enqueuing (enqueue_loop v) = true
  is_enqueuing (enqueue_tail v) = true
  is_enqueuing (enqueue_next v tail) = true
  is_enqueuing (enqueue_check v tail next) = true
  is_enqueuing (enqueue_advance v next) = true
  is_enqueuing (enqueue_link v tail) = true
  is_enqueuing _ = false

  Walks-enqueuing : (t : ℕ) (p : Pc A) → Walks t p → is_enqueuing p ≡ true
  Walks-enqueuing t (enqueue_loop v) w = refl
  Walks-enqueuing t (enqueue_tail v) w = refl
  Walks-enqueuing t (enqueue_next v x) w = refl
  Walks-enqueuing t (enqueue_check v x next) w = refl
  Walks-enqueuing t (enqueue_advance v next) w = refl
  Walks-enqueuing t (enqueue_link v x) w = refl
  Walks-enqueuing t idle w = absurd w
  Walks-enqueuing t _ w = absurd w

  module _ (schedule : List (ℕ × Act A)) where
    sound : IsSound (run start schedule)
    sound = run-IsSound start schedule start-IsSound

    -- Where a node that has been deleted keeps its members: after every schedule of calls to
    -- `enqueue`, `dequeue`, `purge`, `shutdown` and `stop` by `n` threads, the pointers that entered
    -- the queue, in the order of the compare-exchanges that linked their nodes, are the pointers that
    -- `dequeue` has moved out, in that order, and then those of the nodes after the head. So the queue
    -- is first-in first-out, and repeats and invents nothing; and if `empty()` answers true, all that
    -- entered has been moved out. The payloads that `enqueue` was called with are, by every weight,
    -- those that entered, those of the calls that returned false, those that `enqueue` dropped since
    -- its loop found `m_producing` clear, and those that threads inside `enqueue` have not linked
    -- yet; as long as producing is enabled, none is refused and none is dropped.
    pub fifo_all :
        (n : ℕ) (w : A → ℕ)
        → is_within n schedule ≡ true
        → let s = run start schedule in
          (pointers s.enqueued
            ≡ waiting s.queue.data_of s.queue.head (s.queue.allocated - suc s.queue.head)
              ++ s.dequeued)
          × (empty s.queue ≡ true → pointers s.enqueued ≡ s.dequeued)
          × (weigh w s.called
              ≡ weigh w s.enqueued + weigh w s.refused + weigh w s.leaked + in_hand w n s.pc)
          × (s.queue.producing ≡ true → (s.refused ≡ []) × (s.leaked ≡ []))
    fifo_all n w within =
        let s = run start schedule in
        let (balanced, on) = run-accounts w n schedule within in
        (sound.nodes.fifo, λ e. at_end sound.nodes (empty-none s.queue e), balanced, on)

    -- After every schedule, if a thread has marked the node after `head` and comes to its
    -- compare-exchange of `m_head`, then no other thread is there, the exchange succeeds, and the
    -- thread takes the pointer of the node that it has marked.
    pub mark_wins :
        (i head first : ℕ) (a : Act A)
        → let s = run start schedule in
          s.pc i ≡ dequeue_exchange head first
          → let t = step s i (s.pc i) a in
            (t.queue.head ≡ first)
            × (s.queue.next head ≡ some first)
            × (t.dequeued ≡ s.queue.data_of first ∷ s.dequeued)
            × ((j h f : ℕ) → s.pc j ≡ dequeue_exchange h f → j ≡ i)
    unfolding step
    mark_wins i head first a e =
        let s = run start schedule in
        let k : (head ≡ s.queue.head)
            × (first ≡ suc head)
            × (first < s.queue.allocated)
            × (s.queue.is_deleted first ≡ true) =
          rw e at (sound.knows i) in
        (
          rw e (ground arith),
          ground (arith, sound.nodes.links head),
          rw e (ground arith),
          λ j h f g. sound.one j i (rw g refl) (rw e refl),
        )

    -- After every schedule, a node that `purge` has deleted, and one that it is about to delete, is
    -- behind the node that `m_head` points to; and if producing is enabled and no thread is in the
    -- loop of `enqueue`, it is behind the one that `m_tail` points to.
    pub purged_behind :
        let s = run start schedule in
        (k : ℕ)
        → (s.queue.freed k ≡ true → k < s.queue.head)
          × ((i : ℕ) (next : Option ℕ) → s.pc i ≡ purge_delete k next → k < s.queue.head)
          × (s.queue.producing ≡ true
              → ((i : ℕ) → is_enqueuing (s.pc i) ≡ false)
              → s.queue.freed k ≡ true
              → k < s.queue.tail)
    purged_behind k =
        let s = run start schedule in
        let walked = run-IsWalked start schedule start-IsSound start-IsWalked in
        (
          sound.shape.behind k,
          λ i next e. (rw e at (sound.knows i)).0,
          λ on quiet f.
              let away : s.queue.head ≤ s.queue.tail =
                elim (Bool-cases (ltb s.queue.tail s.queue.head)) [
                  | inl h ↦
                      let walks = walked.behind on (ground arith) in
                      absurd (
                        ground
                          (arith, Walks-enqueuing s.queue.tail (s.pc s.mover) walks, quiet s.mover))
                  | inr h ↦ ground arith
                ] in
              omega (arith, sound.shape.behind k f),
        )
