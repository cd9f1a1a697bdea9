-- ===== src/Deferred/Tests.antt =====
-- Runs of mpmcdd_queue with numbers as payloads.
use fast_mpmc_queue.Prelude.{
  ℕ, ◌≡◌, refl, true, false, Option, none, some, arith, ◌+◌, ◌-◌, ◌<◌, suc, List, [], ◌∷◌, ◌++◌,
  replicate, ◌||◌, ◌&&◌, leb, ltb,
}
use fast_mpmc_queue.Deferred.{Queue, new_queue, purge}
use fast_mpmc_queue.Nodes.{waiting, pointers, has, Chained, weigh}
use fast_mpmc_queue.Deferred.Account.{in_hand}
use fast_mpmc_queue.Deferred.Machine.{
  Act, go, idle, call_enqueue, call_dequeue, call_purge, dequeue_exchange, purge_delete, start,
  step, run, begin, link_after,
}
use fast_mpmc_queue.Deferred.Destroy.{destroy, destroy-each_once}
use fast_mpmc_queue.Deferred.Safety.{fifo_all, mark_wins, purged_behind, empty, is_enqueuing}
use fast_mpmc_queue.Deferred.Laws.{purge-purge}

abbrev or_same : Option (Queue ℕ) → Queue ℕ
or_same none = new_queue
or_same (some q) = q

-- Two producers whose compare-exchanges cross: the second one finds the node of the first, moves the
-- tail on and links after it.
abbrev two_in : List (ℕ × Act ℕ)
two_in =
    (1, call_enqueue 7) ∷ (2, call_enqueue 8) ∷ replicate 7 (1, go)
    ++ replicate 7 (2, go)
    ++ replicate 2 (1, go)
    ++ replicate 12 (2, go)

-- Thread 3 takes the first payload. Thread 4 finds the tail on the head, moves it on, and stands before
-- its exchange of the head.
abbrev one_taken : List (ℕ × Act ℕ)
one_taken = two_in ++ (3, call_dequeue) ∷ replicate 12 (3, go)

abbrev taking : List (ℕ × Act ℕ)
taking = one_taken ++ (4, call_dequeue) ∷ replicate 14 (4, go)

-- Thread 5 purges.
abbrev purging : List (ℕ × Act ℕ)
purging = one_taken ++ (5, call_purge) ∷ replicate 5 (5, go)

two_in-linked : (run start two_in).enqueued ≡ 8 ∷ 7 ∷ []
unfolding run step start begin link_after new_queue
two_in-linked = refl

before_exchange : (run start taking).pc 4 ≡ dequeue_exchange 1 2
unfolding run step start begin link_after new_queue
before_exchange = refl

before_delete : (run start purging).pc 5 ≡ purge_delete 0 none
unfolding run step start begin link_after new_queue
before_delete = refl

mark_wins_example :
    let s = run start taking in
    let t = step s 4 (s.pc 4) go in
    (t.queue.head ≡ 2)
    × (s.queue.next 1 ≡ some 2)
    × (t.dequeued ≡ s.queue.data_of 2 ∷ s.dequeued)
    × ((j h f : ℕ) → s.pc j ≡ dequeue_exchange h f → j ≡ 4)
mark_wins_example = mark_wins taking 4 1 2 go before_exchange

purged_behind_example :
    let s = run start purging in
    (s.queue.freed 0 ≡ true → 0 < s.queue.head)
    × ((i : ℕ) (next : Option ℕ) → s.pc i ≡ purge_delete 0 next → 0 < s.queue.head)
    × (s.queue.producing ≡ true
        → ((i : ℕ) → is_enqueuing (s.pc i) ≡ false)
        → s.queue.freed 0 ≡ true
        → 0 < s.queue.tail)
purged_behind_example = purged_behind purging 0

-- Thread 4 takes the second payload.
abbrev both_taken : List (ℕ × Act ℕ)
both_taken = one_taken ++ (4, call_dequeue) ∷ replicate 18 (4, go)

both_taken-empty : empty (run start both_taken).queue ≡ true
unfolding run step start begin link_after new_queue empty
both_taken-empty = refl

fifo_all_example :
    let s = run start both_taken in
    (pointers s.enqueued
      ≡ waiting s.queue.data_of s.queue.head (s.queue.allocated - suc s.queue.head) ++ s.dequeued)
    × (empty s.queue ≡ true → pointers s.enqueued ≡ s.dequeued)
    × (weigh (λ v. v) s.called
        ≡ weigh (λ v. v) s.enqueued
          + weigh (λ v. v) s.refused
          + weigh (λ v. v) s.leaked
          + in_hand (λ v. v) 5 s.pc)
    × (s.queue.producing ≡ true → (s.refused ≡ []) × (s.leaked ≡ []))
fifo_all_example = fifo_all both_taken 5 (λ v. v) refl

-- Two payloads are in, and one of them is taken out: node 0 waits for deletion, node 1 is the head and
-- node 2 waits for a consumer.
one_taken-rest : (j : ℕ) → (run start one_taken).pc j ≡ idle
unfolding run step start begin link_after new_queue
one_taken-rest j = ground arith

one_taken-green : (run start one_taken).barrier.green_counter ≡ 0
unfolding run step start begin link_after new_queue
one_taken-green = refl

one_taken-list : let q = (run start one_taken).queue in Chained q.next_deleted q.deleted (0 ∷ [])
unfolding run step start begin link_after new_queue
one_taken-list = (refl, refl)

one_taken-unfreed : (j : ℕ) → has j (0 ∷ []) ≡ true → (run start one_taken).queue.freed j ≡ false
unfolding run step start begin link_after new_queue
one_taken-unfreed j h = refl

destroy-each_once_example :
    let s = run start one_taken in
    (r : Queue ℕ) × (destroy s ≡ some r)
    × ((j : ℕ)
        → r.freed j
          ≡ (s.queue.freed j || has j (0 ∷ []) || (leb s.queue.head j && ltb j s.queue.allocated)))
destroy-each_once_example =
    destroy-each_once one_taken (0 ∷ []) one_taken-rest one_taken-green one_taken-list (refl, tt)
      one_taken-unfreed

-- `purge` called twice where node 0 waits for deletion.
abbrev waiting_one : Queue ℕ
waiting_one = (run start one_taken).queue

abbrev purged : Queue ℕ
purged = or_same (purge 4 waiting_one)

purge_goes_through : purge 4 waiting_one ≡ some purged
unfolding run step start begin link_after new_queue purge
purge_goes_through = refl

one_waits : waiting_one.deleted ≡ some 0
unfolding run step start begin link_after new_queue
one_waits = refl

still_consuming : waiting_one.consuming ≡ true
unfolding run step start begin link_after new_queue
still_consuming = refl

purge-purge_example : purge 9 purged ≡ none
purge-purge_example =
    purge-purge 4 9 waiting_one purged 0 still_consuming one_waits purge_goes_through
