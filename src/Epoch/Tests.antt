-- ===== src/Epoch/Tests.antt =====
-- Runs of mpmc_queue with numbers as payloads.
use fast_mpmc_queue.Prelude.{
  ℕ, zero, suc, ◌+◌, ◌-◌, ◌<◌, ◌≤◌, ◌≡◌, ◌≢◌, ◌⊎◌, refl, true, false, arith, Option, some, List, [],
  ◌∷◌, ◌++◌, replicate, ◌||◌, ◌&&◌, leb, ltb, wrap64, ◌-ℤ◌,
}
use fast_mpmc_queue.Epoch.Account.{in_hand}
use fast_mpmc_queue.Nodes.{weigh, waiting, pointers, has, Chained}
use fast_mpmc_queue.Epoch.{
  Config, beyond_epoch, min_epoch, Queue, Return, Op, to_caller, idle, aborted, purge_lock,
  purge_delete, Act, go, call_enqueue, call_dequeue, call_purge, call_touch, System, insert, assign,
}
use fast_mpmc_queue.Epoch.Register.{begin}
use fast_mpmc_queue.Epoch.Transfer.{link_after}
use fast_mpmc_queue.Epoch.Machine.{new_queue, start, step, run}
use fast_mpmc_queue.Epoch.Locks.{in_map, in_purge}
use fast_mpmc_queue.Epoch.Retain.{Purged, purge_retains}
use fast_mpmc_queue.Epoch.Destroy.{destroy, destroy-no_double}
use fast_mpmc_queue.Epoch.Safety.{empty, in_order, deleted_behind, locks_exclusive, epochs_bounded}

-- The smallest number of nodes that `purge` may skip, and no purge thread.
abbrev small : Config
small = record { purge_counter = 128; purge_thread = false; skip_first = 4 }

abbrev Schedule : Type 0
Schedule = List (ℕ × Act ℕ)

-- The whole call of a thread that meets no other one.
abbrev whole_enqueue : (thread value : ℕ) → Schedule
whole_enqueue i v = (i, call_enqueue v) ∷ replicate 11 (i, go)

abbrev whole_dequeue : (thread : ℕ) → Schedule
whole_dequeue i = (i, call_dequeue) ∷ replicate 15 (i, go)

abbrev whole_touch : (thread : ℕ) → Schedule
whole_touch i = (i, call_touch) ∷ replicate 3 (i, go)

abbrev times : ℕ → Schedule → Schedule
times zero xs = []
times (suc n) xs = xs ++ times n xs

abbrev constructed : Schedule
constructed = replicate 2 (0, go)

-- Thread 1 puts six payloads in, thread 2 takes them out, and thread 3 is about to purge.
abbrev six_through : Schedule
six_through =
    constructed
    ++ times 6 (whole_enqueue 1 7)
    ++ times 6 (whole_dequeue 2)
    ++ whole_touch 1
    ++ (3, call_purge) ∷ []

abbrev six : System ℕ
six = run small (start small) six_through

six_list : Chained six.queue.next_deleted six.queue.deleted (5 ∷ 4 ∷ 3 ∷ 2 ∷ 1 ∷ 0 ∷ [])
unfolding run step start begin link_after new_queue insert assign wrap64 ◌-ℤ◌
six_list = (refl, (refl, (refl, (refl, (refl, (refl, refl))))))

six_least : min_epoch six.queue.thread_epoch ≡ some 12
unfolding run step start begin link_after new_queue insert assign wrap64 ◌-ℤ◌ min_epoch
six_least = refl

six_purge : six.pc 3 ≡ purge_lock to_caller
unfolding run step start begin link_after new_queue insert assign wrap64 ◌-ℤ◌
six_purge = refl

six_free : (six.queue.purge_sl ≡ false) × (six.queue.epoch_sl ≡ false)
unfolding run step start begin link_after new_queue insert assign wrap64 ◌-ℤ◌
six_free = (refl, refl)

six_empty : empty six.queue ≡ true
unfolding run step start begin link_after new_queue insert assign wrap64 ◌-ℤ◌ empty
six_empty = refl

-- Thread 1 has linked its node and stands before its store to `m_tail`, while thread 2 puts six payloads
-- in and thread 3 takes all of them out. Then it sets the tail back, behind the head.
abbrev left_behind : Schedule
left_behind =
    constructed
    ++ (1, call_enqueue 7) ∷ replicate 9 (1, go)
    ++ (2, call_enqueue 8) ∷ replicate 15 (2, go)
    ++ times 5 (whole_enqueue 2 9)
    ++ times 7 (whole_dequeue 3)
    ++ replicate 2 (1, go)

-- All threads take a new epoch, and one of them purges.
abbrev dangling : Schedule
dangling =
    left_behind
    ++ whole_touch 1
    ++ whole_touch 2
    ++ whole_touch 3
    ++ (2, call_purge) ∷ replicate 40 (2, go)

at_rest :
    let s = run small (start small) dangling in (s.pc 1 ≡ idle) × (s.pc 2 ≡ idle) × (s.pc 3 ≡ idle)
unfolding run step start begin link_after new_queue insert assign wrap64 ◌-ℤ◌ min_epoch
at_rest = (refl, refl, refl)

-- Then `m_tail` points to a node that has been deleted, and the next `enqueue` reads it.
tail_freed :
    let q = (run small (start small) dangling).queue in
    (q.tail ≡ 1) × (q.freed 1 ≡ true) × (q.head ≡ 7)
unfolding run step start begin link_after new_queue insert assign wrap64 ◌-ℤ◌ min_epoch
tail_freed = (refl, refl, refl)

-- Two producers whose compare-exchanges cross, and a consumer.
abbrev crossing : Schedule
crossing =
    constructed
    ++ (1, call_enqueue 7) ∷ replicate 8 (1, go)
    ++ (2, call_enqueue 8) ∷ replicate 8 (2, go)
    ++ replicate 3 (1, go)
    ++ replicate 8 (2, go)
    ++ (3, call_dequeue) ∷ replicate 3 (3, go)

crossing-in_order : (run small (start small) crossing).enqueued ≡ 8 ∷ 7 ∷ []
unfolding run step start begin link_after new_queue insert assign wrap64 ◌-ℤ◌
crossing-in_order = refl

in_order_example :
    (pointers six.enqueued
      ≡ waiting six.queue.data_of six.queue.head (six.queue.allocated - suc six.queue.head)
        ++ six.dequeued)
    × (empty six.queue ≡ true → pointers six.enqueued ≡ six.dequeued)
    × (weigh (λ v. v) six.called
        ≡ weigh (λ v. v) six.enqueued
          + weigh (λ v. v) six.refused
          + weigh (λ v. v) six.leaked
          + in_hand (λ v. v) 4 six.pc)
    × (six.queue.producing ≡ true → (six.refused ≡ []) × (six.leaked ≡ []))
in_order_example = in_order small six_through 4 (λ v. v) refl

deleted_behind_example :
    let s = run small (start small) dangling in
    (s.queue.freed 1 ≡ true → 1 < s.queue.head)
    × ((i bound last : ℕ) (r : Return) (next : Option ℕ)
        → s.pc i ≡ purge_delete r bound last 1 next
        → 1 < s.queue.head)
    × (s.queue.deleted ≡ some 1 → 1 < s.queue.head)
    × (s.queue.deleted_at 1 ≢ beyond_epoch → 1 ≤ s.queue.head)
deleted_behind_example = deleted_behind small dangling 1

locks_exclusive_example :
    let s = run small (start small) crossing in
    (in_map (s.pc 3) ≡ true
      → (s.queue.epoch_sl ≡ true) × (in_map (s.pc 4) ≡ true → ◌≡◌ {A = ℕ} 3 4))
    × (in_purge (s.pc 3) ≡ true
        → (s.queue.purge_sl ≡ true) × (in_purge (s.pc 4) ≡ true → ◌≡◌ {A = ℕ} 3 4))
locks_exclusive_example = locks_exclusive small crossing 3 4

epochs_bounded_example :
    let s = run small (start small) crossing in
    (s.queue.epoch < beyond_epoch)
    × ((i : ℕ) (op : Op ℕ) → s.pc i ≢ aborted op)
    × ((k : ℕ) → (s.queue.deleted_at k ≡ beyond_epoch) ⊎ (s.queue.deleted_at k < s.queue.epoch))
    × ((m : ℕ) → min_epoch s.queue.thread_epoch ≡ some m → m < s.queue.epoch)
epochs_bounded_example = epochs_bounded small crossing (omega arith)

purge_retains_example :
    (n : ℕ) × Purged six.queue
      (run small six (replicate n (3, go)))
      3
      to_caller
      (5 ∷ 4 ∷ 3 ∷ 2 ∷ 1 ∷ 0 ∷ [])
      (5 ∷ 4 ∷ 3 ∷ 2 ∷ 0 ∷ [])
unfolding run step start begin link_after new_queue insert assign wrap64 ◌-ℤ◌
purge_retains_example =
    purge_retains small six 3 to_caller (5 ∷ 4 ∷ 3 ∷ 2 ∷ 1 ∷ 0 ∷ []) 12 (omega arith) six_purge
      six_free.0 six_free.1 six_least six_list (refl, (refl, (refl, (refl, (refl, (refl, tt))))))

six_unfreed : (j : ℕ) → has j (5 ∷ 4 ∷ 3 ∷ 2 ∷ 1 ∷ 0 ∷ []) ≡ true → six.queue.freed j ≡ false
unfolding run step start begin link_after new_queue insert assign wrap64 ◌-ℤ◌
six_unfreed j h = refl

destroy-no_double_example :
    (r : Queue ℕ) × (destroy six.queue ≡ some r)
    × ((j : ℕ)
        → r.freed j ≡ (
            six.queue.freed j
            || has j (5 ∷ 4 ∷ 3 ∷ 2 ∷ 1 ∷ 0 ∷ [])
            || (leb six.queue.head j && ltb j six.queue.allocated)))
destroy-no_double_example =
    destroy-no_double small six_through (5 ∷ 4 ∷ 3 ∷ 2 ∷ 1 ∷ 0 ∷ []) six_free.0 six_list
      (refl, (refl, (refl, (refl, (refl, (refl, tt)))))) six_unfreed
