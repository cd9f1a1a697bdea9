-- ===== src/Epoch/Safety.antt =====
-- What mpmc_queue guarantees after every schedule of its threads.
use fast_mpmc_queue.Prelude.{
  ℕ, suc, ◌+◌, ◌-◌, ◌≤◌, ◌<◌, ◌≡◌, ◌≢◌, ◌⊎◌, inl, inr, Bool, true, arith, Option, none, some, List,
  [], ◌∷◌, ◌++◌, length, Option-cases,
}
use fast_mpmc_queue.Nodes.{weigh, is_within, waiting, pointers, at_end, is_null, none_of_null}
use fast_mpmc_queue.Epoch.{
  Config, beyond_epoch, min_epoch, Queue, Return, Op, aborted, purge_delete, Act,
}
use fast_mpmc_queue.Epoch.Account.{in_hand}
use fast_mpmc_queue.Epoch.Balance.{run-IsAccounted}
use fast_mpmc_queue.Epoch.Machine.{new_queue, start, run}
use fast_mpmc_queue.Epoch.Invariant.{IsSound, start-IsSound, run-IsSound}
use fast_mpmc_queue.Epoch.Locks.{in_map, in_purge, start-IsGuarded, run-IsGuarded}
use fast_mpmc_queue.Epoch.Epochs.{AllBelow}
use fast_mpmc_queue.Epoch.Ages.{start-IsYoung, run-IsYoung}

-- `m_head.load()->m_next.load() == nullptr`
unfoldable pub empty {ℓ} : {A : Type ℓ} → Queue A → Bool
empty q = is_null (q.next q.head)

empty-none {ℓ} : {A : Type ℓ} (q : Queue A) → empty q ≡ true → q.next q.head ≡ none
unfolding empty
empty-none q e = none_of_null (q.next q.head) e

min_epoch-AllBelow : (n m : ℕ) (xs : List (ℕ × ℕ)) → AllBelow n xs → min_epoch xs ≡ some m → m < n
unfolding min_epoch
min_epoch-AllBelow n m [] g e = cc
min_epoch-AllBelow n m ((i, k) ∷ xs) g e = elim (Option-cases (min_epoch xs)) [
  | inl f ↦ ground (arith, f)
  | inr (x, f) ↦ ground (arith, f, min_epoch-AllBelow n x xs g.1 f)
]

module _ {ℓ} {A : Type ℓ} (c : Config) (schedule : List (ℕ × Act A)) where
  sound : IsSound (run c (start c) schedule)
  sound = run-IsSound c (start c) schedule (start-IsSound c)

  -- For all parameters of the class and after every schedule, where a node that has been deleted keeps
  -- its members: the pointers that entered the queue, in the order of the compare-exchanges that
  -- linked their nodes, are the pointers that `dequeue` has moved out, in that order, and then those of
  -- the nodes after the head. So the queue is first-in first-out, and repeats and invents nothing; and
  -- if `empty()` answers true, all that entered has been moved out. When `n` threads make the calls,
  -- the payloads that `enqueue` was called with are, by every weight, those that entered, those of the
  -- calls that returned false, those that `enqueue` dropped since its loop found `m_producing` clear,
  -- and those that threads inside `enqueue` have not linked yet; as long as producing is enabled, none
  -- is refused and none is dropped.
  pub in_order :
      (n : ℕ) (w : A → ℕ)
      → is_within n schedule ≡ true
      → let s = run c (start c) schedule in
        (pointers s.enqueued
          ≡ waiting s.queue.data_of s.queue.head (s.queue.allocated - suc s.queue.head)
            ++ s.dequeued)
        × (empty s.queue ≡ true → pointers s.enqueued ≡ s.dequeued)
        × (weigh w s.called
            ≡ weigh w s.enqueued + weigh w s.refused + weigh w s.leaked + in_hand w n s.pc)
        × (s.queue.producing ≡ true → (s.refused ≡ []) × (s.leaked ≡ []))
  in_order n w within =
      let s = run c (start c) schedule in
      let ok = run-IsAccounted w c n schedule within in
      (
        sound.nodes.fifo,
        λ e. at_end sound.nodes (empty-none s.queue e),
        ok.balance,
        λ e. ok.on (ground arith),
      )

  -- For all parameters of the class and after every schedule: a node that `purge` has deleted, one that
  -- it is about to delete, and the first one of the list that waits for deletion are behind the node
  -- that `m_head` points to, and a node whose `m_deleted_at` has been set is not after it.
  pub deleted_behind :
      let s = run c (start c) schedule in
      (k : ℕ)
      → (s.queue.freed k ≡ true → k < s.queue.head)
        × ((i bound last : ℕ) (r : Return) (next : Option ℕ)
            → s.pc i ≡ purge_delete r bound last k next
            → k < s.queue.head)
        × (s.queue.deleted ≡ some k → k < s.queue.head)
        × (s.queue.deleted_at k ≢ beyond_epoch → k ≤ s.queue.head)
  deleted_behind k =
      let s = run c (start c) schedule in
      (
        sound.shape.behind k,
        λ i bound last r next e. (rw e at (sound.knows i)).1,
        λ e. rw e at sound.shape.listed,
        sound.shape.stamped k,
      )

  -- For all parameters of the class and after every schedule: at most one thread is between the
  -- acquisition and the release of `m_epoch_sl`, which every access to the structure of the map from
  -- threads to epochs is, and at most one between those of `m_purge_sl`; and the flag is set while one
  -- is.
  pub locks_exclusive :
      (i j : ℕ)
      → let s = run c (start c) schedule in
        (in_map (s.pc i) ≡ true → (s.queue.epoch_sl ≡ true) × (in_map (s.pc j) ≡ true → i ≡ j))
        × (in_purge (s.pc i) ≡ true
            → (s.queue.purge_sl ≡ true) × (in_purge (s.pc j) ≡ true → i ≡ j))
  locks_exclusive i j =
      let ok = run-IsGuarded c (start c) schedule (start-IsGuarded c) in
      (λ h. (ok.map.held i h, ok.map.alone i j h), λ h. (ok.purge.held i h, ok.purge.alone i j h))

  -- For all parameters of the class, after a schedule of fewer than 2^64 - 2 accesses: `m_epoch` has
  -- not reached its largest value, so no assertion on it fails; a node's `m_deleted_at` is that value
  -- or is below `m_epoch`; and so is the least epoch of the map of threads.
  pub epochs_bounded :
      length schedule + 1 < beyond_epoch
      → let s = run c (start c) schedule in
        (s.queue.epoch < beyond_epoch)
        × ((i : ℕ) (op : Op A) → s.pc i ≢ aborted op)
        × ((k : ℕ) → (s.queue.deleted_at k ≡ beyond_epoch) ⊎ (s.queue.deleted_at k < s.queue.epoch))
        × ((m : ℕ) → min_epoch s.queue.thread_epoch ≡ some m → m < s.queue.epoch)
  unfolding start new_queue
  epochs_bounded short =
      let s = run c (start c) schedule in
      let (young, small) = run-IsYoung c (start c) schedule (omega arith) (start-IsYoung c) in
      (
        omega (arith, small),
        λ i op e. rw e at (young.threads i),
        young.dates.stamps,
        λ m e. min_epoch-AllBelow s.queue.epoch m s.queue.thread_epoch young.dates.map e,
      )
