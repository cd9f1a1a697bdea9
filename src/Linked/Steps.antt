-- ===== src/Linked/Steps.antt =====
-- The accesses of the linked queues, one by one: the chain, the lock, and who links and who dequeues.
use fast_mpmc_queue.Prelude.{
  ℕ, ◌<◌, ◌≡◌, refl, Bool, true, false, not, arith, if◌then◌else◌, some, update, apply-update,
}
use fast_mpmc_queue.Spinlock.{
  Guarded, LockMove, leaves, takes, releases, move-Guarded, Owned, move-Owned,
}
use fast_mpmc_queue.Linked.{
  Pc, idle, stopping, enqueue_test, enqueue_lock, enqueue_exchange, enqueue_link, dequeue_test,
  dequeue_lock, dequeue_head, dequeue_next, dequeue_exchange, unlocking, empty_head, empty_next,
  Act, go, call_enqueue, call_dequeue, call_shutdown, call_stop, call_empty, System, step, begin,
  is_call_dequeue,
}
use fast_mpmc_queue.Linked.Chain.{
  IsChain, Knows, link_of, IsChain-exchange, IsChain-link, IsChain-dequeue, IsChain-flags,
}

module _ {ℓ} {A : Type ℓ} where
  -- Between the acquisition and the release of the lock.
  abbrev pub in_lock : Pc A → Bool
  in_lock (enqueue_exchange v) = true
  in_lock (enqueue_link before node) = true
  in_lock dequeue_head = true
  in_lock (dequeue_next head) = true
  in_lock (dequeue_exchange next) = true
  in_lock unlocking = true
  in_lock _ = false

  abbrev pub in_dequeue : Pc A → Bool
  in_dequeue dequeue_test = true
  in_dequeue dequeue_lock = true
  in_dequeue dequeue_head = true
  in_dequeue (dequeue_next head) = true
  in_dequeue (dequeue_exchange next) = true
  in_dequeue _ = false

  -- One round of `lock`.
  lock_round :
      {flag : Bool} (again inside : Pc A)
      → in_lock again ≡ false
      → in_lock inside ≡ true
      → LockMove flag (in_lock again) true (in_lock (if not flag then inside else again))
  lock_round {flag = true} again inside e f = leaves refl refl
  lock_round {flag = false} again inside e f = takes refl refl f

  module _ (locked : Bool) (s : System A) (i : ℕ) where
    pub step-IsChain :
        (p : Pc A) (a : Act A)
        → IsChain s.queue s.enqueued s.dequeued
        → Knows s.queue p
        → let t = step locked s i p a in IsChain t.queue t.enqueued t.dequeued
    unfolding step begin
    step-IsChain idle (call_enqueue v) ok h = ok
    step-IsChain idle call_dequeue ok h = ok
    step-IsChain idle call_shutdown ok h = IsChain-flags ok s.queue.spinlock false s.queue.consuming
    step-IsChain idle call_stop ok h = IsChain-flags ok s.queue.spinlock false s.queue.consuming
    step-IsChain idle call_empty ok h = ok
    step-IsChain idle go ok h = ok
    step-IsChain stopping a ok h = IsChain-flags ok s.queue.spinlock s.queue.producing false
    step-IsChain (enqueue_lock v) a ok h = IsChain-flags ok true s.queue.producing s.queue.consuming
    step-IsChain (enqueue_exchange v) a ok h = IsChain-exchange ok v
    step-IsChain (enqueue_link before node) a ok h = IsChain-link ok before node h
    step-IsChain dequeue_lock a ok h = IsChain-flags ok true s.queue.producing s.queue.consuming
    step-IsChain (dequeue_exchange next) a ok h = IsChain-dequeue ok next h
    step-IsChain unlocking a ok h = IsChain-flags ok false s.queue.producing s.queue.consuming
    step-IsChain _ a ok h = ok

    -- Where the thread goes, and what it does to the lock.
    pub step-LockMove :
        (p : Pc A) (a : Act A)
        → let t = step locked s i p a in
          (p' : Pc A) × (t.pc ≡ update s.pc i p')
          × (locked ≡ true → LockMove s.queue.spinlock (in_lock p) t.queue.spinlock (in_lock p'))
    unfolding step begin
    step-LockMove idle (call_enqueue v) = (_, refl, λ h. leaves refl refl)
    step-LockMove idle call_dequeue = (_, refl, λ h. leaves refl refl)
    step-LockMove idle call_shutdown = (_, refl, λ h. leaves refl refl)
    step-LockMove idle call_stop = (_, refl, λ h. leaves refl refl)
    step-LockMove idle call_empty = (_, refl, λ h. leaves refl refl)
    step-LockMove idle go = (_, refl, λ h. leaves refl refl)
    step-LockMove stopping a = (_, refl, λ h. leaves refl refl)
    step-LockMove (enqueue_test v) a = (_, refl, λ h. leaves refl (ground arith))
    step-LockMove (enqueue_lock v) a = (_, refl, λ h. lock_round (enqueue_lock v) _ refl refl)
    step-LockMove (enqueue_exchange v) a = (_, refl, λ h. leaves refl refl)
    step-LockMove (enqueue_link before node) a = (_, refl, λ h. leaves refl (ground arith))
    step-LockMove dequeue_test a = (_, refl, λ h. leaves refl (ground arith))
    step-LockMove dequeue_lock a = (_, refl, λ h. lock_round dequeue_lock _ refl refl)
    step-LockMove dequeue_head a = (_, refl, λ h. leaves refl refl)
    step-LockMove (dequeue_next head) a = (_, refl, λ h. leaves refl (ground arith))
    step-LockMove (dequeue_exchange next) a = (_, refl, λ h. leaves refl (ground arith))
    step-LockMove unlocking a = (_, refl, λ h. releases refl refl refl)
    step-LockMove empty_head a = (_, refl, λ h. leaves refl refl)
    step-LockMove (empty_next head) a = (_, refl, λ h. leaves refl refl)

    pub step-Guarded :
        (a : Act A)
        → locked ≡ true
        → Guarded s.queue.spinlock (λ j. in_lock (s.pc j))
        → let t = step locked s i (s.pc i) a in Guarded t.queue.spinlock (λ j. in_lock (t.pc j))
    step-Guarded a h ok =
        let (p', e, m) = step-LockMove (s.pc i) a in
        rw (e, apply-update in_lock s.pc i p') (move-Guarded ok i (m h))

    pub step-Owned :
        (a : Act A)
        → locked ≡ true
        → Owned s.queue.spinlock (λ j. in_lock (s.pc j))
        → let t = step locked s i (s.pc i) a in Owned t.queue.spinlock (λ j. in_lock (t.pc j))
    step-Owned a h ok =
        let (p', e, m) = step-LockMove (s.pc i) a in
        rw (e, apply-update in_lock s.pc i p') (move-Owned i ok (m h))

    pub step-one :
        (p : Pc A) (a : Act A)
        → s.pc i ≡ p
        → ((j : ℕ) → in_dequeue (s.pc j) ≡ true → j ≡ 0)
        → (is_call_dequeue a ≡ true → i ≡ 0)
        → (j : ℕ) → in_dequeue ((step locked s i p a).pc j) ≡ true
        → j ≡ 0
    unfolding step begin
    step-one idle a e one legal j h = ground (arith, one j)
    step-one stopping a e one legal j h = ground (arith, one j)
    step-one (enqueue_test v) a e one legal j h = ground (arith, one j)
    step-one (enqueue_lock v) a e one legal j h = ground (arith, one j)
    step-one (enqueue_exchange v) a e one legal j h = ground (arith, one j)
    step-one (enqueue_link before node) a e one legal j h = ground (arith, one j)
    step-one dequeue_test a e one legal j h = ground (arith, one j, one i)
    step-one dequeue_lock a e one legal j h = ground (arith, one j, one i)
    step-one dequeue_head a e one legal j h = ground (arith, one j, one i)
    step-one (dequeue_next head) a e one legal j h = ground (arith, one j, one i)
    step-one (dequeue_exchange next) a e one legal j h = ground (arith, one j, one i)
    step-one unlocking a e one legal j h = ground (arith, one j)
    step-one empty_head a e one legal j h = ground (arith, one j)
    step-one (empty_next head) a e one legal j h = ground (arith, one j)

    pub step-links :
        (p : Pc A) (a : Act A)
        → s.pc i ≡ p
        → ((j k : ℕ) → link_of (s.pc j) ≡ some k → k < s.queue.tail)
        → ((j l k : ℕ) → link_of (s.pc j) ≡ some k → link_of (s.pc l) ≡ some k → j ≡ l)
        → let t = step locked s i p a in
          (j l k : ℕ) → link_of (t.pc j) ≡ some k → link_of (t.pc l) ≡ some k → j ≡ l
    unfolding step begin
    step-links idle a e below links j l k f g = ground (arith, links j l k)
    step-links stopping a e below links j l k f g = ground (arith, links j l k)
    step-links (enqueue_test v) a e below links j l k f g = ground (arith, links j l k)
    step-links (enqueue_lock v) a e below links j l k f g = ground (arith, links j l k)
    step-links (enqueue_exchange v) a e below links j l k f g =
        ground (arith, links j l k, below j k, below l k)
    step-links (enqueue_link before node) a e below links j l k f g = ground (arith, links j l k)
    step-links dequeue_test a e below links j l k f g = ground (arith, links j l k)
    step-links dequeue_lock a e below links j l k f g = ground (arith, links j l k)
    step-links dequeue_head a e below links j l k f g = ground (arith, links j l k)
    step-links (dequeue_next head) a e below links j l k f g = ground (arith, links j l k)
    step-links (dequeue_exchange next) a e below links j l k f g = ground (arith, links j l k)
    step-links unlocking a e below links j l k f g = ground (arith, links j l k)
    step-links empty_head a e below links j l k f g = ground (arith, links j l k)
    step-links (empty_next head) a e below links j l k f g = ground (arith, links j l k)
