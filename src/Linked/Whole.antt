-- ===== src/Linked/Whole.antt =====
-- The gaps in the chain of nodes of a linked queue, between an exchange and a link.
use fast_mpmc_queue.Prelude.{ℕ, ◌≤◌, ◌<◌, ◌≡◌, ◌≢◌, refl, Bool, arith, none, some, update}
use native.Mathlib.Decide.{ℕ_discrete}
use fast_mpmc_queue.Linked.{
  Pc, idle, stopping, enqueue_test, enqueue_lock, enqueue_exchange, enqueue_link, dequeue_test,
  dequeue_lock, dequeue_head, dequeue_next, dequeue_exchange, unlocking, empty_head, empty_next,
  Act, go, call_enqueue, call_dequeue, call_shutdown, call_stop, call_empty, System, step, begin,
}
use fast_mpmc_queue.Linked.Chain.{IsChain, Knows, link_of}

module _ {ℓ} {A : Type ℓ} where
  -- A thread that does not link stays one.
  other_link :
      (pc : ℕ → Pc A) (i : ℕ) (p : Pc A) (j k : ℕ)
      → link_of (pc i) ≢ some k
      → link_of (pc j) ≡ some k
      → link_of (update pc i p j) ≡ some k
  other_link pc i p j k h e = ground arith

  abbrev pub IsWhole : System A → Type 0
  IsWhole s =
      (k : ℕ)
      → s.queue.head ≤ k
      → k < s.queue.tail
      → s.queue.next k ≡ none
      → (i : ℕ) × (link_of (s.pc i) ≡ some k)

  -- A step that adds no node and no link.
  kept :
      (s : System A) (i : ℕ) (p : Pc A)
      → IsWhole s
      → link_of (s.pc i) ≡ none
      → (k : ℕ) → s.queue.head ≤ k
      → k < s.queue.tail
      → s.queue.next k ≡ none
      → (j : ℕ) × (link_of (update s.pc i p j) ≡ some k)
  kept s i p whole e k lo hi open_end =
      let (j, f) = whole k lo hi open_end in (j, other_link s.pc i p j k (rw e (λ g. cc)) f)

  module _ (locked : Bool) (s : System A) (i : ℕ) where
    pub step-IsWhole :
        (p : Pc A) (a : Act A)
        → s.pc i ≡ p
        → IsChain s.queue s.enqueued s.dequeued
        → Knows s.queue p
        → IsWhole s
        → IsWhole (step locked s i p a)
    unfolding step begin
    step-IsWhole idle (call_enqueue v) e c h w k lo hi open_end =
        kept s i _ w (rw e refl) k lo hi open_end
    step-IsWhole idle call_dequeue e c h w k lo hi open_end =
        kept s i _ w (rw e refl) k lo hi open_end
    step-IsWhole idle call_shutdown e c h w k lo hi open_end =
        kept s i _ w (rw e refl) k lo hi open_end
    step-IsWhole idle call_stop e c h w k lo hi open_end = kept s i _ w (rw e refl) k lo hi open_end
    step-IsWhole idle call_empty e c h w k lo hi open_end =
        kept s i _ w (rw e refl) k lo hi open_end
    step-IsWhole idle go e c h w k lo hi open_end = kept s i _ w (rw e refl) k lo hi open_end
    step-IsWhole (enqueue_exchange v) a e c h w k lo hi open_end =
        elim (ℕ_discrete k s.queue.tail) [
          | yes p ↦ (i, ground arith)
          | no p ↦ kept s i _ w (rw e refl) k lo (omega arith) open_end
        ]
    step-IsWhole (enqueue_link before node) a e c h w k lo hi open_end =
        elim (ℕ_discrete k before) [
          | yes p ↦ absurd (ground arith)
          | no p ↦
              let (j, f) = w k lo hi (ground arith) in
              (j, other_link s.pc i _ j k (rw e (λ g. p (ground arith))) f)
        ]
    step-IsWhole (dequeue_exchange next) a e c h w k lo hi open_end =
        kept s i _ w (rw e refl) k (omega (arith, lo, c.link s.queue.head next h)) hi open_end
    step-IsWhole stopping a e c h w k lo hi open_end = kept s i _ w (rw e refl) k lo hi open_end
    step-IsWhole (enqueue_test v) a e c h w k lo hi open_end =
        kept s i _ w (rw e refl) k lo hi open_end
    step-IsWhole (enqueue_lock v) a e c h w k lo hi open_end =
        kept s i _ w (rw e refl) k lo hi open_end
    step-IsWhole dequeue_test a e c h w k lo hi open_end = kept s i _ w (rw e refl) k lo hi open_end
    step-IsWhole dequeue_lock a e c h w k lo hi open_end = kept s i _ w (rw e refl) k lo hi open_end
    step-IsWhole dequeue_head a e c h w k lo hi open_end = kept s i _ w (rw e refl) k lo hi open_end
    step-IsWhole (dequeue_next head) a e c h w k lo hi open_end =
        kept s i _ w (rw e refl) k lo hi open_end
    step-IsWhole unlocking a e c h w k lo hi open_end = kept s i _ w (rw e refl) k lo hi open_end
    step-IsWhole empty_head a e c h w k lo hi open_end = kept s i _ w (rw e refl) k lo hi open_end
    step-IsWhole (empty_next head) a e c h w k lo hi open_end =
        kept s i _ w (rw e refl) k lo hi open_end
