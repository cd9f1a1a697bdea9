-- ===== src/Slots/Protocol.antt =====
-- The protocol of the slots, as both fast queues follow it: what is shared, what each thread holds,
-- and the moves that a thread may make. It is the abstract specification that the two queues refine.
use fast_mpmc_queue.Prelude.{
  ℕ, ◌+◌, ◌<◌, ◌≡◌, Option, none, some, List, ◌∷◌, update, ℤ, pos, ◌+ℤ◌, ◌-ℤ◌,
}
use fast_mpmc_queue.Slots.{SlotState, free, prod_locked, ready, cons_locked}

-- What a thread holds: a slot that it has locked and not yet subtracted from the free counter, a
-- slot behind a producer's or a consumer's accessor, or slots not yet added to the free counter.
pub data Claim : Type 0 where
  idle : Claim
  locking : ℕ → Claim
  producing : ℕ → Claim
  consuming : ℕ → Claim
  owing : ℕ → Claim

abbrev pub slot_of : Claim → Option ℕ
slot_of (locking k) = some k
slot_of (producing k) = some k
slot_of (consuming k) = some k
slot_of _ = none

-- The slots below `cap` exist. `published` and `consumed` list the payloads that accessors handed
-- over, the last one first.
pub record View {ℓ} (A : Type ℓ) : Type ℓ where
  pub cap : ℕ
  pub balance : ℤ
  pub state : ℕ → SlotState
  pub payload : ℕ → A
  pub claim : ℕ → Claim
  pub published : List A
  pub consumed : List A

-- A move of thread `i`, one of `n`.
pub data Step {ℓ} {A : Type ℓ} (n : ℕ) (s : View A) : View A → Type ℓ where
  lock :
      (i k : ℕ)
      → i < n
      → k < s.cap
      → s.claim i ≡ idle
      → s.state k ≡ free
      → Step n s
          (record s { state = update s.state k prod_locked; claim = update s.claim i (locking k) })
  take :
      (i k : ℕ)
      → i < n
      → s.claim i ≡ locking k
      → Step n s (record s { balance = s.balance -ℤ pos 1; claim = update s.claim i (producing k) })
  write :
      (i k : ℕ) (v : A)
      → i < n
      → s.claim i ≡ producing k
      → Step n s (record s { payload = update s.payload k v })
  publish :
      (i k : ℕ)
      → i < n
      → s.claim i ≡ producing k
      → Step n s (record s {
        state = update s.state k ready;
        claim = update s.claim i idle;
        published = s.payload k ∷ s.published;
      })
  cancel :
      (i k : ℕ)
      → i < n
      → s.claim i ≡ producing k
      → Step n s (record s { state = update s.state k free; claim = update s.claim i (owing 1) })
  repay :
      (i m : ℕ)
      → i < n
      → s.claim i ≡ owing m
      → Step n s (record s { balance = s.balance +ℤ pos m; claim = update s.claim i idle })
  receive :
      (i k : ℕ)
      → i < n
      → k < s.cap
      → s.claim i ≡ idle
      → s.state k ≡ ready
      → Step n s (record s {
        state = update s.state k cons_locked;
        claim = update s.claim i (consuming k);
      })
  finish :
      (i k : ℕ)
      → i < n
      → s.claim i ≡ consuming k
      → Step n s (record s {
        state = update s.state k free;
        claim = update s.claim i (owing 1);
        consumed = s.payload k ∷ s.consumed;
      })
  put_back :
      (i k : ℕ)
      → i < n
      → s.claim i ≡ consuming k
      → Step n s (record s { state = update s.state k ready; claim = update s.claim i idle })
  extend :
      (i m : ℕ)
      → i < n
      → s.claim i ≡ idle
      → Step n s (record s { cap = s.cap + m; claim = update s.claim i (owing m) })

-- A consumer that writes to its slot: the accessor of the static queue allows it.
pub data Alter {ℓ} {A : Type ℓ} (n : ℕ) (s : View A) : View A → Type ℓ where
  alter :
      (i k : ℕ) (v : A)
      → i < n
      → s.claim i ≡ consuming k
      → Alter n s (record s { payload = update s.payload k v })
