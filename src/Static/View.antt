-- ===== src/Static/View.antt =====
-- What the slot protocol sees of a static queue and its threads.
use fast_mpmc_queue.Prelude.{ℕ, ◌<◌}
use fast_mpmc_queue.Slots.Protocol.{Claim, View}
use fast_mpmc_queue.Slots.Threads
use fast_mpmc_queue.Slots.Threads.{Core}
use fast_mpmc_queue.Static.{
  Queue, Pc, produce_lock, produce_take, producer, consume_lock, consumer, refund,
}
use fast_mpmc_queue.Static.Machine.{System}

-- What the thread holds.
abbrev pub claim_of : Pc → Claim
claim_of (produce_take index) = Claim.locking index
claim_of (producer index _) = Claim.producing index
claim_of (consumer index _) = Claim.consuming index
claim_of refund = Claim.owing 1
claim_of _ = Claim.idle

-- An index about to be used is inside the arrays.
abbrev pub IsInside : ℕ → Pc → Type 0
IsInside size (produce_lock attempts count index) = index < size
IsInside size (consume_lock index) = index < size
IsInside size _ = Unit

abbrev pub core {ℓ} : {A : Type ℓ} → ℕ → Queue A → Core A
core size q = record { cap = size; balance = q.free_count; state = q.state; payload = q.payload }

abbrev pub view {ℓ} : {A : Type ℓ} → ℕ → System A → View A
view size s = Threads.view (core size) claim_of s
