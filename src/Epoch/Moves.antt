-- ===== src/Epoch/Moves.antt =====
-- The steps of mpmc_queue: what each does to the order of the nodes and to what its thread knows.
use fast_mpmc_queue.Prelude.{
  ℕ, ◌<◌, ◌≡◌, inl, inr, refl, arith, ◌==◌, Option, none, some, update, Bool-cases,
}
use fast_mpmc_queue.Nodes.{Follows-next, link-IsOrdered, take-IsOrdered}
use fast_mpmc_queue.Epoch.{
  Config, put, take, to_caller, to_dequeue, to_cleaner, Pc, idle, touch_lock, escape_lock,
  register_epoch, register_lock, register_unlock, enqueue_test, enqueue_loop, enqueue_tail,
  enqueue_next, enqueue_link, dequeue_count, dequeue_loop, dequeue_head, dequeue_next, dequeue_tail,
  dequeue_test, dequeue_exchange, dequeue_stamp, dequeue_push, purge_lock, purge_map_lock,
  purge_map_unlock, purge_list, purge_skip, purge_next, purge_at, purge_keep, purge_delete,
  purge_unlock, reset_counter, cleaner_loop, cleaner_count, cleaner_yield, Act, go, call_enqueue,
  call_dequeue, call_purge, call_touch, call_escape, call_shutdown, call_stop, System,
}
use fast_mpmc_queue.Epoch.Register.{begin}
use fast_mpmc_queue.Epoch.Transfer.{link_after}
use fast_mpmc_queue.Epoch.Machine.{step}
use fast_mpmc_queue.Epoch.Order.{Knows, IsShaped, sweep_on-Knows, skip_on-Knows, Grows, Ordered}

module _ {ℓ} {A : Type ℓ} where
  module _ (c : Config) (s : System A) (i : ℕ) where
    link_after-Ordered :
        (v : A) (epoch tail : ℕ) (x : Option ℕ)
        → Ordered s
        → tail < s.queue.allocated
        → s.queue.next tail ≡ x
        → Ordered (link_after s i v epoch tail x)
    unfolding link_after
    link_after-Ordered v epoch tail none ok h e = link-IsOrdered ok tail v h e
    link_after-Ordered v epoch tail (some n) ok h e = ok

    link_after-Grows :
        (v : A) (epoch tail : ℕ) (x : Option ℕ)
        → Grows s.queue (link_after s i v epoch tail x).queue
    unfolding link_after
    link_after-Grows v epoch tail none = ground arith
    link_after-Grows v epoch tail (some n) = ground arith

    link_after-goes :
        (v : A) (epoch tail : ℕ) (x : Option ℕ)
        → let t = link_after s i v epoch tail x in
          (p' : Pc A) × (t.pc ≡ update s.pc i p') × Knows t.queue p'
    unfolding link_after
    link_after-goes v epoch tail none = (_, refl, omega arith)
    link_after-goes v epoch tail (some n) = (_, refl, tt)

    pub step-Ordered :
        (p : Pc A) (a : Act A) → Ordered s → Knows s.queue p → Ordered (step c s i p a)
    unfolding step begin
    step-Ordered idle (call_enqueue v) ok h = ok
    step-Ordered idle call_dequeue ok h = ok
    step-Ordered idle call_purge ok h = ok
    step-Ordered idle call_touch ok h = ok
    step-Ordered idle call_escape ok h = ok
    step-Ordered idle call_shutdown ok h = ok
    step-Ordered idle call_stop ok h = ok
    step-Ordered idle go ok h = ok
    step-Ordered (register_unlock (put v) epoch) a ok h = ok
    step-Ordered (register_unlock take epoch) a ok h = ok
    step-Ordered (enqueue_link v epoch tail) a ok h =
        link_after-Ordered v epoch tail (s.queue.next tail) ok h refl
    step-Ordered (dequeue_exchange epoch head first) a ok h =
        elim (Bool-cases (s.queue.head == head)) [
          | inl same ↦ rw same (take-IsOrdered ok first (ground (arith, ok.links s.queue.head)))
          | inr moved ↦ rw moved ok
        ]
    step-Ordered _ a ok h = ok

    pub step-Grows : (p : Pc A) (a : Act A) → Knows s.queue p → Grows s.queue (step c s i p a).queue
    unfolding step begin
    step-Grows idle a h = ground arith
    step-Grows (register_unlock (put v) epoch) a h = ground arith
    step-Grows (register_unlock take epoch) a h = ground arith
    step-Grows (enqueue_link v epoch tail) a h = link_after-Grows v epoch tail (s.queue.next tail)
    step-Grows (dequeue_exchange epoch head first) a h = ground arith
    step-Grows _ a h = ground arith

    -- Where the thread goes, and what it knows there.
    pub step-goes :
        (p : Pc A) (a : Act A)
        → Ordered s
        → IsShaped s.queue
        → Knows s.queue p
        → let t = step c s i p a in (p' : Pc A) × (t.pc ≡ update s.pc i p') × Knows t.queue p'
    unfolding step begin
    step-goes idle (call_enqueue v) ok sh h = (_, refl, ground arith)
    step-goes idle call_dequeue ok sh h = (_, refl, ground arith)
    step-goes idle call_purge ok sh h = (_, refl, ground arith)
    step-goes idle call_touch ok sh h = (_, refl, ground arith)
    step-goes idle call_escape ok sh h = (_, refl, ground arith)
    step-goes idle call_shutdown ok sh h = (_, refl, tt)
    step-goes idle call_stop ok sh h = (_, refl, ground arith)
    step-goes idle go ok sh h = (_, refl, tt)
    step-goes touch_lock a ok sh h = (_, refl, ground arith)
    step-goes escape_lock a ok sh h = (_, refl, ground arith)
    step-goes (register_epoch op) a ok sh h = (_, refl, ground arith)
    step-goes (register_lock op epoch) a ok sh h = (_, refl, ground arith)
    step-goes (register_unlock (put v) epoch) a ok sh h = (_, refl, tt)
    step-goes (register_unlock take epoch) a ok sh h = (_, refl, tt)
    step-goes (enqueue_test v) a ok sh h = (_, refl, ground arith)
    step-goes (enqueue_loop v epoch) a ok sh h = (_, refl, ground arith)
    step-goes (enqueue_tail v epoch) a ok sh h = (_, refl, sh.tail_in)
    step-goes (enqueue_next v epoch tail) a ok sh h =
        (_, refl, ground (arith, Follows-next ok tail (s.queue.next tail) refl))
    step-goes (enqueue_link v epoch tail) a ok sh h =
        link_after-goes v epoch tail (s.queue.next tail)
    step-goes dequeue_count a ok sh h = (_, refl, ground arith)
    step-goes (dequeue_loop epoch) a ok sh h = (_, refl, ground arith)
    step-goes (dequeue_head epoch) a ok sh h = (_, refl, omega arith)
    step-goes (dequeue_next epoch head) a ok sh h =
        (_, refl, ground (arith, Follows-next ok head (s.queue.next head) refl))
    step-goes (dequeue_tail epoch head first) a ok sh h = (_, refl, ground arith)
    step-goes (dequeue_test epoch head first) a ok sh h = (_, refl, ground arith)
    step-goes (dequeue_exchange epoch head first) a ok sh h =
        elim (Bool-cases (s.queue.head == head)) [
          | inl same ↦ rw same (_, refl, omega (arith, h))
          | inr moved ↦ rw moved (_, refl, tt)
        ]
    step-goes (dequeue_stamp epoch head first) a ok sh h = (_, refl, omega (arith, h))
    step-goes (dequeue_push epoch head) a ok sh h = (_, refl, (h, sh.listed))
    step-goes (purge_lock r) a ok sh h = (_, refl, ground arith)
    step-goes (purge_map_lock r bound) a ok sh h = (_, refl, ground arith)
    step-goes (purge_map_unlock r none) a ok sh h = (_, refl, tt)
    step-goes (purge_map_unlock r (some m)) a ok sh h = (_, refl, tt)
    step-goes (purge_list r bound) a ok sh h =
        (_, refl, skip_on-Knows s.queue r bound c.skip_first none s.queue.deleted tt sh.listed)
    step-goes (purge_skip r bound count current) a ok sh h = (
      _,
      refl,
      skip_on-Knows s.queue r bound count (some current) (s.queue.next_deleted current) h
          (sh.chained current),
    )
    step-goes (purge_next r bound last current) a ok sh h =
        (_, refl, (h.0, h.1, sh.chained current))
    step-goes (purge_at r bound last current next) a ok sh h = (_, refl, ground arith)
    step-goes (purge_keep r bound last current next) a ok sh h = (
      _,
      refl,
      sweep_on-Knows (step c s i (purge_keep r bound last current next) a).queue r bound current
          next h.1 h.2,
    )
    step-goes (purge_delete r bound last current next) a ok sh h = (
      _,
      refl,
      sweep_on-Knows (step c s i (purge_delete r bound last current next) a).queue r bound last next
          h.0 h.2,
    )
    step-goes (purge_unlock to_caller) a ok sh h = (_, refl, tt)
    step-goes (purge_unlock to_dequeue) a ok sh h = (_, refl, tt)
    step-goes (purge_unlock to_cleaner) a ok sh h = (_, refl, tt)
    step-goes (reset_counter to_caller) a ok sh h = (_, refl, tt)
    step-goes (reset_counter to_dequeue) a ok sh h = (_, refl, tt)
    step-goes (reset_counter to_cleaner) a ok sh h = (_, refl, tt)
    step-goes cleaner_loop a ok sh h = (_, refl, ground arith)
    step-goes cleaner_count a ok sh h = (_, refl, ground arith)
    step-goes cleaner_yield a ok sh h = (_, refl, ground arith)
    step-goes _ a ok sh h = (_, refl, tt)
