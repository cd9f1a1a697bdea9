-- ===== src/Epoch/Register.antt =====
-- include/xtxn/mpmc_queue.hpp: `touch`, `escape`, `shutdown`, `stop`, and how `enqueue` and `dequeue`
-- take an epoch and enter it in the map.
use fast_mpmc_queue.Prelude.{ℕ, ◌+◌, ◌^◌, ◌%◌, ◌==◌, false, if◌then◌else◌, List, ◌∷◌, update}
use fast_mpmc_queue.Spinlock.{try_lock, unlock}
use fast_mpmc_queue.Epoch.{
  before_epoch, beyond_epoch, Queue, insert, assign, erase, Op, put, take, to_caller, Pc, idle,
  aborted, stopping, touch_lock, escape_lock, leave_map, register_lock, register_unlock,
  enqueue_test, enqueue_loop, dequeue_count, dequeue_loop, purge_lock, Act, go, call_enqueue,
  call_dequeue, call_purge, call_touch, call_escape, call_shutdown, call_stop, System,
}

-- `m_epoch.fetch_add(1)`
abbrev pub next_epoch : ℕ → ℕ
next_epoch e = (e + 1) % 2 ^ 64

module _ {ℓ} {A : Type ℓ} where
  -- The thread moves on, and the queue changes.
  abbrev pub move : System A → ℕ → Queue A → Pc A → System A
  move s i q p = record s { queue = q; pc = update s.pc i p }

  abbrev pub set_map : Queue A → List (ℕ × ℕ) → Queue A
  set_map q xs = record q { thread_epoch = xs }

  module _ (s : System A) (i : ℕ) where
    -- The calls that an idle thread may begin, once the constructor has returned.
    unfoldable pub begin : Act A → System A
    begin (call_enqueue v) = record s {
      pc = update s.pc i (if s.is_built then enqueue_test v else idle);
      called = if s.is_built then v ∷ s.called else s.called;
    }
    begin call_dequeue = move s i s.queue (if s.is_built then dequeue_count else idle)
    begin call_purge = move s i s.queue (if s.is_built then purge_lock to_caller else idle)
    begin call_touch = move s i s.queue (if s.is_built then touch_lock else idle)
    begin call_escape = move s i s.queue (if s.is_built then escape_lock else idle)
    begin call_shutdown =
        move s i (record s.queue { producing = if s.is_built then false else s.queue.producing })
          idle
    begin call_stop =
        move s i (record s.queue { producing = if s.is_built then false else s.queue.producing })
          (if s.is_built then stopping else idle)
    begin go = move s i s.queue idle

    -- A round of the loop of `m_epoch_sl.lock()`, and its release.
    unfoldable pub step_map_lock : (again inside : Pc A) → System A
    step_map_lock again inside =
        let (flag, got) = try_lock s.queue.epoch_sl in
        move s i (record s.queue { epoch_sl = flag }) (if got then inside else again)

    unfoldable pub step_map_unlock : Pc A → System A
    step_map_unlock after = move s i (record s.queue { epoch_sl = unlock s.queue.epoch_sl }) after

    -- `m_thread_epoch[get_id()] = m_epoch.fetch_add(1)`
    unfoldable pub step_touch_assign : System A
    step_touch_assign =
        let e = s.queue.epoch in
        move s i
          (record s.queue {
            epoch = next_epoch e;
            thread_epoch = assign i e (insert i before_epoch s.queue.thread_epoch);
          })
          leave_map

    unfoldable pub step_escape_erase : System A
    step_escape_erase = move s i (set_map s.queue (erase i s.queue.thread_epoch)) leave_map

    unfoldable pub step_register_epoch : Op A → System A
    step_register_epoch op =
        let e = s.queue.epoch in
        move s i (record s.queue { epoch = next_epoch e })
          (if e == beyond_epoch then aborted op else register_lock op e)

    unfoldable pub step_register_insert : Op A → (epoch : ℕ) → System A
    step_register_insert op epoch =
        move s i (set_map s.queue (insert i before_epoch s.queue.thread_epoch))
          (register_unlock op epoch)

    unfoldable pub step_register_unlock : Op A → (epoch : ℕ) → System A
    unfolding step_map_unlock
    step_register_unlock (put v) epoch = step_map_unlock (enqueue_loop v epoch)
    step_register_unlock take epoch = step_map_unlock (dequeue_loop epoch)

    -- `*thread_epoch = epoch`, the last access of a call.
    unfoldable pub step_finish : (epoch : ℕ) → System A
    step_finish epoch = move s i (set_map s.queue (assign i epoch s.queue.thread_epoch)) idle
