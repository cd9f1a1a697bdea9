-- ===== src/Epoch/Purge.antt =====
-- include/xtxn/mpmc_queue.hpp: `purge`, one access at a time, and the thread that calls it.
use fast_mpmc_queue.Prelude.{
  ℕ, zero, suc, ltb, leb, true, if◌then◌else◌, Option, none, some, update, pos, ltb_ℤ,
}
use fast_mpmc_queue.Spinlock.{try_lock, unlock}
use fast_mpmc_queue.Epoch.{
  Config, min_epoch, take, Return, to_caller, to_dequeue, to_cleaner, Pc, idle, register_epoch,
  purge_lock, purge_epoch, purge_map_unlock, purge_list, purge_skip, purge_next, purge_keep,
  purge_delete, purge_end, purge_unlock, reset_counter, cleaner_loop, cleaner_count, cleaner_yield,
  System,
}
use fast_mpmc_queue.Epoch.Register.{move}

module _ {ℓ} {A : Type ℓ} where
  -- The second loop goes on with `current`.
  abbrev pub sweep_on : Return → (bound last : ℕ) (current : Option ℕ) → Pc A
  sweep_on r bound last none = purge_end r last
  sweep_on r bound last (some k) = purge_next r bound last k

  -- The end of the first loop: `if (!last) return;`
  abbrev pub skipped : Return → (bound : ℕ) (last current : Option ℕ) → Pc A
  skipped r bound none current = purge_unlock r
  skipped r bound (some l) current = sweep_on r bound l current

  -- The first loop goes on: `while (current && count--)`.
  abbrev pub skip_on : Return → (bound count : ℕ) (last current : Option ℕ) → Pc A
  skip_on r bound count last none = skipped r bound last none
  skip_on r bound zero last (some k) = skipped r bound last (some k)
  skip_on r bound (suc count) last (some k) = purge_skip r bound count k

  -- What follows a purge.
  abbrev pub purge_after : Return → Pc A
  purge_after to_caller = idle
  purge_after r = reset_counter r

  module _ (s : System A) (i : ℕ) where
    unfoldable pub step_purge_lock : Return → System A
    step_purge_lock r =
        let (flag, got) = try_lock s.queue.purge_sl in
        move s i (record s.queue { purge_sl = flag }) (if got then purge_epoch r else purge_lock r)

    -- The least epoch of the map and of `bound`; without any thread in the map `purge` returns.
    unfoldable pub step_purge_min : Return → (bound : ℕ) → System A
    step_purge_min r bound = move s i s.queue (
        purge_map_unlock r (elim (min_epoch s.queue.thread_epoch) [
          | none ↦ none
          | some m ↦ some (if ltb m bound then m else bound)
        ]))

    unfoldable pub step_purge_map_unlock : Return → (bound : Option ℕ) → System A
    step_purge_map_unlock r bound =
        move s i (record s.queue { epoch_sl = unlock s.queue.epoch_sl })
          (elim bound [ none ↦ purge_unlock r | some m ↦ purge_list r m ])

    unfoldable pub step_purge_list : Config → Return → (bound : ℕ) → System A
    step_purge_list c r bound = move s i s.queue (skip_on r bound c.skip_first none s.queue.deleted)

    unfoldable pub step_purge_skip : Return → (bound count current : ℕ) → System A
    step_purge_skip r bound count current =
        move s i s.queue (skip_on r bound count (some current) (s.queue.next_deleted current))

    unfoldable pub step_purge_at : Return → (bound last current : ℕ) (next : Option ℕ) → System A
    step_purge_at r bound last current next = move s i s.queue (
        if leb bound (s.queue.deleted_at current)
        then purge_keep r bound last current next
        else purge_delete r bound last current next)

    unfoldable pub step_purge_keep : Return → (bound last current : ℕ) (next : Option ℕ) → System A
    step_purge_keep r bound last current next =
        move s i (record s.queue { next_deleted = update s.queue.next_deleted last (some current) })
          (sweep_on r bound current next)

    unfoldable pub step_purge_delete :
        Return → (bound last current : ℕ) (next : Option ℕ) → System A
    step_purge_delete r bound last current next =
        move s i (record s.queue { freed = update s.queue.freed current true })
          (sweep_on r bound last next)

    unfoldable pub step_purge_end : Return → (last : ℕ) → System A
    step_purge_end r last =
        move s i (record s.queue { next_deleted = update s.queue.next_deleted last none })
          (purge_unlock r)

    unfoldable pub step_purge_unlock : Return → System A
    step_purge_unlock r =
        move s i (record s.queue { purge_sl = unlock s.queue.purge_sl }) (purge_after r)

    -- `m_purge_counter.store(C)` in `dequeue` and in the purge thread.
    unfoldable pub step_reset_counter : Config → Return → System A
    step_reset_counter c r =
        move s i (record s.queue { purge_counter = pos c.purge_counter })
          (elim r [
            | to_caller ↦ idle
            | to_dequeue ↦ register_epoch take
            | to_cleaner ↦ cleaner_loop
          ])

    -- The purge thread.
    unfoldable pub step_cleaner_loop : System A
    step_cleaner_loop = move s i s.queue (if s.queue.consuming then cleaner_count else idle)

    unfoldable pub step_cleaner_count : System A
    step_cleaner_count =
        move s i s.queue
          (if ltb_ℤ (pos 0) s.queue.purge_counter then cleaner_yield else purge_lock to_cleaner)

    unfoldable pub step_cleaner_yield : System A
    step_cleaner_yield =
        move s i s.queue (if s.queue.consuming then cleaner_count else purge_lock to_cleaner)
