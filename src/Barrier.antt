-- ===== src/Barrier.antt =====
-- include/xtxn/color_barrier.hpp: a barrier that red and green locks share.
pub mod Counters
mod Tests
use fast_mpmc_queue.Prelude.{
  ℕ, ◌+◌, ◌-◌, ◌%◌, ◌^◌, Bool, true, false, ◌==◌, ltb, if◌then◌else◌, List, [], ◌∷◌, update,
}

-- The counters are unsigned of 64 bits.
pub record ColorBarrier : Type 0 where
  pub red_counter : ℕ
  pub green_counter : ℕ

-- Where a thread stands: outside, in the loop of a constructor, after it, or with its lock alive.
pub data Pc : Type 0 where
  idle red_wait red_add red_inside green_wait green_add green_inside : Pc

pub data Act : Type 0 where
  go construct_red construct_green destroy : Act

pub record System : Type 0 where
  pub barrier : ColorBarrier
  pub pc : ℕ → Pc

unfoldable pub start : System
start = record { barrier = record { red_counter = 0; green_counter = 0 }; pc = λ i. idle }

-- `fetch_add(1)` and `fetch_sub(1)`
abbrev pub incremented : ℕ → ℕ
incremented m = (m + 1) % 2 ^ 64

abbrev pub decremented : ℕ → ℕ
decremented m = (m + 2 ^ 64 - 1) % 2 ^ 64

module _ (s : System) (i : ℕ) where
  abbrev move : ColorBarrier → Pc → System
  move b p = record { barrier = b; pc = update s.pc i p }

  -- The constructor of `red_lock`: the loop on the other counter, and the increment.
  unfoldable pub step_red_wait : System
  step_red_wait = move s.barrier (if s.barrier.green_counter == 0 then red_add else red_wait)

  unfoldable pub step_red_add : System
  step_red_add =
      move (record s.barrier { red_counter = incremented s.barrier.red_counter }) red_inside

  -- `~red_lock`
  unfoldable pub step_red_inside : Act → System
  step_red_inside destroy =
      move (record s.barrier { red_counter = decremented s.barrier.red_counter }) idle
  step_red_inside _ = move s.barrier red_inside

  -- The same for `green_lock`.
  unfoldable pub step_green_wait : System
  step_green_wait = move s.barrier (if s.barrier.red_counter == 0 then green_add else green_wait)

  unfoldable pub step_green_add : System
  step_green_add =
      move (record s.barrier { green_counter = incremented s.barrier.green_counter }) green_inside

  unfoldable pub step_green_inside : Act → System
  step_green_inside destroy =
      move (record s.barrier { green_counter = decremented s.barrier.green_counter }) idle
  step_green_inside _ = move s.barrier green_inside

  -- One access of thread `i`, which stands at the given place.
  unfoldable pub step : Pc → Act → System
  unfolding step_red_wait step_red_add step_red_inside step_green_wait step_green_add
      step_green_inside
  step idle construct_red = move s.barrier red_wait
  step idle construct_green = move s.barrier green_wait
  step idle _ = move s.barrier idle
  step red_wait a = step_red_wait
  step red_add a = step_red_add
  step red_inside a = step_red_inside a
  step green_wait a = step_green_wait
  step green_add a = step_green_add
  step green_inside a = step_green_inside a

-- A schedule of `n` threads.
unfoldable pub turn : (n : ℕ) → System → ℕ × Act → System
turn n s (i, a) = if ltb i n then step s i (s.pc i) a else s

unfoldable pub run : (n : ℕ) → System → List (ℕ × Act) → System
run n s [] = s
run n s (x ∷ xs) = run n (turn n s x) xs
