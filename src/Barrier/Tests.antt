-- ===== src/Barrier/Tests.antt =====
-- Runs of the barrier with two threads.
use fast_mpmc_queue.Prelude.{ℕ, ◌≡◌, refl, arith, List, [], ◌∷◌}
use fast_mpmc_queue.Barrier.{
  red_inside, red_wait, green_wait, green_inside, Act, go, construct_red, construct_green, start,
  step, turn, run,
}
use fast_mpmc_queue.Barrier.Counters.{is_red, is_green, count, counters_count, color_blocks}

abbrev red_first : List (ℕ × Act)
red_first = (0, construct_red) ∷ (0, go) ∷ (0, go) ∷ (1, construct_green) ∷ (1, go) ∷ []

-- Both threads pass the test before either of them counts.
abbrev crossing : List (ℕ × Act)
crossing = (0, construct_red) ∷ (1, construct_green) ∷ (0, go) ∷ (1, go) ∷ (0, go) ∷ (1, go) ∷ []

red_is_inside : (run 2 start red_first).pc 0 ≡ red_inside
unfolding run turn step start
red_is_inside = refl

crossing-red : (run 2 start crossing).pc 0 ≡ red_inside
unfolding run turn step start
crossing-red = refl

crossing-green : (run 2 start crossing).pc 1 ≡ green_inside
unfolding run turn step start
crossing-green = refl

counters_count_example :
    let s = run 2 start crossing in
    (s.barrier.red_counter ≡ count is_red 2 s.pc)
    × (s.barrier.green_counter ≡ count is_green 2 s.pc)
counters_count_example = counters_count 2 (omega arith) crossing

color_blocks_example :
    let s = run 2 start red_first in
    (s.pc 0 ≡ red_inside → (step s 1 green_wait go).pc 1 ≡ green_wait)
    × (s.pc 0 ≡ green_inside → (step s 1 red_wait go).pc 1 ≡ red_wait)
color_blocks_example = color_blocks 2 (omega arith) red_first 0 1 go (omega arith)
