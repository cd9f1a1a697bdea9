-- ===== src/Algo.antt =====
-- include/xtxn/algo.hpp: the ring counters by which the static queue visits its slots. The counter
-- is an unsigned 64-bit atomic. What a function does between two accesses of the counter is a
-- function here, so that the queue can interleave the accesses of several threads.
pub mod Laws
mod Tests
use fast_mpmc_queue.Prelude.{
  ℕ, zero, suc, ◌+◌, ◌-◌, ◌%◌, ◌^◌, Bool, not, ◌&&◌, Option, none, some, List, [], ◌∷◌, ltb, leb,
  ◌==◌, if◌then◌else◌,
}

-- `current + 1` in the counter's type
abbrev pub next_of : ℕ → ℕ
next_of current = (current + 1) % 2 ^ 64

-- `while (current >= B) current -= B;` on fuel
reduce_loop : ℕ → ℕ → ℕ → ℕ
reduce_loop zero size current = current
reduce_loop (suc fuel) size current =
    let rest = reduce_loop fuel size (current - size) in if leb size current then rest else current

-- Each round takes at least one off, so `current` rounds are enough.
unfoldable pub reduce : ℕ → ℕ → ℕ
unfolding reduce_loop
reduce size current = reduce_loop current size current

-- What `compare_exchange_weak(next, next - B)` leaves in the counter: `spurious` is its licence to
-- fail although the counter holds `next`.
abbrev pub fold_back : (size next value : ℕ) (spurious : Bool) → ℕ
fold_back size next value spurious = if (value == next) && not spurious then next - size else value

-- `iterate_post_inc` from the value that its `fetch_add` finds: other threads run before its
-- compare-exchange, which finds `seen`. The counter that the function leaves behind, and the result.
pub iterate_post_inc : (size value seen : ℕ) (spurious : Bool) → ℕ × ℕ
iterate_post_inc size value seen spurious =
    let next = next_of value in
    (if leb size next then fold_back size next seen spurious else seen, reduce size value)

-- `iterate_pre_inc`: at each round the compare-exchange sees a value that other threads may have
-- left, and may fail spuriously. The result is the value stored and returned, with the rounds that
-- were not needed; `none` if the rounds given ran out.
iterate_pre_loop : (size current : ℕ) → List (ℕ × Bool) → Option (ℕ × List (ℕ × Bool))
iterate_pre_loop size current [] = none
iterate_pre_loop size current ((seen, spurious) ∷ rounds) =
    let retry = iterate_pre_loop size seen rounds in
    if (seen == current) && not spurious
    then some (reduce size (next_of current), rounds)
    else retry

pub iterate_pre_inc : (size value : ℕ) → List (ℕ × Bool) → Option (ℕ × List (ℕ × Bool))
unfolding iterate_pre_loop
iterate_pre_inc size value rounds = iterate_pre_loop size value rounds
