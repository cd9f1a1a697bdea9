-- ===== src/Algo/Tests.antt =====
-- The ring counters at concrete values.
use fast_mpmc_queue.Prelude.{
  ℕ, ◌≢◌, ◌≤◌, ◌+◌, ◌%◌, ◌<◌, ◌≡◌, refl, Bool, true, false, some, List, [], ◌∷◌, arith,
}
use fast_mpmc_queue.Algo.{reduce, iterate_post_inc, iterate_pre_inc}
use fast_mpmc_queue.Algo.Laws.{LastSeen, iterate_post_inc_lem, iterate_pre_inc_lem}

-- The counter passes the end of an array of four slots, and is folded back unless the
-- compare-exchange fails, spuriously or because another thread has taken the counter on.
post_inc_wraps : iterate_post_inc 4 3 4 false ≡ (0, 3)
unfolding iterate_post_inc reduce
post_inc_wraps = refl

post_inc_spurious : iterate_post_inc 4 5 6 true ≡ (6, 1)
unfolding iterate_post_inc reduce
post_inc_spurious = refl

post_inc_overtaken : iterate_post_inc 4 5 7 false ≡ (7, 1)
unfolding iterate_post_inc reduce
post_inc_overtaken = refl

iterate_post_inc_example :
    let out = iterate_post_inc 4 7 9 false in
    (out.1 ≡ 7 % 4)
    × (out.1 < 4)
    × (out.0 % 4 ≡ 9 % 4)
    × (◌≢◌ {A = ℕ} 9 8 → out.0 ≡ 9)
    × (◌≡◌ {A = ℕ} 9 8 → 4 ≤ 9 → false ≡ false → out.0 + 4 ≡ 9)
iterate_post_inc_example = iterate_post_inc_lem 4 7 9 false (omega arith)

abbrev contended : List (ℕ × Bool)
contended = (5, false) ∷ (6, true) ∷ (6, false) ∷ []

iterate_pre_inc_example :
    (out : ℕ × List (ℕ × Bool)) × (iterate_pre_inc 4 3 contended ≡ some out)
    × LastSeen 4 contended out
iterate_pre_inc_example = iterate_pre_inc_lem 4 (omega arith) 3 ((5, false) ∷ []) 6 true
