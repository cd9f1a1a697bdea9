-- ===== src/Barrier/Counters.antt =====
-- The counters of `color_barrier`, and the locks that are alive.
use fast_mpmc_queue.Prelude.{
  ℕ, ◌+◌, ◌^◌, ◌≤◌, ◌<◌, ◌≡◌, refl, inl, inr, arith, Bool-cases, ltb, List, [], ◌∷◌, update, total,
  total-update, total-le_mul, total-eq-zero, le-total,
}
use fast_mpmc_queue.Barrier.{
  ColorBarrier, Pc, idle, red_wait, red_add, red_inside, green_wait, green_add, green_inside, Act,
  go, construct_red, construct_green, destroy, System, start, step, turn, run,
}

abbrev pub is_red : Pc → ℕ
is_red red_inside = 1
is_red _ = 0

abbrev pub is_green : Pc → ℕ
is_green green_inside = 1
is_green _ = 0

-- How many of the first `n` threads.
pub count : (Pc → ℕ) → ℕ → (ℕ → Pc) → ℕ
count w n pc = total n (λ i. w (pc i))

count-update :
    (w : Pc → ℕ) (n : ℕ) (pc : ℕ → Pc) (i : ℕ) (p : Pc)
    → i < n
    → count w n (update pc i p) + w (pc i) ≡ count w n pc + w p
unfolding count
count-update w n pc i p h = total-update n w pc i p h

count_le : (w : Pc → ℕ) (n : ℕ) (pc : ℕ → Pc) → ((p : Pc) → w p ≤ 1) → count w n pc ≤ n
unfolding count
count_le w n pc h = omega (arith, total-le_mul n 1 (λ i. w (pc i)) (λ i. h (pc i)))

is_red_le : (p : Pc) → is_red p ≤ 1
is_red_le p = ground arith

is_green_le : (p : Pc) → is_green p ≤ 1
is_green_le p = ground arith

le-count : (w : Pc → ℕ) (n : ℕ) (pc : ℕ → Pc) (i : ℕ) → i < n → w (pc i) ≤ count w n pc
unfolding count
le-count w n pc i h = le-total n (λ j. w (pc j)) i h

module _ (n : ℕ) (fits : n < 2 ^ 64) where
  pub record IsCounted (s : System) : Type 0 where
    pub reds : s.barrier.red_counter ≡ count is_red n s.pc
    pub greens : s.barrier.green_counter ≡ count is_green n s.pc

  start-IsCounted : IsCounted start
  unfolding start count
  start-IsCounted = record {
    reds = rw (total-eq-zero n (λ i. 0) (λ i h. refl)) refl;
    greens = rw (total-eq-zero n (λ i. 0) (λ i h. refl)) refl;
  }

  module _ (s : System) (i : ℕ) (thread : i < n) (ok : IsCounted s) where
    reds_after :
        (p p' : Pc)
        → s.pc i ≡ p
        → (count is_red n (update s.pc i p') + is_red p ≡ count is_red n s.pc + is_red p')
          × (count is_red n (update s.pc i p') ≤ n)
    reds_after p p' e = (
      rw e at (count-update is_red n s.pc i p' thread),
      count_le is_red n (update s.pc i p') is_red_le,
    )

    greens_after :
        (p p' : Pc)
        → s.pc i ≡ p
        → (count is_green n (update s.pc i p') + is_green p ≡ count is_green n s.pc + is_green p')
          × (count is_green n (update s.pc i p') ≤ n)
    greens_after p p' e = (
      rw e at (count-update is_green n s.pc i p' thread),
      count_le is_green n (update s.pc i p') is_green_le,
    )

    -- The counters move with the thread.
    moved :
        (b : ColorBarrier) (p p' : Pc)
        → s.pc i ≡ p
        → b.red_counter + is_red p ≡ s.barrier.red_counter + is_red p'
        → b.green_counter + is_green p ≡ s.barrier.green_counter + is_green p'
        → IsCounted (record { barrier = b; pc = update s.pc i p' })
    moved b p p' e f g = record {
      reds = omega (arith, ok.reds, reds_after p p' e);
      greens = omega (arith, ok.greens, greens_after p p' e);
    }

    step-IsCounted : (p : Pc) (a : Act) → s.pc i ≡ p → IsCounted (step s i p a)
    unfolding step
    step-IsCounted idle go e = moved s.barrier idle _ e refl refl
    step-IsCounted idle construct_red e = moved s.barrier idle _ e refl refl
    step-IsCounted idle construct_green e = moved s.barrier idle _ e refl refl
    step-IsCounted idle destroy e = moved s.barrier idle _ e refl refl
    step-IsCounted red_wait a e = moved s.barrier red_wait _ e (ground arith) (ground arith)
    step-IsCounted red_add a e =
        moved _ red_add _ e (omega (arith, ok.reds, reds_after red_add red_inside e)) refl
    step-IsCounted red_inside destroy e =
        moved _ red_inside _ e
          (omega (arith, ok.reds, reds_after red_inside idle e, count_le is_red n s.pc is_red_le))
          refl
    step-IsCounted red_inside _ e = moved s.barrier red_inside _ e refl refl
    step-IsCounted green_wait a e = moved s.barrier green_wait _ e (ground arith) (ground arith)
    step-IsCounted green_add a e =
        moved _ green_add _ e refl (omega (arith, ok.greens, greens_after green_add green_inside e))
    step-IsCounted green_inside destroy e = moved _ green_inside _ e refl (
        omega (
          arith,
          ok.greens,
          greens_after green_inside idle e,
          count_le is_green n s.pc is_green_le,
        ))
    step-IsCounted green_inside _ e = moved s.barrier green_inside _ e refl refl

  turn-IsCounted : (s : System) (x : ℕ × Act) → IsCounted s → IsCounted (turn n s x)
  unfolding turn
  turn-IsCounted s (i, a) ok = elim (Bool-cases (ltb i n)) [
    | inl thread ↦ rw thread (step-IsCounted s i (ground arith) ok (s.pc i) a refl)
    | inr none ↦ rw none ok
  ]

  run-IsCounted : (s : System) (xs : List (ℕ × Act)) → IsCounted s → IsCounted (run n s xs)
  unfolding run
  run-IsCounted s [] ok = ok
  run-IsCounted s (x ∷ xs) ok = run-IsCounted (turn n s x) xs (turn-IsCounted s x ok)

  -- With fewer than 2^64 threads: after every schedule, the red counter is the number of threads with
  -- a red lock alive, and the green counter the number of those with a green one.
  pub counters_count :
      (xs : List (ℕ × Act))
      → let s = run n start xs in
        (s.barrier.red_counter ≡ count is_red n s.pc)
        × (s.barrier.green_counter ≡ count is_green n s.pc)
  counters_count xs = let ok = run-IsCounted start xs start-IsCounted in (ok.reds, ok.greens)

  -- With fewer than 2^64 threads: after every schedule, as long as some thread has a lock of one
  -- colour alive, a thread in the loop of the other colour's constructor stays in it.
  pub color_blocks :
      (xs : List (ℕ × Act)) (i j : ℕ) (a : Act)
      → i < n
      → let s = run n start xs in
        (s.pc i ≡ red_inside → (step s j green_wait a).pc j ≡ green_wait)
        × (s.pc i ≡ green_inside → (step s j red_wait a).pc j ≡ red_wait)
  unfolding step
  color_blocks xs i j a h = (
    λ e. ground (arith, counters_count xs, one_red e),
    λ e. ground (arith, counters_count xs, one_green e),
  )
    where
      one_red : (run n start xs).pc i ≡ red_inside → 1 ≤ count is_red n (run n start xs).pc
      one_red e = rw e at (le-count is_red n (run n start xs).pc i h)

      one_green : (run n start xs).pc i ≡ green_inside → 1 ≤ count is_green n (run n start xs).pc
      one_green e = rw e at (le-count is_green n (run n start xs).pc i h)
