-- ===== src/Algo/Laws.antt =====
-- What the ring counters return.
use native.Mathlib.Nat.{mod-eq-sub-mod, mod-eq_of_lt, mod-lt}
use fast_mpmc_queue.Prelude.{
  ℕ, zero, suc, ◌+◌, ◌-◌, ◌%◌, ◌≤◌, ◌<◌, ◌≡◌, ◌≢◌, if◌then◌else◌, refl, inl, inr, Bool, false, not,
  ◌&&◌, ◌∙◌, ap, sym, ==_refl, some, List, [], ◌∷◌, ◌++◌, arith, leb, ◌==◌, Bool-cases,
}
use fast_mpmc_queue.Algo.{
  next_of, reduce_loop, reduce, fold_back, iterate_post_inc, iterate_pre_loop, iterate_pre_inc,
}

reduce_loop-mod :
    (fuel size current : ℕ)
    → 0 < size
    → current ≤ fuel
    → reduce_loop fuel size current ≡ current % size
unfolding reduce_loop
reduce_loop-mod zero size current p h = sym (mod-eq_of_lt (omega arith))
reduce_loop-mod (suc fuel) size current p h = elim (Bool-cases (leb size current)) [
  | inl more ↦ rw more (
      reduce_loop-mod fuel size (current - size) p (ground arith)
      ∙ sym (mod-eq-sub-mod (ground arith)))
  | inr done ↦ rw done (sym (mod-eq_of_lt (ground arith)))
]

-- The subtraction loop computes the remainder.
pub reduce-mod : (size current : ℕ) → 0 < size → reduce size current ≡ current % size
unfolding reduce
reduce-mod size current p = reduce_loop-mod current size current p (omega arith)

-- A counter that the weak compare-exchange folds back, or leaves as it finds it, names the same slot.
pub fold_back-mod :
    (size next seen : ℕ) (spurious : Bool)
    → size ≤ next
    → fold_back size next seen spurious % size ≡ seen % size
fold_back-mod size next seen spurious h = elim (Bool-cases ((seen == next) && not spurious)) [
  | inl hit ↦ let same : seen ≡ next = ground arith in rw (hit, same) (sym (mod-eq-sub-mod h))
  | inr miss ↦ rw miss refl
]

-- For a size above 1, whatever value the other threads leave in the counter between the `fetch_add`
-- and the compare-exchange, and whether or not the latter fails spuriously: the index that
-- `iterate_post_inc` hands out is in range, and is the value that the `fetch_add` found modulo the
-- size. The counter stays congruent to what the compare-exchange finds. It is left as it is found if
-- that is not the incremented value; if it is, the incremented value is past the size, and there is no
-- spurious failure, it is taken back by the size.
pub iterate_post_inc_lem :
    (size value seen : ℕ) (spurious : Bool)
    → 1 < size
    → let out = iterate_post_inc size value seen spurious in
      (out.1 ≡ value % size)
      × (out.1 < size)
      × (out.0 % size ≡ seen % size)
      × (seen ≢ next_of value → out.0 ≡ seen)
      × (seen ≡ next_of value → size ≤ seen → spurious ≡ false → out.0 + size ≡ seen)
unfolding iterate_post_inc
iterate_post_inc_lem size value seen spurious p = (
  reduce-mod size value (omega arith),
  rw (reduce-mod size value (omega arith)) (mod-lt value (omega arith)),
  elim (Bool-cases (leb size (next_of value))) [
    | inl wraps ↦ rw wraps (fold_back-mod size (next_of value) seen spurious (ground arith))
    | inr stays ↦ rw stays refl
  ],
  left_alone size (next_of value) seen spurious,
  taken_back size (next_of value) seen spurious,
)
  where
    left_alone :
        (size next seen : ℕ) (spurious : Bool)
        → seen ≢ next
        → (if leb size next then fold_back size next seen spurious else seen) ≡ seen
    left_alone size next seen spurious h = ground arith

    taken_back :
        (size next seen : ℕ) (spurious : Bool)
        → seen ≡ next
        → size ≤ seen
        → spurious ≡ false
        → (if leb size next then fold_back size next seen spurious else seen) + size ≡ seen
    taken_back size next seen spurious e h g = ground arith

-- What a result says of the round that succeeded, the last one used.
abbrev pub LastSeen : (size : ℕ) → List (ℕ × Bool) → ℕ × List (ℕ × Bool) → Type 0
LastSeen size rounds (r, rest) =
    (seen : ℕ) × (before : List (ℕ × Bool)) × (rounds ≡ before ++ (seen, false) ∷ rest)
    × (r ≡ next_of seen % size)

module _ (size : ℕ) (p : 1 < size) where
  iterate_pre_loop-LastSeen :
      (current : ℕ) (rounds : List (ℕ × Bool)) {out : ℕ × List (ℕ × Bool)}
      → iterate_pre_loop size current rounds ≡ some out
      → LastSeen size rounds out
  unfolding iterate_pre_loop
  iterate_pre_loop-LastSeen current [] e = cc
  iterate_pre_loop-LastSeen current ((seen, spurious) ∷ rounds) e =
      elim (Bool-cases ((seen == current) && not spurious)) [
        | inl hit ↦ (seen, [], ground arith, ground (arith, reduce-mod size (next_of seen)))
        | inr miss ↦
            let (v, before, split, result) = iterate_pre_loop-LastSeen seen rounds (ground arith) in
            (v, (seen, spurious) ∷ before, ap (λ l. (seen, spurious) ∷ l) split, result)
      ]

  -- Two rounds that see the same value, the second without a spurious failure, are enough.
  iterate_pre_loop-returns :
      (current : ℕ) (before : List (ℕ × Bool)) (v : ℕ) (spurious : Bool)
      → (out : ℕ × List (ℕ × Bool)) × (iterate_pre_loop size current
            (before ++ (v, spurious) ∷ (v, false) ∷ [])
          ≡ some out)
  unfolding iterate_pre_loop
  iterate_pre_loop-returns current [] v spurious =
      elim (Bool-cases ((v == current) && not spurious)) [
        | inl hit ↦ rw hit (_, refl)
        | inr miss ↦ rw (miss, ==_refl v) (_, refl)
      ]
  iterate_pre_loop-returns current ((seen, failed) ∷ before) v spurious =
      elim (Bool-cases ((seen == current) && not failed)) [
        | inl hit ↦ rw hit (_, refl)
        | inr miss ↦
            let (out, e) = iterate_pre_loop-returns seen before v spurious in rw miss (out, e)
      ]

  -- For a size above 1: whatever the other threads leave in the counter, `iterate_pre_inc` returns
  -- at the latest when two rounds in a row see the same value and the second does not fail
  -- spuriously. Its result is one more than the value that its last round saw, modulo the size.
  pub iterate_pre_inc_lem :
      (value : ℕ) (before : List (ℕ × Bool)) (v : ℕ) (spurious : Bool)
      → let rounds = before ++ (v, spurious) ∷ (v, false) ∷ [] in
        (out : ℕ × List (ℕ × Bool)) × (iterate_pre_inc size value rounds ≡ some out)
        × LastSeen size rounds out
  unfolding iterate_pre_inc
  iterate_pre_inc_lem value before v spurious =
      let (out, e) = iterate_pre_loop-returns value before v spurious in
      (out, e, iterate_pre_loop-LastSeen value _ e)

-- The index handed out is inside the array.
pub reduce-lt : (size current : ℕ) → 1 < size → reduce size current < size
reduce-lt size current p = rw (reduce-mod size current (omega arith)) (mod-lt current (omega arith))
