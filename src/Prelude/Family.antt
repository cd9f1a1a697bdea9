-- ===== src/Prelude/Family.antt =====
-- Families indexed by a number (the slots of an array, the threads of a program): the write at one
-- index, and sums over the first `n`.
use Prim.Native.Nat.{ℕ, zero, suc, ◌+◌, ◌*◌, ◌≤◌, ◌<◌}
use mathlib.Core.Path.{◌≡◌, refl, fun_ext}
use mathlib.Core.Logic.{◌≢◌}
use native.Mathlib.Omega.{arith}
use native.Mathlib.Decide.{ℕ_discrete}
use native.Mathlib.Nat.{add-zero, add-suc}
use fast_mpmc_queue.Prelude.Tests.{◌==◌, if◌then◌else◌}

-- `f[i] = a`
abbrev pub update {ℓ} : {A : Type ℓ} → (ℕ → A) → ℕ → A → ℕ → A
update f i a j = if i == j then a else f j

pub apply-update {ℓ κ} :
    {A : Type ℓ} {B : Type κ} (g : A → B) (f : ℕ → A) (i : ℕ) (a : A)
    → ◌≡◌ {A = ℕ → B} (λ j. g (update f i a j)) (update (λ j. g (f j)) i (g a))
apply-update g f i a = fun_ext λ j. ground arith

-- w 0 + … + w (n - 1)
unfoldable pub total : ℕ → (ℕ → ℕ) → ℕ
total zero w = 0
total (suc n) w = total n w + w n

-- Two families that agree below `n` have one sum.
pub total-congr : (n : ℕ) (v w : ℕ → ℕ) → ((j : ℕ) → j < n → v j ≡ w j) → total n v ≡ total n w
unfolding total
total-congr zero v w h = refl
total-congr (suc n) v w h =
    omega (arith, h n (omega arith), total-congr n v w (λ j p. h j (omega arith)))

-- Families that differ at one index below `n` only.
pub total-change :
    (n : ℕ) (v w : ℕ → ℕ) (i : ℕ)
    → i < n
    → ((j : ℕ) → j ≢ i → v j ≡ w j)
    → total n v + w i ≡ total n w + v i
unfolding total
total-change zero v w i h e = absurd (omega arith)
total-change (suc n) v w i h e = elim (ℕ_discrete i n) [
  | yes p ↦ rw p (omega (arith, total-congr n v w (λ j q. e j (omega arith))))
  | no p ↦ omega (arith, total-change n v w i (omega arith) e, e n (omega arith))
]

-- The write at one index below `n` moves the sum by what the index weighs.
pub total-update {ℓ} :
    {A : Type ℓ} (n : ℕ) (w : A → ℕ) (f : ℕ → A) (i : ℕ) (a : A)
    → i < n
    → total n (λ j. w (update f i a j)) + w (f i) ≡ total n (λ j. w (f j)) + w a
total-update n w f i a h =
    let at_i : w (update f i a i) ≡ w a = ground arith in
    omega (
      arith,
      at_i,
      total-change n (λ j. w (update f i a j)) (λ j. w (f j)) i h (λ j e. ground arith),
    )

pub total-le_mul : (n m : ℕ) (w : ℕ → ℕ) → ((j : ℕ) → w j ≤ m) → total n w ≤ n * m
unfolding total
total-le_mul zero m w h = omega arith
total-le_mul (suc n) m w h = omega (arith, h n, total-le_mul n m w h)

pub total-eq-zero : (n : ℕ) (w : ℕ → ℕ) → ((j : ℕ) → j < n → w j ≡ 0) → total n w ≡ 0
unfolding total
total-eq-zero zero w h = refl
total-eq-zero (suc n) w h =
    omega (arith, h n (omega arith), total-eq-zero n w (λ j p. h j (omega arith)))

-- A positive term is at most the sum.
pub le-total : (n : ℕ) (w : ℕ → ℕ) (i : ℕ) → i < n → w i ≤ total n w
unfolding total
le-total zero w i h = absurd (omega arith)
le-total (suc n) w i h = elim (ℕ_discrete i n) [
  | yes p ↦ rw p (omega arith)
  | no p ↦ omega (arith, le-total n w i (omega arith))
]

pub total_mono : (n : ℕ) (v w : ℕ → ℕ) → ((j : ℕ) → v j ≤ w j) → total n v ≤ total n w
unfolding total
total_mono zero v w h = omega arith
total_mono (suc n) v w h = omega (arith, h n, total_mono n v w h)

-- More terms that weigh nothing.
pub total-extend : (m n : ℕ) (w : ℕ → ℕ) → ((j : ℕ) → n ≤ j → w j ≡ 0) → total (n + m) w ≡ total n w
unfolding total
total-extend zero n w h = rw add-zero
total-extend (suc m) n w h =
    rw add-suc (omega (arith, h (n + m) (omega arith), total-extend m n w h))

pub total-add : (n : ℕ) (v w : ℕ → ℕ) → total n (λ j. v j + w j) ≡ total n v + total n w
unfolding total
total-add zero v w = refl
total-add (suc n) v w = omega (arith, total-add n v w)

pub total-scale : (n m : ℕ) (w : ℕ → ℕ) → total n (λ j. m * w j) ≡ m * total n w
unfolding total
total-scale zero m w = omega arith
total-scale (suc n) m w = grind (arith, total-scale n m w)
