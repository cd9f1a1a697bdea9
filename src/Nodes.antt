-- ===== src/Nodes.antt =====
-- Queues of linked nodes: the pointers that wait in the nodes after the head, which
-- include/xtxn/mpsc_queue.hpp, mpmcsl_queue.hpp, mpmcdd_queue.hpp and mpmc_queue.hpp have in common.
pub mod Destroy
use mathlib.Core.Path.{subst}
use fast_mpmc_queue.Prelude.{
  ℕ, zero, suc, ◌+◌, ◌-◌, ◌≤◌, ◌<◌, ◌≡◌, refl, sym, ap, ◌∙◌, arith, ltb, Bool, true, false, ◌||◌,
  ◌&&◌, ◌==◌, if◌then◌else◌, Option, none, some, List, [], ◌∷◌, ◌++◌, update,
}

module _ {ℓ} {A : Type ℓ} where
  -- The pointers of `count` nodes after the head, the newest first.
  pub waiting : (data_of : ℕ → Option A) (head count : ℕ) → List (Option A)
  waiting d head zero = []
  waiting d head (suc count) = d (head + suc count) ∷ waiting d head count

  -- The pointers that `enqueue` has made.
  abbrev pub pointers : List A → List (Option A)
  pointers [] = []
  pointers (x ∷ xs) = some x ∷ pointers xs

  pub waiting-zero : (d : ℕ → Option A) (head : ℕ) → waiting d head 0 ≡ []
  unfolding waiting
  waiting-zero d head = refl

  -- The oldest pointer stands last.
  waiting-oldest :
      (d : ℕ → Option A) (head count : ℕ) (rest : List (Option A))
      → waiting d head (suc count) ++ rest ≡ waiting d (head + 1) count ++ d (head + 1) ∷ rest
  unfolding waiting
  waiting-oldest d head zero rest = refl
  waiting-oldest d head (suc count) rest =
      let e : head + suc (suc count) ≡ head + 1 + suc count = omega arith in
      rw e (ap (λ l. d (head + 1 + suc count) ∷ l) (waiting-oldest d head count rest))

  -- A node outside of the stretch does not matter.
  waiting-update :
      (d : ℕ → Option A) (head count k : ℕ) (x : Option A)
      → (k ≤ head → waiting (update d k x) head count ≡ waiting d head count)
        × (head + count < k → waiting (update d k x) head count ≡ waiting d head count)
  unfolding waiting
  waiting-update d head zero k x = (λ h. refl, λ h. refl)
  waiting-update d head (suc count) k x =
      let ih = waiting-update d head count k x in
      (λ h. ground (arith, ih.0 h), λ h. ground (arith, ih.1 (omega arith)))

  waiting-push :
      (d : ℕ → Option A) (head count : ℕ) (x : Option A)
      → waiting (update d (head + suc count) x) head (suc count) ≡ x ∷ waiting d head count
  unfolding waiting
  waiting-push d head count x =
      ground (arith, (waiting-update d head count (head + suc count) x).1 (omega arith))

  -- The equation between what entered, what waits and what has left, when a node is linked last and
  -- when the first one is taken.
  module _ (d : ℕ → Option A) (head count : ℕ) (enqueued : List A)
      (dequeued : List (Option A)) where
    pub fifo-push :
        (v : A)
        → pointers enqueued ≡ waiting d head count ++ dequeued
        → pointers (v ∷ enqueued)
          ≡ waiting (update d (head + suc count) (some v)) head (suc count) ++ dequeued
    fifo-push v e = rw (waiting-push d head count (some v)) (ap (λ l. some v ∷ l) e)

    pub fifo-take :
        pointers enqueued ≡ waiting d head (suc count) ++ dequeued
        → pointers enqueued
          ≡ waiting (update d (head + 1) none) (head + 1) count ++ d (head + 1) ∷ dequeued
    fifo-take e =
        e
        ∙ waiting-oldest d head count dequeued
        ∙ rw ((waiting-update d (head + 1) count (head + 1) none).0 (omega arith)) refl

-- `pointer == nullptr`
abbrev pub is_null : Option ℕ → Bool
is_null none = true
is_null (some n) = false

pub none_of_null : (x : Option ℕ) → is_null x ≡ true → x ≡ none
none_of_null none e = refl
none_of_null (some n) e = absurd (ground arith)

abbrev pub has : ℕ → List ℕ → Bool
has k [] = false
has k (j ∷ js) = (k == j) || has k js

abbrev pub Distinct : List ℕ → Type 0
Distinct [] = Unit
Distinct (k ∷ ks) = (has k ks ≡ false) × Distinct ks

-- The pointers lead from `x` through the nodes to a null pointer.
abbrev pub Chained : (next : ℕ → Option ℕ) → Option ℕ → List ℕ → Type 0
Chained next x [] = x ≡ none
Chained next x (k ∷ ks) = (x ≡ some k) × Chained next (next k) ks

-- The node that follows node `k`, when nodes are named in the order of their links.
abbrev pub successor : (count k : ℕ) → Option ℕ
successor count k = if ltb (k + 1) count then some (k + 1) else none

-- `count` nodes, each linked to the next one, and the head among them.
pub record IsOrdered {ℓ} {A : Type ℓ} (next : ℕ → Option ℕ) (data_of : ℕ → Option A)
    (count head : ℕ) (enqueued : List A) (dequeued : List (Option A)) : Type ℓ where
  pub inside : head < count
  pub links : (k : ℕ) → next k ≡ successor count k
  pub fifo : pointers enqueued ≡ waiting data_of head (count - suc head) ++ dequeued

-- A node, if there is one, is below a bound.
abbrev pub Below : ℕ → Option ℕ → Type 0
Below bound none = Unit
Below bound (some k) = k < bound

-- The node after `k`, if there is one, is the next one and exists.
abbrev pub Follows : (count k : ℕ) → Option ℕ → Type 0
Follows count k none = Unit
Follows count k (some j) = (j ≡ suc k) × (j < count)

pub Below-mono : (b c : ℕ) (x : Option ℕ) → b ≤ c → Below b x → Below c x
Below-mono b c none h g = tt
Below-mono b c (some k) h g = omega arith

pub Follows-mono : (b c k : ℕ) (x : Option ℕ) → b ≤ c → Follows b k x → Follows c k x
Follows-mono b c k none h g = tt
Follows-mono b c k (some j) h g = omega arith

module _ {ℓ} {A : Type ℓ} {next : ℕ → Option ℕ} {data_of : ℕ → Option A} {count head : ℕ}
    {enqueued : List A} {dequeued : List (Option A)}
    (ok : IsOrdered next data_of count head enqueued dequeued) where
  -- A node that exists and has no successor is the last one.
  pub last_open : (k : ℕ) → k < count → next k ≡ none → k + 1 ≡ count
  last_open k h e = ground (arith, ok.links k)

  next-some : (k j : ℕ) → next k ≡ some j → (j ≡ suc k) × (j < count)
  next-some k j e = ground (arith, ok.links k)

  pub Follows-next : (k : ℕ) (x : Option ℕ) → next k ≡ x → Follows count k x
  Follows-next k none e = tt
  Follows-next k (some j) e = next-some k j e

  -- When no node follows the head, all that entered has left.
  pub at_end : next head ≡ none → pointers enqueued ≡ dequeued
  at_end e =
      let none_waits : count - suc head ≡ 0 = omega (arith, last_open head ok.inside e) in
      ok.fifo
      ∙ ap (λ (c : ℕ). waiting data_of head c ++ dequeued) none_waits
      ∙ ap (λ l. l ++ dequeued) (waiting-zero data_of head)

  pub link-IsOrdered :
      (t : ℕ) (v : A)
      → t < count
      → next t ≡ none
      → IsOrdered
          (update next t (some count))
          (update data_of count (some v))
          (count + 1)
          head
          (v ∷ enqueued)
          dequeued
  link-IsOrdered t v h e =
      let m = count - suc head in
      let here : count ≡ head + suc m = omega (arith, ok.inside) in
      let more : count + 1 - suc head ≡ suc m = omega (arith, ok.inside) in
      record {
        inside = omega (arith, ok.inside);
        links = λ k. ground (arith, ok.links k, last_open t h e);
        fifo = rw more (
            subst
              (λ (c : ℕ).
                pointers (v ∷ enqueued)
                ≡ waiting (update data_of c (some v)) head (suc m) ++ dequeued)
              (sym here) (fifo-push data_of head m enqueued dequeued v ok.fifo));
      }

  pub take-IsOrdered :
      (first : ℕ)
      → next head ≡ some first
      → IsOrdered next (update data_of first none) count first enqueued (data_of first ∷ dequeued)
  take-IsOrdered first e =
      let f = next-some head first e in
      let m = count - suc first in
      let here : first ≡ head + 1 = omega (arith, f) in
      let less : count - suc head ≡ suc m = omega (arith, f) in
      record {
        inside = f.1;
        links = ok.links;
        fifo =
            subst
              (λ (x : ℕ).
                pointers enqueued ≡ waiting (update data_of x none) x m ++ data_of x ∷ dequeued)
              (sym here)
              (fifo-take data_of head m enqueued dequeued
                (ok.fifo ∙ ap (λ (c : ℕ). waiting data_of head c ++ dequeued) less));
      }

-- What the payloads of a list weigh.
unfoldable pub weigh {ℓ} : {A : Type ℓ} → (A → ℕ) → List A → ℕ
weigh w [] = 0
weigh w (v ∷ l) = w v + weigh w l

-- The threads of a schedule are the first `n`.
abbrev pub is_within {ℓ} : {B : Type ℓ} → (n : ℕ) → List (ℕ × B) → Bool
is_within n [] = true
is_within n ((i, a) ∷ xs) = ltb i n && is_within n xs
