-- ===== src/Nodes/Destroy.antt =====
-- The loops of the destructors of mpmcdd_queue and mpmc_queue: include/xtxn/mpmcdd_queue.hpp and
-- include/xtxn/mpmc_queue.hpp. There is no result if the fuel runs out, or if a node is deleted that
-- has been deleted before.
use fast_mpmc_queue.Prelude.{
  ℕ, zero, suc, ◌+◌, ◌-◌, ◌≤◌, ◌<◌, ◌≡◌, refl, sym, ap, ◌∙◌, Bool, true, false, ◌&&◌, ◌||◌, arith,
  ltb, leb, if◌then◌else◌, Option, none, some, List, [], ◌∷◌, update, length, total, total-change,
  total-eq-zero, total-le_mul,
}
use fast_mpmc_queue.Nodes.{Below, has, Distinct, Chained, successor}

infixl 5 ◌>>=◌
abbrev ◌>>=◌ {ℓ κ} : {A : Type ℓ} {B : Type κ} → Option A → (A → Option B) → Option B
none >>= f = none
some a >>= f = f a

-- `delete`
delete_node : (freed : ℕ → Bool) (k : ℕ) → Option (ℕ → Bool)
delete_node freed k = if freed k then none else some (update freed k true)

-- The first loop: the nodes that are not marked as dequeued.
live_loop :
    (next : ℕ → Option ℕ) (marked : ℕ → Bool) (fuel : ℕ) (freed : ℕ → Bool) (current : Option ℕ)
    → Option (ℕ → Bool)
unfolding delete_node
live_loop next marked fuel freed none = some freed
live_loop next marked zero freed (some k) = none
live_loop next marked (suc fuel) freed (some k) =
    let rest = live_loop next marked fuel (update freed k true) (next k) in
    let skip = live_loop next marked fuel freed (next k) in
    if marked k then skip else elim (delete_node freed k) [ none ↦ none | some f ↦ rest ]

-- The second loop: the nodes that wait for deletion.
list_loop :
    (next_deleted : ℕ → Option ℕ) (fuel : ℕ) (freed : ℕ → Bool) (current : Option ℕ)
    → Option (ℕ → Bool)
unfolding delete_node
list_loop next_deleted fuel freed none = some freed
list_loop next_deleted zero freed (some k) = none
list_loop next_deleted (suc fuel) freed (some k) =
    let rest = list_loop next_deleted fuel (update freed k true) (next_deleted k) in
    elim (delete_node freed k) [ none ↦ none | some f ↦ rest ]

-- The body of the destructor.
pub destroy_nodes :
    (next next_deleted : ℕ → Option ℕ) (marked : ℕ → Bool) (fuel head : ℕ) (deleted : Option ℕ)
    (freed : ℕ → Bool)
    → Option (ℕ → Bool)
unfolding live_loop list_loop delete_node
destroy_nodes next next_deleted marked fuel head deleted freed = do
  live ← live_loop next marked fuel freed (next head)
  all ← delete_node live head
  list_loop next_deleted fuel all deleted

-- The first loop from node `k`, when no node from there on is marked.
live_loop_lem :
    (next : ℕ → Option ℕ) (marked : ℕ → Bool) (count n k fuel : ℕ) (freed : ℕ → Bool)
    → n ≤ fuel
    → k + n ≡ count
    → ((j : ℕ) → next j ≡ successor count j)
    → ((j : ℕ) → k ≤ j → marked j ≡ false)
    → ((j : ℕ) → k ≤ j → freed j ≡ false)
    → (x : Option ℕ) → x ≡ (if ltb k count then some k else none)
    → (r : ℕ → Bool) × (live_loop next marked fuel freed x ≡ some r)
      × ((j : ℕ) → r j ≡ (freed j || (leb k j && ltb j count)))
unfolding live_loop delete_node
live_loop_lem next marked count zero k fuel freed h e links m f x g =
    let g' : x ≡ none = ground arith in (freed, rw g' refl, λ j. ground arith)
live_loop_lem next marked count (suc n) k zero freed h e links m f x g = absurd (omega arith)
live_loop_lem next marked count (suc n) k (suc fuel) freed h e links m f x g =
    let g' : x ≡ some k = ground arith in
    let (r, e', s) =
      live_loop_lem next marked count n (k + 1) fuel (update freed k true) (omega arith)
        (omega arith) links (λ j l. m j (omega arith)) (λ j l. ground (arith, f j)) (next k)
        (links k) in
    (r, rw (g', m k (omega arith), f k (omega arith)) e', λ j. ground (arith, s j, f k))

list_loop_step :
    (nd : ℕ → Option ℕ) (fuel : ℕ) (freed : ℕ → Bool) (k : ℕ)
    → freed k ≡ false
    → list_loop nd (suc fuel) freed (some k) ≡ list_loop nd fuel (update freed k true) (nd k)
unfolding list_loop delete_node
list_loop_step nd fuel freed k f = rw (f, list_loop) refl

-- The second loop along a list.
list_loop_lem :
    (nd : ℕ → Option ℕ) (ks : List ℕ) (fuel : ℕ) (freed : ℕ → Bool) (x : Option ℕ)
    → length ks ≤ fuel
    → Chained nd x ks
    → Distinct ks
    → ((j : ℕ) → has j ks ≡ true → freed j ≡ false)
    → (r : ℕ → Bool) × (list_loop nd fuel freed x ≡ some r)
      × ((j : ℕ) → r j ≡ (freed j || has j ks))
unfolding list_loop
list_loop_lem nd [] fuel freed x h ch d f = (freed, rw ch refl, λ j. ground arith)
list_loop_lem nd (k ∷ ks) zero freed x h ch d f = absurd (omega arith)
list_loop_lem nd (k ∷ ks) (suc fuel) freed x h ch d f =
    let (r, e, s) =
      list_loop_lem nd ks fuel (update freed k true) (nd k) (omega arith) ch.1 d.1
        (λ j l. ground (arith, f j)) in
    (
      r,
      ap (λ y. list_loop nd (suc fuel) freed y) ch.0
          ∙ list_loop_step nd fuel freed k (f k (ground arith))
          ∙ e,
      λ j. ground (arith, s j),
    )

unfreed_at : (b : Bool) (k : ℕ) → (b ≡ true → k < k) → b ≡ false
unfreed_at true k h = absurd (omega (arith, h refl))
unfreed_at false k h = refl

-- What the first loop leaves of a node that it does not reach.
unreached :
    (b : Bool) (head j count : ℕ)
    → j ≤ head
    → b ≡ false
    → (b || (leb (head + 1) j && ltb j count)) ≡ false
unreached b head j count h e = ground arith

-- The whole destructor, when no node after the head is marked, none from the head on is deleted, and
-- the list consists of nodes behind the head that are not deleted.
pub destroy_nodes_lem :
    (next nd : ℕ → Option ℕ) (marked : ℕ → Bool) (count head : ℕ) (deleted : Option ℕ)
    (freed : ℕ → Bool) (ks : List ℕ)
    → head < count
    → ((j : ℕ) → next j ≡ successor count j)
    → ((j : ℕ) → head < j → marked j ≡ false)
    → ((j : ℕ) → freed j ≡ true → j < head)
    → length ks ≤ count
    → Chained nd deleted ks
    → Distinct ks
    → ((j : ℕ) → has j ks ≡ true → (j < head) × (freed j ≡ false))
    → (r : ℕ → Bool) × (destroy_nodes next nd marked count head deleted freed ≡ some r)
      × ((j : ℕ) → r j ≡ (freed j || has j ks || (leb head j && ltb j count)))
unfolding destroy_nodes delete_node
destroy_nodes_lem next nd marked count head deleted freed ks h links m f len ch d behind =
    let (live, e, s) =
      live_loop_lem next marked count (count - (head + 1)) (head + 1) count freed (omega arith)
        (omega arith) links (λ j l. m j (omega arith)) (λ j l. ground (arith, f j)) (next head)
        (links head) in
    let unfreed : live head ≡ false =
      s head
      ∙ unreached (freed head) head head count (omega arith)
          (unfreed_at (freed head) head (f head)) in
    let waits : (j : ℕ) → has j ks ≡ true → update live head true j ≡ false = λ j l.
      let (lo, g) = behind j l in
      other live head j lo (s j ∙ unreached (freed j) head j count (omega arith) g) in
    let (r, e', s') = list_loop_lem nd ks count (update live head true) deleted len ch d waits in
    (r, rw (e, unfreed) e', λ j. s' j ∙ parts live freed head count j (has j ks) h (s j))
  where
    other :
        (live : ℕ → Bool) (head j : ℕ) → j < head → live j ≡ false → update live head true j ≡ false
    other live head j h e = ground arith

    parts :
        (live freed : ℕ → Bool) (head count j : ℕ) (b : Bool)
        → head < count
        → live j ≡ (freed j || (leb (head + 1) j && ltb j count))
        → (update live head true j || b) ≡ (freed j || b || (leb head j && ltb j count))
    parts live freed head count j b h e = ground arith

-- Distinct numbers below a bound are no more than the bound.
weight : List ℕ → ℕ → ℕ
weight ks j = if has j ks then 1 else 0

length-weight :
    (n : ℕ) (ks : List ℕ)
    → Distinct ks
    → ((j : ℕ) → has j ks ≡ true → j < n)
    → length ks ≡ total n (weight ks)
unfolding weight
length-weight n [] d h = sym (total-eq-zero n (weight []) (λ j l. refl))
length-weight n (k ∷ ks) d h =
    let change =
      total-change n (weight (k ∷ ks)) (weight ks) k (h k (ground arith)) (λ j l. ground arith) in
    let one : weight (k ∷ ks) k ≡ 1 = ground arith in
    let fresh : weight ks k ≡ 0 = rw d.0 refl in
    let ih = length-weight n ks d.1 (λ j l. h j (ground arith)) in
    omega (arith, change, one, fresh, ih)

pub length-Distinct :
    (n : ℕ) (ks : List ℕ) → Distinct ks → ((j : ℕ) → has j ks ≡ true → j < n) → length ks ≤ n
unfolding weight
length-Distinct n ks d h =
    let most = total-le_mul n 1 (weight ks) (λ j. ground arith) in
    omega (arith, length-weight n ks d h, most)

-- The nodes of a list are below a bound, if its first one and the successors are.
pub Chained-Below :
    (b : ℕ) (nd : ℕ → Option ℕ) (x : Option ℕ) (ks : List ℕ)
    → Below b x
    → ((j : ℕ) → Below b (nd j))
    → Chained nd x ks
    → (j : ℕ) → has j ks ≡ true
    → j < b
Chained-Below b nd x [] h g ch j l = cc
Chained-Below b nd x (k ∷ ks) h g ch j l =
    let here : k < b = rw ch.0 at h in ground (arith, Chained-Below b nd (nd k) ks (g k) g ch.1 j)
