-- ===== src/Epoch/Sweep.antt =====
-- include/xtxn/mpmc_queue.hpp: what `purge` does to the list of the nodes that wait for deletion.
use mathlib.Core.Path.{subst}
use fast_mpmc_queue.Prelude.{
  ℕ, zero, suc, ◌≡◌, ◌≢◌, inl, inr, refl, sym, true, false, not, ◌&&◌, ◌||◌, arith, leb,
  if◌then◌else◌, Option, some, List, [], ◌∷◌, replicate, update, Bool-cases,
}
use fast_mpmc_queue.Nodes.{has, Distinct, Chained}
use fast_mpmc_queue.Epoch.{
  Config, Queue, Return, Pc, purge_next, purge_at, purge_keep, purge_delete, purge_end,
  purge_unlock, go, System,
}
use fast_mpmc_queue.Epoch.Register.{move}
use fast_mpmc_queue.Epoch.Purge.{sweep_on}
use fast_mpmc_queue.Epoch.Machine.{step, run}

-- The nodes whose epoch is not below the bound.
abbrev pub recent : (bound : ℕ) (at : ℕ → ℕ) → List ℕ → List ℕ
recent bound at [] = []
recent bound at (k ∷ ks) =
    let rest = recent bound at ks in if leb bound (at k) then k ∷ rest else rest

-- The first `count` nodes, and the recent ones of the others.
abbrev pub retained : (count bound : ℕ) (at : ℕ → ℕ) → List ℕ → List ℕ
retained zero bound at ks = recent bound at ks
retained (suc count) bound at [] = []
retained (suc count) bound at (k ∷ ks) = k ∷ retained count bound at ks

has-recent :
    (j bound : ℕ) (at : ℕ → ℕ) (ks : List ℕ) → has j ks ≡ false → has j (recent bound at ks) ≡ false
has-recent j bound at [] h = refl
has-recent j bound at (k ∷ ks) h = ground (arith, has-recent j bound at ks)

pub has-retained :
    (j count bound : ℕ) (at : ℕ → ℕ) (ks : List ℕ)
    → has j ks ≡ false
    → has j (retained count bound at ks) ≡ false
has-retained j zero bound at ks h = has-recent j bound at ks h
has-retained j (suc count) bound at [] h = refl
has-retained j (suc count) bound at (k ∷ ks) h = ground (arith, has-retained j count bound at ks)

Chained-update :
    (next : ℕ → Option ℕ) (j : ℕ) (y x : Option ℕ) (ks : List ℕ)
    → has j ks ≡ false
    → Chained next x ks
    → Chained (update next j y) x ks
Chained-update next j y x [] h c = c
Chained-update next j y x (k ∷ ks) h c =
    (c.0, ground (arith, Chained-update next j y (next k) ks (ground arith) c.1))

module _ {ℓ} {A : Type ℓ} where
  -- What a run of `purge` from the queue `q` to `t` has done: it has left `kept` of the nodes `ks` in the list
  -- after `last`, in this order, and has deleted the others, and nothing else has changed.
  pub record Swept (q : Queue A) (t : System A) (i : ℕ) (r : Return) (last : ℕ) (ks kept : List ℕ)
      : Type ℓ where
    pub at_end : t.pc i ≡ purge_unlock r
    pub same : t.queue ≡ record q { next_deleted = t.queue.next_deleted; freed = t.queue.freed }
    pub chain : Chained t.queue.next_deleted (t.queue.next_deleted last) kept
    pub frame : (j : ℕ) → j ≢ last → has j ks ≡ false → t.queue.next_deleted j ≡ q.next_deleted j
    pub gone : (j : ℕ) → t.queue.freed j ≡ (q.freed j || (has j ks && not (has j kept)))

  module _ (c : Config) (i : ℕ) where
    -- The thread alone, for so many accesses.
    abbrev pub solo : ℕ → System A → System A
    solo n s = run c s (replicate n (i, go))

    -- One access, and then the others.
    pub then_more :
        (P : System A → Type ℓ) (s : System A) (p : Pc A)
        → s.pc i ≡ p
        → (n : ℕ) × P (solo n (step c s i p go))
        → (n : ℕ) × P (solo n s)
    unfolding run
    then_more P s p e (n, h) =
        (suc n, subst (λ x. P (run c (step c s i x go) (replicate n (i, go)))) (sym e) h)

    pub arrives : (s : System A) (q : Queue A) (p : Pc A) → (move s i q p).pc i ≡ p
    arrives s q p = ground arith

    -- The last access of the loops.
    end-Swept :
        (s : System A) (r : Return) (last : ℕ)
        → Swept s.queue (step c s i (purge_end r last) go) i r last [] []
    unfolding step
    end-Swept s r last = record {
      at_end = ground arith;
      same = refl;
      chain = ground arith;
      frame = λ j h g. ground arith;
      gone = λ j. ground arith;
    }

    -- A node that is kept, and then the rest of the list.
    keep-Swept :
        (q : Queue A) (t : System A) (r : Return) (last k : ℕ) (ks kept : List ℕ)
        → has last (k ∷ ks) ≡ false
        → has k ks ≡ false
        → has k kept ≡ false
        → Swept (record q { next_deleted = update q.next_deleted last (some k) }) t i r k ks kept
        → Swept q t i r last (k ∷ ks) (k ∷ kept)
    keep-Swept q t r last k ks kept h g g' w = record {
      at_end = w.at_end;
      same = w.same;
      chain = (ground (arith, w.frame last), w.chain);
      frame = λ j x y. ground (arith, w.frame j);
      gone = λ j. ground (arith, w.gone j);
    }

    -- A node that is deleted, and then the rest of the list.
    drop-Swept :
        (q : Queue A) (t : System A) (r : Return) (last k : ℕ) (ks kept : List ℕ)
        → has k kept ≡ false
        → Swept (record q { freed = update q.freed k true }) t i r last ks kept
        → Swept q t i r last (k ∷ ks) kept
    drop-Swept q t r last k ks kept g w = record {
      at_end = w.at_end;
      same = w.same;
      chain = w.chain;
      frame = λ j x y. w.frame j x (ground arith);
      gone = λ j. ground (arith, w.gone j);
    }

    -- An access, where the thread stands and what it does are known.
    pub access :
        (P : System A → Type ℓ) (s : System A) (p p' : Pc A) (q : Queue A)
        → s.pc i ≡ p
        → step c s i p go ≡ move s i q p'
        → (n : ℕ) × P (solo n (move s i q p'))
        → (n : ℕ) × P (solo n s)
    access P s p p' q e f h = then_more P s p e (subst (λ u. (n : ℕ) × P (solo n u)) (sym f) h)

    -- A round of the second loop: the load of the next node, that of the epoch, and the store or the
    -- deletion, on to a state from which the loop does the rest.
    round_to :
        (P : System A → Type ℓ) (s : System A) (q q' : Queue A) (r : Return) (bound last k : ℕ)
        (p p' : Pc A)
        → s.queue ≡ q
        → s.pc i ≡ purge_next r bound last k
        → ((u : System A)
            → u.queue ≡ q
            → step c u i (purge_at r bound last k (q.next_deleted k)) go ≡ move u i q p)
        → ((u : System A) → u.queue ≡ q → step c u i p go ≡ move u i q' p')
        → ((u : System A) → u.queue ≡ q' → u.pc i ≡ p' → (n : ℕ) × P (solo n u))
        → (n : ℕ) × P (solo n s)
    unfolding step
    round_to P s q q' r bound last k p p' f e at act rest =
        let p1 = purge_at r bound last k (q.next_deleted k) in
        let s1 = move s i q p1 in
        let s2 = move s1 i q p in
        let s3 = move s2 i q' p' in
        access P s (purge_next r bound last k) p1 q e (rw f refl) (
          access P s1 p1 p q (arrives s q p1) (at s1 refl)
            (access P s2 p p' q' (arrives s1 q p) (act s2 refl) (rest s3 refl (arrives s2 q' p'))))

    -- The second loop.
    pub sweep-Swept :
        (ks : List ℕ) (s : System A) (q : Queue A) (r : Return) (bound last : ℕ) (x : Option ℕ)
        → s.queue ≡ q
        → s.pc i ≡ sweep_on r bound last x
        → Chained q.next_deleted x ks
        → Distinct ks
        → has last ks ≡ false
        → (n : ℕ) × Swept q (solo n s) i r last ks (recent bound q.deleted_at ks)
    unfolding run step
    sweep-Swept [] s q r bound last x f e ch d h =
        then_more (λ t. Swept q t i r last [] []) s (purge_end r last) (rw ch at e)
          (
            0,
            subst (λ x. Swept x (step c s i (purge_end r last) go) i r last [] []) f
                (end-Swept s r last),
          )
    sweep-Swept (k ∷ ks) s q r bound last x f e ch d h =
        let next = q.next_deleted k in
        let kept = recent bound q.deleted_at ks in
        let apart = has-recent k bound q.deleted_at ks d.0 in
        let e' : s.pc i ≡ purge_next r bound last k = rw ch.0 at e in
        elim (Bool-cases (leb bound (q.deleted_at k))) [
          | inl keeps ↦
              let q' : Queue A = record q { next_deleted = update q.next_deleted last (some k) } in
              let ch' = Chained-update q.next_deleted last (some k) next ks (ground arith) ch.1 in
              rw keeps (
                round_to (λ t. Swept q t i r last (k ∷ ks) (k ∷ kept)) s q q' r bound last k
                  (purge_keep r bound last k next) (sweep_on r bound k next) f e'
                  (λ u g. rw (g, keeps) refl) (λ u g. rw g refl)
                  (λ u g g'.
                    let (n, w) = sweep-Swept ks u q' r bound k next g g' ch' d.1 d.0 in
                    (n, keep-Swept q (solo n u) r last k ks kept h d.0 apart w)))
          | inr drops ↦
              let q' : Queue A = record q { freed = update q.freed k true } in
              rw drops (
                round_to (λ t. Swept q t i r last (k ∷ ks) kept) s q q' r bound last k
                  (purge_delete r bound last k next) (sweep_on r bound last next) f e'
                  (λ u g. rw (g, drops) refl) (λ u g. rw g refl)
                  (λ u g g'.
                    let (n, w) =
                      sweep-Swept ks u q' r bound last next g g' ch.1 d.1 (ground arith) in
                    (n, drop-Swept q (solo n u) r last k ks kept apart w)))
        ]
