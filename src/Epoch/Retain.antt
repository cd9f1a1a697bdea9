-- ===== src/Epoch/Retain.antt =====
-- include/xtxn/mpmc_queue.hpp: a whole call of `purge`, from its lock to the release.
use fast_mpmc_queue.Prelude.{
  ℕ, zero, suc, ◌≤◌, ◌≡◌, refl, ap, ◌∙◌, true, false, not, ◌&&◌, ◌||◌, arith, ltb, if◌then◌else◌,
  Option, none, some, List, [], ◌∷◌, replicate,
}
use fast_mpmc_queue.Epoch.{
  Config, Queue, min_epoch, Return, purge_lock, purge_epoch, purge_map_lock, purge_min,
  purge_map_unlock, purge_list, purge_skip, purge_unlock, go, System,
}
use fast_mpmc_queue.Epoch.Register.{move}
use fast_mpmc_queue.Epoch.Purge.{skip_on, purge_after}
use fast_mpmc_queue.Epoch.Machine.{step, run}
use fast_mpmc_queue.Nodes.{has, Distinct, Chained}
use fast_mpmc_queue.Epoch.Sweep.{
  has-retained, retained, Swept, solo, then_more, arrives, access, sweep-Swept,
}

module _ {ℓ} {A : Type ℓ} where
  -- What a call of `purge` from the queue `q` to `t` has done to the list `ks`: it is shortened to
  -- `kept`, and the other nodes are deleted. The locks are free again.
  pub record Purged (q : Queue A) (t : System A) (i : ℕ) (r : Return) (ks kept : List ℕ)
      : Type ℓ where
    pub at_end : t.pc i ≡ purge_after r
    pub same : t.queue ≡ record q {
      purge_sl = false;
      epoch_sl = false;
      next_deleted = t.queue.next_deleted;
      freed = t.queue.freed;
    }
    pub chain : Chained t.queue.next_deleted t.queue.deleted kept
    pub gone : (j : ℕ) → t.queue.freed j ≡ (q.freed j || (has j ks && not (has j kept)))

  -- The queue, as `purge` finds it once it has the bound.
  abbrev inside : Queue A → Queue A
  inside q = record q { purge_sl = true; epoch_sl = false }

  module _ (c : Config) (i : ℕ) where
    -- A node that is skipped, and then the rest of the list.
    pass-Swept :
        (q : Queue A) (t : System A) (r : Return) (last k : ℕ) (ks kept : List ℕ)
        → has last (k ∷ ks) ≡ false
        → has k ks ≡ false
        → has k kept ≡ false
        → q.next_deleted last ≡ some k
        → Swept q t i r k ks kept
        → Swept q t i r last (k ∷ ks) (k ∷ kept)
    pass-Swept q t r last k ks kept h g g' e w = record {
      at_end = w.at_end;
      same = w.same;
      chain = (ground (arith, w.frame last), w.chain);
      frame = λ j x y. ground (arith, w.frame j);
      gone = λ j. ground (arith, w.gone j);
    }

    -- The first loop, and then the second one.
    skip-Swept :
        (count : ℕ) (ks : List ℕ) (s : System A) (q : Queue A) (r : Return) (bound last : ℕ)
        (x : Option ℕ)
        → s.queue ≡ q
        → s.pc i ≡ skip_on r bound count (some last) x
        → q.next_deleted last ≡ x
        → Chained q.next_deleted x ks
        → Distinct ks
        → has last ks ≡ false
        → (n : ℕ) × Swept q (solo c i n s) i r last ks (retained count bound q.deleted_at ks)
    unfolding step
    skip-Swept zero [] s q r bound last x f e l ch d h =
        sweep-Swept c i [] s q r bound last none f (rw ch at e) refl tt refl
    skip-Swept zero (k ∷ ks) s q r bound last x f e l ch d h =
        sweep-Swept c i (k ∷ ks) s q r bound last (some k) f (rw ch.0 at e) (refl, ch.1) d h
    skip-Swept (suc count) [] s q r bound last x f e l ch d h =
        sweep-Swept c i [] s q r bound last none f (rw ch at e) refl tt refl
    skip-Swept (suc count) (k ∷ ks) s q r bound last x f e l ch d h =
        let next = q.next_deleted k in
        let kept = retained count bound q.deleted_at ks in
        let p = skip_on r bound count (some k) next in
        let (n, w) =
          skip-Swept count ks (move s i q p) q r bound k next refl (arrives c i s q p) refl ch.1 d.1
            d.0 in
        access c i (λ t. Swept q t i r last (k ∷ ks) (k ∷ kept)) s (purge_skip r bound count k) p q
          (rw ch.0 at e) (rw f refl)
          (
            n,
            pass-Swept q (solo c i n (move s i q p)) r last k ks kept h d.0
                (has-retained k count bound q.deleted_at ks d.0) (l ∙ ch.0) w,
          )

    -- One access more.
    finally :
        (P : System A → Type ℓ) (n : ℕ) (s : System A)
        → P (step c (solo c i n s) i ((solo c i n s).pc i) go)
        → (m : ℕ) × P (solo c i m s)
    unfolding run
    finally P zero s h = (1, h)
    finally P (suc n) s h = let (m, g) = finally P n (step c s i (s.pc i) go) h in (suc m, g)

    leaves_to : (t : System A) (r : Return) → (step c t i (purge_unlock r) go).pc i ≡ purge_after r
    unfolding step
    leaves_to t r = ground arith

    -- The release of the lock, after the loops.
    unlock-Purged :
        (q : Queue A) (t : System A) (r : Return) (k : ℕ) (ks kept : List ℕ)
        → q.deleted ≡ some k
        → has k ks ≡ false
        → Swept (inside q) t i r k ks kept
        → Purged q (step c t i (purge_unlock r) go) i r (k ∷ ks) (k ∷ kept)
    unfolding step
    unlock-Purged q t r k ks kept e h w = record {
      at_end = leaves_to t r;
      same = ap (λ (x : Queue A). record x { purge_sl = false }) w.same;
      chain = (ap (λ (x : Queue A). x.deleted) w.same ∙ e, w.chain);
      gone = λ j. ground (arith, w.gone j);
    }

    -- The same when there is nothing to delete.
    unlock-empty :
        (q : Queue A) (t : System A) (r : Return)
        → q.deleted ≡ none
        → t.queue ≡ inside q
        → Purged q (step c t i (purge_unlock r) go) i r [] []
    unfolding step
    unlock-empty q t r e f = record {
      at_end = leaves_to t r;
      same = rw f refl;
      chain = rw f e;
      gone = λ j. rw f (ground arith);
    }

    -- From the load of `m_deleted` on.
    list-Purged :
        (count bound : ℕ) (ks : List ℕ) (q : Queue A) (s : System A) (r : Return)
        → s.queue ≡ inside q
        → s.pc i ≡ skip_on r bound (suc count) none q.deleted
        → Chained q.next_deleted q.deleted ks
        → Distinct ks
        → (n : ℕ) × Purged q (solo c i n s) i r ks (retained (suc count) bound q.deleted_at ks)
    unfolding step run
    list-Purged count bound [] q s r f e ch d =
        then_more c i (λ t. Purged q t i r [] []) s (purge_unlock r) (rw ch at e)
          (0, unlock-empty q s r ch f)
    list-Purged count bound (k ∷ ks) q s r f e ch d =
        let kept = retained count bound q.deleted_at ks in
        let q1 = inside q in
        let next = q.next_deleted k in
        let p = skip_on r bound count (some k) next in
        let s1 = move s i q1 p in
        let (n, w) =
          skip-Swept count ks s1 q1 r bound k next refl (arrives c i s q1 p) refl ch.1 d.1 d.0 in
        let P = λ (t : System A). Purged q t i r (k ∷ ks) (k ∷ kept) in
        access c i P s (purge_skip r bound count k) p q1 (rw ch.0 at e) (rw f refl)
          (finally P n s1 (rw w.at_end (unlock-Purged q (solo c i n s1) r k ks kept ch.0 d.0 w)))

    some-Purged :
        (count bound : ℕ) (ks : List ℕ) (q : Queue A) (s : System A) (r : Return)
        → 4 ≤ count
        → s.queue ≡ inside q
        → s.pc i ≡ skip_on r bound count none q.deleted
        → Chained q.next_deleted q.deleted ks
        → Distinct ks
        → (n : ℕ) × Purged q (solo c i n s) i r ks (retained count bound q.deleted_at ks)
    some-Purged zero bound ks q s r h f e ch d = absurd (omega arith)
    some-Purged (suc count) bound ks q s r h f e ch d = list-Purged count bound ks q s r f e ch d

  -- With `S` of the class at least 4: if a thread stands at the start of `purge`, nobody holds the
  -- two locks, some thread is in the map of epochs, and the list of the nodes that wait for deletion
  -- repeats none of its nodes, then the thread, when it runs alone, comes to the end of the call
  -- after some number of accesses. The list then consists of its first `S` nodes and those of the
  -- others that were dequeued in the least epoch of the map and of `m_epoch` or later, in the same
  -- order; the other nodes of the list have been deleted, and no others; both locks are free, and
  -- nothing else of the queue has changed.
  pub purge_retains :
      (c : Config) (s : System A) (i : ℕ) (r : Return) (ks : List ℕ) (m : ℕ)
      → 4 ≤ c.skip_first
      → s.pc i ≡ purge_lock r
      → s.queue.purge_sl ≡ false
      → s.queue.epoch_sl ≡ false
      → min_epoch s.queue.thread_epoch ≡ some m
      → Chained s.queue.next_deleted s.queue.deleted ks
      → Distinct ks
      → let bound = if ltb m s.queue.epoch then m else s.queue.epoch in
        let kept = retained c.skip_first bound s.queue.deleted_at ks in
        (n : ℕ) × Purged s.queue (run c s (replicate n (i, go))) i r ks kept
  unfolding step
  purge_retains c s i r ks m big e f g least ch d =
      let q = s.queue in
      let bound = if ltb m q.epoch then m else q.epoch in
      let P = λ (t : System A). Purged q t i r ks (retained c.skip_first bound q.deleted_at ks) in
      let q1 : Queue A = record q { purge_sl = true } in
      let q2 : Queue A = record q { purge_sl = true; epoch_sl = true } in
      let p1 = purge_epoch r in
      let p2 = purge_map_lock r q.epoch in
      let p3 = purge_min r q.epoch in
      let p4 = purge_map_unlock r (some bound) in
      let p5 = purge_list r bound in
      let p6 = skip_on r bound c.skip_first none q.deleted in
      let s1 = move s i q1 p1 in
      let s2 = move s1 i q1 p2 in
      let s3 = move s2 i q2 p3 in
      let s4 = move s3 i q2 p4 in
      let s5 = move s4 i (inside q) p5 in
      let s6 = move s5 i (inside q) p6 in
      access c i P s (purge_lock r) p1 q1 e (rw f refl) (
        access c i P s1 p1 p2 q1 (arrives c i s q1 p1) refl (
          access c i P s2 p2 p3 q2 (arrives c i s1 q1 p2) (rw g refl) (
            access c i P s3 p3 p4 q2 (arrives c i s2 q2 p3) (rw least refl) (
              access c i P s4 p4 p5 (inside q) (arrives c i s3 q2 p4) refl (
                access c i P s5 p5 p6 (inside q) (arrives c i s4 (inside q) p5) refl (
                  some-Purged c i c.skip_first bound ks q s6 r big refl
                    (arrives c i s5 (inside q) p6) ch d))))))
