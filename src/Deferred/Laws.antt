-- ===== src/Deferred/Laws.antt =====
-- What `purge` of mpmcdd_queue does when it is called twice, with no other thread in between.
use mathlib.Core.Path.{subst}
use fast_mpmc_queue.Prelude.{
  ℕ, zero, suc, ◌≡◌, ◌≢◌, refl, sym, ap, ◌∙◌, inl, inr, Bool, true, false, arith, Bool-cases,
  if◌then◌else◌, Option, none, some, update,
}
use fast_mpmc_queue.Deferred.{Queue, purge_loop, purge}

none-ne_some {ℓ} : {B : Type ℓ} {x : B} → none ≢ some x
none-ne_some e = cc

abbrev or_else {ℓ} : {B : Type ℓ} → B → Option B → B
or_else x none = x
or_else x (some y) = y

some-injective {ℓ} : {B : Type ℓ} (x y : B) → some x ≡ some y → x ≡ y
some-injective x y e = ap (or_else x) e

if_yes {ℓ} : {B : Type ℓ} (b : Bool) (x y : B) → b ≡ true → (if b then x else y) ≡ x
if_yes b x y e = rw e refl

if_no {ℓ} : {B : Type ℓ} (b : Bool) (x y : B) → b ≡ false → (if b then x else y) ≡ y
if_no b x y e = rw e refl

module _ {ℓ} {A : Type ℓ} where
  -- What the loop of `purge` leaves as it was, and that a deleted node stays deleted.
  record Purged (q r : Queue A) : Type ℓ where
    same_list : r.deleted ≡ q.deleted
    same_flag : r.consuming ≡ q.consuming
    kept : (k : ℕ) → q.freed k ≡ true → r.freed k ≡ true

  purge_loop-Purged :
      (fuel : ℕ) (q : Queue A) (x : Option ℕ) (r : Queue A)
      → purge_loop fuel q x ≡ some r
      → Purged q r
  unfolding purge_loop
  purge_loop-Purged fuel q none r e =
      let same : q ≡ r = some-injective q r e in
      subst (Purged q) same (record { same_list = refl; same_flag = refl; kept = λ k h. h })
  purge_loop-Purged zero q (some k) r e = cc
  purge_loop-Purged (suc fuel) q (some k) r e = elim (Bool-cases q.consuming) [
    | inl on ↦ elim (Bool-cases (q.freed k)) [
      | inl twice ↦ absurd (none-ne_some (rw (on, twice) at e))
      | inr once ↦
          let rest =
            purge_loop-Purged fuel (record q { freed = update q.freed k true }) (q.next_deleted k) r
              (rw (on, once) at e) in
          record {
            same_list = rest.same_list;
            same_flag = rest.same_flag;
            kept = λ j h. rest.kept j (ground arith);
          }
    ]
    | inr off ↦
        subst (Purged q) (some-injective q r (sym (if_no q.consuming _ (some q) off) ∙ e))
          (record { same_list = refl; same_flag = refl; kept = λ k h. h })
  ]

  purge_loop-frees :
      (fuel : ℕ) (q : Queue A) (k : ℕ) (r : Queue A)
      → q.consuming ≡ true
      → purge_loop fuel q (some k) ≡ some r
      → r.freed k ≡ true
  unfolding purge_loop
  purge_loop-frees zero q k r on e = cc
  purge_loop-frees (suc fuel) q k r on e = elim (Bool-cases (q.freed k)) [
    | inl twice ↦ absurd (none-ne_some (rw (on, twice) at e))
    | inr once ↦
        let rest =
          purge_loop-Purged fuel (record q { freed = update q.freed k true }) (q.next_deleted k) r
            (rw (on, once) at e) in
        rest.kept k (ground arith)
  ]

  purge_loop-freed :
      (fuel : ℕ) (q : Queue A) (k : ℕ)
      → q.consuming ≡ true
      → q.freed k ≡ true
      → purge_loop fuel q (some k) ≡ none
  unfolding purge_loop
  purge_loop-freed zero q k on gone = refl
  purge_loop-freed (suc fuel) q k on gone = rw (on, gone) refl

  -- When `purge` has gone through with consuming enabled and some node waiting for deletion, the next
  -- call of `purge` deletes a node again that it deleted before: `m_deleted` is not reset.
  pub purge-purge :
      (fuel again : ℕ) (q r : Queue A) (k : ℕ)
      → q.consuming ≡ true
      → q.deleted ≡ some k
      → purge fuel q ≡ some r
      → purge again r ≡ none
  unfolding purge
  purge-purge fuel again q r k on waits e =
      let loop : purge_loop fuel q (some k) ≡ some r =
        ap (λ x. purge_loop fuel q x) (sym waits) ∙ e in
      let rest = purge_loop-Purged fuel q (some k) r loop in
      let listed : r.deleted ≡ some k = rest.same_list ∙ waits in
      ap (λ x. purge_loop again r x) listed
      ∙ (purge_loop-freed again r k (rest.same_flag ∙ on) (purge_loop-frees fuel q k r on loop))
