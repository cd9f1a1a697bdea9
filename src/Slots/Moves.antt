-- ===== src/Slots/Moves.antt =====
-- The moves of the protocol and its invariant.
use fast_mpmc_queue.Prelude.{
  ℕ, ◌+◌, ◌≤◌, ◌<◌, ◌≡◌, refl, some, arith, pos, pos_part, neg_part, +ℤ_parts, -ℤ_parts,
}
use fast_mpmc_queue.Slots.{free, prod_locked, ready, cons_locked}
use fast_mpmc_queue.Slots.Protocol.{
  idle, locking, producing, consuming, owing, slot_of, View, Step, lock, take, write, publish,
  cancel, repay, receive, finish, put_back, extend, Alter, alter,
}
use fast_mpmc_queue.Slots.Counts.{
  w_prod, w_ready, w_cons, c_locking, c_producing, c_consuming, c_owing, slots, claims, Stored-from,
  Moved-from, slots-extend,
}
use fast_mpmc_queue.Slots.Invariant.{Holds, Inv, producing-held, consuming-held}

-- The fields that count.
record Counted {ℓ} {A : Type ℓ} (n : ℕ) (t : View A) : Type 0 where
  prods : slots w_prod t.cap t.state ≡ claims c_locking n t.claim + claims c_producing n t.claim
  cons : slots w_cons t.cap t.state ≡ claims c_consuming n t.claim
  counted :
      pos_part t.balance
        + slots w_prod t.cap t.state
        + slots w_ready t.cap t.state
        + slots w_cons t.cap t.state
        + claims c_owing n t.claim
      ≡ neg_part t.balance + t.cap + claims c_locking n t.claim

module _ {ℓ} {A : Type ℓ} {n : ℕ} {s : View A} (inv : Inv n s) where
  open inv use {range, held, unique, beyond, prods, cons, counted}

  -- The fields that speak of one slot or one thread at a time.
  Step-range : {t : View A} → Step n s t → (i k : ℕ) → slot_of (t.claim i) ≡ some k → k < t.cap
  Step-range (lock i k l h c f) j m e = ground (arith, range j m)
  Step-range (take i k l c) j m e = ground (arith, range j m, range i m)
  Step-range (write i k v l c) j m e = range j m e
  Step-range (publish i k l c) j m e = ground (arith, range j m)
  Step-range (cancel i k l c) j m e = ground (arith, range j m)
  Step-range (repay i d l c) j m e = ground (arith, range j m)
  Step-range (receive i k l h c f) j m e = ground (arith, range j m)
  Step-range (finish i k l c) j m e = ground (arith, range j m)
  Step-range (put_back i k l c) j m e = ground (arith, range j m)
  Step-range (extend i d l c) j m e = ground (arith, range j m)

  Step-held : {t : View A} → Step n s t → (j : ℕ) → Holds t.state (t.claim j)
  Step-held (lock i k l h c f) j = ground (arith, held j)
  Step-held (take i k l c) j = ground (arith, held j, held i)
  Step-held (write i k v l c) j = held j
  Step-held (publish i k l c) j = ground (arith, held j, unique i j k)
  Step-held (cancel i k l c) j = ground (arith, held j, unique i j k)
  Step-held (repay i d l c) j = ground (arith, held j)
  Step-held (receive i k l h c f) j = ground (arith, held j)
  Step-held (finish i k l c) j = ground (arith, held j, unique i j k)
  Step-held (put_back i k l c) j = ground (arith, held j, unique i j k)
  Step-held (extend i d l c) j = ground (arith, held j)

  Step-unique :
      {t : View A}
      → Step n s t
      → (a b k : ℕ) → slot_of (t.claim a) ≡ some k
      → slot_of (t.claim b) ≡ some k
      → a ≡ b
  Step-unique (lock i k l h c f) a b m p q = ground (arith, unique a b m, held a, held b)
  Step-unique (take i k l c) a b m p q = ground (arith, unique a b m, unique i b m, unique a i m)
  Step-unique (write i k v l c) a b m p q = unique a b m p q
  Step-unique (publish i k l c) a b m p q = ground (arith, unique a b m)
  Step-unique (cancel i k l c) a b m p q = ground (arith, unique a b m)
  Step-unique (repay i d l c) a b m p q = ground (arith, unique a b m)
  Step-unique (receive i k l h c f) a b m p q = ground (arith, unique a b m, held a, held b)
  Step-unique (finish i k l c) a b m p q = ground (arith, unique a b m)
  Step-unique (put_back i k l c) a b m p q = ground (arith, unique a b m)
  Step-unique (extend i d l c) a b m p q = ground (arith, unique a b m)

  Step-beyond : {t : View A} → Step n s t → (k : ℕ) → t.cap ≤ k → t.state k ≡ free
  Step-beyond (lock i k l h c f) m e = ground (arith, beyond m)
  Step-beyond (take i k l c) m e = beyond m e
  Step-beyond (write i k v l c) m e = beyond m e
  Step-beyond (publish i k l c) m e = ground (arith, beyond m, range i k)
  Step-beyond (cancel i k l c) m e = ground (arith, beyond m, range i k)
  Step-beyond (repay i d l c) m e = beyond m e
  Step-beyond (receive i k l h c f) m e = ground (arith, beyond m)
  Step-beyond (finish i k l c) m e = ground (arith, beyond m, range i k)
  Step-beyond (put_back i k l c) m e = ground (arith, beyond m, range i k)
  Step-beyond (extend i d l c) m e = beyond m (omega arith)

  Step-Counted : {t : View A} → Step n s t → Counted n t
  Step-Counted (lock i k l h c f) =
      omega
        (arith, Stored-from s.cap s.state k prod_locked h f, Moved-from n s.claim i (locking k) l c)
  Step-Counted (take i k l c) =
      omega (arith, Moved-from n s.claim i (producing k) l c, -ℤ_parts s.balance (pos 1))
  Step-Counted (write i k v l c) = omega arith
  Step-Counted (publish i k l c) =
      let (h, f) = producing-held inv i k c in
      omega (arith, Stored-from s.cap s.state k ready h f, Moved-from n s.claim i idle l c)
  Step-Counted (cancel i k l c) =
      let (h, f) = producing-held inv i k c in
      omega (arith, Stored-from s.cap s.state k free h f, Moved-from n s.claim i (owing 1) l c)
  Step-Counted (repay i d l c) =
      omega (arith, Moved-from n s.claim i idle l c, +ℤ_parts s.balance (pos d))
  Step-Counted (receive i k l h c f) =
      omega (
        arith,
        Stored-from s.cap s.state k cons_locked h f,
        Moved-from n s.claim i (consuming k) l c,
      )
  Step-Counted (finish i k l c) =
      let (h, f) = consuming-held inv i k c in
      omega (arith, Stored-from s.cap s.state k free h f, Moved-from n s.claim i (owing 1) l c)
  Step-Counted (put_back i k l c) =
      let (h, f) = consuming-held inv i k c in
      omega (arith, Stored-from s.cap s.state k ready h f, Moved-from n s.claim i idle l c)
  Step-Counted (extend i d l c) = omega (
    arith,
    Moved-from n s.claim i (owing d) l c,
    slots-extend w_prod d s.cap s.state refl beyond,
    slots-extend w_ready d s.cap s.state refl beyond,
    slots-extend w_cons d s.cap s.state refl beyond,
  )

  pub Step-Inv : {t : View A} → Step n s t → Inv n t
  Step-Inv st = record {
    range = Step-range st;
    held = Step-held st;
    unique = Step-unique st;
    beyond = Step-beyond st;
    prods = (Step-Counted st).prods;
    cons = (Step-Counted st).cons;
    counted = (Step-Counted st).counted;
  }

  pub Alter-Inv : {t : View A} → Alter n s t → Inv n t
  Alter-Inv (alter i k v l c) = record {
    range = range;
    held = held;
    unique = unique;
    beyond = beyond;
    prods = prods;
    cons = cons;
    counted = counted;
  }
