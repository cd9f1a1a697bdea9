-- ===== src/Deferred/Tail.antt =====
-- Where `m_tail` of mpmcdd_queue stands under interleaving. `enqueue` moves it by a plain store, which
-- can set it back; the thread that did so last is still in its loop and will move it on.
use fast_mpmc_queue.Prelude.{
  ℕ, suc, ◌+◌, ◌≤◌, ◌<◌, ◌≡◌, inl, inr, refl, Bool, true, false, arith, ◌==◌, Option, none, some,
  List, [], ◌∷◌, update, Bool-cases,
}
use native.Mathlib.Decide.{ℕ_discrete}
use fast_mpmc_queue.Nodes.{last_open}
use fast_mpmc_queue.Deferred.{Queue, new_queue}
use fast_mpmc_queue.Deferred.Machine.{
  Pc, idle, enqueue_loop, enqueue_tail, enqueue_next, enqueue_check, enqueue_advance, enqueue_link,
  dequeue_loop, dequeue_tail, dequeue_advance, dequeue_mark, dequeue_exchange, Act, go,
  call_shutdown, call_stop, System, start, step, run, begin, link_after,
}
use fast_mpmc_queue.Deferred.Order.{Knows}
use fast_mpmc_queue.Deferred.Invariant.{IsSound, step-IsSound}

module _ {ℓ} {A : Type ℓ} where
  -- In the loop of `enqueue`, with no value of `m_tail` in hand that is beyond it.
  abbrev pub Walks : (tail : ℕ) → Pc A → Type 0
  Walks tail (enqueue_loop v) = Unit
  Walks tail (enqueue_tail v) = Unit
  Walks tail (enqueue_next v t) = t ≤ tail
  Walks tail (enqueue_check v t next) = t ≤ tail
  Walks tail (enqueue_advance v next) = Unit
  Walks tail (enqueue_link v t) = t ≤ tail
  Walks tail _ = ⊥

  -- A thread of `dequeue` that has seen the tail away from this head.
  abbrev pub is_past : (head : ℕ) → Pc A → Bool
  is_past head (dequeue_mark h first) = h == head
  is_past head (dequeue_exchange h first) = h == head
  is_past head _ = false

  -- If the tail is behind the head, or on a head that a thread may move on, the thread that set the
  -- tail is still walking.
  pub record IsWalked (s : System A) : Type 0 where
    pub behind :
        s.queue.producing ≡ true → s.queue.tail < s.queue.head → Walks s.queue.tail (s.pc s.mover)
    pub on_head :
        s.queue.producing ≡ true
        → s.queue.tail ≡ s.queue.head
        → (i : ℕ) → is_past s.queue.head (s.pc i) ≡ true
        → Walks s.queue.tail (s.pc s.mover)

  Walks-mono : (t u : ℕ) (p : Pc A) → t ≤ u → Walks t p → Walks u p
  Walks-mono t u (enqueue_loop v) h w = tt
  Walks-mono t u (enqueue_tail v) h w = tt
  Walks-mono t u (enqueue_next v x) h w = omega arith
  Walks-mono t u (enqueue_check v x next) h w = omega arith
  Walks-mono t u (enqueue_advance v next) h w = tt
  Walks-mono t u (enqueue_link v x) h w = omega arith
  Walks-mono t u idle h w = w
  Walks-mono t u _ h w = w

  -- Such a thread has a head that has been the head, and a node after it.
  is_past-Knows :
      (q : Queue A) (x : ℕ) (p : Pc A)
      → is_past x p ≡ true
      → Knows q p
      → (x ≤ q.head) × (x + 1 < q.allocated)
  is_past-Knows q x (dequeue_mark h first) e k = ground arith
  is_past-Knows q x (dequeue_exchange h first) e k = ground arith
  is_past-Knows q x idle e k = absurd (ground arith)
  is_past-Knows q x _ e k = absurd (ground arith)

  module _ (s : System A) (i : ℕ) (ok : IsSound s) (w : IsWalked s) where
    -- The thread that links the last node does not stand behind the head.
    link_after-IsWalked :
        (v : A) (tail : ℕ) (x : Option ℕ)
        → s.pc i ≡ enqueue_link v tail
        → s.queue.next tail ≡ x
        → IsWalked (link_after s i v tail x)
    unfolding link_after
    link_after-IsWalked v tail (some n) e found = record {
      behind = λ on l. ground (arith, w.behind on l);
      on_head = λ on l j f. ground (arith, w.on_head on l j);
    }
    link_after-IsWalked v tail none e found =
        let last : tail + 1 ≡ s.queue.allocated =
          last_open ok.nodes tail (rw e at (ok.knows i)) found in
        record {
          behind = λ on l. elim (ℕ_discrete s.mover i) [
            | yes p ↦ absurd (omega (arith, ok.nodes.inside, last, l, rw (p, e) at (w.behind on l)))
            | no p ↦ ground (arith, w.behind on l)
          ];
          on_head = λ on l j f. elim (ℕ_discrete j i) [
            | yes q ↦ absurd (ground arith)
            | no q ↦
                let g : is_past s.queue.head (s.pc j) ≡ true = ground arith in
                let k = is_past-Knows s.queue s.queue.head (s.pc j) g (ok.knows j) in
                elim (ℕ_discrete s.mover i) [
                  | yes p ↦ absurd (omega (arith, k, last, l, rw (p, e) at (w.on_head on l j g)))
                  | no p ↦ ground (arith, w.on_head on l j g)
                ]
          ];
        }

    tail-IsWalked :
        (h first : ℕ)
        → s.pc i ≡ dequeue_tail h first
        → IsWalked (step s i (dequeue_tail h first) go)
    unfolding step
    tail-IsWalked h first e = elim (Bool-cases (s.queue.tail == h)) [
      | inl same ↦ rw same (record {
        behind = λ on l. ground (arith, w.behind on l);
        on_head = λ on l j f. ground (arith, w.on_head on l j);
      })
      | inr away ↦ rw away (record {
        behind = λ on l. ground (arith, w.behind on l);
        on_head = λ on l j f. ground (arith, w.on_head on l j);
      })
    ]

    advance-IsWalked :
        (h first : ℕ)
        → s.pc i ≡ dequeue_advance h first
        → IsWalked (step s i (dequeue_advance h first) go)
    unfolding step
    advance-IsWalked h first e = elim (Bool-cases (s.queue.tail == h)) [
      | inl same ↦
          let k : (h ≤ s.queue.head) × (first ≡ suc h) × (first < s.queue.allocated) =
            rw e at (ok.knows i) in
          let on_from : s.queue.producing ≡ true
              → s.queue.tail < s.queue.head
              → Walks first (update s.pc i dequeue_loop s.mover) =
            λ on l.
              Walks-mono s.queue.tail first (update s.pc i dequeue_loop s.mover) (ground arith)
                (ground (arith, w.behind on l)) in
          rw same (record {
            behind = λ on l. on_from on (ground arith);
            on_head = λ on l j f. on_from on (ground arith);
          })
      | inr away ↦ rw away (record {
        behind = λ on l. ground (arith, w.behind on l);
        on_head = λ on l j f. ground (arith, w.on_head on l j);
      })
    ]

    exchange-IsWalked :
        (h first : ℕ)
        → s.pc i ≡ dequeue_exchange h first
        → IsWalked (step s i (dequeue_exchange h first) go)
    unfolding step
    exchange-IsWalked h first e =
        let k : (h ≡ s.queue.head)
            × (first ≡ suc h)
            × (first < s.queue.allocated)
            × (s.queue.is_deleted first ≡ true) =
          rw e at (ok.knows i) in
        let mine : is_past s.queue.head (s.pc i) ≡ true = rw e (ground arith) in
        elim (Bool-cases (s.queue.head == h)) [
          | inl same ↦ rw same (record {
            behind = λ on l. elim (ℕ_discrete s.queue.tail s.queue.head) [
              | yes p ↦ ground (arith, w.on_head on p i mine)
              | no p ↦ ground (arith, w.behind on (omega arith))
            ];
            on_head = λ on l j f. absurd (elim (ℕ_discrete j i) [
              | yes p ↦ ground arith
              | no p ↦
                  let g : is_past first (s.pc j) ≡ true = ground arith in
                  omega (arith, k, is_past-Knows s.queue first (s.pc j) g (ok.knows j))
            ]);
          })
          | inr moved ↦ absurd (ground arith)
        ]

    step-IsWalked : (p : Pc A) (a : Act A) → s.pc i ≡ p → IsWalked (step s i p a)
    unfolding step begin
    step-IsWalked idle call_shutdown e = record { behind = λ on l. cc; on_head = λ on l j f. cc }
    step-IsWalked idle call_stop e = record { behind = λ on l. cc; on_head = λ on l j f. cc }
    step-IsWalked idle _ e = record {
      behind = λ on l. ground (arith, w.behind on l);
      on_head = λ on l j f. ground (arith, w.on_head on l j);
    }
    step-IsWalked (enqueue_advance v next) a e = record {
      behind = λ on l. ground arith;
      on_head = λ on l j f. ground arith;
    }
    step-IsWalked (enqueue_link v tail) a e = link_after-IsWalked v tail (s.queue.next tail) e refl
    step-IsWalked (dequeue_tail head first) a e = tail-IsWalked head first e
    step-IsWalked (dequeue_advance head first) a e = advance-IsWalked head first e
    step-IsWalked (dequeue_exchange head first) a e = exchange-IsWalked head first e
    step-IsWalked p a e = record {
      behind = λ on l. ground (arith, w.behind on l);
      on_head = λ on l j f. ground (arith, w.on_head on l j);
    }

  pub start-IsWalked : IsWalked start
  unfolding start new_queue
  start-IsWalked = record { behind = λ on l. absurd (omega arith); on_head = λ on l j f. cc }

  pub run-IsWalked :
      (s : System A) (xs : List (ℕ × Act A)) → IsSound s → IsWalked s → IsWalked (run s xs)
  unfolding run
  run-IsWalked s [] ok w = w
  run-IsWalked s ((i, a) ∷ xs) ok w =
      run-IsWalked (step s i (s.pc i) a) xs (step-IsSound s i a ok)
        (step-IsWalked s i ok w (s.pc i) a refl)
