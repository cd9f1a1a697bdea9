-- ===== src/Epoch/Invariant.antt =====
-- The invariant of mpmc_queue: its nodes, the list of those that wait for deletion, and its threads.
use fast_mpmc_queue.Prelude.{
  ℕ, suc, ◌<◌, ◌≡◌, inl, inr, refl, arith, ◌==◌, Option, none, some, List, [], ◌∷◌, update,
  Bool-cases,
}
use native.Mathlib.Decide.{ℕ_discrete}
use fast_mpmc_queue.Nodes.{Below, Below-mono, waiting-zero}
use fast_mpmc_queue.Epoch.{
  Config, Queue, put, take, Pc, idle, aborted, register_unlock, enqueue_advance, enqueue_link,
  enqueue_swing, dequeue_advance, dequeue_exchange, dequeue_stamp, dequeue_push, dequeue_store,
  purge_keep, purge_delete, purge_end, Act, go, call_enqueue, call_dequeue, call_purge, call_touch,
  call_escape, call_shutdown, call_stop, System,
}
use fast_mpmc_queue.Epoch.Register.{begin}
use fast_mpmc_queue.Epoch.Transfer.{link_after}
use fast_mpmc_queue.Epoch.Machine.{new_queue, start, step, run}
use fast_mpmc_queue.Epoch.Order.{Knows, Knows-grow, IsShaped, Ordered}
use fast_mpmc_queue.Epoch.Moves.{step-Ordered, step-Grows, step-goes}

module _ {ℓ} {A : Type ℓ} where
  module _ (c : Config) (s : System A) (i : ℕ) where
    -- A step that leaves the head, the nodes that wait for deletion and the deleted ones alone.
    same-IsShaped :
        (r : Queue A)
        → IsShaped s.queue
        → r.head ≡ s.queue.head
        → r.deleted_at ≡ s.queue.deleted_at
        → r.deleted ≡ s.queue.deleted
        → r.next_deleted ≡ s.queue.next_deleted
        → r.freed ≡ s.queue.freed
        → r.tail < r.allocated
        → IsShaped r
    same-IsShaped r ok h m l n f t = record {
      tail_in = t;
      stamped = rw (h, m) ok.stamped;
      listed = rw (h, l) ok.listed;
      chained = rw (h, n) ok.chained;
      behind = rw (h, f) ok.behind;
    }

    link_after-IsShaped :
        (v : A) (epoch tail : ℕ) (x : Option ℕ)
        → IsShaped s.queue
        → IsShaped (link_after s i v epoch tail x).queue
    unfolding link_after
    link_after-IsShaped v epoch tail none ok =
        same-IsShaped (link_after s i v epoch tail none).queue ok refl refl refl refl refl
          (omega (arith, ok.tail_in))
    link_after-IsShaped v epoch tail (some n) ok = ok

    exchange-IsShaped :
        (first : ℕ) (d : ℕ → Option A)
        → IsShaped s.queue
        → first ≡ suc s.queue.head
        → IsShaped (record s.queue { head = first; data_of = d })
    exchange-IsShaped first d ok e = record {
      tail_in = ok.tail_in;
      stamped = λ k g. omega (arith, ok.stamped k g);
      listed = Below-mono s.queue.head first s.queue.deleted (omega arith) ok.listed;
      chained =
          λ k. Below-mono s.queue.head first (s.queue.next_deleted k) (omega arith) (ok.chained k);
      behind = λ k g. omega (arith, ok.behind k g);
    }

    -- One node that waits for deletion gets another successor.
    chain-IsShaped :
        (k : ℕ) (x : Option ℕ)
        → IsShaped s.queue
        → Below s.queue.head x
        → IsShaped (record s.queue { next_deleted = update s.queue.next_deleted k x })
    chain-IsShaped k x ok h = record {
      tail_in = ok.tail_in;
      stamped = ok.stamped;
      listed = ok.listed;
      chained = λ j. ground (arith, ok.chained j);
      behind = ok.behind;
    }

    step-IsShaped :
        (p : Pc A) (a : Act A)
        → IsShaped s.queue
        → Knows s.queue p
        → IsShaped (step c s i p a).queue
    unfolding step begin
    step-IsShaped idle (call_enqueue v) ok h = ok
    step-IsShaped idle call_dequeue ok h = ok
    step-IsShaped idle call_purge ok h = ok
    step-IsShaped idle call_touch ok h = ok
    step-IsShaped idle call_escape ok h = ok
    step-IsShaped idle call_shutdown ok h =
        same-IsShaped (step c s i idle call_shutdown).queue ok refl refl refl refl refl ok.tail_in
    step-IsShaped idle call_stop ok h =
        same-IsShaped (step c s i idle call_stop).queue ok refl refl refl refl refl ok.tail_in
    step-IsShaped idle go ok h = ok
    step-IsShaped (aborted op) a ok h = ok
    step-IsShaped (register_unlock (put v) epoch) a ok h =
        same-IsShaped (step c s i (register_unlock (put v) epoch) a).queue ok refl refl refl refl
          refl ok.tail_in
    step-IsShaped (register_unlock take epoch) a ok h =
        same-IsShaped (step c s i (register_unlock take epoch) a).queue ok refl refl refl refl refl
          ok.tail_in
    step-IsShaped (enqueue_advance v epoch next) a ok h =
        same-IsShaped (step c s i (enqueue_advance v epoch next) a).queue ok refl refl refl refl
          refl h
    step-IsShaped (enqueue_link v epoch tail) a ok h =
        link_after-IsShaped v epoch tail (s.queue.next tail) ok
    step-IsShaped (enqueue_swing epoch node) a ok h =
        same-IsShaped (step c s i (enqueue_swing epoch node) a).queue ok refl refl refl refl refl h
    step-IsShaped (dequeue_advance epoch head first) a ok h =
        same-IsShaped (step c s i (dequeue_advance epoch head first) a).queue ok refl refl refl refl
          refl h.2
    step-IsShaped (dequeue_exchange epoch head first) a ok h =
        elim (Bool-cases (s.queue.head == head)) [
          | inl same ↦
              rw same
                (exchange-IsShaped first (update s.queue.data_of first none) ok (ground (arith, h)))
          | inr moved ↦ rw moved ok
        ]
    step-IsShaped (dequeue_stamp epoch head first) a ok h = record {
      tail_in = ok.tail_in;
      stamped = λ k g. ground (arith, ok.stamped k);
      listed = ok.listed;
      chained = ok.chained;
      behind = ok.behind;
    }
    step-IsShaped (dequeue_push epoch head) a ok h = record {
      tail_in = ok.tail_in;
      stamped = ok.stamped;
      listed = h;
      chained = ok.chained;
      behind = ok.behind;
    }
    step-IsShaped (dequeue_store epoch head old) a ok h = chain-IsShaped head old ok h.1
    step-IsShaped (purge_keep r bound last current next) a ok h =
        chain-IsShaped last (some current) ok h.1
    step-IsShaped (purge_delete r bound last current next) a ok h = record {
      tail_in = ok.tail_in;
      stamped = ok.stamped;
      listed = ok.listed;
      chained = ok.chained;
      behind = λ k g. ground (arith, ok.behind k);
    }
    step-IsShaped (purge_end r last) a ok h = chain-IsShaped last none ok tt
    step-IsShaped p a ok h =
        same-IsShaped (step c s i p a).queue ok refl refl refl refl refl ok.tail_in

  pub record IsSound (s : System A) : Type ℓ where
    pub nodes : Ordered s
    pub shape : IsShaped s.queue
    pub knows : (i : ℕ) → Knows s.queue (s.pc i)

  module _ (c : Config) (s : System A) (i : ℕ) (a : Act A) (ok : IsSound s) where
    abbrev after_step : System A
    after_step = step c s i (s.pc i) a

    step-Knows : (j : ℕ) → Knows after_step.queue (after_step.pc j)
    step-Knows j =
        let (p', e, k) = step-goes c s i (s.pc i) a ok.nodes ok.shape (ok.knows i) in
        let g = step-Grows c s i (s.pc i) a (ok.knows i) in
        elim (ℕ_discrete j i) [
          | yes p ↦ rw (e, p) (ground (arith, k))
          | no p ↦ rw e (
              ground (arith, Knows-grow s.queue after_step.queue (s.pc j) g.more g.on (ok.knows j)))
        ]

    pub step-IsSound : IsSound after_step
    step-IsSound = record {
      nodes = step-Ordered c s i (s.pc i) a ok.nodes (ok.knows i);
      shape = step-IsShaped c s i (s.pc i) a ok.shape (ok.knows i);
      knows = step-Knows;
    }

  module _ (c : Config) where
    pub start-IsSound : IsSound (start c)
    unfolding start new_queue
    start-IsSound = record {
      nodes = record {
        inside = omega arith;
        links = λ k. ground arith;
        fifo = rw (waiting-zero {A = A} (λ k. none) 0) refl;
      };
      shape = record {
        tail_in = omega arith;
        stamped = λ k h. absurd (h refl);
        listed = tt;
        chained = λ k. tt;
        behind = λ k h. cc;
      };
      knows = λ i. ground arith;
    }

    pub run-IsSound : (s : System A) (xs : List (ℕ × Act A)) → IsSound s → IsSound (run c s xs)
    unfolding run
    run-IsSound s [] ok = ok
    run-IsSound s ((i, a) ∷ xs) ok =
        run-IsSound (step c s i (s.pc i) a) xs (step-IsSound c s i a ok)
