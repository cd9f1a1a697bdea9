-- ===== src/Deferred/Shape.antt =====
-- The marks and the list of retired nodes of mpmcdd_queue under interleaving.
use fast_mpmc_queue.Prelude.{
  ℕ, suc, ◌<◌, ◌≡◌, inl, inr, refl, true, false, arith, ◌==◌, Option, none, some, update,
  Bool-cases,
}
use fast_mpmc_queue.Nodes.{Below-mono}
use fast_mpmc_queue.Deferred.{Queue}
use fast_mpmc_queue.Deferred.Machine.{
  Pc, idle, stopping, enqueue_advance, enqueue_link, dequeue_advance, dequeue_mark,
  dequeue_exchange, dequeue_push, dequeue_store, purge_delete, Act, go, call_enqueue, call_dequeue,
  call_purge, call_shutdown, call_stop, System, step, begin, link_after,
}
use fast_mpmc_queue.Deferred.Order.{Knows, IsShaped, is_exchanging}

module _ {ℓ} {A : Type ℓ} (s : System A) (i : ℕ) where
  -- A step that leaves the head, the nodes, their marks and the retired nodes alone.
  same-IsShaped :
      (r : Queue A)
      → IsShaped s.queue
      → r.head ≡ s.queue.head
      → r.is_deleted ≡ s.queue.is_deleted
      → r.deleted ≡ s.queue.deleted
      → r.next_deleted ≡ s.queue.next_deleted
      → r.freed ≡ s.queue.freed
      → r.tail < r.allocated
      → IsShaped r
  same-IsShaped r ok h m l n f t = record {
    tail_in = t;
    marked = rw (h, m) ok.marked;
    listed = rw (h, l) ok.listed;
    chained = rw (h, n) ok.chained;
    behind = rw (h, f) ok.behind;
  }

  link_after-IsShaped :
      (v : A) (tail : ℕ) (x : Option ℕ)
      → IsShaped s.queue
      → IsShaped (link_after s i v tail x).queue
  unfolding link_after
  link_after-IsShaped v tail none ok =
      same-IsShaped (link_after s i v tail none).queue ok refl refl refl refl refl
        (omega (arith, ok.tail_in))
  link_after-IsShaped v tail (some n) ok = ok

  exchange-IsShaped :
      (first : ℕ) (d : ℕ → Option A)
      → IsShaped s.queue
      → first ≡ suc s.queue.head
      → first < s.queue.allocated
      → s.queue.is_deleted first ≡ true
      → IsShaped (record s.queue { head = first; data_of = d })
  exchange-IsShaped first d ok e h m = record {
    tail_in = ok.tail_in;
    marked = λ k l g. ground (arith, ok.marked k);
    listed = Below-mono s.queue.head first s.queue.deleted (omega arith) ok.listed;
    chained =
        λ k. Below-mono s.queue.head first (s.queue.next_deleted k) (omega arith) (ok.chained k);
    behind = λ k g. omega (arith, ok.behind k g);
  }

  pub step-IsShaped :
      (p : Pc A) (a : Act A) → IsShaped s.queue → Knows s.queue p → IsShaped (step s i p a).queue
  unfolding step begin
  step-IsShaped idle (call_enqueue v) ok h = ok
  step-IsShaped idle call_dequeue ok h = ok
  step-IsShaped idle call_purge ok h = ok
  step-IsShaped idle call_shutdown ok h =
      same-IsShaped (step s i idle call_shutdown).queue ok refl refl refl refl refl ok.tail_in
  step-IsShaped idle call_stop ok h =
      same-IsShaped (step s i idle call_stop).queue ok refl refl refl refl refl ok.tail_in
  step-IsShaped idle go ok h = ok
  step-IsShaped stopping a ok h =
      same-IsShaped (step s i stopping a).queue ok refl refl refl refl refl ok.tail_in
  step-IsShaped (enqueue_advance v next) a ok h =
      same-IsShaped (step s i (enqueue_advance v next) a).queue ok refl refl refl refl refl h
  step-IsShaped (enqueue_link v tail) a ok h = link_after-IsShaped v tail (s.queue.next tail) ok
  step-IsShaped (dequeue_advance head first) a ok h =
      same-IsShaped (step s i (dequeue_advance head first) a).queue ok refl refl refl refl refl
        (ground (arith, ok.tail_in))
  step-IsShaped (dequeue_mark head first) a ok h = record {
    tail_in = ok.tail_in;
    marked = λ k l g. ground (arith, ok.marked k);
    listed = ok.listed;
    chained = ok.chained;
    behind = ok.behind;
  }
  step-IsShaped (dequeue_exchange head first) a ok h = elim (Bool-cases (s.queue.head == head)) [
    | inl same ↦
        rw same (
          exchange-IsShaped first (update s.queue.data_of first none) ok (omega (arith, h)) h.2 h.3)
    | inr moved ↦ rw moved ok
  ]
  step-IsShaped (dequeue_push head) a ok h = record {
    tail_in = ok.tail_in;
    marked = ok.marked;
    listed = h;
    chained = ok.chained;
    behind = ok.behind;
  }
  step-IsShaped (dequeue_store head old) a ok h = record {
    tail_in = ok.tail_in;
    marked = ok.marked;
    listed = ok.listed;
    chained = λ k. ground (arith, ok.chained k);
    behind = ok.behind;
  }
  step-IsShaped (purge_delete current next) a ok h = record {
    tail_in = ok.tail_in;
    marked = ok.marked;
    listed = ok.listed;
    chained = ok.chained;
    behind = λ k g. ground (arith, ok.behind k);
  }
  step-IsShaped _ a ok h = ok

  link_after-ne_exchanging :
      (v : A) (tail : ℕ) (x : Option ℕ) → is_exchanging ((link_after s i v tail x).pc i) ≡ false
  unfolding link_after
  link_after-ne_exchanging v tail none = ground arith
  link_after-ne_exchanging v tail (some n) = ground arith

  -- A thread comes to the exchange by marking a node that was not marked.
  pub marks_first :
      (p : Pc A) (a : Act A)
      → is_exchanging ((step s i p a).pc i) ≡ true
      → (head : ℕ) × (first : ℕ) × (p ≡ dequeue_mark head first)
        × (s.queue.is_deleted first ≡ false)
  unfolding step begin
  marks_first (dequeue_mark head first) a e = (head, first, refl, ground arith)
  marks_first (enqueue_link v tail) a e =
      absurd (ground (arith, link_after-ne_exchanging v tail (s.queue.next tail)))
  marks_first _ a e = absurd (ground arith)

  pub unmarked :
      (p : Pc A) (head first : ℕ)
      → IsShaped s.queue
      → Knows s.queue (dequeue_mark head first)
      → Knows s.queue p
      → s.queue.is_deleted first ≡ false
      → is_exchanging p ≡ false
  unmarked (dequeue_exchange h f) head first ok k g e = ground (arith, ok.marked first)
  unmarked idle head first ok k g e = refl
  unmarked _ head first ok k g e = refl
