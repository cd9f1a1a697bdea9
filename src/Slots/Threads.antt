-- ===== src/Slots/Threads.antt =====
-- Threads over a queue of slots, for any queue and any program counter: what a step changes, and
-- how it shows in the protocol.
use mathlib.Core.Path.{subst}
use fast_mpmc_queue.Prelude.{
  ℕ, ◌≡◌, sym, ap, ◌∙◌, Bool, true, false, List, ◌∷◌, arith, update, apply-update, fun_ext, ℤ,
}
use fast_mpmc_queue.Slots.{SlotState, free, ready, is_state}
use fast_mpmc_queue.Slots.Protocol.{Claim, View, Step, Alter}
use fast_mpmc_queue.Slots.Invariant.{Inv}
use fast_mpmc_queue.Slots.Moves.{Step-Inv, Alter-Inv}
use fast_mpmc_queue.Slots.Delivery.{Delivered, Step-Delivered}

-- What a step hands over.
pub data Event {ℓ} (A : Type ℓ) : Type ℓ where
  quiet : Event A
  publish : A → Event A
  consume : A → Event A

-- A queue `Q` after a step, and where the thread stands then.
pub record Outcome {ℓ} (Q : Type ℓ) (P : Type 0) (A : Type ℓ) : Type ℓ where
  pub queue : Q
  pub pc : P
  pub event : Event A

abbrev pub quietly {ℓ} : {Q : Type ℓ} {P : Type 0} {A : Type ℓ} → Q → P → Outcome Q P A
quietly q p = record { queue = q; pc = p; event = quiet }

-- `published` and `consumed` record what accessors handed over, the last payload first.
pub record System {ℓ} (Q : Type ℓ) (P : Type 0) (A : Type ℓ) : Type ℓ where
  pub queue : Q
  pub pc : ℕ → P
  pub published : List A
  pub consumed : List A

abbrev pub log_published {ℓ} : {A : Type ℓ} → Event A → List A → List A
log_published (publish v) l = v ∷ l
log_published _ l = l

abbrev pub log_consumed {ℓ} : {A : Type ℓ} → Event A → List A → List A
log_consumed (consume v) l = v ∷ l
log_consumed _ l = l

-- The program after a step of thread `i`.
abbrev pub after {ℓ} :
    {Q : Type ℓ} {P : Type 0} {A : Type ℓ} → System Q P A → ℕ → Outcome Q P A → System Q P A
after s i o = record {
  queue = o.queue;
  pc = update s.pc i o.pc;
  published = log_published o.event s.published;
  consumed = log_consumed o.event s.consumed;
}

-- The parts of a queue that the protocol speaks of.
pub record Core {ℓ} (A : Type ℓ) : Type ℓ where
  pub cap : ℕ
  pub balance : ℤ
  pub state : ℕ → SlotState
  pub payload : ℕ → A

abbrev pub view_of {ℓ} : {A : Type ℓ} → Core A → (ℕ → Claim) → List A → List A → View A
view_of c claim published consumed = record {
  cap = c.cap;
  balance = c.balance;
  state = c.state;
  payload = c.payload;
  claim = claim;
  published = published;
  consumed = consumed;
}

-- How one view follows another: `writes` says whether a consumer may have written to its payload.
pub data Simulated {ℓ} {A : Type ℓ} (n : ℕ) (writes : Bool) (s t : View A) : Type ℓ where
  stays : s ≡ t → Simulated n writes s t
  moves : {u : View A} → Step n s u → t ≡ u → Simulated n writes s t
  alters : {u : View A} → writes ≡ true → Alter n s u → t ≡ u → Simulated n writes s t

pub Simulated-Inv {ℓ} :
    {A : Type ℓ} {n : ℕ} {b : Bool} {s t : View A} → Inv n s → Simulated n b s t → Inv n t
Simulated-Inv {n} inv (stays e) = subst (Inv n) e inv
Simulated-Inv {n} inv (moves st e) = subst (Inv n) (sym e) (Step-Inv inv st)
Simulated-Inv {n} inv (alters w al e) = subst (Inv n) (sym e) (Alter-Inv inv al)

pub Simulated-Delivered {ℓ} :
    {A : Type ℓ} (weight : A → ℕ) {n : ℕ} {b : Bool} {s t : View A}
    → b ≡ false
    → Inv n s
    → Simulated n b s t
    → Delivered weight s
    → Delivered weight t
Simulated-Delivered weight w inv (stays e) d = subst (Delivered weight) e d
Simulated-Delivered weight w inv (moves st e) d =
    subst (Delivered weight) (sym e) (Step-Delivered weight inv st d)
Simulated-Delivered weight w inv (alters writes al e) d = cc

pub is_state-free : (x : SlotState) → is_state x free ≡ true → x ≡ free
is_state-free x e = ground arith

pub is_state-ready : (x : SlotState) → is_state x ready ≡ true → x ≡ ready
is_state-ready x e = ground arith

update_same {ℓ} :
    {A : Type ℓ} (f : ℕ → A) (i : ℕ) (a : A) → f i ≡ a → ◌≡◌ {A = ℕ → A} f (update f i a)
update_same f i a e = fun_ext λ j. ground arith

module _ {ℓ} {Q : Type ℓ} {P : Type 0} {A : Type ℓ} (core : Q → Core A) (claim_of : P → Claim) where
  abbrev pub view : System Q P A → View A
  view s = view_of (core s.queue) (λ i. claim_of (s.pc i)) s.published s.consumed

  module _ (s : System Q P A) (i : ℕ) where
    -- The view after a step, with the claims as the protocol writes them.
    pub view-after :
        (o : Outcome Q P A)
        → view (after s i o) ≡ record (view (after s i o)) {
          claim = update (λ j. claim_of (s.pc j)) i (claim_of o.pc);
        }
    view-after o =
        ap (λ (f : ℕ → Claim). record (view (after s i o)) { claim = f })
          (apply-update claim_of s.pc i o.pc)

    -- Only cursors and the thread's own place change.
    pub quiet_step :
        {n : ℕ} {b : Bool} {p : P} (o : Outcome Q P A)
        → s.pc i ≡ p
        → claim_of p ≡ claim_of o.pc
        → core o.queue ≡ core s.queue
        → o.event ≡ quiet
        → Simulated n b (view s) (view (after s i o))
    quiet_step o e c f ev =
        let same =
          update_same (λ j. claim_of (s.pc j)) i (claim_of o.pc) (ap claim_of e ∙ c)
          ∙ sym (apply-update claim_of s.pc i o.pc) in
        stays (λ d.
          view_of (sym f d) (same d) (log_published (sym ev d) s.published)
            (log_consumed (sym ev d) s.consumed))

    -- A move of the protocol.
    pub moved_by :
        {n : ℕ} {b : Bool} (o : Outcome Q P A)
        → Step n (view s) (record (view (after s i o)) {
          claim = update (λ j. claim_of (s.pc j)) i (claim_of o.pc);
        })
        → Simulated n b (view s) (view (after s i o))
    moved_by o st = moves st (view-after o)

    -- A step through an accessor that stays alive.
    pub same_claims :
        {p : P} (q : Q) (p' : P)
        → s.pc i ≡ p
        → claim_of p ≡ claim_of p'
        → view (after s i (quietly q p'))
          ≡ record (view (after s i (quietly q p'))) { claim = λ j. claim_of (s.pc j) }
    same_claims q p' e c =
        view-after (quietly q p')
        ∙ ap (λ (f : ℕ → Claim). record (view (after s i (quietly q p'))) { claim = f })
            (sym (update_same (λ j. claim_of (s.pc j)) i _ (ap claim_of e ∙ c)))

    -- An addition to the free counter: `z` is the sum, `w` what the counter keeps of it.
    pub counted :
        (q : Q) (p : P) (z : ℤ)
        → core q ≡ record (core s.queue) { balance = z }
        → view (after s i (quietly q p))
          ≡ record (view s) { balance = z; claim = update (λ j. claim_of (s.pc j)) i (claim_of p) }
    counted q p z e =
        view-after (quietly q p)
        ∙ ap
            (λ (c : Core A).
              view_of c (update (λ j. claim_of (s.pc j)) i (claim_of p)) s.published s.consumed)
            e
