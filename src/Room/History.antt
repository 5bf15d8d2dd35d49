-- ===== src/Room/History.antt =====
-- The terms and the written receipts through calls.
use nexum.Meter.{TokenUnit}
use nexum.Prelude.{
  ℕ, String, ◌≡◌, Option, List, [], ◌∷◌, ◌++◌, arith, Bool, take, take-append, take-length,
  take_trans, length, if_rule, not, ◌==◌, ap,
}
use nexum.Prelude.Int.{ℤ}
use nexum.Errors.{Outcome, attempt_rule}
use nexum.Std.{Std, Bytes, Time}
use nexum.Settle
use nexum.Settle.{EncryptedLedger}
use nexum.Receipt.{Party, next_receipt}
use nexum.Agreement
use nexum.Agreement.{Agreement, is_terminal, outsider, denominate}
use nexum.Room
use nexum.Room.{Move, Entropy}
use nexum.Room.Ops.{
  Op, lock, seal_lock, accept, reject, set_deadline, expire, note, start_sealed, apply,
  accept_with_evidence, with_unit, perform, perform_all, apply_rule, unit_after, unit_after_all,
  in_unit,
}

-- The terms that the parties agreed on.
pub record SameTerms (a b : Agreement) : Type 0 where
  pub id : b.id ≡ a.id
  pub kind : b.kind ≡ a.kind
  pub buyer : b.buyer ≡ a.buyer
  pub seller : b.seller ≡ a.seller
  pub amount : b.amount ≡ a.amount
  pub unit : b.unit ≡ a.unit
  pub meter : b.meter ≡ a.meter
  pub created_at : b.created_at ≡ a.created_at

-- The terms are the same, and the receipts begin with those that were there.
pub record Extends (a b : Agreement) : Type 0 where
  pub terms : SameTerms a b
  pub history : take (length a.receipts) b.receipts ≡ a.receipts

Extends-refl : (a : Agreement) → Extends a a
Extends-refl a = ground (arith, take-length a.receipts)

Extends-trans : {a b c : Agreement} → Extends a b → Extends b c → Extends a c
Extends-trans {a} {b} {c} h k =
    ground (arith, take_trans a.receipts b.receipts c.receipts h.history k.history)

-- Two agreements whose units have gone through the same changes.
Extends-in_unit :
    {a b : Agreement} (f : TokenUnit → TokenUnit)
    → Extends a b
    → Extends (in_unit a (f a.unit)) (in_unit b (f b.unit))
Extends-in_unit {a} {b} f h = record {
  terms = record {
    id = h.terms.id;
    kind = h.terms.kind;
    buyer = h.terms.buyer;
    seller = h.terms.seller;
    amount = h.terms.amount;
    unit = ap f h.terms.unit;
    meter = h.terms.meter;
    created_at = h.terms.created_at;
  };
  history = h.history;
}

module _ (std : Std) (a : Agreement) (now : Time) where
  -- The receipts as they are, and with one more.
  kept :
      (actor : Party) (action text : String)
      → (take (length a.receipts) a.receipts ≡ a.receipts)
        × (take
              (length a.receipts)
              (a.receipts ++ next_receipt std a.id a.receipts actor action text now ∷ [])
            ≡ a.receipts)
  kept actor action text = (take-length a.receipts, take-append a.receipts _)

  lock-Extends : (actor : Party) → Extends a (Agreement.lock std a actor now).1
  unfolding Agreement.lock
  lock-Extends actor = grind (arith, take-length, take-append)

  seal_commit-Extends :
      (actor : Party) (sealed : Bytes × EncryptedLedger) (locks : List Bytes) (sum : Bytes)
      → Extends a (Room.seal_commit std a actor now sealed locks sum).1
  unfolding Room.seal_commit
  seal_commit-Extends actor sealed locks sum = grind (arith, take-length, take-append)

  seal_with-Extends :
      (actor : Party) (partial : ℤ) (draws : ℕ → Option ℕ) (ledger : EncryptedLedger)
      → Extends a (Room.seal_with std a actor partial draws now ledger).1
  unfolding Room.seal_with
  seal_with-Extends actor partial draws ledger =
      attempt_rule (λ r. Extends a r.1) a (Settle.seal_lock (Settle.clone ledger) partial draws) _
        (λ e. Extends-refl a)
        (λ sealed.
          attempt_rule (λ r. Extends a r.1) a
            (Settle.aggregate sealed.1 (a.sealed_locks ++ sealed.0 ∷ [])) _ (λ e. Extends-refl a)
            (λ sum. seal_commit-Extends actor sealed (a.sealed_locks ++ sealed.0 ∷ []) sum))

  seal_lock-Extends :
      (actor : Party) (partial : ℤ) (draws : ℕ → Option ℕ)
      → Extends a (Room.seal_lock std a actor partial draws now).1
  unfolding Room.seal_lock
  seal_lock-Extends actor partial draws = grind (arith, Extends-refl, seal_with-Extends)

  settle_proven-Extends :
      (actor : Party) (proof : Bytes) (holds : Bool)
      → Extends a (Room.settle_proven std a actor now proof holds).1
  unfolding Room.settle_proven
  settle_proven-Extends actor proof holds = grind (arith, take-length, take-append)

  accept_sealed-Extends :
      (actor : Party) (ledger : EncryptedLedger) (blinder : Option ℕ)
      → Extends a (Room.accept_sealed std a actor ledger blinder now).1
  unfolding Room.accept_sealed
  accept_sealed-Extends actor ledger blinder = grind (arith, Extends-refl, settle_proven-Extends)

  accept_plain-Extends : (actor : Party) → Extends a (Room.accept_plain std a actor now).1
  unfolding Room.accept_plain
  accept_plain-Extends actor = grind (arith, take-length, take-append)

  accept-Extends :
      (actor : Party) (blinder : Option ℕ) → Extends a (Room.accept std a actor blinder now).1
  unfolding Room.accept
  accept-Extends actor blinder = grind (arith, accept_plain-Extends, accept_sealed-Extends)

  reject-Extends : (actor : Party) → Extends a (Room.reject std a actor now).1
  unfolding Room.reject Room.reject_plain Room.reject_sealed
  reject-Extends actor = grind (arith, take-length, take-append)

  append-Extends :
      (actor : Party) (action text : String)
      → Extends a (Agreement.append std a actor action text now).1
  unfolding Agreement.append
  append-Extends actor action text = ground (arith, kept actor action text)

  note-Extends :
      (actor : Party) (action citation : String)
      → Extends a (Agreement.note std a actor action citation now).1
  unfolding Agreement.note
  note-Extends actor action citation = if_rule Kept (outsider a actor) same (
      if_rule Kept (is_terminal a.status) same (
        if_rule Kept (citation == "") same
          (if_rule Kept (not (action == "evidence")) same (append-Extends actor action citation))))
    where
      Kept : Outcome Agreement → Type 0
      Kept r = Extends a r.1

      same : Extends a a
      same = Extends-refl a

  set_deadline-Extends :
      (actor : Party) (deadline : Time)
      → Extends a (Agreement.set_deadline std a actor deadline now).1
  unfolding Agreement.set_deadline
  set_deadline-Extends actor deadline = ground (arith, kept actor "deadline" (std.rfc3339 deadline))

  expire-Extends : (actor : Party) → Extends a (Agreement.expire std a actor now).1
  unfolding Agreement.expire
  expire-Extends actor = ground (arith, kept actor "expire" "deadline passed, value unlocked")

  start_sealed-Extends :
      (bits : ℕ) (primes : ℕ → List (Option ℕ × Option ℕ))
      → Extends a (Room.start_sealed a bits primes).1
  unfolding Room.start_sealed
  start_sealed-Extends bits primes = grind (arith, take-length)

  apply-Extends : (m : Move) (rnd : Entropy) → Extends a (Room.apply std a m rnd now).1
  apply-Extends m rnd =
      apply_rule std a now (λ r. Extends a r.1) m rnd (lock-Extends m.actor)
        (seal_lock-Extends m.actor m.partial rnd.draws) (accept-Extends m.actor rnd.blinder)
        (reject-Extends m.actor) (λ e. Extends-refl a)

module _ (std : Std) where
  accept_with_evidence-Extends :
      (a : Agreement) (now : Time) (author actor : Party) (citation : String) (blinder : Option ℕ)
      → Extends a (Room.accept_with_evidence std a author actor citation blinder now).1
  unfolding Room.accept_with_evidence
  accept_with_evidence-Extends a now author actor citation blinder =
      let next = (Agreement.note std a author "evidence" citation now).1 in
      let first = note-Extends std a now author "evidence" citation in
      let both = Extends-trans first (accept-Extends std next now actor blinder) in
      ground (arith, first, both, Extends-refl a)

  -- A call keeps the terms and the receipts, and leaves the unit that `unit_after` says.
  pub perform-Extends :
      (op : Op) (now : Time) (a : Agreement)
      → Extends (in_unit a (unit_after op a.unit)) (perform std op now a).1
  unfolding perform
  perform-Extends (lock actor) now a = lock-Extends std a now actor
  perform-Extends (seal_lock actor partial draws) now a =
      seal_lock-Extends std a now actor partial draws
  perform-Extends (accept actor blinder) now a = accept-Extends std a now actor blinder
  perform-Extends (reject actor) now a = reject-Extends std a now actor
  perform-Extends (set_deadline actor deadline) now a =
      set_deadline-Extends std a now actor deadline
  perform-Extends (expire actor) now a = expire-Extends std a now actor
  perform-Extends (note actor action citation) now a = note-Extends std a now actor action citation
  perform-Extends (start_sealed bits primes) now a = start_sealed-Extends std a now bits primes
  perform-Extends (apply m rnd) now a = apply-Extends std a now m rnd
  perform-Extends (accept_with_evidence author actor citation blinder) now a =
      accept_with_evidence-Extends a now author actor citation blinder
  perform-Extends (with_unit symbol) now a = Extends-refl (in_unit a (denominate symbol a.unit))

  -- No calls change the id, kind, parties, amount, meter or time of creation of an agreement, or a
  -- receipt that is already written: the receipts begin with those that were there. The unit is the one
  -- that the calls of WithUnit among them leave; no other call changes it.
  pub agreement_calls-Extends :
      (calls : List (Time × Op)) (a : Agreement)
      → Extends (in_unit a (unit_after_all calls a.unit)) (perform_all std calls a)
  unfolding perform_all
  agreement_calls-Extends [] a = Extends-refl a
  agreement_calls-Extends ((now, op) ∷ rest) a =
      let b = (perform std op now a).1 in
      let first = perform-Extends op now a in
      Extends-trans (Extends-in_unit (unit_after_all rest) first) (agreement_calls-Extends rest b)
