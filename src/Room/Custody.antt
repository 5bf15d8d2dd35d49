-- ===== src/Room/Custody.antt =====
-- Who may move the value, and when: the status transitions that a call can make.
use nexum.Prelude.{
  ℕ, ◌≤◌, ◌<◌, String, ◌≡◌, ◌≢◌, ◌⊎◌, refl, true, false, Option, none, some, [], arith, eq_iff, inl,
}
use nexum.Prelude.Int.{ℤ}
use nexum.Errors.{ok}
use nexum.Std.{Std, Bytes, Time}
use nexum.Meter.{Status, locked, accepted, rejected, expired}
use nexum.Settle
use nexum.Settle.{EncryptedLedger}
use nexum.Receipt.{Party}
use nexum.Agreement
use nexum.Agreement.{Agreement, is_terminal}
use nexum.Room
use nexum.Room.{Move, Entropy}
use nexum.Room.Ops.{
  Op, lock, seal_lock, accept, reject, set_deadline, expire, note, start_sealed, apply,
  accept_with_evidence, with_unit, perform, apply_rule,
}

-- The party that a call names as the one who acts; `StartSealed` names nobody, nor does
-- `WithUnit`.
abbrev pub performer : Op → Party
performer (lock actor) = actor
performer (seal_lock actor _ _) = actor
performer (accept actor _) = actor
performer (reject actor) = actor
performer (set_deadline actor _) = actor
performer (expire actor) = actor
performer (note actor _ _) = actor
performer (start_sealed _ _) = ""
performer (apply m _) = m.actor
performer (accept_with_evidence _ actor _ _) = actor
performer (with_unit _) = ""

-- What a change to each status takes. No change leads back to `opened`.
abbrev pub Permitted : Time → Party → Agreement → Status → Type 0
Permitted now actor a locked = (is_terminal a.status ≡ false) × (actor ≡ a.buyer)
Permitted now actor a accepted = (a.status ≡ locked) × (actor ≡ a.seller)
Permitted now actor a rejected = (a.status ≡ locked) × (actor ≡ a.seller)
Permitted now actor a expired =
    (is_terminal a.status ≡ false)
    × ((actor ≡ a.buyer) ⊎ (actor ≡ a.seller))
    × (0 < a.deadline)
    × (a.deadline ≤ now)
Permitted now actor a _ = ⊥

abbrev pub Moves : Time → Party → Agreement → Agreement → Type 0
Moves now actor a b = (b.status ≡ a.status) ⊎ Permitted now actor a b.status

module _ (std : Std) (a : Agreement) (now : Time) where
  lock-Moves : (actor : Party) → Moves now actor a (Agreement.lock std a actor now).1
  unfolding Agreement.lock
  lock-Moves actor = ground (arith, eq_iff actor a.buyer)

  seal_lock-Moves :
      (actor : Party) (partial : ℤ) (draws : ℕ → Option ℕ)
      → Moves now actor a (Room.seal_lock std a actor partial draws now).1
  unfolding Room.seal_lock Room.seal_with Room.seal_commit
  seal_lock-Moves actor partial draws = ground (arith, eq_iff actor a.buyer)

  accept-Moves :
      (actor : Party) (blinder : Option ℕ)
      → Moves now actor a (Room.accept std a actor blinder now).1
  unfolding Room.accept Room.accept_plain Room.accept_sealed Room.settle_proven
  accept-Moves actor blinder = ground (arith, eq_iff actor a.seller)

  reject-Moves : (actor : Party) → Moves now actor a (Room.reject std a actor now).1
  unfolding Room.reject Room.reject_plain Room.reject_sealed
  reject-Moves actor = ground (arith, eq_iff actor a.seller)

  expire-Moves : (actor : Party) → Moves now actor a (Agreement.expire std a actor now).1
  unfolding Agreement.expire
  expire-Moves actor = ground (arith, eq_iff actor a.seller, eq_iff actor a.buyer)

  apply-Moves : (m : Move) (rnd : Entropy) → Moves now m.actor a (Room.apply std a m rnd now).1
  apply-Moves m rnd =
      apply_rule std a now (λ r. Moves now m.actor a r.1) m rnd (lock-Moves m.actor)
        (seal_lock-Moves m.actor m.partial rnd.draws) (accept-Moves m.actor rnd.blinder)
        (reject-Moves m.actor) (λ e. inl refl)

  pub note-same :
      (actor : Party) (action citation : String)
      → let b = (Agreement.note std a actor action citation now).1 in
        (b.status ≡ a.status)
        × (b.seller ≡ a.seller)
        × (b.buyer ≡ a.buyer)
        × (b.deadline ≡ a.deadline)
  unfolding Agreement.note
  note-same actor action citation = ground arith

module _ (std : Std) where
  -- The acceptance runs on the copy that holds the evidence.
  accept_with_evidence-Moves :
      (a : Agreement) (now : Time) (author actor : Party) (citation : String) (blinder : Option ℕ)
      → Moves now actor a (Room.accept_with_evidence std a author actor citation blinder now).1
  unfolding Room.accept_with_evidence
  accept_with_evidence-Moves a now author actor citation blinder =
      let next = (Agreement.note std a author "evidence" citation now).1 in
      ground (
        arith,
        note-same std a now author "evidence" citation,
        accept-Moves std next now actor blinder,
      )

  -- A call changes the status only as follows: the buyer locks an agreement that is not terminal;
  -- the seller accepts or rejects a locked one; the buyer or the seller expires one that is not
  -- terminal, at or after its deadline. No call changes the status to any other.
  pub agreement_call-Moves :
      (op : Op) (now : Time) (a : Agreement) → Moves now (performer op) a (perform std op now a).1
  unfolding perform
  agreement_call-Moves (lock actor) now a = lock-Moves std a now actor
  agreement_call-Moves (seal_lock actor partial draws) now a =
      seal_lock-Moves std a now actor partial draws
  agreement_call-Moves (accept actor blinder) now a = accept-Moves std a now actor blinder
  agreement_call-Moves (reject actor) now a = reject-Moves std a now actor
  agreement_call-Moves (set_deadline actor deadline) now a =
      inl (unfold Agreement.set_deadline in ground arith)
  agreement_call-Moves (expire actor) now a = expire-Moves std a now actor
  agreement_call-Moves (note actor action citation) now a =
      inl (note-same std a now actor action citation).0
  agreement_call-Moves (start_sealed bits primes) now a =
      inl (unfold Room.start_sealed in ground arith)
  agreement_call-Moves (apply m rnd) now a = apply-Moves std a now m rnd
  agreement_call-Moves (accept_with_evidence author actor citation blinder) now a =
      accept_with_evidence-Moves a now author actor citation blinder
  agreement_call-Moves (with_unit symbol) now a = inl refl

  -- An armed agreement is accepted only on a proof: where `Accept` succeeds, the ledger made a proof
  -- for the sealed sum and the committed amount that its verifier accepts, at least one lock was
  -- sealed, the value goes to the seller, and the sealed sum is gone, so it is released once.
  pub sealed_acceptance :
      (a : Agreement) (actor : Party) (blinder : Option ℕ) (now : Time) (ledger : EncryptedLedger)
      → a.sealed ≡ some ledger
      → (Room.accept std a actor blinder now).0 ≡ none
      → let b = (Room.accept std a actor blinder now).1 in
        ((proof : Bytes) × (Settle.prove_equal std ledger a.sealed_sum a.amount blinder ≡ ok proof)
          × (Settle.verify_equal std ledger a.sealed_sum a.amount proof ≡ ok true))
        × (a.sealed_locks ≢ [])
        × (b.status ≡ accepted)
        × (b.released_to ≡ a.seller)
        × (b.sealed_sum ≡ [])
  unfolding Room.accept Room.accept_sealed Room.settle_proven
  sealed_acceptance a actor blinder now ledger armed h = ground arith
