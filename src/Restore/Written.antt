-- ===== src/Restore/Written.antt =====
-- The receipts that a command writes.
use nexum.Prelude.{
  ℕ, String, ◌≡◌, refl, Bool, not, ◌||◌, Option, none, some, List, [], ◌∷◌, ◌++◌, ◌==◌, arith,
  if_rule,
}
use nexum.Errors.{Outcome, fail, attempt_rule, no_seal}
use nexum.Std.{Std, Bytes, Time}
use nexum.Settle
use nexum.Settle.{EncryptedLedger}
use nexum.Meter.{is_locked}
use nexum.Receipt.{Receipt, Party, next_receipt}
use nexum.Agreement
use nexum.Agreement.{Agreement, is_terminal, outsider}
use nexum.Room
use nexum.Room.{Entropy, is_empty}
use nexum.Restore.{is_none}

-- One more receipt, and nothing that a stored record is compared with.
pub record Wrote (a b : Agreement) (actor : Party) (action : String) : Type 0 where
  pub receipt : Receipt
  pub written : b.receipts ≡ a.receipts ++ receipt ∷ []
  pub by : receipt.actor ≡ actor
  pub did : receipt.action ≡ action
  pub deadline : b.deadline ≡ a.deadline
  pub armed : is_none b.sealed ≡ is_none a.sealed

module _ (std : Std) (a : Agreement) (now : Time) where
  abbrev WroteBy : Party → String → Outcome Agreement → Type 0
  WroteBy actor action r = r.0 ≡ none → Wrote a r.1 actor action

  seal_commit-Wrote :
      (actor : Party) (ledger : EncryptedLedger) (sealed : Bytes × EncryptedLedger)
      (locks : List Bytes) (sum : Bytes)
      → a.sealed ≡ some ledger
      → WroteBy actor "seal" (Room.seal_commit std a actor now sealed locks sum)
  unfolding Room.seal_commit next_receipt
  seal_commit-Wrote actor ledger sealed locks sum has h = record {
    receipt = next_receipt std a.id a.receipts actor "seal" (std.base64 sealed.0) now;
    written = ground arith;
    by = refl;
    did = refl;
    deadline = ground arith;
    armed = ground arith;
  }

  pub seal_lock-Wrote :
      (actor : Party) (rnd : ℕ → Option ℕ)
      → WroteBy actor "seal" (Room.seal_lock std a actor a.amount rnd now)
  unfolding Room.seal_lock Room.seal_with
  seal_lock-Wrote actor draws =
      if_rule P (not (actor == a.buyer)) (λ h. cc)
        (if_rule P (is_terminal a.status) (λ h. cc) (armed a.sealed refl))
    where
      P : Outcome Agreement → Type 0
      P r = WroteBy actor "seal" r

      armed :
          (o : Option EncryptedLedger)
          → a.sealed ≡ o
          → P (elim o [
            | none ↦ fail no_seal a
            | some ledger ↦ Room.seal_with std a actor a.amount draws now ledger
          ])
      armed none has = λ h. cc
      armed (some ledger) has =
          unfold Room.seal_with in
          attempt_rule P a (Settle.seal_lock (Settle.clone ledger) a.amount draws) _ (λ e h. cc)
            (λ sealed.
              attempt_rule P a (Settle.aggregate sealed.1 (a.sealed_locks ++ sealed.0 ∷ [])) _
                (λ e h. cc)
                (λ sum.
                  seal_commit-Wrote actor ledger sealed (a.sealed_locks ++ sealed.0 ∷ []) sum has))

  pub expire-Wrote : (actor : Party) → WroteBy actor "expire" (Agreement.expire std a actor now)
  unfolding Agreement.expire next_receipt
  expire-Wrote actor h = record {
    receipt = next_receipt std a.id a.receipts actor "expire" "deadline passed, value unlocked" now;
    written = ground arith;
    by = refl;
    did = refl;
    deadline = ground arith;
    armed = ground arith;
  }

  reject_plain-Wrote : (actor : Party) → WroteBy actor "reject" (Room.reject_plain std a actor now)
  unfolding Room.reject_plain next_receipt
  reject_plain-Wrote actor h = record {
    receipt = next_receipt std a.id a.receipts actor "reject" "returned to buyer" now;
    written = ground arith;
    by = refl;
    did = refl;
    deadline = ground arith;
    armed = ground arith;
  }

  reject_sealed-Wrote :
      (actor : Party) → WroteBy actor "reject" (Room.reject_sealed std a actor now)
  unfolding Room.reject_sealed next_receipt
  reject_sealed-Wrote actor h = record {
    receipt =
        next_receipt std a.id a.receipts actor "reject" "returned to buyer (sum stays sealed)" now;
    written = ground arith;
    by = refl;
    did = refl;
    deadline = ground arith;
    armed = ground arith;
  }

  pub note-Wrote :
      (actor : Party) (text : String)
      → (Agreement.note std a actor "evidence" text now).0 ≡ none
      → (w : Wrote a (Agreement.note std a actor "evidence" text now).1 actor "evidence")
        × (w.receipt.note ≡ text)
  unfolding Agreement.note next_receipt
  note-Wrote actor text h = (
    record {
      receipt = next_receipt std a.id a.receipts actor "evidence" text now;
      written = ground arith;
      by = refl;
      did = refl;
      deadline = ground arith;
      armed = ground arith;
    },
    refl,
  )

  settle_proven-Wrote :
      (actor : Party) (proof : Bytes) (holds : Bool)
      → WroteBy actor "accept" (Room.settle_proven std a actor now proof holds)
  unfolding Room.settle_proven next_receipt
  settle_proven-Wrote actor proof holds h = record {
    receipt = next_receipt std a.id a.receipts actor "accept" (Room.accept_note std a proof) now;
    written = ground arith;
    by = refl;
    did = refl;
    deadline = ground arith;
    armed = ground arith;
  }

  accept_plain-Wrote : (actor : Party) → WroteBy actor "accept" (Room.accept_plain std a actor now)
  unfolding Room.accept_plain next_receipt
  accept_plain-Wrote actor h = record {
    receipt = next_receipt std a.id a.receipts actor "accept" "released to seller" now;
    written = ground arith;
    by = refl;
    did = refl;
    deadline = ground arith;
    armed = ground arith;
  }

  accept_sealed-Wrote :
      (actor : Party) (ledger : EncryptedLedger) (blinder : Option ℕ)
      → WroteBy actor "accept" (Room.accept_sealed std a actor ledger blinder now)
  unfolding Room.accept_sealed
  accept_sealed-Wrote actor ledger blinder =
      let P : Outcome Agreement → Type 0 = λ r. WroteBy actor "accept" r in
      if_rule P (not (actor == a.seller)) (λ h. cc)
        (if_rule P (is_terminal a.status) (λ h. cc)
          (if_rule P (not (is_locked a.status) || is_empty a.sealed_locks) (λ h. cc)
            (attempt_rule P a (Settle.prove_equal std ledger a.sealed_sum a.amount blinder) _
              (λ e h. cc)
              (λ proof.
                attempt_rule P a (Settle.verify_equal std ledger a.sealed_sum a.amount proof) _
                  (λ e h. cc) (λ holds. settle_proven-Wrote actor proof holds)))))

  pub accept-Wrote :
      (actor : Party) (blinder : Option ℕ)
      → WroteBy actor "accept" (Room.accept std a actor blinder now)
  unfolding Room.accept
  accept-Wrote actor blinder = armed a.sealed
    where
      armed :
          (o : Option EncryptedLedger)
          → WroteBy actor "accept" (elim o [
            | none ↦ Room.accept_plain std a actor now
            | some ledger ↦ Room.accept_sealed std a actor ledger blinder now
          ])
      armed none = accept_plain-Wrote actor
      armed (some ledger) = accept_sealed-Wrote actor ledger blinder

  pub reject-Wrote : (actor : Party) → WroteBy actor "reject" (Room.reject std a actor now)
  unfolding Room.reject
  reject-Wrote actor = armed a.sealed
    where
      armed :
          (o : Option EncryptedLedger)
          → WroteBy actor "reject" (elim o [
            | none ↦ Room.reject_plain std a actor now
            | some ledger ↦ Room.reject_sealed std a actor now
          ])
      armed none = reject_plain-Wrote actor
      armed (some ledger) = reject_sealed-Wrote actor
