-- ===== src/Contract/Invariant.antt =====
-- Every command keeps a contract sound.
use Prim.Native.String.{◌++◌ as ◌<>◌}
use nexum.Prelude.{
  String, ◌≡◌, ◌≢◌, refl, true, not, ◌||◌, none, some, List, [], ◌∷◌, ◌++◌, ◌==◌, arith, length,
  get_elem?-snoc, if_rule, if_cases, if◌then◌else◌, eq_iff,
}
use nexum.Prelude.Int.{pos}
use nexum.Errors.{Outcome, fail, check_cases, cannot_agree, done, ◌>>=◌}
use nexum.Std.{Std, Bytes, Time, before}
use nexum.Meter.{opened, locked, is_open, is_locked}
use nexum.Receipt.{Party, next_receipt}
use nexum.Agreement
use nexum.Agreement.{Agreement}
use nexum.Room.{Entropy}
use nexum.Room.Ops.{Op, perform}
use nexum.Room.Custody.{performer, note-same}
use nexum.Identity.{Command, Crypto, hash_bytes, verify}
use nexum.Contract
use nexum.Contract.{terms_of, Contract, on_agreement, signer, head, contract_meter}
use nexum.Contract.Consent.{
  Consent, IsSound, call-IsSound, reject_accepts_nothing, buyer_accepts_nothing,
}
use nexum.Contract.Run.{Call, apply_all}

module _ (std : Std) (crypto : Crypto) where
  note_written :
      (a : Agreement) (actor : Party) (text : String) (now : Time)
      → (Agreement.note std a actor "evidence" text now).0 ≡ none
      → let b = (Agreement.note std a actor "evidence" text now).1 in
        (b.receipts ≡ a.receipts ++ next_receipt std a.id a.receipts actor "evidence" text now ∷ [])
        × (b.status ≡ a.status)
  unfolding Agreement.note
  note_written a actor text now h = ground arith

  -- The consent is recorded only where its receipt was.
  agree_or_keep :
      (c : Contract) (r : Outcome Agreement)
      → IsSound std crypto (on_agreement c r).1
      → (r.0 ≡ none → Consent std crypto c.seller c.terms r.1.receipts)
      → r.1.status ≢ opened
      → IsSound std crypto (on_agreement c r >>= λ c'. done (record c' { agreed = true })).1
  agree_or_keep c (some e, b) s consent moved = s
  agree_or_keep c (none, b) s consent moved = record {
    valid = s.valid;
    buyer_id = s.buyer_id;
    seller_id = s.seller_id;
    amount = s.amount;
    terms = s.terms;
    settled = λ h. refl;
    underway = λ h. moved;
    consented = λ h. consent refl;
  }

  -- The `agree` case.
  record_consent-IsSound :
      (c : Contract)
      → IsSound std crypto c
      → (cmd : Command) (sig : Bytes) (now : Time) → verify std crypto c.seller cmd sig ≡ none
      → cmd.action ≡ "agree"
      → cmd.terms ≡ c.terms
      → c.agreement.status ≡ locked
      → IsSound std crypto (Contract.record_consent std crypto c sig now).1
  unfolding Contract.record_consent
  record_consent-IsSound c s cmd sig now signed agrees same_terms was =
      let a = c.agreement in
      let text = "signed-consent:" <> hash_bytes std crypto sig in
      let r = Agreement.note std a a.seller "evidence" text now in
      let same : r.1.status ≡ a.status = (note-same std a now a.seller "evidence" text).0 in
      let kept : IsSound std crypto (on_agreement c r).1 =
        unfold perform in
        call-IsSound std crypto c s (Op.note a.seller "evidence" text) now (λ h. ground arith) in
      agree_or_keep c r kept
        (λ h. record {
          index = length a.receipts;
          receipt = next_receipt std a.id a.receipts a.seller "evidence" text now;
          signature = sig;
          cmd = cmd;
          written = rw ((note_written a a.seller text now h).0) (get_elem?-snoc a.receipts _);
          noted = unfold next_receipt in refl;
          signed = signed;
          agrees = agrees;
          same_terms = same_terms;
        })
        (λ h. ground arith)

  abbrev SoundAfter : Outcome Contract → Type 0
  SoundAfter r = IsSound std crypto r.1

  -- What the buyer does keeps a contract sound.
  buyer_call-IsSound :
      (c : Contract)
      → IsSound std crypto c
      → (op : Op) (now : Time) → performer op ≡ c.agreement.buyer
      → IsSound std crypto (on_agreement c (perform std op now c.agreement)).1
  buyer_call-IsSound c s op now by =
      call-IsSound std crypto c s op now
        (λ h. s.settled (buyer_accepts_nothing std crypto c.agreement op now s.valid by h))

  agree-IsSound :
      (c : Contract)
      → IsSound std crypto c
      → (cmd : Command) (sig : Bytes) (now : Time) → verify std crypto c.seller cmd sig ≡ none
      → cmd.terms ≡ c.terms
      → cmd.action ≡ "agree"
      → IsSound std crypto
          (if not (is_locked c.agreement.status) || c.agreed
            then fail cannot_agree c
            else Contract.record_consent std crypto c sig now).1
  agree-IsSound c s cmd sig now signed same_terms agrees =
      if_cases SoundAfter (not (is_locked c.agreement.status) || c.agreed) (λ h. s)
        (λ h. record_consent-IsSound c s cmd sig now signed agrees same_terms (ground arith))

  -- The cases that `applyVerified` leads to past its guards, for a command that is signed.
  apply_action-IsSound :
      (c : Contract)
      → IsSound std crypto c
      → (cmd : Command) (sig : Bytes) (rnd : Entropy) (now : Time)
      → verify std crypto (signer c cmd.action) cmd sig ≡ none
      → cmd.terms ≡ c.terms
      → IsSound std crypto (Contract.apply_action std crypto c cmd sig rnd now).1
  unfolding Contract.apply_action
  apply_action-IsSound c s cmd sig rnd now signed same_terms =
      let a = c.agreement in
      if_rule SoundAfter (cmd.action == "lock")
        (if_rule SoundAfter (not (is_open a.status)) s (
          unfold perform in
          buyer_call-IsSound c s
            (Op.apply (record { actor = a.buyer; action = "seal"; partial = a.amount }) rnd) now
            refl))
        (if_cases SoundAfter (cmd.action == "agree")
          (λ h.
            agree-IsSound c s cmd sig now (ground arith) same_terms
              ((eq_iff cmd.action "agree").0 h))
          (λ h.
            if_rule SoundAfter (cmd.action == "settle")
              (if_cases SoundAfter (not c.agreed || cmd.evidence == "" || not (is_locked a.status))
                (λ k. s)
                (λ k.
                  unfold perform in
                  call-IsSound std crypto c s
                    (Op.accept_with_evidence a.buyer a.seller cmd.evidence rnd.blinder) now
                    (λ e. ground arith)))
              (if_rule SoundAfter (cmd.action == "reject")
                (unfold perform in
                  call-IsSound std crypto c s
                    (Op.apply (record { actor = a.seller; action = "reject"; partial = pos 0 }) rnd)
                    now (λ e. s.settled (reject_accepts_nothing std crypto a a.seller rnd now e)))
                s)))

  apply-IsSound :
      (c : Contract)
      → IsSound std crypto c
      → (cmd : Command) (sig : Bytes) (rnd : Entropy) (now : Time)
      → IsSound std crypto (Contract.apply std crypto c cmd sig rnd now).1
  unfolding Contract.apply Contract.apply_verified
  apply-IsSound c s cmd sig rnd now =
      check_cases SoundAfter c (verify std crypto (signer c cmd.action) cmd sig) (λ e. s)
        (λ signed.
          if_cases SoundAfter (not (cmd.terms == c.terms) || not (cmd.head == head c)) (λ h. s)
            (λ h.
              if_rule SoundAfter (cmd.action == "expire")
                (unfold perform in buyer_call-IsSound c s (Op.expire c.agreement.buyer) now refl)
                (if_rule SoundAfter
                  (before now c.agreement.created_at || not (before now c.agreement.deadline)) s
                  (apply_action-IsSound c s cmd sig rnd now signed
                    (ground (arith, eq_iff cmd.terms c.terms))))))

  pub apply_all-IsSound :
      (calls : List (Call std crypto)) (c : Contract)
      → IsSound std crypto c
      → IsSound std crypto (apply_all std crypto calls c)
  unfolding apply_all
  apply_all-IsSound [] c s = s
  apply_all-IsSound ((cmd, sig, rnd, now) ∷ rest) c s =
      apply_all-IsSound rest (Contract.apply std crypto c cmd sig rnd now).1
        (apply-IsSound c s cmd sig rnd now)
