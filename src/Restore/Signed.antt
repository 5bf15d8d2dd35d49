-- ===== src/Restore/Signed.antt =====
-- The consent of a restored contract is signed by its seller.
use nexum.Prelude.{
  ℕ, ◌≡◌, ◌≢◌, inl, inr, refl, sym, ap, subst, String, true, false, Option, none, some, [], ◌∷◌,
  length, arith, eq_iff, ◌∙◌,
}
use mathlib.Core.List.{Memᴰ}
use nexum.Errors.{Error, ok}
use nexum.Std.{Std}
use nexum.Receipt.{Receipt}
use nexum.Identity.{Crypto}
use nexum.Contract.{Contract, signer}
use nexum.Envelope.{refuses}
use nexum.Operation.{
  Committed, Entries, StoredContract, Persist, get_entry, operations_of, verify_operation,
}
use nexum.Restore
use nexum.Restore.{Progress, is_bad_entry, contract_of, is_none}
use nexum.Restore.Found.{restored-Found, index_tested}
use nexum.Restore.Walked.{accounts_for-Walked, start}
use nexum.Restore.Consent.{Noted, Consented, later-Consented, replay_consent}

module _ (std : Std) (crypto : Crypto) (persist : Persist) where
  -- A contract whose operations account for its consent.
  accounted-Consented :
      (c : Contract) (count : ℕ) (by_head : Entries Committed)
      → Restore.accounts_for std crypto persist c count by_head ≡ true
      → c.agreed ≡ true
      → Consented std crypto persist by_head c.agreement c.agreement.receipts
  accounted-Consented c count by_head accounted agreed =
      let w = accounts_for-Walked std crypto persist c count by_head accounted in
      elim (replay_consent std crypto persist by_head c.agreement w.second.hash
        (start std crypto persist c count by_head) false w.rest w.p w.walk (w.consent ∙ agreed)) [
          | inl never ↦ absurd (differ never)
          | inr consented ↦
              subst (Consented std crypto persist by_head c.agreement) (sym w.receipts) (
                later-Consented std crypto persist by_head c.agreement w.first (w.second ∷ w.rest) (
                  later-Consented std crypto persist by_head c.agreement w.second w.rest consented))
        ]
    where
      differ : false ≢ true
      differ h = cc

  -- The operation of a consent, and its receipt.
  pub record SignedConsent (r : StoredContract) (c : Contract) : Type 0 where
    pub key : String
    pub entry : Committed
    pub is_entry : Memᴰ (key, entry) (operations_of r)
    pub names : entry.operation.command.terms ≡ c.terms
    pub signed : verify_operation std crypto persist c.seller entry.operation entry.signature ≡ none
    pub receipt : Receipt
    pub is_receipt : Memᴰ receipt c.agreement.receipts
    pub notes : Noted std crypto c.agreement entry receipt

  tested_named :
      (c : Contract) (key : String) (e : Committed)
      → is_bad_entry std crypto persist c key e ≡ false
      → e.operation.command.terms ≡ c.terms
  tested_named c key e good = ground (arith, eq_iff e.operation.command.terms c.terms)

  tested_signed :
      (c : Contract) (key : String) (e : Committed)
      → is_bad_entry std crypto persist c key e ≡ false
      → e.operation.command.action ≡ "agree"
      → verify_operation std crypto persist c.seller e.operation e.signature ≡ none
  tested_signed c key e good agree =
      let by_seller : signer c e.operation.command.action ≡ c.seller = ap (signer c) agree in
      subst (λ p. verify_operation std crypto persist p e.operation e.signature ≡ none) by_seller
        (accepts
          (verify_operation std crypto persist (signer c e.operation.command.action) e.operation
            e.signature)
          (ground arith))
    where
      accepts : (o : Option Error) → refuses o ≡ false → o ≡ none
      accepts none h = refl
      accepts (some x) h = cc

  -- Where `restore` answers a contract that has the consent of its seller, the stored record holds an
  -- `agree` operation that names the contract and carries a signature of the seller, and the contract a
  -- receipt of the seller that notes the hash of this signature.
  pub restored_consent :
      (r : StoredContract) (id : String) (c : Contract)
      → Restore.restore std crypto persist r id ≡ ok c
      → c.agreed ≡ true
      → SignedConsent r c
  unfolding get_entry
  restored_consent r id c restored agreed =
      let found = restored-Found std crypto persist r id c restored in
      let consented =
        accounted-Consented c (length found.ops) found.by_head found.accounted agreed in
      let (key, there, good) =
        index_tested std crypto persist c
          (λ e.
            (key : String) × Memᴰ (key, e) found.ops
            × (is_bad_entry std crypto persist c key e ≡ false))
          found.ops [] found.by_head (λ key e there good. (key, there, good))
          (λ h e nowhere. absurd (none-ne nowhere)) found.indexed consented.head consented.entry
          consented.is_entry in
      record {
        key = key;
        entry = consented.entry;
        is_entry = subst (Memᴰ (key, consented.entry)) (sym (listed found.has)) there;
        names = tested_named c key consented.entry good;
        signed = tested_signed c key consented.entry good consented.notes.is_agree;
        receipt = consented.receipt;
        is_receipt = consented.is_receipt;
        notes = consented.notes;
      }
    where
      none-ne : {e : Committed} → none ≢ some e
      none-ne h = cc

      entries : Option (Entries Committed) → Entries Committed
      entries o = elim o [ none ↦ [] | some ops ↦ ops ]

      listed : {ops : Entries Committed} → r.operations ≡ some ops → operations_of r ≡ ops
      listed has = ap entries has
