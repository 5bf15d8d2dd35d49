-- ===== src/Contract/Consent.antt =====
-- What holds of a contract between two commands: a valid agreement that fits the terms, and
-- settlement only on the seller's signed consent.
use Prim.Native.String.{◌++◌ as ◌<>◌}
use nexum.Prelude.{
  ℕ, String, ◌≡◌, ◌≢◌, ◌∙◌, true, none, some, List, arith, length, get_elem?, get_elem?-take, take,
}
use nexum.Prelude.Int.{pos}
use nexum.Std.{Std, Bytes, Time}
use nexum.Meter.{opened, accepted}
use nexum.Receipt.{Receipt, Party}
use nexum.Agreement.{Agreement}
use nexum.Room
use nexum.Room.{Entropy}
use nexum.Room.Ops.{Op, perform, unit_after, in_unit}
use nexum.Room.Invariant.{IsValid, perform-IsValid}
use nexum.Room.History.{Extends, perform-Extends}
use nexum.Room.Custody.{Moves, performer, agreement_call-Moves}
use nexum.Identity.{Public, Command, Crypto, public_id, hash_terms, hash_bytes, verify}
use nexum.Contract.{Contract, on_agreement}

module _ (std : Std) (crypto : Crypto) where
  -- The seller has signed an `agree` command for these terms, and a receipt holds the signature's
  -- hash.
  pub record Consent (seller : Public) (terms : String) (receipts : List Receipt) : Type 0 where
    pub index : ℕ
    pub receipt : Receipt
    pub signature : Bytes
    pub cmd : Command
    pub written : get_elem? receipts index ≡ some receipt
    pub noted : receipt.note ≡ "signed-consent:" <> hash_bytes std crypto signature
    pub signed : verify std crypto seller cmd signature ≡ none
    pub agrees : cmd.action ≡ "agree"
    pub same_terms : cmd.terms ≡ terms

  pub record IsSound (c : Contract) : Type 0 where
    pub valid : IsValid std c.agreement
    pub buyer_id : c.agreement.buyer ≡ public_id std crypto c.buyer
    pub seller_id : c.agreement.seller ≡ public_id std crypto c.seller
    pub amount : c.agreement.amount ≡ c.definition.amount
    pub terms : hash_terms std crypto c.definition ≡ some c.terms
    pub settled : c.agreement.status ≡ accepted → c.agreed ≡ true
    pub underway : c.agreed ≡ true → c.agreement.status ≢ opened
    pub consented : c.agreed ≡ true → Consent c.seller c.terms c.agreement.receipts

  -- A consent stays where the receipts only grow.
  pub keep-Consent :
      {seller : Public} {terms : String} {rs qs : List Receipt}
      → take (length rs) qs ≡ rs
      → Consent seller terms rs
      → Consent seller terms qs
  keep-Consent {seller} {terms} {rs} {qs} h k = record {
    index = k.index;
    receipt = k.receipt;
    signature = k.signature;
    cmd = k.cmd;
    written = get_elem?-take (length rs) qs k.index (rw h k.written);
    noted = k.noted;
    signed = k.signed;
    agrees = k.agrees;
    same_terms = k.same_terms;
  }

  pub never_opened :
      (actor : Party) (now : Time) (a b : Agreement)
      → Moves now actor a b
      → a.status ≢ opened
      → b.status ≢ opened
  never_opened actor now a b m h k = ground arith

  -- A call of the agreement keeps a contract sound, if it accepts only on consent.
  pub call-IsSound :
      (c : Contract)
      → IsSound c
      → (op : Op) (now : Time)
      → ((perform std op now c.agreement).1.status ≡ accepted → c.agreed ≡ true)
      → IsSound (on_agreement c (perform std op now c.agreement)).1
  call-IsSound c s op now settled =
      let a = c.agreement in
      let b = (perform std op now a).1 in
      let grown : Extends (in_unit a (unit_after op a.unit)) b = perform-Extends std op now a in
      record {
        valid = perform-IsValid std op now a s.valid;
        buyer_id = grown.terms.buyer ∙ s.buyer_id;
        seller_id = grown.terms.seller ∙ s.seller_id;
        amount = grown.terms.amount ∙ s.amount;
        terms = s.terms;
        settled = settled;
        underway = λ agreed.
            never_opened (performer op) now a b (agreement_call-Moves std op now a)
              (s.underway agreed);
        consented = λ agreed. keep-Consent grown.history (s.consented agreed);
      }

  pub reject_accepts_nothing :
      (a : Agreement) (actor : Party) (rnd : Entropy) (now : Time)
      → (Room.apply std a
          (record { actor = actor; action = "reject"; partial = pos 0 })
          rnd
          now).1.status
        ≡ accepted
      → a.status ≡ accepted
  unfolding Room.apply Room.reject Room.reject_plain Room.reject_sealed
  reject_accepts_nothing a actor rnd now h = ground arith

  -- What the buyer does never accepts.
  pub buyer_accepts_nothing :
      (a : Agreement) (op : Op) (now : Time)
      → IsValid std a
      → performer op ≡ a.buyer
      → (perform std op now a).1.status ≡ accepted
      → a.status ≡ accepted
  buyer_accepts_nothing a op now v by h =
      let moves : Moves now (performer op) a (perform std op now a).1 =
        agreement_call-Moves std op now a in
      let two = v.parties in ground arith
