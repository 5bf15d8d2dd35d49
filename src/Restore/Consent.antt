-- ===== src/Restore/Consent.antt =====
-- What a restored contract says of consent, its signed operations bear out.
use Prim.Native.String.{◌++◌ as ◌<>◌}
use nexum.Prelude.{
  ℕ, ◌≡◌, ◌⊎◌, inl, inr, refl, sym, ◌∙◌, String, Bool, true, false, not, ◌||◌, Option, none, some,
  List, [], ◌∷◌, ◌==◌, arith, eq_iff, if_cases, if◌then◌else◌,
}
use mathlib.Core.List.{Memᴰ}
use nexum.Std.{Std}
use nexum.Meter.{Status, is_locked, locked, rejected, expired}
use nexum.Receipt.{Receipt}
use nexum.Agreement.{Agreement}
use nexum.Identity.{Crypto, hash_bytes}
use nexum.Operation.{Committed, Entries, Persist, get_entry}
use nexum.Restore
use nexum.Restore.{Progress, finish_turn, one_receipt, is_bad_entry, contract_of, is_none}

module _ (std : Std) (crypto : Crypto) where
  -- The receipt of a consent, and the entry that accounts for it.
  pub record Noted (a : Agreement) (e : Committed) (q : Receipt) : Type 0 where
    pub is_agree : e.operation.command.action ≡ "agree"
    pub is_evidence : q.action ≡ "evidence"
    pub by_seller : q.actor ≡ a.seller
    pub noted : q.note ≡ "signed-consent:" <> hash_bytes std crypto e.signature

module _ (std : Std) (crypto : Crypto) (persist : Persist) where
  finish_turn_keeps :
      (e : Committed) (hash : String) (s : Status) (consent : Bool) (used : ℕ) (p' : Progress)
      (skip : Bool)
      → one_receipt (finish_turn e hash s consent used) ≡ some (p', skip)
      → p'.consent ≡ consent
  unfolding finish_turn
  finish_turn_keeps e hash s consent used p' skip h = ground arith

  settle_turn_keeps :
      (a : Agreement) (e : Committed) (q : Receipt) (rest : List Receipt) (p p' : Progress)
      (skip : Bool)
      → Restore.settle_turn a e q rest p ≡ some (p', skip)
      → p'.consent ≡ p.consent
  unfolding Restore.settle_turn finish_turn
  settle_turn_keeps a e q [] p p' skip h = cc
  settle_turn_keeps a e q (next ∷ rest) p p' skip h = ground arith

  agree-Noted :
      (a : Agreement) (e : Committed) (q : Receipt)
      → (e.operation.command.action == "agree") ≡ true
      → (p : Progress)
      → (not (is_locked p.status)
          || p.consent
          || not (q.action == "evidence")
          || not (q.actor == a.seller)
          || not (q.note == "signed-consent:" <> hash_bytes std crypto e.signature))
        ≡ false
      → Noted std crypto a e q
  agree-Noted a e q is p fits = record {
    is_agree = ground (arith, eq_iff e.operation.command.action "agree");
    is_evidence = ground (arith, eq_iff q.action "evidence");
    by_seller = ground (arith, eq_iff q.actor a.seller);
    noted = ground (arith, eq_iff q.note ("signed-consent:" <> hash_bytes std crypto e.signature));
  }

  -- A turn leaves the consent, or records it for its receipt.
  turn_consent :
      (a : Agreement) (e : Committed) (q : Receipt) (rest : List Receipt) (p p' : Progress)
      (skip : Bool)
      → Restore.turn std crypto persist a e q rest p ≡ some (p', skip)
      → (p'.consent ≡ p.consent) ⊎ Noted std crypto a e q
  unfolding Restore.turn
  turn_consent a e q rest p p' skip =
      let P : Option (Progress × Bool) → Type 0 =
        λ o. o ≡ some (p', skip) → (p'.consent ≡ p.consent) ⊎ Noted std crypto a e q in
      let act = e.operation.command.action in
      let quiet : (b : Bool) (s : Status)
          → P (if b then none else one_receipt (finish_turn e q.hash s p.consent p.used)) =
        λ b s.
          if_cases P b (λ g h. cc)
            (λ g h. inl (finish_turn_keeps e q.hash s p.consent p.used p' skip h)) in
      if_cases P (act == "lock") (λ is. quiet _ locked)
        (λ not_lock.
          if_cases P (act == "agree")
            (λ is.
              if_cases P
                (not (is_locked p.status)
                  || p.consent
                  || not (q.action == "evidence")
                  || not (q.actor == a.seller)
                  || not (q.note == "signed-consent:" <> hash_bytes std crypto e.signature))
                (λ g h. cc) (λ fits h. inr (agree-Noted a e q is p fits)))
            (λ not_agree.
              if_cases P (act == "settle") (λ is h. inl (settle_turn_keeps a e q rest p p' skip h))
                (λ not_settle.
                  if_cases P (act == "reject") (λ is. quiet _ rejected)
                    (λ not_reject.
                      if_cases P (act == "expire") (λ is. quiet _ expired) (λ unknown h. cc)))))

  -- The receipts and the indexed entries of a consent.
  pub record Consented (by_head : Entries Committed) (a : Agreement) (receipts : List Receipt)
      : Type 0 where
    pub entry : Committed
    pub head : String
    pub receipt : Receipt
    pub is_entry : get_entry head by_head ≡ some entry
    pub is_receipt : Memᴰ receipt receipts
    pub notes : Noted std crypto a entry receipt

  pub later-Consented :
      (by_head : Entries Committed) (a : Agreement) (q : Receipt) (rest : List Receipt)
      → Consented by_head a rest
      → Consented by_head a (q ∷ rest)
  later-Consented by_head a q rest c = record {
    entry = c.entry;
    head = c.head;
    receipt = c.receipt;
    is_entry = c.is_entry;
    is_receipt = Memᴰ.tail c.is_receipt;
    notes = c.notes;
  }

  module _ (by_head : Entries Committed) (a : Agreement) (prev : String) (p : Progress)
      (q : Receipt) (rest : List Receipt) (p' : Progress)
      (later : (p'' : Progress) (skip : Bool)
        → Restore.replay std crypto persist by_head a q.hash p'' skip rest ≡ some p'
        → (p''.consent ≡ true) ⊎ Consented by_head a rest) where
    abbrev Walked : Option Progress → Type 0
    Walked o = o ≡ some p'

    turned :
        (e : Committed) (o : Option (Progress × Bool))
        → get_entry prev by_head ≡ some e
        → Restore.turn std crypto persist a e q rest p ≡ o
        → Walked (elim o [
          | none ↦ none
          | some (p'', skip) ↦ Restore.replay std crypto persist by_head a q.hash p'' skip rest
        ])
        → (p.consent ≡ true) ⊎ Consented by_head a (q ∷ rest)
    turned e none is went h = cc
    turned e (some (p'', skip)) is went h = elim (later p'' skip h) [
      | inr there ↦ inr (later-Consented by_head a q rest there)
      | inl after ↦ elim (turn_consent a e q rest p p'' skip went) [
        | inl kept ↦ inl (sym kept ∙ after)
        | inr notes ↦ inr (record {
          entry = e;
          head = prev;
          receipt = q;
          is_entry = is;
          is_receipt = Memᴰ.head refl;
          notes = notes;
        })
      ]
    ]

    walked :
        (o : Option Committed)
        → get_entry prev by_head ≡ o
        → Walked (elim o [
          | none ↦ none
          | some e ↦ elim (Restore.turn std crypto persist a e q rest p) [
            | none ↦ none
            | some (p'', skip) ↦ Restore.replay std crypto persist by_head a q.hash p'' skip rest
          ]
        ])
        → (p.consent ≡ true) ⊎ Consented by_head a (q ∷ rest)
    walked none is h = cc
    walked (some e) is h = turned e (Restore.turn std crypto persist a e q rest p) is refl h

  -- A consent at the end of the walk was there before it, or has its receipt and its entry.
  pub replay_consent :
      (by_head : Entries Committed) (a : Agreement) (prev : String) (p : Progress) (skip : Bool)
      (receipts : List Receipt) (p' : Progress)
      → Restore.replay std crypto persist by_head a prev p skip receipts ≡ some p'
      → p'.consent ≡ true
      → (p.consent ≡ true) ⊎ Consented by_head a receipts
  unfolding Restore.replay
  replay_consent by_head a prev p skip [] p' h agreed = inl (ground arith)
  replay_consent by_head a prev p true (q ∷ rest) p' h agreed =
      elim (replay_consent by_head a q.hash p false rest p' h agreed) [
        | inl before ↦ inl before
        | inr there ↦ inr (later-Consented by_head a q rest there)
      ]
  replay_consent by_head a prev p false (q ∷ rest) p' h agreed =
      walked by_head a prev p q rest p'
        (λ p'' skip went. replay_consent by_head a q.hash p'' skip rest p' went agreed)
        (get_entry prev by_head) refl h
