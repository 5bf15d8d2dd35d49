-- ===== src/Message/Consent.antt =====
-- What the release of a key rests on: the signed consent of the recipient, and the sender's signature.
use nexum.Prelude.{
  ◌≡◌, ◌≢◌, ◌≤◌, ◌<◌, refl, subst, String, Bool, true, false, Option, none, some, List, arith,
  eq_iff, ◌==◌, if_rule, not, ◌||◌, nat_eq, length,
}
use nexum.Errors.{invalid_message}
use nexum.Std.{Std, Bytes, Time, before}
use nexum.Identity.{Public, Crypto}
use nexum.Envelope.{
  Offer, Decision, Release, Wire, state, misuses_rekey, decision_is_unfit, misuses_kem,
  wrapped_length,
}
use nexum.Message.{
  verify_offer, verify_decision, verify_release, verify_exchange, offer_hash, decision_hash,
  decision_text, release_text,
}
use nexum.Message.Passing.{
  failure-ne-none, passed_rest, passed_if, passed_also, passed_naming, passed_signature,
}
use nexum.Message.Exchanges.{Step, take_steps, offered, exchange_verifies, links-Kept}

other_text : (s t : String) → (s == t) ≡ false → s ≢ t
other_text s t h e = ground (arith, eq_iff s t, h, e)

-- A time of a decision that is fit.
in_window :
    (unknown : Bool) (at created expires : Time)
    → (unknown || before at created || not (before at expires)) ≡ false
    → (created ≤ at) × (at < expires)
in_window unknown at created expires h = ground (arith, h)

module _ (std : Std) (crypto : Crypto) (w : Wire) where
  abbrev pub Signed : Public → Option String → Bytes → Type 0
  Signed p text signature =
      (t : String) × (text ≡ some t) × (crypto.ed25519_verify p.signing t signature ≡ true)

  -- A decision that names the offer, made in time and signed by its recipient.
  pub record Decided (o : Offer) (d : Decision) : Type 0 where
    pub named : offer_hash std crypto w o ≡ some d.envelope_hash
    pub not_before : o.terms.created_at ≤ d.at
    pub in_time : d.at < o.terms.expires_at
    pub signed : Signed o.terms.recipient (decision_text std crypto w d) d.signature

  -- A release that names the offer and the consent, signed by the sender.
  pub record Given (o : Offer) (d : Decision) (r : Release) : Type 0 where
    pub agreed : d.action ≡ "agree"
    pub decided : Decided o d
    pub named : offer_hash std crypto w o ≡ some r.envelope_hash
    pub accepted : decision_hash std crypto w d ≡ some r.acceptance_hash
    pub signed : Signed o.terms.sender (release_text std crypto w r) r.signature

  verify_decision-Decided :
      (d : Decision) (o : Offer) → verify_decision std crypto w d o ≡ none → Decided o d
  unfolding verify_decision
  verify_decision-Decided d o h =
      let (rekeys, checked) = passed_if (misuses_rekey o d) invalid_message h in
      let (offer_fits, rest) = passed_also (verify_offer std crypto w o) _ checked in
      let (hash, last) = passed_naming d.envelope_hash (offer_hash std crypto w o) _ rest in
      let (fits, signature) = passed_if (decision_is_unfit o d) invalid_message last in
      let window = in_window _ d.at o.terms.created_at o.terms.expires_at fits in
      record {
        named = hash;
        not_before = window.0;
        in_time = window.1;
        signed =
            passed_signature std crypto w o.terms.recipient (decision_text std crypto w d)
              d.signature signature;
      }

  verify_release-Given :
      (r : Release) (o : Offer) (d : Decision)
      → verify_release std crypto w r o d ≡ none
      → Given o d r
  unfolding verify_release
  verify_release-Given r o d h =
      let (kem, checked) = passed_if (misuses_kem r o) invalid_message h in
      let (decision_fits, rest) = passed_also (verify_decision std crypto w d o) _ checked in
      let (agrees, hashes) = passed_if (not (d.action == "agree")) invalid_message rest in
      let (hash, more) = passed_naming r.envelope_hash (offer_hash std crypto w o) _ hashes in
      let (consent, last) = passed_naming r.acceptance_hash (decision_hash std crypto w d) _ more in
      let (widths, signature) =
        passed_if
          (not (nat_eq (length r.ephemeral) 32)
            || not (nat_eq (length r.wrapped_key) (wrapped_length o)))
          invalid_message last in
      record {
        agreed = ground (arith, agrees, eq_iff d.action "agree");
        decided = verify_decision-Decided d o decision_fits;
        named = hash;
        accepted = consent;
        signed =
            passed_signature std crypto w o.terms.sender (release_text std crypto w r) r.signature
              signature;
      }

  released-Given :
      (o : Offer) (dec : Option Decision) (rel : Option Release) (now : Time)
      → verify_exchange std crypto w (record { offer = o; decision = dec; release = rel }) ≡ none
      → state (record { offer = o; decision = dec; release = rel }) now ≡ "key-released"
      → (d : Decision) × (r : Release) × (dec ≡ some d) × (rel ≡ some r) × Given o d r
  unfolding verify_exchange state
  released-Given o none (some r) now h s =
      absurd (failure-ne-none invalid_message (passed_rest (verify_offer std crypto w o) h))
  released-Given o (some d) (some r) now h s =
      let links = passed_rest (verify_offer std crypto w o) h in
      (
        d,
        r,
        refl,
        refl,
        verify_release-Given r o d (passed_rest (verify_decision std crypto w d o) links),
      )
  released-Given o none none now h s = absurd (
      if_rule (λ (t : String). t ≢ "key-released") (not (before now o.terms.expires_at))
        (other_text "expired" "key-released" refl) (other_text "offered" "key-released" refl) s)
  released-Given o (some d) none now h s = absurd (
      if_rule (λ (t : String). t ≢ "key-released") (d.action == "agree")
        (other_text "accepted" "key-released" refl) (other_text "rejected" "key-released" refl) s)

  -- No key is released without signed consent: from an offer that verifies, and after any steps, a record
  -- whose State is key-released holds a decision to agree that names the hash of the offer, was made
  -- no earlier than the offer and before it expired, and has the signature of the recipient; and its
  -- release names the hashes of the offer and of that decision, and has the signature of the sender.
  pub released_with_consent :
      (o : Offer) (steps : List Step) (now : Time)
      → verify_offer std crypto w o ≡ none
      → state (take_steps std crypto w steps (offered std crypto w o)) now ≡ "key-released"
      → (d : Decision) × (r : Release) × ((take_steps std crypto w steps
            (offered std crypto w o)).decision
          ≡ some d)
        × ((take_steps std crypto w steps (offered std crypto w o)).release ≡ some r)
        × Given o d r
  released_with_consent o steps now h s =
      let x = take_steps std crypto w steps (offered std crypto w o) in
      let (d, r, decided, released, given) =
        released-Given x.offer x.decision x.release now (exchange_verifies std crypto w o steps h)
          s in
      (
        d,
        r,
        decided,
        released,
        subst (λ (p : Offer). Given p d r)
            (links-Kept std crypto w steps (offered std crypto w o)).offer given,
      )
