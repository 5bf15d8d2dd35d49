-- ===== src/Contract/Answers.antt =====
-- What the seller of a locked contract can always do: consent, or reject.
use nexum.Errors.{cannot_agree}
use Prim.Native.String.{◌++◌ as ◌<>◌, count}
use text.Mathlib.TextLemmas.{length-append as count-append}
use nexum.Prelude.{
  ◌==◌, text_ne, sym, ap, ◌∙◌, ◌+◌, String, ◌≡◌, true, false, none, ◌≤◌, ◌<◌, arith, eq_refl, some,
  if◌then◌else◌,
}
use nexum.Prelude.Int.{pos, ◌<ℤ◌}
use nexum.Std.{Std, Bytes, Time}
use nexum.Meter.{locked, rejected, over_budget}
use nexum.Agreement
use nexum.Room
use nexum.Room.{Entropy}
use nexum.Identity
use nexum.Identity.{Identity, Public, Command, Crypto, validate, verify, sign, hash_bytes}
use nexum.Contract
use nexum.Contract.{Contract, command, signer}

module _ (std : Std) (crypto : Crypto) where
  -- The signatures of a key pair verify, and the public part is well formed.
  pub record Owns (i : Identity) (p : Public) : Type 0 where
    pub formed : validate std crypto p ≡ none
    pub verifies :
        (text : String)
        → crypto.ed25519_verify p.signing text (crypto.ed25519_sign i.signing text) ≡ true

  own_signature :
      (i : Identity) (p : Public) (cmd : Command)
      → Owns i p
      → verify std crypto p cmd (sign std crypto i cmd) ≡ none
  unfolding verify sign
  own_signature i p cmd o =
      let a = o.formed in let b = o.verifies (Identity.signed_text std crypto cmd) in ground arith

  -- The contract waits for the seller's answer, inside its time window and its meter.
  pub record Answerable (c : Contract) (now : Time) : Type 0 where
    pub waiting : c.agreement.status ≡ locked
    pub begun : c.agreement.created_at ≤ now
    pub unended : now < c.agreement.deadline
    pub metered : pos c.agreement.steps <ℤ c.agreement.meter.max_steps
    pub afforded : over_budget std c.agreement.meter ≡ false

  reject_runs :
      (c : Contract) (rnd : Entropy) (now : Time)
      → Answerable c now
      → let a = c.agreement in
        let r =
          Room.apply std a
            (record { actor = a.seller; action = "reject"; partial = pos 0 })
            rnd
            now in
        (r.0 ≡ none) × (r.1.status ≡ rejected) × (r.1.released_to ≡ a.buyer)
  unfolding Room.apply Room.reject Room.reject_plain Room.reject_sealed
  reject_runs c rnd now w = ground (arith, eq_refl c.agreement.seller)

  prefixed : (s : String) → ("signed-consent:" <> s == "") ≡ false
  prefixed s = text_ne _ _ (λ e.
      let long : 15 + count s ≡ 0 = sym (count-append "signed-consent:" s) ∙ ap count e in
      omega (arith, long))

  consent_runs :
      (c : Contract) (sig : Bytes) (now : Time)
      → Answerable c now
      → let r = Contract.record_consent std crypto c sig now in (r.0 ≡ none) × (r.1.agreed ≡ true)
  unfolding Contract.record_consent Agreement.note
  consent_runs c sig now w =
      ground (arith, eq_refl c.agreement.seller, prefixed (hash_bytes std crypto sig))

  -- The seller can answer: with the seller's keys, inside the time window and the meter, Execute of
  -- `agree` on a locked contract succeeds where there is no consent yet and otherwise answers
  -- the error "cannot agree", with the consent recorded after it either way; and Execute of `reject` on a locked
  -- contract succeeds, with or without consent, and returns the value to the buyer.
  pub seller_can_answer :
      (c : Contract) (i : Identity) (evidence : String) (rnd : Entropy) (now : Time)
      → Owns i c.seller
      → Answerable c now
      → let yes = Contract.execute std crypto c i "agree" evidence rnd now in
        let no = Contract.execute std crypto c i "reject" evidence rnd now in
        (yes.0 ≡ (if c.agreed then some cannot_agree else none))
        × (yes.1.agreed ≡ true)
        × (no.0 ≡ none)
        × (no.1.agreement.status ≡ rejected)
        × (no.1.agreement.released_to ≡ c.agreement.buyer)
  unfolding Contract.execute Contract.apply Contract.apply_verified Contract.apply_action
  seller_can_answer c i evidence rnd now o w =
      let yes = command c "agree" evidence in
      let no = command c "reject" evidence in
      ground (
        arith,
        own_signature i c.seller yes o,
        own_signature i c.seller no o,
        consent_runs c (sign std crypto i yes) now w,
        reject_runs c rnd now w,
        eq_refl c.terms,
        eq_refl (Contract.head c),
      )
