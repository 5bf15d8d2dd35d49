-- ===== src/Message/Deciding.antt =====
-- internal/message/contract.go, `NewIdentity` and `Decide`: a new identity, the recipient's decision, and the record that takes it.
use nexum.Prelude.{
  ◌+◌, ◌≤◌, ◌<◌, ◌≡◌, refl, subst, String, not, Option, none, some, length, nat_eq, ◌==◌, take,
  if◌then◌else◌, arith, [], if_rule,
}
use nexum.Errors.{
  Error, Result, ok, err, done, fail, bind, required, guarded, invalid_message, message_party,
  offer_expired, panicked, io_error, bind_cases, required_cases,
}
use nexum.Std.{Std, Bytes, Time, before, bytes_eq}
use nexum.Identity.{Public, Identity, Crypto, public_id}
use nexum.Envelope.{Offer, Decision, Exchange, Wire, RekeyPublic}
use nexum.Message.{offer_hash, decision_text, verify_decision, apply_decision}

-- ed25519.NewKeyFromSeed, the public half of such a key, and X25519's public key of a private one.
pub record Keys : Type 0 where
  pub key_from_seed : Bytes → Bytes
  pub signing_public : Bytes → Bytes
  pub encryption_public : Bytes → Bytes

-- `NewIdentity`, where ed25519.GenerateKey draws the seed and ecdh's GenerateKey the encryption key.
unfoldable pub new_identity : Keys → Option Bytes → Option Bytes → Result Identity
new_identity keys seed encryption = required io_error seed λ s.
    required io_error encryption λ e. ok (record { signing = keys.key_from_seed s; encryption = e })

module _ (std : Std) (crypto : Crypto) (w : Wire) (keys : Keys) where
  -- `Public` of an identity.
  unfoldable pub identity_public : Identity → Result Public
  identity_public i =
      if not (nat_eq (length i.signing) 64)
      then err invalid_message
      else if not (bytes_eq (keys.key_from_seed (take 32 i.signing)) i.signing)
      then err invalid_message
      else if not (crypto.is_private_key i.encryption)
      then err invalid_message
      else ok (record {
        signing = keys.signing_public (keys.key_from_seed (take 32 i.signing));
        encryption = keys.encryption_public i.encryption;
      })

  -- The decision that is signed, where the offer has this hash.
  abbrev pub decision_for : String → String → Time → Option RekeyPublic → Decision
  decision_for hash action now rekey = record {
    rekey = rekey;
    envelope_hash = hash;
    action = action;
    at = now;
    signature = [];
  }

  -- `decide`, which answers its decision only where that verifies.
  unfoldable pub decide_with :
      Identity → Offer → String → Time → Option RekeyPublic → Result Decision
  unfolding identity_public
  decide_with i o action now rekey = bind (identity_public i) λ p.
      if not (public_id std crypto p == public_id std crypto o.terms.recipient)
      then err message_party
      else if not (before now o.terms.expires_at)
      then err offer_expired
      else required panicked (offer_hash std crypto w o) λ hash.
        let d = decision_for hash action now rekey in
        required panicked (decision_text std crypto w d) λ text.
          let signed : Decision = record d { signature = crypto.ed25519_sign i.signing text } in
          guarded (verify_decision std crypto w signed o) (ok signed)

  unfoldable pub decide : Identity → Offer → String → Time → Result Decision
  decide i o action now = decide_with i o action now none

  -- What a decision that is answered has been through.
  abbrev Made : Offer → Time → Result Decision → Type 0
  Made o now (ok d) = (verify_decision std crypto w d o ≡ none) × (d.at ≡ now)
  Made o now (err e) = Unit

  guarded-Made :
      (o : Offer) (d : Decision) (v : Option Error)
      → verify_decision std crypto w d o ≡ v
      → Made o d.at (guarded v (ok d))
  guarded-Made o d none h = (h, refl)
  guarded-Made o d (some e) h = tt

  decide-Made :
      (i : Identity) (o : Offer) (action : String) (now : Time) → Made o now (decide i o action now)
  unfolding decide decide_with
  decide-Made i o action now =
      bind_cases (Made o now) (identity_public i) _ (λ e. tt)
        (λ p known.
          if_rule (Made o now)
            (not (public_id std crypto p == public_id std crypto o.terms.recipient)) tt
            (if_rule (Made o now) (not (before now o.terms.expires_at)) tt (
              required_cases (Made o now) panicked (offer_hash std crypto w o) _ tt
                (λ hash of_offer.
                  required_cases (Made o now) panicked
                    (decision_text std crypto w (decision_for hash action now none)) _ tt
                    (λ text encoded.
                      guarded-Made o
                        (record (decision_for hash action now none) {
                          signature = crypto.ed25519_sign i.signing text;
                        })
                        _ refl)))))

  timely :
      (now at later expires : Time) (x y : Exchange)
      → at ≡ now
      → later < expires
      → now ≤ later + 60000000000
      → (if not (before later expires)
          then fail offer_expired x
          else if before (later + 60000000000) at
          then fail invalid_message x
          else done y)
        ≡ done y
  timely now at later expires x y same in_time near = ground (arith, same, in_time, near)

  -- A decision that Decide answers is taken: ApplyDecision on the record of the offer, before the offer has
  -- expired and by a clock that is at most a minute behind the recipient's, gives the record with that
  -- decision and no error.
  pub decide_is_taken :
      (i : Identity) (o : Offer) (action : String) (now later : Time) (d : Decision)
      → decide i o action now ≡ ok d
      → later < o.terms.expires_at
      → now ≤ later + 60000000000
      → apply_decision std crypto w (record { offer = o; decision = none; release = none }) d later
        ≡ done (record { offer = o; decision = some d; release = none })
  unfolding apply_decision
  decide_is_taken i o action now later d h in_time near =
      let (good, same) = subst (Made o now) h (decide-Made i o action now) in
      rw good (timely now d.at later o.terms.expires_at _ _ same in_time near)
