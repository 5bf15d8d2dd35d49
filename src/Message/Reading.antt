-- ===== src/Message/Reading.antt =====
-- internal/message/crypto.go: a release that was signed verifies in its record, the ends of X25519 derive one key,
-- and what `Open` comes to.
use nexum.Prelude.{
  ℕ, take, ◌≡◌, refl, ap, String, Bool, true, false, not, ◌||◌, ◌==◌, Option, none, some, [],
  length, nat_eq, arith, if_cases, if_rule, eq_refl,
}
use nexum.Errors.{
  Error, Result, ok, err, required, guarded, invalid_message, panicked, cipher_failed,
  required_cases,
}
use nexum.Std.{Std, Bytes, bytes_eq, text_bytes}
use nexum.Identity.{Public, Identity, Crypto, public_id}
use nexum.Envelope.{Decision, Offer, Release, Wire, misuses_kem, misuses_rekey, wrapped_length}
use nexum.Message.{
  decision_hash, offer_hash, release_text, verify_decision, verify_exchange, verify_offer,
  verify_release,
}
use nexum.Message.Passing.{passed_also, passed_if, passed_naming, passes}
use nexum.Message.Deciding.{Keys, identity_public}
use nexum.Message.Sealing
use nexum.Message.Sealing.{Ciphers, text_aad, key_context, hpke_info}
use nexum.Message.Opening
use nexum.Message.Opened.{Reliable, required_there, test_passed, bind_there, guarded_there}

-- A check that has answered no error, and the rest.
pub guarded_rule :
    {A : Type 0} (P : Result A → Type 0) (o : Option Error) {rest : Result A}
    → ((e : Error) → P (err e))
    → (o ≡ none → P rest)
    → P (guarded o rest)
guarded_rule P none stop go = go refl
guarded_rule P (some e) stop go = stop e

not-eq-false : (b : Bool) → not b ≡ false → b ≡ true
not-eq-false true h = refl
not-eq-false false h = cc

width_passed : (n : ℕ) (other : Bool) → (not (nat_eq n 32) || other) ≡ false → n ≡ 32
width_passed n other h = ground (arith, h)

module _ (std : Std) (crypto : Crypto) (w : Wire) (keys : Keys) where
  -- The keys that an identity publishes.
  abbrev pub Halves : Identity → Result Public → Type 0
  Halves i (ok p) =
      (p.encryption ≡ keys.encryption_public i.encryption)
      × (crypto.is_private_key i.encryption ≡ true)
  Halves i (err e) = Unit

  pub identity_public-Halves : (i : Identity) → Halves i (identity_public std crypto w keys i)
  unfolding identity_public
  identity_public-Halves i = if_rule (Halves i) (not (nat_eq (length i.signing) 64)) tt (
      if_rule (Halves i) (not (bytes_eq (keys.key_from_seed (take 32 i.signing)) i.signing)) tt (
        if_cases (Halves i) (not (crypto.is_private_key i.encryption)) (λ bad. tt)
          (λ good. (refl, not-eq-false (crypto.is_private_key i.encryption) good))))

  -- What a release that verifies says of the rest of its record.
  pub release_verifies :
      (r : Release) (o : Offer) (d : Decision)
      → verify_release std crypto w r o d ≡ none
      → (length r.ephemeral ≡ 32)
        × (verify_exchange std crypto w (record { offer = o; decision = some d; release = some r })
            ≡ none)
  unfolding verify_release verify_exchange verify_decision
  release_verifies r o d h =
      let (kem, checked) = passed_if (misuses_kem r o) invalid_message h in
      let (decision_fits, rest) = passed_also (verify_decision std crypto w d o) _ checked in
      let (agrees, hashes) = passed_if (not (d.action == "agree")) invalid_message rest in
      let (hash, more) = passed_naming r.envelope_hash (offer_hash std crypto w o) _ hashes in
      let (consent, last) = passed_naming r.acceptance_hash (decision_hash std crypto w d) _ more in
      let (widths, signature) =
        passed_if
          (not (nat_eq (length r.ephemeral) 32)
            || not (nat_eq (length r.wrapped_key) (wrapped_length o)))
          invalid_message last in
      let (rekeys, of_offer) = passed_if (misuses_rekey o d) invalid_message decision_fits in
      let (offer_fits, more) = passed_also (verify_offer std crypto w o) _ of_offer in
      (width_passed (length r.ephemeral) _ widths, passes offer_fits (passes decision_fits h))

  pub signed_release_rule :
      (P : Result Release → Type 0) (i : Identity) (o : Offer) (d : Decision) (r : Release)
      → ((e : Error) → P (err e))
      → ((signature : Bytes)
          → verify_release std crypto w (record r { signature = signature }) o d ≡ none
          → P (ok (record r { signature = signature })))
      → P (Sealing.signed_release std crypto w i o d r)
  unfolding Sealing.signed_release
  signed_release_rule P i o d r stop go =
      required_cases P panicked (release_text std crypto w r) _ (stop panicked) (λ text encoded.
        guarded_rule P
          (verify_release std crypto w (record r { signature = crypto.ed25519_sign i.signing text })
            o d)
          stop (go (crypto.ed25519_sign i.signing text)))

module _ (c : Ciphers) where
  -- What an offer's ciphertext holds under a key.
  abbrev pub unsealed : Offer → Bytes → Result Bytes
  unsealed o key =
      required panicked (text_aad c o.terms) λ aad. Sealing.decrypt c key o.ciphertext aad

module _ (std : Std) (crypto : Crypto) (w : Wire) (keys : Keys) (c : Ciphers) where
  -- A release before it holds a key.
  abbrev pub made_release : String → String → Bytes → Release
  made_release oh dh ephemeral = record {
    kem_ciphertext = [];
    envelope_hash = oh;
    acceptance_hash = dh;
    ephemeral = ephemeral;
    wrapped_key = [];
    signature = [];
  }

  -- The two ends of X25519 derive one key.
  abbrev pub Shares : Bytes → Bytes → String → Result Bytes → Type 0
  Shares e private context (ok key) =
      length (keys.encryption_public e) ≡ 32
      → Sealing.derive std crypto c private (keys.encryption_public e) context ≡ ok key
  Shares e private context (err f) = Unit

  abbrev pub Opens : Identity → Offer → Decision → Bytes → Result Release → Type 0
  Opens j o d key (ok r) =
      Opening.open_text std crypto w keys c j
        (record { offer = o; decision = some d; release = some r })
      ≡ unsealed c o key
  Opens j o d key (err e) = Unit

  pub open_reaches :
      (j : Identity) (o : Offer) (d : Decision) (r : Release)
      → identity_public std crypto w keys j ≡ ok o.terms.recipient
      → verify_exchange std crypto w (record { offer = o; decision = some d; release = some r })
        ≡ none
      → Opening.open_text std crypto w keys c j
          (record { offer = o; decision = some d; release = some r })
        ≡ Opening.open_released std crypto w keys c j
            (record { offer = o; decision = some d; release = some r })
            r
  unfolding Opening.open_text
  open_reaches j o d r known good =
      guarded_there
        (verify_exchange std crypto w (record { offer = o; decision = some d; release = some r })) _
        good
        (bind_there (identity_public std crypto w keys j) _ known (
          test_passed
            (not (public_id std crypto o.terms.recipient == public_id std crypto o.terms.recipient))
            _ (ap not (eq_refl (public_id std crypto o.terms.recipient))) refl))

module _ (std : Std) (crypto : Crypto) (w : Wire) (keys : Keys) (c : Ciphers)
    (reliable : Reliable crypto keys c) where
  pub derive-Shares :
      (e private : Bytes) (context : String)
      → crypto.is_private_key private ≡ true
      → Shares std crypto w keys c e private context
          (Sealing.derive std crypto c e (keys.encryption_public private) context)
  unfolding Sealing.derive
  derive-Shares e private context good =
      if_rule (Shares std crypto w keys c e private context)
        (not (crypto.is_public_key (keys.encryption_public private))) tt
        (required_cases (Shares std crypto w keys c e private context) cipher_failed
          (c.ecdh e (keys.encryption_public private)) _ tt
          (λ secret shared.
            required_cases (Shares std crypto w keys c e private context) cipher_failed
              (c.hkdf secret (std.sha256 (text_bytes context))) ok tt
              (λ key drawn. λ wide.
                test_passed (not (crypto.is_public_key (keys.encryption_public e))) _
                  (ap not (reliable.public_width (keys.encryption_public e) wide))
                  (required_there _ (c.ecdh private (keys.encryption_public e)) _
                    (reliable.secrets_agree e private secret good shared)
                    (required_there _ (c.hkdf secret (std.sha256 (text_bytes context))) ok drawn
                      refl)))))
