-- ===== src/Message/Sealing.antt =====
-- internal/message/crypto.go: sealing a text, wrapping its key for the recipient, and opening it. The ciphers
-- are a parameter, a `Ciphers`.
use nexum.Prelude.{
  ℕ, ◌+◌, String, Bool, not, ◌||◌, Option, none, some, [], ◌++◌, length, nat_eq, ltb, take, ◌==◌,
  if◌then◌else◌,
}
use nexum.Errors.{
  Result, ok, err, bind, required, guarded, invalid_message, panicked, io_error, cipher_failed,
}
use nexum.Std.{Std, Bytes, Time, drop, text_bytes}
use nexum.Identity.{Public, Identity, Crypto, validate}
use nexum.Envelope.{
  Decision, Offer, OfferTerms, Release, TradeLink, Wire, hpke_suite, max_text, message_kind,
  refuses, wire,
}
use nexum.Message.{
  offer_text, offer_hash, decision_hash, release_text, verify_offer, verify_release,
}
use nexum.Message.Deciding.{Keys, identity_public}

pub record SendOptions : Type 0 where
  pub key_suite : String
  pub conversation_id : String
  pub reply_to : String
  pub trade : Option TradeLink

-- What rand.Read fills, where it does not fail: an id, a content key, and the nonce of its encryption.
pub record Draws : Type 0 where
  pub id : Option Bytes
  pub key : Option Bytes
  pub nonce : Option Bytes

-- AES-256-GCM at a key, a nonce, a text and the additional data; circl's HPKE suite, where a sender at a
-- public key, an info and a seed is its encapsulated key with what it seals, and a receiver at a private key,
-- an info and an encapsulated key is what it opens; ECDH on X25519; hkdf.Key at a secret and a salt;
-- utf8.Valid; json.Marshal at an offer's terms and at the three texts of an HPKE info.
pub record Ciphers : Type 0 where
  pub gcm_seal : Bytes → Bytes → Bytes → String → Bytes
  pub gcm_open : Bytes → Bytes → Bytes → String → Option Bytes
  pub nonce_size : ℕ
  pub overhead : ℕ
  pub is_hpke_public : Bytes → Bool
  pub is_hpke_private : Bytes → Bool
  pub hpke_send : Bytes → String → Option Bytes → Option (Bytes × (Bytes → String → Option Bytes))
  pub hpke_receive : Bytes → String → Bytes → Option (Bytes → String → Option Bytes)
  pub ecdh : Bytes → Bytes → Option Bytes
  pub hkdf : Bytes → Bytes → Option Bytes
  pub valid_text : Bytes → Bool
  pub marshal_terms : OfferTerms → Option String
  pub marshal_texts : String → String → String → String

-- The terms of an offer, with the defaults of the options.
abbrev pub terms_for : Public → Public → String → Time → Time → SendOptions → String → OfferTerms
terms_for sender recipient invitation now expiry options id = record {
  kind = message_kind;
  id = id;
  sender = sender;
  recipient = recipient;
  invitation = invitation;
  created_at = now;
  expires_at = expiry;
  key_suite = if not (options.key_suite == "") then options.key_suite else hpke_suite;
  conversation_id = if options.conversation_id == "" then id else options.conversation_id;
  reply_to = options.reply_to;
  trade = options.trade;
}

-- The offer that is signed.
abbrev pub offer_for : OfferTerms → Bytes → Offer
offer_for t ciphertext = record { terms = t; ciphertext = ciphertext; signature = [] }

module _ (c : Ciphers) where
  -- `encrypt` and `decrypt`, with the test of `aead`.
  unfoldable pub encrypt : Bytes → Bytes → String → Option Bytes → Result Bytes
  encrypt key text aad nonce =
      if not (nat_eq (length key) 32)
      then err invalid_message
      else required io_error nonce λ n. ok (n ++ c.gcm_seal key n text aad)

  unfoldable pub decrypt : Bytes → Bytes → String → Result Bytes
  decrypt key content aad =
      if not (nat_eq (length key) 32)
      then err invalid_message
      else if ltb (length content) (c.nonce_size + c.overhead)
      then err invalid_message
      else required cipher_failed
          (c.gcm_open key (take c.nonce_size content) (drop c.nonce_size content) aad) ok

  abbrev pub text_aad : OfferTerms → Option String
  text_aad t = wire "text" (c.marshal_terms t)

module _ (std : Std) (crypto : Crypto) (c : Ciphers) where
  -- The salt is the digest of the context.
  unfoldable pub derive : Bytes → Bytes → String → Result Bytes
  derive private public context =
      if not (crypto.is_public_key public)
      then err cipher_failed
      else required cipher_failed (c.ecdh private public)
          λ secret. required cipher_failed (c.hkdf secret (std.sha256 (text_bytes context))) ok

module _ (std : Std) (crypto : Crypto) (w : Wire) (keys : Keys) (c : Ciphers) where
  -- `SealWithOptions`, which answers its offer and key only where the offer verifies.
  unfoldable pub seal_with_options :
      Identity
      → Public
      → Bytes
      → String
      → Time
      → Time
      → SendOptions
      → Draws
      → Result (Offer × Bytes)
  unfolding encrypt
  seal_with_options i recipient text invitation now expiry options draws =
      bind (identity_public std crypto w keys i) λ p.
        if ltb max_text (length text)
          || not (c.valid_text text)
          || refuses (validate std crypto recipient)
        then err invalid_message
        else required io_error draws.id λ id. required io_error draws.key λ key.
          let t = terms_for p recipient invitation now expiry options (w.encode_hex id) in
          required panicked (text_aad c t) λ aad.
            bind (encrypt c key text aad draws.nonce) λ ciphertext.
              let o = offer_for t ciphertext in
              required panicked (offer_text std crypto w o) λ signed_text.
                let signed : Offer = record o {
                  signature = crypto.ed25519_sign i.signing signed_text;
                } in
                guarded (verify_offer std crypto w signed) (ok (signed, key))

  -- `Seal`
  unfoldable pub seal :
      Identity → Public → Bytes → String → Time → Time → Draws → Result (Offer × Bytes)
  unfolding seal_with_options
  seal i recipient text invitation now expiry draws =
      seal_with_options i recipient text invitation now expiry
        (record { key_suite = ""; conversation_id = ""; reply_to = ""; trade = none }) draws

module _ (w : Wire) where
  -- `context` of a release.
  abbrev pub key_context : Release → Option String
  key_context r =
      wire "key-wrap" (w.marshal_release (record r { signature = []; wrapped_key = [] }))

module _ (std : Std) (crypto : Crypto) (w : Wire) where
  -- A release before it holds a key, and one that is signed.
  abbrev pub release_for : Offer → Decision → Bytes → (Release → Result Release) → Result Release
  release_for o d ephemeral rest = required panicked (offer_hash std crypto w o) λ oh.
      required panicked (decision_hash std crypto w d) λ dh. rest (record {
        kem_ciphertext = [];
        envelope_hash = oh;
        acceptance_hash = dh;
        ephemeral = ephemeral;
        wrapped_key = [];
        signature = [];
      })

  unfoldable pub signed_release : Identity → Offer → Decision → Release → Result Release
  signed_release i o d r = required panicked (release_text std crypto w r) λ text.
      let signed : Release = record r { signature = crypto.ed25519_sign i.signing text } in
      guarded (verify_release std crypto w signed o d) (ok signed)

module _ (std : Std) (crypto : Crypto) (w : Wire) (c : Ciphers) where
  -- `hpkeInfo`
  abbrev pub hpke_info : Offer → Decision → Option String
  hpke_info o d = elim (offer_hash std crypto w o) [
    | none ↦ none
    | some oh ↦ elim (decision_hash std crypto w d) [
      | none ↦ none
      | some dh ↦ wire "hpke" (some (c.marshal_texts hpke_suite oh dh))
    ]
  ]
