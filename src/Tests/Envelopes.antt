-- ===== src/Tests/Envelopes.antt =====
-- A text that is sealed by one party, and opened by the other under the released key.
use nexum.Prelude.{
  ◌≡◌, ◌-◌, refl, ap, ◌∙◌, subst, String, true, Option, none, some, [], ◌∷◌, ◌++◌, length,
  length-append, take, take-append, arith, sym, ◌+◌,
}
use nexum.Errors.{ok}
use nexum.Std.{Bytes}
use nexum.Identity.{Identity, validate, public_id}
use nexum.Envelope.{Offer, Release}
use nexum.Message
use nexum.Message.Deciding.{Keys, identity_public}
use nexum.Message.Sealing
use nexum.Message.Sealing.{Ciphers, Draws, SendOptions}
use nexum.Message.Opening
use nexum.Message.Opened.{Reliable}
use nexum.Message.Delivered.{sealed_text_opens}
use nexum.Tests.Contracts.{plain_std, repeated, test_crypto, buyer_key, seller_key}
use nexum.Tests.Messages.{test_wire, consent}
use nexum.Tests.Stores.{some_inj}

-- A key is its seed twice, and a public key is the private one.
abbrev test_keys : Keys
test_keys = record {
  key_from_seed = λ seed. seed ++ seed;
  signing_public = λ key. take 32 key;
  encryption_public = λ key. key;
}

abbrev tag : Bytes
tag = repeated 16 0

abbrev untagged : Bytes → Bytes
untagged content = take (length content - 16) content

abbrev Sealer : Type 0
Sealer = Bytes → String → Option Bytes

abbrev test_sealer : Sealer
test_sealer key context = some (key ++ tag)

abbrev test_opener : Sealer
test_opener content context = some (untagged content)

abbrev test_send : Option Bytes → Option (Bytes × Sealer)
test_send none = none
test_send (some seed) = some (seed, test_sealer)

abbrev test_ciphers : Ciphers
test_ciphers = record {
  gcm_seal = λ key nonce text aad. text ++ tag;
  gcm_open = λ key nonce content aad. some (untagged content);
  nonce_size = 12;
  overhead = 16;
  is_hpke_public = λ key. true;
  is_hpke_private = λ key. true;
  hpke_send = λ key info seed. test_send seed;
  hpke_receive = λ key info enc. some test_opener;
  ecdh = λ mine theirs. some (repeated 32 6);
  hkdf = λ secret salt. some (repeated 32 6);
  valid_text = λ text. true;
  marshal_terms = λ t. some t.id;
  marshal_texts = λ a b c. b;
}

untagged_lem : (text : Bytes) → untagged (text ++ tag) ≡ text
untagged_lem text =
    let total : length (text ++ tag) ≡ length text + 16 = length-append text tag in
    let width : length (text ++ tag) - 16 ≡ length text = omega (arith, total) in
    ap (λ k. take k (text ++ tag)) width ∙ take-append text tag

-- What the opener does with what a sealer has sealed.
abbrev OpeningOf : Option (Bytes × Sealer) → Type 0
OpeningOf none = Unit
OpeningOf (some (enc, sealer)) =
    (key : Bytes) (context : String) (wrapped : Bytes)
    → sealer key context ≡ some wrapped
    → test_opener wrapped context ≡ some key

test_send-OpeningOf : (seed : Option Bytes) → OpeningOf (test_send seed)
test_send-OpeningOf none = tt
test_send-OpeningOf (some seed) =
    λ key context wrapped h. ap some (ap untagged (some_inj (sym h)) ∙ untagged_lem key)

test_ciphers-Reliable : Reliable test_crypto test_keys test_ciphers
test_ciphers-Reliable = record {
  gcm_opens = λ key nonce text aad h. ap some (untagged_lem text);
  gcm_width = λ key nonce text aad. length-append text tag;
  public_width = λ key h. refl;
  secrets_agree = λ mine theirs secret good h. h;
  hpke_private = λ key h. refl;
  hpke_opens = λ private info seed enc sealer good sent.
      (test_opener, refl, subst OpeningOf sent (test_send-OpeningOf seed));
}

abbrev sender : Identity
sender = record { signing = repeated 64 1; encryption = repeated 32 3 }

abbrev recipient : Identity
recipient = record { signing = repeated 64 2; encryption = repeated 32 4 }

abbrev greeting : Bytes
greeting = 72 ∷ 105 ∷ []

abbrev by_default : SendOptions
by_default = record { key_suite = ""; conversation_id = ""; reply_to = ""; trade = none }

abbrev draws : Draws
draws = record {
  id = some (repeated 32 9);
  key = some (repeated 32 8);
  nonce = some (repeated 12 7);
}

abbrev sealed_offer : Offer
sealed_offer = record {
  terms = Sealing.terms_for buyer_key seller_key "" 10 20 by_default "id";
  ciphertext = repeated 12 7 ++ greeting ++ tag;
  signature = repeated 64 1;
}

abbrev released_key : Release
released_key = record {
  kem_ciphertext = [];
  envelope_hash = "nex/message/v1/offer\0o";
  acceptance_hash = "nex/message/v1/decision\0agree";
  ephemeral = repeated 32 5;
  wrapped_key = repeated 32 8 ++ tag;
  signature = repeated 64 1;
}

greeting_sealed :
    Sealing.seal_with_options plain_std test_crypto test_wire test_keys test_ciphers sender
      seller_key greeting "" 10 20 by_default draws
    ≡ ok (sealed_offer, repeated 32 8)
unfolding Sealing.seal_with_options Sealing.encrypt identity_public validate public_id
    Message.verify_offer
greeting_sealed = refl

key_wrapped :
    Opening.wrap_key plain_std test_crypto test_wire test_keys test_ciphers sender sealed_offer
      consent
      (repeated 32 8)
      (some (repeated 32 5))
      none
    ≡ ok released_key
unfolding Opening.wrap_key Opening.wrap_opened Opening.wrap_hpke Sealing.decrypt
    Sealing.signed_release identity_public validate public_id Message.verify_release
key_wrapped = refl

sealed_text_opens_example :
    Opening.open_text plain_std test_crypto test_wire test_keys test_ciphers recipient
      (record { offer = sealed_offer; decision = some consent; release = some released_key })
    ≡ ok greeting
unfolding identity_public
sealed_text_opens_example =
    sealed_text_opens plain_std test_crypto test_wire test_keys test_ciphers test_ciphers-Reliable
      sender recipient seller_key greeting "" 10 20 by_default draws sealed_offer (repeated 32 8)
      consent (some (repeated 32 5)) none released_key greeting_sealed key_wrapped refl
      (λ nonce h. ap length (some_inj (sym h))) (λ nonce h. cc)
