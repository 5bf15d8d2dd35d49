-- ===== src/Tests/Messages.antt =====
-- A sealed message that is offered, agreed to and opened_note, and a trade of two messages.
use nexum.Message.Deciding.{Keys, decide_is_taken}
use nexum.Prelude.{◌≡◌, ◌≤◌, refl, true, Option, none, some, List, [], ◌∷◌, length, arith}
use nexum.Errors.{done, ok}
use nexum.Pow.{zero_digest}
use nexum.Identity.{Public, validate, public_id, Identity}
use nexum.Message
use nexum.Envelope.{Offer, Decision, Release, Exchange, Wire, TradeLink, state, message_kind}
use nexum.Message.{verify_offer, verify_exchange, apply_decision}
use nexum.Message.Exchanges.{Step, decide, give, take_step, take_steps, offered}
use nexum.Message.Consent.{Given, released_with_consent}
use nexum.Message.Retry.{exact_retry}
use nexum.Message.Turns.{Chain, InTurn, trade_in_turns, trade_closes}
use nexum.Tests.Contracts.{plain_std, repeated, test_crypto, buyer_key, seller_key}

abbrev pub test_wire : Wire
test_wire = record {
  marshal_offer = λ o. some "o";
  marshal_decision = λ d. some d.action;
  marshal_release = λ r. some "r";
  decode_hex = λ s. some zero_digest;
  encode_hex = λ b. "id";
  valid_utf8 = λ s. true;
}

abbrev offer_from : Public → Public → Option TradeLink → Offer
offer_from sender recipient trade = record {
  terms = record {
    kind = message_kind;
    id = "id";
    sender = sender;
    recipient = recipient;
    invitation = "";
    created_at = 10;
    expires_at = 20;
    key_suite = "";
    conversation_id = "id";
    reply_to = "id";
    trade = trade;
  };
  ciphertext = repeated 28 7;
  signature = 1 ∷ [];
}

abbrev note_offer : Offer
note_offer = offer_from buyer_key seller_key none

abbrev pub consent : Decision
consent = record {
  rekey = none;
  envelope_hash = "nex/message/v1/offer\0o";
  action = "agree";
  at = 12;
  signature = 2 ∷ [];
}

abbrev key_release : Release
key_release = record {
  kem_ciphertext = [];
  envelope_hash = "nex/message/v1/offer\0o";
  acceptance_hash = "nex/message/v1/decision\0agree";
  ephemeral = repeated 32 4;
  wrapped_key = repeated 60 5;
  signature = 1 ∷ [];
}

abbrev steps : List Step
steps = decide consent 13 ∷ give key_release ∷ []

offer_verifies : verify_offer plain_std test_crypto test_wire note_offer ≡ none
unfolding verify_offer validate public_id
offer_verifies = refl

abbrev opened_note : Exchange
opened_note =
    take_steps plain_std test_crypto test_wire steps
      (offered plain_std test_crypto test_wire note_offer)

is_opened : state opened_note 30 ≡ "key-released"
unfolding take_steps state validate public_id
is_opened = refl

released_with_consent_example :
    (d : Decision) × (r : Release) × (opened_note.decision ≡ some d)
    × (opened_note.release ≡ some r)
    × Given plain_std test_crypto test_wire note_offer d r
released_with_consent_example =
    released_with_consent plain_std test_crypto test_wire note_offer steps 30 offer_verifies
      is_opened

abbrev agreed : Exchange
agreed = record { offer = note_offer; decision = some consent; release = none }

first_decision :
    take_step plain_std test_crypto test_wire
      (decide consent 13)
      (offered plain_std test_crypto test_wire note_offer)
    ≡ done agreed
unfolding take_step validate public_id
first_decision = refl

exact_retry_example :
    take_step plain_std test_crypto test_wire (decide consent 25) agreed ≡ done agreed
exact_retry_example =
    exact_retry plain_std test_crypto test_wire (decide consent 13) (decide consent 25)
      (offered plain_std test_crypto test_wire note_offer) agreed (refl, ("agree", refl))
      first_decision

-- A trade that is accepted, then fulfilled and settled.
abbrev accepted_trade : TradeLink
accepted_trade = record { id = "id"; action = "accept"; parent = "id"; commitment = "id" }

abbrev acceptance : Exchange
acceptance = record {
  offer = offer_from buyer_key seller_key (some accepted_trade);
  decision = some consent;
  release = some key_release;
}

abbrev fulfilment : Exchange
fulfilment = record {
  offer =
      offer_from seller_key buyer_key
        (some (record accepted_trade { action = "fulfill"; parent = "nex/message/v1/offer\0o" }));
  decision = some consent;
  release = some key_release;
}

abbrev settlement : Exchange
settlement = record {
  offer =
      offer_from buyer_key seller_key
        (some (record accepted_trade { action = "settle"; parent = "nex/message/v1/offer\0o" }));
  decision = none;
  release = none;
}

trade_follows : Chain plain_std test_crypto test_wire acceptance (fulfilment ∷ settlement ∷ [])
unfolding Message.Trade.validate_trade_successor validate public_id
trade_follows = (refl, (refl, tt))

trade_in_turns_example :
    InTurn plain_std test_crypto test_wire acceptance accepted_trade 1 settlement
trade_in_turns_example =
    trade_in_turns plain_std test_crypto test_wire acceptance (fulfilment ∷ settlement ∷ [])
      accepted_trade 1 settlement refl trade_follows refl

trade_closes_example : length (fulfilment ∷ settlement ∷ []) ≤ 2
trade_closes_example =
    trade_closes plain_std test_crypto test_wire 2 acceptance (fulfilment ∷ settlement ∷ [])
      accepted_trade refl refl trade_follows

-- The recipient's keys: the private key is the same byte 64 times.
abbrev test_keys : Keys
test_keys = record {
  key_from_seed = λ seed. repeated 64 2;
  signing_public = λ key. repeated 32 2;
  encryption_public = λ key. repeated 32 4;
}

abbrev recipient : Identity
recipient = record { signing = repeated 64 2; encryption = repeated 32 9 }

abbrev decided : Decision
decided = record consent { signature = repeated 64 2 }

recipient_decides :
    Message.Deciding.decide plain_std test_crypto test_wire test_keys recipient note_offer "agree"
      12
    ≡ ok decided
unfolding Message.Deciding.decide Message.Deciding.decide_with validate public_id
    Message.verify_decision
recipient_decides = refl

decide_is_taken_example :
    apply_decision plain_std test_crypto test_wire
      (record { offer = note_offer; decision = none; release = none })
      decided
      11
    ≡ done (record { offer = note_offer; decision = some decided; release = none })
decide_is_taken_example =
    decide_is_taken plain_std test_crypto test_wire test_keys recipient note_offer "agree" 12 11
      decided recipient_decides (omega arith) (omega arith)
