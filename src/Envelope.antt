-- ===== src/Envelope.antt =====
-- internal/message: the data of contract.go, trade_protocol.go and rekey_disabled.go, with the tests of one
-- offer, decision or release that need no hash and no signature.
use Prim.Native.String.{◌++◌ as ◌<>◌}
use nexum.Prelude.{
  ℕ, String, Bool, true, false, not, ◌||◌, ◌&&◌, Option, none, some, [], length, nat_eq, ◌==◌,
  if◌then◌else◌,
}
use nexum.Prelude.Int.{ℤ, pos, negsuc, eq_ℤ}
use nexum.Errors.{Error, Outcome, done, fail, invalid_message, message_state, panicked}
use nexum.Std.{Bytes, Time, before}
use nexum.Identity.{Public}

abbrev pub message_kind : String
message_kind = "message.sealed/v1"

abbrev pub max_text : ℕ
max_text = 65536

abbrev pub max_invitation : ℕ
max_invitation = 1024

abbrev pub hpke_suite : String
hpke_suite = "HPKE-X25519-HKDF-SHA256-AES256GCM"

-- The reserved names of a rekey that this build does not have.
abbrev pub rekey_suite : String
rekey_suite = "unsupported"

abbrev pub rekey_ciphertext_size : ℤ
rekey_ciphertext_size = negsuc 0

pub data RekeyPublic : Type 0 where
  rekey_public : RekeyPublic

abbrev pub validate_rekey : RekeyPublic → Option Error
validate_rekey k = some invalid_message

abbrev pub supported_key_suite : String → Bool
supported_key_suite s = s == "" || s == hpke_suite

-- trade_protocol.go
pub record TradeLink : Type 0 where
  pub id : String
  pub action : String
  pub parent : String
  pub commitment : String

-- The `Terms` of an offer.
pub record OfferTerms : Type 0 where
  pub kind : String
  pub id : String
  pub sender : Public
  pub recipient : Public
  pub invitation : String
  pub created_at : Time
  pub expires_at : Time
  pub key_suite : String
  pub conversation_id : String
  pub reply_to : String
  pub trade : Option TradeLink

-- A nil slice is the empty one.
pub record Offer : Type 0 where
  pub terms : OfferTerms
  pub ciphertext : Bytes
  pub signature : Bytes

pub record Decision : Type 0 where
  pub rekey : Option RekeyPublic
  pub envelope_hash : String
  pub action : String
  pub at : Time
  pub signature : Bytes

pub record Release : Type 0 where
  pub kem_ciphertext : Bytes
  pub envelope_hash : String
  pub acceptance_hash : String
  pub ephemeral : Bytes
  pub wrapped_key : Bytes
  pub signature : Bytes

-- Go's Record.
pub record Exchange : Type 0 where
  pub offer : Offer
  pub decision : Option Decision
  pub release : Option Release

-- json.Marshal at the values that are signed, which fails at a time it cannot print; hex; utf8.ValidString.
pub record Wire : Type 0 where
  pub marshal_offer : Offer → Option String
  pub marshal_decision : Decision → Option String
  pub marshal_release : Release → Option String
  pub decode_hex : String → Option Bytes
  pub encode_hex : Bytes → String
  pub valid_utf8 : String → Bool

abbrev pub unsigned_offer : Offer → Offer
unsigned_offer o = record o { signature = [] }

abbrev pub unsigned_decision : Decision → Decision
unsigned_decision d = record d { signature = [] }

abbrev pub unsigned_release : Release → Release
unsigned_release r = record r { signature = [] }

-- A check of code that another check calls as `… != nil`: a panic goes through.
abbrev pub refusal : Error → Error
refusal panicked = panicked
refusal e = invalid_message

-- `wire` at a domain: none where json.Marshal fails, at which it panics.
abbrev pub wire : String → Option String → Option String
wire domain none = none
wire domain (some json) = some ("nex/message/v1/" <> (domain <> ("\0" <> json)))

-- `if err := m(); err != nil { return err }`, and the rest.
abbrev pub first_error : Option Error → Option Error → Option Error
first_error none rest = rest
first_error (some e) rest = some e

-- `… != nil` at a check that cannot panic.
abbrev pub refuses : Option Error → Bool
refuses none = false
refuses (some e) = true

-- The tests of a decision's rekey key.
abbrev pub misuses_rekey : Offer → Decision → Bool
misuses_rekey o d =
    if o.terms.key_suite == rekey_suite && d.action == "agree"
    then elim d.rekey [ none ↦ true | some k ↦ refuses (validate_rekey k) ]
    else elim d.rekey [ none ↦ false | some k ↦ true ]

-- A named hash that is not the hash of a value; none where that value cannot be encoded.
abbrev pub names_other : String → Option String → Option Bool
names_other s none = none
names_other s (some h) = some (not (s == h))

-- What follows a check that is called as `… != nil`.
abbrev pub also : Option Error → Option Error → Option Error
also none rest = rest
also (some e) rest = some (refusal e)

-- What follows the test of a hash.
abbrev pub naming : Option Bool → Option Error → Option Error
naming none rest = some panicked
naming (some true) rest = some invalid_message
naming (some false) rest = rest

-- The tests of a decision past the offer's.
abbrev pub decision_is_unfit : Offer → Decision → Bool
decision_is_unfit o d =
    (not (d.action == "agree") && not (d.action == "reject"))
    || before d.at o.terms.created_at
    || not (before d.at o.terms.expires_at)

-- The tests of a release before its hashes.
abbrev pub misuses_kem : Release → Offer → Bool
misuses_kem r o =
    if o.terms.key_suite == rekey_suite
    then not (eq_ℤ (pos (length r.kem_ciphertext)) rekey_ciphertext_size)
    else not (nat_eq (length r.kem_ciphertext) 0)

abbrev pub wrapped_length : Offer → ℕ
wrapped_length o = if o.terms.key_suite == hpke_suite then 48 else 60

unfoldable pub state : Exchange → Time → String
state x now = elim x.release [
  | some r ↦ "key-released"
  | none ↦ elim x.decision [
    | some d ↦ if d.action == "agree" then "accepted" else "rejected"
    | none ↦ if not (before now x.offer.terms.expires_at) then "expired" else "offered"
  ]
]

-- `equalJSON`: none where a value cannot be encoded.
abbrev pub equal_json : Option String → Option String → Option Bool
equal_json (some s) (some t) = some (s == t)
equal_json _ _ = none

-- What a retry answers: an exact one changes nothing and is no error.
abbrev pub retried : Exchange → Option Bool → Outcome Exchange
retried x none = fail panicked x
retried x (some true) = done x
retried x (some false) = fail message_state x
