-- ===== src/Message.antt =====
-- internal/message/contract.go and rekey_disabled.go: an offer of a sealed message, the decision of its
-- recipient, the release of its key, and the record that links them.
pub mod Passing
pub mod Exchanges
pub mod Consent
pub mod Retry
pub mod Deciding
pub mod Sealing
pub mod Opening
pub mod Opened
pub mod Reading
pub mod Sealed
pub mod Delivered
pub mod Trade
pub mod Turns
use Prim.Native.String.{◌++◌ as ◌<>◌}
use nexum.Prelude.{
  ℕ, String, Bool, true, false, not, ◌||◌, ◌&&◌, ◌+◌, Option, none, some, [], length, nat_eq, ltb,
  ◌==◌, if◌then◌else◌,
}
use nexum.Prelude.Int.{ℤ, pos, negsuc, eq_ℤ}
use nexum.Errors.{
  Error, Result, ok, err, Outcome, done, fail, check, invalid_message, message_party, message_state,
  offer_expired, panicked,
}
use nexum.Std.{Std, Bytes, Time, before, is_zero_time, text_bytes}
use nexum.Identity.{Public, Identity, Crypto, public_id, validate}
use nexum.Envelope.{
  Decision, Exchange, Offer, OfferTerms, RekeyPublic, Release, TradeLink, Wire, also,
  decision_is_unfit, equal_json, first_error, hpke_suite, max_invitation, max_text, message_kind,
  misuses_kem, misuses_rekey, names_other, naming, refusal, refuses, rekey_ciphertext_size,
  rekey_public, rekey_suite, retried, state, supported_key_suite, unsigned_decision, unsigned_offer,
  unsigned_release, validate_rekey, wire, wrapped_length,
}

module _ (std : Std) (crypto : Crypto) (w : Wire) where
  abbrev pub valid_id : String → Bool
  valid_id id = elim (w.decode_hex id) [
    | none ↦ false
    | some b ↦ nat_eq (length b) 32 && w.encode_hex b == id
  ]

  unfoldable pub validate_link : TradeLink → Option Error
  validate_link t =
      if not (valid_id t.id) || not (valid_id t.commitment)
      then some invalid_message
      else if t.action == "request"
      then (if not (t.parent == "") then some invalid_message else none)
      else if t.action == "offer"
          || (t.action == "counteroffer"
              || (t.action == "accept"
                  || (t.action == "reject" || (t.action == "fulfill" || t.action == "settle"))))
      then (if not (valid_id t.parent) then some invalid_message else none)
      else some invalid_message

  -- `verify` at the bytes that are signed, and what its caller answers.
  unfoldable pub check_signature : Public → Option String → Bytes → Option Error
  check_signature p text signature =
      if not (nat_eq (length p.signing) 32) then some invalid_message else elim text [
        | none ↦ some panicked
        | some t ↦
            if not (crypto.ed25519_verify p.signing t signature) then some invalid_message else none
      ]

  -- `digest` of a value with this JSON text.
  abbrev pub digest : Option String → Option String
  digest none = none
  digest (some text) = some (std.sha256_hex text)

  abbrev pub offer_text : Offer → Option String
  offer_text o = wire "offer" (w.marshal_offer (unsigned_offer o))

  abbrev pub offer_hash : Offer → Option String
  offer_hash o = digest (offer_text o)

  abbrev pub decision_text : Decision → Option String
  decision_text d = wire "decision" (w.marshal_decision (unsigned_decision d))

  abbrev pub decision_hash : Decision → Option String
  decision_hash d = digest (decision_text d)

  abbrev pub release_text : Release → Option String
  release_text r = wire "release" (w.marshal_release (unsigned_release r))

  abbrev pub refuses_link : Option TradeLink → Bool
  refuses_link none = false
  refuses_link (some t) = refuses (validate_link t)

  -- The last test of `Offer.Verify`, before the signature.
  abbrev pub is_malformed : Offer → Bool
  is_malformed o =
      let t = o.terms in
      not (t.kind == message_kind)
      || not (valid_id t.id)
      || refuses (validate std crypto t.sender)
      || refuses (validate std crypto t.recipient)
      || public_id std crypto t.sender == public_id std crypto t.recipient
      || ltb max_invitation (length (text_bytes t.invitation))
      || not (w.valid_utf8 t.invitation)
      || is_zero_time t.created_at
      || not (before t.created_at t.expires_at)
      || ltb (length o.ciphertext) 28
      || ltb (max_text + 28) (length o.ciphertext)

  unfoldable pub verify_offer : Offer → Option Error
  unfolding check_signature validate_link
  verify_offer o =
      let t = o.terms in
      if not (supported_key_suite t.key_suite)
        || (not (t.conversation_id == "") && not (valid_id t.conversation_id))
        || (not (t.reply_to == "") && not (valid_id t.reply_to))
      then some invalid_message
      else if t.key_suite == rekey_suite && not (valid_id t.conversation_id)
      then some invalid_message
      else if refuses_link t.trade
      then some invalid_message
      else if is_malformed o
      then some invalid_message
      else check_signature t.sender (offer_text o) o.signature

  unfoldable pub verify_decision : Decision → Offer → Option Error
  unfolding verify_offer
  verify_decision d o =
      if misuses_rekey o d
      then some invalid_message
      else also (verify_offer o) (
          naming (names_other d.envelope_hash (offer_hash o)) (
            if decision_is_unfit o d
            then some invalid_message
            else check_signature o.terms.recipient (decision_text d) d.signature))

  unfoldable pub verify_release : Release → Offer → Decision → Option Error
  unfolding verify_decision
  verify_release r o d =
      if misuses_kem r o
      then some invalid_message
      else also (verify_decision d o) (
          if not (d.action == "agree")
          then some invalid_message
          else naming (names_other r.envelope_hash (offer_hash o)) (
              naming (names_other r.acceptance_hash (decision_hash d)) (
                if not (nat_eq (length r.ephemeral) 32)
                  || not (nat_eq (length r.wrapped_key) (wrapped_length o))
                then some invalid_message
                else check_signature o.terms.sender (release_text r) r.signature)))

  unfoldable pub verify_exchange : Exchange → Option Error
  unfolding verify_release
  verify_exchange x = first_error (verify_offer x.offer) (elim x.decision [
    | none ↦ elim x.release [ none ↦ none | some r ↦ some invalid_message ]
    | some d ↦
        first_error (verify_decision d x.offer)
          (elim x.release [ none ↦ none | some r ↦ verify_release r x.offer d ])
  ])

  unfoldable pub apply_decision : Exchange → Decision → Time → Outcome Exchange
  unfolding verify_decision
  apply_decision x d now = check x (verify_decision d x.offer) (elim x.decision [
    | some prior ↦
        retried x (
          equal_json (wire "equal" (w.marshal_decision prior))
            (wire "equal" (w.marshal_decision d)))
    | none ↦
        if not (before now x.offer.terms.expires_at)
        then fail offer_expired x
        else if before (now + 60000000000) d.at
        then fail invalid_message x
        else done (record x { decision = some d })
  ])

  unfoldable pub apply_release : Exchange → Release → Outcome Exchange
  unfolding verify_release
  apply_release x r = elim x.decision [
    | none ↦ fail message_state x
    | some d ↦ check x (verify_release r x.offer d) (elim x.release [
      | some prior ↦
          retried x (
            equal_json (wire "equal" (w.marshal_release prior))
              (wire "equal" (w.marshal_release r)))
      | none ↦ done (record x { release = some r })
    ])
  ]
