-- ===== src/Message/Trade.antt =====
-- internal/message/trade_protocol.go: a trade carried by messages, one operation in each.
use nexum.Prelude.{
  String, Bool, true, false, not, ◌||◌, ◌&&◌, Option, none, some, List, [], ◌∷◌, length, nat_eq,
  ltb, ◌==◌, if◌then◌else◌,
}
use nexum.Prelude.Int.{ℤ, pos, ltb_ℤ, eq_ℤ}
use nexum.Errors.{Error, invalid_message, message_state, no_settlement_reference, panicked}
use nexum.Std.{Std, Bytes, Time}
use nexum.Identity.{Crypto, public_id}
use nexum.Envelope.{Offer, Release, Exchange, Wire, TradeLink, wire, names_other, naming}
use nexum.Message.{digest, offer_hash, validate_link}

pub record Obligation : Type 0 where
  pub description : String
  pub units : ℤ
  pub unit : String
  pub budget : ℤ
  pub deadline : Time

pub record TradePayload : Type 0 where
  pub version : ℤ
  pub trade_id : String
  pub action : String
  pub parent : String
  pub salt : Bytes
  pub text : String
  pub obligations : List Obligation
  pub settlement_ref : String

-- The operations that may follow an operation.
abbrev pub allowed : String → List String
allowed action =
    if action == "request"
    then "offer" ∷ "reject" ∷ []
    else if action == "offer"
    then "counteroffer" ∷ "accept" ∷ "reject" ∷ []
    else if action == "counteroffer"
    then "counteroffer" ∷ "accept" ∷ "reject" ∷ []
    else if action == "accept"
    then "fulfill" ∷ []
    else if action == "fulfill"
    then "settle" ∷ []
    else []

abbrev pub contains : String → List String → Bool
contains s [] = false
contains s (t ∷ ts) = t == s || contains s ts

-- The loop over the obligations: one that is refused.
abbrev pub has_bad_obligation : List Obligation → Bool
has_bad_obligation [] = false
has_bad_obligation (o ∷ rest) =
    (o.description == "" || ltb_ℤ o.units (pos 0) || ltb_ℤ o.budget (pos 0))
    || has_bad_obligation rest

abbrev pub is_unreleased : Option Release → Bool
is_unreleased none = true
is_unreleased (some r) = false

module _ (std : Std) (crypto : Crypto) (w : Wire) where
  module _ (marshal_payload : TradePayload → Option String) where
    -- `Commitment`
    abbrev pub commitment : TradePayload → Option String
    commitment p = digest std crypto w (wire "trade-terms" (marshal_payload p))

    unfoldable pub validate_payload : TradePayload → TradeLink → Option Error
    validate_payload p link =
        if not (eq_ℤ p.version (pos 1))
          || not (nat_eq (length p.salt) 32)
          || not (p.trade_id == link.id)
          || not (p.action == link.action)
          || not (p.parent == link.parent)
        then some invalid_message
        else naming (names_other link.commitment (commitment p)) (
            if ltb 64 (length p.obligations)
            then some invalid_message
            else if has_bad_obligation p.obligations
            then some invalid_message
            else if p.action == "settle" && p.settlement_ref == ""
            then some no_settlement_reference
            else validate_link std crypto w link)

  -- The tests of a successor past the hash of its parent.
  abbrev pub breaks_turn : Exchange → Offer → Bool
  breaks_turn parent child =
      let t = parent.offer.terms in
      let c = child.terms in
      not (c.reply_to == t.id)
      || not (c.conversation_id == t.conversation_id)
      || not (public_id std crypto c.sender == public_id std crypto t.recipient)
      || not (public_id std crypto c.recipient == public_id std crypto t.sender)
      || is_unreleased parent.release

  -- `ValidateTradeSuccessor` at the links of two messages.
  unfoldable pub follows : Exchange → Offer → TradeLink → TradeLink → Option Error
  follows parent child p c =
      if not (c.id == p.id)
      then some message_state
      else elim (names_other c.parent (offer_hash std crypto w parent.offer)) [
        | none ↦ some panicked
        | some other ↦
            if other || breaks_turn parent child
            then some message_state
            else if contains c.action (allowed p.action)
            then none
            else some message_state
      ]

  abbrev pub linked_successor :
      Exchange → Offer → Option TradeLink → Option TradeLink → Option Error
  linked_successor parent child none c = some message_state
  linked_successor parent child (some p) none = some message_state
  linked_successor parent child (some p) (some c) = follows parent child p c

  unfoldable pub validate_trade_successor : Exchange → Offer → Option Error
  unfolding follows
  validate_trade_successor parent child =
      linked_successor parent child parent.offer.terms.trade child.terms.trade
