-- ===== src/Message/Turns.antt =====
-- Chains of messages of one trade.
use nexum.Prelude.{
  ℕ, ◌≤◌, ◌≡◌, ◌⊎◌, inl, inr, suc, ◌≢◌, refl, sym, ap, ◌∙◌, subst, String, Bool, true, false, not,
  ◌||◌, Option, none, some, List, [], ◌∷◌, length, zero, ◌==◌, if◌then◌else◌, arith, eq_iff,
  get_elem?,
}
use nexum.Errors.{message_state, panicked}
use nexum.Std.{Std}
use nexum.Identity.{Crypto, public_id}
use nexum.Message.Passing.{failure-ne-none, passed_if}
use nexum.Envelope.{Offer, Exchange, Wire, TradeLink, names_other}
use nexum.Message.{offer_hash}
use nexum.Message.Trade.{
  allowed, contains, is_unreleased, breaks_turn, follows, linked_successor,
  validate_trade_successor,
}

false_ne_true : false ≢ true
false_ne_true e = ground (arith, e)

-- An operation after which at most so many messages follow.
abbrev pub Final : ℕ → String → Type 0
Final zero action = (action ≡ "settle") ⊎ (action ≡ "reject")
Final (suc zero) action = action ≡ "fulfill"
Final (suc (suc zero)) action = action ≡ "accept"
Final (suc (suc (suc n))) action = ⊥

only : (s t : String) → (t == s || false) ≡ true → s ≡ t
only s t h = ground (arith, eq_iff t s, h)

next-Final :
    (n : ℕ) (a c : String)
    → Final n a
    → contains c (allowed a) ≡ true
    → (m : ℕ) × (n ≡ suc m) × Final m c
next-Final zero a c (inl e) h =
    absurd (false_ne_true (subst (λ (t : String). contains c (allowed t) ≡ true) e h))
next-Final zero a c (inr e) h =
    absurd (false_ne_true (subst (λ (t : String). contains c (allowed t) ≡ true) e h))
next-Final (suc zero) a c e h =
    (0, refl, inl (only c "settle" (subst (λ (t : String). contains c (allowed t) ≡ true) e h)))
next-Final (suc (suc zero)) a c e h =
    (1, refl, only c "fulfill" (subst (λ (t : String). contains c (allowed t) ≡ true) e h))
next-Final (suc (suc (suc n))) a c e h = absurd e

last_test : (b : Bool) → (if b then none else some message_state) ≡ none → b ≡ true
last_test true h = refl
last_test false h = absurd (failure-ne-none message_state h)

same_text : (s t : String) → not (s == t) ≡ false → s ≡ t
same_text s t h = ground (arith, eq_iff s t, h)

or_false : (a b : Bool) → (a || b) ≡ false → (a ≡ false) × (b ≡ false)
or_false true b h = cc
or_false false b h = (refl, h)

-- The first of two parties, and the other one in every second turn.
abbrev pub in_turn : ℕ → String → String → String
in_turn zero s t = s
in_turn (suc k) s t = in_turn k t s

same_link : (q p : TradeLink) → some q ≡ some p → q ≡ p
same_link q p h = cc

module _ (std : Std) (crypto : Crypto) (w : Wire) where
  -- Messages of a trade after a first one, each the valid successor of the one before it.
  abbrev pub Chain : Exchange → List Exchange → Type 0
  Chain x [] = Unit
  Chain x (y ∷ ys) = (validate_trade_successor std crypto w x y.offer ≡ none) × Chain y ys

  -- What a valid successor carries.
  abbrev Carries : Exchange → Offer → TradeLink → TradeLink → Type 0
  Carries x child p c =
      (c.id ≡ p.id)
      × (offer_hash std crypto w x.offer ≡ some c.parent)
      × (breaks_turn std crypto w x child ≡ false)
      × (contains c.action (allowed p.action) ≡ true)

  -- The end of `follows`, with the hash of the parent.
  named_parent :
      (x : Exchange) (child : Offer) (p c : TradeLink) (hash : Option String)
      → (elim (names_other c.parent hash) [
        | none ↦ some panicked
        | some other ↦
            if other || breaks_turn std crypto w x child
            then some message_state
            else if contains c.action (allowed p.action)
            then none
            else some message_state
      ])
        ≡ none
      → (hash ≡ some c.parent)
        × (breaks_turn std crypto w x child ≡ false)
        × (contains c.action (allowed p.action) ≡ true)
  named_parent x child p c none h = absurd (failure-ne-none panicked h)
  named_parent x child p c (some k) h =
      let (turn, last) =
        passed_if (not (c.parent == k) || breaks_turn std crypto w x child) message_state h in
      let (hash, kept) = or_false (not (c.parent == k)) (breaks_turn std crypto w x child) turn in
      (ap some (sym (same_text c.parent k hash)), kept, last_test _ last)

  follows-Carries :
      (x : Exchange) (child : Offer) (p c : TradeLink)
      → follows std crypto w x child p c ≡ none
      → Carries x child p c
  unfolding follows
  follows-Carries x child p c h =
      let (trade, rest) = passed_if (not (c.id == p.id)) message_state h in
      let (hash, turn, action) = named_parent x child p c (offer_hash std crypto w x.offer) rest in
      (same_text c.id p.id trade, hash, turn, action)

  successor-Carries :
      (x : Exchange) (child : Offer) (t u : Option TradeLink)
      → linked_successor std crypto w x child t u ≡ none
      → (p : TradeLink) × (c : TradeLink) × (t ≡ some p) × (u ≡ some c) × Carries x child p c
  successor-Carries x child none u h = absurd (failure-ne-none message_state h)
  successor-Carries x child (some p) none h = absurd (failure-ne-none message_state h)
  successor-Carries x child (some p) (some c) h = (p, c, refl, refl, follows-Carries x child p c h)

  unlinked :
      (x : Exchange) (child : Offer)
      → validate_trade_successor std crypto w x child ≡ none
      → (p : TradeLink) × (c : TradeLink) × (x.offer.terms.trade ≡ some p)
        × (child.terms.trade ≡ some c)
        × Carries x child p c
  unfolding validate_trade_successor
  unlinked x child h = successor-Carries x child x.offer.terms.trade child.terms.trade h

  turn_of :
      (x : Exchange) (child : Offer)
      → breaks_turn std crypto w x child ≡ false
      → (child.terms.conversation_id ≡ x.offer.terms.conversation_id)
        × (public_id std crypto child.terms.sender ≡ public_id std crypto x.offer.terms.recipient)
        × (public_id std crypto child.terms.recipient ≡ public_id std crypto x.offer.terms.sender)
        × (is_unreleased x.release ≡ false)
  turn_of x child h =
      let t = x.offer.terms in
      let c = child.terms in
      let reply = not (c.reply_to == t.id) in
      let conversation = not (c.conversation_id == t.conversation_id) in
      let sender = not (public_id std crypto c.sender == public_id std crypto t.recipient) in
      let recipient = not (public_id std crypto c.recipient == public_id std crypto t.sender) in
      let (front, released) =
        or_false (reply || conversation || sender || recipient) (is_unreleased x.release) h in
      let (front, to) = or_false (reply || conversation || sender) recipient front in
      let (front, from) = or_false (reply || conversation) sender front in
      let (front, of) = or_false reply conversation front in
      (same_text _ _ of, same_text _ _ from, same_text _ _ to, released)

  -- A message of a chain, in the trade and between the parties of a first one that is released.
  pub record InTurn (x : Exchange) (p : TradeLink) (k : ℕ) (y : Exchange) : Type 0 where
    pub link : TradeLink
    pub linked : y.offer.terms.trade ≡ some link
    pub trade : link.id ≡ p.id
    pub conversation : y.offer.terms.conversation_id ≡ x.offer.terms.conversation_id
    pub sender :
        public_id std crypto y.offer.terms.sender
        ≡ in_turn k
            (public_id std crypto x.offer.terms.recipient)
            (public_id std crypto x.offer.terms.sender)
    pub recipient :
        public_id std crypto y.offer.terms.recipient
        ≡ in_turn k
            (public_id std crypto x.offer.terms.sender)
            (public_id std crypto x.offer.terms.recipient)
    pub released : is_unreleased x.release ≡ false

  -- The parties of a trade take turns: in a chain of messages, each a valid successor of the one before it,
  -- the message k places behind the second one names the trade and the conversation of the first, and is
  -- between the two parties of the first: from its recipient to its sender where k is even, and from its
  -- sender to its recipient where k is odd; and the key of the first has been released.
  pub trade_in_turns :
      (x : Exchange) (ys : List Exchange) (p : TradeLink) (k : ℕ) (y : Exchange)
      → x.offer.terms.trade ≡ some p
      → Chain x ys
      → get_elem? ys k ≡ some y
      → InTurn x p k y
  trade_in_turns x [] p k y is_p h at = cc
  trade_in_turns x (z ∷ zs) p zero y is_p h at =
      let (q, c, is_q, is_c, (trade, hash, turn, action)) = unlinked x z.offer h.0 in
      let (conversation, sender, recipient, released) = turn_of x z.offer turn in
      subst (InTurn x p zero) (there at) (record {
        link = c;
        linked = is_c;
        trade = trade ∙ ap (λ (l : TradeLink). l.id) (same_link q p (sym is_q ∙ is_p));
        conversation = conversation;
        sender = sender;
        recipient = recipient;
        released = released;
      })
    where
      there : {u v : Exchange} → some u ≡ some v → u ≡ v
      there e = cc
  trade_in_turns x (z ∷ zs) p (suc k) y is_p h at =
      let (q, c, is_q, is_c, (trade, hash, turn, action)) = unlinked x z.offer h.0 in
      let (conversation, sender, recipient, released) = turn_of x z.offer turn in
      let rest = trade_in_turns z zs c k y is_c h.1 at in
      record {
        link = rest.link;
        linked = rest.linked;
        trade = rest.trade ∙ trade ∙ ap (λ (l : TradeLink). l.id) (same_link q p (sym is_q ∙ is_p));
        conversation = rest.conversation ∙ conversation;
        sender =
            rest.sender
            ∙ ap (λ t. in_turn k (public_id std crypto z.offer.terms.recipient) t) sender
            ∙ ap (λ t. in_turn k t (public_id std crypto x.offer.terms.recipient)) recipient;
        recipient =
            rest.recipient
            ∙ ap (λ t. in_turn k (public_id std crypto z.offer.terms.sender) t) recipient
            ∙ ap (λ t. in_turn k t (public_id std crypto x.offer.terms.sender)) sender;
        released = released;
      }

  -- In a chain of messages, each a valid successor of the one before it, at most two messages follow one
  -- that accepts, at most one follows one that fulfills, and none follows one that settles or rejects.
  pub trade_closes :
      (n : ℕ) (x : Exchange) (ys : List Exchange) (p : TradeLink)
      → x.offer.terms.trade ≡ some p
      → Final n p.action
      → Chain x ys
      → length ys ≤ n
  trade_closes n x [] p is_p f h = omega arith
  trade_closes n x (y ∷ ys) p is_p f h =
      let (q, c, is_q, is_c, (trade, hash, turn, action)) = unlinked x y.offer h.0 in
      let same : q ≡ p = same_link q p (sym is_q ∙ is_p) in
      let (m, is_n, g) =
        next-Final n p.action c.action f
          (subst (λ (l : TradeLink). contains c.action (allowed l.action) ≡ true) same action) in
      omega (arith, is_n, trade_closes m y ys c is_c g h.1)
