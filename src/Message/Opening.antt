-- ===== src/Message/Opening.antt =====
-- internal/message/crypto.go and rekey_disabled.go: wrapping the key of a message for its recipient (`WrapKey`), and opening the
-- message (`Open`).
use nexum.Prelude.{not, ◌||◌, ◌==◌, Option, none, some, length, nat_eq, if◌then◌else◌}
use nexum.Errors.{
  Result, err, bind, required, guarded, invalid_message, message_party, message_not_ready, panicked,
  io_error, cipher_failed,
}
use nexum.Std.{Std, Bytes}
use nexum.Identity.{Identity, Crypto, public_id}
use nexum.Envelope.{Decision, Exchange, Offer, Release, Wire, hpke_suite, also, rekey_suite}
use nexum.Message.{verify_decision, verify_exchange}
use nexum.Message.Deciding.{Keys, identity_public}
use nexum.Message.Sealing.{
  Ciphers, encrypt, decrypt, text_aad, derive, key_context, hpke_info, release_for, signed_release,
}

-- `wrapRekey` of rekey_disabled.go
abbrev pub wrap_rekey : Identity → Offer → Decision → Bytes → Result Release
wrap_rekey i o d key = err invalid_message

module _ (std : Std) (crypto : Crypto) (w : Wire) (keys : Keys) (c : Ciphers) where
  -- The case of the HPKE suite; `seed` is what the sender draws.
  unfoldable pub wrap_hpke : Identity → Offer → Decision → Bytes → Option Bytes → Result Release
  wrap_hpke i o d key seed =
      if not (c.is_hpke_public o.terms.recipient.encryption)
      then err cipher_failed
      else required panicked (hpke_info std crypto w c o d) λ info.
        required cipher_failed (c.hpke_send o.terms.recipient.encryption info seed) λ sender.
          release_for std crypto w o d sender.0 λ r. required panicked (key_context w r) λ context.
            required cipher_failed (sender.1 key context)
              λ wrapped. signed_release std crypto w i o d (record r { wrapped_key = wrapped })

  -- The case of an offer without a suite.
  unfoldable pub wrap_legacy :
      Identity → Offer → Decision → Bytes → Option Bytes → Option Bytes → Result Release
  unfolding derive encrypt
  wrap_legacy i o d key ephemeral nonce = required io_error ephemeral λ e.
      release_for std crypto w o d (keys.encryption_public e) λ r.
        required panicked (key_context w r) λ context.
          bind (derive std crypto c e o.terms.recipient.encryption context) λ wrapping_key.
            bind (encrypt c wrapping_key key context nonce)
              λ wrapped. signed_release std crypto w i o d (record r { wrapped_key = wrapped })

  -- What is made once the key is known to open the offer.
  unfoldable pub wrap_opened :
      Identity → Offer → Decision → Bytes → Option Bytes → Option Bytes → Result Release
  unfolding wrap_hpke wrap_legacy
  wrap_opened i o d key ephemeral nonce =
      if o.terms.key_suite == rekey_suite
      then wrap_rekey i o d key
      else if o.terms.key_suite == hpke_suite
      then wrap_hpke i o d key ephemeral
      else wrap_legacy i o d key ephemeral nonce

  -- `WrapKey`, where `ephemeral` is the seed of the sender or the ephemeral key, and `nonce` that of the
  -- wrapped key.
  unfoldable pub wrap_key :
      Identity → Offer → Decision → Bytes → Option Bytes → Option Bytes → Result Release
  unfolding decrypt
  wrap_key i o d key ephemeral nonce = bind (identity_public std crypto w keys i) λ p.
      if not (public_id std crypto p == public_id std crypto o.terms.sender)
      then err message_party
      else guarded
          (also (verify_decision std crypto w d o) (
            if not (d.action == "agree") || not (nat_eq (length key) 32)
            then some invalid_message
            else none))
          (required panicked (text_aad c o.terms) λ aad.
            bind (decrypt c key o.ciphertext aad) λ text. wrap_opened i o d key ephemeral nonce)

  -- The cases of `Open`: the HPKE suite, and an offer without a suite.
  unfoldable pub open_hpke : Identity → Offer → Decision → Release → Result Bytes
  unfolding decrypt
  open_hpke i o d r =
      if not (c.is_hpke_private i.encryption)
      then err cipher_failed
      else required panicked (hpke_info std crypto w c o d) λ info.
        required cipher_failed (c.hpke_receive i.encryption info r.ephemeral) λ opener.
          required panicked (key_context w r) λ context.
            required cipher_failed (opener r.wrapped_key context)
              λ key. required panicked (text_aad c o.terms) λ aad. decrypt c key o.ciphertext aad

  unfoldable pub open_legacy : Identity → Offer → Release → Result Bytes
  unfolding derive decrypt
  open_legacy i o r =
      if not (crypto.is_private_key i.encryption)
      then err cipher_failed
      else required panicked (key_context w r) λ context.
        bind (derive std crypto c i.encryption r.ephemeral context) λ wrapping_key.
          bind (decrypt c wrapping_key r.wrapped_key context)
            λ key. required panicked (text_aad c o.terms) λ aad. decrypt c key o.ciphertext aad

  -- What is opened once the record has been checked. A release without a decision, which the check
  -- refuses, is a nil that is read.
  unfoldable pub open_released : Identity → Exchange → Release → Result Bytes
  unfolding open_hpke open_legacy
  open_released i x r =
      if x.offer.terms.key_suite == rekey_suite
      then err message_not_ready
      else if x.offer.terms.key_suite == hpke_suite
      then required panicked x.decision (λ d. open_hpke i x.offer d r)
      else open_legacy i x.offer r

  -- `Open`
  unfoldable pub open_text : Identity → Exchange → Result Bytes
  open_text i x = guarded (verify_exchange std crypto w x) (
      bind (identity_public std crypto w keys i) λ p.
        if not (public_id std crypto p == public_id std crypto x.offer.terms.recipient)
        then err message_party
        else required message_not_ready x.release (open_released i x))
