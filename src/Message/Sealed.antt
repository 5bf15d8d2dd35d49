-- ===== src/Message/Sealed.antt =====
-- internal/message/crypto.go: an offer that is sealed holds its text under the key answered beside it.
use nexum.Prelude.{◌≡◌, refl, subst, String, not, ◌||◌, length, if_rule, ltb}
use nexum.Errors.{Result, ok, err, panicked, io_error, required_cases, bind_cases}
use nexum.Std.{Std, Bytes, Time}
use nexum.Identity.{Public, Identity, Crypto, validate}
use nexum.Envelope.{Offer, Wire, max_text, refuses}
use nexum.Message.{verify_offer, offer_text}
use nexum.Message.Deciding.{Keys, identity_public}
use nexum.Message.Sealing
use nexum.Message.Sealing.{Ciphers, text_aad, key_context, hpke_info, SendOptions, Draws}
use nexum.Message.Opened.{Reliable, Sized, required_there, encrypt-ReadsBack, ReadsBack}
use nexum.Message.Reading.{guarded_rule, unsealed}

module _ (std : Std) (crypto : Crypto) (w : Wire) (keys : Keys) (c : Ciphers)
    (reliable : Reliable crypto keys c) where
  -- An offer to this recipient that holds the text under its key.
  abbrev pub Holds : Public → Bytes → Result (Offer × Bytes) → Type 0
  Holds recipient text (ok (o, key)) =
      (o.terms.recipient ≡ recipient) × (unsealed c o key ≡ ok text)
  Holds recipient text (err e) = Unit

  pub seal_with_options-Holds :
      (i : Identity) (recipient : Public) (text : Bytes) (invitation : String) (now expiry : Time)
      (options : SendOptions) (draws : Draws)
      → Sized c draws.nonce
      → Holds recipient text (
          Sealing.seal_with_options std crypto w keys c i recipient text invitation now expiry
            options draws)
  unfolding Sealing.seal_with_options
  seal_with_options-Holds i recipient text invitation now expiry options draws sized =
      let P = Holds recipient text in
      bind_cases P (identity_public std crypto w keys i) _ (λ e. tt)
        (λ p published.
          if_rule P
            (ltb max_text (length text)
              || not (c.valid_text text)
              || refuses (validate std crypto recipient))
            tt
            (required_cases P io_error draws.id _ tt (λ id drawn.
              required_cases P io_error draws.key _ tt (λ key fresh.
                let t =
                  Sealing.terms_for p recipient invitation now expiry options (w.encode_hex id) in
                required_cases P panicked (text_aad c t) _ tt (λ aad told.
                  bind_cases P (Sealing.encrypt c key text aad draws.nonce) _ (λ e. tt)
                    (λ content sealed.
                      let o = Sealing.offer_for t content in
                      required_cases P panicked (offer_text std crypto w o) _ tt
                        (λ signed_text encoded.
                          guarded_rule P
                            (verify_offer std crypto w
                              (record o { signature = crypto.ed25519_sign i.signing signed_text }))
                            (λ e. tt)
                            (λ good. (
                              refl,
                              required_there _ (text_aad c t) _ told (
                                  subst (ReadsBack crypto keys c reliable key text aad) sealed (
                                    encrypt-ReadsBack crypto keys c reliable key text aad
                                      draws.nonce sized)),
                            )))))))))
