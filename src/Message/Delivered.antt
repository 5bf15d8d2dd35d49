-- ===== src/Message/Delivered.antt =====
-- internal/message/crypto.go: a wrapped key opens the message for its recipient.
use nexum.Prelude.{
  ◌≡◌, refl, ap, ◌∙◌, sym, subst, String, true, false, not, ◌==◌, Option, some, if_cases, if_rule,
}
use nexum.Errors.{ok, panicked, io_error, cipher_failed, required_cases, bind_cases}
use nexum.Std.{Std, Bytes, Time}
use nexum.Identity.{Public, Identity, Crypto, public_id}
use nexum.Envelope.{Decision, Offer, Release, Wire, also, hpke_suite, rekey_suite}
use nexum.Message.{decision_hash, offer_hash, verify_decision}
use nexum.Message.Deciding.{Keys, identity_public}
use nexum.Message.Sealing
use nexum.Message.Sealing.{Ciphers, text_aad, key_context, hpke_info, SendOptions, Draws}
use nexum.Message.Opening
use nexum.Message.Opened.{
  Reliable, Sized, required_there, test_passed, encrypt-ReadsBack, ReadsBack, bind_there,
  test_taken,
}
use nexum.Message.Reading.{
  guarded_rule, Halves, identity_public-Halves, release_verifies, signed_release_rule, made_release,
  Shares, derive-Shares, Opens, open_reaches,
}
use nexum.Message.Sealed.{Holds, seal_with_options-Holds}

module _ (std : Std) (crypto : Crypto) (w : Wire) (keys : Keys) (c : Ciphers)
    (reliable : Reliable crypto keys c) where
  module _ (j : Identity) (o : Offer) (d : Decision) (key : Bytes)
      (known : identity_public std crypto w keys j ≡ ok o.terms.recipient) where
    halves :
        (o.terms.recipient.encryption ≡ keys.encryption_public j.encryption)
        × (crypto.is_private_key j.encryption ≡ true)
    halves = subst (Halves std crypto w keys j) known (identity_public-Halves std crypto w keys j)

    wrap_hpke-Opens :
        (i : Identity) (seed : Option Bytes)
        → (o.terms.key_suite == rekey_suite) ≡ false
        → (o.terms.key_suite == hpke_suite) ≡ true
        → Opens std crypto w keys c j o d key (Opening.wrap_hpke std crypto w keys c i o d key seed)
    unfolding Opening.wrap_hpke Opening.open_hpke Opening.open_released
    wrap_hpke-Opens i seed other suite =
        if_rule (Opens std crypto w keys c j o d key)
          (not (c.is_hpke_public o.terms.recipient.encryption)) tt
          (required_cases (Opens std crypto w keys c j o d key) panicked
            (hpke_info std crypto w c o d) _ tt
            (λ info bound.
              required_cases (Opens std crypto w keys c j o d key) cipher_failed
                (c.hpke_send o.terms.recipient.encryption info seed) _ tt
                (λ sender sent.
                  required_cases (Opens std crypto w keys c j o d key) panicked
                    (offer_hash std crypto w o) _ tt
                    (λ oh hashed.
                      required_cases (Opens std crypto w keys c j o d key) panicked
                        (decision_hash std crypto w d) _ tt
                        (λ dh named.
                          let r = made_release std crypto w keys c oh dh sender.0 in
                          required_cases (Opens std crypto w keys c j o d key) panicked
                            (key_context w r) _ tt
                            (λ context told.
                              required_cases (Opens std crypto w keys c j o d key) cipher_failed
                                (sender.1 key context) _ tt
                                (λ wrapped sealed.
                                  signed_release_rule std crypto w keys
                                    (Opens std crypto w keys c j o d key) i o d
                                    (record r { wrapped_key = wrapped }) (λ e. tt)
                                    (λ signature good.
                                      let signed : Release = record r {
                                        wrapped_key = wrapped;
                                        signature = signature;
                                      } in
                                      let (opener, received, opens) =
                                        reliable.hpke_opens j.encryption info seed sender.0 sender.1
                                          halves.1
                                          (ap (λ k. c.hpke_send k info seed) (sym halves.0)
                                            ∙ sent) in
                                      open_reaches std crypto w keys c j o d signed known
                                        (release_verifies std crypto w keys signed o d good).1
                                      ∙ test_passed (o.terms.key_suite == rekey_suite) _ other (
                                          test_taken (o.terms.key_suite == hpke_suite) _ suite (
                                            test_passed (not (c.is_hpke_private j.encryption)) _
                                              (ap not (reliable.hpke_private j.encryption halves.1))
                                              (required_there _ (hpke_info std crypto w c o d) _
                                                bound
                                                (required_there _
                                                  (c.hpke_receive j.encryption info sender.0) _
                                                  received
                                                  (required_there _ (key_context w r) _ told (
                                                    required_there _ (opener wrapped context) _
                                                      (opens key context wrapped sealed)
                                                      refl))))))))))))))

    wrap_legacy-Opens :
        (i : Identity) (ephemeral nonce : Option Bytes)
        → Sized c nonce
        → (o.terms.key_suite == rekey_suite) ≡ false
        → (o.terms.key_suite == hpke_suite) ≡ false
        → Opens std crypto w keys c j o d key
            (Opening.wrap_legacy std crypto w keys c i o d key ephemeral nonce)
    unfolding Opening.wrap_legacy Opening.open_legacy Opening.open_released
    wrap_legacy-Opens i ephemeral nonce sized other suite =
        required_cases (Opens std crypto w keys c j o d key) io_error ephemeral _ tt (λ e drawn.
          required_cases (Opens std crypto w keys c j o d key) panicked (offer_hash std crypto w o)
            _ tt
            (λ oh hashed.
              required_cases (Opens std crypto w keys c j o d key) panicked
                (decision_hash std crypto w d) _ tt
                (λ dh named.
                  let r = made_release std crypto w keys c oh dh (keys.encryption_public e) in
                  required_cases (Opens std crypto w keys c j o d key) panicked (key_context w r) _
                    tt
                    (λ context told.
                      bind_cases (Opens std crypto w keys c j o d key)
                        (Sealing.derive std crypto c e o.terms.recipient.encryption context) _
                        (λ f. tt)
                        (λ wrapping derived.
                          bind_cases (Opens std crypto w keys c j o d key)
                            (Sealing.encrypt c wrapping key context nonce) _ (λ f. tt)
                            (λ wrapped sealed.
                              signed_release_rule std crypto w keys
                                (Opens std crypto w keys c j o d key) i o d
                                (record r { wrapped_key = wrapped }) (λ f. tt)
                                (λ signature good.
                                  let signed : Release = record r {
                                    wrapped_key = wrapped;
                                    signature = signature;
                                  } in
                                  let (wide, verifies) =
                                    release_verifies std crypto w keys signed o d good in
                                  let shared =
                                    subst (Shares std crypto w keys c e j.encryption context)
                                      (ap (λ k. Sealing.derive std crypto c e k context)
                                          (sym halves.0)
                                        ∙ derived)
                                      (derive-Shares std crypto w keys c reliable e j.encryption
                                        context halves.1) in
                                  let back =
                                    subst (ReadsBack crypto keys c reliable wrapping key context)
                                      sealed
                                      (encrypt-ReadsBack crypto keys c reliable wrapping key context
                                        nonce sized) in
                                  open_reaches std crypto w keys c j o d signed known verifies
                                  ∙ test_passed (o.terms.key_suite == rekey_suite) _ other (
                                      test_passed (o.terms.key_suite == hpke_suite) _ suite (
                                        test_passed (not (crypto.is_private_key j.encryption)) _
                                          (ap not halves.1)
                                          (required_there _ (key_context w r) _ told (
                                            bind_there
                                              (Sealing.derive std crypto c j.encryption
                                                (keys.encryption_public e) context)
                                              _ (shared wide)
                                              (bind_there
                                                (Sealing.decrypt c wrapping wrapped context) _ back
                                                refl))))))))))))

    wrap_key-Opens :
        (i : Identity) (ephemeral nonce : Option Bytes)
        → Sized c nonce
        → Opens std crypto w keys c j o d key
            (Opening.wrap_key std crypto w keys c i o d key ephemeral nonce)
    unfolding Opening.wrap_key Opening.wrap_opened
    wrap_key-Opens i ephemeral nonce sized =
        let P = Opens std crypto w keys c j o d key in
        bind_cases P (identity_public std crypto w keys i) _ (λ e. tt)
          (λ p published.
            if_rule P (not (public_id std crypto p == public_id std crypto o.terms.sender)) tt (
              guarded_rule P (also (verify_decision std crypto w d o) _) (λ e. tt)
                (λ passed. required_cases P panicked (text_aad c o.terms) _ tt (λ aad told.
                  bind_cases P (Sealing.decrypt c key o.ciphertext aad) _ (λ e. tt)
                    (λ text opened.
                      if_cases P (o.terms.key_suite == rekey_suite) (λ rekeys. tt)
                        (λ other.
                          if_cases P (o.terms.key_suite == hpke_suite)
                            (wrap_hpke-Opens i ephemeral other)
                            (wrap_legacy-Opens i ephemeral nonce sized other)))))))

  -- A message that is sealed and released is opened by its recipient. Where the ciphers open what they
  -- sealed and the nonces drawn have their size, `SealWithOptions` answers an offer and its key, and
  -- `WrapKey` a release of that key against a decision, the identity of the recipient opens the record of
  -- the three, under either suite, and reads the text.
  pub sealed_text_opens :
      (i j : Identity) (recipient : Public) (text : Bytes) (invitation : String) (now expiry : Time)
      (options : SendOptions) (draws : Draws) (o : Offer) (key : Bytes) (d : Decision)
      (ephemeral nonce : Option Bytes) (r : Release)
      → Sealing.seal_with_options std crypto w keys c i recipient text invitation now expiry options
          draws
        ≡ ok (o, key)
      → Opening.wrap_key std crypto w keys c i o d key ephemeral nonce ≡ ok r
      → identity_public std crypto w keys j ≡ ok recipient
      → Sized c draws.nonce
      → Sized c nonce
      → Opening.open_text std crypto w keys c j
          (record { offer = o; decision = some d; release = some r })
        ≡ ok text
  sealed_text_opens i j recipient text invitation now expiry options draws o key d ephemeral nonce r
        sealed wrapped known sized fits =
      let (addressed, holds) = subst (Holds std crypto w keys c reliable recipient text) sealed (
        seal_with_options-Holds std crypto w keys c reliable i recipient text invitation now expiry
          options draws sized) in
      subst (Opens std crypto w keys c j o d key) wrapped
        (wrap_key-Opens j o d key (known ∙ ap ok (sym addressed)) i ephemeral nonce fits)
      ∙ holds
