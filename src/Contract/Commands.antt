-- ===== src/Contract/Commands.antt =====
-- What a failed command leaves.
use nexum.Prelude.{◌≡◌, refl, ap, not, ◌||◌, some, ◌==◌, arith, if_rule}
use nexum.Prelude.Int.{pos}
use nexum.Errors.{Error, Outcome, check_cases}
use nexum.Std.{Std, Bytes, Time, before}
use nexum.Meter.{is_open, is_locked}
use nexum.Agreement
use nexum.Agreement.{Agreement}
use nexum.Room.{Entropy}
use nexum.Room.Ops.{Op, perform}
use nexum.Room.Frozen.{failed_call_unchanged}
use nexum.Identity.{Command, Crypto, verify}
use nexum.Contract
use nexum.Contract.{Contract, on_agreement, signer, head}

module _ (std : Std) (crypto : Crypto) where
  -- A result that is an error leaves the contract as it was.
  abbrev Unchanged : Contract → Outcome Contract → Type 0
  Unchanged c r = (e : Error) → r.0 ≡ some e → r.1 ≡ c

  call-Unchanged :
      (c : Contract) (op : Op) (now : Time)
      → Unchanged c (on_agreement c (perform std op now c.agreement))
  call-Unchanged c op now e h =
      ap (λ a. record c { agreement = a }) (failed_call_unchanged std op now c.agreement e h)

  consent-Unchanged :
      (c : Contract) (sig : Bytes) (now : Time)
      → Unchanged c (Contract.record_consent std crypto c sig now)
  unfolding Contract.record_consent Agreement.note
  consent-Unchanged c sig now e h = ground arith

  action-Unchanged :
      (c : Contract) (cmd : Command) (sig : Bytes) (rnd : Entropy) (now : Time)
      → Unchanged c (Contract.apply_action std crypto c cmd sig rnd now)
  unfolding Contract.apply_action
  action-Unchanged c cmd sig rnd now =
      let a = c.agreement in
      if_rule (Unchanged c) (cmd.action == "lock")
        (if_rule (Unchanged c) (not (is_open a.status)) (λ e h. refl)
          (unfold perform in
            call-Unchanged c
              (Op.apply (record { actor = a.buyer; action = "seal"; partial = a.amount }) rnd) now))
        (if_rule (Unchanged c) (cmd.action == "agree")
          (if_rule (Unchanged c) (not (is_locked a.status) || c.agreed) (λ e h. refl)
            (consent-Unchanged c sig now))
          (if_rule (Unchanged c) (cmd.action == "settle")
            (if_rule (Unchanged c) (not c.agreed || cmd.evidence == "" || not (is_locked a.status))
              (λ e h. refl)
              (unfold perform in
                call-Unchanged c (Op.accept_with_evidence a.buyer a.seller cmd.evidence rnd.blinder)
                  now))
            (if_rule (Unchanged c) (cmd.action == "reject")
              (unfold perform in
                call-Unchanged c
                  (Op.apply (record { actor = a.seller; action = "reject"; partial = pos 0 }) rnd)
                  now)
              (λ e h. refl))))

  -- A command that Apply refuses or fails to carry out leaves every field of the contract as it was:
  -- its agreement with the receipts and the sealed ledger, and the flag of consent.
  failed_command_unchanged :
      (c : Contract) (cmd : Command) (sig : Bytes) (rnd : Entropy) (now : Time) (e : Error)
      → (Contract.apply std crypto c cmd sig rnd now).0 ≡ some e
      → (Contract.apply std crypto c cmd sig rnd now).1 ≡ c
  unfolding Contract.apply Contract.apply_verified
  failed_command_unchanged c cmd sig rnd now =
      check_cases (Unchanged c) c (verify std crypto (signer c cmd.action) cmd sig) (λ e f h. refl)
        (λ signed.
          if_rule (Unchanged c) (not (cmd.terms == c.terms) || not (cmd.head == head c))
            (λ e h. refl)
            (if_rule (Unchanged c) (cmd.action == "expire")
              (unfold perform in call-Unchanged c (Op.expire c.agreement.buyer) now)
              (if_rule (Unchanged c)
                (before now c.agreement.created_at || not (before now c.agreement.deadline))
                (λ e h. refl) (action-Unchanged c cmd sig rnd now))))
