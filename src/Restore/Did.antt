-- ===== src/Restore/Did.antt =====
-- What a command that has been carried out did to the contract, action by action.
use Prim.Native.String.{◌++◌ as ◌<>◌}
use nexum.Prelude.{◌≡◌, ◌⊎◌, refl, ◌∙◌, true, false, none, some, arith}
use nexum.Prelude.Int.{pos}
use nexum.Errors.{Outcome, done, ◌>>=◌}
use nexum.Std.{Std, Bytes, Time}
use nexum.Meter.{opened, locked, accepted, rejected, expired}
use nexum.Agreement
use nexum.Agreement.{Agreement}
use nexum.Room
use nexum.Room.{Entropy}
use nexum.Identity.{Command, Crypto, hash_bytes}
use nexum.Contract
use nexum.Contract.{Contract, on_agreement, head}
use nexum.Contract.Effects.{
  sealed_locks_it, rejected_returns, expired_returns, evidence_pays, consent_kept,
}
use nexum.Restore.Written.{Wrote, seal_lock-Wrote, expire-Wrote, reject-Wrote, note-Wrote}
use nexum.Restore.Settled.{Settled, settle-Settled}

module _ (std : Std) (crypto : Crypto) (c : Contract) (cmd : Command) (sig : Bytes) where
  pub data Did (d : Contract) : Type 0 where
    locked_it :
        cmd.action ≡ "lock"
        → c.agreement.status ≡ opened
        → d.agreement.status ≡ locked
        → d.agreed ≡ c.agreed
        → Wrote c.agreement d.agreement c.agreement.buyer "seal"
        → Did d
    agreed_it :
        cmd.action ≡ "agree"
        → c.agreement.status ≡ locked
        → c.agreed ≡ false
        → d.agreement.status ≡ locked
        → d.agreed ≡ true
        → (w : Wrote c.agreement d.agreement c.agreement.seller "evidence")
        → w.receipt.note ≡ "signed-consent:" <> hash_bytes std crypto sig
        → Did d
    settled_it :
        cmd.action ≡ "settle"
        → c.agreement.status ≡ locked
        → c.agreed ≡ true
        → d.agreement.status ≡ accepted
        → d.agreed ≡ c.agreed
        → Settled c.agreement d.agreement cmd.evidence
        → Did d
    rejected_it :
        cmd.action ≡ "reject"
        → c.agreement.status ≡ locked
        → d.agreement.status ≡ rejected
        → d.agreed ≡ c.agreed
        → Wrote c.agreement d.agreement c.agreement.seller "reject"
        → Did d
    expired_it :
        cmd.action ≡ "expire"
        → (c.agreement.status ≡ opened) ⊎ (c.agreement.status ≡ locked)
        → d.agreement.status ≡ expired
        → d.agreed ≡ c.agreed
        → Wrote c.agreement d.agreement c.agreement.buyer "expire"
        → Did d

  abbrev P : Outcome Contract → Type 0
  P r = r.0 ≡ none → Did r.1

  expire_was :
      (now : Time)
      → (Agreement.expire std c.agreement c.agreement.buyer now).0 ≡ none
      → (c.agreement.status ≡ opened) ⊎ (c.agreement.status ≡ locked)
  unfolding Agreement.expire
  expire_was now h = ground arith

  pub expire-Did :
      (now : Time)
      → cmd.action ≡ "expire"
      → P (on_agreement c (Agreement.expire std c.agreement c.agreement.buyer now))
  expire-Did now act h =
      let (after, gone, paid) = expired_returns std crypto c.agreement now h in
      expired_it act (expire_was now h) gone refl
        (expire-Wrote std c.agreement now c.agreement.buyer h)

  pub seal-Did :
      (rnd : Entropy) (now : Time)
      → cmd.action ≡ "lock"
      → c.agreement.status ≡ opened
      → P (
          on_agreement c (
            Room.apply std c.agreement
              (record { actor = c.agreement.buyer; action = "seal"; partial = c.agreement.amount })
              rnd
              now))
  unfolding Room.apply
  seal-Did rnd now act was h =
      locked_it act was (sealed_locks_it std crypto c.agreement rnd now h) refl
        (seal_lock-Wrote std c.agreement now c.agreement.buyer rnd.draws h)

  pub reject-Did :
      (rnd : Entropy) (now : Time)
      → cmd.action ≡ "reject"
      → P (
          on_agreement c (
            Room.apply std c.agreement
              (record { actor = c.agreement.seller; action = "reject"; partial = pos 0 })
              rnd
              now))
  unfolding Room.apply
  reject-Did rnd now act h =
      let (was, gone, paid) = rejected_returns std crypto c.agreement rnd now h in
      rejected_it act was gone refl (reject-Wrote std c.agreement now c.agreement.seller h)

  pub settle-Did :
      (rnd : Entropy) (now : Time)
      → cmd.action ≡ "settle"
      → c.agreement.status ≡ locked
      → c.agreed ≡ true
      → P (
          on_agreement c (
            Room.accept_with_evidence std c.agreement c.agreement.buyer c.agreement.seller
              cmd.evidence rnd.blinder now))
  settle-Did rnd now act was agreed h =
      let (gone, paid) = evidence_pays std crypto c.agreement cmd.evidence rnd.blinder now h in
      settled_it act was agreed gone refl
        (settle-Settled std c.agreement cmd.evidence rnd.blinder now h)

  pub consent-Did :
      (now : Time)
      → cmd.action ≡ "agree"
      → c.agreement.status ≡ locked
      → c.agreed ≡ false
      → P (Contract.record_consent std crypto c sig now)
  consent-Did now act was unasked h =
      let (same, agreed) = consent_kept std crypto c sig now h in
      unfold Contract.record_consent in
      noted
        (Agreement.note std c.agreement c.agreement.seller "evidence"
          ("signed-consent:" <> hash_bytes std crypto sig) now)
        (note-Wrote std c.agreement now c.agreement.seller
          ("signed-consent:" <> hash_bytes std crypto sig))
        h same
    where
      noted :
          (n : Outcome Agreement)
          → (n.0 ≡ none
              → (w : Wrote c.agreement n.1 c.agreement.seller "evidence") × (w.receipt.note
                  ≡ "signed-consent:" <> hash_bytes std crypto sig))
          → let r = on_agreement c n >>= λ c'. done (record c' { agreed = true }) in
            r.0 ≡ none → r.1.agreement.status ≡ c.agreement.status → Did r.1
      noted (some e, b) wrote h same = cc
      noted (none, b) wrote h same =
          let (w, text) = wrote refl in agreed_it act was unasked (same ∙ was) refl w text
