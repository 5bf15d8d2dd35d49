-- ===== src/Restore/Sound.antt =====
-- nex/contract.go: a command leaves an agreement whose checkpoint restores.
use nexum.Prelude.{◌≡◌, sym, subst, ◌∙◌, not, ◌||◌, ◌==◌, Option, none, some, if_rule, true}
use nexum.Prelude.Int.{pos, ◌≤ℤ◌}
use nexum.Errors.{Outcome, done, ◌>>=◌, ok}
use nexum.Std.{Std, Bytes, Time, before}
use nexum.Meter.{is_open, is_locked}
use nexum.Agreement
use nexum.Agreement.{Agreement}
use nexum.Room
use nexum.Room.{Entropy}
use nexum.Room.Ops.{Op, perform}
use nexum.Room.Invariant.{IsValid, perform-IsValid}
use nexum.Room.History.{SameTerms}
use nexum.Checkpoint
use nexum.Checkpoint.Restored.{Restored}
use nexum.Checkpoint.RoundTrip.{LedgerFits, json_form, checkpoint_round_trip}
use nexum.Checkpoint.Kept.{Fits, expire-Fits, note-Fits, reject-Fits, seal_lock-Fits, accept-Fits}
use nexum.Identity.{Command, Crypto, hash_bytes}
use nexum.Contract
use nexum.Contract.{Contract, on_agreement, head}
use Prim.Native.String.{◌++◌ as ◌<>◌}

abbrev pub Sound : Std → Agreement → Type 0
Sound std a = IsValid std a × Fits a

module _ (std : Std) (crypto : Crypto) (c : Contract) (cmd : Command) (sig : Bytes) (rnd : Entropy)
    (now : Time) (sound : Sound std c.agreement) where
  abbrev SoundAfter : Outcome Contract → Type 0
  SoundAfter r = Sound std r.1.agreement

  performed :
      (op : Op)
      → Fits (perform std op now c.agreement).1
      → SoundAfter (on_agreement c (perform std op now c.agreement))
  performed op fits = (perform-IsValid std op now c.agreement sound.0, fits)

  consented : SoundAfter (Contract.record_consent std crypto c sig now)
  unfolding Contract.record_consent perform
  consented =
      let text = "signed-consent:" <> hash_bytes std crypto sig in
      noted (Agreement.note std c.agreement c.agreement.seller "evidence" text now) (
        performed (Op.note c.agreement.seller "evidence" text)
          (note-Fits std c.agreement sound.1 now c.agreement.seller "evidence" text))
    where
      noted :
          (n : Outcome Agreement)
          → SoundAfter (on_agreement c n)
          → SoundAfter (on_agreement c n >>= λ c'. done (record c' { agreed = true }))
      noted (some e, b) kept = kept
      noted (none, b) kept = kept

  evidence-Fits :
      Fits
        (Room.accept_with_evidence std c.agreement c.agreement.buyer c.agreement.seller cmd.evidence
          rnd.blinder now).1
  unfolding Room.accept_with_evidence Room.commit_copy
  evidence-Fits =
      noted (Agreement.note std c.agreement c.agreement.buyer "evidence" cmd.evidence now)
        (note-Fits std c.agreement sound.1 now c.agreement.buyer "evidence" cmd.evidence)
    where
      committed : (r : Outcome Agreement) → Fits r.1 → Fits (Room.commit_copy c.agreement r).1
      committed (some e, b) fits = sound.1
      committed (none, b) fits = fits

      noted :
          (n : Outcome Agreement)
          → Fits n.1
          → Fits
              (Room.commit_copy c.agreement
                (n >>= λ next. Room.accept std next c.agreement.seller rnd.blinder now)).1
      noted (some e, b) fits = sound.1
      noted (none, b) fits =
          committed (Room.accept std b c.agreement.seller rnd.blinder now)
            (accept-Fits std b fits now c.agreement.seller rnd.blinder)

  action-Sound : SoundAfter (Contract.apply_action std crypto c cmd sig rnd now)
  unfolding Contract.apply_action perform Room.apply
  action-Sound =
      let a = c.agreement in
      if_rule SoundAfter (cmd.action == "lock")
        (if_rule SoundAfter (not (is_open a.status)) sound (
          performed (Op.apply (record { actor = a.buyer; action = "seal"; partial = a.amount }) rnd)
            (seal_lock-Fits std a sound.1 now a.buyer a.amount rnd.draws)))
        (if_rule SoundAfter (cmd.action == "agree")
          (if_rule SoundAfter (not (is_locked a.status) || c.agreed) sound consented)
          (if_rule SoundAfter (cmd.action == "settle")
            (if_rule SoundAfter (not c.agreed || cmd.evidence == "" || not (is_locked a.status))
              sound
              (performed (Op.accept_with_evidence a.buyer a.seller cmd.evidence rnd.blinder)
                evidence-Fits))
            (if_rule SoundAfter (cmd.action == "reject")
              (performed
                (Op.apply (record { actor = a.seller; action = "reject"; partial = pos 0 }) rnd)
                (reject-Fits std a sound.1 now a.seller))
              sound)))

  pub verified-Sound : SoundAfter (Contract.apply_verified std crypto c cmd sig rnd now)
  unfolding Contract.apply_verified perform
  verified-Sound =
      if_rule SoundAfter (not (cmd.terms == c.terms) || not (cmd.head == head c)) sound (
        if_rule SoundAfter (cmd.action == "expire")
          (performed (Op.expire c.agreement.buyer)
            (expire-Fits std c.agreement sound.1 now c.agreement.buyer))
          (if_rule SoundAfter
            (before now c.agreement.created_at || not (before now c.agreement.deadline)) sound
            action-Sound))

-- The checkpoint of an agreement with the terms of one that was restored.
pub checkpoint_returns :
    (std : Std) (json_copy : Agreement → Option Agreement) (a b : Agreement)
    → Restored std a
    → SameTerms a b
    → Sound std b
    → json_copy b ≡ some (json_form b)
    → LedgerFits b b.sealed
    → Checkpoint.restore_private std json_copy (Checkpoint.private_checkpoint b) ≡ ok b
checkpoint_returns std json_copy a b was same sound copies held =
    checkpoint_round_trip std b sound.0 json_copy copies sound.1 held
      (λ e. was.named.0 (sym same.id ∙ e)) (λ e. was.named.1 (sym same.kind ∙ e))
      (subst (λ m. m.max_steps ≤ℤ pos 128) (sym same.meter) was.bounded)
