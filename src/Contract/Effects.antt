-- ===== src/Contract/Effects.antt =====
-- What the success of a command takes, and what it leaves.
use nexum.Prelude.{
  ℕ, String, ◌≡◌, ◌≢◌, ◌⊎◌, inr, true, false, not, ◌||◌, Option, none, ◌≤◌, ◌<◌, ◌==◌, arith,
  if_cases, if◌then◌else◌, eq_iff,
}
use nexum.Prelude.Int.{pos}
use nexum.Errors.{Outcome, fail, outside_window, check_cases}
use nexum.Std.{Std, Bytes, Time, before}
use nexum.Meter.{opened, locked, accepted, rejected, expired}
use nexum.Agreement
use nexum.Agreement.{Agreement}
use nexum.Room
use nexum.Room.{Entropy}
use nexum.Room.Custody.{note-same}
use nexum.Identity.{Command, Crypto, verify}
use nexum.Contract
use nexum.Contract.{Contract, on_agreement, signer, head}

module _ (std : Std) (crypto : Crypto) where
  pub sealed_locks_it :
      (a : Agreement) (rnd : Entropy) (now : Time)
      → let r =
          Room.apply std a
            (record { actor = a.buyer; action = "seal"; partial = a.amount })
            rnd
            now in
        r.0 ≡ none → r.1.status ≡ locked
  unfolding Room.apply Room.seal_lock Room.seal_with Room.seal_commit
  sealed_locks_it a rnd now h = ground arith

  pub rejected_returns :
      (a : Agreement) (rnd : Entropy) (now : Time)
      → let r =
          Room.apply std a
            (record { actor = a.seller; action = "reject"; partial = pos 0 })
            rnd
            now in
        r.0 ≡ none → (a.status ≡ locked) × (r.1.status ≡ rejected) × (r.1.released_to ≡ a.buyer)
  unfolding Room.apply Room.reject Room.reject_plain Room.reject_sealed
  rejected_returns a rnd now h = ground arith

  pub expired_returns :
      (a : Agreement) (now : Time)
      → let r = Agreement.expire std a a.buyer now in
        r.0 ≡ none → (a.deadline ≤ now) × (r.1.status ≡ expired) × (r.1.released_to ≡ a.buyer)
  unfolding Agreement.expire
  expired_returns a now h = ground arith

  accepted_pays :
      (a : Agreement) (blinder : Option ℕ) (now : Time)
      → let r = Room.accept std a a.seller blinder now in
        r.0 ≡ none → (r.1.status ≡ accepted) × (r.1.released_to ≡ a.seller)
  unfolding Room.accept Room.accept_plain Room.accept_sealed Room.settle_proven
  accepted_pays a blinder now h = ground arith

  pub evidence_pays :
      (a : Agreement) (citation : String) (blinder : Option ℕ) (now : Time)
      → let r = Room.accept_with_evidence std a a.buyer a.seller citation blinder now in
        r.0 ≡ none → (r.1.status ≡ accepted) × (r.1.released_to ≡ a.seller)
  unfolding Room.accept_with_evidence
  evidence_pays a citation blinder now h =
      let next = (Agreement.note std a a.buyer "evidence" citation now).1 in
      let same : next.seller ≡ a.seller = (note-same std a now a.buyer "evidence" citation).1 in
      let pays = accepted_pays next blinder now in ground (arith, same, pays)

  pub consent_kept :
      (c : Contract) (sig : Bytes) (now : Time)
      → let r = Contract.record_consent std crypto c sig now in
        r.0 ≡ none → (r.1.agreement.status ≡ c.agreement.status) × (r.1.agreed ≡ true)
  unfolding Contract.record_consent Agreement.note
  consent_kept c sig now h = ground arith

  -- What each action takes of the contract `c` inside the time window, and leaves in `d`.
  abbrev pub Effect : Contract → Command → Contract → Type 0
  Effect c cmd d =
      ((cmd.action ≡ "lock") × (c.agreement.status ≡ opened) × (d.agreement.status ≡ locked))
      ⊎ ((cmd.action ≡ "agree")
          × (c.agreement.status ≡ locked)
          × (c.agreed ≡ false)
          × (d.agreement.status ≡ locked)
          × (d.agreed ≡ true))
      ⊎ ((cmd.action ≡ "settle")
          × (c.agreement.status ≡ locked)
          × (c.agreed ≡ true)
          × (cmd.evidence ≢ "")
          × (d.agreement.status ≡ accepted)
          × (d.agreement.released_to ≡ c.agreement.seller))
      ⊎ ((cmd.action ≡ "reject")
          × (c.agreement.status ≡ locked)
          × (d.agreement.status ≡ rejected)
          × (d.agreement.released_to ≡ c.agreement.buyer))

  abbrev pub Expiry : Contract → Command → Time → Contract → Type 0
  Expiry c cmd now d =
      (cmd.action ≡ "expire")
      × (c.agreement.deadline ≤ now)
      × (d.agreement.status ≡ expired)
      × (d.agreement.released_to ≡ c.agreement.buyer)

  action-Effect :
      (c : Contract) (cmd : Command) (sig : Bytes) (rnd : Entropy) (now : Time)
      → (Contract.apply_action std crypto c cmd sig rnd now).0 ≡ none
      → Effect c cmd (Contract.apply_action std crypto c cmd sig rnd now).1
  unfolding Contract.apply_action
  action-Effect c cmd sig rnd now h =
      let a = c.agreement in
      ground (
        arith,
        sealed_locks_it a rnd now,
        rejected_returns a rnd now,
        evidence_pays a cmd.evidence rnd.blinder now,
        consent_kept c sig now,
        eq_iff cmd.action "lock",
        eq_iff cmd.action "agree",
        eq_iff cmd.action "settle",
        eq_iff cmd.action "reject",
        eq_iff cmd.evidence "",
      )

  abbrev Carried : Contract → Command → Time → Outcome Contract → Type 0
  Carried c cmd now r =
      r.0 ≡ none
      → (Expiry c cmd now r.1
          ⊎ ((c.agreement.created_at ≤ now) × (now < c.agreement.deadline) × Effect c cmd r.1))

  verified-Carried :
      (c : Contract) (cmd : Command) (sig : Bytes) (rnd : Entropy) (now : Time)
      → Carried c cmd now (
          if cmd.action == "expire"
          then on_agreement c (Agreement.expire std c.agreement c.agreement.buyer now)
          else if before now c.agreement.created_at || not (before now c.agreement.deadline)
          then fail outside_window c
          else Contract.apply_action std crypto c cmd sig rnd now)
  verified-Carried c cmd sig rnd now =
      if_cases (Carried c cmd now) (cmd.action == "expire")
        (λ b h. ground (arith, expired_returns c.agreement now, eq_iff cmd.action "expire"))
        (λ b.
          if_cases (Carried c cmd now)
            (before now c.agreement.created_at || not (before now c.agreement.deadline)) (λ w h. cc)
            (λ w h. inr (ground arith, ground arith, action-Effect c cmd sig rnd now h)))

  -- A command that Apply carries out is signed by the party that its action belongs to (`agree` and
  -- `reject` by the seller, any other by the buyer), names this contract's terms and its current
  -- receipt head, and is one of five. `expire` comes at or after the deadline and returns the value to the
  -- buyer. The others come inside the time window: `lock` locks an open agreement, `agree` consents
  -- once to a locked one, `settle` takes the consent and evidence and pays the seller, `reject`
  -- returns the value of a locked one to the buyer.
  pub carried_command :
      (c : Contract) (cmd : Command) (sig : Bytes) (rnd : Entropy) (now : Time)
      → (Contract.apply std crypto c cmd sig rnd now).0 ≡ none
      → let d = (Contract.apply std crypto c cmd sig rnd now).1 in
        (verify std crypto (signer c cmd.action) cmd sig ≡ none)
        × (cmd.terms ≡ c.terms)
        × (cmd.head ≡ head c)
        × (Expiry c cmd now d
            ⊎ ((c.agreement.created_at ≤ now) × (now < c.agreement.deadline) × Effect c cmd d))
  unfolding Contract.apply Contract.apply_verified
  carried_command c cmd sig rnd now =
      check_cases Whole c (verify std crypto (signer c cmd.action) cmd sig) (λ e h. cc)
        (λ signed.
          if_cases Whole (not (cmd.terms == c.terms) || not (cmd.head == head c)) (λ g h. cc)
            (λ g h. (
              signed,
              ground (arith, eq_iff cmd.terms c.terms),
              ground (arith, eq_iff cmd.head (head c)),
              verified-Carried c cmd sig rnd now h,
            )))
    where
      Whole : Outcome Contract → Type 0
      Whole r =
          r.0 ≡ none
          → (verify std crypto (signer c cmd.action) cmd sig ≡ none)
            × (cmd.terms ≡ c.terms)
            × (cmd.head ≡ head c)
            × (Expiry c cmd now r.1
                ⊎ ((c.agreement.created_at ≤ now)
                    × (now < c.agreement.deadline)
                    × Effect c cmd r.1))
