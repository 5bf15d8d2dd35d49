-- ===== src/Restore/Carried.antt =====
-- `applyVerified`: what it did, and what it leaves alone.
use Prim.Native.String.{◌++◌ as ◌<>◌}
use nexum.Prelude.{
  ◌≡◌, refl, true, false, not, ◌||◌, none, some, ◌==◌, arith, if_cases, if_rule, eq_iff, ◌∙◌,
}
use nexum.Prelude.Int.{pos}
use nexum.Errors.{Outcome, done, ◌>>=◌}
use nexum.Std.{Std, Bytes, Time, before}
use nexum.Meter.{Status, opened, locked, is_open, is_locked}
use nexum.Agreement
use nexum.Agreement.{Agreement}
use nexum.Room.{Entropy}
use nexum.Room.Ops.{Op, perform, unit_after}
use nexum.Room.History.{SameTerms, perform-Extends}
use nexum.Identity.{Command, Crypto, hash_bytes}
use nexum.Contract
use nexum.Contract.{Contract, on_agreement, head}
use nexum.Restore.Did.{Did, expire-Did, seal-Did, reject-Did, settle-Did, consent-Did}

-- The contract is another one in its agreement and its consent only, and the agreement keeps its terms.
pub record Frames (c d : Contract) : Type 0 where
  pub frame : d ≡ record c { agreement = d.agreement; agreed = d.agreed }
  pub terms : SameTerms c.agreement d.agreement

was_open : (s : Status) → not (is_open s) ≡ false → s ≡ opened
was_open s h = ground arith

was_locked : (s : Status) → not (is_locked s) ≡ false → s ≡ locked
was_locked s h = ground arith

module _ (std : Std) (crypto : Crypto) (c : Contract) (cmd : Command) (sig : Bytes) (rnd : Entropy)
    (now : Time) where
  abbrev DidWell : Outcome Contract → Type 0
  DidWell r = r.0 ≡ none → Did std crypto c cmd sig r.1

  action-Did : DidWell (Contract.apply_action std crypto c cmd sig rnd now)
  unfolding Contract.apply_action
  action-Did =
      let a = c.agreement in
      if_cases DidWell (cmd.action == "lock")
        (λ is.
          if_cases DidWell (not (is_open a.status)) (λ g h. cc)
            (λ g.
              seal-Did std crypto c cmd sig rnd now ((eq_iff cmd.action "lock").0 is)
                (was_open a.status g)))
        (λ n.
          if_cases DidWell (cmd.action == "agree")
            (λ is.
              if_cases DidWell (not (is_locked a.status) || c.agreed) (λ g h. cc)
                (λ g.
                  consent-Did std crypto c cmd sig now ((eq_iff cmd.action "agree").0 is)
                    (was_locked a.status (ground arith)) (ground arith)))
            (λ n.
              if_cases DidWell (cmd.action == "settle")
                (λ is.
                  if_cases DidWell (not c.agreed || cmd.evidence == "" || not (is_locked a.status))
                    (λ g h. cc)
                    (λ g.
                      settle-Did std crypto c cmd sig rnd now ((eq_iff cmd.action "settle").0 is)
                        (was_locked a.status (ground arith)) (ground arith)))
                (λ n.
                  if_cases DidWell (cmd.action == "reject")
                    (λ is.
                      reject-Did std crypto c cmd sig rnd now ((eq_iff cmd.action "reject").0 is))
                    (λ n h. cc))))

  pub verified-Did : DidWell (Contract.apply_verified std crypto c cmd sig rnd now)
  unfolding Contract.apply_verified
  verified-Did =
      if_rule DidWell (not (cmd.terms == c.terms) || not (cmd.head == head c)) (λ h. cc)
        (if_cases DidWell (cmd.action == "expire")
          (λ is. expire-Did std crypto c cmd sig now ((eq_iff cmd.action "expire").0 is))
          (λ n.
            if_rule DidWell
              (before now c.agreement.created_at || not (before now c.agreement.deadline)) (λ h. cc)
              action-Did))

  abbrev Framed : Outcome Contract → Type 0
  Framed r = Frames c r.1

  same : Frames c c
  same = record {
    frame = refl;
    terms = record {
      id = refl;
      kind = refl;
      buyer = refl;
      seller = refl;
      amount = refl;
      unit = refl;
      meter = refl;
      created_at = refl;
    };
  }

  -- A call that leaves the unit.
  performed :
      (op : Op)
      → unit_after op c.agreement.unit ≡ c.agreement.unit
      → Framed (on_agreement c (perform std op now c.agreement))
  performed op same_unit =
      let kept = (perform-Extends std op now c.agreement).terms in
      record {
        frame = refl;
        terms = record {
          id = kept.id;
          kind = kept.kind;
          buyer = kept.buyer;
          seller = kept.seller;
          amount = kept.amount;
          unit = kept.unit ∙ same_unit;
          meter = kept.meter;
          created_at = kept.created_at;
        };
      }

  consented : Framed (Contract.record_consent std crypto c sig now)
  unfolding Contract.record_consent
  consented =
      let text = "signed-consent:" <> hash_bytes std crypto sig in
      noted (Agreement.note std c.agreement c.agreement.seller "evidence" text now)
        (unfold perform in (performed (Op.note c.agreement.seller "evidence" text) refl))
    where
      noted :
          (n : Outcome Agreement)
          → Framed (on_agreement c n)
          → Framed (on_agreement c n >>= λ c'. done (record c' { agreed = true }))
      noted (some e, b) framed = framed
      noted (none, b) framed = record { frame = refl; terms = framed.terms }

  action-Frames : Framed (Contract.apply_action std crypto c cmd sig rnd now)
  unfolding Contract.apply_action
  action-Frames =
      let a = c.agreement in
      if_rule Framed (cmd.action == "lock")
        (if_rule Framed (not (is_open a.status)) same (
          unfold perform in
          performed (Op.apply (record { actor = a.buyer; action = "seal"; partial = a.amount }) rnd)
            refl))
        (if_rule Framed (cmd.action == "agree")
          (if_rule Framed (not (is_locked a.status) || c.agreed) same consented)
          (if_rule Framed (cmd.action == "settle")
            (if_rule Framed (not c.agreed || cmd.evidence == "" || not (is_locked a.status)) same (
              unfold perform in
              performed (Op.accept_with_evidence a.buyer a.seller cmd.evidence rnd.blinder) refl))
            (if_rule Framed (cmd.action == "reject")
              (unfold perform in
                performed
                  (Op.apply (record { actor = a.seller; action = "reject"; partial = pos 0 }) rnd)
                  refl)
              same)))

  pub verified-Frames : Framed (Contract.apply_verified std crypto c cmd sig rnd now)
  unfolding Contract.apply_verified
  verified-Frames = if_rule Framed (not (cmd.terms == c.terms) || not (cmd.head == head c)) same (
      if_rule Framed (cmd.action == "expire")
        (unfold perform in performed (Op.expire c.agreement.buyer) refl)
        (if_rule Framed (before now c.agreement.created_at || not (before now c.agreement.deadline))
          same action-Frames))

  abbrev Headed : Outcome Contract → Type 0
  Headed r = r.0 ≡ none → cmd.head ≡ head c

  -- A command that is carried out names the head of the contract.
  pub verified_head :
      (Contract.apply_verified std crypto c cmd sig rnd now).0 ≡ none → cmd.head ≡ head c
  unfolding Contract.apply_verified
  verified_head =
      if_cases Headed (not (cmd.terms == c.terms) || not (cmd.head == head c)) (λ g h. cc)
        (λ g h. named g)
    where
      named : (not (cmd.terms == c.terms) || not (cmd.head == head c)) ≡ false → cmd.head ≡ head c
      named g = ground (arith, eq_iff cmd.head (head c))
