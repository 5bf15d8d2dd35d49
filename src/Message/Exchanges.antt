-- ===== src/Message/Exchanges.antt =====
-- A record of offer, decision and release, through any steps.
use nexum.Prelude.{
  ◌+◌, ◌≡◌, ◌⊎◌, inl, inr, refl, sym, ◌∙◌, subst, Bool, true, false, not, Option, none, some, List,
  [], ◌∷◌, arith, if_rule,
}
use nexum.Errors.{Outcome, check_cases, invalid_message}
use nexum.Std.{Std, Time, before}
use nexum.Identity.{Crypto}
use nexum.Message.Passing.{failure-ne-none, passes, passed_first, passed_rest}
use nexum.Envelope.{Offer, Decision, Release, Exchange, Wire, retried}
use nexum.Message.{
  verify_offer, verify_decision, verify_release, verify_exchange, apply_decision, apply_release,
}

-- A step that reaches a record.
pub data Step : Type 0 where
  decide : Decision → Time → Step
  give : Release → Step

module _ (std : Std) (crypto : Crypto) (w : Wire) where
  unfoldable pub take_step : Step → Exchange → Outcome Exchange
  unfolding apply_decision apply_release
  take_step (decide d now) x = apply_decision std crypto w x d now
  take_step (give r) x = apply_release std crypto w x r

  unfoldable pub take_steps : List Step → Exchange → Exchange
  unfolding take_step
  take_steps [] x = x
  take_steps (s ∷ rest) x = take_steps rest (take_step s x).1

  abbrev pub offered : Offer → Exchange
  offered o = record { offer = o; decision = none; release = none }

  -- The record after a step is the one before it, or has one link more, which has been verified.
  abbrev Grows : Exchange → Exchange → Type 0
  Grows x y =
      (y ≡ x)
      ⊎ (((d : Decision) × (x.decision ≡ none)
            × (verify_decision std crypto w d x.offer ≡ none)
            × (y ≡ record x { decision = some d }))
          ⊎ ((d : Decision) × (r : Release) × (x.decision ≡ some d)
              × (x.release ≡ none)
              × (verify_release std crypto w r x.offer d ≡ none)
              × (y ≡ record x { release = some r })))

  retried-Grows : (x : Exchange) (same : Option Bool) → Grows x (retried x same).1
  retried-Grows x none = inl refl
  retried-Grows x (some true) = inl refl
  retried-Grows x (some false) = inl refl

  abbrev pub linked : Offer → Option Decision → Option Release → Exchange
  linked o dec rel = record { offer = o; decision = dec; release = rel }

  decide-Grows :
      (d : Decision) (now : Time) (o : Offer) (dec : Option Decision) (rel : Option Release)
      → Grows (linked o dec rel) (take_step (decide d now) (linked o dec rel)).1
  unfolding take_step apply_decision
  decide-Grows d now o (some prior) rel =
      check_cases (λ (out : Outcome Exchange). Grows (linked o (some prior) rel) out.1)
        (linked o (some prior) rel) (verify_decision std crypto w d o) (λ e. inl refl)
        (λ verified. retried-Grows (linked o (some prior) rel) _)
  decide-Grows d now o none rel =
      let P : Outcome Exchange → Type 0 = λ out. Grows (linked o none rel) out.1 in
      check_cases P (linked o none rel) (verify_decision std crypto w d o) (λ e. inl refl)
        (λ verified. if_rule P (not (before now o.terms.expires_at)) (inl refl) (
          if_rule P (before (now + 60000000000) d.at) (inl refl)
            (inr (inl (d, refl, verified, refl)))))

  give-Grows :
      (r : Release) (o : Offer) (dec : Option Decision) (rel : Option Release)
      → Grows (linked o dec rel) (take_step (give r) (linked o dec rel)).1
  unfolding take_step apply_release
  give-Grows r o none rel = inl refl
  give-Grows r o (some d) (some prior) =
      check_cases (λ (out : Outcome Exchange). Grows (linked o (some d) (some prior)) out.1)
        (linked o (some d) (some prior)) (verify_release std crypto w r o d) (λ e. inl refl)
        (λ verified. retried-Grows (linked o (some d) (some prior)) _)
  give-Grows r o (some d) none =
      check_cases (λ (out : Outcome Exchange). Grows (linked o (some d) none) out.1)
        (linked o (some d) none) (verify_release std crypto w r o d) (λ e. inl refl)
        (λ verified. inr (inr (d, r, refl, refl, verified, refl)))

  step-Grows : (s : Step) (x : Exchange) → Grows x (take_step s x).1
  step-Grows (decide d now) x = decide-Grows d now x.offer x.decision x.release
  step-Grows (give r) x = give-Grows r x.offer x.decision x.release

  decided-verified :
      (o : Offer) (d : Decision) (rel : Option Release)
      → verify_decision std crypto w d o ≡ none
      → verify_exchange std crypto w (linked o none rel) ≡ none
      → verify_exchange std crypto w (linked o (some d) rel) ≡ none
  unfolding verify_exchange
  decided-verified o d none good h =
      passes (passed_first (verify_offer std crypto w o) _ h) (passes good refl)
  decided-verified o d (some r) good h =
      absurd (failure-ne-none invalid_message (passed_rest (verify_offer std crypto w o) h))

  released-verified :
      (o : Offer) (d : Decision) (r : Release)
      → verify_release std crypto w r o d ≡ none
      → verify_exchange std crypto w (linked o (some d) none) ≡ none
      → verify_exchange std crypto w (linked o (some d) (some r)) ≡ none
  unfolding verify_exchange
  released-verified o d r good h = passes (passed_first (verify_offer std crypto w o) _ h) (
      passes
        (passed_first (verify_decision std crypto w d o) _
          (passed_rest (verify_offer std crypto w o) h))
        good)

  grown-verified :
      (x y : Exchange)
      → Grows x y
      → verify_exchange std crypto w x ≡ none
      → verify_exchange std crypto w y ≡ none
  grown-verified x y (inl same) h = subst (λ z. verify_exchange std crypto w z ≡ none) (sym same) h
  grown-verified x y (inr (inl (d, undecided, good, grown))) h = rw grown (
      decided-verified x.offer d x.release good
        (subst (λ c. verify_exchange std crypto w (linked x.offer c x.release) ≡ none) undecided h))
  grown-verified x y (inr (inr (d, r, decided, unreleased, good, grown))) h =
      rw (grown, decided)
        (released-verified x.offer d r good (
          subst (λ c. verify_exchange std crypto w (linked x.offer c none) ≡ none) decided
            (subst (λ q. verify_exchange std crypto w (linked x.offer x.decision q) ≡ none)
              unreleased h)))

  steps-verified :
      (steps : List Step) (x : Exchange)
      → verify_exchange std crypto w x ≡ none
      → verify_exchange std crypto w (take_steps steps x) ≡ none
  unfolding take_steps
  steps-verified [] x h = h
  steps-verified (s ∷ rest) x h =
      steps-verified rest (take_step s x).1 (grown-verified x (take_step s x).1 (step-Grows s x) h)

  -- Every record verifies: from an offer that verifies, and after any decisions and releases at any times,
  -- forged and repeated ones included, Record.Verify accepts the record.
  pub exchange_verifies :
      (o : Offer) (steps : List Step)
      → verify_offer std crypto w o ≡ none
      → verify_exchange std crypto w (take_steps steps (offered o)) ≡ none
  exchange_verifies o steps h =
      steps-verified steps (offered o) (unfold verify_exchange in ground (arith, h))

  -- Which links of a record stand.
  pub record Kept (x y : Exchange) : Type 0 where
    pub offer : y.offer ≡ x.offer
    pub decision : (d : Decision) → x.decision ≡ some d → y.decision ≡ some d
    pub release : (r : Release) → x.release ≡ some r → y.release ≡ some r

  grown-Kept : (x y : Exchange) → Grows x y → Kept x y
  grown-Kept x y (inl same) =
      subst (Kept x) (sym same) (record { offer = refl; decision = λ d h. h; release = λ r h. h })
  grown-Kept x y (inr (inl (d, undecided, good, grown))) =
      subst (Kept x) (sym grown) (record { offer = refl; decision = λ c h. cc; release = λ r h. h })
  grown-Kept x y (inr (inr (d, r, decided, unreleased, good, grown))) =
      subst (Kept x) (sym grown) (record { offer = refl; decision = λ c h. h; release = λ q h. cc })

  -- The first decision and the first release of a record are its last: no steps change the offer, a
  -- decision that has been made, or a release that has been given.
  pub links-Kept : (steps : List Step) (x : Exchange) → Kept x (take_steps steps x)
  unfolding take_steps
  links-Kept [] x = record { offer = refl; decision = λ d h. h; release = λ r h. h }
  links-Kept (s ∷ rest) x =
      let first = grown-Kept x (take_step s x).1 (step-Grows s x) in
      let later = links-Kept rest (take_step s x).1 in
      record {
        offer = later.offer ∙ first.offer;
        decision = λ d h. later.decision d (first.decision d h);
        release = λ r h. later.release r (first.release r h);
      }
