-- ===== src/Message/Retry.antt =====
-- A step that comes again.
use nexum.Prelude.{
  ◌+◌, ◌≡◌, ◌≢◌, refl, sym, ap, subst, String, Bool, true, false, not, Option, none, some, arith,
  eq_iff, ◌==◌, if◌then◌else◌,
}
use nexum.Errors.{
  Error, Outcome, done, fail, check, invalid_message, offer_expired, panicked, message_state,
}
use nexum.Std.{Std, Time, before}
use nexum.Identity.{Crypto}
use nexum.Envelope.{Offer, Decision, Release, Exchange, Wire, retried, equal_json, wire}
use nexum.Message.{apply_decision, apply_release, verify_decision, verify_release}
use nexum.Message.Passing.{failure-ne-none}
use nexum.Message.Exchanges.{Step, decide, give, take_step, linked}

failed_ne_done : {S : Type 0} (e : Error) (x y : S) → fail e x ≢ done y
failed_ne_done e x y h = failure-ne-none e (ap (λ p. p.0) h)

check-done :
    {S : Type 0} (s : S) (o : Option Error) (rest : Outcome S) {y : S}
    → check s o rest ≡ done y
    → (o ≡ none) × (rest ≡ done y)
check-done s none rest h = (refl, h)
check-done s (some e) rest {y} h = absurd (failed_ne_done e s y h)

retried-done : (x : Exchange) (same : Option Bool) {y : Exchange} → retried x same ≡ done y → y ≡ x
retried-done x none {y} h = absurd (failed_ne_done panicked x y h)
retried-done x (some true) h = sym (ap (λ p. p.1) h)
retried-done x (some false) {y} h = absurd (failed_ne_done message_state x y h)

timely_done :
    {S : Type 0} (late early : Bool) (x z : S) {y : S}
    → (if late then fail offer_expired x else if early then fail invalid_message x else done z)
      ≡ done y
    → y ≡ z
timely_done true early x z {y} h = absurd (failed_ne_done offer_expired x y h)
timely_done false true x z {y} h = absurd (failed_ne_done invalid_message x y h)
timely_done false false x z h = sym (ap (λ p. p.1) h)

retried_if : (x : Exchange) (same : Bool) → same ≡ true → retried x (some same) ≡ done x
retried_if x true h = refl
retried_if x false h = cc

text_eq_refl : (s : String) → (s == s) ≡ true
text_eq_refl s = ground (arith, eq_iff s s)

-- An exact copy is taken for one.
retried-same :
    (x : Exchange) (json : Option String) (text : String)
    → json ≡ some text
    → retried x (equal_json (wire "equal" json) (wire "equal" json)) ≡ done x
retried-same x json text h = rw h (retried_if x _ (text_eq_refl _))

module _ (std : Std) (crypto : Crypto) (w : Wire) where
  decide_again :
      (d : Decision) (now later : Time) (o : Offer) (dec : Option Decision) (rel : Option Release)
      (text : String) (y : Exchange)
      → w.marshal_decision d ≡ some text
      → take_step std crypto w (decide d now) (linked std crypto w o dec rel) ≡ done y
      → take_step std crypto w (decide d later) y ≡ done y
  unfolding take_step apply_decision
  decide_again d now later o (some prior) rel text y json h =
      let (good, same) = check-done (linked std crypto w o (some prior) rel) _ _ h in
      let is_x : y ≡ linked std crypto w o (some prior) rel = retried-done _ _ same in
      subst (λ z. take_step std crypto w (decide d later) z ≡ done z) (sym is_x)
        (subst
          (λ z.
            take_step std crypto w (decide d later) (linked std crypto w o (some prior) rel)
            ≡ done z)
          is_x h)
  decide_again d now later o none rel text y json h =
      let (good, made) =
        check-done (linked std crypto w o none rel) (verify_decision std crypto w d o) _ h in
      let is_made : y ≡ linked std crypto w o (some d) rel =
        timely_done (not (before now o.terms.expires_at)) (before (now + 60000000000) d.at) _ _
          made in
      subst (λ z. take_step std crypto w (decide d later) z ≡ done z) (sym is_made)
        (rw good
          (retried-same (linked std crypto w o (some d) rel) (w.marshal_decision d) text json))

  give_again :
      (r : Release) (o : Offer) (dec : Option Decision) (rel : Option Release) (text : String)
      (y : Exchange)
      → w.marshal_release r ≡ some text
      → take_step std crypto w (give r) (linked std crypto w o dec rel) ≡ done y
      → take_step std crypto w (give r) y ≡ done y
  unfolding take_step apply_release
  give_again r o none rel text y json h = absurd (failed_ne_done message_state _ y h)
  give_again r o (some d) (some prior) text y json h =
      let (good, same) = check-done (linked std crypto w o (some d) (some prior)) _ _ h in
      let is_x : y ≡ linked std crypto w o (some d) (some prior) = retried-done _ _ same in
      subst (λ z. take_step std crypto w (give r) z ≡ done z) (sym is_x)
        (subst
          (λ z.
            take_step std crypto w (give r) (linked std crypto w o (some d) (some prior)) ≡ done z)
          is_x h)
  give_again r o (some d) none text y json h =
      let (good, made) =
        check-done (linked std crypto w o (some d) none) (verify_release std crypto w r o d)
          (done (linked std crypto w o (some d) (some r))) h in
      let is_made : y ≡ linked std crypto w o (some d) (some r) = sym (ap (λ p. p.1) made) in
      subst (λ z. take_step std crypto w (give r) z ≡ done z) (sym is_made)
        (rw good
          (retried-same (linked std crypto w o (some d) (some r)) (w.marshal_release r) text json))

  -- The same decision or release, which may come at another time.
  abbrev pub Again : Step → Step → Type 0
  Again (decide d now) (decide c later) =
      (c ≡ d) × ((text : String) × (w.marshal_decision d ≡ some text))
  Again (give r) (give q) = (q ≡ r) × ((text : String) × (w.marshal_release r ≡ some text))
  Again _ _ = ⊥

  -- An exact retry is safe: where a decision or a release that json.Marshal encodes has been taken without
  -- an error, the same one, at any later or earlier time and also after the offer has expired, is no
  -- error and leaves the record as it is.
  pub exact_retry :
      (s t : Step) (x y : Exchange)
      → Again s t
      → take_step std crypto w s x ≡ done y
      → take_step std crypto w t y ≡ done y
  exact_retry (decide d now) (decide c later) x y (same, (text, json)) h =
      subst (λ (e : Decision). take_step std crypto w (decide e later) y ≡ done y) (sym same)
        (decide_again d now later x.offer x.decision x.release text y json h)
  exact_retry (give r) (give q) x y (same, (text, json)) h =
      subst (λ (e : Release). take_step std crypto w (give e) y ≡ done y) (sym same)
        (give_again r x.offer x.decision x.release text y json h)
  exact_retry (decide d now) (give q) x y again h = absurd again
  exact_retry (give r) (decide c later) x y again h = absurd again
