-- ===== src/Contract/Opening.antt =====
-- `New` returns a sound contract.
use nexum.Prelude.{ℕ, String, ◌≡◌, refl, sym, subst, ap, ◌∙◌, Option, some, List, [], ◌∷◌, arith}
use nexum.Prelude.Int.{ℤ}
use nexum.Errors.{
  bind_cases, guarded_cases, required_cases, bad_specification, panicked, returned, returned-eq-ok,
  Result, err, ok,
}
use nexum.Std.{Std, Time}
use nexum.Meter.{opened, Meter}
use nexum.Receipt.{Party}
use nexum.Agreement
use nexum.Agreement.{Agreement}
use nexum.Room
use nexum.Room.{Entropy}
use nexum.Room.Ops.{Op, perform, perform_all}
use nexum.Room.Invariant.{IsValid, agreement_calls-IsValid}
use nexum.Room.History.{agreement_calls-Extends}
use nexum.Identity.{Public, Terms, Crypto, public_id, hash_terms, validate}
use nexum.Contract
use nexum.Contract.{terms_of, Contract, on_agreement, signer, head, contract_meter}
use nexum.Contract.Consent.{IsSound}
use nexum.Contract.Run.{Call, apply_all}
use nexum.Contract.Invariant.{apply_all-IsSound}

module _ (std : Std) (crypto : Crypto) where
  opened_agreement :
      (id kind : String) (buyer seller : Party) (amount : ℤ) (meter : Meter) (now : Time)
      {a : Agreement}
      → Agreement.open_agreement std id kind buyer seller amount meter now ≡ ok a
      → (a.status ≡ opened) × (a.buyer ≡ buyer) × (a.seller ≡ seller) × (a.amount ≡ amount)
  unfolding Agreement.open_agreement Agreement.open_with
  opened_agreement id kind buyer seller amount meter now h = ground arith

  -- The calls that `New` makes on the agreement that it opens.
  abbrev preparation : Agreement → Time → Time → (ℕ → List (Option ℕ × Option ℕ)) → List (Time × Op)
  preparation a deadline now primes =
      (now, Op.set_deadline a.buyer deadline) ∷ (now, Op.start_sealed 2048 primes) ∷ []

  prepared :
      (a : Agreement) (deadline now : Time) (primes : ℕ → List (Option ℕ × Option ℕ))
      → (perform_all std (preparation a deadline now primes) a).status ≡ a.status
  unfolding perform_all perform Agreement.set_deadline Room.start_sealed
  prepared a deadline now primes = ground arith

  -- The agreement of a new contract, and the parts of it that the terms fix.
  record Armed (t : Terms) (id : String) (armed : Agreement) : Type 0 where
    pub valid : IsValid std armed
    pub status : armed.status ≡ opened
    pub buyer : armed.buyer ≡ t.buyer
    pub seller : armed.seller ≡ t.seller
    pub amount : armed.amount ≡ t.amount

  armed_lem :
      (t : Terms) (id : String) (a : Agreement) (primes : ℕ → List (Option ℕ × Option ℕ))
      → Agreement.open_agreement std id t.kind t.buyer t.seller t.amount contract_meter t.created
        ≡ ok a
      → Armed t id (perform_all std (preparation a t.deadline t.created primes) a)
  armed_lem t id a primes opens =
      let calls = preparation a t.deadline t.created primes in
      let fields =
        opened_agreement id t.kind t.buyer t.seller t.amount contract_meter t.created opens in
      let kept = (agreement_calls-Extends std calls a).terms in
      record {
        valid =
            agreement_calls-IsValid std id t.kind t.buyer t.seller t.amount contract_meter t.created
              calls opens;
        status = prepared a t.deadline t.created primes ∙ fields.0;
        buyer = kept.buyer ∙ fields.1;
        seller = kept.seller ∙ fields.2;
        amount = kept.amount ∙ fields.3;
      }

  abbrev SoundResult : Result Contract → Type 0
  SoundResult (ok c) = IsSound std crypto c
  SoundResult (err e) = Unit

  new_with-IsSound :
      (buyer seller : Public) (t : Terms) (id : String) (primes : ℕ → List (Option ℕ × Option ℕ))
      → hash_terms std crypto t ≡ some id
      → t.buyer ≡ public_id std crypto buyer
      → t.seller ≡ public_id std crypto seller
      → SoundResult (Contract.new_with std crypto buyer seller t id primes)
  unfolding Contract.new_with Contract.clone_public
  new_with-IsSound buyer seller t id primes hashed bought sold =
      bind_cases SoundResult
        (Agreement.open_agreement std id t.kind t.buyer t.seller t.amount contract_meter t.created)
        _ (λ e. tt)
        (λ a opens.
          bind_cases SoundResult
            (returned (Agreement.set_deadline std a a.buyer t.deadline t.created)) _ (λ e. tt)
            (λ dated dates.
              bind_cases SoundResult (returned (Room.start_sealed dated 2048 primes)) _ (λ e. tt)
                (λ armed arms.
                  let final : armed
                      ≡ perform_all std (preparation a t.deadline t.created primes) a =
                    unfold perform_all perform in
                    sym (returned-eq-ok _ arms)
                    ∙ ap (λ d. (Room.start_sealed d 2048 primes).1)
                        (sym (returned-eq-ok _ dates)) in
                  let facts : Armed t id armed = rw final (armed_lem t id a primes opens) in
                  record {
                    valid = facts.valid;
                    buyer_id = facts.buyer ∙ bought;
                    seller_id = facts.seller ∙ sold;
                    amount = facts.amount;
                    terms = hashed;
                    settled = λ k. ground (arith, facts.status);
                    underway = λ k. ground arith;
                    consented = λ k. ground arith;
                  })))

  new_contract-IsSound :
      (kind : String) (buyer seller : Public) (amount : ℤ) (spec : Option String)
      (now deadline : Time) (primes : ℕ → List (Option ℕ × Option ℕ))
      → SoundResult
          (Contract.new_contract std crypto kind buyer seller amount spec now deadline primes)
  unfolding Contract.new_contract
  new_contract-IsSound kind buyer seller amount spec now deadline primes =
      guarded_cases SoundResult (validate std crypto buyer) (λ e. tt)
        (guarded_cases SoundResult (validate std crypto seller) (λ e. tt)
          (required_cases SoundResult bad_specification spec _ tt (λ raw given.
            let t = terms_of std crypto kind buyer seller amount raw now deadline in
            required_cases SoundResult panicked (hash_terms std crypto t) _ tt
              (λ id hashed. new_with-IsSound buyer seller t id primes hashed refl refl))))

  -- A contract that New returns is sound after any commands at any times, whoever signs them and
  -- whether they fail or not: its agreement is valid (IsValid), between the two identities and for
  -- the amount of the terms, whose hash is the contract's id; and it is accepted only after the
  -- seller signed an `agree` command for these terms, the hash of whose signature is in a receipt.
  pub contract_commands-IsSound :
      (kind : String) (buyer seller : Public) (amount : ℤ) (spec : Option String)
      (now deadline : Time) (primes : ℕ → List (Option ℕ × Option ℕ))
      (calls : List (Call std crypto)) {c : Contract}
      → Contract.new_contract std crypto kind buyer seller amount spec now deadline primes ≡ ok c
      → IsSound std crypto (apply_all std crypto calls c)
  contract_commands-IsSound kind buyer seller amount spec now deadline primes calls {c} h =
      apply_all-IsSound std crypto calls c (
        subst SoundResult h
          (new_contract-IsSound kind buyer seller amount spec now deadline primes))
