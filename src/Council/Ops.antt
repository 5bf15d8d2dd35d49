-- ===== src/Council/Ops.antt =====
-- The methods that change a council, as values, and the properties of every one of them.
use Prim.Native.String.{◌++◌ as ◌<>◌}
use nexum.Prelude.{
  suc, ◌≤◌, String, ◌≡◌, refl, Bool, true, false, Option, none, some, List, [], ◌∷◌, ◌++◌, arith,
  length, length-snoc,
}
use nexum.Prelude.Int.{pos, ◌≤ℤ◌}
use nexum.Errors.{Error, Outcome, ok, bind, bind-eq-ok, returned}
use nexum.Std.{Std, Time}
use nexum.Meter.{Status, opened, ready, executed, refused, Meter}
use nexum.Receipt.{Party, verify_receipts, next_receipt}
use nexum.Receipt.Chain.{verify_receipts-next_receipt}
use nexum.Council
use nexum.Council.{
  Council, Requirement, is_terminal, all_satisfied, all_opted, party_reqs_met, mark, first_party,
  is_party, member,
}
use nexum.Council.Consent.{AllMet, AllMet-mark, all_satisfied-mark}

pub data Op : Type 0 where
  satisfy : Party → String → String → Op
  opt_in refuse execute : Party → Op

abbrev pub performer : Op → Party
performer (satisfy actor _ _) = actor
performer (opt_in actor) = actor
performer (refuse actor) = actor
performer (execute actor) = actor

abbrev pub is_some {ℓ} : {A : Type ℓ} → Option A → Bool
is_some none = false
is_some (some a) = true

-- What each status says of the requirements, the opt-ins and the closing time.
abbrev pub Life : Status → List Requirement → List Party → List Party → Option Time → Type 0
Life opened reqs opted parties closed_at = closed_at ≡ none
Life ready reqs opted parties closed_at = (all_satisfied reqs ≡ true) × (closed_at ≡ none)
Life executed reqs opted parties closed_at =
    (all_satisfied reqs ≡ true) × (all_opted opted parties ≡ true) × (is_some closed_at ≡ true)
Life refused reqs opted parties closed_at = is_some closed_at ≡ true
Life _ reqs opted parties closed_at = ⊥

pub record IsValid (std : Std) (c : Council) : Type 0 where
  pub chained : verify_receipts std c.id c.receipts ≡ none
  pub counted : length c.receipts ≤ c.steps
  pub metered : pos (length c.receipts) ≤ℤ c.meter.max_steps
  pub free : AllMet c.opted_in c.reqs
  pub life : Life c.status c.reqs c.opted_in c.parties c.closed_at

module _ (std : Std) where
  unfoldable pub perform : Op → Time → Council → Outcome Council
  perform (satisfy actor req_id citation) now c = Council.satisfy std c actor req_id citation now
  perform (opt_in actor) now c = Council.opt_in std c actor now
  perform (refuse actor) now c = Council.refuse std c actor now
  perform (execute actor) now c = Council.execute std c actor now

  unfoldable pub perform_all : List (Time × Op) → Council → Council
  perform_all [] c = c
  perform_all ((now, op) ∷ rest) c = perform_all rest (perform op now c).1

  -- A method that returns an error has changed nothing but the step count.
  failed_council_call :
      (op : Op) (now : Time) (c : Council) {e : Error}
      → (perform op now c).0 ≡ some e
      → record ((perform op now c).1) { steps = c.steps } ≡ c
  unfolding perform
  failed_council_call (satisfy actor req_id citation) now c h =
      unfold Council.satisfy in ground arith
  failed_council_call (opt_in actor) now c h = unfold Council.opt_in in ground arith
  failed_council_call (refuse actor) now c h = unfold Council.refuse in ground arith
  failed_council_call (execute actor) now c h = unfold Council.execute in ground arith

  terminal_step :
      (op : Op) (now : Time) (c : Council) → is_terminal c.status ≡ true → (perform op now c).1 ≡ c
  unfolding perform
  terminal_step (satisfy actor req_id citation) now c t = unfold Council.satisfy in ground arith
  terminal_step (opt_in actor) now c t = unfold Council.opt_in in ground arith
  terminal_step (refuse actor) now c t = unfold Council.refuse in ground arith
  terminal_step (execute actor) now c t = unfold Council.execute in ground arith

  -- An executed or refused council stays as it is, whatever is called.
  closed_council_absorbs :
      (calls : List (Time × Op)) (c : Council)
      → is_terminal c.status ≡ true
      → perform_all calls c ≡ c
  unfolding perform_all
  closed_council_absorbs [] c t = refl
  closed_council_absorbs ((now, op) ∷ rest) c t =
      rw (terminal_step op now c t) (closed_council_absorbs rest c t)

  module _ (c : Council) (v : IsValid std c) where
    links :
        (actor : Party) (action text : String) (now : Time)
        → let rs = c.receipts ++ next_receipt std c.id c.receipts actor action text now ∷ [] in
          (verify_receipts std c.id rs ≡ none) × (length rs ≡ suc (length c.receipts))
    links actor action text now = (
      verify_receipts-next_receipt std c.id c.receipts actor action text now v.chained,
      length-snoc c.receipts (next_receipt std c.id c.receipts actor action text now),
    )

    satisfy-IsValid :
        (actor : Party) (req_id citation : String) (now : Time)
        → IsValid std (Council.satisfy std c actor req_id citation now).1
    unfolding Council.satisfy
    satisfy-IsValid actor req_id citation now = ground (
      arith,
      links actor "satisfy" (req_id <> ":" <> citation) now,
      AllMet-mark c.opted_in req_id citation c.reqs v.free,
      all_satisfied-mark req_id citation c.reqs,
    )

    opt_in-IsValid : (actor : Party) (now : Time) → IsValid std (Council.opt_in std c actor now).1
    unfolding Council.opt_in
    opt_in-IsValid actor now = ground (arith, links actor "opt-in" "opted in" now)

    refuse-IsValid : (actor : Party) (now : Time) → IsValid std (Council.refuse std c actor now).1
    unfolding Council.refuse
    refuse-IsValid actor now = ground (arith, links actor "refuse" "refused before execute" now)

    execute-IsValid : (actor : Party) (now : Time) → IsValid std (Council.execute std c actor now).1
    unfolding Council.execute
    execute-IsValid actor now = ground (arith, links actor "execute" c.decision now)

  pub perform-IsValid :
      (op : Op) (now : Time) (c : Council) → IsValid std c → IsValid std (perform op now c).1
  unfolding perform
  perform-IsValid (satisfy actor req_id citation) now c v =
      satisfy-IsValid c v actor req_id citation now
  perform-IsValid (opt_in actor) now c v = opt_in-IsValid c v actor now
  perform-IsValid (refuse actor) now c v = refuse-IsValid c v actor now
  perform-IsValid (execute actor) now c v = execute-IsValid c v actor now

  perform_all-IsValid :
      (calls : List (Time × Op)) (c : Council) → IsValid std c → IsValid std (perform_all calls c)
  unfolding perform_all
  perform_all-IsValid [] c v = v
  perform_all-IsValid ((now, op) ∷ rest) c v =
      perform_all-IsValid rest (perform op now c).1 (perform-IsValid op now c v)

  -- A new council with its first receipt.
  opened-IsValid :
      (id : String) (parties : List Party) (clean : List Requirement) (decision : String)
      (meter : Meter) (now : Time) {c : Council} (actor : Party)
      → returned (
          Council.append std
            (Council.new_council std id parties clean decision meter now)
            actor
            "open"
            "council opened"
            now)
        ≡ ok c
      → IsValid std c
  unfolding Council.append Council.new_council
  opened-IsValid id parties clean decision meter now actor h = ground (
    arith,
    verify_receipts-next_receipt std id [] actor "open" "council opened" now
        (unfold verify_receipts in refl),
  )

  open_council-IsValid :
      (id : String) (parties : List Party) (reqs : List Requirement) (decision : String)
      (meter : Meter) (now : Time) {c : Council}
      → Council.open_council std id parties reqs decision meter now ≡ ok c
      → IsValid std c
  unfolding Council.open_council
  open_council-IsValid id parties reqs decision meter now h =
      let checks : bind (Council.check_parties [] parties) (λ seen.
        bind (Council.check_reqs seen [] reqs) (λ clean. returned (
          Council.append std (Council.new_council std id parties clean decision meter now)
            (first_party (Council.new_council std id parties clean decision meter now).parties)
            "open" "council opened" now)))
          ≡ ok _ =
        ground arith in
      let (seen, _, inner) = bind-eq-ok (Council.check_parties [] parties) _ checks in
      let (clean, _, made) = bind-eq-ok (Council.check_reqs seen [] reqs) _ inner in
      opened-IsValid id parties clean decision meter now _ made

  -- A council that OpenCouncil returns is valid after any calls at any times: its receipt chain
  -- verifies, it holds at most max_steps receipts, every party that opted in has its requirements
  -- satisfied, a ready or executed one has all requirements satisfied, and an executed one has the
  -- opt-in of every party.
  pub council_calls-IsValid :
      (id : String) (parties : List Party) (reqs : List Requirement) (decision : String)
      (meter : Meter) (now : Time) (calls : List (Time × Op)) {c : Council}
      → Council.open_council std id parties reqs decision meter now ≡ ok c
      → IsValid std (perform_all calls c)
  council_calls-IsValid id parties reqs decision meter now calls {c} h =
      perform_all-IsValid calls c (open_council-IsValid id parties reqs decision meter now h)
