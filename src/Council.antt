-- ===== src/Council.antt =====
-- internal/nexum/council.go: three to seven parties, codified requirements, unanimous opt-in, one
-- execute. `OptedIn`, a map to Booleans that only ever gets `true`, is the list of its keys.
pub mod Consent
pub mod Ops
use Prim.Native.String.{◌++◌ as ◌<>◌}
use nexum.Prelude.{
  ℕ, ◌+◌, String, Bool, true, false, not, ◌||◌, ◌&&◌, Option, none, some, List, [], ◌∷◌, ◌++◌, ◌==◌,
  if◌then◌else◌, length, ltb, text_lt,
}
use nexum.Prelude.Int.{ℤ, pos, leb_ℤ, ltb_ℤ}
use nexum.Errors.{
  Result, ok, err, bind, Outcome, done, fail, returned, ◌>>=◌, wrong_party, bad_state, takeback,
  budget, dos, missing_party, party_count, dup_party, unknown_party, req_holder, dup_req,
  not_satisfied, not_unanimous, empty_decision, req_id_required, empty_citation,
  unknown_requirement,
}
use nexum.Std.{Std, Time}
use nexum.Meter.{Status, opened, ready, executed, refused, Meter, over_budget, is_open}
use nexum.Receipt.{Receipt, Party, next_receipt}

pub record Requirement : Type 0 where
  pub id : String
  pub holder : Party
  pub satisfied : Bool
  pub citation : String

pub record Council : Type 0 where
  pub id : String
  pub kind : String
  pub parties : List Party
  pub reqs : List Requirement
  pub opted_in : List Party
  pub decision : String
  pub status : Status
  pub meter : Meter
  pub created_at : Time
  pub closed_at : Option Time
  pub receipts : List Receipt
  pub steps : ℕ

abbrev pub kind_council : String
kind_council = "council.optin"

-- A key of a map or an item of a slice of strings.
unfoldable pub member : String → List String → Bool
member p [] = false
member p (x ∷ xs) = x == p || member p xs

-- The method `terminal`, which looks at the status alone.
abbrev pub is_terminal : Status → Bool
is_terminal executed = true
is_terminal refused = true
is_terminal _ = false

abbrev pub is_ready : Status → Bool
is_ready ready = true
is_ready _ = false

-- The loop of `OpenCouncil` over the parties; the result is `seen`.
check_parties : List Party → List Party → Result (List Party)
check_parties seen [] = ok seen
check_parties seen (p ∷ ps) =
    let rest = check_parties (p ∷ seen) ps in
    if p == "" then err missing_party else if member p seen then err dup_party else rest

-- The loop over the requirements; the result is `clean`.
check_reqs : List Party → List String → List Requirement → Result (List Requirement)
check_reqs seen ids [] = ok []
check_reqs seen ids (r ∷ rs) =
    let rest = check_reqs seen (r.id ∷ ids) rs in
    if r.id == ""
    then err req_id_required
    else if member r.id ids
    then err dup_req
    else if not (member r.holder seen)
    then err req_holder
    else bind rest (λ clean. ok (record r { satisfied = false; citation = "" } ∷ clean))

-- sort.Slice by the order of strings.
insert_sorted : Party → List Party → List Party
insert_sorted p [] = p ∷ []
insert_sorted p (q ∷ qs) =
    let rest = insert_sorted p qs in if text_lt p q then p ∷ q ∷ qs else q ∷ rest

sort_parties : List Party → List Party
unfolding insert_sorted
sort_parties [] = []
sort_parties (p ∷ ps) = insert_sorted p (sort_parties ps)

-- parties[0], where there is one.
abbrev first_party : List Party → Party
first_party [] = ""
first_party (p ∷ ps) = p

unfoldable pub is_party : Council → Party → Bool
unfolding member
is_party c p = member p c.parties

-- The first requirement with an id.
unfoldable pub find_req : String → List Requirement → Option Requirement
find_req id [] = none
find_req id (r ∷ rs) = let rest = find_req id rs in if r.id == id then some r else rest

-- That requirement satisfied, with its citation.
unfoldable pub mark : String → String → List Requirement → List Requirement
mark id citation [] = []
mark id citation (r ∷ rs) =
    let rest = mark id citation rs in
    if r.id == id then record r { satisfied = true; citation = citation } ∷ rs else r ∷ rest

unfoldable pub party_reqs_met : Party → List Requirement → Bool
party_reqs_met p [] = true
party_reqs_met p (r ∷ rs) = if r.holder == p && not r.satisfied then false else party_reqs_met p rs

-- The loops of `Execute` and of `refreshReady`: no requirement is left; every party is opted in.
unfoldable pub all_satisfied : List Requirement → Bool
all_satisfied [] = true
all_satisfied (r ∷ rs) = if not r.satisfied then false else all_satisfied rs

unfoldable pub all_opted : List Party → List Party → Bool
all_opted opted [] = true
all_opted opted (p ∷ ps) = if not (member p opted) then false else all_opted opted ps

unfoldable pub refresh_ready : Council → Council
refresh_ready c =
    if not (is_open c.status)
    then c
    else if not (all_satisfied c.reqs)
    then c
    else record c { status = ready }

module _ (std : Std) where
  -- `steps` grows before the bound is tested, so a refused step counts too.
  unfoldable pub append : Council → Party → String → String → Time → Outcome Council
  append c actor action note now =
      let c' : Council = record c { steps = c.steps + 1 } in
      if ltb_ℤ c.meter.max_steps (pos (c.steps + 1))
      then fail dos c'
      else if over_budget std c.meter
      then fail budget c'
      else done (record c' {
        receipts = c.receipts ++ next_receipt std c.id c.receipts actor action note now ∷ [];
      })

  -- The council that `OpenCouncil` builds once its arguments have passed.
  new_council : String → List Party → List Requirement → String → Meter → Time → Council
  unfolding sort_parties
  new_council id parties clean decision meter now = record {
    id = id;
    kind = kind_council;
    parties = sort_parties parties;
    reqs = clean;
    opted_in = [];
    decision = decision;
    status = opened;
    meter = record meter {
      max_steps = if leb_ℤ meter.max_steps (pos 0) then pos 32 else meter.max_steps;
    };
    created_at = now;
    closed_at = none;
    receipts = [];
    steps = 0;
  }

  unfoldable pub open_council :
      String → List Party → List Requirement → String → Meter → Time → Result Council
  unfolding new_council check_parties check_reqs
  open_council id parties reqs decision meter now =
      if ltb (length parties) 3 || ltb 7 (length parties)
      then err party_count
      else if decision == ""
      then err empty_decision
      else bind (check_parties [] parties) (λ seen. bind (check_reqs seen [] reqs) (λ clean.
        let c = new_council id parties clean decision meter now in
        returned (append c (first_party c.parties) "open" "council opened" now)))

  -- The end of `Satisfy`, on the requirement that its search found.
  satisfy_found : Council → Party → String → String → Time → Option Requirement → Outcome Council
  unfolding append refresh_ready
  satisfy_found c actor req_id citation now none = fail (unknown_requirement req_id) c
  satisfy_found c actor req_id citation now (some r) =
      if not (r.holder == actor)
      then fail wrong_party c
      else if r.satisfied
      then fail bad_state c
      else do
        c' ← append c actor "satisfy" (req_id <> ":" <> citation) now
        done (refresh_ready (record c' { reqs = mark req_id citation c'.reqs }))

  unfoldable pub satisfy : Council → Party → String → String → Time → Outcome Council
  unfolding satisfy_found
  satisfy c actor req_id citation now =
      if not (is_party c actor)
      then fail unknown_party c
      else if is_terminal c.status
      then fail takeback c
      else if citation == ""
      then fail empty_citation c
      else satisfy_found c actor req_id citation now (find_req req_id c.reqs)

  unfoldable pub opt_in : Council → Party → Time → Outcome Council
  unfolding append refresh_ready
  opt_in c actor now =
      if not (is_party c actor)
      then fail unknown_party c
      else if is_terminal c.status
      then fail takeback c
      else if not (is_open c.status) && not (is_ready c.status)
      then fail bad_state c
      else if not (party_reqs_met actor c.reqs)
      then fail not_satisfied c
      else if member actor c.opted_in
      then fail bad_state c
      else do
        c' ← append c actor "opt-in" "opted in" now
        done (refresh_ready (record c' { opted_in = actor ∷ c'.opted_in }))

  unfoldable pub refuse : Council → Party → Time → Outcome Council
  unfolding append
  refuse c actor now =
      if not (is_party c actor)
      then fail unknown_party c
      else if is_terminal c.status
      then fail takeback c
      else do
        c' ← append c actor "refuse" "refused before execute" now
        done (record c' { closed_at = some now; status = refused })

  unfoldable pub execute : Council → Party → Time → Outcome Council
  unfolding append
  execute c actor now =
      if not (is_party c actor)
      then fail unknown_party c
      else if is_terminal c.status
      then fail takeback c
      else if not (all_satisfied c.reqs)
      then fail not_satisfied c
      else if not (all_opted c.opted_in c.parties)
      then fail not_unanimous c
      else do
        c' ← append c actor "execute" c.decision now
        done (record c' { closed_at = some now; status = executed })
