-- ===== src/Restore/Walked.antt =====
-- `accounts_for`, taken apart and put together.
use nexum.Prelude.{
  ℕ, ◌≡◌, refl, sym, ap, ◌∙◌, Bool, true, false, not, ◌||◌, Option, none, some, List, [], ◌∷◌, ◌==◌,
  arith, if_cases, if◌then◌else◌, nat_eq, nat_eq_refl,
}
use nexum.Std.{Std}
use nexum.Meter.{
  Status, opened, locked, accepted, rejected, expired, ready, executed, refused, claimed, proven,
  paid,
}
use nexum.Meter
use nexum.Receipt.{Receipt}
use nexum.Identity.{Crypto}
use nexum.Contract.{Contract}
use nexum.Operation.{Entries, Committed, Persist, same_status, status_code}
use nexum.Restore
use nexum.Restore.{Progress}

abbrev coded : ℕ → Status
coded n =
    if nat_eq n 0
    then opened
    else if nat_eq n 1
    then locked
    else if nat_eq n 2
    then accepted
    else if nat_eq n 3
    then rejected
    else if nat_eq n 4
    then expired
    else if nat_eq n 5
    then ready
    else if nat_eq n 6
    then executed
    else if nat_eq n 7
    then refused
    else if nat_eq n 8
    then Meter.offered
    else if nat_eq n 9
    then claimed
    else if nat_eq n 10
    then proven
    else paid

coded-status_code : (s : Status) → coded (status_code s) ≡ s
coded-status_code opened = refl
coded-status_code locked = refl
coded-status_code accepted = refl
coded-status_code rejected = refl
coded-status_code expired = refl
coded-status_code ready = refl
coded-status_code executed = refl
coded-status_code refused = refl
coded-status_code Meter.offered = refl
coded-status_code claimed = refl
coded-status_code proven = refl
coded-status_code paid = refl

nat_eq_sound : (m n : ℕ) → nat_eq m n ≡ true → m ≡ n
nat_eq_sound m n h = ground arith

pub same_status_sound : (s t : Status) → same_status s t ≡ true → s ≡ t
same_status_sound s t h =
    sym (coded-status_code s)
    ∙ ap coded (nat_eq_sound (status_code s) (status_code t) h)
    ∙ coded-status_code t

pub same_status_refl : (s : Status) → same_status s s ≡ true
same_status_refl s = nat_eq_refl (status_code s)

module _ (std : Std) (crypto : Crypto) (persist : Persist) (c : Contract) (count : ℕ)
    (by_head : Entries Committed) where
  abbrev pub start : Progress
  start = record { status = opened; consent = false; used = 0 }

  -- The walk over the receipts of a contract, and where it ends.
  pub record Walked : Type 0 where
    pub first : Receipt
    pub second : Receipt
    pub rest : List Receipt
    pub p : Progress
    pub receipts : c.agreement.receipts ≡ first ∷ second ∷ rest
    pub opens : (not (first.action == "open") || not (second.action == "deadline")) ≡ false
    pub walk :
        Restore.replay std crypto persist by_head c.agreement second.hash start false rest ≡ some p
    pub used : p.used ≡ count
    pub status : p.status ≡ c.agreement.status
    pub consent : p.consent ≡ c.agreed

  abbrev ends : Option Progress → Bool
  ends o = elim o [
    | none ↦ false
    | some p ↦ not (
        not (nat_eq p.used count)
        || not (same_status p.status c.agreement.status)
        || (if p.consent then not c.agreed else c.agreed))
  ]

  abbrev listed : List Receipt → Bool
  listed l = elim l [
    | [] ↦ false
    | first ∷ more ↦ elim more [
      | [] ↦ false
      | second ∷ rest ↦
          if not (first.action == "open") || not (second.action == "deadline")
          then false
          else ends
              (Restore.replay std crypto persist by_head c.agreement second.hash start false rest)
    ]
  ]

  consents : (x y : Bool) → (if x then not y else y) ≡ false → x ≡ y
  consents true true h = refl
  consents true false h = cc
  consents false true h = cc
  consents false false h = refl

  ended :
      (first second : Receipt) (rest : List Receipt) (o : Option Progress)
      → c.agreement.receipts ≡ first ∷ second ∷ rest
      → (not (first.action == "open") || not (second.action == "deadline")) ≡ false
      → Restore.replay std crypto persist by_head c.agreement second.hash start false rest ≡ o
      → ends o ≡ true
      → Walked
  ended first second rest none receipts opens walk h = cc
  ended first second rest (some p) receipts opens walk h = record {
    first = first;
    second = second;
    rest = rest;
    p = p;
    receipts = receipts;
    opens = opens;
    walk = walk;
    used = ground arith;
    status = same_status_sound p.status c.agreement.status (ground arith);
    consent = consents p.consent c.agreed (ground arith);
  }

  accounted : (l : List Receipt) → c.agreement.receipts ≡ l → listed l ≡ true → Walked
  accounted [] is h = cc
  accounted (first ∷ []) is h = cc
  accounted (first ∷ second ∷ rest) is h =
      if_cases (λ b. b ≡ true → Walked)
        (not (first.action == "open") || not (second.action == "deadline")) (λ g k. cc)
        (λ opens k. ended first second rest _ is opens refl k) h

  pub accounts_for-Walked : Restore.accounts_for std crypto persist c count by_head ≡ true → Walked
  unfolding Restore.accounts_for
  accounts_for-Walked h = accounted c.agreement.receipts refl h

  agreeing : (x y : Bool) → x ≡ y → (if x then not y else y) ≡ false
  agreeing true true h = refl
  agreeing true false h = cc
  agreeing false true h = cc
  agreeing false false h = refl

  walked_ends :
      (p : Progress)
      → p.used ≡ count
      → p.status ≡ c.agreement.status
      → p.consent ≡ c.agreed
      → ends (some p) ≡ true
  walked_ends p used status consent =
      let same : same_status p.status c.agreement.status ≡ true =
        ap (λ s. same_status p.status s) (sym status) ∙ same_status_refl p.status in
      let counted : nat_eq p.used count ≡ true =
        ap (nat_eq p.used) (sym used) ∙ nat_eq_refl p.used in
      let agreed = agreeing p.consent c.agreed consent in ground (arith, same, counted, agreed)

  pub Walked-accounts : Walked → Restore.accounts_for std crypto persist c count by_head ≡ true
  unfolding Restore.accounts_for
  Walked-accounts w =
      ap listed w.receipts
      ∙ ap
          (λ b.
            if b
            then false
            else ends (
                Restore.replay std crypto persist by_head c.agreement w.second.hash start false
                  w.rest))
          w.opens
      ∙ ap ends w.walk
      ∙ walked_ends w.p w.used w.status w.consent
