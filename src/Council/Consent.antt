-- ===== src/Council/Consent.antt =====
-- Satisfied requirements stay satisfied, so a party that was free to opt in stays free.
use nexum.Prelude.{String, ◌≡◌, refl, true, List, [], ◌∷◌, arith}
use nexum.Receipt.{Party}
use nexum.Council.{Requirement, mark, party_reqs_met, all_satisfied}

-- Every party on the list has its requirements met.
abbrev pub AllMet : List Party → List Requirement → Type 0
AllMet [] reqs = Unit
AllMet (p ∷ ps) reqs = (party_reqs_met p reqs ≡ true) × AllMet ps reqs

pub party_reqs_met-mark :
    (p : Party) (id citation : String) (reqs : List Requirement)
    → party_reqs_met p reqs ≡ true
    → party_reqs_met p (mark id citation reqs) ≡ true
unfolding party_reqs_met mark
party_reqs_met-mark p id citation [] h = refl
party_reqs_met-mark p id citation (r ∷ rs) h = ground (arith, party_reqs_met-mark p id citation rs)

pub all_satisfied-mark :
    (id citation : String) (reqs : List Requirement)
    → all_satisfied reqs ≡ true
    → all_satisfied (mark id citation reqs) ≡ true
unfolding all_satisfied mark
all_satisfied-mark id citation [] h = refl
all_satisfied-mark id citation (r ∷ rs) h = ground (arith, all_satisfied-mark id citation rs)

pub AllMet-mark :
    (ps : List Party) (id citation : String) (reqs : List Requirement)
    → AllMet ps reqs
    → AllMet ps (mark id citation reqs)
AllMet-mark [] id citation reqs h = tt
AllMet-mark (p ∷ ps) id citation reqs h =
    (party_reqs_met-mark p id citation reqs h.0, AllMet-mark ps id citation reqs h.1)
