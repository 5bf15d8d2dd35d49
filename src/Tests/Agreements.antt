-- ===== src/Tests/Agreements.antt =====
-- The theorems about agreements at concrete runs.
use nexum.Prelude.{◌≡◌, refl, none, some, List, [], ◌∷◌, ◌++◌}
use nexum.Prelude.Int.{pos}
use nexum.Errors.{wrong_party}
use nexum.Std.{Time}
use nexum.Meter.{accepted}
use nexum.Agreement
use nexum.Agreement.{Agreement}
use nexum.Room
use nexum.Room.Ops.{Op, perform, perform_all, in_unit}
use nexum.Room.Frozen.{failed_call_unchanged, closed_agreement_absorbs}
use nexum.Room.Invariant.{IsValid, agreement_calls-IsValid}
use nexum.Room.Custody.{Moves, agreement_call-Moves}
use nexum.Room.History.{Extends, agreement_calls-Extends}
use nexum.Tests.Setup.{test_std, test_meter, house, house_opens}

abbrev sale : List (Time × Op)
sale =
    (11, Op.lock "alice") ∷ (12, Op.note "bob" "evidence" "keys") ∷ (13, Op.accept "bob" none) ∷ []

-- A sale runs to its end.
sale_accepted : (perform_all test_std sale house).status ≡ accepted
unfolding perform_all perform Agreement.lock Agreement.note Room.accept Room.accept_plain
sale_accepted = refl

agreement_calls-IsValid_example : IsValid test_std (perform_all test_std sale house)
agreement_calls-IsValid_example =
    agreement_calls-IsValid test_std "a1" "sale" "alice" "bob" (pos 5) test_meter 10 sale
      house_opens

agreement_call-Moves_example :
    Moves 11 "alice" house (perform test_std (Op.lock "alice") 11 house).1
agreement_call-Moves_example = agreement_call-Moves test_std (Op.lock "alice") 11 house

-- A sale whose unit is set at its end.
abbrev priced_sale : List (Time × Op)
priced_sale = sale ++ (14, Op.with_unit "NEX") ∷ []

agreement_calls-Extends_example :
    Extends (in_unit house (record { symbol = "NEX" })) (perform_all test_std priced_sale house)
agreement_calls-Extends_example = agreement_calls-Extends test_std priced_sale house

failed_call_unchanged_example : (perform test_std (Op.lock "bob") 11 house).1 ≡ house
unfolding perform Agreement.lock
failed_call_unchanged_example =
    failed_call_unchanged test_std (Op.lock "bob") 11 house wrong_party refl

abbrev closed_house : Agreement
closed_house = record house {
  status = accepted;
  released_to = "bob";
  locked_at = some 11;
  closed_at = some 13;
}

closed_agreement_absorbs_example :
    perform_all test_std priced_sale closed_house ≡ in_unit closed_house (record { symbol = "NEX" })
closed_agreement_absorbs_example = closed_agreement_absorbs test_std priced_sale closed_house refl
