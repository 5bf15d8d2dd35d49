-- ===== src/Tests/Councils.antt =====
-- The theorems about councils at a concrete run.
use nexum.Prelude.{◌≡◌, refl, true, false, none, List, [], ◌∷◌}
use nexum.Prelude.Int.{pos}
use nexum.Errors.{ok}
use nexum.Std.{Time}
use nexum.Meter.{opened, executed}
use nexum.Receipt.{next_receipt}
use nexum.Council
use nexum.Council.{
  Council, Requirement, member, is_party, find_req, mark, party_reqs_met, all_satisfied, all_opted,
}
use nexum.Council.Ops.{
  Op, satisfy, opt_in, execute, perform, perform_all, IsValid, council_calls-IsValid,
}
use nexum.Tests.Setup.{test_std, test_meter}

abbrev needs : List Requirement
needs = record { id = "r1"; holder = "bo"; satisfied = true; citation = "old" } ∷ []

abbrev board : Council
board = record {
  id = "c1";
  kind = "council.optin";
  parties = "al" ∷ "bo" ∷ "cy" ∷ [];
  reqs = record { id = "r1"; holder = "bo"; satisfied = false; citation = "" } ∷ [];
  opted_in = [];
  decision = "merge";
  status = opened;
  meter = record { cost_usd = 0; effort = "max"; budget_usd = 0; max_steps = pos 32 };
  created_at = 10;
  closed_at = none;
  receipts = next_receipt test_std "c1" [] "al" "open" "council opened" 10 ∷ [];
  steps = 1;
}

board_opens :
    Council.open_council test_std "c1" ("cy" ∷ "al" ∷ "bo" ∷ []) needs "merge" test_meter 10
    ≡ ok board
unfolding Council.open_council Council.append member
board_opens = refl

abbrev session : List (Time × Op)
session =
    (11, opt_in "al")
    ∷ (12, opt_in "bo")
    ∷ (13, satisfy "bo" "r1" "file")
    ∷ (14, opt_in "bo")
    ∷ (15, opt_in "cy")
    ∷ (16, execute "cy")
    ∷ []

-- The second call is refused, since the requirement of "bo" is open; the last one executes.
session_executes : (perform_all test_std session board).status ≡ executed
unfolding perform_all perform Council.opt_in Council.satisfy Council.execute is_party member
    find_req mark party_reqs_met all_satisfied all_opted
session_executes = refl

council_calls-IsValid_example : IsValid test_std (perform_all test_std session board)
council_calls-IsValid_example =
    council_calls-IsValid test_std "c1" ("cy" ∷ "al" ∷ "bo" ∷ []) needs "merge" test_meter 10
      session board_opens

abbrev closed_board : Council
closed_board = record board { status = executed }
