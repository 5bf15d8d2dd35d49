-- ===== src/Tests/Delegates.antt =====
-- The theorems about delegations at a concrete run.
use nexum.Prelude.{◌≡◌, ◌⊎◌, refl, none, List, [], ◌∷◌}
use nexum.Prelude.Int.{pos}
use nexum.Errors.{ok}
use nexum.Std.{Time}
use nexum.Meter.{offered, paid}
use nexum.Receipt.{next_receipt}
use nexum.Delegate
use nexum.Delegate.{Delegate}
use nexum.Delegate.Ops.{
  Op, claim, submit_proof, accept_proof, perform, perform_all, IsValid, Permitted,
  delegate_call-Moves, delegate_calls-IsValid,
}
use nexum.Tests.Setup.{test_std, test_meter}

abbrev job : Delegate
job = record {
  id = "d1";
  kind = "delegate.intern";
  parent = "ann";
  intern = "ivo";
  reward = pos 3;
  unit = record { symbol = "" };
  task = record { offer = "sweep"; proof_kind = "citation" };
  status = offered;
  proof = "";
  meter = record { cost_usd = 0; effort = "max"; budget_usd = 0; max_steps = pos 16 };
  created_at = 10;
  closed_at = none;
  released_to = "";
  receipts = next_receipt test_std "d1" [] "ann" "offer" "sweep" 10 ∷ [];
  steps = 1;
}

job_opens :
    Delegate.open_delegate test_std "d1" "ann" "ivo"
      (pos 3)
      (record { offer = "sweep"; proof_kind = "" })
      test_meter
      10
    ≡ ok job
unfolding Delegate.open_delegate
job_opens = refl

abbrev work : List (Time × Op)
work = (11, claim "ivo") ∷ (12, submit_proof "ivo" "photo") ∷ (13, accept_proof "ann") ∷ []

work_paid : (perform_all test_std work job).status ≡ paid
unfolding perform_all perform Delegate.claim Delegate.submit_proof Delegate.accept_proof
work_paid = refl

delegate_calls-IsValid_example : IsValid test_std (perform_all test_std work job)
delegate_calls-IsValid_example =
    delegate_calls-IsValid test_std "d1" "ann" "ivo" (pos 3)
      (record { offer = "sweep"; proof_kind = "" }) test_meter 10 work job_opens

delegate_call-Moves_example :
    ((perform test_std (claim "ivo") 11 job).1.status ≡ offered)
    ⊎ Permitted "ivo" job (perform test_std (claim "ivo") 11 job).1.status
delegate_call-Moves_example = delegate_call-Moves test_std (claim "ivo") 11 job
