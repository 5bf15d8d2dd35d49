-- ===== src/Tests/Workflows.antt =====
-- The theorems about workflows at a concrete tree.
use nexum.Prelude.{◌≡◌, ◌≢◌, refl, false, none, some, [], ◌∷◌, ◌++◌, arith, eq_iff, ◌+◌, length}
use nexum.Prelude.Int.{pos}
use nexum.Errors.{ok, err, bad_tree}
use nexum.Meter.{opened, executed}
use nexum.Receipt.{next_receipt, verify_receipts, verify_from, hash_receipt}
use nexum.Workflow
use nexum.Workflow.{
  Workflow, Node, Nodes, Facts, walk, walk_from, lookup, put, first_match, reqs_met, member,
  walk_note,
}
use nexum.Workflow.Walk.{walk_ends}
use nexum.Workflow.Ops.{execute_records, misnamed_child_unreachable}
use nexum.Tests.Setup.{test_std, test_meter}

abbrev tree : Nodes
tree =
    ("top", record { id = "top"; kind = "gate"; require = []; next = "pay" ∷ "wait" ∷ [] })
    ∷ ("pay", record { id = "pay"; kind = "action"; require = "cleared" ∷ []; next = [] })
    ∷ ("wait", record { id = "wait"; kind = "action"; require = []; next = [] })
    ∷ []

abbrev plan : Workflow
plan = record {
  id = "w1";
  kind = "workflow.tree";
  root = "top";
  nodes = tree;
  status = opened;
  path = [];
  action = "";
  meter = record { cost_usd = 0; effort = "max"; budget_usd = 0; max_steps = pos 64 };
  created_at = 10;
  closed_at = none;
  receipts = next_receipt test_std "w1" [] "ann" "open" "workflow opened" 10 ∷ [];
  actor = "ann";
  steps = 1;
}

plan_opens : Workflow.open_workflow test_std "w1" "ann" "top" tree test_meter 10 ≡ ok plan
unfolding Workflow.open_workflow
plan_opens = refl

abbrev nothing : Facts
nothing f = false

walk_ends_example : walk_from tree nothing (length tree + 3) [] [] "top" ≢ none
walk_ends_example = walk_ends plan nothing

abbrev ran : Workflow
ran = (Workflow.execute test_std plan "ann" (some nothing) 20).1

execute_records_example :
    (plan.actor ≡ plan.actor)
    × (plan.status ≡ plan.status)
    × (walk plan nothing ≡ ok (ran.path, ran.action))
    × (ran.status ≡ executed)
    × (ran.closed_at ≡ some 20)
    × (ran.receipts
        ≡ plan.receipts
          ++ next_receipt test_std "w1" plan.receipts "ann" "execute"
              (walk_note ran.path ran.action)
              20
            ∷ [])
    × (verify_receipts test_std ran.id ran.receipts ≡ none)
unfolding Workflow.execute Workflow.append walk walk_from lookup first_match reqs_met member
    verify_receipts verify_from next_receipt hash_receipt
execute_records_example = execute_records test_std plan "ann" nothing 20 refl refl

abbrev finished : Workflow
finished = record plan { status = executed }

abbrev misfiled : Workflow
misfiled = record plan {
  nodes =
      ("top", record { id = "top"; kind = "gate"; require = []; next = "a" ∷ [] })
      ∷ ("b", record { id = "b"; kind = "action"; require = []; next = [] })
      ∷ [];
}

-- The child that is listed as "a" has the id "b".
abbrev misnamed_tree : Nodes
misnamed_tree =
    ("top", record { id = ""; kind = "gate"; require = []; next = "a" ∷ [] })
    ∷ ("a", record { id = "b"; kind = "action"; require = []; next = [] })
    ∷ []

misnamed_opens :
    Workflow.open_workflow test_std "w1" "ann" "top" misnamed_tree test_meter 10 ≡ ok misfiled
unfolding Workflow.open_workflow
misnamed_opens = refl

misnamed_child_unreachable_example : walk misfiled nothing ≡ err bad_tree
unfolding lookup reqs_met
misnamed_child_unreachable_example =
    misnamed_child_unreachable test_std "a" "w1" "ann" "top" misnamed_tree test_meter 10 nothing []
      (record { id = "top"; kind = "gate"; require = []; next = "a" ∷ [] }) {w = misfiled}
      misnamed_opens
      ((λ e. ground (arith, eq_iff "top" "a")), ((λ e. ground (arith, eq_iff "b" "a")), tt))
      (λ e. ground (arith, eq_iff "a" "")) refl refl refl refl
