-- ===== src/Workflow/Ops.antt =====
-- What `Execute` records, and trees that `OpenWorkflow` passes and that cannot be walked.
use nexum.Prelude.{
  String, ◌≡◌, ◌≢◌, Option, none, some, [], ◌∷◌, ◌++◌, arith, eq_iff, ℕ, suc, ◌+◌, List, refl, inl,
  inr, length, if◌then◌else◌, ◌==◌, true, false, ap, ◌∙◌,
}
use nexum.Errors.{Error, ok, err, bad_tree, Result-cases}
use nexum.Std.{Std, Time}
use nexum.Meter.{opened, executed, Meter}
use nexum.Receipt.{Party, next_receipt, verify_receipts}
use nexum.Receipt.Chain.{verify_receipts-next_receipt}
use nexum.Workflow
use nexum.Workflow.{
  Workflow, Node, Nodes, Facts, walk, walk_note, lookup, put, reqs_met, first_match, walk_from,
  member, require_of,
}

module _ (std : Std) where
  -- An execution that succeeds is the actor's, on an open workflow; it records the path and the
  -- action of the walk, in the fields and in one receipt, keeps the chain verified, and closes.
  pub execute_records :
      (w : Workflow) (actor : Party) (facts : Facts) (now : Time)
      → (Workflow.execute std w actor (some facts) now).0 ≡ none
      → verify_receipts std w.id w.receipts ≡ none
      → let w' = (Workflow.execute std w actor (some facts) now).1 in
        (actor ≡ w.actor)
        × (w.status ≡ opened)
        × (walk w facts ≡ ok (w'.path, w'.action))
        × (w'.status ≡ executed)
        × (w'.closed_at ≡ some now)
        × (w'.receipts
            ≡ w.receipts
              ++ next_receipt std w.id w.receipts actor "execute" (walk_note w'.path w'.action) now
                ∷ [])
        × (verify_receipts std w'.id w'.receipts ≡ none)
  unfolding Workflow.execute
  execute_records w actor facts now h v = grind (arith, eq_iff, verify_receipts-next_receipt)

  -- An execution that fails has changed nothing but the step count.
  failed_execute :
      (w : Workflow) (actor : Party) (facts : Option Facts) (now : Time) {e : Error}
      → (Workflow.execute std w actor facts now).0 ≡ some e
      → record ((Workflow.execute std w actor facts now).1) { steps = w.steps } ≡ w
  unfolding Workflow.execute
  failed_execute w actor none now h = ground arith
  failed_execute w actor (some facts) now h = ground arith

  -- An execution on a workflow that is not open is refused and changes nothing at all.
  executed_once :
      (w : Workflow) (actor : Party) (facts : Option Facts) (now : Time)
      → w.status ≢ opened
      → ((Workflow.execute std w actor facts now).0 ≢ none)
        × ((Workflow.execute std w actor facts now).1 ≡ w)
  unfolding Workflow.execute
  executed_once w actor none now h = ground arith
  executed_once w actor (some facts) now h = ground arith

  -- The id that `OpenWorkflow` files a node under.
  abbrev pub filed_as : String → Node → String
  filed_as k n = if n.id == "" then k else n.id

  -- No node is filed under `a`.
  abbrev pub NoneFiled : String → Nodes → Type 0
  NoneFiled a [] = Unit
  NoneFiled a ((k, n) ∷ rest) = (filed_as k n ≢ a) × NoneFiled a rest

  missing-put :
      (a j : String) (n : Node) (nodes : Nodes)
      → j ≢ a
      → lookup a nodes ≡ none
      → lookup a (put j n nodes) ≡ none
  unfolding lookup put
  missing-put a j n [] other h = ground (arith, eq_iff j a)
  missing-put a j n ((k, m) ∷ rest) other h =
      ground (arith, eq_iff j a, eq_iff k j, missing-put a j n rest other)

  missing-clean_nodes :
      (a : String) (nodes cleaned rest : Nodes) {out : Nodes}
      → NoneFiled a rest
      → lookup a cleaned ≡ none
      → Workflow.clean_nodes nodes cleaned rest ≡ ok out
      → lookup a out ≡ none
  unfolding Workflow.clean_nodes
  missing-clean_nodes a nodes cleaned [] others h made = ground (arith, h, made)
  missing-clean_nodes a nodes cleaned ((k, n) ∷ rest) {out} others h made =
      let j = filed_as k n in
      let n' : Node = record n { id = j } in
      missing-clean_nodes a nodes (put j n' cleaned) rest others.1
        (missing-put a j n' cleaned others.0 h) (ground (arith, made))

  missing-open_workflow :
      (a id : String) (actor : Party) (root : String) (nodes : Nodes) (meter : Meter) (now : Time)
      {w : Workflow}
      → NoneFiled a nodes
      → Workflow.open_workflow std id actor root nodes meter now ≡ ok w
      → (lookup a w.nodes ≡ none) × (w.root ≡ root)
  unfolding Workflow.open_workflow
  missing-open_workflow a id actor root nodes meter now {w} others h =
      elim (Result-cases (Workflow.clean_nodes nodes [] nodes)) [
        | inl (e, failed) ↦ absurd (ground arith)
        | inr (out, made) ↦
            let m =
              missing-clean_nodes a nodes [] nodes {out = out} others (unfold lookup in refl)
                made in
            ground (arith, m)
      ]

  -- Two rounds of a walk at a gate whose first child is not there.
  walk_from_missing :
      (nodes : Nodes) (facts : Facts) (fuel : ℕ) (root a : String) (rest : List String) (n : Node)
      → lookup root nodes ≡ some n
      → n.kind ≡ "gate"
      → n.next ≡ a ∷ rest
      → reqs_met n.require facts ≡ true
      → a ≢ ""
      → lookup a nodes ≡ none
      → walk_from nodes facts (suc (suc fuel)) [] [] root ≡ some (err bad_tree)
  unfolding walk_from first_match reqs_met member
  walk_from_missing nodes facts fuel root a rest n found gate children met named missing =
      let inner : (n.kind == "action") ≡ false = ap (λ k. k == "action") gate in
      let picks : first_match nodes facts n.next ≡ a =
        ap (first_match nodes facts) children
        ∙ ap (λ o. if reqs_met (require_of o) facts then a else first_match nodes facts rest)
            missing in
      let other : root ≢ a = λ e. ground (arith, found, ap (λ k. lookup k nodes) e ∙ missing) in
      ground (arith, found, inner, picks, met, missing, other, eq_iff a "", eq_iff root a)

  -- `OpenWorkflow` looks children up among the keys of its argument and files each node under its id.
  -- Where it opens a tree, no node of which has the id `a`, and the gate at the root lists `a`, which is
  -- not empty, first, every walk of that workflow with facts that meet the requirements of the root
  -- answers ErrBadTree: the missing child requires nothing, so that it is taken.
  pub misnamed_child_unreachable :
      (a id : String) (actor : Party) (root : String) (nodes : Nodes) (meter : Meter) (now : Time)
      (facts : Facts) (rest : List String) (n : Node) {w : Workflow}
      → Workflow.open_workflow std id actor root nodes meter now ≡ ok w
      → NoneFiled a nodes
      → a ≢ ""
      → lookup root w.nodes ≡ some n
      → n.kind ≡ "gate"
      → n.next ≡ a ∷ rest
      → reqs_met n.require facts ≡ true
      → walk w facts ≡ err bad_tree
  unfolding walk
  misnamed_child_unreachable a id actor root nodes meter now facts rest n {w} h others named found
        gate children met =
      let (missing, is_root) = missing-open_workflow a id actor root nodes meter now others h in
      let walked =
        walk_from_missing w.nodes facts (length w.nodes + 1) root a rest n found gate children met
          named missing in
      ground (arith, is_root, found, walked)
