-- ===== src/Workflow/Walk.antt =====
-- The walk ends, and its path is the one that the tree and the facts fix.
use nexum.Prelude.{
  ℕ, zero, suc, ◌+◌, ◌≤◌, String, ◌≡◌, ◌≢◌, true, false, none, some, List, [], ◌∷◌, ◌++◌, arith,
  length, length-snoc, Option-cases, inl, inr,
}
use nexum.Workflow.{Node, Nodes, Facts, Workflow, lookup, reqs_met, first_match, member, walk_from}

-- No item is on the list `seen` or stands twice.
abbrev pub Fresh : List String → List String → Type 0
Fresh seen [] = Unit
Fresh seen (x ∷ xs) = (member x seen ≡ false) × Fresh (x ∷ seen) xs

module _ (nodes : Nodes) (facts : Facts) where
  -- The path that the facts pick, from a node to an action.
  pub data Route : String → List String → String → Type 0 where
    arrive :
        (cur : String) (n : Node)
        → lookup cur nodes ≡ some n
        → reqs_met n.require facts ≡ true
        → n.kind ≡ "action"
        → Route cur (cur ∷ []) n.id
    descend :
        (cur : String) (n : Node) (path : List String) (action : String)
        → lookup cur nodes ≡ some n
        → reqs_met n.require facts ≡ true
        → n.kind ≢ "action"
        → first_match nodes facts n.next ≢ ""
        → Route (first_match nodes facts n.next) path action
        → Route cur (cur ∷ path) action

  -- Each round that goes on leaves the path within the bound that it tests.
  walk_from_enough :
      (fuel : ℕ) (seen path : List String) (cur : String)
      → length path ≤ length nodes + 1
      → length nodes + 2 ≤ fuel + length path
      → walk_from nodes facts fuel seen path cur ≢ none
  unfolding walk_from
  walk_from_enough zero seen path cur short enough = absurd (omega arith)
  walk_from_enough (suc fuel) seen path cur short enough = elim (Option-cases (lookup cur nodes)) [
    | inl missing ↦ ground arith
    | inr (n, found) ↦ ground (
      arith,
      length-snoc path cur,
      walk_from_enough fuel (cur ∷ seen) (path ++ cur ∷ []) (first_match nodes facts n.next),
    )
  ]

-- `Walk` ends on every tree and all facts, cyclic trees too: the rounds that its own tests allow are
-- fewer than the fuel that the model gives it.
pub walk_ends :
    (w : Workflow) (facts : Facts)
    → walk_from w.nodes facts (length w.nodes + 3) [] [] w.root ≢ none
walk_ends w facts =
    walk_from_enough w.nodes facts (length w.nodes + 3) [] [] w.root (omega arith) (omega arith)
