-- ===== src/Workflow.antt =====
-- internal/nexum/workflow.go: a decision tree that facts walk to one action. A Go map is a list of
-- its entries, in the order of one iteration; a missing fact is false.
pub mod Walk
pub mod Ops
use Prim.Native.String.{◌++◌ as ◌<>◌}
use nexum.Prelude.{
  ℕ, zero, suc, ◌+◌, String, Bool, true, false, not, ◌||◌, ◌&&◌, Option, none, some, List, [], ◌∷◌,
  ◌++◌, ◌==◌, if◌then◌else◌, length, ltb,
}
use nexum.Prelude.Int.{ℤ, pos, leb_ℤ, ltb_ℤ}
use nexum.Errors.{
  Error, Result, ok, err, bind, Outcome, done, fail, attempt, returned, ◌>>=◌, wrong_party,
  takeback, dos, missing_party, bad_tree, no_path, walk_loop, empty_fact,
}
use nexum.Std.{Std, Time}
use nexum.Meter.{Status, opened, executed, Meter, is_open}
use nexum.Receipt.{Receipt, Party, next_receipt}

pub record Node : Type 0 where
  pub id : String
  pub kind : String
  pub require : List String
  pub next : List String

abbrev pub Nodes : Type 0
Nodes = List (String × Node)

abbrev pub Facts : Type 0
Facts = String → Bool

pub record Workflow : Type 0 where
  pub id : String
  pub kind : String
  pub root : String
  pub nodes : Nodes
  pub status : Status
  pub path : List String
  pub action : String
  pub meter : Meter
  pub created_at : Time
  pub closed_at : Option Time
  pub receipts : List Receipt
  pub actor : Party
  pub steps : ℕ

abbrev pub kind_workflow : String
kind_workflow = "workflow.tree"

unfoldable pub lookup : String → Nodes → Option Node
lookup k [] = none
lookup k ((j, n) ∷ rest) = if j == k then some n else lookup k rest

-- nodes[k] = n
unfoldable pub put : String → Node → Nodes → Nodes
put k n [] = (k, n) ∷ []
put k n ((j, m) ∷ rest) =
    let others = put k n rest in if j == k then (k, n) ∷ rest else (j, m) ∷ others

abbrev pub is_empty {ℓ} : {A : Type ℓ} → List A → Bool
is_empty [] = true
is_empty (x ∷ xs) = false

abbrev pub has {ℓ} : {A : Type ℓ} → Option A → Bool
has none = false
has (some a) = true

children_known : Nodes → List String → Bool
unfolding lookup
children_known nodes [] = true
children_known nodes (ch ∷ rest) = has (lookup ch nodes) && children_known nodes rest

-- The tests of `OpenWorkflow` on one node, its id filled in.
node_fits : Nodes → Node → Bool
unfolding children_known
node_fits nodes n =
    if not (n.kind == "gate") && not (n.kind == "action")
    then false
    else if n.kind == "action" && not (is_empty n.next)
    then false
    else if n.kind == "gate" && is_empty n.next
    then false
    else children_known nodes n.next

-- The loop of `OpenWorkflow` over the entries still to come; the result is `cleaned`. Its errors
-- all wrap ErrBadTree.
clean_nodes : Nodes → Nodes → Nodes → Result Nodes
unfolding node_fits put
clean_nodes nodes cleaned [] = ok cleaned
clean_nodes nodes cleaned ((k, n) ∷ rest) =
    let n' : Node = record n { id = if n.id == "" then k else n.id } in
    let others = clean_nodes nodes (put n'.id n' cleaned) rest in
    if node_fits nodes n' then others else err bad_tree

-- Every fact that is required is true.
unfoldable pub reqs_met : List String → Facts → Bool
reqs_met [] facts = true
reqs_met (r ∷ rs) facts = if not (facts r) then false else reqs_met rs facts

-- The requirements of nodes[ch]; a missing key yields the zero node, which requires nothing.
abbrev pub require_of : Option Node → List String
require_of none = []
require_of (some n) = n.require

-- The first child whose requirements are met, or "".
unfoldable pub first_match : Nodes → Facts → List String → String
unfolding lookup reqs_met
first_match nodes facts [] = ""
first_match nodes facts (ch ∷ rest) =
    if reqs_met (require_of (lookup ch nodes)) facts then ch else first_match nodes facts rest

unfoldable pub member : String → List String → Bool
member p [] = false
member p (x ∷ xs) = x == p || member p xs

module _ (nodes : Nodes) (facts : Facts) where
  -- The loop of `Walk` at `cur`; `none` is fuel that ran out.
  unfoldable pub walk_from :
      ℕ → List String → List String → String → Option (Result (List String × String))
  walk_from zero seen path cur = none
  walk_from (suc fuel) seen path cur =
      let visit : Option (Result (List String × String)) = elim (lookup cur nodes) [
        | none ↦ some (err bad_tree)
        | some n ↦
            let path' = path ++ cur ∷ [] in
            let next = first_match nodes facts n.next in
            let rest = walk_from fuel (cur ∷ seen) path' next in
            if not (reqs_met n.require facts)
            then some (err no_path)
            else if n.kind == "action"
            then some (ok (path', n.id))
            else if next == ""
            then some (err no_path)
            else if ltb (length nodes + 1) (length path')
            then some (err walk_loop)
            else rest
      ] in
      if member cur seen then some (err walk_loop) else visit

-- What the walk's answer is where the fuel is enough.
abbrev pub or_loop : Option (Result (List String × String)) → Result (List String × String)
or_loop none = err walk_loop
or_loop (some r) = r

-- `Walk`, with fuel for two rounds more than there are nodes.
unfoldable pub walk : Workflow → Facts → Result (List String × String)
walk w facts =
    if is_empty w.nodes
    then err bad_tree
    else or_loop (walk_from w.nodes facts (length w.nodes + 3) [] [] w.root)

-- The verb %v at a slice of strings.
spaced : List String → String
spaced [] = ""
spaced (x ∷ []) = x
spaced (x ∷ y ∷ rest) = x <> " " <> spaced (y ∷ rest)

unfoldable pub walk_note : List String → String → String
unfolding spaced
walk_note path action = "path=[" <> spaced path <> "] action=" <> action

module _ (std : Std) where
  -- `steps` grows before the bound is tested; the budget is not tested here.
  unfoldable pub append : Workflow → Party → String → String → Time → Outcome Workflow
  append w actor action note now =
      let w' : Workflow = record w { steps = w.steps + 1 } in
      if ltb_ℤ w.meter.max_steps (pos (w.steps + 1))
      then fail dos w'
      else done (record w' {
        receipts = w.receipts ++ next_receipt std w.id w.receipts actor action note now ∷ [];
      })

  -- The end of `OpenWorkflow`, on the cleaned nodes.
  open_cleaned : String → Party → String → Meter → Time → Nodes → Result Workflow
  unfolding append lookup
  open_cleaned id actor root meter now cleaned =
      if not (has (lookup root cleaned))
      then err bad_tree
      else returned (
          append
            (record {
              id = id;
              kind = kind_workflow;
              root = root;
              nodes = cleaned;
              status = opened;
              path = [];
              action = "";
              meter = record meter {
                max_steps = if leb_ℤ meter.max_steps (pos 0) then pos 64 else meter.max_steps;
              };
              created_at = now;
              closed_at = none;
              receipts = [];
              actor = actor;
              steps = 0;
            })
            actor "open" "workflow opened" now)

  unfoldable pub open_workflow : String → Party → String → Nodes → Meter → Time → Result Workflow
  unfolding clean_nodes open_cleaned
  open_workflow id actor root nodes meter now =
      if actor == ""
      then err missing_party
      else if root == "" || is_empty nodes
      then err bad_tree
      else bind (clean_nodes nodes [] nodes) (open_cleaned id actor root meter now)

  -- The end of `Execute`, on the path and the action of the walk.
  finish : Workflow → Party → Time → List String × String → Outcome Workflow
  unfolding append
  finish w actor now (path, action) = do
    w' ← append w actor "execute" (walk_note path action) now
    done (record w' { closed_at = some now; path = path; action = action; status = executed })

  -- `none` is the nil map.
  unfoldable pub execute : Workflow → Party → Option Facts → Time → Outcome Workflow
  unfolding finish
  execute w actor none now =
      if not (actor == w.actor)
      then fail wrong_party w
      else if not (is_open w.status)
      then fail takeback w
      else fail empty_fact w
  execute w actor (some facts) now =
      if not (actor == w.actor)
      then fail wrong_party w
      else if not (is_open w.status)
      then fail takeback w
      else attempt w (walk w facts) (finish w actor now)
