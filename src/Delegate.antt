-- ===== src/Delegate.antt =====
-- internal/nexum/delegate.go: a parent offers work to an intern, and pays for proven work.
pub mod Ops
use Prim.Native.String.{◌++◌ as ◌<>◌}
use nexum.Prelude.{
  ℕ, ◌+◌, String, Bool, true, false, not, ◌||◌, ◌&&◌, Option, none, some, List, [], ◌∷◌, ◌++◌, ◌==◌,
  if◌then◌else◌,
}
use nexum.Prelude.Int.{ℤ, pos, leb_ℤ, ltb_ℤ}
use nexum.Errors.{
  Result, err, Outcome, done, fail, returned, ◌>>=◌, wrong_party, bad_state, takeback, budget, dos,
  zero_amount, same_party, missing_party, empty_offer, no_proof, not_claimed,
}
use nexum.Std.{Std, Time}
use nexum.Meter.{Status, offered, claimed, proven, paid, rejected, Meter, TokenUnit, over_budget}
use nexum.Receipt.{Receipt, Party, next_receipt}

pub record Task : Type 0 where
  pub offer : String
  pub proof_kind : String

pub record Delegate : Type 0 where
  pub id : String
  pub kind : String
  pub parent : Party
  pub intern : Party
  pub reward : ℤ
  pub unit : TokenUnit
  pub task : Task
  pub status : Status
  pub proof : String
  pub meter : Meter
  pub created_at : Time
  pub closed_at : Option Time
  pub released_to : Party
  pub receipts : List Receipt
  pub steps : ℕ

-- The method `terminal`, which looks at the status alone.
abbrev pub is_terminal : Status → Bool
is_terminal paid = true
is_terminal rejected = true
is_terminal _ = false

abbrev pub is_offered : Status → Bool
is_offered offered = true
is_offered _ = false

abbrev pub is_claimed : Status → Bool
is_claimed claimed = true
is_claimed _ = false

abbrev pub is_proven : Status → Bool
is_proven proven = true
is_proven _ = false

abbrev pub kind_delegate : String
kind_delegate = "delegate.intern"

module _ (std : Std) where
  -- `steps` grows before the bound is tested, so a refused step counts too.
  unfoldable pub append : Delegate → Party → String → String → Time → Outcome Delegate
  append d actor action note now =
      let d' : Delegate = record d { steps = d.steps + 1 } in
      if ltb_ℤ d.meter.max_steps (pos (d.steps + 1))
      then fail dos d'
      else if over_budget std d.meter
      then fail budget d'
      else done (record d' {
        receipts = d.receipts ++ next_receipt std d.id d.receipts actor action note now ∷ [];
      })

  unfoldable pub open_delegate : String → Party → Party → ℤ → Task → Meter → Time → Result Delegate
  unfolding append
  open_delegate id parent intern reward task meter now =
      if parent == "" || intern == ""
      then err missing_party
      else if parent == intern
      then err same_party
      else if leb_ℤ reward (pos 0)
      then err zero_amount
      else if task.offer == ""
      then err empty_offer
      else returned (
          append
            (record {
              id = id;
              kind = kind_delegate;
              parent = parent;
              intern = intern;
              reward = reward;
              unit = record { symbol = "" };
              task = record task {
                proof_kind = if task.proof_kind == "" then "citation" else task.proof_kind;
              };
              status = offered;
              proof = "";
              meter = record meter {
                max_steps = if leb_ℤ meter.max_steps (pos 0) then pos 16 else meter.max_steps;
              };
              created_at = now;
              closed_at = none;
              released_to = "";
              receipts = [];
              steps = 0;
            })
            parent "offer" task.offer now)

  unfoldable pub claim : Delegate → Party → Time → Outcome Delegate
  unfolding append
  claim d actor now =
      if not (actor == d.intern)
      then fail wrong_party d
      else if is_terminal d.status
      then fail takeback d
      else if not (is_offered d.status)
      then fail bad_state d
      else do
        d' ← append d actor "claim" "intern claimed" now
        done (record d' { status = claimed })

  unfoldable pub submit_proof : Delegate → Party → String → Time → Outcome Delegate
  unfolding append
  submit_proof d actor citation now =
      if not (actor == d.intern)
      then fail wrong_party d
      else if not (is_claimed d.status)
      then fail not_claimed d
      else if citation == ""
      then fail no_proof d
      else do
        d' ← append d actor "proof" citation now
        done (record d' { proof = citation; status = proven })

  unfoldable pub accept_proof : Delegate → Party → Time → Outcome Delegate
  unfolding append
  accept_proof d actor now =
      if not (actor == d.parent)
      then fail wrong_party d
      else if is_terminal d.status
      then fail takeback d
      else if not (is_proven d.status)
      then fail bad_state d
      else do
        d' ← append d actor "pay" ("reward " <> std.decimal d.reward <> " released to intern") now
        done (record d' { closed_at = some now; released_to = d'.intern; status = paid })

  unfoldable pub reject_proof : Delegate → Party → Time → Outcome Delegate
  unfolding append
  reject_proof d actor now =
      if not (actor == d.parent)
      then fail wrong_party d
      else if not (is_proven d.status) && not (is_claimed d.status)
      then (if is_terminal d.status then fail takeback d else fail bad_state d)
      else do
        d' ← append d actor "reject-proof" "proof refused, no reward" now
        done (record d' { closed_at = some now; released_to = d'.parent; status = rejected })

  unfoldable pub cancel : Delegate → Party → Time → Outcome Delegate
  unfolding append
  cancel d actor now =
      if not (actor == d.parent)
      then fail wrong_party d
      else if not (is_offered d.status)
      then fail takeback d
      else do
        d' ← append d actor "cancel" "offer cancelled before claim" now
        done (record d' { closed_at = some now; released_to = d'.parent; status = rejected })
