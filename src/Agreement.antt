-- ===== src/Agreement.antt =====
-- internal/nexum/agreement.go and token.go: a bilateral agreement, its constructors, and the
-- methods that do not look into a sealed ledger. `Accept`, `Reject` and the sealed paths are in
-- Room.antt.
use nexum.Prelude.{
  ℕ, ◌+◌, String, Bool, true, false, not, ◌||◌, ◌&&◌, Option, none, some, List, [], ◌∷◌, ◌++◌, ◌==◌,
  if◌then◌else◌,
}
use nexum.Prelude.Int.{ℤ, pos, leb_ℤ}
use nexum.Errors.{
  Result, err, Outcome, done, fail, returned, ◌>>=◌, wrong_party, bad_state, takeback, budget, dos,
  zero_amount, same_party, missing_party, not_yet, no_deadline, empty_citation, kind_required,
  note_action,
}
use nexum.Std.{Std, Bytes, Time, before, is_zero_time}
use nexum.Meter.{
  Status, opened, locked, accepted, rejected, expired, Meter, TokenUnit, over_budget, is_open,
  is_locked,
}
use nexum.Settle.{EncryptedLedger}
use nexum.Receipt.{Receipt, Party, next_receipt}

-- `sealed` is the pointer `Sealed`; a `*time.Time` is an option; no party released to is "".
pub record Agreement : Type 0 where
  pub id : String
  pub kind : String
  pub buyer : Party
  pub seller : Party
  pub amount : ℤ
  pub unit : TokenUnit
  pub status : Status
  pub meter : Meter
  pub deadline : Time
  pub created_at : Time
  pub locked_at : Option Time
  pub closed_at : Option Time
  pub released_to : Party
  pub receipts : List Receipt
  pub sealed : Option EncryptedLedger
  pub sealed_locks : List Bytes
  pub sealed_sum : Bytes
  pub steps : ℕ

-- The method `terminal`, which looks at the status alone.
abbrev pub is_terminal : Status → Bool
is_terminal accepted = true
is_terminal rejected = true
is_terminal expired = true
is_terminal _ = false

-- actor != a.Buyer && actor != a.Seller
abbrev pub outsider : Agreement → Party → Bool
outsider a actor = not (actor == a.buyer) && not (actor == a.seller)

abbrev pub house_escrow : String
house_escrow = "escrow.house"

-- The meter with its defaults filled in.
unfoldable pub default_meter : Meter → Meter
default_meter m = record m {
  max_steps = if leb_ℤ m.max_steps (pos 0) then pos 8 else m.max_steps;
  effort = if m.effort == "" then "flash" else m.effort;
}

module _ (std : Std) where
  unfoldable pub append : Agreement → Party → String → String → Time → Outcome Agreement
  append a actor action note now =
      if leb_ℤ a.meter.max_steps (pos a.steps)
      then fail dos a
      else if over_budget std a.meter
      then fail budget a
      else done (record a {
        receipts = a.receipts ++ next_receipt std a.id a.receipts actor action note now ∷ [];
        steps = a.steps + 1;
      })

  unfoldable pub open_with :
      String → String → Party → Party → ℤ → Meter → Time → String → Result Agreement
  unfolding append default_meter
  open_with id kind buyer seller amount meter now note =
      if buyer == "" || seller == ""
      then err missing_party
      else if buyer == seller
      then err same_party
      else if leb_ℤ amount (pos 0)
      then err zero_amount
      else returned (
          append
            (record {
              id = id;
              kind = kind;
              buyer = buyer;
              seller = seller;
              amount = amount;
              unit = record { symbol = "" };
              status = opened;
              meter = default_meter meter;
              deadline = 0;
              created_at = now;
              locked_at = none;
              closed_at = none;
              released_to = "";
              receipts = [];
              sealed = none;
              sealed_locks = [];
              sealed_sum = [];
              steps = 0;
            })
            buyer "open" note now)

  unfoldable pub open_escrow : String → Party → Party → ℤ → Meter → Time → Result Agreement
  open_escrow id buyer seller amount meter now =
      open_with id house_escrow buyer seller amount meter now "escrow opened"

  unfoldable pub open_agreement :
      String → String → Party → Party → ℤ → Meter → Time → Result Agreement
  open_agreement id kind buyer seller amount meter now =
      if kind == ""
      then err kind_required
      else open_with id kind buyer seller amount meter now "agreement opened"

  unfoldable pub lock : Agreement → Party → Time → Outcome Agreement
  unfolding append
  lock a actor now =
      if not (actor == a.buyer)
      then fail wrong_party a
      else if not (is_open a.status)
      then (if is_terminal a.status then fail takeback a else fail bad_state a)
      else do
        a' ← append a actor "lock" "value locked" now
        done (record a' { locked_at = some now; status = locked })

  unfoldable pub set_deadline : Agreement → Party → Time → Time → Outcome Agreement
  unfolding append
  set_deadline a actor deadline now =
      if outsider a actor
      then fail wrong_party a
      else if is_terminal a.status
      then fail takeback a
      else if not (before now deadline)
      then fail not_yet a
      else do
        a' ← append a actor "deadline" (std.rfc3339 deadline) now
        done (record a' { deadline = deadline })

  unfoldable pub expire : Agreement → Party → Time → Outcome Agreement
  unfolding append
  expire a actor now =
      if outsider a actor
      then fail wrong_party a
      else if not (is_open a.status) && not (is_locked a.status)
      then fail takeback a
      else if is_zero_time a.deadline
      then fail no_deadline a
      else if before now a.deadline
      then fail not_yet a
      else do
        a' ← append a actor "expire" "deadline passed, value unlocked" now
        done (record a' { closed_at = some now; released_to = a'.buyer; status = expired })

  unfoldable pub note : Agreement → Party → String → String → Time → Outcome Agreement
  unfolding append
  note a actor action citation now =
      if outsider a actor
      then fail wrong_party a
      else if is_terminal a.status
      then fail takeback a
      else if citation == ""
      then fail empty_citation a
      else if not (action == "evidence")
      then fail (note_action action) a
      else append a actor action citation now

abbrev pub denominate : String → TokenUnit → TokenUnit
denominate symbol unit = if not (symbol == "") then record { symbol = symbol } else unit

-- The nil receiver of token.go is `none`.
unfoldable pub with_unit : Option Agreement → String → Option Agreement
with_unit none symbol = none
with_unit (some a) symbol = some (record a { unit = denominate symbol a.unit })

unfoldable pub requires_token : Option Agreement → Bool
requires_token none = false
requires_token (some a) = not (a.unit.symbol == "")
