-- ===== src/Checkpoint.antt =====
-- internal/nexum/checkpoint.go: the private checkpoint of an agreement, and its restoration.
pub mod Restored
pub mod RoundTrip
pub mod Kept
use nexum.Prelude.{
  ℕ, String, Bool, true, false, not, ◌||◌, ◌&&◌, Option, none, some, List, [], ◌∷◌, length, ◌==◌,
  nat_eq, if◌then◌else◌,
}
use nexum.Prelude.Int.{ℤ, pos, leb_ℤ, ltb_ℤ, eq_ℤ}
use nexum.Errors.{Error, Result, ok, err, required, bad_checkpoint, bad_json}
use nexum.Std.{Std, Bytes, Time, bytes_eq}
use nexum.Meter.{opened, locked, accepted, rejected, expired}
use nexum.Settle
use nexum.Settle.{EncryptedLedger, LedgerState}
use nexum.Receipt.{verify_receipts}
use nexum.Agreement.{Agreement}
use nexum.Room.{is_empty}

-- A nil agreement or ledger is `none`.
pub record PrivateCheckpoint : Type 0 where
  pub version : ℤ
  pub agreement : Option Agreement
  pub steps : ℤ
  pub ledger : Option LedgerState

abbrev pub state_of : Option EncryptedLedger → Option LedgerState
state_of none = none
state_of (some l) = some (Settle.private_state l)

unfoldable pub private_checkpoint : Agreement → PrivateCheckpoint
private_checkpoint a = record {
  version = pos 1;
  agreement = some a;
  steps = pos a.steps;
  ledger = state_of a.sealed;
}

abbrev pub is_set : Option Time → Bool
is_set none = false
is_set (some t) = true

-- The switch over the status: what the stamps and the party released to have to be.
unfoldable pub life_fits : Agreement → Bool
life_fits a = elim a.status [
  | opened ↦ not (is_set a.locked_at || is_set a.closed_at || not (a.released_to == ""))
  | locked ↦ not (not (is_set a.locked_at) || is_set a.closed_at || not (a.released_to == ""))
  | accepted ↦
      not (not (is_set a.locked_at) || not (is_set a.closed_at) || not (a.released_to == a.seller))
  | rejected ↦
      not (not (is_set a.locked_at) || not (is_set a.closed_at) || not (a.released_to == a.buyer))
  | expired ↦ not (not (is_set a.closed_at) || not (a.released_to == a.buyer))
  | _ ↦ false
]

-- The long condition on the fields and the step count.
unfoldable pub misfit : Agreement → ℤ → Bool
misfit a steps =
    a.id == ""
    || a.kind == ""
    || a.buyer == ""
    || a.seller == ""
    || a.buyer == a.seller
    || leb_ℤ a.amount (pos 0)
    || not (eq_ℤ steps (pos (length a.receipts)))
    || ltb_ℤ steps (pos 1)
    || ltb_ℤ a.meter.max_steps steps
    || ltb_ℤ (pos 128) a.meter.max_steps

-- The test of the sealed sum against the locks, for the restored ledger.
unfoldable pub restore_sum : Agreement → EncryptedLedger → Result Agreement
restore_sum a ledger = elim a.sealed_locks [
  | [] ↦ if not (is_empty a.sealed_sum) then err bad_checkpoint else ok a
  | c ∷ rest ↦ elim (Settle.aggregate ledger (c ∷ rest)) [
    | err e ↦ err bad_checkpoint
    | ok sum ↦ elim a.status [
      | accepted ↦ if not (is_empty a.sealed_sum) then err bad_checkpoint else ok a
      | _ ↦ if not (bytes_eq sum a.sealed_sum) then err bad_checkpoint else ok a
    ]
  ]
]

unfoldable pub restore_ledger : Agreement → Option LedgerState → Result Agreement
unfolding restore_sum
restore_ledger a none =
    if not (is_empty a.sealed_locks) || not (is_empty a.sealed_sum)
    then err bad_checkpoint
    else ok a
restore_ledger a (some state) =
    if not (nat_eq (length state.randomness) (length a.sealed_locks))
    then err bad_checkpoint
    else elim (Settle.restore_private state) [
      | err e ↦ err bad_checkpoint
      | ok ledger ↦ restore_sum (record a { sealed = some ledger }) ledger
    ]

module _ (std : Std) where
  -- `RestorePrivate` on its own copy of the agreement. Past the first test, the step count is the
  -- number of receipts.
  unfoldable pub restore_copy : Agreement → ℤ → Option LedgerState → Result Agreement
  unfolding misfit life_fits restore_ledger
  restore_copy a steps ledger =
      if misfit a steps then err bad_checkpoint else elim (verify_receipts std a.id a.receipts) [
        | some e ↦ err bad_checkpoint
        | none ↦
            if not (life_fits a)
            then err bad_checkpoint
            else restore_ledger (record a { steps = length a.receipts }) ledger
      ]

  -- `json_copy` is json.Unmarshal after json.Marshal, `none` where one of them fails.
  unfoldable pub restore_private :
      (Agreement → Option Agreement) → PrivateCheckpoint → Result Agreement
  unfolding restore_copy
  restore_private json_copy s =
      if not (eq_ℤ s.version (pos 1)) then err bad_checkpoint else elim s.agreement [
        | none ↦ err bad_checkpoint
        | some original ↦
            required bad_json (json_copy original) λ a. restore_copy a s.steps s.ledger
      ]
