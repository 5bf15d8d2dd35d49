-- ===== src/Store.antt =====
-- nex/store.go: the methods of a store of contracts. Each runs under the lock of its contract, so that one
-- call follows another; it answers a value or an error, and leaves the disk.
pub mod Rules
pub mod ApplyRule
pub mod Kept
pub mod Events
pub mod Recorded
pub mod Once
pub mod Retry
pub mod Register
pub mod Rewritten
pub mod Written
use nexum.Prelude.{
  ℕ, String, Bool, true, false, not, ◌||◌, ◌&&◌, Option, none, some, List, [], ◌∷◌, ◌++◌, length,
  ltb, nat_eq, ◌==◌, if◌then◌else◌,
}
use nexum.Prelude.Int.{ℤ, pos}
use nexum.Errors.{
  Error, Result, ok, err, Outcome, already_stored, operation_conflict, commit_uncertain, not_new,
  operation_too_large, foreign_operation, bad_contract_id, io_error,
}
use nexum.Std.{Std, Bytes, Time, text_bytes}
use nexum.Meter.{Status, is_open}
use nexum.Receipt.{Receipt}
use nexum.Room.{Entropy}
use nexum.Identity.{Public, Terms, Command, Crypto}
use nexum.Checkpoint.{private_checkpoint}
use nexum.Contract
use nexum.Contract.{Contract, signer, head}
use nexum.Operation.{
  Operation, Answer, Committed, Entries, StoredContract, Persist, get_entry, put_entry,
  same_operation, validate_operation_id, verify_operation, operations_of,
}
use nexum.Restore.{restore, is_none}
use nexum.Disk.{Disk, Faults, sync_directory, write, read}

-- What a method answers, and the disk that it leaves.
abbrev pub Reply : Type 0 → Type 0
Reply A = Result A × Disk

pub record ContractState : Type 0 where
  pub id : String
  pub terms : Terms
  pub head : String
  pub status : Status
  pub agreed : Bool
  pub receipts : List Receipt

-- The answer of a method whose last step was this one.
abbrev pub concluded : {A : Type 0} → A → Outcome Disk → Reply A
concluded a (none, d) = (ok a, d)
concluded a (some e, d) = (err e, d)

abbrev pub state_of_contract : String → StoredContract → Contract → ContractState
state_of_contract id r c = record {
  id = id;
  terms = r.terms;
  head = head c;
  status = c.agreement.status;
  agreed = c.agreed;
  receipts = c.agreement.receipts;
}

-- The record that `Create` writes.
abbrev pub new_record : Contract → StoredContract
new_record c = record {
  version = pos 1;
  terms = c.definition;
  buyer = c.buyer;
  seller = c.seller;
  agreed = false;
  checkpoint = private_checkpoint c.agreement;
  operations = some [];
}

-- The answer of an operation that has just been carried out, and the record that `Apply` writes.
abbrev pub answer_of : String → Operation → Contract → Answer
answer_of id op c = record {
  contract_id = id;
  operation_id = op.id;
  head = head c;
  status = c.agreement.status;
}

abbrev pub committed_record :
    StoredContract → String → Operation → Bytes → Contract → StoredContract
committed_record r id op signature c = record r {
  agreed = c.agreed;
  checkpoint = private_checkpoint c.agreement;
  operations = some (
      put_entry op.id (record { operation = op; signature = signature; answer = answer_of id op c })
        (operations_of r));
}

-- What `Prepare` makes of the view.
abbrev pub prepared : String → String → String → String → Result ContractState → Result Operation
prepared id operation_id action evidence (err e) = err e
prepared id operation_id action evidence (ok v) = ok (record {
  id = operation_id;
  command = record { terms = id; head = v.head; action = action; evidence = evidence };
})

-- What `Apply` does once the command has been tried.
abbrev pub written_if : {A : Type 0} → Option Error → Disk → Reply A → Reply A
written_if none d written = written
written_if (some e) d written = (err e, d)

module _ (persist : Persist) where
  -- `withLock`
  abbrev pub with_lock : {A : Type 0} → Faults → String → Disk → Reply A → Reply A
  with_lock f id d body = elim (persist.decode_hex id) [
    | none ↦ (err bad_contract_id, d)
    | some b ↦
        if not (nat_eq (length b) 32) || not (persist.encode_hex b == id)
        then (err bad_contract_id, d)
        else if f.lock_fails
        then (err io_error, d)
        else body
  ]

  -- The bounds of `Apply` on the fields of an operation.
  abbrev pub is_too_large : Operation → Bool
  is_too_large op =
      ltb 65536 (length (text_bytes op.command.evidence))
      || ltb 32 (length (text_bytes op.command.action))
      || not (persist.valid_utf8 op.command.evidence)
      || not (persist.valid_utf8 op.command.action)

module _ (std : Std) (crypto : Crypto) (persist : Persist) where
  -- `Create`; os.Lstat finds the file that is seen.
  unfoldable pub create : Faults → Contract → Disk → Reply (Unit {0})
  create f c d =
      if not (is_open c.agreement.status)
        || c.agreed
        || not (nat_eq (length c.agreement.receipts) 2)
        || is_none c.agreement.sealed
      then (err not_new, d)
      else with_lock persist f c.terms d (
          if f.stat_fails then (err io_error, d) else elim (d.visible c.terms) [
            | some content ↦ (err already_stored, d)
            | none ↦ elim (restore std crypto persist (new_record c) c.terms) [
              | err e ↦ (err e, d)
              | ok restored ↦ concluded tt (write persist f c.terms (new_record c) d)
            ]
          ])

  unfoldable pub view : Faults → String → Disk → Reply ContractState
  view f id d = with_lock persist f id d (elim (read std crypto persist f id d) [
    | err e ↦ (err e, d)
    | ok (r, c) ↦ concluded (state_of_contract id r c) (sync_directory f commit_uncertain d)
  ])

  -- `Prepare`
  unfoldable pub prepare : Faults → String → String → String → String → Disk → Reply Operation
  unfolding view
  prepare f id operation_id action evidence d = elim (validate_operation_id persist operation_id) [
    | some e ↦ (err e, d)
    | none ↦ let (answer, d') = view f id d in (prepared id operation_id action evidence answer, d')
  ]

  -- `Apply` on a new operation: the command, and the record with its result.
  unfoldable pub carry_out :
      Faults
      → String
      → Operation
      → Bytes
      → Entropy
      → Time
      → StoredContract
      → Contract
      → Disk
      → Reply Answer
  carry_out f id op signature rnd now r c d =
      let (failed, c') = Contract.apply_verified std crypto c op.command signature rnd now in
      written_if failed d (
        concluded (answer_of id op c')
          (write persist f id (committed_record r id op signature c') d))

  -- `Apply` on an operation that is authentic.
  unfoldable pub apply_authentic :
      Faults
      → String
      → Operation
      → Bytes
      → Entropy
      → Time
      → StoredContract
      → Contract
      → Disk
      → Reply Answer
  unfolding carry_out
  apply_authentic f id op signature rnd now r c d = elim (get_entry op.id (operations_of r)) [
    | some prior ↦
        if not (same_operation prior.operation op)
        then (err operation_conflict, d)
        else concluded prior.answer (sync_directory f commit_uncertain d)
    | none ↦ carry_out f id op signature rnd now r c d
  ]

  unfoldable pub apply : Faults → String → Operation → Bytes → Entropy → Time → Disk → Reply Answer
  unfolding apply_authentic
  apply f id op signature rnd now d = elim (validate_operation_id persist op.id) [
    | some e ↦ (err e, d)
    | none ↦
        if is_too_large persist op
        then (err operation_too_large, d)
        else with_lock persist f id d (elim (read std crypto persist f id d) [
          | err e ↦ (err e, d)
          | ok (r, c) ↦
              if not (op.command.terms == id)
              then (err foreign_operation, d)
              else elim (verify_operation std crypto persist (signer c op.command.action) op
                  signature) [
                    | some e ↦ (err e, d)
                    | none ↦ apply_authentic f id op signature rnd now r c d
                  ]
        ])
  ]
