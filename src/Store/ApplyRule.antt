-- ===== src/Store/ApplyRule.antt =====
-- What holds of each way that `Apply` ends holds of `Apply`.
use nexum.Prelude.{
  ◌≡◌, refl, String, true, false, not, Option, none, some, ◌==◌, arith, if_cases, if◌then◌else◌,
  eq_iff,
}
use nexum.Errors.{
  Error, Result, ok, err, Outcome, commit_uncertain, operation_conflict, foreign_operation,
  operation_too_large,
}
use nexum.Std.{Std, Bytes, Time}
use nexum.Room.{Entropy}
use nexum.Identity.{Crypto}
use nexum.Contract
use nexum.Contract.{Contract, signer}
use nexum.Operation.{
  Operation, Answer, Committed, StoredContract, Persist, get_entry, same_operation,
  validate_operation_id, verify_operation, operations_of,
}
use nexum.Disk
use nexum.Disk.{
  Disk, Faults, max_checkpoint, renamed, synced, sync_directory, after_rename, commit_file,
  file_content, read,
}
use nexum.Store
use nexum.Store.{
  Reply, ContractState, concluded, written_if, answer_of, committed_record, with_lock, is_too_large,
}
use nexum.Store.Rules.{IsHexId, sync_rule, with_lock_rule}

-- What `Apply` asks of an operation before it reads.
pub record Accepted (persist : Persist) (id : String) (op : Operation) : Type 0 where
  pub valid_id : validate_operation_id persist op.id ≡ none
  pub small : is_too_large persist op ≡ false
  pub is_hex : IsHexId persist id

module _ (std : Std) (crypto : Crypto) (persist : Persist) where
  -- What `Apply` knows once the operation is authentic.
  pub record Authentic (f : Faults) (id : String) (op : Operation) (signature : Bytes) (d : Disk)
      (r : StoredContract) (c : Contract) : Type 0 where
    pub found : read std crypto persist f id d ≡ ok (r, c)
    pub named : op.command.terms ≡ id
    pub signed :
        verify_operation std crypto persist (signer c op.command.action) op signature ≡ none
    pub is_accepted : Accepted persist id op

  module _ (f : Faults) (id : String) (op : Operation) (signature : Bytes) (rnd : Entropy)
      (now : Time) (d : Disk) (P : Reply Answer → Type 0) where
    abbrev pub WhenRetried : Type 0
    WhenRetried =
        (r : StoredContract) (c : Contract) (prior : Committed)
        → Authentic f id op signature d r c
        → get_entry op.id (operations_of r) ≡ some prior
        → same_operation prior.operation op ≡ true
        → P (err commit_uncertain, d) × P (ok prior.answer, synced d)

    abbrev pub WhenCarried : Type 0
    WhenCarried =
        (r : StoredContract) (c c' : Contract)
        → Authentic f id op signature d r c
        → get_entry op.id (operations_of r) ≡ none
        → Contract.apply_verified std crypto c op.command signature rnd now ≡ (none, c')
        → P (
            concluded (answer_of id op c')
              (Disk.write persist f id (committed_record r id op signature c') d))

    carry_out_rule :
        (r : StoredContract) (c : Contract) (out : Outcome Contract)
        → Authentic f id op signature d r c
        → get_entry op.id (operations_of r) ≡ none
        → Contract.apply_verified std crypto c op.command signature rnd now ≡ out
        → ((e : Error) → P (err e, d))
        → WhenCarried
        → P (
            written_if out.0 d (
              concluded
                (answer_of id op out.1)
                (Disk.write persist f id (committed_record r id op signature out.1) d)))
    carry_out_rule r c (some e, c') authentic fresh tried refused carried = refused e
    carry_out_rule r c (none, c') authentic fresh tried refused carried =
        carried r c c' authentic fresh tried

    entry_rule :
        (r : StoredContract) (c : Contract) (o : Option Committed)
        → Authentic f id op signature d r c
        → get_entry op.id (operations_of r) ≡ o
        → ((e : Error) → P (err e, d))
        → WhenRetried
        → WhenCarried
        → P (elim o [
          | some prior ↦
              if not (same_operation prior.operation op)
              then (err operation_conflict, d)
              else concluded prior.answer (sync_directory f commit_uncertain d)
          | none ↦ Store.carry_out std crypto persist f id op signature rnd now r c d
        ])
    unfolding Store.carry_out
    entry_rule r c none authentic fresh refused retried carried =
        carry_out_rule r c (Contract.apply_verified std crypto c op.command signature rnd now)
          authentic fresh refl refused carried
    entry_rule r c (some prior) authentic known refused retried carried =
        if_cases P (not (same_operation prior.operation op)) (λ other. refused operation_conflict)
          (λ same.
            let (lost, kept) = retried r c prior authentic known (ground arith) in
            sync_rule persist P f prior.answer d lost kept)

    signed_rule :
        (r : StoredContract) (c : Contract) (o : Option Error)
        → read std crypto persist f id d ≡ ok (r, c)
        → op.command.terms ≡ id
        → Accepted persist id op
        → verify_operation std crypto persist (signer c op.command.action) op signature ≡ o
        → ((e : Error) → P (err e, d))
        → WhenRetried
        → WhenCarried
        → P (elim o [
          | some e ↦ (err e, d)
          | none ↦ Store.apply_authentic std crypto persist f id op signature rnd now r c d
        ])
    unfolding Store.apply_authentic
    signed_rule r c (some e) found named valid signed refused retried carried = refused e
    signed_rule r c none found named valid signed refused retried carried =
        entry_rule r c (get_entry op.id (operations_of r))
          (record { found = found; named = named; signed = signed; is_accepted = valid }) refl
          refused retried carried

    found_rule :
        (o : Result (StoredContract × Contract))
        → read std crypto persist f id d ≡ o
        → Accepted persist id op
        → ((e : Error) → P (err e, d))
        → WhenRetried
        → WhenCarried
        → P (elim o [
          | err e ↦ (err e, d)
          | ok (r, c) ↦
              if not (op.command.terms == id)
              then (err foreign_operation, d)
              else elim (verify_operation std crypto persist
                  (signer c op.command.action)
                  op
                  signature) [
                    | some e ↦ (err e, d)
                    | none ↦
                        Store.apply_authentic std crypto persist f id op signature rnd now r c d
                  ]
        ])
    found_rule (err e) found valid refused retried carried = refused e
    found_rule (ok (r, c)) found valid refused retried carried =
        if_cases P (not (op.command.terms == id)) (λ other. refused foreign_operation)
          (λ same.
            signed_rule r c
              (verify_operation std crypto persist (signer c op.command.action) op signature) found
              (ground (arith, eq_iff op.command.terms id)) valid refl refused retried carried)

    named_rule :
        (o : Option Error)
        → validate_operation_id persist op.id ≡ o
        → ((e : Error) → P (err e, d))
        → WhenRetried
        → WhenCarried
        → P (elim o [
          | some e ↦ (err e, d)
          | none ↦
              if is_too_large persist op
              then (err operation_too_large, d)
              else with_lock persist f id d (elim (read std crypto persist f id d) [
                | err e ↦ (err e, d)
                | ok (r, c) ↦
                    if not (op.command.terms == id)
                    then (err foreign_operation, d)
                    else elim (verify_operation std crypto persist
                        (signer c op.command.action)
                        op
                        signature) [
                          | some e ↦ (err e, d)
                          | none ↦
                              Store.apply_authentic std crypto persist f id op signature rnd now r c
                                d
                        ]
              ])
        ])
    named_rule (some e) valid refused retried carried = refused e
    named_rule none valid refused retried carried =
        if_cases P (is_too_large persist op) (λ large. refused operation_too_large)
          (λ small. with_lock_rule persist P f id d _ refused (λ hex.
            found_rule (read std crypto persist f id d) refl
              (record { valid_id = valid; small = small; is_hex = hex }) refused retried carried))

    -- `Apply` refuses and leaves the disk, answers the entry of an operation that it has, or carries
    -- out the command and writes.
    pub apply_rule :
        ((e : Error) → P (err e, d))
        → WhenRetried
        → WhenCarried
        → P (Store.apply std crypto persist f id op signature rnd now d)
    unfolding Store.apply
    apply_rule refused retried carried =
        named_rule (validate_operation_id persist op.id) refl refused retried carried
