-- ===== src/Tests/Stores.antt =====
-- A store that keeps one sale, and the encoding of its records.
use nexum.Prelude.{
  zero, suc, ◌≡◌, ◌≢◌, refl, sym, ap, ◌∙◌, subst, String, Bool, true, false, ◌&&◌, Option, none,
  some, [], ◌∷◌, ◌==◌, arith, eq_iff, if◌then◌else◌, if_cases,
}
use nexum.Prelude.Int.{pos, eq_ℤ, ℤ, negsuc}
use nexum.Std.{Bytes, bytes_eq}
use nexum.Std.Equality.{bytes_eq_sound}
use nexum.Meter.{Status, expired}
use nexum.Meter
use nexum.Contract
use nexum.Contract.{Contract, command}
use nexum.Checkpoint.RoundTrip.{json_form}
use nexum.Operation.{
  Operation, Answer, Committed, Entries, StoredContract, Persist, get_entry, operations_of,
  same_operation, put_entry,
}
use nexum.Disk.ReadBack.{Faithful, SameOperations}
use nexum.Store.{new_record, committed_record, answer_of}
use nexum.Store.Kept.{same_text}
use nexum.Store.Once.{same_operation_sound}
use nexum.Tests.Checkpoints.{unlocked_ledger}
use nexum.Tests.Contracts.{plain_std, test_crypto, repeated, buyer_key, sale_contract, test_entropy}

-- The sale, with a key that can be restored.
abbrev pub wide_sale : Contract
wide_sale = record sale_contract {
  agreement = record sale_contract.agreement { sealed = some unlocked_ledger };
}

abbrev pub expiring : Operation
expiring = record { id = "op1"; command = command wide_sale "expire" "" }

abbrev pub sale_record : StoredContract
sale_record = new_record wide_sale

abbrev pub expired_contract : Contract
expired_contract =
    (Contract.apply_verified plain_std test_crypto wide_sale expiring.command buyer_key.signing
      test_entropy 21).1

abbrev pub expired_record : StoredContract
expired_record = committed_record sale_record "t1" expiring buyer_key.signing expired_contract

abbrev pub expiring_entry : Committed
expiring_entry = record {
  operation = expiring;
  signature = buyer_key.signing;
  answer = answer_of "t1" expiring expired_contract;
}

abbrev is_expired : Status → Bool
is_expired expired = true
is_expired _ = false

-- Two answers that agree, the second at an expired contract.
abbrev same_expired : Answer → Answer → Bool
same_expired a b =
    is_expired a.status
    && (is_expired b.status
        && (a.contract_id == b.contract_id
            && (a.operation_id == b.operation_id && a.head == b.head)))

abbrev same_entry : Committed → Committed → Bool
same_entry a b =
    same_operation a.operation b.operation
    && (bytes_eq a.signature b.signature && same_expired a.answer b.answer)

is_expired_sound : (s : Status) → is_expired s ≡ true → s ≡ expired
is_expired_sound Meter.opened h = cc
is_expired_sound Meter.locked h = cc
is_expired_sound Meter.accepted h = cc
is_expired_sound Meter.rejected h = cc
is_expired_sound expired h = refl
is_expired_sound Meter.ready h = cc
is_expired_sound Meter.executed h = cc
is_expired_sound Meter.refused h = cc
is_expired_sound Meter.offered h = cc
is_expired_sound Meter.claimed h = cc
is_expired_sound Meter.proven h = cc
is_expired_sound Meter.paid h = cc

same_expired_sound : (a b : Answer) → same_expired a b ≡ true → a ≡ b
same_expired_sound a b h = ground (
  arith,
  is_expired_sound a.status,
  is_expired_sound b.status,
  eq_iff a.contract_id b.contract_id,
  eq_iff a.operation_id b.operation_id,
  eq_iff a.head b.head,
)

same_entry_sound : (a b : Committed) → same_entry a b ≡ true → a ≡ b
same_entry_sound a b h = ground (
  arith,
  same_operation_sound a.operation b.operation,
  bytes_eq_sound a.signature b.signature,
  same_expired_sound a.answer b.answer,
)

-- The text of a record with no operations, or with this one.
abbrev entries_text : Committed → Entries Committed → Option Bytes
entries_text e [] = some (0 ∷ [])
entries_text e ((k, x) ∷ []) = if k == "op1" && same_entry x e then some (1 ∷ []) else none
entries_text e (x ∷ y ∷ rest) = none

abbrev record_text : Committed → StoredContract → Option Bytes
record_text e r = if eq_ℤ r.version (pos 1) then entries_text e (operations_of r) else none

abbrev text_record : Bytes → Option StoredContract
text_record [] = none
text_record (zero ∷ rest) = some sale_record
text_record (suc n ∷ rest) = some expired_record

abbrev opened_text : Bytes → Option Bytes
opened_text [] = none
opened_text (b ∷ plain) = some plain

-- The encryption puts a byte before the text.
abbrev pub test_persist : Persist
test_persist = record {
  marshal_operation = λ op. op.id;
  json_valid = λ s. true;
  json_copy = λ a. some (json_form a);
  marshal_stored = record_text expiring_entry;
  unmarshal_stored = text_record;
  trim_space = λ s. s;
  valid_utf8 = λ s. true;
  decode_hex = λ s. if s == "t1" then some (repeated 32 0) else none;
  encode_hex = λ b. "t1";
  encrypt = λ nonce plain context. 7 ∷ plain;
  decrypt = λ nonce content context. opened_text content;
  nonce_size = 1;
  overhead = 1;
}

abbrev Returned : StoredContract → Bytes → Type 0
Returned r plain = (r' : StoredContract) × (text_record plain ≡ some r') × SameOperations r r'

pub some_inj : {a b : Bytes} → some a ≡ some b → a ≡ b
some_inj h = cc

none-ne : {a : Bytes} → none ≢ some a
none-ne h = cc

one_version : (v : ℤ) → eq_ℤ v (pos 1) ≡ true → v ≡ pos 1
one_version (pos n) h = ground arith
one_version (negsuc n) h = absurd (ground arith)

empty-Returned :
    (r : StoredContract) (plain : Bytes)
    → r.version ≡ pos 1
    → operations_of r ≡ []
    → 0 ∷ [] ≡ plain
    → Returned r plain
empty-Returned r plain version none_yet is = subst (Returned r) is (
  sale_record,
  refl,
  record { version = sym version; entries = λ key. ap (get_entry key) (sym none_yet) },
)

expired_operations : operations_of expired_record ≡ ("op1", expiring_entry) ∷ []
unfolding put_entry
expired_operations = refl

expired-Returned :
    (r : StoredContract) (plain : Bytes) (k : String) (e : Committed)
    → r.version ≡ pos 1
    → operations_of r ≡ (k, e) ∷ []
    → k ≡ "op1"
    → e ≡ expiring_entry
    → 1 ∷ [] ≡ plain
    → Returned r plain
expired-Returned r plain k e version has key entry is =
    let same : operations_of r ≡ operations_of expired_record =
      has ∙ ap (λ j. (j, e) ∷ []) key ∙ ap (λ x. ("op1", x) ∷ []) entry ∙ sym expired_operations in
    subst (Returned r) is (
      expired_record,
      refl,
      record { version = sym version; entries = λ j. ap (get_entry j) (sym same) },
    )

both_true : (a b : Bool) → (a && b) ≡ true → (a ≡ true) × (b ≡ true)
both_true true true h = (refl, refl)
both_true true false h = (refl, h)
both_true false b h = (h, absurd (h-ne h))
  where
    h-ne : false ≢ true
    h-ne e = cc

entries-Returned :
    (r : StoredContract) (plain : Bytes) (es : Entries Committed)
    → r.version ≡ pos 1
    → operations_of r ≡ es
    → entries_text expiring_entry es ≡ some plain
    → Returned r plain
entries-Returned r plain [] version has made = empty-Returned r plain version has (some_inj made)
entries-Returned r plain ((k, e) ∷ []) version has made =
    if_cases (λ (o : Option Bytes). o ≡ some plain → Returned r plain)
      (k == "op1" && same_entry e expiring_entry)
      (λ both made.
        let (key, entry) = both_true (k == "op1") (same_entry e expiring_entry) both in
        expired-Returned r plain k e version has (same_text k "op1" key)
          (same_entry_sound e expiring_entry entry) (some_inj made))
      (λ other made. absurd (none-ne made)) made
entries-Returned r plain (x ∷ y ∷ rest) version has made = absurd (none-ne made)

record-Returned :
    (r : StoredContract) (plain : Bytes)
    → record_text expiring_entry r ≡ some plain
    → Returned r plain
record-Returned r plain =
    if_cases (λ (o : Option Bytes). o ≡ some plain → Returned r plain) (eq_ℤ r.version (pos 1))
      (λ first made.
        entries-Returned r plain (operations_of r) (one_version r.version first) refl made)
      (λ other made. absurd (none-ne made))

pub test-Faithful : Faithful test_persist
test-Faithful = record {
  opens = λ nonce plain context. refl;
  width = λ nonce plain context. omega arith;
  reads = λ r plain made. record-Returned r plain made;
}
