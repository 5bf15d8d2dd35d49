-- ===== src/Restore.antt =====
-- nex/store.go, `restore`: a stored contract, whose committed operations have to account for its
-- receipts one by one.
pub mod Consent
pub mod Found
pub mod Signed
pub mod Written
pub mod Settled
pub mod Extend
pub mod Replay
pub mod Turns
pub mod Did
pub mod Carried
pub mod Walked
pub mod Grown
pub mod Sound
use Prim.Native.String.{◌++◌ as ◌<>◌}
use nexum.Prelude.{
  ℕ, ◌+◌, String, Bool, true, false, not, ◌||◌, ◌&&◌, Option, none, some, List, [], ◌∷◌, ◌++◌,
  length, nat_eq, ◌==◌, if◌then◌else◌,
}
use nexum.Prelude.Int.{pos, eq_ℤ}
use nexum.Errors.{Result, ok, err, corrupt_store, panicked}
use nexum.Std.{Std}
use nexum.Meter.{Status, opened, locked, accepted, rejected, expired, is_open, is_locked}
use nexum.Receipt.{Receipt}
use nexum.Agreement.{Agreement}
use nexum.Identity.{Terms, Crypto, validate, public_id, hash_terms, hash_bytes}
use nexum.Checkpoint
use nexum.Contract.{Contract, signer}
use nexum.Envelope.{refuses}
use nexum.Operation.{
  Committed, Entries, StoredContract, Persist, get_entry, same_status, validate_operation_id,
  verify_operation,
}

-- Where the walk over the receipts stands: the status and the consent so far, and the entries used.
pub record Progress : Type 0 where
  pub status : Status
  pub consent : Bool
  pub used : ℕ

abbrev pub is_none {ℓ} : {A : Type ℓ} → Option A → Bool
is_none none = true
is_none (some a) = false

-- The tests past the switch, for the status and the hash of the last receipt of the operation.
unfoldable pub finish_turn : Committed → String → Status → Bool → ℕ → Option Progress
finish_turn e hash status consent used =
    if not (e.answer.head == hash) || not (same_status e.answer.status status)
    then none
    else some (record { status = status; consent = consent; used = used + 1 })

-- The case "settle" at its receipts, the second of which is passed over.
unfoldable pub settle_turn :
    Agreement → Committed → Receipt → List Receipt → Progress → Option (Progress × Bool)
unfolding finish_turn
settle_turn a e q [] p = none
settle_turn a e q (next ∷ rest) p =
    if not (is_locked p.status)
      || not p.consent
      || not (q.action == "evidence")
      || not (q.actor == a.buyer)
      || not (q.note == e.operation.command.evidence)
      || not (next.action == "accept")
      || not (next.actor == a.seller)
    then none
    else elim (finish_turn e next.hash accepted p.consent p.used) [
      | none ↦ none
      | some p' ↦ some (p', true)
    ]

-- The progress after one receipt of an operation.
abbrev pub one_receipt : Option Progress → Option (Progress × Bool)
one_receipt none = none
one_receipt (some p) = some (p, false)

-- The contract of a stored contract, once its agreement has been restored.
abbrev pub contract_of : StoredContract → String → Agreement → Contract
contract_of r id a = record {
  agreement = a;
  terms = id;
  buyer = r.buyer;
  seller = r.seller;
  agreed = r.agreed;
  definition = r.terms;
}

module _ (std : Std) (crypto : Crypto) (persist : Persist) where
  -- The switch over the action of the operation that accounts for the receipt `q`; the flag says
  -- whether one more receipt belongs to it.
  unfoldable pub turn :
      Agreement → Committed → Receipt → List Receipt → Progress → Option (Progress × Bool)
  unfolding finish_turn settle_turn
  turn a e q rest p =
      if e.operation.command.action == "lock"
      then (if not (is_open p.status) || not (q.action == "seal") || not (q.actor == a.buyer)
          then none
          else one_receipt (finish_turn e q.hash locked p.consent p.used))
      else if e.operation.command.action == "agree"
      then (if not (is_locked p.status)
            || p.consent
            || not (q.action == "evidence")
            || not (q.actor == a.seller)
            || not (q.note == "signed-consent:" <> hash_bytes std crypto e.signature)
          then none
          else one_receipt (finish_turn e q.hash p.status true p.used))
      else if e.operation.command.action == "settle"
      then settle_turn a e q rest p
      else if e.operation.command.action == "reject"
      then (if not (is_locked p.status) || not (q.action == "reject") || not (q.actor == a.seller)
          then none
          else one_receipt (finish_turn e q.hash rejected p.consent p.used))
      else if e.operation.command.action == "expire"
      then (if (not (is_open p.status) && not (is_locked p.status))
            || not (q.action == "expire")
            || not (q.actor == a.buyer)
          then none
          else one_receipt (finish_turn e q.hash expired p.consent p.used))
      else none

  -- The loop over the receipts, behind one with the hash `prev`; under the flag the next receipt is
  -- the second one of an operation.
  unfoldable pub replay :
      Entries Committed → Agreement → String → Progress → Bool → List Receipt → Option Progress
  unfolding turn
  replay by_head a prev p skip [] = some p
  replay by_head a prev p true (q ∷ rest) = replay by_head a q.hash p false rest
  replay by_head a prev p false (q ∷ rest) = elim (get_entry prev by_head) [
    | none ↦ none
    | some e ↦ elim (turn a e q rest p) [
      | none ↦ none
      | some (p', skip) ↦ replay by_head a q.hash p' skip rest
    ]
  ]

  -- The tests of an entry of the map of operations.
  abbrev pub is_bad_entry : Contract → String → Committed → Bool
  is_bad_entry c key e =
      refuses (validate_operation_id persist key)
      || not (e.operation.id == key)
      || not (e.operation.command.terms == c.terms)
      || not (e.answer.contract_id == c.terms)
      || not (e.answer.operation_id == key)
      || refuses (
          verify_operation std crypto persist (signer c e.operation.command.action) e.operation
            e.signature)

  -- The loop over the operations; `by_head` holds those before, by the heads they were made at.
  unfoldable pub index_heads :
      Contract → Entries Committed → Entries Committed → Option (Entries Committed)
  index_heads c [] by_head = some by_head
  index_heads c ((key, e) ∷ rest) by_head =
      let more = index_heads c rest (by_head ++ (e.operation.command.head, e) ∷ []) in
      if is_bad_entry c key e || not (is_none (get_entry e.operation.command.head by_head))
      then none
      else more

  -- The end of `restore`, for the indexed operations: the walk, and its tests.
  unfoldable pub accounts_for : Contract → ℕ → Entries Committed → Bool
  unfolding replay
  accounts_for c count by_head = elim c.agreement.receipts [
    | [] ↦ false
    | first ∷ more ↦ elim more [
      | [] ↦ false
      | second ∷ rest ↦
          if not (first.action == "open") || not (second.action == "deadline")
          then false
          else elim (replay by_head c.agreement second.hash
              (record { status = opened; consent = false; used = 0 }) false rest) [
                | none ↦ false
                | some p ↦ not (
                    not (nat_eq p.used count)
                    || not (same_status p.status c.agreement.status)
                    || (if p.consent then not c.agreed else c.agreed))
              ]
    ]
  ]

  -- The tests of the restored agreement against the terms.
  unfoldable pub agreement_fits : Terms → String → Agreement → Bool
  agreement_fits t id a = not (
      not (a.id == id)
      || not (a.kind == t.kind)
      || not (a.buyer == t.buyer)
      || not (a.seller == t.seller)
      || not (eq_ℤ a.amount t.amount)
      || not (nat_eq a.created_at t.created)
      || not (nat_eq a.deadline t.deadline)
      || is_none a.sealed)

  -- `restore` once the agreement has been restored.
  unfoldable pub restore_contract :
      StoredContract → String → Entries Committed → Agreement → Result Contract
  unfolding index_heads accounts_for agreement_fits
  restore_contract r id ops a =
      if not (agreement_fits r.terms id a)
      then err corrupt_store
      else elim (index_heads (contract_of r id a) ops []) [
        | none ↦ err corrupt_store
        | some by_head ↦
            if accounts_for (contract_of r id a) (length ops) by_head
            then ok (contract_of r id a)
            else err corrupt_store
      ]

  -- The first condition of `restore`; none where Hash panics.
  unfoldable pub record_fits : StoredContract → String → Option Bool
  record_fits r id =
      if not (eq_ℤ r.version (pos 1))
        || refuses (validate std crypto r.buyer)
        || refuses (validate std crypto r.seller)
        || not (persist.json_valid r.terms.spec)
      then some false
      else elim (hash_terms std crypto r.terms) [
        | none ↦ none
        | some h ↦ some (
            h == id
            && (r.terms.buyer == public_id std crypto r.buyer
                && r.terms.seller == public_id std crypto r.seller))
      ]

  unfoldable pub restore : StoredContract → String → Result Contract
  unfolding restore_contract record_fits
  restore r id = elim (record_fits r id) [
    | none ↦ err panicked
    | some false ↦ err corrupt_store
    | some true ↦ elim r.operations [
      | none ↦ err corrupt_store
      | some ops ↦ elim (Checkpoint.restore_private std persist.json_copy r.checkpoint) [
        | err e ↦ err corrupt_store
        | ok a ↦ restore_contract r id ops a
      ]
    ]
  ]
