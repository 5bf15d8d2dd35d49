-- ===== src/Store/Rules.antt =====
-- What holds of each way that a method ends holds of the method.
use nexum.Prelude.{
  ◌≡◌, refl, String, false, not, ◌||◌, Option, none, some, ◌==◌, ltb, length, nat_eq, if_rule,
  if_cases, if◌then◌else◌,
}
use nexum.Errors.{
  Error, Result, ok, err, Outcome, done, fail, commit_uncertain, checkpoint_too_large, io_error,
  bad_json, bad_contract_id, not_new, already_stored,
}
use nexum.Std.{Std, Bytes}
use nexum.Identity.{Crypto}
use nexum.Contract.{Contract}
use nexum.Operation.{StoredContract, Persist}
use nexum.Meter.{is_open}
use nexum.Restore.{restore, is_none}
use nexum.Disk
use nexum.Disk.{
  Disk, Faults, max_checkpoint, renamed, synced, sync_directory, after_rename, commit_file,
  file_content, read,
}
use nexum.Store
use nexum.Store.{
  Reply, ContractState, concluded, written_if, answer_of, committed_record, with_lock, is_too_large,
  new_record, state_of_contract,
}

-- What is known of a file that has been renamed.
pub record Sealed (persist : Persist) (f : Faults) (id : String) (r : StoredContract)
    (content : Bytes) : Type 0 where
  pub nonce : Bytes
  pub plain : Bytes
  pub drawn : f.nonce ≡ some nonce
  pub made : persist.marshal_stored r ≡ some plain
  pub is_content : content ≡ file_content persist id nonce plain
  pub small : ltb max_checkpoint (length (file_content persist id nonce plain)) ≡ false

-- The id of a contract that is hex as it is written.
pub record IsHexId (persist : Persist) (id : String) : Type 0 where
  pub hex : Bytes
  pub decoded : persist.decode_hex id ≡ some hex
  pub canonical : (not (nat_eq (length hex) 32) || not (persist.encode_hex hex == id)) ≡ false

after_rename_rule :
    (P : Outcome Disk → Type 0) (f : Faults) (d : Disk)
    → P (fail commit_uncertain d)
    → P (fail commit_uncertain (synced d))
    → P (done (synced d))
    → P (after_rename f d)
unfolding after_rename
after_rename_rule P f d lost late kept =
    if_rule P (f.hook_fails "after-rename") lost
      (if_rule P f.dir_sync_fails lost (if_rule P (f.hook_fails "after-sync") late kept))

module _ (persist : Persist) (P : Outcome Disk → Type 0) where
  -- A write fails and leaves the disk, or renames the sealed record over the file.
  pub write_rule :
      (f : Faults) (id : String) (r : StoredContract) (d : Disk)
      → ((e : Error) → P (fail e d))
      → ((content : Bytes)
          → Sealed persist f id r content
          → P (fail commit_uncertain (renamed id content d))
            × P (fail commit_uncertain (synced (renamed id content d)))
            × P (done (synced (renamed id content d))))
      → P (Disk.write persist f id r d)
  unfolding Disk.write commit_file
  write_rule f id r d refused renames = marshalled (persist.marshal_stored r) refl
    where
      committed :
          (plain nonce : Bytes)
          → persist.marshal_stored r ≡ some plain
          → f.nonce ≡ some nonce
          → P (commit_file f id (file_content persist id nonce plain) d)
      committed plain nonce made drawn =
          let content = file_content persist id nonce plain in
          if_cases P (ltb max_checkpoint (length content)) (λ big. refused checkpoint_too_large)
            (λ small.
              let (lost, late, kept) = renames content (record {
                nonce = nonce;
                plain = plain;
                drawn = drawn;
                made = made;
                is_content = refl;
                small = small;
              }) in
              if_rule P
                (f.create_fails
                  || f.write_fails
                  || f.hook_fails "after-write"
                  || f.sync_fails
                  || f.close_fails
                  || f.hook_fails "before-rename"
                  || f.rename_fails)
                (refused io_error) (after_rename_rule P f (renamed id content d) lost late kept))

      sealed :
          (plain : Bytes)
          → persist.marshal_stored r ≡ some plain
          → (n : Option Bytes) → f.nonce ≡ n
          → P (elim n [
            | none ↦ fail io_error d
            | some nonce ↦ commit_file f id (file_content persist id nonce plain) d
          ])
      sealed plain made none drawn = refused io_error
      sealed plain made (some nonce) drawn = committed plain nonce made drawn

      marshalled :
          (m : Option Bytes)
          → persist.marshal_stored r ≡ m
          → P (elim m [
            | none ↦ fail bad_json d
            | some plain ↦ elim f.nonce [
              | none ↦ fail io_error d
              | some nonce ↦ commit_file f id (file_content persist id nonce plain) d
            ]
          ])
      marshalled none made = refused bad_json
      marshalled (some plain) made = sealed plain made f.nonce refl

module _ {A : Type 0} (persist : Persist) (P : Reply A → Type 0) where
  pub with_lock_rule :
      (f : Faults) (id : String) (d : Disk) (body : Reply A)
      → ((e : Error) → P (err e, d))
      → (IsHexId persist id → P body)
      → P (with_lock persist f id d body)
  with_lock_rule f id d body refused went = locked (persist.decode_hex id) refl
    where
      locked :
          (o : Option Bytes)
          → persist.decode_hex id ≡ o
          → P (elim o [
            | none ↦ (err bad_contract_id, d)
            | some b ↦
                if not (nat_eq (length b) 32) || not (persist.encode_hex b == id)
                then (err bad_contract_id, d)
                else if f.lock_fails
                then (err io_error, d)
                else body
          ])
      locked none is = refused bad_contract_id
      locked (some b) is =
          if_cases P (not (nat_eq (length b) 32) || not (persist.encode_hex b == id))
            (λ odd. refused bad_contract_id)
            (λ canonical.
              if_rule P f.lock_fails (refused io_error)
                (went (record { hex = b; decoded = is; canonical = canonical })))

  -- A sync of the directory, and what is concluded from it.
  pub sync_rule :
      (f : Faults) (a : A) (d : Disk)
      → P (err commit_uncertain, d)
      → P (ok a, synced d)
      → P (concluded a (sync_directory f commit_uncertain d))
  unfolding sync_directory
  sync_rule f a d lost kept = if_rule (λ o. P (concluded a o)) f.dir_sync_fails lost kept

module _ (std : Std) (crypto : Crypto) (persist : Persist) where
  -- `Create` leaves the disk, or writes where no file is.
  pub create_rule :
      (f : Faults) (c : Contract) (d : Disk) (P : Reply (Unit {0}) → Type 0)
      → ((e : Error) → P (err e, d))
      → (d.visible c.terms ≡ none
          → P (concluded tt (Disk.write persist f c.terms (new_record c) d)))
      → P (Store.create std crypto persist f c d)
  unfolding Store.create
  create_rule f c d P refused writes =
      if_rule P
        (not (is_open c.agreement.status)
          || c.agreed
          || not (nat_eq (length c.agreement.receipts) 2)
          || is_none c.agreement.sealed)
        (refused not_new)
        (with_lock_rule persist P f c.terms d _ refused
          (λ hex. if_rule P f.stat_fails (refused io_error) (looked (d.visible c.terms) refl)))
    where
      restored :
          (o : Result Contract)
          → d.visible c.terms ≡ none
          → P (elim o [
            | err e ↦ (err e, d)
            | ok restored ↦ concluded tt (Disk.write persist f c.terms (new_record c) d)
          ])
      restored (err e) absent = refused e
      restored (ok r) absent = writes absent

      looked :
          (o : Option Bytes)
          → d.visible c.terms ≡ o
          → P (elim o [
            | some content ↦ (err already_stored, d)
            | none ↦ elim (restore std crypto persist (new_record c) c.terms) [
              | err e ↦ (err e, d)
              | ok restored ↦ concluded tt (Disk.write persist f c.terms (new_record c) d)
            ]
          ])
      looked (some content) is = refused already_stored
      looked none is = restored (restore std crypto persist (new_record c) c.terms) is

  -- `View` leaves the disk, or syncs the directory.
  pub view_rule :
      (f : Faults) (id : String) (d : Disk) (P : Reply ContractState → Type 0)
      → ((e : Error) → P (err e, d))
      → ((r : StoredContract) (c : Contract)
          → read std crypto persist f id d ≡ ok (r, c)
          → P (ok (state_of_contract id r c), synced d))
      → P (Store.view std crypto persist f id d)
  unfolding Store.view
  view_rule f id d P refused kept =
      with_lock_rule persist P f id d _ refused (λ hex. found (read std crypto persist f id d) refl)
    where
      found :
          (o : Result (StoredContract × Contract))
          → read std crypto persist f id d ≡ o
          → P (elim o [
            | err e ↦ (err e, d)
            | ok (r, c) ↦ concluded (state_of_contract id r c) (sync_directory f commit_uncertain d)
          ])
      found (err e) is = refused e
      found (ok (r, c)) is =
          sync_rule persist P f (state_of_contract id r c) d (refused commit_uncertain)
            (kept r c is)
