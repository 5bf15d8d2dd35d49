-- ===== src/Disk.antt =====
-- nex/store.go, `read` and `write`: the sealed files of a store. A `Disk` holds what is seen under each
-- contract id, and what a crash may leave there; `Faults` is what the operating system answers.
pub mod ReadBack
use nexum.Prelude.{
  ℕ, ◌+◌, String, Bool, true, false, not, ◌||◌, Option, none, some, List, [], ◌∷◌, ◌++◌, length,
  ltb, ◌==◌, take, if◌then◌else◌, nat_eq,
}
use nexum.Prelude.Int.{pos, eq_ℤ}
use nexum.Errors.{
  Error, Result, ok, err, Outcome, done, fail, not_found, corrupt_store, store_version,
  commit_uncertain, checkpoint_too_large, io_error, bad_json, bad_contract_id,
}
use nexum.Std.{drop, Std, Bytes, text_bytes, bytes_eq}
use nexum.Identity.{Crypto}
use nexum.Contract.{Contract}
use nexum.Operation.{StoredContract, Persist}
use nexum.Restore.{restore}

-- `survivors` holds every content that a file may have after a crash: the last one that the directory
-- was synced with, and each that was renamed over it since.
pub record Disk : Type 0 where
  pub visible : String → Option Bytes
  pub survivors : String → List (Option Bytes)

-- The system calls that fail, in one call of a method; the bytes of the nonce, if any; and whether the
-- hook of a stage returns an error.
pub record Faults : Type 0 where
  pub lock_fails : Bool
  pub stat_fails : Bool
  pub read_fails : Bool
  pub nonce : Option Bytes
  pub create_fails : Bool
  pub write_fails : Bool
  pub sync_fails : Bool
  pub close_fails : Bool
  pub rename_fails : Bool
  pub dir_sync_fails : Bool
  pub hook_fails : String → Bool

abbrev pub max_checkpoint : ℕ
max_checkpoint = 16777216

abbrev pub store_header : String
store_header = "NEXSTORE1"

abbrev pub header_bytes : Bytes
header_bytes = text_bytes store_header

-- os.Rename over the file of a contract.
abbrev pub renamed : String → Bytes → Disk → Disk
renamed id content d = record {
  visible = λ j. if id == j then some content else d.visible j;
  survivors = λ j. if id == j then some content ∷ d.survivors j else d.survivors j;
}

-- The directory is synced: what is seen is what survives.
abbrev pub synced : Disk → Disk
synced d = record { visible = d.visible; survivors = λ j. d.visible j ∷ [] }

unfoldable pub sync_directory : Faults → Error → Disk → Outcome Disk
sync_directory f e d = if f.dir_sync_fails then fail e d else done (synced d)

-- The end of `write`, past the rename.
unfoldable pub after_rename : Faults → Disk → Outcome Disk
after_rename f d =
    if f.hook_fails "after-rename"
    then fail commit_uncertain d
    else if f.dir_sync_fails
    then fail commit_uncertain d
    else if f.hook_fails "after-sync"
    then fail commit_uncertain (synced d)
    else done (synced d)

-- `write` at the sealed bytes. The temporary file is read by nobody.
unfoldable pub commit_file : Faults → String → Bytes → Disk → Outcome Disk
unfolding after_rename
commit_file f id content d =
    if ltb max_checkpoint (length content)
    then fail checkpoint_too_large d
    else if f.create_fails
        || f.write_fails
        || f.hook_fails "after-write"
        || f.sync_fails
        || f.close_fails
        || f.hook_fails "before-rename"
        || f.rename_fails
    then fail io_error d
    else after_rename f (renamed id content d)

module _ (persist : Persist) where
  -- The additional data that a file is sealed with.
  abbrev pub file_context : String → Bytes
  file_context id = header_bytes ++ (text_bytes "/" ++ text_bytes id)

  abbrev pub file_content : String → Bytes → Bytes → Bytes
  file_content id nonce plain =
      header_bytes ++ (nonce ++ persist.encrypt nonce plain (file_context id))

  unfoldable pub write : Faults → String → StoredContract → Disk → Outcome Disk
  unfolding commit_file
  write f id r d = elim (persist.marshal_stored r) [
    | none ↦ fail bad_json d
    | some plain ↦ elim f.nonce [
      | none ↦ fail io_error d
      | some nonce ↦ commit_file f id (file_content id nonce plain) d
    ]
  ]

  -- `read` at the bytes of a file, up to the stored contract.
  unfoldable pub decode : String → Bytes → Result StoredContract
  decode id content =
      let n = persist.nonce_size in
      let body = drop (length header_bytes) content in
      if ltb max_checkpoint (length content)
        || ltb (length content) (length header_bytes + n + persist.overhead)
      then err corrupt_store
      else if not (bytes_eq (take (length header_bytes) content) header_bytes)
      then err store_version
      else elim (persist.decrypt (take n body) (drop n body) (file_context id)) [
        | none ↦ err corrupt_store
        | some plain ↦ elim (persist.unmarshal_stored plain) [
          | none ↦ err corrupt_store
          | some r ↦ if not (eq_ℤ r.version (pos 1)) then err store_version else ok r
        ]
      ]

module _ (std : Std) (crypto : Crypto) (persist : Persist) where
  unfoldable pub read : Faults → String → Disk → Result (StoredContract × Contract)
  unfolding decode
  read f id d = if f.read_fails then err io_error else elim (d.visible id) [
    | none ↦ err not_found
    | some content ↦ elim (decode persist id content) [
      | err e ↦ err e
      | ok r ↦ elim (restore std crypto persist r id) [ err e ↦ err e | ok c ↦ ok (r, c) ]
    ]
  ]
