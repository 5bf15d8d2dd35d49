-- ===== src/Disk/ReadBack.antt =====
-- What is written is read back.
use nexum.Prelude.{
  ℕ, ◌+◌, ◌≡◌, refl, ap, ◌∙◌, subst, String, true, false, Option, none, some, ◌++◌, length,
  length-append, take, take-append, arith, ltb, ◌||◌, not, if_rule, if◌then◌else◌,
}
use nexum.Prelude.Int.{pos, eq_ℤ}
use nexum.Errors.{Result, ok, err, corrupt_store, store_version, not_found}
use nexum.Identity.{Crypto}
use nexum.Contract.{Contract}
use nexum.Restore.{restore}
use nexum.Std.{Std, Bytes, bytes_eq, drop}
use nexum.Std.Equality.{drop-append}
use nexum.Operation.{StoredContract, Persist, get_entry, operations_of}
use nexum.Disk
use nexum.Disk.{Disk, Faults, max_checkpoint, header_bytes, file_context, file_content}

-- Two records of one version, with the same operations.
pub record SameOperations (r r' : StoredContract) : Type 0 where
  pub version : r'.version ≡ r.version
  pub entries : (key : String) → get_entry key (operations_of r') ≡ get_entry key (operations_of r)

-- Decryption undoes encryption, which adds `overhead` bytes; and JSON reads back the version and the
-- operations that it wrote.
pub record Faithful (persist : Persist) : Type 0 where
  pub opens :
      (nonce plain context : Bytes)
      → persist.decrypt nonce (persist.encrypt nonce plain context) context ≡ some plain
  pub width :
      (nonce plain context : Bytes)
      → length (persist.encrypt nonce plain context) ≡ length plain + persist.overhead
  pub reads :
      (r : StoredContract) (plain : Bytes)
      → persist.marshal_stored r ≡ some plain
      → (r' : StoredContract) × (persist.unmarshal_stored plain ≡ some r') × SameOperations r r'

module _ (persist : Persist) (faithful : Faithful persist) where
  content_width :
      (id : String) (nonce plain : Bytes)
      → length nonce ≡ persist.nonce_size
      → ltb
          (length (file_content persist id nonce plain))
          (length header_bytes + persist.nonce_size + persist.overhead)
        ≡ false
  content_width id nonce plain n =
      let sealed = persist.encrypt nonce plain (file_context persist id) in
      let total : length (file_content persist id nonce plain)
          ≡ length header_bytes + (length nonce + length sealed) =
        length-append header_bytes (nonce ++ sealed)
        ∙ ap (λ k. length header_bytes + k) (length-append nonce sealed) in
      ground (arith, total, faithful.width nonce plain (file_context persist id), n)

  -- The bytes that `write` seals are read as a record with the same operations.
  pub decode-file_content :
      (id : String) (nonce plain : Bytes) (r : StoredContract)
      → persist.marshal_stored r ≡ some plain
      → length nonce ≡ persist.nonce_size
      → ltb max_checkpoint (length (file_content persist id nonce plain)) ≡ false
      → eq_ℤ r.version (pos 1) ≡ true
      → (r' : StoredContract) × (Disk.decode persist id (file_content persist id nonce plain)
          ≡ ok r')
        × SameOperations r r'
  unfolding Disk.decode
  decode-file_content id nonce plain r made n small version =
      let sealed = persist.encrypt nonce plain (file_context persist id) in
      let front : take persist.nonce_size (nonce ++ sealed) ≡ nonce =
        subst (λ (k : ℕ). take k (nonce ++ sealed) ≡ nonce) n (take-append nonce sealed) in
      let back : drop persist.nonce_size (nonce ++ sealed) ≡ sealed =
        subst (λ (k : ℕ). drop k (nonce ++ sealed) ≡ sealed) n (drop-append nonce sealed) in
      let (r', read, same) = faithful.reads r plain made in
      let version' : eq_ℤ r'.version (pos 1) ≡ true =
        ap (λ v. eq_ℤ v (pos 1)) same.version ∙ version in
      (
        r',
        rw (
          small,
          content_width id nonce plain n,
          front,
          back,
          faithful.opens nonce plain (file_context persist id),
          read,
          version',
        ),
        same,
      )

-- A record that has been read has the version 1.
module _ (persist : Persist) (r : StoredContract) where
  unmarshalled_version :
      (o : Option StoredContract)
      → (elim o [
        | none ↦ err corrupt_store
        | some s ↦ if not (eq_ℤ s.version (pos 1)) then err store_version else ok s
      ])
        ≡ ok r
      → eq_ℤ r.version (pos 1) ≡ true
  unmarshalled_version none h = cc
  unmarshalled_version (some s) h = ground arith

  decrypted_version :
      (o : Option Bytes)
      → (elim o [
        | none ↦ err corrupt_store
        | some plain ↦ elim (persist.unmarshal_stored plain) [
          | none ↦ err corrupt_store
          | some s ↦ if not (eq_ℤ s.version (pos 1)) then err store_version else ok s
        ]
      ])
        ≡ ok r
      → eq_ℤ r.version (pos 1) ≡ true
  decrypted_version none h = cc
  decrypted_version (some plain) h = unmarshalled_version (persist.unmarshal_stored plain) h

  pub decode_version :
      (id : String) (content : Bytes)
      → Disk.decode persist id content ≡ ok r
      → eq_ℤ r.version (pos 1) ≡ true
  unfolding Disk.decode
  decode_version id content =
      let n = persist.nonce_size in
      let body = drop (length header_bytes) content in
      let P : Result StoredContract → Type 0 = λ o. o ≡ ok r → eq_ℤ r.version (pos 1) ≡ true in
      if_rule P
        (ltb max_checkpoint (length content)
          || ltb (length content) (length header_bytes + n + persist.overhead))
        (λ h. cc)
        (if_rule P (not (bytes_eq (take (length header_bytes) content) header_bytes)) (λ h. cc)
          (decrypted_version
            (persist.decrypt (take n body) (drop n body) (file_context persist id))))

module _ (std : Std) (crypto : Crypto) (persist : Persist) (r : StoredContract) (c : Contract) where
  abbrev Gives : Result (StoredContract × Contract) → Type 0
  Gives o = o ≡ ok (r, c)

  -- What has been read is what is seen under the id.
  abbrev Decoded : String → Option Bytes → Type 0
  Decoded id content =
      (bytes : Bytes) × (content ≡ some bytes) × (Disk.decode persist id bytes ≡ ok r)

  restored_same :
      (s : StoredContract) (o : Result Contract)
      → Gives (elim o [ err e ↦ err e | ok c ↦ ok (s, c) ])
      → s ≡ r
  restored_same s (err e) h = cc
  restored_same s (ok c') h = ground arith

  decoded_read :
      (id : String) (bytes : Bytes) (o : Result StoredContract)
      → Disk.decode persist id bytes ≡ o
      → Gives (elim o [
        | err e ↦ err e
        | ok s ↦ elim (restore std crypto persist s id) [ err e ↦ err e | ok c ↦ ok (s, c) ]
      ])
      → Disk.decode persist id bytes ≡ ok r
  decoded_read id bytes (err e) is h = cc
  decoded_read id bytes (ok s) is h =
      is ∙ ap ok (restored_same s (restore std crypto persist s id) h)

  pub read-Decoded :
      (f : Faults) (id : String) (d : Disk)
      → Disk.read std crypto persist f id d ≡ ok (r, c)
      → Decoded id (d.visible id)
  unfolding Disk.read
  read-Decoded f id d =
      if_rule (λ o. Gives o → Decoded id (d.visible id)) f.read_fails (λ h. cc)
        (λ h. found (d.visible id) h)
    where
      found :
          (o : Option Bytes)
          → Gives (elim o [
            | none ↦ err not_found
            | some content ↦ elim (Disk.decode persist id content) [
              | err e ↦ err e
              | ok s ↦ elim (restore std crypto persist s id) [ err e ↦ err e | ok c ↦ ok (s, c) ]
            ]
          ])
          → Decoded id o
      found none h = cc
      found (some content) h =
          (content, refl, decoded_read id content (Disk.decode persist id content) refl h)
