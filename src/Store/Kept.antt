-- ===== src/Store/Kept.antt =====
-- A committed operation that is in the file of a contract, and in all that a crash may leave there.
use nexum.Prelude.{
  ◌≡◌, ◌≢◌, sym, subst, String, true, Option, some, [], ◌∷◌, ◌==◌, arith, eq_iff, if_cases, inl,
  inr,
}
use mathlib.Core.List.{Memᴰ}
use mathlib.Core.List.Memᴰ
use nexum.Errors.{ok}
use nexum.Std.{Bytes}
use nexum.Operation.{
  Committed, Entries, StoredContract, Persist, get_entry, put_entry, operations_of,
}
use nexum.Disk.{Disk, renamed, synced, decode}

pub same_text : (s t : String) → (s == t) ≡ true → s ≡ t
same_text s t h = ground (arith, eq_iff s t)

module _ {ℓ} {A : Type ℓ} where
  pub get_entry-put_entry :
      (key : String) (v : A) (es : Entries A) → get_entry key (put_entry key v es) ≡ some v
  unfolding get_entry put_entry
  get_entry-put_entry key v [] = ground (arith, eq_iff key key)
  get_entry-put_entry key v ((k, w) ∷ rest) =
      ground (arith, get_entry-put_entry key v rest, eq_iff k key, eq_iff key key)

  pub other-put_entry :
      (key other : String) (v : A) (es : Entries A)
      → other ≢ key
      → get_entry other (put_entry key v es) ≡ get_entry other es
  unfolding get_entry put_entry
  other-put_entry key other v [] h = ground (arith, eq_iff key other)
  other-put_entry key other v ((k, w) ∷ rest) h =
      ground
        (arith, other-put_entry key other v rest h, eq_iff k key, eq_iff k other, eq_iff key other)

module _ (persist : Persist) where
  -- A file that is read as a record with this operation.
  pub record Holds (id key : String) (e : Committed) (content : Option Bytes) : Type 0 where
    pub bytes : Bytes
    pub stored : StoredContract
    pub is_content : content ≡ some bytes
    pub is_stored : decode persist id bytes ≡ ok stored
    pub entry : get_entry key (operations_of stored) ≡ some e

  pub record Kept (id key : String) (e : Committed) (d : Disk) : Type 0 where
    pub seen : Holds id key e (d.visible id)
    pub survives : (content : Option Bytes) → Memᴰ content (d.survivors id) → Holds id key e content

  pub synced-Kept :
      (id key : String) (e : Committed) (d : Disk)
      → Holds id key e (d.visible id)
      → Kept id key e (synced d)
  synced-Kept id key e d holds = record {
    seen = holds;
    survives = λ content there. elim (Memᴰ.cases_cons there) [
      | inl same ↦ subst (Holds id key e) (sym same) holds
      | inr nowhere ↦ absurd (Memᴰ.not-nil nowhere)
    ];
  }

  -- A file that has been renamed over keeps what the new one holds, and the other files keep theirs.
  pub renamed-Kept :
      (id key : String) (e : Committed) (d : Disk) (file : String) (content : Bytes)
      → Kept id key e d
      → (file ≡ id → Holds id key e (some content))
      → Kept id key e (renamed file content d)
  renamed-Kept id key e d file content kept renews = record {
    seen =
        if_cases (Holds id key e) (file == id) (λ same. renews (same_text file id same))
          (λ other. kept.seen);
    survives = λ o there.
        if_cases (λ l. Memᴰ o l → Holds id key e o) (file == id)
          (λ same at. elim (Memᴰ.cases_cons at) [
            | inl new ↦ subst (Holds id key e) (sym new) (renews (same_text file id same))
            | inr old ↦ kept.survives o old
          ])
          (λ other at. kept.survives o at) there;
  }
