-- ===== src/Store/Recorded.antt =====
-- A committed operation stays in the file of its contract, whatever happens to the disk.
use nexum.Prelude.{
  ◌≡◌, ◌≢◌, refl, sym, ap, ◌∙◌, subst, String, true, Option, none, some, [], ◌∷◌, inl, inr,
}
use mathlib.Core.List.{Memᴰ}
use mathlib.Core.List.Memᴰ
use nexum.Prelude.Int.{pos, eq_ℤ}
use nexum.Errors.{Error, ok, err, Outcome}
use nexum.Std.{Std, Bytes, Time}
use nexum.Room.{Entropy}
use nexum.Identity.{Crypto}
use nexum.Contract.{Contract}
use nexum.Operation.{
  Operation, Committed, StoredContract, Persist, get_entry, operations_of, Entries, Answer,
  validate_operation_id,
}
use nexum.Disk
use nexum.Disk.{Disk, Faults, read, renamed, synced}
use nexum.Disk.ReadBack.{Faithful, decode-file_content, decode_version, read-Decoded}
use nexum.Store
use nexum.Store.{Reply, ContractState, concluded, new_record, answer_of, committed_record}
use nexum.Store.Rules.{Sealed, write_rule, create_rule, view_rule}
use nexum.Store.ApplyRule.{Authentic, apply_rule}
use nexum.Store.Kept.{Holds, Kept, synced-Kept, renamed-Kept, other-put_entry}
use nexum.Store.Events.{
  Draws, IsCrash, Event, created, viewed, prepared, applied, crashed, Events, still, then,
}

module _ {A : Type 0} (a : A) (P : Disk → Type 0) where
  -- What holds of the disk that a step leaves holds of the one that the method leaves.
  pub concluded_rule : (out : Outcome Disk) → P out.1 → P (concluded a out).1
  concluded_rule (none, d) h = h
  concluded_rule (some e, d) h = h

module _ (persist : Persist) (faithful : Faithful persist) where
  -- A sealed record holds what the record has.
  pub Sealed-Holds :
      (f : Faults) (id key : String) (e : Committed) (r : StoredContract) (content : Bytes)
      → Draws persist f
      → Sealed persist f id r content
      → eq_ℤ r.version (pos 1) ≡ true
      → get_entry key (operations_of r) ≡ some e
      → Holds persist id key e (some content)
  Sealed-Holds f id key e r content draws sealed version entry =
      let (r', is_stored, same) =
        decode-file_content persist faithful id sealed.nonce sealed.plain r sealed.made
          (draws sealed.nonce sealed.drawn) sealed.small version in
      record {
        bytes = content;
        stored = r';
        is_content = refl;
        is_stored = ap (Disk.decode persist id) sealed.is_content ∙ is_stored;
        entry = same.entries key ∙ entry;
      }

  -- A write of a record that has the operation keeps it, and so does a write of another file.
  write-Kept :
      (f : Faults) (file id key : String) (e : Committed) (r : StoredContract) (d : Disk)
      → Draws persist f
      → Kept persist id key e d
      → (file ≡ id → eq_ℤ r.version (pos 1) ≡ true)
      → (file ≡ id → get_entry key (operations_of r) ≡ some e)
      → Kept persist id key e (Disk.write persist f file r d).1
  write-Kept f file id key e r d draws kept version entry =
      write_rule persist (λ out. Kept persist id key e out.1) f file r d (λ e'. kept)
        (λ content sealed.
          let over : Kept persist id key e (renamed file content d) =
            renamed-Kept persist id key e d file content kept (λ same.
              subst (λ j. Holds persist j key e (some content)) same
                (Sealed-Holds f file key e r content draws sealed (version same) (entry same))) in
          let settled = synced-Kept persist id key e (renamed file content d) over.seen in
          (over, settled, settled))

module _ (persist : Persist) where
  -- The record that is read has what the file holds.
  held_entry :
      (id key : String) (e : Committed) (content : Option Bytes) (bytes : Bytes)
      (r : StoredContract)
      → Holds persist id key e content
      → content ≡ some bytes
      → Disk.decode persist id bytes ≡ ok r
      → get_entry key (operations_of r) ≡ some e
  held_entry id key e content bytes r holds is decoded =
      let one : bytes ≡ holds.bytes = some_inj (sym is ∙ holds.is_content) in
      let same : r ≡ holds.stored =
        ok_inj (sym decoded ∙ ap (Disk.decode persist id) one ∙ holds.is_stored) in
      ap (λ s. get_entry key (operations_of s)) same ∙ holds.entry
    where
      some_inj : {a b : Bytes} → some a ≡ some b → a ≡ b
      some_inj h = cc

      ok_inj : {a b : StoredContract} → ok a ≡ ok b → a ≡ b
      ok_inj h = cc

clash :
    (es : Entries Committed) {e : Committed} (k k' : String)
    → get_entry k es ≡ some e
    → get_entry k' es ≡ none
    → k ≢ k'
clash es k k' was fresh same = cc

module _ (std : Std) (crypto : Crypto) (persist : Persist) where
  pub read_entry :
      (f : Faults) (id key : String) (e : Committed) (d : Disk) (r : StoredContract) (c : Contract)
      → Kept persist id key e d
      → read std crypto persist f id d ≡ ok (r, c)
      → get_entry key (operations_of r) ≡ some e
  read_entry f id key e d r c kept found =
      let (bytes, is, decoded) = read-Decoded std crypto persist r c f id d found in
      held_entry persist id key e (d.visible id) bytes r kept.seen is decoded

  pub read_version :
      (f : Faults) (id : String) (d : Disk) (r : StoredContract) (c : Contract)
      → read std crypto persist f id d ≡ ok (r, c)
      → eq_ℤ r.version (pos 1) ≡ true
  read_version f id d r c found =
      let (bytes, is, decoded) = read-Decoded std crypto persist r c f id d found in
      decode_version persist r id bytes decoded

  pub apply-Kept :
      Faithful persist
      → (f : Faults) (file id key : String) (e : Committed) (op : Operation) (signature : Bytes)
        (rnd : Entropy) (now : Time) (d : Disk)
      → Draws persist f
      → Kept persist id key e d
      → Kept persist id key e (Store.apply std crypto persist f file op signature rnd now d).1
  apply-Kept faithful f file id key e op signature rnd now d draws kept =
      let P : Reply Answer → Type 0 = λ out. Kept persist id key e out.1 in
      let settled : Kept persist id key e (synced d) = synced-Kept persist id key e d kept.seen in
      apply_rule std crypto persist f file op signature rnd now d P (λ e'. kept)
        (λ r c prior authentic known same. (kept, settled))
        (λ r c c' authentic fresh tried.
          concluded_rule (answer_of file op c') (Kept persist id key e)
            (Disk.write persist f file (committed_record r file op signature c') d)
            (write-Kept persist faithful f file id key e (committed_record r file op signature c') d
              draws kept (λ at. read_version f file d r c authentic.found)
              (λ at. added r c c' authentic fresh at)))
    where
      added :
          (r : StoredContract) (c c' : Contract)
          → Authentic std crypto persist f file op signature d r c
          → get_entry op.id (operations_of r) ≡ none
          → file ≡ id
          → get_entry key (operations_of (committed_record r file op signature c')) ≡ some e
      added r c c' authentic fresh at =
          let was : get_entry key (operations_of r) ≡ some e =
            read_entry f file key e d r c (subst (λ j. Kept persist j key e d) (sym at) kept)
              authentic.found in
          other-put_entry op.id key _ (operations_of r)
            (λ same. clash (operations_of r) key op.id was fresh same)
          ∙ was

  view-Kept :
      (f : Faults) (file id key : String) (e : Committed) (d : Disk)
      → Kept persist id key e d
      → Kept persist id key e (Store.view std crypto persist f file d).1
  view-Kept f file id key e d kept =
      view_rule std crypto persist f file d (λ out. Kept persist id key e out.1) (λ e'. kept)
        (λ r c found. synced-Kept persist id key e d kept.seen)

  abbrev ended : Reply Operation → Disk
  ended out = out.1

  prepare-Kept :
      (f : Faults) (file operation_id action evidence id key : String) (e : Committed) (d : Disk)
      → Kept persist id key e (Store.view std crypto persist f file d).1
      → Kept persist id key e d
      → Kept persist id key e
          (Store.prepare std crypto persist f file operation_id action evidence d).1
  unfolding Store.prepare
  prepare-Kept f file operation_id action evidence id key e d seen kept =
      checked (validate_operation_id persist operation_id)
    where
      checked :
          (o : Option Error)
          → Kept persist id key e (
              ended (elim o [
                | some e ↦ (err e, d)
                | none ↦
                    let (answer, d') = Store.view std crypto persist f file d in
                    (Store.prepared file operation_id action evidence answer, d')
              ]))
      checked (some e) = kept
      checked none = seen

  crash-Kept :
      (id key : String) (e : Committed) (d d' : Disk)
      → Kept persist id key e d
      → IsCrash d d'
      → Kept persist id key e d'
  crash-Kept id key e d d' kept crash =
      let seen = kept.survives (d'.visible id) (crash.chosen id) in
      record {
        seen = seen;
        survives = λ content there. only content (subst (Memᴰ content) (crash.settled id) there);
      }
    where
      only :
          (content : Option Bytes)
          → Memᴰ content (d'.visible id ∷ [])
          → Holds persist id key e content
      only content there = elim (Memᴰ.cases_cons there) [
        | inl same ↦
            subst (Holds persist id key e) (sym same)
              (kept.survives (d'.visible id) (crash.chosen id))
        | inr nowhere ↦ absurd (Memᴰ.not-nil nowhere)
      ]

  event-Kept :
      Faithful persist
      → (id key : String) (e : Committed) (d : Disk) {d' : Disk} → Kept persist id key e d
      → Event std crypto persist d d'
      → Kept persist id key e d'
  event-Kept faithful id key e d kept (created f c draws) =
      create_rule std crypto persist f c d (λ out. Kept persist id key e out.1) (λ e'. kept)
        (λ absent.
          concluded_rule tt (Kept persist id key e) (Disk.write persist f c.terms (new_record c) d)
            (write-Kept persist faithful f c.terms id key e (new_record c) d draws kept (λ at. refl)
              (λ at. absurd (gone absent (ap d.visible at ∙ kept.seen.is_content)))))
    where
      gone : {o : Option Bytes} {b : Bytes} → o ≡ none → o ≢ some b
      gone h h' = cc
  event-Kept faithful id key e d kept (viewed f file) = view-Kept f file id key e d kept
  event-Kept faithful id key e d kept (prepared f file operation_id action evidence) =
      prepare-Kept f file operation_id action evidence id key e d (view-Kept f file id key e d kept)
        kept
  event-Kept faithful id key e d kept (applied f file op signature rnd now draws) =
      apply-Kept faithful f file id key e op signature rnd now d draws kept
  event-Kept faithful id key e d kept (crashed d' crash) = crash-Kept id key e d d' kept crash

  pub Events-Kept :
      Faithful persist
      → (id key : String) (e : Committed) (d : Disk) {d' : Disk} → Kept persist id key e d
      → Events std crypto persist d d'
      → Kept persist id key e d'
  Events-Kept faithful id key e d kept still = kept
  Events-Kept faithful id key e d kept (then before event) =
      event-Kept faithful id key e _ (Events-Kept faithful id key e d kept before) event
