-- ===== src/Restore/Found.antt =====
-- What `restore` has found of a record that it answers a contract for.
use nexum.Prelude.{
  ◌≡◌, ◌⊎◌, inl, inr, refl, sym, subst, String, Bool, true, false, not, ◌||◌, Option, none, some,
  [], ◌∷◌, ◌++◌, length, ◌==◌, arith, if_cases, if◌then◌else◌,
}
use mathlib.Core.List.{Memᴰ}
use nexum.Errors.{Result, ok, err, corrupt_store, panicked}
use nexum.Std.{Std}
use nexum.Agreement.{Agreement}
use nexum.Identity.{Crypto}
use nexum.Checkpoint
use nexum.Contract.{Contract}
use nexum.Operation.{Committed, Entries, StoredContract, Persist, get_entry}
use nexum.Restore
use nexum.Restore.{Progress, is_bad_entry, contract_of, is_none}

get_entry-snoc :
    {A : Type 0} (h k : String) (v e : A) (es : Entries A)
    → get_entry h (es ++ (k, v) ∷ []) ≡ some e
    → (get_entry h es ≡ some e) ⊎ (v ≡ e)
unfolding get_entry
get_entry-snoc h k v e [] found = ground arith
get_entry-snoc h k v e ((j, w) ∷ rest) found =
    elim (if_cases
      (λ o.
        o ≡ some e
        → ((j == h) ≡ true × (some w ≡ some e))
          ⊎ ((j == h) ≡ false × (get_entry h (rest ++ (k, v) ∷ []) ≡ some e)))
      (j == h) (λ here g. inl (here, g)) (λ other g. inr (other, g)) found) [
        | inl (here, g) ↦ inl (ground arith)
        | inr (other, g) ↦ elim (get_entry-snoc h k v e rest g) [
          | inl before ↦ inl (ground arith)
          | inr new ↦ inr new
        ]
      ]

module _ (std : Std) (crypto : Crypto) (persist : Persist) where
  -- Every entry that is indexed has passed the tests of an entry.
  pub index_tested :
      (c : Contract) (P : Committed → Type 0) (ops by_head out : Entries Committed)
      → ((key : String) (e : Committed)
          → Memᴰ (key, e) ops
          → is_bad_entry std crypto persist c key e ≡ false
          → P e)
      → ((h : String) (e : Committed) → get_entry h by_head ≡ some e → P e)
      → Restore.index_heads std crypto persist c ops by_head ≡ some out
      → (h : String) (e : Committed) → get_entry h out ≡ some e
      → P e
  unfolding Restore.index_heads
  index_tested c P [] by_head out tested before = λ h k e found. before k e (ground arith)
  index_tested c P ((key, x) ∷ rest) by_head out tested before =
      if_cases (λ o. o ≡ some out → (h : String) (e : Committed) → get_entry h out ≡ some e → P e)
        (is_bad_entry std crypto persist c key x
          || not (is_none (get_entry x.operation.command.head by_head)))
        (λ bad h. cc)
        (λ good h.
          index_tested c P rest (by_head ++ (x.operation.command.head, x) ∷ []) out
            (λ k e there fits. tested k e (Memᴰ.tail there) fits)
            (λ k e found. elim (get_entry-snoc k x.operation.command.head x e by_head found) [
              | inl old ↦ before k e old
              | inr new ↦ subst P new (tested key x (Memᴰ.head refl) (ground arith))
            ])
            h)

  -- What `restore` has found, where it answers a contract.
  pub record Found (r : StoredContract) (id : String) (c : Contract) : Type 0 where
    pub agreement : Agreement
    pub ops : Entries Committed
    pub by_head : Entries Committed
    pub fits : Restore.record_fits std crypto persist r id ≡ some true
    pub has : r.operations ≡ some ops
    pub kept : Checkpoint.restore_private std persist.json_copy r.checkpoint ≡ ok agreement
    pub agrees : Restore.agreement_fits std crypto persist r.terms id agreement ≡ true
    pub is : c ≡ contract_of r id agreement
    pub indexed : Restore.index_heads std crypto persist c ops [] ≡ some by_head
    pub accounted : Restore.accounts_for std crypto persist c (length ops) by_head ≡ true

  module _ (r : StoredContract) (id : String) (c : Contract) where
    abbrev FoundBy : Result Contract → Type 0
    FoundBy o = o ≡ ok c → Found r id c

    indexed-Found :
        (ops : Entries Committed) (a : Agreement) (o : Option (Entries Committed))
        → Restore.record_fits std crypto persist r id ≡ some true
        → r.operations ≡ some ops
        → Checkpoint.restore_private std persist.json_copy r.checkpoint ≡ ok a
        → Restore.agreement_fits std crypto persist r.terms id a ≡ true
        → Restore.index_heads std crypto persist (contract_of r id a) ops [] ≡ o
        → FoundBy (elim o [
          | none ↦ err corrupt_store
          | some by_head ↦
              if Restore.accounts_for std crypto persist (contract_of r id a) (length ops) by_head
              then ok (contract_of r id a)
              else err corrupt_store
        ])
    indexed-Found ops a none fits has kept agrees is = λ h. cc
    indexed-Found ops a (some by_head) fits has kept agrees is =
        if_cases FoundBy
          (Restore.accounts_for std crypto persist (contract_of r id a) (length ops) by_head)
          (λ accounted h.
            let same : contract_of r id a ≡ c = ok_inj h in
            record {
              agreement = a;
              ops = ops;
              by_head = by_head;
              fits = fits;
              has = has;
              kept = kept;
              agrees = agrees;
              is = sym same;
              indexed =
                  subst (λ d. Restore.index_heads std crypto persist d ops [] ≡ some by_head) same
                    is;
              accounted =
                  subst (λ d. Restore.accounts_for std crypto persist d (length ops) by_head ≡ true)
                    same accounted;
            })
          (λ other h. cc)
      where
        ok_inj : {x y : Contract} → ok x ≡ ok y → x ≡ y
        ok_inj h = cc

    pub restored-Found : FoundBy (Restore.restore std crypto persist r id)
    unfolding Restore.restore Restore.restore_contract
    restored-Found = fitting (Restore.record_fits std crypto persist r id) refl
      where
        agreed :
            (ops : Entries Committed) (o : Result Agreement)
            → Restore.record_fits std crypto persist r id ≡ some true
            → r.operations ≡ some ops
            → Checkpoint.restore_private std persist.json_copy r.checkpoint ≡ o
            → FoundBy (elim o [
              | err e ↦ err corrupt_store
              | ok a ↦ Restore.restore_contract std crypto persist r id ops a
            ])
        agreed ops (err e) fits has kept = λ h. cc
        agreed ops (ok a) fits has kept =
            if_cases FoundBy (not (Restore.agreement_fits std crypto persist r.terms id a))
              (λ other h. cc)
              (λ agrees.
                indexed-Found ops a
                  (Restore.index_heads std crypto persist (contract_of r id a) ops []) fits has kept
                  (ground arith) refl)

        stored :
            (o : Option (Entries Committed))
            → Restore.record_fits std crypto persist r id ≡ some true
            → r.operations ≡ o
            → FoundBy (elim o [
              | none ↦ err corrupt_store
              | some ops ↦ elim (Checkpoint.restore_private std persist.json_copy r.checkpoint) [
                | err e ↦ err corrupt_store
                | ok a ↦ Restore.restore_contract std crypto persist r id ops a
              ]
            ])
        stored none fits has = λ h. cc
        stored (some ops) fits has =
            agreed ops (Checkpoint.restore_private std persist.json_copy r.checkpoint) fits has refl

        fitting :
            (o : Option Bool)
            → Restore.record_fits std crypto persist r id ≡ o
            → FoundBy (elim o [
              | none ↦ err panicked
              | some false ↦ err corrupt_store
              | some true ↦ elim r.operations [
                | none ↦ err corrupt_store
                | some ops ↦ elim (Checkpoint.restore_private std persist.json_copy r.checkpoint) [
                  | err e ↦ err corrupt_store
                  | ok a ↦ Restore.restore_contract std crypto persist r id ops a
                ]
              ]
            ])
        fitting none fits = λ h. cc
        fitting (some false) fits = λ h. cc
        fitting (some true) fits = stored r.operations fits refl
