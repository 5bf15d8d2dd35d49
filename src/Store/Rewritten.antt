-- ===== src/Store/Rewritten.antt =====
-- `restore` from its parts, and those of the record that `Apply` writes.
use nexum.Prelude.{
  ◌≡◌, ◌≢◌, refl, sym, ap, ◌∙◌, String, Bool, true, false, not, ◌||◌, none, some, [], ◌∷◌, ◌++◌,
  length, arith, eq_iff, eq_refl, if◌then◌else◌, if_cases,
}
use mathlib.Core.List.{Memᴰ}
use nexum.Errors.{ok}
use nexum.Std.{Std, Bytes}
use nexum.Agreement.{Agreement}
use nexum.Room.History.{SameTerms}
use nexum.Identity.{Crypto, Terms}
use nexum.Checkpoint
use nexum.Checkpoint.{private_checkpoint}
use nexum.Contract.{Contract, signer}
use nexum.Operation.{
  Operation, Committed, Entries, StoredContract, Persist, get_entry, validate_operation_id,
  verify_operation,
}
use nexum.Restore
use nexum.Restore.{Progress, is_none, contract_of, is_bad_entry}
use nexum.Restore.Extend.{other_snoc}
use nexum.Restore.Grown.{entry_of}
use nexum.Store.{committed_record}

module _ (std : Std) (crypto : Crypto) (persist : Persist) where
  -- The ways into `restore`.
  pub restores :
      (r : StoredContract) (id : String) (ops by_head : Entries Committed) (a : Agreement)
      → Restore.record_fits std crypto persist r id ≡ some true
      → r.operations ≡ some ops
      → Checkpoint.restore_private std persist.json_copy r.checkpoint ≡ ok a
      → Restore.agreement_fits std crypto persist r.terms id a ≡ true
      → Restore.index_heads std crypto persist (contract_of r id a) ops [] ≡ some by_head
      → Restore.accounts_for std crypto persist (contract_of r id a) (length ops) by_head ≡ true
      → Restore.restore std crypto persist r id ≡ ok (contract_of r id a)
  unfolding Restore.restore Restore.restore_contract
  restores r id ops by_head a fits has restored agrees indexed accounted = ground arith

  -- The terms that a stored record is compared with.
  pub fits_grown :
      (t : Terms) (id : String) (a b : Agreement)
      → SameTerms a b
      → b.deadline ≡ a.deadline
      → is_none b.sealed ≡ is_none a.sealed
      → Restore.agreement_fits std crypto persist t id a ≡ true
      → Restore.agreement_fits std crypto persist t id b ≡ true
  unfolding Restore.agreement_fits
  fits_grown t id a b same deadline armed fits =
      ground (arith, same.id, same.kind, same.buyer, same.seller, same.amount, same.created_at)

  pub index_heads_same :
      (c : Contract) (a : Agreement) (agreed : Bool) (ops by_head : Entries Committed)
      → Restore.index_heads std crypto persist
          (record c { agreement = a; agreed = agreed })
          ops
          by_head
        ≡ Restore.index_heads std crypto persist c ops by_head
  unfolding Restore.index_heads
  index_heads_same c a agreed [] by_head = refl
  index_heads_same c a agreed ((key, e) ∷ rest) by_head =
      ap
        (λ more.
          if is_bad_entry std crypto persist c key e
            || not (is_none (get_entry e.operation.command.head by_head))
          then none
          else more)
        (index_heads_same c a agreed rest (by_head ++ (e.operation.command.head, e) ∷ []))

  pub good_entry :
      (c : Contract) (id : String) (op : Operation) (sig : Bytes) (d : Contract)
      → c.terms ≡ id
      → validate_operation_id persist op.id ≡ none
      → op.command.terms ≡ id
      → verify_operation std crypto persist (signer c op.command.action) op sig ≡ none
      → is_bad_entry std crypto persist c op.id (entry_of std crypto persist id c d op sig) ≡ false
  good_entry c id op sig d named valid terms signed =
      let same = eq_refl op.id in ground (arith, eq_iff op.command.terms c.terms, eq_iff id c.terms)

  pub same_record :
      (r : StoredContract) (id : String) (op : Operation) (sig : Bytes) (d : Contract)
      → Restore.record_fits std crypto persist (committed_record r id op sig d) id
        ≡ Restore.record_fits std crypto persist r id
  unfolding Restore.record_fits
  same_record r id op sig d = refl

  -- A head that no operation was made at is not indexed.
  pub index_missing :
      (c : Contract) (h : String) (ops by_head out : Entries Committed)
      → Restore.index_heads std crypto persist c ops by_head ≡ some out
      → get_entry h by_head ≡ none
      → ((key : String) (e : Committed) → Memᴰ (key, e) ops → e.operation.command.head ≢ h)
      → get_entry h out ≡ none
  unfolding Restore.index_heads
  index_missing c h [] by_head out indexed absent unused =
      ap (get_entry h) (some_inj (sym indexed)) ∙ absent
    where
      some_inj : {x y : Entries Committed} → some x ≡ some y → x ≡ y
      some_inj k = cc
  index_missing c h ((key, e) ∷ rest) by_head out indexed absent unused =
      if_cases (λ o. o ≡ some out → get_entry h out ≡ none)
        (is_bad_entry std crypto persist c key e
          || not (is_none (get_entry e.operation.command.head by_head)))
        (λ bad k. cc)
        (λ good k.
          index_missing c h rest (by_head ++ (e.operation.command.head, e) ∷ []) out k
            (other_snoc h e.operation.command.head e by_head (unused key e (Memᴰ.head refl)) absent)
            (λ key' e' there. unused key' e' (Memᴰ.tail there)))
        indexed
