-- ===== src/Restore/Extend.antt =====
-- `restore` on a record with one more operation at the end, and the receipts that belong to it.
use nexum.Prelude.{
  ◌≡◌, ◌≢◌, refl, ap, ◌∙◌, String, false, not, ◌||◌, none, some, [], ◌∷◌, ◌++◌, ◌==◌, arith, eq_iff,
  eq_refl, if_cases, if◌then◌else◌,
}
use nexum.Std.{Std}
use nexum.Identity.{Crypto}
use nexum.Contract.{Contract}
use nexum.Operation.{Committed, Entries, Persist, get_entry, put_entry}
use nexum.Restore
use nexum.Restore.{Progress, is_bad_entry, is_none, settle_turn}

module _ {A : Type 0} where
  -- A key that is absent is put at the end.
  pub put_entry_fresh :
      (key : String) (v : A) (es : Entries A)
      → get_entry key es ≡ none
      → put_entry key v es ≡ es ++ (key, v) ∷ []
  unfolding get_entry put_entry
  put_entry_fresh key v [] h = refl
  put_entry_fresh key v ((k, w) ∷ rest) h =
      if_cases
        (λ o.
          o ≡ none
          → (if k == key then (key, v) ∷ rest else (k, w) ∷ put_entry key v rest)
            ≡ (k, w) ∷ (rest ++ (key, v) ∷ []))
        (k == key) (λ here g. cc) (λ other g. ground (arith, put_entry_fresh key v rest g)) h

  pub get_entry-kept :
      (h k : String) (v e : A) (es : Entries A)
      → get_entry h es ≡ some e
      → get_entry h (es ++ (k, v) ∷ []) ≡ some e
  unfolding get_entry
  get_entry-kept h k v e [] found = cc
  get_entry-kept h k v e ((j, w) ∷ rest) found = ground (arith, get_entry-kept h k v e rest)

  pub get_entry_last :
      (h : String) (v : A) (es : Entries A)
      → get_entry h es ≡ none
      → get_entry h (es ++ (h, v) ∷ []) ≡ some v
  unfolding get_entry
  get_entry_last h v [] absent = ground (arith, eq_refl h)
  get_entry_last h v ((j, w) ∷ rest) absent = ground (arith, get_entry_last h v rest)

  pub other_snoc :
      (h k : String) (v : A) (es : Entries A)
      → k ≢ h
      → get_entry h es ≡ none
      → get_entry h (es ++ (k, v) ∷ []) ≡ none
  unfolding get_entry
  other_snoc h k v [] other absent = ground (arith, eq_iff k h)
  other_snoc h k v ((j, w) ∷ rest) other absent = ground (arith, other_snoc h k v rest other)

module _ (std : Std) (crypto : Crypto) (persist : Persist) where
  -- One more good entry, made at a head that is not indexed.
  pub index_heads-snoc :
      (c : Contract) (key : String) (e : Committed) (ops by_head out : Entries Committed)
      → Restore.index_heads std crypto persist c ops by_head ≡ some out
      → is_bad_entry std crypto persist c key e ≡ false
      → get_entry e.operation.command.head out ≡ none
      → Restore.index_heads std crypto persist c (ops ++ (key, e) ∷ []) by_head
        ≡ some (out ++ (e.operation.command.head, e) ∷ [])
  unfolding Restore.index_heads
  index_heads-snoc c key e [] by_head out indexed good fresh =
      let same : by_head ≡ out = ground arith in
      let absent : get_entry e.operation.command.head by_head ≡ none =
        ap (get_entry e.operation.command.head) same ∙ fresh in
      ground arith
  index_heads-snoc c key e ((k, x) ∷ rest) by_head out indexed good fresh =
      let bad =
        is_bad_entry std crypto persist c k x
        || not (is_none (get_entry x.operation.command.head by_head)) in
      if_cases
        (λ o.
          o ≡ some out
          → (if bad
              then none
              else Restore.index_heads std crypto persist c (rest ++ (key, e) ∷ [])
                  (by_head ++ (x.operation.command.head, x) ∷ []))
            ≡ some (out ++ (e.operation.command.head, e) ∷ []))
        bad (λ b h. cc)
        (λ b h.
          let more =
            index_heads-snoc c key e rest (by_head ++ (x.operation.command.head, x) ∷ []) out h good
              fresh in
          ground arith)
        indexed
