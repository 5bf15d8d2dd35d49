-- ===== src/Receipt/Chain.antt =====
-- The chain that the `append` methods build is the chain that `VerifyReceipts` accepts.
use nexum.Prelude.{ℕ, ◌+◌, String, ◌≡◌, refl, none, List, [], ◌∷◌, ◌++◌, length, arith, eq_iff}
use nexum.Std.{Std, Time}
use nexum.Receipt.{
  Receipt, Party, last_hash_from, hash_receipt, next_receipt, verify_from, verify_receipts,
}

module _ (std : Std) (id : String) where
  -- One receipt that continues the chain keeps it verified.
  verify_from-snoc :
      (i : ℕ) (prev : String) (rs : List Receipt) (r : Receipt)
      → verify_from std id i prev rs ≡ none
      → r.seq ≡ i + length rs + 1
      → r.prev_hash ≡ last_hash_from prev rs
      → r.hash ≡ hash_receipt std id r
      → verify_from std id i prev (rs ++ r ∷ []) ≡ none
  unfolding verify_from
  verify_from-snoc i prev [] r v s p h =
      ground (arith, eq_iff r.prev_hash prev, eq_iff r.hash (hash_receipt std id r))
  verify_from-snoc i prev (q ∷ rs) r v s p h = ground (arith, verify_from-snoc (i + 1) q.hash rs r)

  pub next_receipt_hash :
      (rs : List Receipt) (actor : Party) (action note : String) (now : Time)
      → (next_receipt std id rs actor action note now).hash
        ≡ hash_receipt std id (next_receipt std id rs actor action note now)
  unfolding next_receipt hash_receipt
  next_receipt_hash rs actor action note now = refl

  pub verify_receipts-next_receipt :
      (rs : List Receipt) (actor : Party) (action note : String) (now : Time)
      → verify_receipts std id rs ≡ none
      → verify_receipts std id (rs ++ next_receipt std id rs actor action note now ∷ []) ≡ none
  unfolding verify_receipts next_receipt
  verify_receipts-next_receipt rs actor action note now v =
      verify_from-snoc 0 "" rs (next_receipt std id rs actor action note now) v (omega arith) refl
        (next_receipt_hash rs actor action note now)

  pub last_hash_from-snoc :
      (prev : String) (rs : List Receipt) (r : Receipt)
      → last_hash_from prev (rs ++ r ∷ []) ≡ r.hash
  last_hash_from-snoc prev [] r = refl
  last_hash_from-snoc prev (q ∷ rs) r = last_hash_from-snoc q.hash rs r
