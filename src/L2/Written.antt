-- ===== src/L2/Written.antt =====
-- The bytes that a root is taken of.
use nexum.Prelude.{
  ℕ, String, ◌+◌, ◌≡◌, refl, ap, List, [], ◌∷◌, ◌++◌, arith, Option, none, some, false, subst,
  eq_iff, if_cases,
}
use nexum.Errors.{Error, Result, ok, err, bind_cases, required_cases, bad_hex, bind, required}
use nexum.Std.{Std, Bytes}
use nexum.Receipt.{
  Receipt, verify_receipts, verify_from, hash_receipt, last_hash, last_hash_from, receipt_text,
}
use nexum.Agreement.{Agreement}
use nexum.Room.{is_empty}
use nexum.L2.{Codec, root_block, root_bytes, terms_bytes, terms_digest}

module _ (std : Std) (codec : Codec) where
  -- The last hash of a chain that verifies is a digest in hex.
  last_hash_hex :
      (id : String) (i : ℕ) (prev : String) (r : Receipt) (rs : List Receipt)
      → verify_from std id i prev (r ∷ rs) ≡ none
      → (t : String) × (last_hash_from prev (r ∷ rs) ≡ std.sha256_hex t)
  unfolding verify_from hash_receipt
  last_hash_hex id i prev r [] h =
      (receipt_text std id r, ground (arith, eq_iff r.hash (hash_receipt std id r)))
  last_hash_hex id i prev r (q ∷ rs) h = last_hash_hex id (i + 1) r.hash q rs (ground arith)

  -- What the loop of `Root` has written for the agreements.
  abbrev pub Written : List (Option Agreement) → Bytes → Type 0
  Written [] out = out ≡ []
  Written (none ∷ rest) out = ⊥
  Written (some a ∷ rest) out =
      (raw : Bytes) × (more : Bytes) × (t : String) × (out
        ≡ (codec.keccak (terms_bytes std codec a) ++ raw) ++ more)
      × (codec.decode_hex (last_hash a.receipts) ≡ some raw)
      × (last_hash a.receipts ≡ std.sha256_hex t)
      × Written rest more

  abbrev BlockOf : Agreement → Result Bytes → Type 0
  BlockOf a (ok block) =
      (raw : Bytes) × (t : String) × (block ≡ codec.keccak (terms_bytes std codec a) ++ raw)
      × (codec.decode_hex (last_hash a.receipts) ≡ some raw)
      × (last_hash a.receipts ≡ std.sha256_hex t)
  BlockOf a (err e) = Unit

  hash_of_chain :
      (id : String) (rs : List Receipt)
      → is_empty rs ≡ false
      → verify_receipts std id rs ≡ none
      → (t : String) × (last_hash rs ≡ std.sha256_hex t)
  unfolding verify_receipts
  hash_of_chain id [] some_receipt h = cc
  hash_of_chain id (r ∷ rs) some_receipt h = last_hash_hex id 0 "" r rs h

  -- The block of an agreement whose chain has been checked, with the answer `o`.
  checked_block :
      (a : Agreement) (o : Option Error)
      → is_empty a.receipts ≡ false
      → verify_receipts std a.id a.receipts ≡ o
      → BlockOf a (elim o [
        | some e ↦ err e
        | none ↦ bind (terms_digest std codec (some a)) λ terms.
            required bad_hex (codec.decode_hex (last_hash a.receipts)) λ raw. ok (terms ++ raw)
      ])
  unfolding terms_digest
  checked_block a (some e) some_receipt h = tt
  checked_block a none some_receipt h =
      required_cases (BlockOf a) bad_hex (codec.decode_hex (last_hash a.receipts)) _ tt
        (λ raw decoded.
          let (t, hex) = hash_of_chain a.id a.receipts some_receipt h in
          (raw, t, refl, decoded, hex))

  root_block-BlockOf : (a : Agreement) → BlockOf a (root_block std codec (some a))
  unfolding root_block
  root_block-BlockOf a =
      if_cases (BlockOf a) (is_empty a.receipts) (λ h. tt)
        (λ h. checked_block a (verify_receipts std a.id a.receipts) h refl)

  abbrev pub WrittenResult : List (Option Agreement) → Result Bytes → Type 0
  WrittenResult as_ (ok out) = Written as_ out
  WrittenResult as_ (err e) = Unit

  pub root_bytes-Written :
      (as_ : List (Option Agreement)) → WrittenResult as_ (root_bytes std codec as_)
  unfolding root_bytes
  root_bytes-Written [] = refl
  root_bytes-Written (none ∷ rest) = unfold root_block in tt
  root_bytes-Written (some a ∷ rest) =
      let later = root_bytes-Written rest in
      bind_cases (WrittenResult (some a ∷ rest)) (root_block std codec (some a)) _ (λ e. tt)
        (λ block made.
          bind_cases (WrittenResult (some a ∷ rest)) (root_bytes std codec rest) _ (λ e. tt)
            (λ more wrote.
              let (raw, t, is_block, decoded, hex) =
                subst (BlockOf a) made (root_block-BlockOf a) in
              (
                raw,
                more,
                t,
                ap (λ b. b ++ more) is_block,
                decoded,
                hex,
                subst (WrittenResult rest) wrote later,
              )))
