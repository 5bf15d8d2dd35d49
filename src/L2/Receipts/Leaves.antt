-- ===== src/L2/Receipts/Leaves.antt =====
-- The leaves of a tree, and the commitments that they are taken of.
use nexum.Prelude.{
  ◌≡◌, refl, List, [], ◌∷◌, length, arith, some, nat_eq, ◌||◌, not, subst, if_cases, ◌==◌,
}
use nexum.Prelude.Int.{ℤ, ◌<ℤ◌, leb_ℤ}
use nexum.Errors.{ok, Result, err, required_cases, bind_cases, bad_commitment, bad_json}
use nexum.Std.{Bytes}
use nexum.L2.{Codec, ReceiptCommitment}
use nexum.L2.Receipts.{leaf, receipt_leaves}
use nexum.L2.Receipts.Tree.{AllHeight}

module _ (codec : Codec) where
  -- The leaves of commitments in the order of their sequence numbers.
  abbrev pub Leaves : ℤ → List ReceiptCommitment → List Bytes → Type 0
  Leaves previous [] [] = Unit
  Leaves previous [] (l ∷ ls) = ⊥
  Leaves previous (c ∷ cs) [] = ⊥
  Leaves previous (c ∷ cs) (l ∷ ls) =
      (raw : Bytes) × (codec.marshal_commitment c ≡ some raw)
      × (l ≡ leaf codec raw)
      × (previous <ℤ c.sequence)
      × Leaves c.sequence cs ls

  abbrev pub LeavesResult : ℤ → List ReceiptCommitment → Result (List Bytes) → Type 0
  LeavesResult previous cs (ok ls) = Leaves previous cs ls
  LeavesResult previous cs (err e) = Unit

  pub receipt_leaves_lem :
      (previous : ℤ) (cs : List ReceiptCommitment)
      → LeavesResult previous cs (receipt_leaves codec previous cs)
  unfolding receipt_leaves
  receipt_leaves_lem previous [] = tt
  receipt_leaves_lem previous (c ∷ cs) =
      let later = receipt_leaves_lem c.sequence cs in
      required_cases (LeavesResult previous (c ∷ cs)) bad_commitment (codec.decode_hex c.hash) _ tt
        (λ h given.
          if_cases (LeavesResult previous (c ∷ cs))
            (not (nat_eq (length h) 32)
              || leb_ℤ c.sequence previous
              || c.id == ""
              || c.action == "")
            (λ refused. tt)
            (λ passed.
              required_cases (LeavesResult previous (c ∷ cs)) bad_json (codec.marshal_commitment c)
                _ tt
                (λ raw made.
                  bind_cases (LeavesResult previous (c ∷ cs)) (receipt_leaves codec c.sequence cs) _
                    (λ e. tt)
                    (λ leaves rest. (
                      raw,
                      made,
                      refl,
                      ground arith,
                      subst (LeavesResult c.sequence cs) rest later,
                    )))))

  pub Leaves-AllHeight :
      (width : (b : Bytes) → length (codec.keccak b) ≡ 32) (previous : ℤ)
      (cs : List ReceiptCommitment) (ls : List Bytes)
      → Leaves previous cs ls
      → AllHeight codec width 0 ls
  Leaves-AllHeight width previous [] [] h = tt
  Leaves-AllHeight width previous [] (l ∷ ls) h = absurd h
  Leaves-AllHeight width previous (c ∷ cs) [] h = absurd h
  Leaves-AllHeight width previous (c ∷ cs) (l ∷ ls) (raw, made, is_leaf, order, rest) =
      ((raw, is_leaf), Leaves-AllHeight width c.sequence cs ls rest)
