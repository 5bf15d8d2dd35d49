-- ===== src/L2/Receipts/Total.antt =====
-- The tree over receipt commitments comes to an end.
use nexum.Prelude.{◌≤◌, ◌<◌, ◌≡◌, ◌≢◌, refl, List, [], ◌∷◌, length, arith, some, eq_iff}
use nexum.Prelude.Int.{ℤ, pos, ◌<ℤ◌}
use nexum.Errors.{ok}
use nexum.Std.{Bytes}
use nexum.L2.{Codec, ReceiptCommitment}
use nexum.L2.Receipts.{leaf, receipt_leaves, receipt_root, fold_layers}
use nexum.L2.Receipts.Tree.{fold_layers_total}

module _ (codec : Codec) where
  -- A commitment that the loop accepts after a sequence number, and the list of such.
  abbrev pub AllAccepted : ℤ → List ReceiptCommitment → Type 0
  AllAccepted previous [] = Unit
  AllAccepted previous (c ∷ cs) =
      ((h : Bytes) × (codec.decode_hex c.hash ≡ some h) × (length h ≡ 32))
      × ((raw : Bytes) × (codec.marshal_commitment c ≡ some raw))
      × (previous <ℤ c.sequence)
      × (c.id ≢ "")
      × (c.action ≢ "")
      × AllAccepted c.sequence cs

  receipt_leaves_total :
      (previous : ℤ) (cs : List ReceiptCommitment)
      → AllAccepted previous cs
      → (ls : List Bytes) × (receipt_leaves codec previous cs ≡ ok ls) × (length ls ≡ length cs)
  unfolding receipt_leaves
  receipt_leaves_total previous [] h = ([], refl, refl)
  receipt_leaves_total previous (c ∷ cs)
        ((h, decoded, wide), (raw, made), order, id, action, rest) =
      let (ls, later, count) = receipt_leaves_total c.sequence cs rest in
      (
        leaf codec raw ∷ ls,
        ground (arith, eq_iff c.id "", eq_iff c.action ""),
        omega (arith, count),
      )

  layers_end :
      (ls : List Bytes) → 0 < length ls → (r : Bytes) × (fold_layers codec (length ls) ls ≡ ok r)
  layers_end [] h = absurd (omega (arith, h))
  layers_end (x ∷ xs) h = fold_layers_total codec (length (x ∷ xs)) x xs (omega arith)

  -- ReceiptRoot ends and returns a root: for 1 to 4096 commitments with rising numbers above 0, names,
  -- hashes of 32 bytes in hex and a JSON text, it has a result; its layers come down to one node.
  pub receipt_root_total :
      (cs : List ReceiptCommitment)
      → 0 < length cs
      → length cs ≤ 4096
      → AllAccepted (pos 0) cs
      → (r : Bytes) × (receipt_root codec cs ≡ ok r)
  unfolding receipt_root
  receipt_root_total cs some_commitment few h =
      let (ls, made, count) = receipt_leaves_total (pos 0) cs h in
      let (r, folded) = layers_end ls (omega (arith, count)) in (r, ground arith)
