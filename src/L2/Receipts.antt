-- ===== src/L2/Receipts.antt =====
-- internal/l2/receipts.go: the tree over receipt commitments, and the batch that a header seals.
pub mod Nodes
pub mod Tree
pub mod Leaves
pub mod Binding
pub mod Total
use nexum.Prelude.{
  ℕ, zero, suc, String, Option, none, some, List, [], ◌∷◌, ◌++◌, ◌||◌, not, length, nat_eq, ltb,
  ◌==◌, if◌then◌else◌,
}
use nexum.Prelude.Int.{ℤ, pos, leb_ℤ, ltb_ℤ, eq_ℤ}
use nexum.Errors.{
  Error, Result, ok, err, bind, required, batch_size, bad_commitment, bad_json, bad_difficulty,
  invalid_batch, out_of_rounds, panicked,
}
use nexum.Std.{Bytes, Time, text_bytes, bytes_eq, unix_seconds}
use nexum.Pow.{Header, valid, search_result}
use nexum.L2.{ReceiptCommitment, Codec}

pub record ReceiptBatch : Type 0 where
  pub version : ℤ
  pub commitments : List ReceiptCommitment
  pub header : Header

-- The domains of the two kinds of nodes.
abbrev pub leaf_domain : Bytes
leaf_domain = text_bytes "nex/l2/receipt/leaf/v1\0"

abbrev pub node_domain : Bytes
node_domain = text_bytes "nex/l2/receipt/node/v1\0"

module _ (codec : Codec) where
  abbrev pub leaf : Bytes → Bytes
  leaf raw = codec.keccak (leaf_domain ++ raw)

  abbrev pub node : Bytes → Bytes → Bytes
  node left right = codec.keccak (node_domain ++ (left ++ right))

  -- The loop over the commitments, after the sequence number `previous`.
  unfoldable pub receipt_leaves : ℤ → List ReceiptCommitment → Result (List Bytes)
  receipt_leaves previous [] = ok []
  receipt_leaves previous (c ∷ rest) = required bad_commitment (codec.decode_hex c.hash) λ h.
      if not (nat_eq (length h) 32) || leb_ℤ c.sequence previous || c.id == "" || c.action == ""
      then err bad_commitment
      else required bad_json (codec.marshal_commitment c)
          λ raw. bind (receipt_leaves c.sequence rest) λ leaves. ok (leaf raw ∷ leaves)

  -- One round of the loop over the layers: an odd last node stands on both sides.
  unfoldable pub next_layer : List Bytes → List Bytes
  next_layer [] = []
  next_layer (x ∷ []) = node x x ∷ []
  next_layer (x ∷ y ∷ rest) = node x y ∷ next_layer rest

  -- The loop over the layers, in at most `rounds` rounds. `nodes[0]` of no nodes would panic.
  unfoldable pub fold_layers : ℕ → List Bytes → Result Bytes
  unfolding next_layer
  fold_layers zero nodes = err out_of_rounds
  fold_layers (suc rounds) [] = err panicked
  fold_layers (suc rounds) (x ∷ []) = ok x
  fold_layers (suc rounds) (x ∷ y ∷ rest) = fold_layers rounds (next_layer (x ∷ y ∷ rest))

  unfoldable pub receipt_root : List ReceiptCommitment → Result Bytes
  unfolding receipt_leaves fold_layers
  receipt_root cs =
      if nat_eq (length cs) 0 || ltb 4096 (length cs)
      then err batch_size
      else bind (receipt_leaves (pos 0) cs) λ nodes. fold_layers (length nodes) nodes

  -- `found` is the number that the workers of the search leave.
  unfoldable pub seal_receipts : List ReceiptCommitment → Bytes → ℤ → Time → ℕ → Result ReceiptBatch
  seal_receipts cs parent bits now found =
      if ltb_ℤ bits (pos 1) || ltb_ℤ (pos 24) bits
      then err bad_difficulty
      else bind (receipt_root cs) λ root.
        let h : Header = record {
          parent = parent;
          batch_root = root;
          time_unix = unix_seconds now;
          diff_bits = bits;
          nonce = 0;
        } in
        bind (search_result codec.keccak h found)
          λ sealed. ok (record { version = pos 1; commitments = cs; header = sealed.0 })

  unfoldable pub verify_receipt_batch : ReceiptBatch → Bytes → ℤ → Option Error
  verify_receipt_batch b parent min_bits = elim (receipt_root b.commitments) [
    | err e ↦ some e
    | ok root ↦
        if not (eq_ℤ b.version (pos 1))
          || ltb_ℤ min_bits (pos 1)
          || ltb_ℤ b.header.diff_bits min_bits
          || not (bytes_eq b.header.parent parent)
          || not (bytes_eq b.header.batch_root root)
          || not (valid codec.keccak b.header)
        then some invalid_batch
        else none
  ]
