-- ===== src/Settlement.antt =====
-- internal/settle/batch.go: the settlement of verified agreements and its root over receipt hashes.
pub mod Root
use nexum.Prelude.{
  ℕ, zero, suc, String, Option, none, some, List, [], ◌∷◌, ◌++◌, length, map, nat_eq, if◌then◌else◌,
  ◌%◌,
}
use nexum.Std.{Std, Bytes, Time, text_bytes}
use nexum.Room.{is_empty}

-- Batch
pub record Settlement : Type 0 where
  pub height : ℕ
  pub at : Time
  pub node_ids : List String
  pub agreement_ids : List String
  pub receipt_root : String
  pub devices : List String
  pub token : String
  pub agreements : ℕ
  pub nodes : ℕ
  pub gpus : ℕ

-- hex.DecodeString and hex.EncodeToString
pub record Hex : Type 0 where
  pub decode : String → Option Bytes
  pub encode : Bytes → String

module _ (std : Std) (hex : Hex) where
  -- A leaf: the decoded hash, or the digest of a text that is no hash.
  unfoldable pub layer_leaf : String → Bytes
  layer_leaf h = elim (hex.decode h) [
    | none ↦ std.sha256 (text_bytes h)
    | some b ↦ if is_empty b then std.sha256 (text_bytes h) else b
  ]

  -- The copy of the last node that makes an odd layer even.
  abbrev pub pad : List Bytes → List Bytes
  pad [] = []
  pad (x ∷ []) = x ∷ x ∷ []
  pad (x ∷ y ∷ rest) = x ∷ y ∷ pad rest

  -- The pairs of an even layer.
  abbrev pub hash_pairs : List Bytes → List Bytes
  hash_pairs [] = []
  hash_pairs (x ∷ []) = []
  hash_pairs (x ∷ y ∷ rest) = std.sha256 (x ++ y) ∷ hash_pairs rest

  -- The loop over the layers, in at most `rounds` rounds.
  unfoldable pub top_node : ℕ → List Bytes → Option Bytes
  top_node zero layer = none
  top_node (suc rounds) [] = none
  top_node (suc rounds) (x ∷ []) = some x
  top_node (suc rounds) (x ∷ y ∷ rest) = top_node rounds (hash_pairs (pad (x ∷ y ∷ rest)))

  -- `none` stands for rounds that ran out.
  unfoldable pub settlement_root : List String → Option String
  unfolding top_node layer_leaf
  settlement_root [] = some (hex.encode (std.sha256 []))
  settlement_root (h ∷ hs) = elim (top_node (length (h ∷ hs)) (map layer_leaf (h ∷ hs))) [
    | none ↦ none
    | some top ↦ some (hex.encode top)
  ]

  unfoldable pub commit :
      ℕ
      → List String
      → List String
      → List String
      → List String
      → String
      → ℕ
      → Time
      → Option Settlement
  commit height receipts node_ids agreement_ids devices token gpus now =
      elim (settlement_root receipts) [
        | none ↦ none
        | some r ↦ some (record {
          height = if nat_eq height 0 then 1 else height;
          at = now;
          node_ids = node_ids;
          agreement_ids = agreement_ids;
          receipt_root = r;
          devices = devices;
          token = token;
          agreements = length agreement_ids;
          nodes = length node_ids;
          gpus = gpus;
        })
      ]
