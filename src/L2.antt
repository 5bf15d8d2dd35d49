-- ===== src/L2.antt =====
-- internal/l2/batch.go and verify.go: agreements rolled into one root that a header seals.
pub mod Collision
pub mod Receipts
pub mod Terms
pub mod Written
pub mod Binding
pub mod Sealing
use Prim.Native.String.{◌++◌ as ◌<>◌}
use nexum.Prelude.{ℕ, String, Option, none, some, List, [], ◌∷◌, ◌++◌, not, if◌then◌else◌}
use nexum.Prelude.Int.{ℤ, pos, ltb_ℤ}
use nexum.Errors.{
  Error, Result, ok, err, bind, required, empty_agreement, bad_hex, below_floor, root_mismatch,
  invalid_pow,
}
use nexum.Std.{Std, Bytes, Time, Float64, text_bytes, bytes_eq, unix_seconds}
use nexum.Meter.{TokenUnit}
use nexum.Receipt.{verify_receipts, last_hash}
use nexum.Agreement.{Agreement}
use nexum.Room.{is_empty}
use nexum.Pow
use nexum.Pow.{Header, valid, search_result}

-- One entry of a receipt batch (receipts.go).
pub record ReceiptCommitment : Type 0 where
  pub sequence : ℤ
  pub id : String
  pub action : String
  pub hash : String

-- The digest of quarry/keccak, strconv.FormatFloat, hex.DecodeString, and json.Marshal at a commitment.
pub record Codec : Type 0 where
  pub keccak : Bytes → Bytes
  pub format_float : Float64 → String
  pub decode_hex : String → Option Bytes
  pub marshal_commitment : ReceiptCommitment → Option Bytes

pub record Batch : Type 0 where
  pub agreements : List (Option Agreement)
  pub header : Header

-- One write of `TermsDigest`: the text, then a zero byte.
abbrev pub terms_field : String → Bytes
terms_field s = text_bytes s ++ 0 ∷ []

-- The verb %+v at a Unit.
abbrev pub unit_text : TokenUnit → String
unit_text u = "{Symbol:" <> (u.symbol <> "}")

module _ (std : Std) (codec : Codec) where
  -- What `TermsDigest` writes, in order.
  unfoldable pub terms_bytes : Agreement → Bytes
  terms_bytes a =
      terms_field a.id
      ++ (terms_field a.kind
          ++ (terms_field a.buyer
              ++ (terms_field a.seller
                  ++ (terms_field (std.decimal a.amount)
                      ++ (terms_field (unit_text a.unit)
                          ++ (terms_field (codec.format_float a.meter.cost_usd)
                              ++ (terms_field a.meter.effort
                                  ++ (terms_field (codec.format_float a.meter.budget_usd)
                                      ++ (terms_field (std.decimal a.meter.max_steps)
                                          ++ (terms_field (std.rfc3339_nano a.created_at)
                                              ++ terms_field (std.rfc3339_nano a.deadline)))))))))))

  -- A nil agreement is `none`.
  unfoldable pub terms_digest : Option Agreement → Result Bytes
  terms_digest none = err empty_agreement
  terms_digest (some a) = ok (codec.keccak (terms_bytes a))

  -- What one round of the loop of `Root` writes.
  unfoldable pub root_block : Option Agreement → Result Bytes
  unfolding terms_digest
  root_block none = err empty_agreement
  root_block (some a) =
      if is_empty a.receipts
      then err empty_agreement
      else elim (verify_receipts std a.id a.receipts) [
        | some e ↦ err e
        | none ↦ bind (terms_digest (some a)) λ terms.
            required bad_hex (codec.decode_hex (last_hash a.receipts)) λ raw. ok (terms ++ raw)
      ]

  unfoldable pub root_bytes : List (Option Agreement) → Result Bytes
  unfolding root_block
  root_bytes [] = ok []
  root_bytes (a ∷ rest) =
      bind (root_block a) λ block. bind (root_bytes rest) λ more. ok (block ++ more)

  unfoldable pub root : List (Option Agreement) → Result Bytes
  unfolding root_bytes
  root as_ = bind (root_bytes as_) λ written. ok (codec.keccak written)

  -- `found` is the number that the workers of the search leave.
  unfoldable pub seal : List (Option Agreement) → ℤ → Time → ℕ → Result Batch
  seal as_ bits now found = bind (root as_) λ r.
      let h : Header = record {
        parent = Pow.zero_digest;
        batch_root = r;
        time_unix = unix_seconds now;
        diff_bits = bits;
        nonce = 0;
      } in
      bind (search_result codec.keccak h found)
        λ sealed. ok (record { agreements = as_; header = sealed.0 })

  unfoldable pub verify : List (Option Agreement) → Header → ℤ → Option Error
  verify as_ h min_bits = if ltb_ℤ h.diff_bits min_bits then some below_floor else elim (root as_) [
    | err e ↦ some e
    | ok r ↦
        if not (bytes_eq r h.batch_root)
        then some root_mismatch
        else if not (valid codec.keccak h)
        then some invalid_pow
        else none
  ]

  unfoldable pub verify_batch : Batch → ℤ → Option Error
  verify_batch b min_bits = verify b.agreements b.header min_bits
