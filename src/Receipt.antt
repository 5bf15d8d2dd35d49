-- ===== src/Receipt.antt =====
-- Receipts and their hash chain: the type `Receipt`, `hashReceipt`, and the loop that the four
-- `VerifyReceipts` methods of internal/nexum share, word for word.
pub mod Chain
pub mod Tamper
use Prim.Native.String.{◌++◌ as ◌<>◌}
use nexum.Prelude.{
  ℕ, ◌+◌, String, not, Option, none, some, List, [], ◌∷◌, length, ◌==◌, nat_eq, if◌then◌else◌,
}
use nexum.Prelude.Int.{pos}
use nexum.Errors.{Error, receipt_seq, receipt_prev, receipt_rewritten}
use nexum.Std.{Std, Time}

-- Party is a string too.
abbrev pub Party : Type 0
Party = String

pub record Receipt : Type 0 where
  pub seq : ℕ
  pub at : Time
  pub action : String
  pub actor : Party
  pub note : String
  pub prev_hash : String
  pub hash : String

-- `prev` of the `append` methods: the hash of the last receipt, or "".
abbrev pub last_hash_from : String → List Receipt → String
last_hash_from prev [] = prev
last_hash_from prev (r ∷ rs) = last_hash_from r.hash rs

abbrev pub last_hash : List Receipt → String
last_hash rs = last_hash_from "" rs

module _ (std : Std) (id : String) where
  -- The text "%s|%d|%s|%s|%s|%s|%s" that is hashed.
  unfoldable pub receipt_text : Receipt → String
  receipt_text r =
      id
      <> "|"
      <> std.decimal (pos r.seq)
      <> "|"
      <> std.rfc3339_nano r.at
      <> "|"
      <> r.action
      <> "|"
      <> r.actor
      <> "|"
      <> r.note
      <> "|"
      <> r.prev_hash

  unfoldable pub hash_receipt : Receipt → String
  unfolding receipt_text
  hash_receipt r = std.sha256_hex (receipt_text r)

  -- The receipt that an `append` method builds behind the chain `rs`.
  unfoldable pub next_receipt : List Receipt → Party → String → String → Time → Receipt
  next_receipt rs actor action note now =
      let r : Receipt = record {
        seq = length rs + 1;
        at = now;
        action = action;
        actor = actor;
        note = note;
        prev_hash = last_hash rs;
        hash = "";
      } in
      record r { hash = hash_receipt r }

  -- The loop of `VerifyReceipts` at index `i`.
  unfoldable pub verify_from : ℕ → String → List Receipt → Option Error
  verify_from i prev [] = none
  verify_from i prev (r ∷ rs) =
      let rest = verify_from (i + 1) r.hash rs in
      if not (nat_eq r.seq (i + 1))
      then some (receipt_seq r.seq (i + 1))
      else if not (r.prev_hash == prev)
      then some (receipt_prev r.seq)
      else if not (r.hash == hash_receipt r)
      then some (receipt_rewritten r.seq)
      else rest

  unfoldable pub verify_receipts : List Receipt → Option Error
  unfolding verify_from
  verify_receipts rs = verify_from 0 "" rs
