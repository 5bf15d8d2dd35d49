-- ===== src/Operation.antt =====
-- nex/store.go: the data of a store. What the operating system, the encryption and the JSON encoding
-- do is a parameter, a `Persist`.
use Prim.Native.String.{◌++◌ as ◌<>◌}
use nexum.Prelude.{
  ℕ, String, Bool, not, ◌||◌, ◌&&◌, Option, none, some, List, [], ◌∷◌, length, nat_eq, ltb, ◌==◌,
  if◌then◌else◌,
}
use nexum.Prelude.Int.{ℤ}
use nexum.Errors.{Error, bad_operation_id, invalid_signature}
use nexum.Std.{Std, Bytes, text_bytes}
use nexum.Meter.{
  Status, opened, locked, accepted, rejected, expired, ready, executed, refused, claimed, proven,
  paid, Status,
}
use nexum.Meter
use nexum.Identity.{Public, Terms, Command, Crypto, validate}
use nexum.Agreement.{Agreement}
use nexum.Checkpoint.{PrivateCheckpoint}

pub record Operation : Type 0 where
  pub id : String
  pub command : Command

-- Go's Result.
pub record Answer : Type 0 where
  pub contract_id : String
  pub operation_id : String
  pub head : String
  pub status : Status

pub record Committed : Type 0 where
  pub operation : Operation
  pub signature : Bytes
  pub answer : Answer

-- A Go map keyed by text: its entries, in any order. A nil map is `none`.
abbrev pub Entries {ℓ} : Type ℓ → Type ℓ
Entries A = List (String × A)

pub record StoredContract : Type 0 where
  pub version : ℤ
  pub terms : Terms
  pub buyer : Public
  pub seller : Public
  pub agreed : Bool
  pub checkpoint : PrivateCheckpoint
  pub operations : Option (Entries Committed)

-- JSON at an operation and at a stored contract, json.Valid, the JSON copy of an agreement;
-- strings.TrimSpace, utf8.ValidString and hex; and AES-GCM: `encrypt` and `decrypt` at a nonce, a text
-- and the additional data, with the sizes of a nonce and of the overhead.
pub record Persist : Type 0 where
  pub marshal_operation : Operation → String
  pub json_valid : String → Bool
  pub json_copy : Agreement → Option Agreement
  pub marshal_stored : StoredContract → Option Bytes
  pub unmarshal_stored : Bytes → Option StoredContract
  pub trim_space : String → String
  pub valid_utf8 : String → Bool
  pub decode_hex : String → Option Bytes
  pub encode_hex : Bytes → String
  pub encrypt : Bytes → Bytes → Bytes → Bytes
  pub decrypt : Bytes → Bytes → Bytes → Option Bytes
  pub nonce_size : ℕ
  pub overhead : ℕ

-- The operations of a record that has been restored.
abbrev pub operations_of : StoredContract → Entries Committed
operations_of r = elim r.operations [ none ↦ [] | some ops ↦ ops ]

-- m[key], and m[key] = value.
unfoldable pub get_entry {ℓ} : {A : Type ℓ} → String → Entries A → Option A
get_entry key [] = none
get_entry key ((k, v) ∷ rest) = let later = get_entry key rest in if k == key then some v else later

unfoldable pub put_entry {ℓ} : {A : Type ℓ} → String → A → Entries A → Entries A
put_entry key value [] = (key, value) ∷ []
put_entry key value ((k, v) ∷ rest) =
    let later = put_entry key value rest in if k == key then (key, value) ∷ rest else (k, v) ∷ later

abbrev pub status_code : Status → ℕ
status_code opened = 0
status_code locked = 1
status_code accepted = 2
status_code rejected = 3
status_code expired = 4
status_code ready = 5
status_code executed = 6
status_code refused = 7
status_code Meter.offered = 8
status_code claimed = 9
status_code proven = 10
status_code paid = 11

-- a == b, at statuses.
abbrev pub same_status : Status → Status → Bool
same_status a b = nat_eq (status_code a) (status_code b)

-- a == b, at operations.
abbrev pub same_operation : Operation → Operation → Bool
same_operation a b =
    a.id == b.id
    && (a.command.terms == b.command.terms
        && (a.command.head == b.command.head
            && (a.command.action == b.command.action && a.command.evidence == b.command.evidence)))

module _ (persist : Persist) where
  unfoldable pub validate_operation_id : String → Option Error
  validate_operation_id id =
      if ltb (length (text_bytes id)) 1
        || ltb 128 (length (text_bytes id))
        || not (persist.trim_space id == id)
        || not (persist.valid_utf8 id)
      then some bad_operation_id
      else none

module _ (std : Std) (crypto : Crypto) (persist : Persist) where
  -- The text that is signed for an operation, at the domain "operation".
  unfoldable pub operation_text : Operation → String
  operation_text op = "nex-example/v1/operation/" <> std.sha256_hex (persist.marshal_operation op)

  -- `Verify` at the domain "operation".
  unfoldable pub verify_operation : Public → Operation → Bytes → Option Error
  verify_operation p op signature = elim (validate std crypto p) [
    | some e ↦ some e
    | none ↦
        if not (crypto.ed25519_verify p.signing (operation_text op) signature)
        then some invalid_signature
        else none
  ]
