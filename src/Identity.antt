-- ===== src/Identity.antt =====
-- nex/identity.go and the `Public` and `Identity` of internal/message/contract.go: keys, hashes of
-- values, and signatures. The curves and the JSON encoding are a parameter, a `Crypto`.
use Prim.Native.String.{◌++◌ as ◌<>◌}
use nexum.Prelude.{
  String, Bool, not, ◌||◌, Option, none, some, [], ◌∷◌, length, nat_eq, if◌then◌else◌,
}
use nexum.Prelude.Int.{ℤ}
use nexum.Errors.{Error, invalid_identity, invalid_signature}
use nexum.Std.{Std, Bytes, Time}

pub record Public : Type 0 where
  pub signing : Bytes
  pub encryption : Bytes

pub record Identity : Type 0 where
  pub signing : Bytes
  pub encryption : Bytes

-- nex.Terms and nex.Command. `spec` is the JSON text of the specification.
pub record Terms : Type 0 where
  pub kind : String
  pub buyer : String
  pub seller : String
  pub amount : ℤ
  pub spec : String
  pub created : Time
  pub deadline : Time

pub record Command : Type 0 where
  pub terms : String
  pub head : String
  pub action : String
  pub evidence : String

-- ed25519.Verify and ed25519.Sign; whether X25519's NewPublicKey, NewPrivateKey and ECDH return a
-- value; and json.Marshal at the types that are hashed, which fails at a time it cannot print.
pub record Crypto : Type 0 where
  pub ed25519_verify : Bytes → String → Bytes → Bool
  pub ed25519_sign : Bytes → String → Bytes
  pub is_public_key : Bytes → Bool
  pub is_private_key : Bytes → Bool
  pub shares_secret : Bytes → Bytes → Bool
  pub marshal_public : Public → String
  pub marshal_terms : Terms → Option String
  pub marshal_command : Command → String
  pub marshal_bytes : Bytes → String

-- The fixed scalar that `Validate` probes a key with: 1, then 31 zeros.
abbrev pub probe : Bytes
probe =
    1 ∷ 0 ∷ 0 ∷ 0 ∷ 0 ∷ 0 ∷ 0 ∷ 0 ∷ 0 ∷ 0 ∷ 0 ∷ 0 ∷ 0 ∷ 0 ∷ 0 ∷ 0 ∷ 0 ∷ 0 ∷ 0 ∷ 0 ∷ 0 ∷ 0 ∷ 0 ∷ 0
    ∷ 0 ∷ 0 ∷ 0 ∷ 0 ∷ 0 ∷ 0 ∷ 0 ∷ 0 ∷ []

module _ (std : Std) (crypto : Crypto) where
  -- `digest` at the domain "identity".
  unfoldable pub public_id : Public → String
  public_id p = std.sha256_hex ("nex/message/v1/identity\0" <> crypto.marshal_public p)

  -- The errors of crypto/ecdh are not told apart from the code's own.
  unfoldable pub validate : Public → Option Error
  validate p =
      if not (nat_eq (length p.signing) 32) || not (nat_eq (length p.encryption) 32)
      then some invalid_identity
      else if not (crypto.is_public_key p.encryption)
      then some invalid_identity
      else if not (crypto.is_private_key probe)
      then some invalid_identity
      else if not (crypto.shares_secret probe p.encryption)
      then some invalid_identity
      else none

  -- `Hash` at the types it is applied to. Only `Terms` can fail to encode.
  unfoldable pub hash_terms : Terms → Option String
  hash_terms t = elim (crypto.marshal_terms t) [
    | none ↦ none
    | some text ↦ some (std.sha256_hex text)
  ]

  unfoldable pub hash_bytes : Bytes → String
  hash_bytes b = std.sha256_hex (crypto.marshal_bytes b)

  unfoldable pub hash_command : Command → String
  hash_command cmd = std.sha256_hex (crypto.marshal_command cmd)

  -- The text that is signed for a command, at the domain "contract".
  unfoldable pub signed_text : Command → String
  unfolding hash_command
  signed_text cmd = "nex-example/v1/contract/" <> hash_command cmd

  unfoldable pub sign : Identity → Command → Bytes
  sign i cmd = crypto.ed25519_sign i.signing (signed_text cmd)

  unfoldable pub verify : Public → Command → Bytes → Option Error
  unfolding validate
  verify p cmd signature = elim (validate p) [
    | some e ↦ some e
    | none ↦
        if not (crypto.ed25519_verify p.signing (signed_text cmd) signature)
        then some invalid_signature
        else none
  ]
