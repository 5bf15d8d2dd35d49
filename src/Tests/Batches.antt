-- ===== src/Tests/Batches.antt =====
-- Proof of work, sealed batches and settlements at concrete inputs.
use nexum.Prelude.{
  ℕ, ◌≡◌, ◌≢◌, ◌≤◌, ◌<◌, ◌*◌, ◌^◌, ◌%◌, ◌-◌, ltb, ◌↔◌, ◌⊎◌, refl, String, Bool, true, false, Option,
  none, some, List, [], ◌∷◌, ◌++◌, ◌&&◌, ◌==◌, if◌then◌else◌, not, nat_eq, arith, length, subst, ap,
  eq_iff, sym, ◌∙◌,
}
use nexum.Prelude.Int.{ℤ, pos, negsuc}
use nexum.Errors.{ok}
use nexum.Std.{Bytes, text_bytes, set_bytes, unix_seconds}
use nexum.Pow
use nexum.Pow.{Header, be_bytes, zero_digest}
use nexum.Pow.Target.{leading_zeros-le_iff, value, AllBytes}
use nexum.Pow.Search
use nexum.Pow.Search.{State, search_returns}
use nexum.L2
use nexum.L2.{ReceiptCommitment, Codec, Batch, terms_digest}
use nexum.L2.Collision.{Collision}
use nexum.L2.Terms.{NoZero, NulFree, terms_texts, terms_digest_ambiguous}
use nexum.L2.Binding.{Digests, SameSealed, AllNulFree, sealed_header_binds}
use nexum.L2.Sealing.{verify_batch-seal}
use nexum.L2.Receipts.{leaf, node, receipt_root}
use nexum.L2.Receipts.Binding.{Faithful, receipt_root_binds}
use nexum.Settlement.{Hex, settlement_root}
use nexum.Settlement.Root.{OddEnding, settlement_root_repeats}
use nexum.Agreement.{Agreement}
use nexum.Tests.Setup.{test_std, house}

-- A digest of 32 bytes; two hashes in hex; a JSON form for commitments of one name.
abbrev test_keccak : Bytes → Bytes
test_keccak b = be_bytes 32 (set_bytes b % (2 ^ 256 - 189))

abbrev code : ℤ → Option Bytes
code (pos n) = some (n ∷ [])
code (negsuc n) = none

abbrev test_marshal : ReceiptCommitment → Option Bytes
test_marshal c =
    if c.id == "r" && (c.action == "accept" && c.hash == "1") then code c.sequence else none

abbrev test_codec : Codec
test_codec = record {
  keccak = test_keccak;
  format_float = λ f. "f";
  decode_hex =
      λ s. if s == "0" then some zero_digest else if s == "1" then some (be_bytes 32 1) else none;
  marshal_commitment = test_marshal;
}

-- The bits of a digest that starts with a zero byte and the byte 16.
abbrev small_digest : Bytes
small_digest = 0 ∷ 16 ∷ be_bytes 30 0

all_below : Bytes → Bool
all_below [] = true
all_below (b ∷ bs) = let rest = all_below bs in ltb b 256 && rest

all_below-AllBytes : (bs : Bytes) → all_below bs ≡ true → AllBytes bs
unfolding all_below
all_below-AllBytes [] h = tt
all_below-AllBytes (b ∷ bs) h = (ground arith, all_below-AllBytes bs (ground arith))

leading_zeros-le_iff_example :
    (11 ≤ Pow.leading_zeros small_digest) ↔ (value small_digest * 2 ^ 11 < 2 ^ 256)
leading_zeros-le_iff_example =
    leading_zeros-le_iff small_digest 11 (unfold all_below in all_below-AllBytes small_digest refl)
      refl (omega arith)

-- Two workers: the second takes its step first, and both hit.
abbrev easy : Header
easy = record {
  parent = zero_digest;
  batch_root = zero_digest;
  time_unix = pos 5;
  diff_bits = pos 0;
  nonce = 0;
}

abbrev schedule : List ℕ
schedule = 1 ∷ 0 ∷ 1 ∷ 0 ∷ 1 ∷ 0 ∷ 1 ∷ []

abbrev after : State
after = Search.run test_keccak easy 2 schedule (Search.start test_keccak easy 2)

second_returns : after.worker 1 ≡ Search.finished
unfolding Search.run Pow.valid Pow.leading_zeros Pow.header_hash set_bytes Pow.header_bytes
second_returns = refl

search_returns_example :
    (Pow.valid test_keccak (record easy { nonce = after.found }) ≡ true)
    × (Pow.search_result test_keccak easy after.found
        ≡ ok (record easy { nonce = after.found }, after.found))
search_returns_example = search_returns test_keccak easy 2 schedule 1 refl second_returns

terms_digest_ambiguous_example :
    terms_digest test_std test_codec (some (record house { id = "x\0y"; kind = "z" }))
    ≡ terms_digest test_std test_codec (some (record house { id = "x"; kind = "y\0z" }))
terms_digest_ambiguous_example = terms_digest_ambiguous test_std test_codec house "x" "y" "z"

abbrev number : Option Bytes → ℕ
number none = 2
number (some b) = value b

abbrev Wide : Option Bytes → Type 0
Wide none = Unit
Wide (some b) = length b ≡ 32

zero_ne_one : some zero_digest ≢ some (be_bytes 32 1)
zero_ne_one e = let same : 0 ≡ 1 = ap number e in absurd (omega (arith, same))

abbrev digit : Bool → String
digit b = if b then "0" else "1"

-- The digests of the test codec are as they must be.
test_digests : Digests test_std test_codec
test_digests = record {
  width = λ b. refl;
  hex_width = λ t raw h. hex_width (t == "") raw h;
  hex_inj = λ s t raw h k. hex_inj (s == "") (t == "") raw h k;
}
  where
    hex_width :
        (b : Bool) (raw : Bytes) → test_codec.decode_hex (digit b) ≡ some raw → length raw ≡ 32
    hex_width true raw h = subst Wide h refl
    hex_width false raw h = subst Wide h refl

    hex_inj :
        (b c : Bool) (raw : Bytes)
        → test_codec.decode_hex (digit b) ≡ some raw
        → test_codec.decode_hex (digit c) ≡ some raw
        → digit b ≡ digit c
    hex_inj true true raw h k = refl
    hex_inj true false raw h k = absurd (zero_ne_one (h ∙ sym k))
    hex_inj false true raw h k = absurd (zero_ne_one (k ∙ sym h))
    hex_inj false false raw h k = refl

no_zero : Bytes → Bool
no_zero [] = true
no_zero (b ∷ bs) = let rest = no_zero bs in not (nat_eq b 0) && rest

no_zero-NoZero : (bs : Bytes) → no_zero bs ≡ true → NoZero bs
unfolding no_zero
no_zero-NoZero [] h = tt
no_zero-NoZero (b ∷ bs) h = ((λ e. ground (arith, e)), no_zero-NoZero bs (ground arith))

nul_free : List String → Bool
nul_free [] = true
nul_free (s ∷ ss) = let rest = nul_free ss in no_zero (text_bytes s) && rest

nul_free-NulFree : (ss : List String) → nul_free ss ≡ true → NulFree ss
unfolding nul_free
nul_free-NulFree [] h = tt
nul_free-NulFree (s ∷ ss) h =
    (no_zero-NoZero (text_bytes s) (ground arith), nul_free-NulFree ss (ground arith))

abbrev houses : List (Option Agreement)
houses = some house ∷ []

houses-AllNulFree : AllNulFree test_std test_codec houses
unfolding nul_free no_zero
houses-AllNulFree = (nul_free-NulFree (terms_texts test_std test_codec house) refl, tt)

-- The seal of the house, at difficulty 0.
abbrev house_batch : Batch
house_batch = record {
  agreements = houses;
  header = record {
    parent = zero_digest;
    batch_root =
        test_keccak (test_keccak (L2.terms_bytes test_std test_codec house) ++ be_bytes 32 1);
    time_unix = unix_seconds 20;
    diff_bits = pos 0;
    nonce = 7;
  };
}

house_is_sealed : L2.seal test_std test_codec houses (pos 0) 20 7 ≡ ok house_batch
unfolding L2.seal L2.root nexum.Receipt.verify_receipts nexum.Receipt.next_receipt
    nexum.Receipt.hash_receipt Pow.search_result Pow.valid Pow.leading_zeros Pow.header_hash
    set_bytes Pow.header_bytes L2.terms_bytes
house_is_sealed = refl

verify_batch-seal_example : L2.verify_batch test_std test_codec house_batch (pos 0) ≡ none
verify_batch-seal_example =
    verify_batch-seal test_std test_codec houses (pos 0) (pos 0) 20 7 (omega arith) house_is_sealed

house_accepted : L2.verify test_std test_codec houses house_batch.header (pos 0) ≡ none
unfolding L2.verify L2.root nexum.Receipt.verify_receipts nexum.Receipt.next_receipt
    nexum.Receipt.hash_receipt set_bytes L2.terms_bytes Pow.valid Pow.leading_zeros Pow.header_hash
    Pow.header_bytes
house_accepted = refl

sealed_header_binds_example : Collision test_keccak ⊎ SameSealed test_std test_codec houses houses
sealed_header_binds_example =
    sealed_header_binds test_std test_codec test_digests houses houses house_batch.header (pos 0)
      (pos 0) houses-AllNulFree houses-AllNulFree house_accepted house_accepted

-- Three commitments, the last without a partner.
abbrev numbered : ℕ → ReceiptCommitment
numbered n = record { sequence = pos n; id = "r"; action = "accept"; hash = "1" }

code-inj : (m n : ℤ) (raw : Bytes) → code m ≡ some raw → code n ≡ some raw → m ≡ n
code-inj (pos m) (pos n) raw h k = cc
code-inj (pos m) (negsuc n) raw h k = cc
code-inj (negsuc m) n raw h k = cc

marshalled :
    (c : ReceiptCommitment) (raw : Bytes)
    → test_marshal c ≡ some raw
    → (c ≡ record (numbered 0) { sequence = c.sequence }) × (code c.sequence ≡ some raw)
marshalled c raw h = ground (arith, eq_iff c.id "r", eq_iff c.action "accept", eq_iff c.hash "1")

test_faithful : Faithful test_codec
test_faithful = record {
  width = λ b. refl;
  decodes = λ c d raw h k.
      let (is_c, code_c) = marshalled c raw h in
      let (is_d, code_d) = marshalled d raw k in
      is_c
      ∙ ap (λ n. record (numbered 0) { sequence = n })
          (code-inj c.sequence d.sequence raw code_c code_d)
      ∙ sym is_d;
}

abbrev commitments : List ReceiptCommitment
commitments = numbered 1 ∷ numbered 2 ∷ numbered 3 ∷ []

commitments_root :
    receipt_root test_codec commitments
    ≡ ok (
        node test_codec
          (node test_codec (leaf test_codec (1 ∷ [])) (leaf test_codec (2 ∷ [])))
          (node test_codec (leaf test_codec (3 ∷ [])) (leaf test_codec (3 ∷ []))))
unfolding receipt_root
commitments_root = refl

receipt_root_binds_example : Collision test_keccak ⊎ (commitments ≡ commitments)
receipt_root_binds_example =
    receipt_root_binds test_codec test_faithful commitments commitments commitments_root
      commitments_root

abbrev test_hex : Hex
test_hex = record { decode = λ s. none; encode = λ b. "h" }

settlement_root_repeats_example :
    settlement_root test_std test_hex ("a" ∷ "b" ∷ "c" ∷ "c" ∷ [])
    ≡ settlement_root test_std test_hex ("a" ∷ "b" ∷ "c" ∷ [])
settlement_root_repeats_example =
    settlement_root_repeats test_std test_hex ("a" ∷ "b" ∷ "c" ∷ []) "c" (OddEnding.three "a" "b")
