-- ===== src/Tests/Contracts.antt =====
-- A signed contract over the key of the primes 3 and 5: locked, consented to, and settled.
use nexum.Prelude.{
  ℕ, zero, suc, String, ◌≡◌, ◌⊎◌, ◌≤◌, ◌<◌, refl, true, false, Option, none, some, List, [], ◌∷◌,
  nat_eq, if◌then◌else◌, arith,
}
use nexum.Prelude.Int.{pos}
use nexum.Errors.{ok, stale_command, cannot_agree}
use nexum.Std.{Std, Bytes, Time, exp_mod, gcd, mod_inverse, big_bytes, set_bytes}
use nexum.Meter.{locked, rejected, over_budget}
use nexum.He
use nexum.Settle
use nexum.Receipt.{next_receipt, hash_receipt, receipt_text}
use nexum.Agreement
use nexum.Agreement.{Agreement}
use nexum.Room
use nexum.Room.{Entropy}
use nexum.Room.Ops.{Op, perform, perform_all}
use nexum.Identity.{
  Public, Identity, Crypto, public_id, validate, hash_terms, hash_bytes, hash_command, verify,
  signed_text,
}
use nexum.Contract
use nexum.Contract.{Contract, command, signer, head}
use nexum.Contract.Run.{Call, apply_all}
use nexum.Contract.Consent.{IsSound}
use nexum.Contract.Opening.{contract_commands-IsSound}
use nexum.Contract.Effects.{carried_command, Expiry, Effect}
use nexum.Contract.Answers.{Owns, Answerable, seller_can_answer}
use nexum.Tests.Setup.{test_std, house}

-- A digest that is the text itself.
abbrev pub plain_std : Std
plain_std = record test_std { sha256_hex = λ s. s }

abbrev pub repeated : ℕ → ℕ → Bytes
repeated zero b = []
repeated (suc n) b = b ∷ repeated n b

abbrev first_byte : Bytes → ℕ
first_byte [] = 0
first_byte (b ∷ bs) = b

-- A signature is the key, and verifies under a key with the same first byte.
abbrev pub test_crypto : Crypto
test_crypto = record {
  ed25519_verify = λ p text sig. nat_eq (first_byte p) (first_byte sig);
  ed25519_sign = λ key text. key;
  is_public_key = λ k. true;
  is_private_key = λ k. true;
  shares_secret = λ k p. true;
  marshal_public = λ p. if nat_eq (first_byte p.signing) 1 then "b" else "s";
  marshal_terms = λ t. some "t1";
  marshal_command = λ cmd. cmd.action;
  marshal_bytes = λ b. "sig";
}

abbrev pub buyer_key : Public
buyer_key = record { signing = repeated 32 1; encryption = repeated 32 3 }

abbrev pub seller_key : Public
seller_key = record { signing = repeated 32 2; encryption = repeated 32 4 }

abbrev seller_identity : Identity
seller_identity = record { signing = repeated 64 2; encryption = repeated 32 4 }

abbrev small_primes : ℕ → List (Option ℕ × Option ℕ)
small_primes bits = (some 3, some 5) ∷ []

abbrev pub sale : Agreement
sale = record house {
  id = "t1";
  buyer = "nex/message/v1/identity\0b";
  seller = "nex/message/v1/identity\0s";
  meter = record { cost_usd = 0; effort = "flash"; budget_usd = 0; max_steps = pos 128 };
  receipts =
      next_receipt plain_std "t1" [] "nex/message/v1/identity\0b" "open" "agreement opened" 10 ∷ [];
}

abbrev pub sale_contract : Contract
sale_contract = record {
  agreement =
      perform_all plain_std
        ((10, Op.set_deadline sale.buyer 20) ∷ (10, Op.start_sealed 2048 small_primes) ∷ []) sale;
  terms = "t1";
  buyer = buyer_key;
  seller = seller_key;
  agreed = false;
  definition = record {
    kind = "sale";
    buyer = sale.buyer;
    seller = sale.seller;
    amount = pos 5;
    spec = "{}";
    created = 10;
    deadline = 20;
  };
}

sale_contract_opens :
    Contract.new_contract plain_std test_crypto "sale" buyer_key seller_key
      (pos 5)
      (some "{}")
      10
      20
      small_primes
    ≡ ok sale_contract
unfolding Contract.new_contract Contract.new_with Contract.clone_public validate public_id
    hash_terms Agreement.open_agreement Agreement.open_with perform_all perform
    Agreement.set_deadline Room.start_sealed Settle.new_encrypted_ledger He.new_paillier mod_inverse
    exp_mod gcd
sale_contract_opens = refl

abbrev pub test_entropy : Entropy
test_entropy = record { draws = λ attempt. some 2; blinder = some 7 }

abbrev signed_call : Contract → Bytes → String → String → Time → Call plain_std test_crypto
signed_call c key action evidence now = (command c action evidence, key, test_entropy, now)

abbrev sale_locking : Call plain_std test_crypto
sale_locking = signed_call sale_contract buyer_key.signing "lock" "" 12

abbrev locked_sale : Contract
locked_sale = apply_all plain_std test_crypto (sale_locking ∷ []) sale_contract

abbrev sale_consent : Call plain_std test_crypto
sale_consent = signed_call locked_sale seller_key.signing "agree" "" 13

abbrev agreed_sale : Contract
agreed_sale = apply_all plain_std test_crypto (sale_consent ∷ []) locked_sale

abbrev sale_settlement : Call plain_std test_crypto
sale_settlement = signed_call agreed_sale buyer_key.signing "settle" "delivered" 14

contract_commands-IsSound_example : IsSound plain_std test_crypto (
    apply_all plain_std test_crypto
      (sale_locking ∷ sale_consent ∷ sale_settlement ∷ [])
      sale_contract)
contract_commands-IsSound_example =
    contract_commands-IsSound plain_std test_crypto "sale" buyer_key seller_key (pos 5) (some "{}")
      10 20 small_primes (sale_locking ∷ sale_consent ∷ sale_settlement ∷ []) sale_contract_opens

locked_sale_status : locked_sale.agreement.status ≡ locked
unfolding apply_all Contract.apply Contract.apply_verified Contract.apply_action
    Contract.record_consent perform_all perform Room.start_sealed Agreement.set_deadline
    Agreement.note Agreement.append Settle.new_encrypted_ledger He.new_paillier mod_inverse exp_mod
    gcd next_receipt hash_receipt receipt_text Room.apply Room.seal_lock Room.seal_with
    Room.seal_commit Room.accept Room.accept_sealed Room.settle_proven Room.accept_with_evidence
    Settle.seal_lock Settle.clone Settle.aggregate He.lcm He.p_minus1 He.encrypt_with_r He.cipher
    He.prove_equal He.verify_equal He.zk_challenge Settle.prove_equal Settle.verify_equal
    Settle.blinding big_bytes set_bytes verify validate signed_text hash_command hash_bytes
    public_id
locked_sale_status = refl

consent_accepted :
    (Contract.apply plain_std test_crypto locked_sale sale_consent.0 seller_key.signing test_entropy
      13).0
    ≡ none
unfolding apply_all Contract.apply Contract.apply_verified Contract.apply_action
    Contract.record_consent perform_all perform Room.start_sealed Agreement.set_deadline
    Agreement.note Agreement.append Settle.new_encrypted_ledger He.new_paillier mod_inverse exp_mod
    gcd next_receipt hash_receipt receipt_text Room.apply Room.seal_lock Room.seal_with
    Room.seal_commit Room.accept Room.accept_sealed Room.settle_proven Room.accept_with_evidence
    Settle.seal_lock Settle.clone Settle.aggregate He.lcm He.p_minus1 He.encrypt_with_r He.cipher
    He.prove_equal He.verify_equal He.zk_challenge Settle.prove_equal Settle.verify_equal
    Settle.blinding big_bytes set_bytes verify validate signed_text hash_command hash_bytes
    public_id
consent_accepted = refl

settlement_accepted :
    (Contract.apply plain_std test_crypto agreed_sale sale_settlement.0 buyer_key.signing
      test_entropy 14).0
    ≡ none
unfolding apply_all Contract.apply Contract.apply_verified Contract.apply_action
    Contract.record_consent perform_all perform Room.start_sealed Agreement.set_deadline
    Agreement.note Agreement.append Settle.new_encrypted_ledger He.new_paillier mod_inverse exp_mod
    gcd next_receipt hash_receipt receipt_text Room.apply Room.seal_lock Room.seal_with
    Room.seal_commit Room.accept Room.accept_sealed Room.settle_proven Room.accept_with_evidence
    Settle.seal_lock Settle.clone Settle.aggregate He.lcm He.p_minus1 He.encrypt_with_r He.cipher
    He.prove_equal He.verify_equal He.zk_challenge Settle.prove_equal Settle.verify_equal
    Settle.blinding big_bytes set_bytes verify validate signed_text hash_command hash_bytes
    public_id
settlement_accepted = refl

-- The command that locked the sale names a head that is no longer the last.
locking_is_stale :
    (Contract.apply plain_std test_crypto locked_sale sale_locking.0 buyer_key.signing test_entropy
      13).0
    ≡ some stale_command
unfolding apply_all Contract.apply Contract.apply_verified Contract.apply_action
    Contract.record_consent perform_all perform Room.start_sealed Agreement.set_deadline
    Agreement.note Agreement.append Settle.new_encrypted_ledger He.new_paillier mod_inverse exp_mod
    gcd next_receipt hash_receipt receipt_text Room.apply Room.seal_lock Room.seal_with
    Room.seal_commit Room.accept Room.accept_sealed Room.settle_proven Room.accept_with_evidence
    Settle.seal_lock Settle.clone Settle.aggregate He.lcm He.p_minus1 He.encrypt_with_r He.cipher
    He.prove_equal He.verify_equal He.zk_challenge Settle.prove_equal Settle.verify_equal
    Settle.blinding big_bytes set_bytes verify validate signed_text hash_command hash_bytes
    public_id
locking_is_stale = refl

carried_command_example :
    let d =
      (Contract.apply plain_std test_crypto agreed_sale sale_settlement.0 buyer_key.signing
        test_entropy 14).1 in
    (verify plain_std test_crypto (signer agreed_sale "settle") sale_settlement.0 buyer_key.signing
      ≡ none)
    × (sale_settlement.0.terms ≡ agreed_sale.terms)
    × (sale_settlement.0.head ≡ head agreed_sale)
    × (Expiry plain_std test_crypto agreed_sale sale_settlement.0 14 d
        ⊎ ((agreed_sale.agreement.created_at ≤ 14)
            × (14 < agreed_sale.agreement.deadline)
            × Effect plain_std test_crypto agreed_sale sale_settlement.0 d))
carried_command_example =
    carried_command plain_std test_crypto agreed_sale sale_settlement.0 buyer_key.signing
      test_entropy 14 settlement_accepted

seller_keys : Owns plain_std test_crypto seller_identity seller_key
unfolding validate
seller_keys = record { formed = refl; verifies = λ text. refl }

sale_fields :
    (locked_sale.agreement.status ≡ locked)
    × (locked_sale.agreement.created_at ≡ 10)
    × (locked_sale.agreement.deadline ≡ 20)
    × (locked_sale.agreement.steps ≡ 3)
    × (locked_sale.agreement.meter ≡ sale.meter)
    × (locked_sale.agreed ≡ false)
    × (locked_sale.seller ≡ seller_key)
    × (over_budget plain_std locked_sale.agreement.meter ≡ false)
unfolding apply_all Contract.apply Contract.apply_verified Contract.apply_action
    Contract.record_consent perform_all perform Room.start_sealed Agreement.set_deadline
    Agreement.note Agreement.append Settle.new_encrypted_ledger He.new_paillier mod_inverse exp_mod
    gcd next_receipt hash_receipt receipt_text Room.apply Room.seal_lock Room.seal_with
    Room.seal_commit Room.accept Room.accept_sealed Room.settle_proven Room.accept_with_evidence
    Settle.seal_lock Settle.clone Settle.aggregate He.lcm He.p_minus1 He.encrypt_with_r He.cipher
    He.prove_equal He.verify_equal He.zk_challenge Settle.prove_equal Settle.verify_equal
    Settle.blinding big_bytes set_bytes verify validate signed_text hash_command hash_bytes
    public_id
sale_fields = (refl, refl, refl, refl, refl, refl, refl, refl)

sale-Answerable : Answerable plain_std test_crypto locked_sale 13
sale-Answerable = record {
  waiting = sale_fields.0;
  begun = omega (arith, sale_fields.1);
  unended = omega (arith, sale_fields.2);
  metered = rw (sale_fields.3, sale_fields.4) (omega arith);
  afforded = sale_fields.7;
}

seller_can_answer_example :
    let yes =
      Contract.execute plain_std test_crypto locked_sale seller_identity "agree" "" test_entropy
        13 in
    let no =
      Contract.execute plain_std test_crypto locked_sale seller_identity "reject" "" test_entropy
        13 in
    (yes.0 ≡ (if locked_sale.agreed then some cannot_agree else none))
    × (yes.1.agreed ≡ true)
    × (no.0 ≡ none)
    × (no.1.agreement.status ≡ rejected)
    × (no.1.agreement.released_to ≡ locked_sale.agreement.buyer)
seller_can_answer_example =
    seller_can_answer plain_std test_crypto locked_sale seller_identity "" test_entropy 13
      (rw sale_fields.6 seller_keys) sale-Answerable
