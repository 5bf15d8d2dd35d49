-- ===== src/Tests/Restored.antt =====
-- A stored record of a sale that is locked and consented to.
use nexum.Checkpoint.RoundTrip.{LedgerFits}
use nexum.Tests.Checkpoints.{unlocked_ledger-LedgerFormed}
use nexum.Settle.{EncryptedLedger}
use Prim.Native.String.{◌++◌ as ◌<>◌}
use nexum.Prelude.{◌≡◌, refl, String, true, some, [], ◌∷◌, ◌++◌, ◌+◌, ap, none, Option, sym}
use nexum.Prelude.Int.{pos}
use nexum.Errors.{ok}
use nexum.Std.{Bytes, exp_mod, gcd, mod_inverse, big_bytes, set_bytes}
use nexum.Meter.{locked}
use nexum.He
use nexum.Settle
use nexum.Receipt.{next_receipt, hash_receipt, receipt_text, verify_receipts}
use nexum.Agreement
use nexum.Agreement.{Agreement}
use nexum.Room
use nexum.Room.Ops.{perform, perform_all}
use nexum.Identity.{public_id, validate, hash_terms, hash_bytes}
use nexum.Checkpoint
use nexum.Checkpoint.{private_checkpoint}
use nexum.Contract
use nexum.Contract.{head, signer}
use nexum.Store.Written.{written_restores}
use mathlib.Core.List.Memᴰ
use nexum.Operation.{
  Committed, StoredContract, get_entry, validate_operation_id, operation_text, verify_operation,
}
use nexum.Restore
use nexum.Restore.{contract_of}
use nexum.Restore.Signed.{SignedConsent, restored_consent}
use nexum.Tests.Contracts.{plain_std, test_crypto, buyer_key, seller_key, sale, test_entropy}
use nexum.Tests.Stores.{
  wide_sale, test_persist, sale_record, expiring, expired_contract, expired_record,
}

abbrev with_receipt : Agreement → String → String → String → Agreement
with_receipt a actor action note = record a {
  status = locked;
  locked_at = some 12;
  receipts = a.receipts ++ next_receipt plain_std "t1" a.receipts actor action note 12 ∷ [];
  steps = 1 + a.steps;
}

abbrev locked_agreement : Agreement
locked_agreement = with_receipt wide_sale.agreement sale.buyer "seal" "sealed"

abbrev agreed_agreement : Agreement
agreed_agreement =
    with_receipt locked_agreement sale.seller "evidence"
      ("signed-consent:" <> hash_bytes plain_std test_crypto seller_key.signing)

abbrev head_of : Agreement → String
head_of a = head (record wide_sale { agreement = a })

abbrev entry : String → String → Bytes → Agreement → Agreement → Committed
entry id action signature before after = record {
  operation = record {
    id = id;
    command = record { terms = "t1"; head = head_of before; action = action; evidence = "" };
  };
  signature = signature;
  answer = record { contract_id = "t1"; operation_id = id; head = head_of after; status = locked };
}

abbrev agreed_record : StoredContract
agreed_record = record {
  version = pos 1;
  terms = wide_sale.definition;
  buyer = wide_sale.buyer;
  seller = wide_sale.seller;
  agreed = true;
  checkpoint = private_checkpoint agreed_agreement;
  operations = some (
      ("op2", entry "op2" "agree" seller_key.signing locked_agreement agreed_agreement)
      ∷ ("op1", entry "op1" "lock" buyer_key.signing wide_sale.agreement locked_agreement)
      ∷ []);
}

agreed_restores :
    Restore.restore plain_std test_crypto test_persist agreed_record "t1"
    ≡ ok (contract_of agreed_record "t1" agreed_agreement)
unfolding Restore.restore Restore.restore_contract Restore.record_fits Restore.index_heads
    Restore.accounts_for Restore.agreement_fits Restore.replay Restore.turn Restore.finish_turn
    Restore.settle_turn get_entry validate_operation_id operation_text verify_operation
    Checkpoint.private_checkpoint Checkpoint.restore_private Checkpoint.restore_copy
    Checkpoint.restore_ledger Checkpoint.restore_sum Checkpoint.misfit Checkpoint.life_fits
    He.restore_private He.private_state Settle.restore_private Settle.restore_randomness
    Settle.private_state verify_receipts hash_terms perform_all perform Room.start_sealed
    Agreement.set_deadline Agreement.append Settle.new_encrypted_ledger He.new_paillier mod_inverse
    exp_mod gcd next_receipt hash_receipt receipt_text Settle.clone He.lcm He.p_minus1 big_bytes
    set_bytes validate hash_bytes public_id
agreed_restores = refl

restored_consent_example :
    SignedConsent plain_std test_crypto test_persist agreed_record
      (contract_of agreed_record "t1" agreed_agreement)
restored_consent_example =
    restored_consent plain_std test_crypto test_persist agreed_record "t1"
      (contract_of agreed_record "t1" agreed_agreement) agreed_restores refl

sale_restores : Restore.restore plain_std test_crypto test_persist sale_record "t1" ≡ ok wide_sale
unfolding Restore.restore Restore.restore_contract Restore.record_fits Restore.index_heads
    Restore.accounts_for Restore.agreement_fits Restore.replay Restore.turn Restore.finish_turn
    Restore.settle_turn get_entry validate_operation_id verify_operation
    Checkpoint.private_checkpoint Checkpoint.restore_private Checkpoint.restore_copy
    Checkpoint.restore_ledger Checkpoint.restore_sum Checkpoint.misfit Checkpoint.life_fits
    He.restore_private He.private_state Settle.restore_private Settle.restore_randomness
    Settle.private_state verify_receipts hash_terms perform_all perform Room.start_sealed
    Agreement.set_deadline Agreement.append Settle.new_encrypted_ledger He.new_paillier mod_inverse
    exp_mod gcd next_receipt hash_receipt receipt_text Settle.clone He.lcm He.p_minus1 big_bytes
    set_bytes validate hash_bytes public_id Contract.apply_verified Agreement.expire operation_text
sale_restores = refl

expiry_carried :
    (Contract.apply_verified plain_std test_crypto wide_sale expiring.command buyer_key.signing
      test_entropy 21).0
    ≡ none
unfolding Restore.restore Restore.restore_contract Restore.record_fits Restore.index_heads
    Restore.accounts_for Restore.agreement_fits Restore.replay Restore.turn Restore.finish_turn
    Restore.settle_turn get_entry validate_operation_id verify_operation
    Checkpoint.private_checkpoint Checkpoint.restore_private Checkpoint.restore_copy
    Checkpoint.restore_ledger Checkpoint.restore_sum Checkpoint.misfit Checkpoint.life_fits
    He.restore_private He.private_state Settle.restore_private Settle.restore_randomness
    Settle.private_state verify_receipts hash_terms perform_all perform Room.start_sealed
    Agreement.set_deadline Agreement.append Settle.new_encrypted_ledger He.new_paillier mod_inverse
    exp_mod gcd next_receipt hash_receipt receipt_text Settle.clone He.lcm He.p_minus1 big_bytes
    set_bytes validate hash_bytes public_id Contract.apply_verified Agreement.expire operation_text
expiry_carried = refl

expiring_signed :
    verify_operation plain_std test_crypto test_persist
      (signer wide_sale "expire")
      expiring
      buyer_key.signing
    ≡ none
unfolding Restore.restore Restore.restore_contract Restore.record_fits Restore.index_heads
    Restore.accounts_for Restore.agreement_fits Restore.replay Restore.turn Restore.finish_turn
    Restore.settle_turn get_entry validate_operation_id verify_operation
    Checkpoint.private_checkpoint Checkpoint.restore_private Checkpoint.restore_copy
    Checkpoint.restore_ledger Checkpoint.restore_sum Checkpoint.misfit Checkpoint.life_fits
    He.restore_private He.private_state Settle.restore_private Settle.restore_randomness
    Settle.private_state verify_receipts hash_terms perform_all perform Room.start_sealed
    Agreement.set_deadline Agreement.append Settle.new_encrypted_ledger He.new_paillier mod_inverse
    exp_mod gcd next_receipt hash_receipt receipt_text Settle.clone He.lcm He.p_minus1 big_bytes
    set_bytes validate hash_bytes public_id Contract.apply_verified Agreement.expire operation_text
expiring_signed = refl

abbrev sealed_of : Option Agreement → Option EncryptedLedger
sealed_of none = none
sealed_of (some a) = a.sealed

expired_contract-LedgerFits :
    LedgerFits expired_contract.agreement expired_contract.agreement.sealed
unfolding Contract.apply_verified perform_all perform Room.start_sealed Agreement.set_deadline
    Settle.new_encrypted_ledger He.new_paillier mod_inverse exp_mod gcd next_receipt hash_receipt
    Agreement.expire
expired_contract-LedgerFits = (unlocked_ledger-LedgerFormed, refl)

written_restores_example :
    Restore.restore plain_std test_crypto test_persist expired_record "t1" ≡ ok expired_contract
written_restores_example =
    written_restores plain_std test_crypto test_persist sale_record "t1" wide_sale expired_contract
      expiring buyer_key.signing test_entropy 21 sale_restores
      (unfold validate_operation_id in refl) refl expiring_signed (unfold get_entry in refl)
      (ap (λ e. (e, expired_contract)) expiry_carried) (λ key e there. absurd (Memᴰ.not-nil there))
      (λ a b h. ap (λ o. sealed_of o) (sym h)) refl expired_contract-LedgerFits
