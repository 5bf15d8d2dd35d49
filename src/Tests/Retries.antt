-- ===== src/Tests/Retries.antt =====
-- A sale in a store: its first operation, a crash, and the retry.
use nexum.Prelude.{
  ◌≡◌, ◌≢◌, refl, sym, ap, subst, String, false, none, some, [], ◌∷◌, length, ◌==◌, arith, eq_iff,
}
use nexum.Errors.{ok, err}
use nexum.Std.{exp_mod, gcd, mod_inverse, big_bytes, set_bytes}
use nexum.He
use nexum.Settle
use nexum.Agreement
use nexum.Room
use nexum.Room.Ops.{perform, perform_all}
use nexum.Receipt.{next_receipt, hash_receipt, receipt_text, verify_receipts}
use nexum.Checkpoint
use nexum.Identity.{public_id, validate, hash_terms, hash_bytes, signed_text}
use nexum.Restore.{
  restore, restore_contract, record_fits, index_heads, accounts_for, agreement_fits, replay, turn,
  finish_turn, settle_turn,
}
use nexum.Disk
use nexum.Contract
use nexum.Contract.{Contract, command}
use nexum.Checkpoint.{private_checkpoint}
use nexum.Operation.{
  Operation, Answer, get_entry, put_entry, validate_operation_id, operation_text, verify_operation,
}
use nexum.Disk.{Disk, Faults}
use nexum.Store
use nexum.Store.{new_record, committed_record, answer_of, Reply}
use nexum.Store.Events.{Draws}
use nexum.Tests.Contracts.{plain_std, test_crypto, buyer_key, test_entropy}
use mathlib.Core.List.{Memᴰ}
use nexum.Contract.{signer}
use nexum.Disk.{synced}
use nexum.Errors.{Error, io_error}
use nexum.Store.Events.{IsCrash, Events, still, crashed}
use nexum.Store.Once.{exactly_once, reused_id_refused}
use nexum.Store.Retry.{retry_succeeds, failed_apply_unchanged}
use nexum.Store.Register.{Registers, registered, apply-Registers}
use nexum.Tests.Stores.{
  wide_sale, expiring, expired_contract, expired_record, test_persist, test-Faithful, some_inj,
}

-- Nothing fails.
abbrev calm : Faults
calm = record {
  lock_fails = false;
  stat_fails = false;
  read_fails = false;
  nonce = some (5 ∷ []);
  create_fails = false;
  write_fails = false;
  sync_fails = false;
  close_fails = false;
  rename_fails = false;
  dir_sync_fails = false;
  hook_fails = λ stage. false;
}

calm-Draws : Draws test_persist calm
calm-Draws nonce h = ap length (some_inj (sym h))

abbrev empty_disk : Disk
empty_disk = record { visible = λ id. none; survivors = λ id. none ∷ [] }

abbrev first_disk : Disk
first_disk = (Store.create plain_std test_crypto test_persist calm wide_sale empty_disk).1

abbrev first_reply : Reply Answer
first_reply =
    Store.apply plain_std test_crypto test_persist calm "t1" expiring buyer_key.signing test_entropy
      21 first_disk

-- The first call, and the disk that it leaves.
abbrev expired_disk : Disk
expired_disk = first_reply.1

abbrev expiring_answer : Answer
expiring_answer = answer_of "t1" expiring expired_contract

first_answer : first_reply.0 ≡ ok expiring_answer
unfolding Store.create Store.apply Store.apply_authentic Store.carry_out Disk.write Disk.commit_file
    Disk.after_rename Disk.sync_directory Disk.read Disk.decode restore restore_contract record_fits
    index_heads accounts_for agreement_fits replay turn finish_turn settle_turn get_entry put_entry
    validate_operation_id operation_text verify_operation Checkpoint.private_checkpoint
    Checkpoint.restore_private Checkpoint.restore_copy Checkpoint.restore_ledger
    Checkpoint.restore_sum Checkpoint.misfit Checkpoint.life_fits He.restore_private
    Settle.restore_private Settle.restore_randomness Settle.private_state He.private_state
    verify_receipts hash_terms perform_all perform Room.start_sealed Agreement.set_deadline
    Agreement.note Agreement.append Settle.new_encrypted_ledger He.new_paillier mod_inverse exp_mod
    gcd next_receipt hash_receipt receipt_text Room.apply Room.seal_lock Room.seal_with
    Room.seal_commit Contract.apply_verified Contract.apply_action Agreement.expire Settle.seal_lock
    Settle.clone Settle.aggregate He.lcm He.p_minus1 He.encrypt_with_r He.cipher He.prove_equal
    He.verify_equal He.zk_challenge Settle.prove_equal Settle.verify_equal Settle.blinding big_bytes
    set_bytes validate signed_text hash_bytes public_id
first_answer = refl

first_answers : first_reply ≡ (ok expiring_answer, expired_disk)
first_answers = ap (λ a. (a, expired_disk)) first_answer

first_settled : (id : String) → expired_disk.survivors id ≡ expired_disk.visible id ∷ []
unfolding Store.create Store.apply Store.apply_authentic Store.carry_out Disk.write Disk.commit_file
    Disk.after_rename Disk.sync_directory Disk.read Disk.decode restore restore_contract record_fits
    index_heads accounts_for agreement_fits replay turn finish_turn settle_turn get_entry put_entry
    validate_operation_id operation_text verify_operation Checkpoint.private_checkpoint
    Checkpoint.restore_private Checkpoint.restore_copy Checkpoint.restore_ledger
    Checkpoint.restore_sum Checkpoint.misfit Checkpoint.life_fits He.restore_private
    Settle.restore_private Settle.restore_randomness Settle.private_state He.private_state
    verify_receipts hash_terms perform_all perform Room.start_sealed Agreement.set_deadline
    Agreement.note Agreement.append Settle.new_encrypted_ledger He.new_paillier mod_inverse exp_mod
    gcd next_receipt hash_receipt receipt_text Room.apply Room.seal_lock Room.seal_with
    Room.seal_commit Contract.apply_verified Contract.apply_action Agreement.expire Settle.seal_lock
    Settle.clone Settle.aggregate He.lcm He.p_minus1 He.encrypt_with_r He.cipher He.prove_equal
    He.verify_equal He.zk_challenge Settle.prove_equal Settle.verify_equal Settle.blinding big_bytes
    set_bytes validate signed_text hash_bytes public_id
first_settled id = refl

-- A crash loses nothing that was answered.
first_IsCrash : IsCrash expired_disk expired_disk
first_IsCrash = record {
  chosen = λ id. subst (Memᴰ (expired_disk.visible id)) (sym (first_settled id)) (Memᴰ.head refl);
  settled = first_settled;
}

crash-Events : Events plain_std test_crypto test_persist expired_disk expired_disk
crash-Events = Events.then still (crashed expired_disk first_IsCrash)

abbrev second_reply : Reply Answer
second_reply =
    Store.apply plain_std test_crypto test_persist calm "t1" expiring buyer_key.signing test_entropy
      30 expired_disk

second_answer : second_reply.0 ≡ ok expiring_answer
unfolding Store.create Store.apply Store.apply_authentic Store.carry_out Disk.write Disk.commit_file
    Disk.after_rename Disk.sync_directory Disk.read Disk.decode restore restore_contract record_fits
    index_heads accounts_for agreement_fits replay turn finish_turn settle_turn get_entry put_entry
    validate_operation_id operation_text verify_operation Checkpoint.private_checkpoint
    Checkpoint.restore_private Checkpoint.restore_copy Checkpoint.restore_ledger
    Checkpoint.restore_sum Checkpoint.misfit Checkpoint.life_fits He.restore_private
    Settle.restore_private Settle.restore_randomness Settle.private_state He.private_state
    verify_receipts hash_terms perform_all perform Room.start_sealed Agreement.set_deadline
    Agreement.note Agreement.append Settle.new_encrypted_ledger He.new_paillier mod_inverse exp_mod
    gcd next_receipt hash_receipt receipt_text Room.apply Room.seal_lock Room.seal_with
    Room.seal_commit Contract.apply_verified Contract.apply_action Agreement.expire Settle.seal_lock
    Settle.clone Settle.aggregate He.lcm He.p_minus1 He.encrypt_with_r He.cipher He.prove_equal
    He.verify_equal He.zk_challenge Settle.prove_equal Settle.verify_equal Settle.blinding big_bytes
    set_bytes validate signed_text hash_bytes public_id
second_answer = refl

exactly_once_example :
    (expiring ≡ expiring)
    × (expiring_answer ≡ expiring_answer)
    × (second_reply.1.visible ≡ expired_disk.visible)
exactly_once_example =
    exactly_once plain_std test_crypto test_persist test-Faithful calm calm "t1" expiring expiring
      buyer_key.signing buyer_key.signing test_entropy test_entropy 21 30 first_disk expired_disk
      expired_disk second_reply.1 expiring_answer expiring_answer calm-Draws first_answers
      crash-Events refl (ap (λ a. (a, second_reply.1)) second_answer)

-- Another command under the same operation ID.
abbrev reusing : Operation
reusing = record { id = "op1"; command = command wide_sale "lock" "" }

reusing-ne : reusing ≢ expiring
reusing-ne e = ground (arith, ap (λ o. o.command.action) e, eq_iff "lock" "expire")

reused_id_refused_example :
    (e : Error) × (d : Disk) × (Store.apply plain_std test_crypto test_persist calm "t1" reusing
        buyer_key.signing test_entropy 30 expired_disk
      ≡ (err e, d))
    × (d.visible ≡ expired_disk.visible)
reused_id_refused_example =
    reused_id_refused plain_std test_crypto test_persist test-Faithful calm calm "t1" expiring
      reusing buyer_key.signing buyer_key.signing test_entropy test_entropy 21 30 first_disk
      expired_disk expired_disk expiring_answer calm-Draws first_answers crash-Events refl
      reusing-ne

expired_read :
    Disk.read plain_std test_crypto test_persist calm "t1" expired_disk
    ≡ ok (expired_record, expired_contract)
unfolding Store.create Store.apply Store.apply_authentic Store.carry_out Disk.write Disk.commit_file
    Disk.after_rename Disk.sync_directory Disk.read Disk.decode restore restore_contract record_fits
    index_heads accounts_for agreement_fits replay turn finish_turn settle_turn get_entry put_entry
    validate_operation_id operation_text verify_operation Checkpoint.private_checkpoint
    Checkpoint.restore_private Checkpoint.restore_copy Checkpoint.restore_ledger
    Checkpoint.restore_sum Checkpoint.misfit Checkpoint.life_fits He.restore_private
    Settle.restore_private Settle.restore_randomness Settle.private_state He.private_state
    verify_receipts hash_terms perform_all perform Room.start_sealed Agreement.set_deadline
    Agreement.note Agreement.append Settle.new_encrypted_ledger He.new_paillier mod_inverse exp_mod
    gcd next_receipt hash_receipt receipt_text Room.apply Room.seal_lock Room.seal_with
    Room.seal_commit Contract.apply_verified Contract.apply_action Agreement.expire Settle.seal_lock
    Settle.clone Settle.aggregate He.lcm He.p_minus1 He.encrypt_with_r He.cipher He.prove_equal
    He.verify_equal He.zk_challenge Settle.prove_equal Settle.verify_equal Settle.blinding big_bytes
    set_bytes validate signed_text hash_bytes public_id
expired_read = refl

expiring_signed :
    verify_operation plain_std test_crypto test_persist
      (signer expired_contract "expire")
      expiring
      buyer_key.signing
    ≡ none
unfolding Store.create Store.apply Store.apply_authentic Store.carry_out Disk.write Disk.commit_file
    Disk.after_rename Disk.sync_directory Disk.read Disk.decode restore restore_contract record_fits
    index_heads accounts_for agreement_fits replay turn finish_turn settle_turn get_entry put_entry
    validate_operation_id operation_text verify_operation Checkpoint.private_checkpoint
    Checkpoint.restore_private Checkpoint.restore_copy Checkpoint.restore_ledger
    Checkpoint.restore_sum Checkpoint.misfit Checkpoint.life_fits He.restore_private
    Settle.restore_private Settle.restore_randomness Settle.private_state He.private_state
    verify_receipts hash_terms perform_all perform Room.start_sealed Agreement.set_deadline
    Agreement.note Agreement.append Settle.new_encrypted_ledger He.new_paillier mod_inverse exp_mod
    gcd next_receipt hash_receipt receipt_text Room.apply Room.seal_lock Room.seal_with
    Room.seal_commit Contract.apply_verified Contract.apply_action Agreement.expire Settle.seal_lock
    Settle.clone Settle.aggregate He.lcm He.p_minus1 He.encrypt_with_r He.cipher He.prove_equal
    He.verify_equal He.zk_challenge Settle.prove_equal Settle.verify_equal Settle.blinding big_bytes
    set_bytes validate signed_text hash_bytes public_id
expiring_signed = refl

retry_succeeds_example : second_reply ≡ (ok expiring_answer, synced expired_disk)
retry_succeeds_example =
    retry_succeeds plain_std test_crypto test_persist test-Faithful calm calm "t1" expiring
      buyer_key.signing buyer_key.signing test_entropy test_entropy 21 30 first_disk expired_disk
      expired_disk expiring_answer expired_record expired_contract calm-Draws first_answers
      crash-Events refl refl expired_read expiring_signed

-- The program dies before the rename.
abbrev killed : Faults
killed = record calm { hook_fails = λ stage. stage == "before-rename" }

abbrev killed_reply : Reply Answer
killed_reply =
    Store.apply plain_std test_crypto test_persist killed "t1" expiring buyer_key.signing
      test_entropy 21 first_disk

killed_answer : killed_reply.0 ≡ err io_error
unfolding Store.create Store.apply Store.apply_authentic Store.carry_out Disk.write Disk.commit_file
    Disk.after_rename Disk.sync_directory Disk.read Disk.decode restore restore_contract record_fits
    index_heads accounts_for agreement_fits replay turn finish_turn settle_turn get_entry put_entry
    validate_operation_id operation_text verify_operation Checkpoint.private_checkpoint
    Checkpoint.restore_private Checkpoint.restore_copy Checkpoint.restore_ledger
    Checkpoint.restore_sum Checkpoint.misfit Checkpoint.life_fits He.restore_private
    Settle.restore_private Settle.restore_randomness Settle.private_state He.private_state
    verify_receipts hash_terms perform_all perform Room.start_sealed Agreement.set_deadline
    Agreement.note Agreement.append Settle.new_encrypted_ledger He.new_paillier mod_inverse exp_mod
    gcd next_receipt hash_receipt receipt_text Room.apply Room.seal_lock Room.seal_with
    Room.seal_commit Contract.apply_verified Contract.apply_action Agreement.expire Settle.seal_lock
    Settle.clone Settle.aggregate He.lcm He.p_minus1 He.encrypt_with_r He.cipher He.prove_equal
    He.verify_equal He.zk_challenge Settle.prove_equal Settle.verify_equal Settle.blinding big_bytes
    set_bytes validate signed_text hash_bytes public_id
killed_answer = refl

failed_apply_unchanged_example : killed_reply.1 ≡ first_disk
failed_apply_unchanged_example =
    failed_apply_unchanged plain_std test_crypto test_persist killed "t1" expiring buyer_key.signing
      test_entropy 21 first_disk killed_reply.1 io_error
      (ap (λ a. (a, killed_reply.1)) killed_answer) (λ e. cc)

apply-Registers_example :
    Registers
      (registered test_persist first_disk)
      "t1"
      expiring
      first_reply.0
      (registered test_persist expired_disk)
apply-Registers_example =
    apply-Registers plain_std test_crypto test_persist test-Faithful calm "t1" expiring
      buyer_key.signing test_entropy 21 first_disk calm-Draws
