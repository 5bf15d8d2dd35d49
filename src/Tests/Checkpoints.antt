-- ===== src/Tests/Checkpoints.antt =====
-- The checkpoint of an agreement, and its restoration.
use nexum.Prelude.{length, ◌^◌, ◌+◌, ◌*◌, ◌∷◌, ◌≡◌, refl, Option, some, [], arith, eq_iff}
use nexum.Prelude.Int.{pos}
use nexum.Errors.{ok}
use nexum.He.{Paillier}
use nexum.Std.{big_bytes, mod_inverse, gcd}
use nexum.Settle.{EncryptedLedger}
use nexum.Settle.RoundTrip.{KeyFormed, LedgerFormed}
use nexum.Agreement.{Agreement}
use nexum.Room.Ops.{perform_all}
use nexum.Room.Invariant.{IsValid, agreement_calls-IsValid}
use nexum.Checkpoint
use nexum.Receipt.{verify_receipts, next_receipt, hash_receipt}
use nexum.Checkpoint.Restored.{Restored, restore_private-Restored}
use nexum.Checkpoint.RoundTrip.{json_form, checkpoint_round_trip}
use nexum.Tests.Setup.{test_std, test_meter, house, house_opens}

abbrev test_copy : Agreement → Option Agreement
test_copy a = some (json_form a)

house-IsValid : IsValid test_std house
unfolding perform_all
house-IsValid =
    agreement_calls-IsValid test_std "a1" "sale" "alice" "bob" (pos 5) test_meter 10 [] house_opens

-- A key of 128 bytes whose lambda, n - 1, is its own inverse.
abbrev wide_key : Paillier
wide_key = record {
  n = 256 ^ 127 + 1;
  n2 = (256 ^ 127 + 1) * (256 ^ 127 + 1);
  g = 256 ^ 127 + 2;
  lambda = 256 ^ 127;
  mu = 256 ^ 127;
}

wide_key_bytes : length (big_bytes wide_key.n) ≡ 128
unfolding big_bytes
wide_key_bytes = refl

wide_key_inverse : mod_inverse wide_key.lambda wide_key.n ≡ some wide_key.mu
unfolding mod_inverse
wide_key_inverse = refl

wide_key-KeyFormed : KeyFormed wide_key
wide_key-KeyFormed = record {
  square = refl;
  generator = refl;
  wide = omega (arith, wide_key_bytes);
  narrow = omega (arith, wide_key_bytes);
  odd = refl;
  lambda_range = (omega arith, omega arith);
  mu_range = (omega arith, omega arith);
  inverse = wide_key_inverse;
}

abbrev wide_ledger : EncryptedLedger
wide_ledger = record { p = wide_key; rs = 1 ∷ 2 ∷ [] }

wide_ledger-LedgerFormed : LedgerFormed wide_ledger
unfolding gcd
wide_ledger-LedgerFormed = record {
  key = wide_key-KeyFormed;
  units = (omega arith, omega arith, refl, (omega arith, omega arith, refl, tt));
  few = omega arith;
}

abbrev pub unlocked_ledger : EncryptedLedger
unlocked_ledger = record { p = wide_key; rs = [] }

pub unlocked_ledger-LedgerFormed : LedgerFormed unlocked_ledger
unlocked_ledger-LedgerFormed = record { key = wide_key-KeyFormed; units = tt; few = omega arith }

abbrev armed_house : Agreement
armed_house = record house { sealed = some unlocked_ledger }

armed_house-IsValid : IsValid test_std armed_house
armed_house-IsValid = record {
  chained = house-IsValid.chained;
  counted = refl;
  metered = house-IsValid.metered;
  begun = house-IsValid.begun;
  parties = house-IsValid.parties;
  named = house-IsValid.named;
  positive = house-IsValid.positive;
  life = house-IsValid.life;
}

checkpoint_round_trip_example :
    Checkpoint.restore_private test_std test_copy (Checkpoint.private_checkpoint armed_house)
    ≡ ok armed_house
checkpoint_round_trip_example =
    checkpoint_round_trip test_std armed_house armed_house-IsValid test_copy refl
      ((λ e. refl), (λ some_lock. absurd (some_lock refl))) (unlocked_ledger-LedgerFormed, refl)
      (λ e. ground (arith, eq_iff "a1" "")) (λ e. ground (arith, eq_iff "sale" "")) (omega arith)

house_restores :
    Checkpoint.restore_private test_std test_copy (Checkpoint.private_checkpoint house) ≡ ok house
unfolding Checkpoint.restore_private Checkpoint.private_checkpoint Checkpoint.restore_copy
    Checkpoint.restore_ledger Checkpoint.misfit Checkpoint.life_fits verify_receipts next_receipt
    hash_receipt
house_restores = refl

restore_private-Restored_example : Restored test_std house
restore_private-Restored_example =
    restore_private-Restored test_std test_copy (λ a b e. ground arith)
      (Checkpoint.private_checkpoint house) house_restores
