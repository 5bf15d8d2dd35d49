-- ===== src/Tests/Sealed.antt =====
-- A sealed escrow over the key of the primes 3 and 5, from its opening to its acceptance.
use nexum.Prelude.{true, ◌≡◌, ◌≢◌, refl, none, some, List, [], ◌∷◌}
use nexum.Prelude.Int.{pos}
use nexum.Errors.{ok}
use nexum.Std.{Time, Bytes, big_bytes, set_bytes, exp_mod, gcd, mod_inverse}
use nexum.Meter.{accepted}
use nexum.He
use nexum.Settle
use nexum.Settle.{EncryptedLedger}
use nexum.Agreement.{Agreement}
use nexum.Room
use nexum.Room.Ops.{Op, perform, perform_all}
use nexum.Room.Custody.{sealed_acceptance}
use nexum.Tests.Setup.{test_std, house}

abbrev sealing : List (Time × Op)
sealing =
    (11, Op.start_sealed 2048 (λ bits. (some 3, some 5) ∷ []))
    ∷ (12, Op.seal_lock "alice" (pos 5) (λ attempt. some 2))
    ∷ []

abbrev small_ledger : EncryptedLedger
small_ledger = record { p = record { n = 15; n2 = 225; g = 16; lambda = 4; mu = 4 }; rs = 2 ∷ [] }

-- 16 ^ 5 * 2 ^ 15 mod 225 is 148.
abbrev sealed_house : Agreement
sealed_house = perform_all test_std sealing house

sealed_house_armed : sealed_house.sealed ≡ some small_ledger
unfolding perform_all perform Room.start_sealed Room.seal_lock Room.seal_with Room.seal_commit
    Settle.new_encrypted_ledger He.new_paillier He.p_minus1 He.lcm Settle.seal_lock Settle.clone
    Settle.aggregate He.encrypt_with_r He.cipher exp_mod gcd mod_inverse
sealed_house_armed = refl

sealed_house_accepts : (Room.accept test_std sealed_house "bob" (some 7) 13).0 ≡ none
unfolding perform_all perform Room.start_sealed Room.seal_lock Room.seal_with Room.seal_commit
    Settle.new_encrypted_ledger He.new_paillier He.p_minus1 He.lcm Settle.seal_lock Settle.clone
    Settle.aggregate He.encrypt_with_r He.cipher exp_mod gcd mod_inverse Room.accept
    Room.accept_sealed Room.settle_proven Settle.prove_equal Settle.verify_equal He.prove_equal
    He.verify_equal big_bytes set_bytes Settle.blinding
sealed_house_accepts = refl

sealed_acceptance_example :
    let b = (Room.accept test_std sealed_house "bob" (some 7) 13).1 in
    ((proof : Bytes) × (Settle.prove_equal test_std small_ledger sealed_house.sealed_sum
          sealed_house.amount
          (some 7)
        ≡ ok proof)
      × (Settle.verify_equal test_std small_ledger sealed_house.sealed_sum sealed_house.amount proof
          ≡ ok true))
    × (sealed_house.sealed_locks ≢ [])
    × (b.status ≡ accepted)
    × (b.released_to ≡ sealed_house.seller)
    × (b.sealed_sum ≡ [])
sealed_acceptance_example =
    sealed_acceptance test_std sealed_house "bob" (some 7) 13 small_ledger sealed_house_armed
      sealed_house_accepts
