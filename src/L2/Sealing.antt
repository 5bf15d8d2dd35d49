-- ===== src/L2/Sealing.antt =====
-- A batch that is sealed is one that verifies.
use nexum.Prelude.{ℕ, ◌≡◌, List, arith, Option, none, true, subst}
use nexum.Prelude.Int.{ℤ, ◌≤ℤ◌}
use nexum.Errors.{Result, ok, err, bind_cases}
use nexum.Std.{Std, Time, unix_seconds}
use nexum.Std.Equality.{bytes_eq_refl}
use nexum.Agreement.{Agreement}
use nexum.Pow.{Header, valid, search_result, zero_digest}
use nexum.L2
use nexum.L2.{Codec, Batch, root_block, root_bytes, root, terms_bytes, terms_digest}

module _ (std : Std) (codec : Codec) where
  -- A header that a search returns is the one that was given, with a nonce that makes it valid.
  search_result-valid :
      (h : Header) (found : ℕ) {p : Header × ℕ}
      → search_result codec.keccak h found ≡ ok p
      → (p.0 ≡ record h { nonce = found })
        × (valid codec.keccak (record h { nonce = found }) ≡ true)
  unfolding search_result
  search_result-valid h found e = ground arith

  abbrev Accepted : ℤ → Result Batch → Type 0
  Accepted floor (ok b) = L2.verify_batch std codec b floor ≡ none
  Accepted floor (err e) = Unit

  seal-Accepted :
      (as_ : List (Option Agreement)) (bits floor : ℤ) (now : Time) (found : ℕ)
      → floor ≤ℤ bits
      → Accepted floor (L2.seal std codec as_ bits now found)
  unfolding L2.seal L2.verify_batch L2.verify
  seal-Accepted as_ bits floor now found low =
      bind_cases (Accepted floor) (root std codec as_) _ (λ e. tt)
        (λ r made.
          bind_cases (Accepted floor) (search_result codec.keccak _ found) _ (λ e. tt)
            (λ sealed searched.
              let (is_sealed, good) =
                search_result-valid
                  (record {
                    parent = zero_digest;
                    batch_root = r;
                    time_unix = unix_seconds now;
                    diff_bits = bits;
                    nonce = 0;
                  })
                  found searched in
              ground (arith, made, is_sealed, good, bytes_eq_refl r)))

  -- A batch that Seal returns is one that VerifyBatch accepts, at any floor up to the difficulty that
  -- was asked for.
  pub verify_batch-seal :
      (as_ : List (Option Agreement)) (bits floor : ℤ) (now : Time) (found : ℕ) {b : Batch}
      → floor ≤ℤ bits
      → L2.seal std codec as_ bits now found ≡ ok b
      → L2.verify_batch std codec b floor ≡ none
  verify_batch-seal as_ bits floor now found {b} low h =
      subst (Accepted floor) h (seal-Accepted as_ bits floor now found low)
