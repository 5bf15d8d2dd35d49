-- ===== src/Settle.antt =====
-- internal/settle: the encrypted ledger (encsum.go) and its private checkpoint (checkpoint.go).
pub mod RoundTrip
use nexum.Prelude.{
  ℕ, zero, suc, ◌+◌, ◌*◌, ◌%◌, Bool, ◌||◌, not, Option, none, some, List, [], ◌∷◌, ◌++◌, map,
  length, leb, ltb, nat_eq, if◌then◌else◌,
}
use nexum.Prelude.Int.{ℤ, pos, eq_ℤ, leb_ℤ}
use nexum.Errors.{
  Result, ok, err, bind, bad_lock, no_locks, sum_mismatch, bad_sum, too_many_locks, bad_randomness,
}
use nexum.Std.{Std, Bytes, big_bytes, set_bytes, gcd}
use nexum.He
use nexum.He.{Paillier}

-- `rs` holds the randomness of each sealed lock, in order.
pub record EncryptedLedger : Type 0 where
  pub p : Paillier
  pub rs : List ℕ

unfoldable pub new_encrypted_ledger : ℕ → (ℕ → List (Option ℕ × Option ℕ)) → Result EncryptedLedger
new_encrypted_ledger bits primes =
    bind (He.new_paillier bits primes) (λ p. ok (record { p = p; rs = [] }))

-- One pass of the loop of `SealLock`; `none` is its `continue`.
seal_attempt : EncryptedLedger → ℤ → Option ℕ → Option (Bytes × EncryptedLedger)
seal_attempt l amount none = none
seal_attempt l amount (some r) =
    if nat_eq r 0
    then none
    else if not (nat_eq (gcd r l.p.n) 1)
    then none
    else elim (He.encrypt_with_r l.p amount r) [
      | err e ↦ none
      | ok ct ↦ some (ct, record l { rs = l.rs ++ r ∷ [] })
    ]

-- The loop with `left` attempts to go; `draw` numbers the draws of rand.Int.
seal_loop : EncryptedLedger → ℤ → (ℕ → Option ℕ) → ℕ → ℕ → Result (Bytes × EncryptedLedger)
seal_loop l amount draw zero attempt = err bad_lock
seal_loop l amount draw (suc left) attempt =
    let again = seal_loop l amount draw left (attempt + 1) in
    elim (seal_attempt l amount (draw attempt)) [ none ↦ again | some sealed ↦ ok sealed ]

-- The ciphertext, and the ledger with the randomness that made it.
unfoldable pub seal_lock : EncryptedLedger → ℤ → (ℕ → Option ℕ) → Result (Bytes × EncryptedLedger)
unfolding seal_loop seal_attempt
seal_lock l amount draw = if leb_ℤ amount (pos 0) then err bad_lock else seal_loop l amount draw 8 0

-- The loop of `Aggregate` from its running sum.
add_all : Paillier → Bytes → List Bytes → Result Bytes
add_all p sum [] = ok sum
add_all p sum (c ∷ rest) = bind (He.add p sum c) (λ next. add_all p next rest)

unfoldable pub aggregate : EncryptedLedger → List Bytes → Result Bytes
unfolding add_all
aggregate l [] = err no_locks
aggregate l (c ∷ rest) = add_all l.p c rest

-- Decrypts the aggregate and holds it against the committed amount, an int64.
unfoldable pub release : EncryptedLedger → Bytes → ℤ → Result ℤ
release l sealed_sum committed = bind (He.decrypt l.p sealed_sum) (λ total.
    if nat_eq total 0
    then err bad_sum
    else if leb 9223372036854775808 total || not (eq_ℤ (pos total) committed)
    then err sum_mismatch
    else ok (pos total))

-- The product of the randomness of the locks, mod n.
unfoldable pub blinding : ℕ → ℕ → List ℕ → ℕ
blinding n r [] = r
blinding n r (ri ∷ rest) = blinding n ((r * ri) % n) rest

module _ (std : Std) where
  unfoldable pub prove_equal : EncryptedLedger → Bytes → ℤ → Option ℕ → Result Bytes
  unfolding blinding
  prove_equal l sealed_sum committed draw = elim l.rs [
    | [] ↦ err no_locks
    | r ∷ rest ↦ He.prove_equal std l.p sealed_sum committed (blinding l.p.n 1 l.rs) draw
  ]

  unfoldable pub verify_equal : EncryptedLedger → Bytes → ℤ → Bytes → Result Bool
  verify_equal l sealed_sum committed proof = He.verify_equal std l.p sealed_sum committed proof

-- A ledger is a value here, so its copy is equal to it.
unfoldable pub clone : EncryptedLedger → EncryptedLedger
clone l = record { p = l.p; rs = l.rs }

-- settle.PrivateState
pub record LedgerState : Type 0 where
  pub key : He.KeyState
  pub randomness : List Bytes

unfoldable pub private_state : EncryptedLedger → LedgerState
private_state l = record { key = He.private_state l.p; randomness = map big_bytes l.rs }

-- The loop of `RestorePrivate` over the randomness, for the modulus n of `width` bytes.
unfoldable pub restore_randomness : ℕ → ℕ → List Bytes → Result (List ℕ)
restore_randomness n width [] = ok []
restore_randomness n width (b ∷ rest) =
    let r = set_bytes b in
    let others = restore_randomness n width rest in
    if ltb width (length b)
    then err bad_randomness
    else if nat_eq r 0 || leb n r || not (nat_eq (gcd r n) 1)
    then err bad_randomness
    else bind others (λ rs. ok (r ∷ rs))

unfoldable pub restore_private : LedgerState → Result EncryptedLedger
unfolding restore_randomness
restore_private s = bind (He.restore_private s.key) (λ p.
    if ltb 128 (length s.randomness)
    then err too_many_locks
    else bind (restore_randomness p.n (length s.key.n) s.randomness)
        (λ rs. ok (record { p = p; rs = rs })))
