-- ===== src/Room.antt =====
-- internal/nexum/room.go: one agent step (`Move`, `Apply`), the sealed escrow, and the methods of
-- agreement.go that settle: `Accept`, `Reject`, `AcceptWithEvidence`.
pub mod Ops
pub mod Frozen
pub mod Invariant
pub mod Custody
pub mod History
use nexum.Prelude.{
  ℕ, ◌+◌, String, Bool, true, false, not, ◌||◌, ◌&&◌, Option, none, some, List, [], ◌∷◌, ◌++◌, ◌==◌,
  if◌then◌else◌,
}
use Prim.Native.String.{◌++◌ as ◌<>◌}
use nexum.Prelude.Int.{ℤ}
use nexum.Errors.{
  Result, ok, err, Outcome, done, fail, attempt, ◌>>=◌, wrong_party, bad_state, takeback, no_seal,
  kernel_broken, unknown_action, sum_mismatch,
}
use nexum.Std.{Std, Bytes, Time}
use nexum.Meter.{Status, locked, accepted, rejected, is_open, is_locked}
use nexum.Settle
use nexum.Settle.{EncryptedLedger}
use nexum.Receipt.{Party}
use nexum.Agreement.{Agreement, is_terminal, append, lock, note}

-- The random numbers of one call: the draws of SealLock, and the blinding number of ProveEqual.
pub record Entropy : Type 0 where
  pub draws : ℕ → Option ℕ
  pub blinder : Option ℕ

pub record Move : Type 0 where
  pub actor : Party
  pub action : String
  pub partial : ℤ

abbrev pub is_empty {ℓ} : {A : Type ℓ} → List A → Bool
is_empty [] = true
is_empty (x ∷ xs) = false

unfoldable pub start_sealed : Agreement → ℕ → (ℕ → List (Option ℕ × Option ℕ)) → Outcome Agreement
start_sealed a bits primes =
    if not (is_open a.status)
    then fail bad_state a
    else attempt a (Settle.new_encrypted_ledger bits primes)
        λ l. done (record a { sealed = some l })

unfoldable pub takeback_move : Agreement → Party → Time → Outcome Agreement
takeback_move a actor now =
    if is_terminal a.status
    then fail takeback a
    else if is_locked a.status && actor == a.buyer
    then fail takeback a
    else fail bad_state a

-- The `takeback` case of `Apply`: no error would be an error.
refuse_nil : Outcome Agreement → Outcome Agreement
refuse_nil (none, a) = fail kernel_broken a
refuse_nil (some e, a) = fail e a

-- The copy `next` is assigned back only if both steps succeed.
unfoldable pub commit_copy : Agreement → Outcome Agreement → Outcome Agreement
commit_copy a (none, next) = done next
commit_copy a (some e, next) = fail e a

module _ (std : Std) where
  -- The end of `sealLock`: the receipt, then the commit of the staged ledger.
  unfoldable pub seal_commit :
      Agreement → Party → Time → Bytes × EncryptedLedger → List Bytes → Bytes → Outcome Agreement
  unfolding append
  seal_commit a actor now sealed locks sum = do
    a' ← append std a actor "seal" (std.base64 sealed.0) now
    done (record a' {
      sealed = some sealed.1;
      sealed_locks = locks;
      sealed_sum = sum;
      status = locked;
      locked_at = some now;
    })

  -- What `sealLock` does once its guards have passed, on the ledger of the agreement.
  unfoldable pub seal_with :
      Agreement → Party → ℤ → (ℕ → Option ℕ) → Time → EncryptedLedger → Outcome Agreement
  seal_with a actor partial draws now ledger =
      attempt a (Settle.seal_lock (Settle.clone ledger) partial draws) λ sealed.
        let locks = a.sealed_locks ++ sealed.0 ∷ [] in
        attempt a (Settle.aggregate sealed.1 locks) λ sum. seal_commit a actor now sealed locks sum

  unfoldable pub seal_lock : Agreement → Party → ℤ → (ℕ → Option ℕ) → Time → Outcome Agreement
  seal_lock a actor partial draws now =
      if not (actor == a.buyer)
      then fail wrong_party a
      else if is_terminal a.status
      then fail takeback a
      else elim a.sealed [
        | none ↦ fail no_seal a
        | some ledger ↦ seal_with a actor partial draws now ledger
      ]

  -- The text of the receipt that carries the proof.
  pub accept_note : Agreement → Bytes → String
  accept_note a proof =
      "sealed sum == committed "
      <> std.decimal a.amount
      <> " via zk equality proof (no decrypt); proof: "
      <> std.base64 proof

  -- The end of `acceptSealed`, where `holds` is the answer of the verifier.
  unfoldable pub settle_proven : Agreement → Party → Time → Bytes → Bool → Outcome Agreement
  unfolding append accept_note
  settle_proven a actor now proof holds = if not holds then fail sum_mismatch a else do
    a' ← append std a actor "accept" (accept_note a proof) now
    done (record a' {
      closed_at = some now;
      released_to = a'.seller;
      status = accepted;
      sealed_sum = [];
    })

  unfoldable pub accept_sealed :
      Agreement → Party → EncryptedLedger → Option ℕ → Time → Outcome Agreement
  accept_sealed a actor ledger blinder now =
      if not (actor == a.seller)
      then fail wrong_party a
      else if is_terminal a.status
      then fail takeback a
      else if not (is_locked a.status) || is_empty a.sealed_locks
      then fail bad_state a
      else attempt a (Settle.prove_equal std ledger a.sealed_sum a.amount blinder) λ proof.
        attempt a (Settle.verify_equal std ledger a.sealed_sum a.amount proof)
          λ holds. settle_proven a actor now proof holds

  unfoldable pub accept_plain : Agreement → Party → Time → Outcome Agreement
  unfolding append
  accept_plain a actor now =
      if not (actor == a.seller)
      then fail wrong_party a
      else if not (is_locked a.status)
      then (if is_terminal a.status then fail takeback a else fail bad_state a)
      else do
        a' ← append std a actor "accept" "released to seller" now
        done (record a' { closed_at = some now; released_to = a'.seller; status = accepted })

  unfoldable pub accept : Agreement → Party → Option ℕ → Time → Outcome Agreement
  accept a actor blinder now = elim a.sealed [
    | none ↦ accept_plain a actor now
    | some ledger ↦ accept_sealed a actor ledger blinder now
  ]

  unfoldable pub reject_sealed : Agreement → Party → Time → Outcome Agreement
  unfolding append
  reject_sealed a actor now =
      if not (actor == a.seller)
      then fail wrong_party a
      else if is_terminal a.status
      then fail takeback a
      else if not (is_locked a.status)
      then fail bad_state a
      else do
        a' ← append std a actor "reject" "returned to buyer (sum stays sealed)" now
        done (record a' { closed_at = some now; released_to = a'.buyer; status = rejected })

  unfoldable pub reject_plain : Agreement → Party → Time → Outcome Agreement
  unfolding append
  reject_plain a actor now =
      if not (actor == a.seller)
      then fail wrong_party a
      else if not (is_locked a.status)
      then (if is_terminal a.status then fail takeback a else fail bad_state a)
      else do
        a' ← append std a actor "reject" "returned to buyer" now
        done (record a' { closed_at = some now; released_to = a'.buyer; status = rejected })

  unfoldable pub reject : Agreement → Party → Time → Outcome Agreement
  reject a actor now = elim a.sealed [
    | none ↦ reject_plain a actor now
    | some ledger ↦ reject_sealed a actor now
  ]

  unfoldable pub apply : Agreement → Move → Entropy → Time → Outcome Agreement
  unfolding takeback_move refuse_nil
  apply a m rnd now =
      if m.action == "lock"
      then lock std a m.actor now
      else if m.action == "seal"
      then seal_lock a m.actor m.partial rnd.draws now
      else if m.action == "accept"
      then accept a m.actor rnd.blinder now
      else if m.action == "reject"
      then reject a m.actor now
      else if m.action == "takeback"
      then refuse_nil (takeback_move a m.actor now)
      else fail (unknown_action m.action) a

  unfoldable pub accept_with_evidence :
      Agreement → Party → Party → String → Option ℕ → Time → Outcome Agreement
  unfolding commit_copy
  accept_with_evidence a author actor citation blinder now =
      commit_copy a
        (note std a author "evidence" citation now >>= λ next. accept next actor blinder now)
