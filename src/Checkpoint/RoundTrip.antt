-- ===== src/Checkpoint/RoundTrip.antt =====
-- A checkpoint restores the agreement that it was taken of.
use nexum.Std.Equality.{bytes_eq_refl}
use nexum.Prelude.{
  ◌≡◌, ◌≢◌, List, ◌⊎◌, inl, inr, refl, true, false, Option, none, some, [], ◌∷◌, length, arith,
  eq_iff,
}
use nexum.Prelude.Int.{pos, ◌≤ℤ◌}
use nexum.Errors.{ok}
use nexum.Std.{Std, Bytes}
use nexum.Settle
use nexum.Settle.{EncryptedLedger}
use nexum.Settle.RoundTrip.{LedgerFormed, ledger_round_trip, length-map}
use nexum.Agreement.{Agreement}
use nexum.Room.Invariant.{IsValid}
use nexum.Checkpoint
use nexum.Checkpoint.Restored.{SealFits}

-- The copy that JSON makes: every field but the ledger and the step count.
abbrev pub json_form : Agreement → Agreement
json_form a = record a { sealed = none; steps = 0 }

-- The ledger can be restored, and has sealed the locks of the agreement.
abbrev pub LedgerFits : Agreement → Option EncryptedLedger → Type 0
LedgerFits a none = Unit
LedgerFits a (some l) = LedgerFormed l × (length l.rs ≡ length a.sealed_locks)

empty_cases : (xs : List Bytes) → (xs ≡ []) ⊎ (xs ≢ [])
empty_cases [] = inl refl
empty_cases (x ∷ xs) = inr (λ h. cc)

sum_returns :
    (a : Agreement) (l : EncryptedLedger) → SealFits a (some l) → Checkpoint.restore_sum a l ≡ ok a
unfolding Checkpoint.restore_sum
sum_returns a l fits = elim (empty_cases a.sealed_locks) [
  | inl empty ↦ ground arith
  | inr some_lock ↦
      let (sum, made, left, kept) = fits.1 some_lock in ground (arith, bytes_eq_refl sum)
]

ledger_returns :
    (a : Agreement) (o : Option EncryptedLedger)
    → a.sealed ≡ none
    → SealFits a o
    → LedgerFits a o
    → Checkpoint.restore_ledger a (Checkpoint.state_of o) ≡ ok (record a { sealed = o })
unfolding Checkpoint.restore_ledger Settle.private_state
ledger_returns a none bare fits held = ground arith
ledger_returns a (some l) bare fits held = ground (
  arith,
  ledger_round_trip l held.0,
  sum_returns (record a { sealed = some l }) l fits,
  length-map l.rs,
)

module _ (std : Std) (a : Agreement) (v : IsValid std a) where
  fitting :
      (a.id ≢ "")
      → (a.kind ≢ "")
      → a.meter.max_steps ≤ℤ pos 128
      → Checkpoint.misfit (json_form a) (pos a.steps) ≡ false
  unfolding Checkpoint.misfit
  fitting id kind bound = ground (
    arith,
    eq_iff a.id "",
    eq_iff a.kind "",
    eq_iff a.buyer "",
    eq_iff a.seller "",
    eq_iff a.buyer a.seller,
  )

  living : Checkpoint.life_fits (json_form a) ≡ true
  unfolding Checkpoint.life_fits
  living =
      ground (
        arith,
        eq_iff a.released_to "",
        eq_iff a.released_to a.seller,
        eq_iff a.released_to a.buyer,
      )

  -- A round trip: RestorePrivate of PrivateCheckpoint of a valid agreement is the agreement with every
  -- field, the ledger and the step count too, where its step bound is at most 128, its id and kind
  -- are not empty, its sealed fields fit its ledger, if it has one, with a formed key and one unit of
  -- blinding for each lock, and JSON copies its serialized fields.
  pub checkpoint_round_trip :
      (json_copy : Agreement → Option Agreement)
      → json_copy a ≡ some (json_form a)
      → SealFits a a.sealed
      → LedgerFits a a.sealed
      → a.id ≢ ""
      → a.kind ≢ ""
      → a.meter.max_steps ≤ℤ pos 128
      → Checkpoint.restore_private std json_copy (Checkpoint.private_checkpoint a) ≡ ok a
  unfolding Checkpoint.restore_private Checkpoint.private_checkpoint Checkpoint.restore_copy
  checkpoint_round_trip json_copy copies fits held id kind bound =
      let back = ledger_returns (record a { sealed = none }) a.sealed refl fits held in
      ground (arith, fitting id kind bound, living, v.chained, v.counted, back)
