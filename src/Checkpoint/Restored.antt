-- ===== src/Checkpoint/Restored.antt =====
-- What a restored agreement is.
use nexum.Std.Equality.{bytes_eq_sound}
use nexum.Prelude.{
  ◌<◌, ◌≡◌, ◌≢◌, sym, subst, inl, inr, refl, true, false, Option, none, some, [], length, arith,
  eq_iff, Option-cases,
}
use nexum.Prelude.Int.{ℤ, pos, ◌≤ℤ◌, ◌<ℤ◌}
use nexum.Errors.{ok, Result-cases}
use nexum.Std.{Std, Bytes}
use nexum.Meter.{accepted}
use nexum.Settle
use nexum.Settle.{EncryptedLedger, LedgerState}
use nexum.Receipt.{verify_receipts}
use nexum.Agreement.{Agreement}
use nexum.Room.Invariant.{IsValid, Life}
use nexum.Checkpoint
use nexum.Checkpoint.{PrivateCheckpoint}

-- The sealed fields fit each other: no lock and no sum without a ledger; with one, no sum without
-- locks, and otherwise locks that can be added up, to a sum that is kept until it is accepted.
abbrev pub SealFits : Agreement → Option EncryptedLedger → Type 0
SealFits a none = (a.sealed_locks ≡ []) × (a.sealed_sum ≡ [])
SealFits a (some l) =
    (a.sealed_locks ≡ [] → a.sealed_sum ≡ [])
    × (a.sealed_locks ≢ []
        → (sum : Bytes) × (Settle.aggregate l a.sealed_locks ≡ ok sum)
          × (a.status ≡ accepted → a.sealed_sum ≡ [])
          × (a.status ≢ accepted → sum ≡ a.sealed_sum))

pub record Restored (std : Std) (a : Agreement) : Type 0 where
  pub valid : IsValid std a
  pub bounded : a.meter.max_steps ≤ℤ pos 128
  pub named : (a.id ≢ "") × (a.kind ≢ "")
  pub sealed : SealFits a a.sealed

restore_sum_fits :
    (a : Agreement) (l : EncryptedLedger) {b : Agreement}
    → Checkpoint.restore_sum a l ≡ ok b
    → (b ≡ a) × SealFits a (some l)
unfolding Checkpoint.restore_sum
restore_sum_fits a l h = elim (Result-cases (Settle.aggregate l a.sealed_locks)) [
  | inl (e, failed) ↦ (ground arith, (ground arith, λ some_lock. absurd (ground arith)))
  | inr (sum, made) ↦ (
    ground arith,
    (
      ground arith,
      λ some_lock. (sum, made, ground arith, ground (arith, bytes_eq_sound sum a.sealed_sum)),
    ),
  )
]

restore_ledger_fits :
    (a : Agreement) (state : Option LedgerState) {b : Agreement}
    → a.sealed ≡ none
    → Checkpoint.restore_ledger a state ≡ ok b
    → (b ≡ record a { sealed = b.sealed }) × SealFits b b.sealed
unfolding Checkpoint.restore_ledger
restore_ledger_fits a none bare h = ground arith
restore_ledger_fits a (some state) bare h = grind (arith, restore_sum_fits)

life_lem :
    (a : Agreement)
    → Checkpoint.life_fits a ≡ true
    → Life a.status a.locked_at a.closed_at a.released_to a.buyer a.seller
unfolding Checkpoint.life_fits
life_lem a h =
    ground
      (arith, eq_iff a.released_to "", eq_iff a.released_to a.seller, eq_iff a.released_to a.buyer)

-- What the long condition lets pass.
record Fitting (a : Agreement) (steps : ℤ) : Type 0 where
  pub named : (a.id ≢ "") × (a.kind ≢ "")
  pub parties : (a.buyer ≢ a.seller) × (a.buyer ≢ "") × (a.seller ≢ "")
  pub positive : pos 0 <ℤ a.amount
  pub counted : 0 < length a.receipts
  pub metered : pos (length a.receipts) ≤ℤ a.meter.max_steps
  pub bounded : a.meter.max_steps ≤ℤ pos 128

misfit_lem : (a : Agreement) (steps : ℤ) → Checkpoint.misfit a steps ≡ false → Fitting a steps
unfolding Checkpoint.misfit
misfit_lem a steps h = ground (
  arith,
  eq_iff a.id "",
  eq_iff a.kind "",
  eq_iff a.buyer "",
  eq_iff a.seller "",
  eq_iff a.buyer a.seller,
)

module _ (std : Std) where
  -- The copy that passed the tests, with its ledger.
  copy-Restored :
      (a : Agreement) (steps : ℤ) (state : Option LedgerState) {b : Agreement}
      → a.sealed ≡ none
      → Checkpoint.restore_copy std a steps state ≡ ok b
      → Restored std b
  unfolding Checkpoint.restore_copy
  copy-Restored a steps state {b} bare h =
      let counted = record a { steps = length a.receipts } in
      let passed : (Checkpoint.misfit a steps ≡ false)
          × (verify_receipts std a.id a.receipts ≡ none)
          × (Checkpoint.life_fits a ≡ true)
          × (Checkpoint.restore_ledger counted state ≡ ok b) =
        ground arith in
      let fields = misfit_lem a steps passed.0 in
      let life = life_lem a passed.2 in
      let fits = restore_ledger_fits counted state bare passed.3 in
      let same = sym fits.0 in
      record {
        valid = subst (IsValid std) same (record {
          chained = passed.1;
          counted = refl;
          metered = fields.metered;
          begun = fields.counted;
          parties = fields.parties.0;
          named = (fields.parties.1, fields.parties.2);
          positive = fields.positive;
          life = life;
        });
        bounded = subst (λ x. x.meter.max_steps ≤ℤ pos 128) same fields.bounded;
        named = subst (λ x. (x.id ≢ "") × (x.kind ≢ "")) same fields.named;
        sealed = fits.1;
      }

  -- What RestorePrivate returns, whatever checkpoint it is given, is a valid agreement (IsValid), with
  -- a step bound of at most 128, a named id and kind, and sealed fields that fit its ledger. It is
  -- assumed that the JSON copy of an agreement has no ledger.
  pub restore_private-Restored :
      (json_copy : Agreement → Option Agreement)
      → ((a b : Agreement) → json_copy a ≡ some b → b.sealed ≡ none)
      → (s : PrivateCheckpoint) {b : Agreement} → Checkpoint.restore_private std json_copy s ≡ ok b
      → Restored std b
  unfolding Checkpoint.restore_private
  restore_private-Restored json_copy bare s h = elim (Option-cases s.agreement) [
    | inl nothing ↦ ground arith
    | inr (original, given) ↦ elim (Option-cases (json_copy original)) [
      | inl failed ↦ ground arith
      | inr (a, copied) ↦ copy-Restored a s.steps s.ledger (bare original a copied) (ground arith)
    ]
  ]
