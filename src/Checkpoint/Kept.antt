-- ===== src/Checkpoint/Kept.antt =====
-- internal/nexum/room.go and agreement.go: the sealed fields of an agreement stay such that its checkpoint restores.
use nexum.Room.{is_empty}
use nexum.Prelude.{
  ℕ, ◌≡◌, ◌≢◌, ◌⊎◌, inl, inr, refl, sym, subst, ap, ◌∙◌, String, Option, none, some, List, arith,
  if_rule, [], ◌∷◌, ◌++◌, not, ◌||◌, ◌==◌, Bool,
}
use nexum.Prelude.Int.{ℤ}
use nexum.Std.{Std, Bytes, Time}
use nexum.Meter.{accepted, is_locked}
use nexum.Receipt.{Party}
use nexum.Errors.{Outcome, Result, ok, err, fail, attempt, ◌>>=◌, no_seal}
use nexum.Settle
use nexum.Settle.{EncryptedLedger}
use nexum.Agreement
use nexum.Agreement.{Agreement, is_terminal}
use nexum.Room
use nexum.Checkpoint.Restored.{SealFits}

-- The sealed fields are as they were, and so is the status, unless it is not accepted before or after.
record Steady (a b : Agreement) : Type 0 where
  pub sealed : b.sealed ≡ a.sealed
  pub locks : b.sealed_locks ≡ a.sealed_locks
  pub sum : b.sealed_sum ≡ a.sealed_sum
  pub status : (b.status ≡ a.status) ⊎ ((a.status ≢ accepted) × (b.status ≢ accepted))

refit : (a b : Agreement) (o : Option EncryptedLedger) → Steady a b → SealFits a o → SealFits b o
refit a b none s fits = (s.locks ∙ fits.0, s.sum ∙ fits.1)
refit a b (some l) s fits = (
  λ e. s.sum ∙ fits.0 (sym s.locks ∙ e),
  λ some_lock.
      let (sum, made, left, kept) = fits.1 (λ e. some_lock (s.locks ∙ e)) in
      (
        sum,
        ap (Settle.aggregate l) s.locks ∙ made,
        (λ e. elim s.status [
          | inl same ↦ s.sum ∙ left (sym same ∙ e)
          | inr other ↦ absurd (other.1 e)
        ]),
        (λ n. elim s.status [
          | inl same ↦ kept (λ e. n (same ∙ e)) ∙ sym s.sum
          | inr other ↦ kept other.0 ∙ sym s.sum
        ]),
      ),
)

-- The agreement's own ledger and fields.
abbrev pub Fits : Agreement → Type 0
Fits a = SealFits a a.sealed

Steady-Fits : (a b : Agreement) → Steady a b → Fits a → Fits b
Steady-Fits a b s fits = subst (SealFits b) (sym s.sealed) (refit a b a.sealed s fits)

-- No sum is made of no locks.
empty_sum : (l : EncryptedLedger) (sum : Bytes) → Settle.aggregate l [] ≢ ok sum
unfolding Settle.aggregate
empty_sum l sum h = cc

-- What an acceptance leaves.
accepted-Fits :
    (b : Agreement) (o : Option EncryptedLedger)
    → SealFits b o
    → SealFits (record b { status = accepted; sealed_sum = [] }) o
accepted-Fits b none fit = (fit.0, refl)
accepted-Fits b (some l) fit = (
  λ e. refl,
  λ some_lock.
      let (sum, made, left, kept) = fit.1 some_lock in (sum, made, λ e. refl, λ n. absurd (n refl)),
)

bare-Fits : (b : Agreement) → b.sealed ≡ none → b.sealed_locks ≡ [] → b.sealed_sum ≡ [] → Fits b
bare-Fits b bare locks sum = subst (SealFits b) (sym bare) (locks, sum)

module _ (std : Std) (a : Agreement) (fits : Fits a) (now : Time) where
  pub expire-Fits : (actor : Party) → Fits (Agreement.expire std a actor now).1
  unfolding Agreement.expire
  expire-Fits actor =
      Steady-Fits a (Agreement.expire std a actor now).1
        (record {
          sealed = ground arith;
          locks = ground arith;
          sum = ground arith;
          status = ground arith;
        })
        fits

  pub note-Fits :
      (actor : Party) (action citation : String)
      → Fits (Agreement.note std a actor action citation now).1
  unfolding Agreement.note
  note-Fits actor action citation =
      Steady-Fits a (Agreement.note std a actor action citation now).1
        (record {
          sealed = ground arith;
          locks = ground arith;
          sum = ground arith;
          status = ground arith;
        })
        fits

  pub reject-Fits : (actor : Party) → Fits (Room.reject std a actor now).1
  unfolding Room.reject Room.reject_plain Room.reject_sealed
  reject-Fits actor =
      Steady-Fits a (Room.reject std a actor now).1
        (record {
          sealed = ground arith;
          locks = ground arith;
          sum = ground arith;
          status = ground arith;
        })
        fits

  append-Fits :
      (actor : Party) (action text : String) → Fits (Agreement.append std a actor action text now).1
  unfolding Agreement.append
  append-Fits actor action text =
      Steady-Fits a (Agreement.append std a actor action text now).1
        (record {
          sealed = ground arith;
          locks = ground arith;
          sum = ground arith;
          status = ground arith;
        })
        fits

  abbrev FitsAfter : Outcome Agreement → Type 0
  FitsAfter r = Fits r.1

  -- A step behind another that leaves the fields fit.
  then-FitsAfter :
      (r : Outcome Agreement) (f : Agreement → Outcome Agreement)
      → FitsAfter r
      → ((b : Agreement) → Fits b → FitsAfter (f b))
      → FitsAfter (r >>= f)
  then-FitsAfter (none, b) f fit rest = rest b fit
  then-FitsAfter (some e, b) f fit rest = fit

  attempt_cases :
      {A : Type 0} (r : Result A) (f : A → Outcome Agreement)
      → ((x : A) → r ≡ ok x → FitsAfter (f x))
      → FitsAfter (attempt a r f)
  attempt_cases (ok x) f go = go x refl
  attempt_cases (err e) f go = fits

  seal_commit-Fits :
      (actor : Party) (sealed : Bytes × EncryptedLedger) (locks : List Bytes) (sum : Bytes)
      → Settle.aggregate sealed.1 locks ≡ ok sum
      → FitsAfter (Room.seal_commit std a actor now sealed locks sum)
  unfolding Room.seal_commit
  seal_commit-Fits actor sealed locks sum made =
      then-FitsAfter (Agreement.append std a actor "seal" (std.base64 sealed.0) now) _
        (append-Fits actor "seal" (std.base64 sealed.0))
        (λ b fit. (λ e. absurd (no_sum locks made e), λ some_lock. (sum, made, λ e. cc, λ n. refl)))
    where
      no_sum : (xs : List Bytes) → Settle.aggregate sealed.1 xs ≡ ok sum → xs ≢ []
      no_sum [] h e = absurd (empty_sum sealed.1 sum h)
      no_sum (x ∷ xs) h e = cc

  pub seal_lock-Fits :
      (actor : Party) (partial : ℤ) (draws : ℕ → Option ℕ)
      → FitsAfter (Room.seal_lock std a actor partial draws now)
  unfolding Room.seal_lock
  seal_lock-Fits actor partial draws =
      if_rule FitsAfter (not (actor == a.buyer)) fits
        (if_rule FitsAfter (is_terminal a.status) fits (armed a.sealed))
    where
      armed :
          (o : Option EncryptedLedger)
          → FitsAfter (elim o [
            | none ↦ fail no_seal a
            | some ledger ↦ Room.seal_with std a actor partial draws now ledger
          ])
      armed none = fits
      armed (some ledger) =
          unfold Room.seal_with in
          attempt_cases (Settle.seal_lock (Settle.clone ledger) partial draws) _ (λ sealed drawn.
            attempt_cases (Settle.aggregate sealed.1 (a.sealed_locks ++ sealed.0 ∷ [])) _
              (λ sum made.
                seal_commit-Fits actor sealed (a.sealed_locks ++ sealed.0 ∷ []) sum made))

  settle_proven-Fits :
      (actor : Party) (proof : Bytes) (holds : Bool)
      → FitsAfter (Room.settle_proven std a actor now proof holds)
  unfolding Room.settle_proven
  settle_proven-Fits actor proof holds = if_rule FitsAfter (not holds) fits (
      then-FitsAfter (Agreement.append std a actor "accept" (Room.accept_note std a proof) now) _
        (append-Fits actor "accept" (Room.accept_note std a proof))
        (λ b fit. accepted-Fits b b.sealed fit))

  accept_plain-Fits :
      a.sealed ≡ none → (actor : Party) → FitsAfter (Room.accept_plain std a actor now)
  unfolding Room.accept_plain
  accept_plain-Fits bare actor =
      let (locks, sum) = subst (SealFits a) bare fits in
      bare-Fits (Room.accept_plain std a actor now).1 (ground arith) (ground arith) (ground arith)

  pub accept-Fits :
      (actor : Party) (blinder : Option ℕ) → FitsAfter (Room.accept std a actor blinder now)
  unfolding Room.accept
  accept-Fits actor blinder = armed a.sealed refl
    where
      armed :
          (o : Option EncryptedLedger)
          → a.sealed ≡ o
          → FitsAfter (elim o [
            | none ↦ Room.accept_plain std a actor now
            | some ledger ↦ Room.accept_sealed std a actor ledger blinder now
          ])
      armed none has = accept_plain-Fits has actor
      armed (some ledger) has =
          unfold Room.accept_sealed in
          if_rule FitsAfter (not (actor == a.seller)) fits (
            if_rule FitsAfter (is_terminal a.status) fits (
              if_rule FitsAfter (not (is_locked a.status) || is_empty a.sealed_locks) fits (
                attempt_cases (Settle.prove_equal std ledger a.sealed_sum a.amount blinder) _
                  (λ proof made.
                    attempt_cases (Settle.verify_equal std ledger a.sealed_sum a.amount proof) _
                      (λ holds checked. settle_proven-Fits actor proof holds)))))
