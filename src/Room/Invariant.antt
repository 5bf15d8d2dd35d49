-- ===== src/Room/Invariant.antt =====
-- What holds of an agreement between two calls.
use nexum.Prelude.{
  ℕ, ◌+◌, ◌<◌, String, ◌≡◌, ◌≢◌, refl, Bool, true, false, Option, none, some, List, [], ◌∷◌, ◌++◌,
  arith, length, length-snoc, Option-cases, inl, inr, eq_iff,
}
use nexum.Prelude.Int.{ℤ, pos, ◌≤ℤ◌, ◌<ℤ◌}
use nexum.Errors.{ok}
use nexum.Std.{Std, Bytes, Time}
use nexum.Meter.{Status, opened, locked, accepted, rejected, expired, Meter, is_locked}
use nexum.Settle.{EncryptedLedger}
use nexum.Receipt.{Party, verify_receipts, next_receipt}
use nexum.Receipt.Chain.{verify_receipts-next_receipt}
use nexum.Agreement
use nexum.Agreement.{Agreement}
use nexum.Room
use nexum.Room.{Move, Entropy}
use nexum.Room.Ops.{
  Op, lock, seal_lock, accept, reject, set_deadline, expire, note, start_sealed, apply,
  accept_with_evidence, with_unit, perform, perform_all,
}

abbrev pub is_some {ℓ} : {A : Type ℓ} → Option A → Bool
is_some none = false
is_some (some a) = true

-- The time stamps and the party released to, for each status. No other kind's status occurs.
abbrev pub Life : Status → Option Time → Option Time → Party → Party → Party → Type 0
Life opened locked_at closed_at released buyer seller =
    (locked_at ≡ none) × (closed_at ≡ none) × (released ≡ "")
Life locked locked_at closed_at released buyer seller =
    (is_some locked_at ≡ true) × (closed_at ≡ none) × (released ≡ "")
Life accepted locked_at closed_at released buyer seller =
    (is_some locked_at ≡ true) × (is_some closed_at ≡ true) × (released ≡ seller)
Life rejected locked_at closed_at released buyer seller =
    (is_some locked_at ≡ true) × (is_some closed_at ≡ true) × (released ≡ buyer)
Life expired locked_at closed_at released buyer seller =
    (is_some closed_at ≡ true) × (released ≡ buyer)
Life _ locked_at closed_at released buyer seller = ⊥

pub record IsValid (std : Std) (a : Agreement) : Type 0 where
  pub chained : verify_receipts std a.id a.receipts ≡ none
  pub counted : a.steps ≡ length a.receipts
  pub metered : pos a.steps ≤ℤ a.meter.max_steps
  pub begun : 0 < a.steps
  pub parties : a.buyer ≢ a.seller
  pub named : (a.buyer ≢ "") × (a.seller ≢ "")
  pub positive : pos 0 <ℤ a.amount
  pub life : Life a.status a.locked_at a.closed_at a.released_to a.buyer a.seller

module _ (std : Std) (a : Agreement) (v : IsValid std a) where
  lock-IsValid : (actor : Party) (now : Time) → IsValid std (Agreement.lock std a actor now).1
  unfolding Agreement.lock
  lock-IsValid actor now = ground (
    arith,
    verify_receipts-next_receipt std a.id a.receipts actor "lock" "value locked" now,
    length-snoc a.receipts (next_receipt std a.id a.receipts actor "lock" "value locked" now),
  )

  -- The facts about the chain behind one more receipt, for any receipt an `append` builds.
  links :
      (actor : Party) (action text : String) (now : Time)
      → (verify_receipts std a.id
            (a.receipts ++ next_receipt std a.id a.receipts actor action text now ∷ [])
          ≡ none)
        × (length (a.receipts ++ next_receipt std a.id a.receipts actor action text now ∷ [])
            ≡ a.steps + 1)
  links actor action text now = (
    verify_receipts-next_receipt std a.id a.receipts actor action text now v.chained,
    omega (
      arith,
      length-snoc a.receipts (next_receipt std a.id a.receipts actor action text now),
      v.counted,
    ),
  )

  set_deadline-IsValid :
      (actor : Party) (deadline now : Time)
      → IsValid std (Agreement.set_deadline std a actor deadline now).1
  unfolding Agreement.set_deadline
  set_deadline-IsValid actor deadline now =
      ground (arith, links actor "deadline" (std.rfc3339 deadline) now)

  expire-IsValid : (actor : Party) (now : Time) → IsValid std (Agreement.expire std a actor now).1
  unfolding Agreement.expire
  expire-IsValid actor now =
      ground (arith, links actor "expire" "deadline passed, value unlocked" now)

  note-IsValid :
      (actor : Party) (action citation : String) (now : Time)
      → IsValid std (Agreement.note std a actor action citation now).1
  unfolding Agreement.note
  note-IsValid actor action citation now = ground (arith, links actor action citation now)

  start_sealed-IsValid :
      (bits : ℕ) (primes : ℕ → List (Option ℕ × Option ℕ))
      → IsValid std (Room.start_sealed a bits primes).1
  unfolding Room.start_sealed
  start_sealed-IsValid bits primes = ground arith

  reject-IsValid : (actor : Party) (now : Time) → IsValid std (Room.reject std a actor now).1
  unfolding Room.reject Room.reject_plain Room.reject_sealed
  reject-IsValid actor now = ground (
    arith,
    links actor "reject" "returned to buyer (sum stays sealed)" now,
    links actor "reject" "returned to buyer" now,
  )

  seal_lock-IsValid :
      (actor : Party) (partial : ℤ) (draws : ℕ → Option ℕ) (now : Time)
      → IsValid std (Room.seal_lock std a actor partial draws now).1
  unfolding Room.seal_lock Room.seal_with Room.seal_commit
  seal_lock-IsValid actor partial draws now = grind (arith, links)

  accept_plain-IsValid :
      (actor : Party) (now : Time) → IsValid std (Room.accept_plain std a actor now).1
  unfolding Room.accept_plain
  accept_plain-IsValid actor now = ground (arith, links actor "accept" "released to seller" now)

  settle_proven-IsValid :
      (actor : Party) (now : Time) (proof : Bytes) (holds : Bool)
      → is_some a.locked_at ≡ true
      → IsValid std (Room.settle_proven std a actor now proof holds).1
  unfolding Room.settle_proven
  settle_proven-IsValid actor now proof holds was =
      ground (arith, links actor "accept" (Room.accept_note std a proof) now)

  locked_stamp : is_locked a.status ≡ true → is_some a.locked_at ≡ true
  locked_stamp h = ground arith

  accept_sealed-IsValid :
      (actor : Party) (ledger : EncryptedLedger) (blinder : Option ℕ) (now : Time)
      → IsValid std (Room.accept_sealed std a actor ledger blinder now).1
  unfolding Room.accept_sealed
  accept_sealed-IsValid actor ledger blinder now =
      grind (arith, settle_proven-IsValid, locked_stamp)

  accept-IsValid :
      (actor : Party) (blinder : Option ℕ) (now : Time)
      → IsValid std (Room.accept std a actor blinder now).1
  unfolding Room.accept
  accept-IsValid actor blinder now = elim (Option-cases a.sealed) [
    | inl plain ↦ rw (plain, Room.accept) (accept_plain-IsValid actor now)
    | inr (ledger, armed) ↦ rw (armed, Room.accept) (accept_sealed-IsValid actor ledger blinder now)
  ]

  apply-IsValid :
      (m : Move) (rnd : Entropy) (now : Time) → IsValid std (Room.apply std a m rnd now).1
  unfolding Room.apply
  apply-IsValid m rnd now = ground (
    arith,
    lock-IsValid m.actor now,
    seal_lock-IsValid m.actor m.partial rnd.draws now,
    accept-IsValid m.actor rnd.blinder now,
    reject-IsValid m.actor now,
  )

module _ (std : Std) where
  accept_with_evidence-IsValid :
      (a : Agreement) (v : IsValid std a) (author actor : Party) (citation : String)
      (blinder : Option ℕ) (now : Time)
      → IsValid std (Room.accept_with_evidence std a author actor citation blinder now).1
  unfolding Room.accept_with_evidence
  accept_with_evidence-IsValid a v author actor citation blinder now = ground (
    arith,
    accept-IsValid std (Agreement.note std a author "evidence" citation now).1
        (note-IsValid std a v author "evidence" citation now) actor blinder now,
  )

  -- Every call, at any time, whether it fails or not, keeps an agreement valid.
  pub perform-IsValid :
      (op : Op) (now : Time) (a : Agreement) → IsValid std a → IsValid std (perform std op now a).1
  unfolding perform
  perform-IsValid (lock actor) now a v = lock-IsValid std a v actor now
  perform-IsValid (seal_lock actor partial draws) now a v =
      seal_lock-IsValid std a v actor partial draws now
  perform-IsValid (accept actor blinder) now a v = accept-IsValid std a v actor blinder now
  perform-IsValid (reject actor) now a v = reject-IsValid std a v actor now
  perform-IsValid (set_deadline actor deadline) now a v =
      set_deadline-IsValid std a v actor deadline now
  perform-IsValid (expire actor) now a v = expire-IsValid std a v actor now
  perform-IsValid (note actor action citation) now a v =
      note-IsValid std a v actor action citation now
  perform-IsValid (start_sealed bits primes) now a v = start_sealed-IsValid std a v bits primes
  perform-IsValid (apply m rnd) now a v = apply-IsValid std a v m rnd now
  perform-IsValid (accept_with_evidence author actor citation blinder) now a v =
      accept_with_evidence-IsValid a v author actor citation blinder now
  perform-IsValid (with_unit symbol) now a v = ground arith

  perform_all-IsValid :
      (calls : List (Time × Op)) (a : Agreement)
      → IsValid std a
      → IsValid std (perform_all std calls a)
  unfolding perform_all
  perform_all-IsValid [] a v = v
  perform_all-IsValid ((now, op) ∷ rest) a v =
      perform_all-IsValid rest (perform std op now a).1 (perform-IsValid op now a v)

  open_with-IsValid :
      (id kind : String) (buyer seller : Party) (amount : ℤ) (meter : Meter) (now : Time)
      (text : String) {a : Agreement}
      → Agreement.open_with std id kind buyer seller amount meter now text ≡ ok a
      → IsValid std a
  unfolding Agreement.open_with
  open_with-IsValid id kind buyer seller amount meter now text h = ground (
    arith,
    eq_iff buyer seller,
    eq_iff buyer "",
    eq_iff seller "",
    verify_receipts-next_receipt std id [] buyer "open" text now (unfold verify_receipts in refl),
  )

  -- An agreement that OpenAgreement returns is valid after any calls at any times: its receipt chain
  -- verifies, its step meter counts its receipts and is within the bound, its parties are two and
  -- named, its amount is positive, and its time stamps and the party released to fit its status.
  pub agreement_calls-IsValid :
      (id kind : String) (buyer seller : Party) (amount : ℤ) (meter : Meter) (now : Time)
      (calls : List (Time × Op)) {a : Agreement}
      → Agreement.open_agreement std id kind buyer seller amount meter now ≡ ok a
      → IsValid std (perform_all std calls a)
  unfolding Agreement.open_agreement
  agreement_calls-IsValid id kind buyer seller amount meter now calls {a} h =
      perform_all-IsValid calls a
        (open_with-IsValid id kind buyer seller amount meter now "agreement opened" (ground arith))
