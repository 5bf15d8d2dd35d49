-- ===== src/Room/Frozen.antt =====
-- Failed calls, and calls in terminal states.
use nexum.Prelude.{
  ℕ, String, ◌≡◌, ◌≢◌, refl, true, Option, none, some, List, [], ◌∷◌, arith, Option-cases, inl, inr,
  ap, ◌∙◌,
}
use nexum.Errors.{Error, Outcome}
use nexum.Receipt.{Party}
use nexum.Std.{Std, Time}
use nexum.Agreement
use nexum.Agreement.{Agreement, is_terminal, denominate}
use nexum.Room
use nexum.Room.{Move, Entropy}
use nexum.Prelude.Int.{ℤ}
use nexum.Room.Ops.{
  Op, lock, seal_lock, accept, reject, set_deadline, expire, note, start_sealed, apply,
  accept_with_evidence, with_unit, perform, perform_all, unit_after, unit_after_all, in_unit,
}

module _ (std : Std) where
  -- A call that fails leaves the agreement as it was.
  abbrev Unchanged : Agreement → Outcome Agreement → Type 0
  Unchanged a r = (e : Error) → r.0 ≡ some e → r.1 ≡ a

  lock-Unchanged :
      (a : Agreement) (actor : Party) (now : Time) → Unchanged a (Agreement.lock std a actor now)
  unfolding Agreement.lock
  lock-Unchanged a actor now e h = ground arith

  seal_lock-Unchanged :
      (a : Agreement) (actor : Party) (partial : ℤ) (draws : ℕ → Option ℕ) (now : Time)
      → Unchanged a (Room.seal_lock std a actor partial draws now)
  unfolding Room.seal_lock Room.seal_with Room.seal_commit
  seal_lock-Unchanged a actor partial draws now e h = ground arith

  accept-Unchanged :
      (a : Agreement) (actor : Party) (blinder : Option ℕ) (now : Time)
      → Unchanged a (Room.accept std a actor blinder now)
  unfolding Room.accept Room.accept_plain Room.accept_sealed Room.settle_proven
  accept-Unchanged a actor blinder now e h = ground arith

  reject-Unchanged :
      (a : Agreement) (actor : Party) (now : Time) → Unchanged a (Room.reject std a actor now)
  unfolding Room.reject Room.reject_plain Room.reject_sealed
  reject-Unchanged a actor now e h = ground arith

  apply-Unchanged :
      (a : Agreement) (m : Move) (rnd : Entropy) (now : Time)
      → Unchanged a (Room.apply std a m rnd now)
  unfolding Room.apply
  apply-Unchanged a m rnd now e h = ground (
    arith,
    lock-Unchanged a m.actor now e,
    seal_lock-Unchanged a m.actor m.partial rnd.draws now e,
    accept-Unchanged a m.actor rnd.blinder now e,
    reject-Unchanged a m.actor now e,
  )

  accept_with_evidence-Unchanged :
      (a : Agreement) (author actor : Party) (citation : String) (blinder : Option ℕ) (now : Time)
      → Unchanged a (Room.accept_with_evidence std a author actor citation blinder now)
  unfolding Room.accept_with_evidence
  accept_with_evidence-Unchanged a author actor citation blinder now e h = ground arith

  -- Every method of an agreement that returns an error has left every field of it as it was.
  pub failed_call_unchanged :
      (op : Op) (now : Time) (a : Agreement) (e : Error)
      → (perform std op now a).0 ≡ some e
      → (perform std op now a).1 ≡ a
  unfolding perform
  failed_call_unchanged (lock actor) now a = lock-Unchanged a actor now
  failed_call_unchanged (seal_lock actor partial draws) now a =
      seal_lock-Unchanged a actor partial draws now
  failed_call_unchanged (accept actor blinder) now a = accept-Unchanged a actor blinder now
  failed_call_unchanged (reject actor) now a = reject-Unchanged a actor now
  failed_call_unchanged (set_deadline actor deadline) now a =
      λ e h. unfold Agreement.set_deadline in ground arith
  failed_call_unchanged (expire actor) now a = λ e h. unfold Agreement.expire in ground arith
  failed_call_unchanged (note actor action citation) now a =
      λ e h. unfold Agreement.note in ground arith
  failed_call_unchanged (start_sealed bits primes) now a =
      λ e h. unfold Room.start_sealed in ground arith
  failed_call_unchanged (apply m rnd) now a = apply-Unchanged a m rnd now
  failed_call_unchanged (accept_with_evidence author actor citation blinder) now a =
      accept_with_evidence-Unchanged a author actor citation blinder now
  failed_call_unchanged (with_unit symbol) now a = λ e h. cc

  -- A call that is refused.
  abbrev Refused : Outcome Agreement → Type 0
  Refused r = r.0 ≢ none

  module _ (a : Agreement) (closed : is_terminal a.status ≡ true) (now : Time) where
    lock-Refused : (actor : Party) → Refused (Agreement.lock std a actor now)
    unfolding Agreement.lock
    lock-Refused actor h = ground arith

    seal_lock-Refused :
        (actor : Party) (partial : ℤ) (draws : ℕ → Option ℕ)
        → Refused (Room.seal_lock std a actor partial draws now)
    unfolding Room.seal_lock Room.seal_with Room.seal_commit
    seal_lock-Refused actor partial draws h = ground arith

    accept-Refused :
        (actor : Party) (blinder : Option ℕ) → Refused (Room.accept std a actor blinder now)
    unfolding Room.accept Room.accept_plain Room.accept_sealed Room.settle_proven
    accept-Refused actor blinder h = ground arith

    reject-Refused : (actor : Party) → Refused (Room.reject std a actor now)
    unfolding Room.reject Room.reject_plain Room.reject_sealed
    reject-Refused actor h = ground arith

    note-Refused :
        (actor : Party) (action citation : String)
        → Refused (Agreement.note std a actor action citation now)
    unfolding Agreement.note
    note-Refused actor action citation h = ground arith

    apply-Refused : (m : Move) (rnd : Entropy) → Refused (Room.apply std a m rnd now)
    unfolding Room.apply
    apply-Refused m rnd h = ground (
      arith,
      lock-Refused m.actor,
      seal_lock-Refused m.actor m.partial rnd.draws,
      accept-Refused m.actor rnd.blinder,
      reject-Refused m.actor,
    )

    accept_with_evidence-Refused :
        (author actor : Party) (citation : String) (blinder : Option ℕ)
        → Refused (Room.accept_with_evidence std a author actor citation blinder now)
    unfolding Room.accept_with_evidence
    accept_with_evidence-Refused author actor citation blinder h =
        ground (arith, note-Refused author "evidence" citation)

    left_alone : (op : Op) → Refused (perform std op now a) → (perform std op now a).1 ≡ a
    left_alone op refused = elim (Option-cases (perform std op now a).0) [
      | inl none_ ↦ absurd (refused none_)
      | inr (e, found) ↦ failed_call_unchanged op now a e found
    ]

    -- In a terminal state every call but `WithUnit` is refused, and that one sets the unit at most.
    terminal_step : (op : Op) → (perform std op now a).1 ≡ in_unit a (unit_after op a.unit)
    unfolding perform
    terminal_step (lock actor) = left_alone (lock actor) (lock-Refused actor)
    terminal_step (seal_lock actor partial draws) =
        left_alone (seal_lock actor partial draws) (seal_lock-Refused actor partial draws)
    terminal_step (accept actor blinder) =
        left_alone (accept actor blinder) (accept-Refused actor blinder)
    terminal_step (reject actor) = left_alone (reject actor) (reject-Refused actor)
    terminal_step (set_deadline actor deadline) =
        left_alone (set_deadline actor deadline)
          (λ h. unfold Agreement.set_deadline in ground arith)
    terminal_step (expire actor) =
        left_alone (expire actor) (λ h. unfold Agreement.expire in ground arith)
    terminal_step (note actor action citation) =
        left_alone (note actor action citation) (note-Refused actor action citation)
    terminal_step (start_sealed bits primes) =
        left_alone (start_sealed bits primes) (λ h. unfold Room.start_sealed in ground arith)
    terminal_step (apply m rnd) = left_alone (apply m rnd) (apply-Refused m rnd)
    terminal_step (accept_with_evidence author actor citation blinder) =
        left_alone (accept_with_evidence author actor citation blinder)
          (accept_with_evidence-Refused author actor citation blinder)
    terminal_step (with_unit symbol) = refl

  -- Terminal states do not reopen: once an agreement is accepted, rejected or expired, no calls at any
  -- times change any field of it but the unit, which is the one that the calls of WithUnit among them
  -- leave.
  pub closed_agreement_absorbs :
      (calls : List (Time × Op)) (a : Agreement)
      → is_terminal a.status ≡ true
      → perform_all std calls a ≡ in_unit a (unit_after_all calls a.unit)
  unfolding perform_all
  closed_agreement_absorbs [] a closed = refl
  closed_agreement_absorbs ((now, op) ∷ rest) a closed =
      ap (perform_all std rest) (terminal_step a closed now op)
      ∙ closed_agreement_absorbs rest (in_unit a (unit_after op a.unit)) closed
