-- ===== src/Room/Ops.antt =====
-- Every method of internal/nexum that changes an agreement, as a value, and a run of such calls.
-- `WithUnit` returns its receiver and never fails. A caller ignores the error of a call and goes on from the state it left.
use nexum.Meter.{TokenUnit}
use nexum.Prelude.{
  ℕ, String, Option, List, [], ◌∷◌, ◌≡◌, ◌⊎◌, inl, inr, ◌==◌, if_rule, arith, some, none,
}
use nexum.Prelude.Int.{ℤ}
use nexum.Errors.{Error, Outcome, fail, takeback, bad_state, unknown_action, done}
use nexum.Std.{Std, Time}
use nexum.Receipt.{Party}
use nexum.Agreement
use nexum.Agreement.{Agreement, denominate}
use nexum.Room
use nexum.Room.{Move, Entropy}

pub data Op : Type 0 where
  lock : Party → Op
  seal_lock : Party → ℤ → (ℕ → Option ℕ) → Op
  accept : Party → Option ℕ → Op
  reject : Party → Op
  set_deadline : Party → Time → Op
  expire : Party → Op
  note : Party → String → String → Op
  start_sealed : ℕ → (ℕ → List (Option ℕ × Option ℕ)) → Op
  apply : Move → Entropy → Op
  accept_with_evidence : Party → Party → String → Option ℕ → Op
  with_unit : String → Op

-- The unit after a call: `WithUnit` may set it in any status, and no other call does.
abbrev pub unit_after : Op → TokenUnit → TokenUnit
unit_after (with_unit symbol) unit = denominate symbol unit
unit_after _ unit = unit

abbrev pub unit_after_all : List (Time × Op) → TokenUnit → TokenUnit
unit_after_all [] unit = unit
unit_after_all ((now, op) ∷ rest) unit = unit_after_all rest (unit_after op unit)

-- An agreement in another unit.
abbrev pub in_unit : Agreement → TokenUnit → Agreement
in_unit a unit = record a { unit = unit }

module _ (std : Std) where
  unfoldable pub perform : Op → Time → Agreement → Outcome Agreement
  unfolding Agreement.with_unit
  perform (lock actor) now a = Agreement.lock std a actor now
  perform (seal_lock actor partial draws) now a = Room.seal_lock std a actor partial draws now
  perform (accept actor blinder) now a = Room.accept std a actor blinder now
  perform (reject actor) now a = Room.reject std a actor now
  perform (set_deadline actor deadline) now a = Agreement.set_deadline std a actor deadline now
  perform (expire actor) now a = Agreement.expire std a actor now
  perform (note actor action citation) now a = Agreement.note std a actor action citation now
  perform (start_sealed bits primes) now a = Room.start_sealed a bits primes
  perform (apply m rnd) now a = Room.apply std a m rnd now
  perform (accept_with_evidence author actor citation blinder) now a =
      Room.accept_with_evidence std a author actor citation blinder now
  perform (with_unit symbol) now a = elim (Agreement.with_unit (some a) symbol) [
    | none ↦ done a
    | some b ↦ done b
  ]

  unfoldable pub perform_all : List (Time × Op) → Agreement → Agreement
  perform_all [] a = a
  perform_all ((now, op) ∷ rest) a = perform_all rest (perform op now a).1

module _ (std : Std) (a : Agreement) (now : Time) where
  takeback_result :
      (actor : Party)
      → (Room.refuse_nil (Room.takeback_move a actor now) ≡ fail takeback a)
        ⊎ (Room.refuse_nil (Room.takeback_move a actor now) ≡ fail bad_state a)
  unfolding Room.refuse_nil Room.takeback_move
  takeback_result actor = ground arith

  -- What holds of the four methods and of every refusal holds of `Apply`.
  pub apply_rule :
      (P : Outcome Agreement → Type 0) (m : Move) (rnd : Entropy)
      → P (Agreement.lock std a m.actor now)
      → P (Room.seal_lock std a m.actor m.partial rnd.draws now)
      → P (Room.accept std a m.actor rnd.blinder now)
      → P (Room.reject std a m.actor now)
      → ((e : Error) → P (fail e a))
      → P (Room.apply std a m rnd now)
  unfolding Room.apply
  apply_rule P m rnd l s c r f = if_rule P (m.action == "lock") l (
      if_rule P (m.action == "seal") s (
        if_rule P (m.action == "accept") c (
          if_rule P (m.action == "reject") r
            (if_rule P (m.action == "takeback") refused (f (unknown_action m.action))))))
    where
      refused : P (Room.refuse_nil (Room.takeback_move a m.actor now))
      refused = elim (takeback_result m.actor) [
        | inl e ↦ rw e (f takeback)
        | inr e ↦ rw e (f bad_state)
      ]
