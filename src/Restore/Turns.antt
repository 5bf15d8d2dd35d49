-- ===== src/Restore/Turns.antt =====
-- The turn that accounts for the receipts of each action.
use Prim.Native.String.{◌++◌ as ◌<>◌}
use nexum.Prelude.{
  ◌+◌, ◌≡◌, ◌⊎◌, sym, ap, ◌∙◌, String, Bool, true, false, some, [], ◌∷◌, ◌==◌, arith, eq_iff,
}
use nexum.Std.{Std}
use nexum.Meter.{opened, locked, accepted, rejected, expired, Status}
use nexum.Receipt.{Receipt}
use nexum.Agreement.{Agreement}
use nexum.Identity.{Crypto, hash_bytes}
use nexum.Operation.{Committed, Persist, Entries, get_entry}
use nexum.Restore
use nexum.Restore.{Progress, finish_turn, settle_turn}

module _ (std : Std) (crypto : Crypto) (persist : Persist) (a : Agreement) (e : Committed)
    (p : Progress) where
  -- The progress after an operation.
  abbrev pub moved : Status → Bool → Progress
  moved s consent = record { status = s; consent = consent; used = p.used + 1 }

  -- A receipt that this turn accounts for by itself.
  abbrev Turned : Receipt → Progress → Type 0
  Turned q p' = Restore.turn std crypto persist a e q [] p ≡ some (p', false)

  finish_moved :
      (q : Receipt) (s : Status) (consent : Bool)
      → e.answer.head ≡ q.hash
      → e.answer.status ≡ s
      → finish_turn e q.hash s consent p.used ≡ some (moved s consent)
  unfolding finish_turn
  finish_moved q s consent head status = ground (arith, eq_iff e.answer.head q.hash)

  pub lock-Turned :
      (q : Receipt)
      → e.operation.command.action ≡ "lock"
      → p.status ≡ opened
      → q.action ≡ "seal"
      → q.actor ≡ a.buyer
      → e.answer.head ≡ q.hash
      → e.answer.status ≡ locked
      → Turned q (moved locked p.consent)
  unfolding Restore.turn
  lock-Turned q act was did by head status = ground (
    arith,
    finish_moved q locked p.consent head status,
    eq_iff e.operation.command.action "lock",
    eq_iff q.action "seal",
    eq_iff q.actor a.buyer,
  )

  pub agree-Turned :
      (q : Receipt)
      → e.operation.command.action ≡ "agree"
      → p.status ≡ locked
      → p.consent ≡ false
      → q.action ≡ "evidence"
      → q.actor ≡ a.seller
      → q.note ≡ "signed-consent:" <> hash_bytes std crypto e.signature
      → e.answer.head ≡ q.hash
      → e.answer.status ≡ locked
      → Turned q (moved locked true)
  unfolding Restore.turn
  agree-Turned q act was unasked did by noted head status =
      let tested : (t : String) → (e.operation.command.action == t) ≡ ("agree" == t) =
        λ t. ap (λ k. k == t) act in
      let status' : e.answer.status ≡ p.status = status ∙ sym was in
      ground (
        arith,
        tested "lock",
        tested "agree",
        tested "settle",
        tested "reject",
        tested "expire",
        finish_moved q p.status true head status',
        eq_iff q.action "evidence",
        eq_iff q.actor a.seller,
        eq_iff q.note ("signed-consent:" <> hash_bytes std crypto e.signature),
      )

  pub reject-Turned :
      (q : Receipt)
      → e.operation.command.action ≡ "reject"
      → p.status ≡ locked
      → q.action ≡ "reject"
      → q.actor ≡ a.seller
      → e.answer.head ≡ q.hash
      → e.answer.status ≡ rejected
      → Turned q (moved rejected p.consent)
  unfolding Restore.turn
  reject-Turned q act was did by head status =
      let tested : (t : String) → (e.operation.command.action == t) ≡ ("reject" == t) =
        λ t. ap (λ k. k == t) act in
      ground (
        arith,
        tested "lock",
        tested "agree",
        tested "settle",
        tested "reject",
        tested "expire",
        finish_moved q rejected p.consent head status,
        eq_iff q.action "reject",
        eq_iff q.actor a.seller,
      )

  pub expire-Turned :
      (q : Receipt)
      → e.operation.command.action ≡ "expire"
      → (p.status ≡ opened) ⊎ (p.status ≡ locked)
      → q.action ≡ "expire"
      → q.actor ≡ a.buyer
      → e.answer.head ≡ q.hash
      → e.answer.status ≡ expired
      → Turned q (moved expired p.consent)
  unfolding Restore.turn
  expire-Turned q act was did by head status =
      let tested : (t : String) → (e.operation.command.action == t) ≡ ("expire" == t) =
        λ t. ap (λ k. k == t) act in
      ground (
        arith,
        tested "lock",
        tested "agree",
        tested "settle",
        tested "reject",
        tested "expire",
        finish_moved q expired p.consent head status,
        eq_iff q.action "expire",
        eq_iff q.actor a.buyer,
      )

  pub settle_moved :
      (q next : Receipt)
      → p.status ≡ locked
      → p.consent ≡ true
      → q.action ≡ "evidence"
      → q.actor ≡ a.buyer
      → q.note ≡ e.operation.command.evidence
      → next.action ≡ "accept"
      → next.actor ≡ a.seller
      → e.answer.head ≡ next.hash
      → e.answer.status ≡ accepted
      → settle_turn a e q (next ∷ []) p ≡ some (moved accepted p.consent, true)
  unfolding settle_turn
  settle_moved q next was agreed did by noted accepts from head status = ground (
    arith,
    finish_moved next accepted p.consent head status,
    eq_iff q.action "evidence",
    eq_iff q.actor a.buyer,
    eq_iff q.note e.operation.command.evidence,
    eq_iff next.action "accept",
    eq_iff next.actor a.seller,
  )

  pub settle-Turned :
      (q next : Receipt)
      → e.operation.command.action ≡ "settle"
      → settle_turn a e q (next ∷ []) p ≡ some (moved accepted p.consent, true)
      → Restore.turn std crypto persist a e q (next ∷ []) p ≡ some (moved accepted p.consent, true)
  unfolding Restore.turn
  settle-Turned q next act settled =
      let tested : (t : String) → (e.operation.command.action == t) ≡ ("settle" == t) =
        λ t. ap (λ k. k == t) act in
      ground
        (arith, tested "lock", tested "agree", tested "settle", tested "reject", tested "expire")

  -- The walk over the receipts of one operation.
  pub one_walked :
      (by_head : Entries Committed) (prev : String) (q : Receipt) (p' : Progress)
      → get_entry prev by_head ≡ some e
      → Turned q p'
      → Restore.replay std crypto persist by_head a prev p false (q ∷ []) ≡ some p'
  unfolding Restore.replay
  one_walked by_head prev q p' there turned = ground arith

  pub two_walked :
      (by_head : Entries Committed) (prev : String) (q next : Receipt) (p' : Progress)
      → get_entry prev by_head ≡ some e
      → Restore.turn std crypto persist a e q (next ∷ []) p ≡ some (p', true)
      → Restore.replay std crypto persist by_head a prev p false (q ∷ next ∷ []) ≡ some p'
  unfolding Restore.replay
  two_walked by_head prev q next p' there turned = ground arith
