-- ===== src/Delegate/Ops.antt =====
-- The methods that change a delegation, as values, and the properties of every one of them.
use nexum.Prelude.{
  suc, ◌≤◌, String, ◌≡◌, ◌≢◌, ◌⊎◌, refl, Bool, true, false, Option, none, some, List, [], ◌∷◌, ◌++◌,
  arith, eq_iff, length, length-snoc,
}
use nexum.Prelude.Int.{ℤ, pos, ◌≤ℤ◌, ◌<ℤ◌}
use nexum.Errors.{Error, Outcome, ok}
use nexum.Std.{Std, Time}
use nexum.Meter.{Status, offered, claimed, proven, paid, rejected, Meter}
use nexum.Receipt.{Party, verify_receipts, next_receipt}
use nexum.Receipt.Chain.{verify_receipts-next_receipt}
use nexum.Delegate
use nexum.Delegate.{Delegate, Task, is_terminal}

pub data Op : Type 0 where
  claim : Party → Op
  submit_proof : Party → String → Op
  accept_proof reject_proof cancel : Party → Op

abbrev pub performer : Op → Party
performer (claim actor) = actor
performer (submit_proof actor _) = actor
performer (accept_proof actor) = actor
performer (reject_proof actor) = actor
performer (cancel actor) = actor

abbrev pub is_some {ℓ} : {A : Type ℓ} → Option A → Bool
is_some none = false
is_some (some a) = true

-- What each status says of the proof, the closing time and the party released to.
abbrev pub Life : Status → String → Option Time → Party → Party → Party → Type 0
Life offered proof closed_at released parent intern =
    (proof ≡ "") × (closed_at ≡ none) × (released ≡ "")
Life claimed proof closed_at released parent intern =
    (proof ≡ "") × (closed_at ≡ none) × (released ≡ "")
Life proven proof closed_at released parent intern =
    (proof ≢ "") × (closed_at ≡ none) × (released ≡ "")
Life paid proof closed_at released parent intern =
    (proof ≢ "") × (is_some closed_at ≡ true) × (released ≡ intern)
Life rejected proof closed_at released parent intern =
    (is_some closed_at ≡ true) × (released ≡ parent)
Life _ proof closed_at released parent intern = ⊥

pub record IsValid (std : Std) (d : Delegate) : Type 0 where
  pub chained : verify_receipts std d.id d.receipts ≡ none
  pub counted : length d.receipts ≤ d.steps
  pub metered : pos (length d.receipts) ≤ℤ d.meter.max_steps
  pub parties : d.parent ≢ d.intern
  pub positive : pos 0 <ℤ d.reward
  pub life : Life d.status d.proof d.closed_at d.released_to d.parent d.intern

-- The only ways from one status to another, with who takes them.
abbrev pub Permitted : Party → Delegate → Status → Type 0
Permitted actor d claimed = (d.status ≡ offered) × (actor ≡ d.intern)
Permitted actor d proven = (d.status ≡ claimed) × (actor ≡ d.intern)
Permitted actor d paid = (d.status ≡ proven) × (actor ≡ d.parent)
Permitted actor d rejected = (is_terminal d.status ≡ false) × (actor ≡ d.parent)
Permitted actor d _ = ⊥

module _ (std : Std) where
  unfoldable pub perform : Op → Time → Delegate → Outcome Delegate
  perform (claim actor) now d = Delegate.claim std d actor now
  perform (submit_proof actor citation) now d = Delegate.submit_proof std d actor citation now
  perform (accept_proof actor) now d = Delegate.accept_proof std d actor now
  perform (reject_proof actor) now d = Delegate.reject_proof std d actor now
  perform (cancel actor) now d = Delegate.cancel std d actor now

  unfoldable pub perform_all : List (Time × Op) → Delegate → Delegate
  perform_all [] d = d
  perform_all ((now, op) ∷ rest) d = perform_all rest (perform op now d).1

  -- A method that returns an error has changed nothing but the step count.
  failed_delegate_call :
      (op : Op) (now : Time) (d : Delegate) {e : Error}
      → (perform op now d).0 ≡ some e
      → record ((perform op now d).1) { steps = d.steps } ≡ d
  unfolding perform
  failed_delegate_call (claim actor) now d h = unfold Delegate.claim in ground arith
  failed_delegate_call (submit_proof actor citation) now d h =
      unfold Delegate.submit_proof in ground arith
  failed_delegate_call (accept_proof actor) now d h = unfold Delegate.accept_proof in ground arith
  failed_delegate_call (reject_proof actor) now d h = unfold Delegate.reject_proof in ground arith
  failed_delegate_call (cancel actor) now d h = unfold Delegate.cancel in ground arith

  -- A call moves the status only so: the intern claims an offer and proves a claim, the parent pays
  -- for what is proven and rejects what is not closed yet. A paid or rejected delegation stays so.
  pub delegate_call-Moves :
      (op : Op) (now : Time) (d : Delegate)
      → let d' = (perform op now d).1 in
        (d'.status ≡ d.status) ⊎ Permitted (performer op) d d'.status
  unfolding perform
  delegate_call-Moves (claim actor) now d =
      unfold Delegate.claim in ground (arith, eq_iff actor d.intern)
  delegate_call-Moves (submit_proof actor citation) now d =
      unfold Delegate.submit_proof in ground (arith, eq_iff actor d.intern)
  delegate_call-Moves (accept_proof actor) now d =
      unfold Delegate.accept_proof in ground (arith, eq_iff actor d.parent)
  delegate_call-Moves (reject_proof actor) now d =
      unfold Delegate.reject_proof in ground (arith, eq_iff actor d.parent)
  delegate_call-Moves (cancel actor) now d =
      unfold Delegate.cancel in ground (arith, eq_iff actor d.parent)

  module _ (d : Delegate) (v : IsValid std d) where
    links :
        (actor : Party) (action text : String) (now : Time)
        → let rs = d.receipts ++ next_receipt std d.id d.receipts actor action text now ∷ [] in
          (verify_receipts std d.id rs ≡ none) × (length rs ≡ suc (length d.receipts))
    links actor action text now = (
      verify_receipts-next_receipt std d.id d.receipts actor action text now v.chained,
      length-snoc d.receipts (next_receipt std d.id d.receipts actor action text now),
    )

    claim-IsValid : (actor : Party) (now : Time) → IsValid std (Delegate.claim std d actor now).1
    unfolding Delegate.claim
    claim-IsValid actor now = ground (arith, links actor "claim" "intern claimed" now)

    submit_proof-IsValid :
        (actor : Party) (citation : String) (now : Time)
        → IsValid std (Delegate.submit_proof std d actor citation now).1
    unfolding Delegate.submit_proof
    submit_proof-IsValid actor citation now =
        ground (arith, links actor "proof" citation now, eq_iff citation "")

    accept_proof-IsValid :
        (actor : Party) (now : Time) → IsValid std (Delegate.accept_proof std d actor now).1
    unfolding Delegate.accept_proof
    accept_proof-IsValid actor now = grind (arith, links)

    reject_proof-IsValid :
        (actor : Party) (now : Time) → IsValid std (Delegate.reject_proof std d actor now).1
    unfolding Delegate.reject_proof
    reject_proof-IsValid actor now =
        ground (arith, links actor "reject-proof" "proof refused, no reward" now)

    cancel-IsValid : (actor : Party) (now : Time) → IsValid std (Delegate.cancel std d actor now).1
    unfolding Delegate.cancel
    cancel-IsValid actor now =
        ground (arith, links actor "cancel" "offer cancelled before claim" now)

  pub perform-IsValid :
      (op : Op) (now : Time) (d : Delegate) → IsValid std d → IsValid std (perform op now d).1
  unfolding perform
  perform-IsValid (claim actor) now d v = claim-IsValid d v actor now
  perform-IsValid (submit_proof actor citation) now d v =
      submit_proof-IsValid d v actor citation now
  perform-IsValid (accept_proof actor) now d v = accept_proof-IsValid d v actor now
  perform-IsValid (reject_proof actor) now d v = reject_proof-IsValid d v actor now
  perform-IsValid (cancel actor) now d v = cancel-IsValid d v actor now

  perform_all-IsValid :
      (calls : List (Time × Op)) (d : Delegate) → IsValid std d → IsValid std (perform_all calls d)
  unfolding perform_all
  perform_all-IsValid [] d v = v
  perform_all-IsValid ((now, op) ∷ rest) d v =
      perform_all-IsValid rest (perform op now d).1 (perform-IsValid op now d v)

  open_delegate-IsValid :
      (id : String) (parent intern : Party) (reward : ℤ) (task : Task) (meter : Meter) (now : Time)
      {d : Delegate}
      → Delegate.open_delegate std id parent intern reward task meter now ≡ ok d
      → IsValid std d
  unfolding Delegate.open_delegate
  open_delegate-IsValid id parent intern reward task meter now h = ground (
    arith,
    eq_iff parent intern,
    verify_receipts-next_receipt std id [] parent "offer" task.offer now
        (unfold verify_receipts in refl),
  )

  -- A delegation that OpenDelegate returns is valid after any calls at any times: its receipt chain
  -- verifies, it holds at most max_steps receipts, its parties are two, its reward is positive, and
  -- its proof, closing time and the party released to fit its status; so a paid one has a proof and
  -- went to the intern, and a rejected one went back to the parent.
  pub delegate_calls-IsValid :
      (id : String) (parent intern : Party) (reward : ℤ) (task : Task) (meter : Meter) (now : Time)
      (calls : List (Time × Op)) {d : Delegate}
      → Delegate.open_delegate std id parent intern reward task meter now ≡ ok d
      → IsValid std (perform_all calls d)
  delegate_calls-IsValid id parent intern reward task meter now calls {d} h =
      perform_all-IsValid calls d (open_delegate-IsValid id parent intern reward task meter now h)
