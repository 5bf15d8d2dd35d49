-- ===== src/Errors.antt =====
-- The error values of internal/nexum, internal/settle, internal/he and nex: the sentinels, and the
-- formatted errors with the values they print. A method that returns `error` and changes its
-- receiver is a function to `Outcome`, a constructor that returns a value or an error is one to
-- `Result`.
use nexum.Prelude.{ℕ, String, Option, none, some, ◌≡◌, refl, arith, ◌⊎◌, inl, inr}

pub data Error : Type 0 where
  -- internal/nexum/agreement.go
  wrong_party bad_state takeback budget dos zero_amount same_party missing_party : Error
  not_yet no_deadline empty_citation no_seal kind_required kernel_broken : Error
  note_action unknown_action : String → Error
  -- VerifyReceipts: seq, prev and hash of the receipt with the printed number
  receipt_seq : ℕ → ℕ → Error
  receipt_prev receipt_rewritten : ℕ → Error
  -- internal/nexum/council.go
  party_count dup_party unknown_party req_holder dup_req not_satisfied not_unanimous : Error
  empty_decision req_id_required : Error
  unknown_requirement : String → Error
  -- internal/nexum/delegate.go
  empty_offer no_proof not_claimed : Error
  -- internal/nexum/workflow.go
  bad_tree no_path walk_loop empty_fact : Error
  -- internal/nexum/checkpoint.go
  bad_checkpoint bad_json : Error
  -- internal/settle and internal/he
  bad_lock no_locks sum_mismatch bad_sum keygen enc_failed dec_failed add_failed noise : Error
  too_many_locks bad_randomness bad_key : Error
  -- nex/contract.go
  stale_command outside_window already_locked cannot_agree consent_required : Error
  unknown_command : String → Error
  invalid_identity invalid_signature bad_specification : Error
  -- internal/pow and internal/l2
  bad_difficulty search_failed empty_agreement bad_hex below_floor root_mismatch invalid_pow : Error
  batch_size bad_commitment invalid_batch out_of_rounds : Error
  -- internal/message
  invalid_message message_party message_state offer_expired no_settlement_reference
        message_not_ready :
      Error
  -- an error of a cipher, of crypto/ecdh, crypto/hkdf or hpke
  cipher_failed : Error
  -- nex/store.go
  not_found already_stored operation_conflict corrupt_store store_version commit_uncertain : Error
  not_new bad_operation_id operation_too_large foreign_operation bad_contract_id : Error
  checkpoint_too_large io_error : Error
  -- a panic: a value that cannot be encoded
  panicked : Error

pub data Result (A : Type 0) : Type 0 where
  ok : A → Result A
  err : Error → Result A

-- The error, if any, and the receiver afterwards: a method that fails may have changed it.
abbrev pub Outcome : Type 0 → Type 0
Outcome S = Option Error × S

module _ {S : Type 0} where
  abbrev pub done : S → Outcome S
  done s = (none, s)

  abbrev pub fail : Error → S → Outcome S
  fail e s = (some e, s)

  -- `if err := m(); err != nil { return err }`, and the rest.
  infixl 5 ◌>>=◌
  abbrev pub ◌>>=◌ : Outcome S → (S → Outcome S) → Outcome S
  (none, s) >>= f = f s
  (some e, s) >>= f = (some e, s)

  -- The same for a call that returns a value or an error and leaves the receiver `s` alone.
  abbrev pub attempt : {A : Type 0} → S → Result A → (A → Outcome S) → Outcome S
  attempt s (ok a) f = f a
  attempt s (err e) f = (some e, s)

  -- The same for a check that returns an error or nothing.
  abbrev pub check : S → Option Error → Outcome S → Outcome S
  check s none rest = rest
  check s (some e) rest = (some e, s)

  pub check_cases :
      (P : Outcome S → Type 0) (s : S) (o : Option Error) {rest : Outcome S}
      → ((e : Error) → P (fail e s))
      → (o ≡ none → P rest)
      → P (check s o rest)
  check_cases P s none stop go = go refl
  check_cases P s (some e) stop go = stop e

  -- What holds of the failure and of every continuation holds of the attempt.
  pub attempt_rule :
      {A : Type 0} (P : Outcome S → Type 0) (s : S) (r : Result A) (f : A → Outcome S)
      → ((e : Error) → P (fail e s))
      → ((x : A) → P (f x))
      → P (attempt s r f)
  attempt_rule P s (ok a) f stop go = go a
  attempt_rule P s (err e) f stop go = stop e

-- `if err := m(); err != nil { return nil, err }`, and the rest.
abbrev pub bind : {A B : Type 0} → Result A → (A → Result B) → Result B
bind (ok a) f = f a
bind (err e) f = err e

-- `if err := m(); err != nil { return nil, err }` for a check that returns no value, and the rest.
abbrev pub guarded : {A : Type 0} → Option Error → Result A → Result A
guarded none rest = rest
guarded (some e) rest = err e

pub guarded_cases :
    {A : Type 0} (P : Result A → Type 0) (o : Option Error) {rest : Result A}
    → ((e : Error) → P (err e))
    → P rest
    → P (guarded o rest)
guarded_cases P none stop go = go
guarded_cases P (some e) stop go = stop e

-- A value that is there, or the error of the function that should have made it, and the rest.
abbrev pub required : {A B : Type 0} → Error → Option A → (A → Result B) → Result B
required e none f = err e
required e (some a) f = f a

pub required_cases :
    {A B : Type 0} (P : Result B → Type 0) (e : Error) (o : Option A) (f : A → Result B)
    → P (err e)
    → ((a : A) → o ≡ some a → P (f a))
    → P (required e o f)
required_cases P e none f stop go = stop
required_cases P e (some a) f stop go = go a refl

-- What a constructor returns once its receiver has been through a method: the pointer or the error.
abbrev pub returned : {S : Type 0} → Outcome S → Result S
returned (none, s) = ok s
returned (some e, s) = err e

-- A chain of constructors that returns a value has passed its first link.
pub bind-eq-ok :
    {A B : Type 0} (m : Result A) (f : A → Result B) {b : B}
    → bind m f ≡ ok b
    → (a : A) × (m ≡ ok a) × (f a ≡ ok b)
bind-eq-ok (ok a) f h = (a, refl, h)
bind-eq-ok (err e) f h = cc

pub returned-eq-ok : {S : Type 0} (r : Outcome S) {s : S} → returned r ≡ ok s → r.1 ≡ s
returned-eq-ok (none, t) h = ground arith
returned-eq-ok (some e, t) h = cc

-- What holds of every error and of what follows each value holds of the chain.
pub bind_cases :
    {A B : Type 0} (P : Result B → Type 0) (m : Result A) (f : A → Result B)
    → ((e : Error) → P (err e))
    → ((a : A) → m ≡ ok a → P (f a))
    → P (bind m f)
bind_cases P (ok a) f stop go = go a refl
bind_cases P (err e) f stop go = stop e

pub Result-cases :
    {A : Type 0} (r : Result A) → ((e : Error) × (r ≡ err e)) ⊎ ((a : A) × (r ≡ ok a))
Result-cases (ok a) = inr (a, refl)
Result-cases (err e) = inl (e, refl)
