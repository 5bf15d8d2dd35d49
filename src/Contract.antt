-- ===== src/Contract.antt =====
-- nex/contract.go: a contract between two identities, an agreement moved by signed commands.
pub mod Run
pub mod Consent
pub mod Invariant
pub mod Opening
pub mod Commands
pub mod Effects
pub mod Answers
use Prim.Native.String.{◌++◌ as ◌<>◌}
use nexum.Prelude.{
  ℕ, String, Bool, true, false, not, ◌||◌, Option, none, some, List, [], ◌∷◌, ◌==◌, if◌then◌else◌,
}
use nexum.Prelude.Int.{ℤ, pos}
use nexum.Errors.{
  Result, ok, err, Outcome, done, fail, bind, guarded, check, required, returned, ◌>>=◌,
  bad_specification, panicked, stale_command, outside_window, already_locked, cannot_agree,
  consent_required, unknown_command,
}
use nexum.Std.{Std, Bytes, Time, before}
use nexum.Meter.{Status, Meter, is_open, is_locked}
use nexum.Receipt.{last_hash}
use nexum.Agreement
use nexum.Agreement.{Agreement}
use nexum.Room
use nexum.Room.{Entropy}
use nexum.Identity.{
  Public, Identity, Terms, Command, Crypto, public_id, validate, hash_terms, hash_bytes, verify,
  sign,
}

pub record Contract : Type 0 where
  pub agreement : Agreement
  pub terms : String
  pub buyer : Public
  pub seller : Public
  pub agreed : Bool
  pub definition : Terms

-- A key slice is a value here, so its copy is equal to it.
unfoldable pub clone_public : Public → Public
clone_public p = record { signing = p.signing; encryption = p.encryption }

-- Meter{MaxSteps: 128}
abbrev pub contract_meter : Meter
contract_meter = record { cost_usd = 0; effort = ""; budget_usd = 0; max_steps = pos 128 }

-- The hash of the last receipt. A contract's agreement has at least the receipt of its opening.
abbrev pub head : Contract → String
head c = last_hash c.agreement.receipts

abbrev pub command : Contract → String → String → Command
command c action evidence = record {
  terms = c.terms;
  head = head c;
  action = action;
  evidence = evidence;
}

abbrev pub signer : Contract → String → Public
signer c action = if action == "agree" || action == "reject" then c.seller else c.buyer

-- A method of the agreement that the contract points to.
abbrev pub on_agreement : Contract → Outcome Agreement → Outcome Contract
on_agreement c (e, a) = (e, record c { agreement = a })

module _ (std : Std) (crypto : Crypto) where
  abbrev pub terms_of : String → Public → Public → ℤ → String → Time → Time → Terms
  terms_of kind buyer seller amount raw now deadline = record {
    kind = kind;
    buyer = public_id std crypto buyer;
    seller = public_id std crypto seller;
    amount = amount;
    spec = raw;
    created = now;
    deadline = deadline;
  }

  -- `New` once the terms have the hash `id`.
  unfoldable pub new_with :
      Public → Public → Terms → String → (ℕ → List (Option ℕ × Option ℕ)) → Result Contract
  new_with buyer seller t id primes =
      bind
        (Agreement.open_agreement std id t.kind t.buyer t.seller t.amount contract_meter t.created)
        λ a. bind (returned (Agreement.set_deadline std a a.buyer t.deadline t.created)) λ dated.
          bind (returned (Room.start_sealed dated 2048 primes)) λ armed. ok (record {
            agreement = armed;
            terms = id;
            buyer = clone_public buyer;
            seller = clone_public seller;
            agreed = false;
            definition = t;
          })

  -- `spec` is what json.Marshal answers for the specification, `primes` the draws of the key.
  unfoldable pub new_contract :
      String
      → Public
      → Public
      → ℤ
      → Option String
      → Time
      → Time
      → (ℕ → List (Option ℕ × Option ℕ))
      → Result Contract
  unfolding new_with
  new_contract kind buyer seller amount spec now deadline primes =
      guarded (validate std crypto buyer) (
        guarded (validate std crypto seller) (
          required bad_specification spec λ raw.
            let t = terms_of kind buyer seller amount raw now deadline in
            required panicked (hash_terms std crypto t) λ id. new_with buyer seller t id primes))

  -- The `agree` case of `applyVerified`, past its guard: a receipt with the hash of the signature.
  unfoldable pub record_consent : Contract → Bytes → Time → Outcome Contract
  record_consent c sig now = do
    c' ← on_agreement c (
        Agreement.note std c.agreement c.agreement.seller "evidence"
          ("signed-consent:" <> hash_bytes std crypto sig) now)
    done (record c' { agreed = true })

  -- The cases of `applyVerified` inside the time window.
  unfoldable pub apply_action : Contract → Command → Bytes → Entropy → Time → Outcome Contract
  unfolding record_consent
  apply_action c cmd sig rnd now =
      let a = c.agreement in
      if cmd.action == "lock"
      then (if not (is_open a.status)
          then fail already_locked c
          else on_agreement c (
              Room.apply std a (record { actor = a.buyer; action = "seal"; partial = a.amount }) rnd
                now))
      else if cmd.action == "agree"
      then (if not (is_locked a.status) || c.agreed
          then fail cannot_agree c
          else record_consent c sig now)
      else if cmd.action == "settle"
      then (if not c.agreed || cmd.evidence == "" || not (is_locked a.status)
          then fail consent_required c
          else on_agreement c
              (Room.accept_with_evidence std a a.buyer a.seller cmd.evidence rnd.blinder now))
      else if cmd.action == "reject"
      then on_agreement c (
          Room.apply std a (record { actor = a.seller; action = "reject"; partial = pos 0 }) rnd
            now)
      else fail (unknown_command cmd.action) c

  unfoldable pub apply_verified : Contract → Command → Bytes → Entropy → Time → Outcome Contract
  unfolding apply_action
  apply_verified c cmd sig rnd now =
      let a = c.agreement in
      if not (cmd.terms == c.terms) || not (cmd.head == head c)
      then fail stale_command c
      else if cmd.action == "expire"
      then on_agreement c (Agreement.expire std a a.buyer now)
      else if before now a.created_at || not (before now a.deadline)
      then fail outside_window c
      else apply_action c cmd sig rnd now

  unfoldable pub apply : Contract → Command → Bytes → Entropy → Time → Outcome Contract
  unfolding apply_verified
  apply c cmd sig rnd now =
      check c (verify std crypto (signer c cmd.action) cmd sig) (apply_verified c cmd sig rnd now)

  unfoldable pub execute : Contract → Identity → String → String → Entropy → Time → Outcome Contract
  unfolding apply sign
  execute c i action evidence rnd now =
      let cmd = command c action evidence in apply c cmd (sign std crypto i cmd) rnd now
