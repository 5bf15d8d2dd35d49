-- ===== src/Store/Retry.antt =====
-- A retry of an operation that has been answered, and a call that fails.
use nexum.Prelude.{
  ◌≡◌, ◌≢◌, refl, ap, ◌∙◌, subst, String, true, false, none, some, ◌==◌, arith, eq_refl,
}
use nexum.Errors.{Error, ok, err, commit_uncertain}
use nexum.Std.{Std, Bytes, Time}
use nexum.Room.{Entropy}
use nexum.Identity.{Crypto}
use nexum.Contract.{Contract, signer}
use nexum.Operation.{
  Operation, Answer, Committed, StoredContract, Persist, get_entry, operations_of, same_operation,
  verify_operation,
}
use nexum.Disk.{Disk, Faults, read, synced, sync_directory}
use nexum.Disk.ReadBack.{Faithful}
use nexum.Store
use nexum.Store.{Reply, concluded, answer_of, committed_record, with_lock}
use nexum.Store.Rules.{write_rule}
use nexum.Store.ApplyRule.{Accepted, apply_rule}
use nexum.Store.Events.{Draws, Events}
use nexum.Store.Recorded.{read_entry, Events-Kept}
use nexum.Store.Once.{Recorded, answered-Recorded}

same_operation_refl : (op : Operation) → same_operation op op ≡ true
same_operation_refl op = ground (
  arith,
  eq_refl op.id,
  eq_refl op.command.terms,
  eq_refl op.command.head,
  eq_refl op.command.action,
  eq_refl op.command.evidence,
)

module _ (persist : Persist) (id : String) (op : Operation) where
  -- An answer to an operation that passes the tests.
  abbrev Passed : Reply Answer → Type 0
  Passed (err e, d) = Unit {0}
  Passed (ok ans, d) = Accepted persist id op × (op.command.terms ≡ id)

module _ (std : Std) (crypto : Crypto) (persist : Persist) where
  answered-Passed :
      (f : Faults) (id : String) (op : Operation) (signature : Bytes) (rnd : Entropy) (now : Time)
      (d : Disk)
      → Passed persist id op (Store.apply std crypto persist f id op signature rnd now d)
  answered-Passed f id op signature rnd now d =
      apply_rule std crypto persist f id op signature rnd now d (Passed persist id op) (λ e. tt)
        (λ r c prior authentic known same. (tt, (authentic.is_accepted, authentic.named)))
        (λ r c c' authentic fresh tried.
          let ans = answer_of id op c' in
          write_rule persist (λ out. Passed persist id op (concluded ans out)) f id
            (committed_record r id op signature c') d (λ x. tt)
            (λ content sealed. (tt, tt, (authentic.is_accepted, authentic.named))))

  -- The retry of an entry, where nothing fails.
  entry_answers :
      (f : Faults) (id : String) (op : Operation) (signature : Bytes) (rnd : Entropy) (now : Time)
      (d : Disk) (r : StoredContract) (c : Contract) (e : Committed)
      → Accepted persist id op
      → op.command.terms ≡ id
      → f.lock_fails ≡ false
      → f.dir_sync_fails ≡ false
      → read std crypto persist f id d ≡ ok (r, c)
      → verify_operation std crypto persist (signer c op.command.action) op signature ≡ none
      → get_entry op.id (operations_of r) ≡ some e
      → e.operation ≡ op
      → Store.apply std crypto persist f id op signature rnd now d ≡ (ok e.answer, synced d)
  unfolding Store.apply Store.apply_authentic sync_directory
  entry_answers f id op signature rnd now d r c e accepted named free syncs found signed known
        is_op =
      let same : same_operation e.operation op ≡ true =
        ap (λ o. same_operation o op) is_op ∙ same_operation_refl op in
      let here : (op.command.terms == id) ≡ true = ap (λ t. t == id) named ∙ eq_refl id in
      ground (
        arith, accepted.valid_id, accepted.small, accepted.is_hex.decoded,
        accepted.is_hex.canonical, free, found, here, signed, known, same, syncs,
      )

  -- A retry of an operation that `Apply` has answered gives the same result, whatever calls and crashes
  -- come between, when the contract can be read, the signature is good, and neither the lock nor the
  -- sync of the directory fails; all that is seen is then durable. It is assumed that JSON and the
  -- encryption read back what they wrote and that a nonce has its length.
  pub retry_succeeds :
      Faithful persist
      → (f f' : Faults) (id : String) (op : Operation) (signature signature' : Bytes)
        (rnd rnd' : Entropy) (now now' : Time) (d d' d'' : Disk) (ans : Answer) (r : StoredContract)
        (c : Contract)
      → Draws persist f
      → Store.apply std crypto persist f id op signature rnd now d ≡ (ok ans, d')
      → Events std crypto persist d' d''
      → f'.lock_fails ≡ false
      → f'.dir_sync_fails ≡ false
      → read std crypto persist f' id d'' ≡ ok (r, c)
      → verify_operation std crypto persist (signer c op.command.action) op signature' ≡ none
      → Store.apply std crypto persist f' id op signature' rnd' now' d'' ≡ (ok ans, synced d'')
  retry_succeeds faithful f f' id op signature signature' rnd rnd' now now' d d' d'' ans r c draws
        first between free syncs found signed =
      let (e, kept, is_op, is_answer) =
        subst (Recorded persist id op) first
          (answered-Recorded std crypto persist faithful f id op signature rnd now d draws) in
      let (accepted, named) =
        subst (Passed persist id op) first (answered-Passed f id op signature rnd now d) in
      let known =
        read_entry std crypto persist f' id op.id e d'' r c
          (Events-Kept std crypto persist faithful id op.id e d' kept between) found in
      entry_answers f' id op signature' rnd' now' d'' r c e accepted named free syncs found signed
        known is_op
      ∙ ap (λ a. answered a d'') is_answer
    where
      answered : Answer → Disk → Reply Answer
      answered a d = (ok a, synced d)

  -- A failure that leaves no doubt.
  abbrev Untouched : Disk → Reply Answer → Type 0
  Untouched d (err e, d') = e ≢ commit_uncertain → d' ≡ d
  Untouched d (ok ans, d') = Unit {0}

  -- Where `Apply` answers an error other than an uncertain commit, the disk is as it was.
  pub failed_apply_unchanged :
      (f : Faults) (id : String) (op : Operation) (signature : Bytes) (rnd : Entropy) (now : Time)
      (d d' : Disk) (e : Error)
      → Store.apply std crypto persist f id op signature rnd now d ≡ (err e, d')
      → e ≢ commit_uncertain
      → d' ≡ d
  failed_apply_unchanged f id op signature rnd now d d' e failed = subst (Untouched d) failed (
      apply_rule std crypto persist f id op signature rnd now d (Untouched d) (λ x certain. refl)
        (λ r c prior authentic known same. ((λ certain. refl), tt))
        (λ r c c' authentic fresh tried.
          let ans = answer_of id op c' in
          write_rule persist (λ out. Untouched d (concluded ans out)) f id
            (committed_record r id op signature c') d (λ x certain. refl)
            (λ content sealed.
              ((λ certain. absurd (certain refl)), (λ certain. absurd (certain refl)), tt))))
