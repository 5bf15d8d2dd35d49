-- ===== src/Store/Written.antt =====
-- `restore` on the record that `Apply` writes.
use nexum.Checkpoint.RoundTrip.{LedgerFits, json_form}
use nexum.Checkpoint.Restored.{Restored, restore_private-Restored}
use nexum.Restore.Sound.{Sound, verified-Sound, checkpoint_returns}
use nexum.Prelude.{
  ◌+◌, ◌≡◌, ◌≢◌, refl, sym, ap, ◌∙◌, subst, String, true, false, Option, none, some, [], ◌∷◌, ◌++◌,
  length, length-snoc, arith,
}
use mathlib.Core.List.{Memᴰ}
use nexum.Errors.{ok, Outcome}
use nexum.Std.{Std, Bytes, Time}
use nexum.Agreement.{Agreement}
use nexum.Room.{Entropy}
use nexum.Identity.{Crypto, Command}
use nexum.Checkpoint
use nexum.Checkpoint.{private_checkpoint}
use nexum.Contract
use nexum.Contract.{Contract, head, signer}
use nexum.Receipt.{last_hash_from}
use nexum.Operation.{
  Operation, Committed, Entries, StoredContract, Persist, get_entry, put_entry, operations_of,
  validate_operation_id, verify_operation,
}
use nexum.Restore
use nexum.Restore.{Progress, is_none, contract_of, is_bad_entry}
use nexum.Restore.Found.{Found, restored-Found}
use nexum.Restore.Extend.{put_entry_fresh, get_entry-kept, get_entry_last, index_heads-snoc}
use nexum.Restore.Replay.{replay-append}
use nexum.Restore.Did.{Did, locked_it, agreed_it, settled_it, rejected_it, expired_it}
use nexum.Restore.Carried.{Frames, verified-Did, verified-Frames, verified_head}
use nexum.Restore.Walked.{Walked, accounts_for-Walked, Walked-accounts, start}
use nexum.Restore.Grown.{Did-Grown, entry_of}
use nexum.Store.{committed_record}
use nexum.Store.Rewritten.{
  restores, fits_grown, index_heads_same, good_entry, same_record, index_missing,
}

module _ (std : Std) (crypto : Crypto) (persist : Persist) where
  module _ (r : StoredContract) (id : String) (c d : Contract) (op : Operation) (sig : Bytes)
      (found : Found std crypto persist r id c) (frames : Frames c d)
      (at : op.command.head ≡ head c) (unused : get_entry (head c) found.by_head ≡ none) where
    abbrev entry : Committed
    entry = entry_of std crypto persist id c d op sig

    abbrev by_head' : Entries Committed
    by_head' = found.by_head ++ (op.command.head, entry) ∷ []

    abbrev ops' : Entries Committed
    ops' = found.ops ++ (op.id, entry) ∷ []

    walked : Did std crypto c op.command sig d → Walked std crypto persist d (length ops') by_head'
    walked did =
        let w =
          accounts_for-Walked std crypto persist c (length found.ops) found.by_head
            found.accounted in
        let there : get_entry (head c) by_head' ≡ some entry =
          subst (λ h. get_entry (head c) (found.by_head ++ (h, entry) ∷ []) ≡ some entry) (sym at)
            (get_entry_last (head c) entry found.by_head unused) in
        let grown =
          Did-Grown std crypto persist id c d op sig by_head' there frames.terms w.p w.status
            w.consent did in
        let last : last_hash_from w.second.hash w.rest ≡ head c =
          sym (ap (last_hash_from "") w.receipts) in
        record {
          first = w.first;
          second = w.second;
          rest = w.rest ++ grown.more;
          p = record { status = d.agreement.status; consent = d.agreed; used = w.p.used + 1 };
          receipts = grown.written ∙ ap (λ l. l ++ grown.more) w.receipts;
          opens = w.opens;
          walk =
              replay-append std crypto persist found.by_head by_head' c.agreement d.agreement
                frames.terms.buyer frames.terms.seller
                (λ h e is. get_entry-kept h op.command.head entry e found.by_head is) grown.more
                w.second.hash (start std crypto persist c (length found.ops) found.by_head) false
                w.rest w.p tt w.walk
              ∙ ap
                  (λ h.
                    Restore.replay std crypto persist by_head' d.agreement h w.p false grown.more)
                  last
              ∙ grown.walk;
          used = omega (arith, w.used, length-snoc found.ops (op.id, entry));
          status = refl;
          consent = refl;
        }

    same_contract : contract_of (committed_record r id op sig d) id d.agreement ≡ d
    same_contract = sym (
        frames.frame
        ∙ ap (λ (x : Contract). record x { agreement = d.agreement; agreed = d.agreed }) found.is)

    indexed :
        is_bad_entry std crypto persist c op.id entry ≡ false
        → Restore.index_heads std crypto persist d ops' [] ≡ some by_head'
    indexed good =
        let missing : get_entry op.command.head found.by_head ≡ none =
          subst (λ h. get_entry h found.by_head ≡ none) (sym at) unused in
        ap (λ x. Restore.index_heads std crypto persist x ops' []) frames.frame
        ∙ index_heads_same std crypto persist c d.agreement d.agreed ops' []
        ∙ index_heads-snoc std crypto persist c op.id entry found.ops [] found.by_head found.indexed
            good missing

    fitting :
        (deadline : d.agreement.deadline ≡ c.agreement.deadline)
        → is_none d.agreement.sealed ≡ is_none c.agreement.sealed
        → Restore.agreement_fits std crypto persist r.terms id d.agreement ≡ true
    fitting deadline armed =
        fits_grown std crypto persist r.terms id c.agreement d.agreement frames.terms deadline armed
          (ap (λ (x : Contract). Restore.agreement_fits std crypto persist r.terms id x.agreement)
              found.is
            ∙ found.agrees)

    -- The record that is written, where its parts are right.
    rewritten :
        Did std crypto c op.command sig d
        → get_entry op.id found.ops ≡ none
        → is_bad_entry std crypto persist c op.id entry ≡ false
        → d.agreement.deadline ≡ c.agreement.deadline
        → is_none d.agreement.sealed ≡ is_none c.agreement.sealed
        → Checkpoint.restore_private std persist.json_copy (private_checkpoint d.agreement)
          ≡ ok d.agreement
        → Restore.restore std crypto persist (committed_record r id op sig d) id ≡ ok d
    rewritten did fresh good deadline armed checkpoint =
        let back = sym same_contract in
        let stored : some (put_entry op.id entry (operations_of r)) ≡ some ops' =
          ap (λ o. some (put_entry op.id entry (listed o))) found.has
          ∙ ap some (put_entry_fresh op.id entry found.ops fresh) in
        restores std crypto persist (committed_record r id op sig d) id ops' by_head' d.agreement
          (same_record std crypto persist r id op sig d ∙ found.fits) stored checkpoint
          (fitting deadline armed)
          (subst (λ x. Restore.index_heads std crypto persist x ops' [] ≡ some by_head') back
            (indexed good))
          (subst (λ x. Restore.accounts_for std crypto persist x (length ops') by_head' ≡ true) back
            (Walked-accounts std crypto persist d (length ops') by_head' (walked did)))
        ∙ ap ok same_contract
      where
        listed : Option (Entries Committed) → Entries Committed
        listed o = elim o [ none ↦ [] | some ops ↦ ops ]

  Did-fixes :
      (c d : Contract) (cmd : Command) (sig : Bytes)
      → Did std crypto c cmd sig d
      → (d.agreement.deadline ≡ c.agreement.deadline)
        × (is_none d.agreement.sealed ≡ is_none c.agreement.sealed)
  Did-fixes c d cmd sig (locked_it act was now agreed w) = (w.deadline, w.armed)
  Did-fixes c d cmd sig (agreed_it act was unasked now agreed w noted) = (w.deadline, w.armed)
  Did-fixes c d cmd sig (settled_it act was agreed now kept w) = (w.deadline, w.armed)
  Did-fixes c d cmd sig (rejected_it act was now agreed w) = (w.deadline, w.armed)
  Did-fixes c d cmd sig (expired_it act was now agreed w) = (w.deadline, w.armed)

  -- `restore` accepts what `Apply` writes. Where it answers a contract for the record and id, and
  -- `applyVerified` carries out a command of an operation that is authentic and whose ID is new, it
  -- answers the contract as the command left it for the record that `Apply` then writes, provided that
  -- no stored operation was made at the same head, that JSON copies an agreement without its ledger and
  -- keeps the other fields of the new one, and that the new one's ledger has a formed key and one unit
  -- of blinding for each lock.
  pub written_restores :
      (r : StoredContract) (id : String) (c d : Contract) (op : Operation) (sig : Bytes)
      (rnd : Entropy) (now : Time)
      → Restore.restore std crypto persist r id ≡ ok c
      → validate_operation_id persist op.id ≡ none
      → op.command.terms ≡ id
      → verify_operation std crypto persist (signer c op.command.action) op sig ≡ none
      → get_entry op.id (operations_of r) ≡ none
      → Contract.apply_verified std crypto c op.command sig rnd now ≡ (none, d)
      → ((key : String) (e : Committed)
          → Memᴰ (key, e) (operations_of r)
          → e.operation.command.head ≢ head c)
      → ((a b : Agreement) → persist.json_copy a ≡ some b → b.sealed ≡ none)
      → persist.json_copy d.agreement ≡ some (json_form d.agreement)
      → LedgerFits d.agreement d.agreement.sealed
      → Restore.restore std crypto persist (committed_record r id op sig d) id ≡ ok d
  unfolding get_entry
  written_restores r id c d op sig rnd now restored valid terms signed fresh carried unused bare
        copies held =
      let found = restored-Found std crypto persist r id c restored in
      let did : Did std crypto c op.command sig d =
        subst (λ out. out.0 ≡ none → Did std crypto c op.command sig out.1) carried
          (verified-Did std crypto c op.command sig rnd now) refl in
      let frames : Frames c d =
        subst (λ (out : Outcome Contract). Frames c out.1) carried
          (verified-Frames std crypto c op.command sig rnd now) in
      let at : op.command.head ≡ head c =
        verified_head std crypto c op.command sig rnd now
          (ap (λ (out : Outcome Contract). out.0) carried) in
      let (deadline, armed) = Did-fixes c d op.command sig did in
      let was : Restored std c.agreement =
        subst (λ (x : Contract). Restored std x.agreement) (sym found.is)
          (restore_private-Restored std persist.json_copy bare r.checkpoint found.kept) in
      let sound : Sound std d.agreement =
        subst (λ (out : Outcome Contract). Sound std out.1.agreement) carried
          (verified-Sound std crypto c op.command sig rnd now (was.valid, was.sealed)) in
      let checkpoint =
        checkpoint_returns std persist.json_copy c.agreement d.agreement was frames.terms sound
          copies held in
      let stored : operations_of r ≡ found.ops = ap listed found.has in
      let missing =
        index_missing std crypto persist c (head c) found.ops [] found.by_head found.indexed refl
          (λ key e there. unused key e (subst (Memᴰ (key, e)) (sym stored) there)) in
      rewritten r id c d op sig found frames at missing did
        (ap (get_entry op.id) (sym stored) ∙ fresh)
        (good_entry std crypto persist c id op sig d (ap (λ (x : Contract). x.terms) found.is) valid
          terms signed)
        deadline armed checkpoint
    where
      listed : Option (Entries Committed) → Entries Committed
      listed o = elim o [ none ↦ [] | some ops ↦ ops ]
