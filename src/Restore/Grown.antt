-- ===== src/Restore/Grown.antt =====
-- The receipts of a command that has been carried out are accounted for by its operation.
use nexum.Prelude.{
  ◌+◌, ◌≡◌, inl, inr, refl, sym, ap, ◌∙◌, String, Bool, true, false, Option, some, List, [], ◌∷◌,
  ◌++◌,
}
use nexum.Std.{Std, Bytes}
use nexum.Meter.{Status, locked, accepted, rejected, expired}
use nexum.Receipt.{Receipt, last_hash_from}
use nexum.Identity.{Crypto}
use nexum.Room.History.{SameTerms}
use nexum.Contract.{Contract, head}
use nexum.Operation.{Operation, Committed, Entries, Persist, get_entry}
use nexum.Restore
use nexum.Restore.{Progress, is_none}
use nexum.Restore.Did.{Did, locked_it, agreed_it, settled_it, rejected_it, expired_it}
use nexum.Restore.Written.{Wrote}
use nexum.Restore.Turns.{
  lock-Turned, agree-Turned, reject-Turned, expire-Turned, settle_moved, settle-Turned, one_walked,
  two_walked,
}

last_hash_snoc :
    (h : String) (rs : List Receipt) (q : Receipt) → last_hash_from h (rs ++ q ∷ []) ≡ q.hash
last_hash_snoc h [] q = refl
last_hash_snoc h (r ∷ rs) q = last_hash_snoc r.hash rs q

last_hash_two :
    (h : String) (rs : List Receipt) (q next : Receipt)
    → last_hash_from h (rs ++ q ∷ next ∷ []) ≡ next.hash
last_hash_two h [] q next = refl
last_hash_two h (r ∷ rs) q next = last_hash_two r.hash rs q next

module _ (std : Std) (crypto : Crypto) (persist : Persist) (id : String) (c d : Contract)
    (op : Operation) (sig : Bytes) where
  abbrev pub entry_of : Committed
  entry_of = record {
    operation = op;
    signature = sig;
    answer = record {
      contract_id = id;
      operation_id = op.id;
      head = head d;
      status = d.agreement.status;
    };
  }

  -- The receipts behind those of `c`, and the walk over them.
  pub record Grown (by_head : Entries Committed) (p : Progress) : Type 0 where
    pub more : List Receipt
    pub written : d.agreement.receipts ≡ c.agreement.receipts ++ more
    pub walk :
        Restore.replay std crypto persist by_head d.agreement (head c) p false more
        ≡ some (record { status = d.agreement.status; consent = d.agreed; used = p.used + 1 })
    pub deadline : d.agreement.deadline ≡ c.agreement.deadline
    pub armed : is_none d.agreement.sealed ≡ is_none c.agreement.sealed

  module _ (by_head : Entries Committed) (there : get_entry (head c) by_head ≡ some entry_of)
      (terms : SameTerms c.agreement d.agreement) (p : Progress)
      (status : p.status ≡ c.agreement.status) (consent : p.consent ≡ c.agreed) where
    abbrev progress : Status → Bool → Option Progress
    progress s b = some (record { status = s; consent = b; used = p.used + 1 })

    ends_as :
        (s : Status) (b : Bool)
        → d.agreement.status ≡ s
        → d.agreed ≡ b
        → progress s b ≡ progress d.agreement.status d.agreed
    ends_as s b was agreed =
        ap (λ x. progress x b) (sym was) ∙ ap (progress d.agreement.status) (sym agreed)

    -- One receipt, by its turn.
    one-Grown :
        (actor action : String) (s : Status) (b : Bool)
        (w : Wrote c.agreement d.agreement actor action)
        → d.agreement.status ≡ s
        → d.agreed ≡ b
        → (entry_of.answer.head ≡ w.receipt.hash
            → Restore.turn std crypto persist d.agreement entry_of w.receipt [] p
              ≡ some (record { status = s; consent = b; used = p.used + 1 }, false))
        → Grown by_head p
    one-Grown actor action s b w is agreed turned =
        let hash : head d ≡ w.receipt.hash =
          ap (last_hash_from "") w.written ∙ last_hash_snoc "" c.agreement.receipts w.receipt in
        record {
          more = w.receipt ∷ [];
          written = w.written;
          walk =
              one_walked std crypto persist d.agreement entry_of p by_head (head c) w.receipt _
                there (turned hash)
              ∙ ends_as s b is agreed;
          deadline = w.deadline;
          armed = w.armed;
        }

    pub Did-Grown : Did std crypto c op.command sig d → Grown by_head p
    Did-Grown (locked_it act was now agreed w) =
        one-Grown c.agreement.buyer "seal" locked p.consent w now (agreed ∙ sym consent) (λ hash.
          lock-Turned std crypto persist d.agreement entry_of p w.receipt act (status ∙ was) w.did
            (w.by ∙ sym terms.buyer) hash now)
    Did-Grown (agreed_it act was unasked now agreed w noted) =
        one-Grown c.agreement.seller "evidence" locked true w now agreed (λ hash.
          agree-Turned std crypto persist d.agreement entry_of p w.receipt act (status ∙ was)
            (consent ∙ unasked) w.did (w.by ∙ sym terms.seller) noted hash now)
    Did-Grown (rejected_it act was now agreed w) =
        one-Grown c.agreement.seller "reject" rejected p.consent w now (agreed ∙ sym consent)
          (λ hash.
            reject-Turned std crypto persist d.agreement entry_of p w.receipt act (status ∙ was)
              w.did (w.by ∙ sym terms.seller) hash now)
    Did-Grown (expired_it act was now agreed w) =
        one-Grown c.agreement.buyer "expire" expired p.consent w now (agreed ∙ sym consent) (λ hash.
          expire-Turned std crypto persist d.agreement entry_of p w.receipt act
            (elim was [ inl early ↦ inl (status ∙ early) | inr held ↦ inr (status ∙ held) ]) w.did
            (w.by ∙ sym terms.buyer) hash now)
    Did-Grown (settled_it act was agreed now kept w) =
        let hash : head d ≡ w.second.hash =
          ap (last_hash_from "") w.written
          ∙ last_hash_two "" c.agreement.receipts w.first w.second in
        let turned = settle-Turned std crypto persist d.agreement entry_of p w.first w.second act (
          settle_moved std crypto persist d.agreement entry_of p w.first w.second (status ∙ was)
            (consent ∙ agreed) w.is_evidence (w.by_buyer ∙ sym terms.buyer) w.noted w.accepts
            (w.by_seller ∙ sym terms.seller) hash now) in
        record {
          more = w.first ∷ w.second ∷ [];
          written = w.written;
          walk =
              two_walked std crypto persist d.agreement entry_of p by_head (head c) w.first w.second
                _ there turned
              ∙ ends_as accepted p.consent now (kept ∙ sym consent);
          deadline = w.deadline;
          armed = w.armed;
        }
