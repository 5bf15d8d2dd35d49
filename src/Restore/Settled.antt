-- ===== src/Restore/Settled.antt =====
-- The two receipts of a settlement.
use nexum.Prelude.{ℕ, String, ◌≡◌, refl, ap, ◌∙◌, Option, none, some, List, [], ◌∷◌, ◌++◌}
use nexum.Errors.{Outcome, ◌>>=◌}
use nexum.Std.{Std, Time}
use nexum.Receipt.{Receipt}
use nexum.Agreement
use nexum.Agreement.{Agreement, is_terminal, outsider}
use nexum.Room
use nexum.Room.{Entropy, is_empty}
use nexum.Restore.{is_none}
use nexum.Restore.Written.{Wrote, accept-Wrote, note-Wrote}

-- Two more receipts: the evidence, and the acceptance.
pub record Settled (a b : Agreement) (evidence : String) : Type 0 where
  pub first : Receipt
  pub second : Receipt
  pub written : b.receipts ≡ a.receipts ++ first ∷ second ∷ []
  pub by_buyer : first.actor ≡ a.buyer
  pub is_evidence : first.action ≡ "evidence"
  pub noted : first.note ≡ evidence
  pub by_seller : second.actor ≡ a.seller
  pub accepts : second.action ≡ "accept"
  pub deadline : b.deadline ≡ a.deadline
  pub armed : is_none b.sealed ≡ is_none a.sealed

snoc_snoc : {A : Type 0} (xs : List A) (x y : A) → (xs ++ x ∷ []) ++ y ∷ [] ≡ xs ++ x ∷ y ∷ []
snoc_snoc [] x y = refl
snoc_snoc (z ∷ xs) x y = ap (λ l. z ∷ l) (snoc_snoc xs x y)

module _ (std : Std) where
  pub settle-Settled :
      (a : Agreement) (citation : String) (blinder : Option ℕ) (now : Time)
      → let r = Room.accept_with_evidence std a a.buyer a.seller citation blinder now in
        r.0 ≡ none → Settled a r.1 citation
  unfolding Room.accept_with_evidence Room.commit_copy
  settle-Settled a citation blinder now =
      noted (Agreement.note std a a.buyer "evidence" citation now)
        (note-Wrote std a now a.buyer citation)
    where
      accepted :
          (next : Agreement) (r : Outcome Agreement)
          → ((w : Wrote a next a.buyer "evidence") × (w.receipt.note ≡ citation))
          → (r.0 ≡ none → Wrote next r.1 a.seller "accept")
          → (Room.commit_copy a r).0 ≡ none
          → Settled a (Room.commit_copy a r).1 citation
      accepted next (some e, b) (w, note) wrote h = cc
      accepted next (none, b) (w, note) wrote h =
          let v = wrote refl in
          record {
            first = w.receipt;
            second = v.receipt;
            written =
                v.written
                ∙ ap (λ l. l ++ v.receipt ∷ []) w.written
                ∙ snoc_snoc a.receipts w.receipt v.receipt;
            by_buyer = w.by;
            is_evidence = w.did;
            noted = note;
            by_seller = v.by;
            accepts = v.did;
            deadline = v.deadline ∙ w.deadline;
            armed = v.armed ∙ w.armed;
          }

      noted :
          (n : Outcome Agreement)
          → (n.0 ≡ none → (w : Wrote a n.1 a.buyer "evidence") × (w.receipt.note ≡ citation))
          → let r = Room.commit_copy a (n >>= λ next. Room.accept std next a.seller blinder now) in
            r.0 ≡ none → Settled a r.1 citation
      noted (some e, next) wrote h = cc
      noted (none, next) wrote h =
          accepted next (Room.accept std next a.seller blinder now) (wrote refl)
            (accept-Wrote std next now a.seller blinder) h
