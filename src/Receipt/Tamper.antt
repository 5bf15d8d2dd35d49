-- ===== src/Receipt/Tamper.antt =====
-- What a verified chain says of a rewritten ledger.
use Prim.Native.String.{◌++◌ as ◌<>◌, count}
use text.Mathlib.TextLemmas.{append_inj, append_assoc}
use text.Mathlib.TextLemmas.{length-append as count-append}
use nexum.Prelude.{
  ℕ, ◌+◌, String, ◌≡◌, refl, ◌≢◌, ◌⊎◌, inl, inr, none, List, [], ◌∷◌, ◌++◌, length, arith, eq_iff,
  sym, ap, ◌∙◌, ◌==◌, Bool-cases,
}
use nexum.Prelude.Int.{pos}
use nexum.Std.{Std}
use nexum.Receipt.{
  Receipt, last_hash_from, receipt_text, hash_receipt, verify_from, verify_receipts,
}

-- Every digest is written with the same number of digits.
abbrev pub FixedWidth : Std → Type 0
FixedWidth std = (s t : String) → count (std.sha256_hex s) ≡ count (std.sha256_hex t)

-- Texts that end in parts of one width end alike.
append_inj_right : (s t u v : String) → s <> u ≡ t <> v → count u ≡ count v → (s ≡ t) × (u ≡ v)
append_inj_right s t u v e w =
    append_inj e (omega (arith, count-append s u, count-append t v, ap count e))

module _ (std : Std) (id : String) where
  -- What the receipts of two chains have in common, position by position: the hashed text, the link
  -- and the hash.
  abbrev pub SameTexts : List Receipt → List Receipt → Type 0
  SameTexts [] [] = Unit
  SameTexts (r ∷ rs) (q ∷ qs) =
      (receipt_text std id r ≡ receipt_text std id q)
      × (r.prev_hash ≡ q.prev_hash)
      × (r.hash ≡ q.hash)
      × SameTexts rs qs
  SameTexts _ _ = ⊥

  -- Two receipts at one place whose hashed texts differ and have one hash.
  abbrev pub Clash : List Receipt → List Receipt → Type 0
  Clash (r ∷ rs) (q ∷ qs) =
      ((receipt_text std id r ≢ receipt_text std id q)
        × (hash_receipt std id r ≡ hash_receipt std id q))
      ⊎ Clash rs qs
  Clash _ _ = ⊥

  -- The hashed text up to the link.
  receipt_head : Receipt → String
  receipt_head r =
      id
      <> "|"
      <> std.decimal (pos r.seq)
      <> "|"
      <> std.rfc3339_nano r.at
      <> "|"
      <> r.action
      <> "|"
      <> r.actor
      <> "|"
      <> r.note
      <> "|"

  receipt_text-eq-head : (r : Receipt) → receipt_text std id r ≡ receipt_head r <> r.prev_hash
  unfolding receipt_text receipt_head
  receipt_text-eq-head r = simp append_assoc

  prev_hash_of_text :
      (r q : Receipt)
      → count r.prev_hash ≡ count q.prev_hash
      → receipt_text std id r ≡ receipt_text std id q
      → r.prev_hash ≡ q.prev_hash
  prev_hash_of_text r q w e =
      (append_inj_right (receipt_head r) (receipt_head q) r.prev_hash q.prev_hash
        (sym (receipt_text-eq-head r) ∙ e ∙ receipt_text-eq-head q) w).1

  -- The texts of two receipts are equal, or they are not.
  text_cases :
      (r q : Receipt)
      → (receipt_text std id r ≢ receipt_text std id q)
        ⊎ (receipt_text std id r ≡ receipt_text std id q)
  text_cases r q = elim (Bool-cases (receipt_text std id r == receipt_text std id q)) [
    | inl same ↦ inr ((eq_iff _ _).0 same)
    | inr other ↦ inl (λ p. ground (arith, eq_iff (receipt_text std id r) (receipt_text std id q)))
  ]

  -- One accepted receipt: its link, its hash, and the rest of the chain.
  verify_from_cons :
      (i : ℕ) (prev : String) (r : Receipt) (rs : List Receipt)
      → verify_from std id i prev (r ∷ rs) ≡ none
      → (r.prev_hash ≡ prev)
        × (r.hash ≡ hash_receipt std id r)
        × (verify_from std id (i + 1) r.hash rs ≡ none)
  unfolding verify_from
  verify_from_cons i prev r rs v =
      ground (arith, eq_iff r.prev_hash prev, eq_iff r.hash (hash_receipt std id r))

  hash_width :
      FixedWidth std
      → (a b : Receipt) → a.hash ≡ hash_receipt std id a
      → b.hash ≡ hash_receipt std id b
      → count a.hash ≡ count b.hash
  unfolding hash_receipt
  hash_width w a b ah bh = rw (ah, bh) (w (receipt_text std id a) (receipt_text std id b))

  -- One receipt further towards the start.
  same_step :
      (p q : String) (a b : Receipt) (rs qs : List Receipt)
      → count p ≡ count q
      → (a.prev_hash ≡ p) × (a.hash ≡ hash_receipt std id a)
      → (b.prev_hash ≡ q) × (b.hash ≡ hash_receipt std id b)
      → Clash rs qs ⊎ ((a.hash ≡ b.hash) × SameTexts rs qs)
      → Clash (a ∷ rs) (b ∷ qs) ⊎ ((p ≡ q) × SameTexts (a ∷ rs) (b ∷ qs))
  same_step p q a b rs qs c ha hb (inl found) = inl (inr found)
  same_step p q a b rs qs c (al, ah) (bp, bh) (inr (h, t)) = elim (text_cases a b) [
    | inl other ↦ inl (inl (other, sym ah ∙ h ∙ bh))
    | inr text ↦
        let links : a.prev_hash ≡ b.prev_hash = prev_hash_of_text a b (rw (al, bp) c) text in
        inr (sym al ∙ links ∙ bp, (text, links, h, t))
  ]

  -- From equal tails back to the links that the two chains start from.
  same_from :
      FixedWidth std
      → (i : ℕ) (p q : String) (rs qs : List Receipt) → count p ≡ count q
      → length rs ≡ length qs
      → verify_from std id i p rs ≡ none
      → verify_from std id i q qs ≡ none
      → last_hash_from p rs ≡ last_hash_from q qs
      → Clash rs qs ⊎ ((p ≡ q) × SameTexts rs qs)
  same_from w i p q [] [] c l v u e = inr (e, tt)
  same_from w i p q [] (b ∷ qs) c l v u e = absurd (omega arith)
  same_from w i p q (a ∷ rs) [] c l v u e = absurd (omega arith)
  same_from w i p q (a ∷ rs) (b ∷ qs) c l v u e =
      let (al, ah, av) = verify_from_cons i p a rs v in
      let (bp, bh, bv) = verify_from_cons i q b qs u in
      same_step p q a b rs qs c (al, ah) (bp, bh)
        (same_from w (i + 1) a.hash b.hash rs qs (hash_width w a b ah bh) (omega arith) av bv e)

  -- Two chains of one length that VerifyReceipts accepts and that end in one hash: their receipts
  -- have the same hashed texts, links and hashes at every position, unless two receipts at one position
  -- of the chains have different hashed texts with one SHA-256 digest. It is assumed that digests are
  -- written with one number of digits.
  pub tail_binds_history :
      FixedWidth std
      → (rs qs : List Receipt) → length rs ≡ length qs
      → verify_receipts std id rs ≡ none
      → verify_receipts std id qs ≡ none
      → last_hash_from "" rs ≡ last_hash_from "" qs
      → Clash rs qs ⊎ SameTexts rs qs
  unfolding verify_receipts
  tail_binds_history w rs qs l v u e = elim (same_from w 0 "" "" rs qs refl l v u e) [
    | inl found ↦ inl found
    | inr same ↦ inr same.1
  ]

  shifted_text :
      (r : Receipt) (a b c : String)
      → receipt_text std id (record r { actor = a <> "|" <> b; note = c })
        ≡ receipt_text std id (record r { actor = a; note = b <> "|" <> c })
  unfolding receipt_text
  shifted_text r a b c = simp append_assoc

  shifted_hash :
      (r : Receipt) (a b c : String)
      → hash_receipt std id (record r { actor = a <> "|" <> b; note = c })
        ≡ hash_receipt std id (record r { actor = a; note = b <> "|" <> c })
  unfolding hash_receipt
  shifted_hash r a b c = ap std.sha256_hex (shifted_text r a b c)

  verify_shifted :
      (i : ℕ) (prev : String) (rs qs : List Receipt) (r : Receipt) (a b c : String)
      → verify_from std id i prev (rs ++ record r { actor = a <> "|" <> b; note = c } ∷ qs)
        ≡ verify_from std id i prev (rs ++ record r { actor = a; note = b <> "|" <> c } ∷ qs)
  unfolding verify_from
  verify_shifted i prev [] qs r a b c = rw (shifted_hash r a b c)
  verify_shifted i prev (q ∷ rs) qs r a b c = rw (verify_shifted (i + 1) q.hash rs qs r a b c)

  -- The separator is not escaped: text moved over a "|" between the actor and the note of any
  -- receipt of any chain leaves the answer of VerifyReceipts as it was.
  pub rewrite_unseen :
      (rs qs : List Receipt) (r : Receipt) (a b c : String)
      → verify_receipts std id (rs ++ record r { actor = a <> "|" <> b; note = c } ∷ qs)
        ≡ verify_receipts std id (rs ++ record r { actor = a; note = b <> "|" <> c } ∷ qs)
  unfolding verify_receipts
  rewrite_unseen rs qs r a b c = verify_shifted 0 "" rs qs r a b c
