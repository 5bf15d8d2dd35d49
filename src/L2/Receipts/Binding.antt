-- ===== src/L2/Receipts/Binding.antt =====
-- What a receipt root says of its commitments.
use nexum.L2.Receipts.Nodes.{leaf_inj}
use nexum.Prelude.{
  ◌≡◌, ◌⊎◌, inl, inr, refl, sym, ap, ◌∙◌, List, [], ◌∷◌, length, arith, some, nat_eq, ltb, ◌||◌,
  subst, if_cases,
}
use mathlib.Core.Path.{ap₂}
use nexum.Prelude.Int.{ℤ, pos, ◌≤ℤ◌}
use nexum.Errors.{ok, Result, err, bind_cases}
use nexum.Std.{Bytes}
use nexum.Std.Equality.{Bytes-cases}
use nexum.L2.{Codec, ReceiptCommitment}
use nexum.L2.Collision.{Collision, unless}
use nexum.L2.Receipts.{leaf, receipt_leaves, receipt_root, fold_layers}
use nexum.L2.Receipts.Tree.{Apart, Distinct, fold_layers-inj}
use nexum.L2.Receipts.Leaves.{Leaves, LeavesResult, receipt_leaves_lem, Leaves-AllHeight}

module _ (codec : Codec) where
  -- The standard library's encoding determines a commitment, and a digest has 32 bytes.
  pub record Faithful : Type 0 where
    pub width : (b : Bytes) → length (codec.keccak b) ≡ 32
    pub decodes :
        (c d : ReceiptCommitment) (raw : Bytes)
        → codec.marshal_commitment c ≡ some raw
        → codec.marshal_commitment d ≡ some raw
        → c ≡ d

  module _ (faithful : Faithful) where
    -- A leaf is apart from the leaves of later sequence numbers.
    leaf-Apart :
        (previous : ℤ) (c : ReceiptCommitment) (raw l : Bytes) (cs : List ReceiptCommitment)
        (ls : List Bytes)
        → codec.marshal_commitment c ≡ some raw
        → l ≡ leaf codec raw
        → c.sequence ≤ℤ previous
        → Leaves codec previous cs ls
        → Collision codec.keccak ⊎ Apart l ls
    leaf-Apart previous c raw l [] [] made is_leaf before h = inr tt
    leaf-Apart previous c raw l [] (k ∷ ls) made is_leaf before h = absurd h
    leaf-Apart previous c raw l (d ∷ cs) [] made is_leaf before h = absurd h
    leaf-Apart previous c raw l (d ∷ cs) (k ∷ ls) made is_leaf before
          (other, encoded, also_leaf, order, rest) =
        unless (leaf-Apart d.sequence c raw l cs ls made is_leaf (ground arith) rest) (λ more.
          elim (Bytes-cases l k) [
            | inr ne ↦ inr (ne, more)
            | inl e ↦
                unless (leaf_inj codec faithful.width raw other (sym is_leaf ∙ e ∙ also_leaf))
                  (λ same.
                    let one : c ≡ d =
                      faithful.decodes c d raw made (encoded ∙ ap some (sym same)) in
                    let numbers : c.sequence ≡ d.sequence =
                      ap (λ (x : ReceiptCommitment). x.sequence) one in
                    absurd (ground (arith, numbers)))
          ])

    Leaves-Distinct :
        (previous : ℤ) (cs : List ReceiptCommitment) (ls : List Bytes)
        → Leaves codec previous cs ls
        → Collision codec.keccak ⊎ Distinct ls
    Leaves-Distinct previous [] [] h = inr tt
    Leaves-Distinct previous [] (l ∷ ls) h = absurd h
    Leaves-Distinct previous (c ∷ cs) [] h = absurd h
    Leaves-Distinct previous (c ∷ cs) (l ∷ ls) (raw, made, is_leaf, order, rest) =
        unless (leaf-Apart c.sequence c raw l cs ls made is_leaf (omega arith) rest)
          (λ apart. unless (Leaves-Distinct c.sequence cs ls rest) (λ more. inr (apart, more)))

    Leaves-inj :
        (p q : ℤ) (cs ds : List ReceiptCommitment) (ls : List Bytes)
        → Leaves codec p cs ls
        → Leaves codec q ds ls
        → Collision codec.keccak ⊎ (cs ≡ ds)
    Leaves-inj p q [] [] ls h k = inr refl
    Leaves-inj p q [] (d ∷ ds) [] h k = absurd k
    Leaves-inj p q [] (d ∷ ds) (l ∷ ls) h k = absurd h
    Leaves-inj p q (c ∷ cs) [] [] h k = absurd h
    Leaves-inj p q (c ∷ cs) [] (l ∷ ls) h k = absurd k
    Leaves-inj p q (c ∷ cs) (d ∷ ds) [] h k = absurd h
    Leaves-inj p q (c ∷ cs) (d ∷ ds) (l ∷ ls) (raw, made, is_leaf, order, rest)
          (other, encoded, also_leaf, after, more) =
        unless (leaf_inj codec faithful.width raw other (sym is_leaf ∙ also_leaf)) (λ same.
          unless (Leaves-inj c.sequence d.sequence cs ds ls rest more) (λ tails. inr (
            ap₂ (λ x xs. x ∷ xs) (faithful.decodes c d raw made (encoded ∙ ap some (sym same)))
              tails)))

    -- What a root was folded from.
    abbrev Folded : List ReceiptCommitment → Result Bytes → Type 0
    Folded cs (ok r) =
        (ls : List Bytes) × Leaves codec (pos 0) cs ls × (fold_layers codec (length ls) ls ≡ ok r)
    Folded cs (err e) = Unit

    Folded-of :
        (cs : List ReceiptCommitment) (ls : List Bytes)
        → Leaves codec (pos 0) cs ls
        → (r : Result Bytes) → fold_layers codec (length ls) ls ≡ r
        → Folded cs r
    Folded-of cs ls leaves (ok r) e = (ls, leaves, e)
    Folded-of cs ls leaves (err e) h = tt

    receipt_root-Folded : (cs : List ReceiptCommitment) → Folded cs (receipt_root codec cs)
    unfolding receipt_root
    receipt_root-Folded cs =
        if_cases (Folded cs) (nat_eq (length cs) 0 || ltb 4096 (length cs)) (λ h. tt)
          (λ h.
            bind_cases (Folded cs) (receipt_leaves codec (pos 0) cs) _ (λ e. tt)
              (λ ls made.
                Folded-of cs ls
                  (subst (LeavesResult codec (pos 0) cs) made (receipt_leaves_lem codec (pos 0) cs))
                  (fold_layers codec (length ls) ls) refl))

    -- A receipt root binds its commitments: two lists for which ReceiptRoot gives one root are the same
    -- list, with the same numbers, ids, actions and hashes in the same order, unless the digest has
    -- a collision. It is assumed that a digest has 32 bytes, and that the JSON text of a commitment
    -- determines it. The odd node that a layer repeats opens no second list, because the sequence
    -- numbers rise; and no inner node passes for a leaf.
    pub receipt_root_binds :
        (cs ds : List ReceiptCommitment) {r : Bytes}
        → receipt_root codec cs ≡ ok r
        → receipt_root codec ds ≡ ok r
        → Collision codec.keccak ⊎ (cs ≡ ds)
    receipt_root_binds cs ds {r} h k =
        let (ls, left, p) = subst (Folded cs) h (receipt_root-Folded cs) in
        let (ks, right, q) = subst (Folded ds) k (receipt_root-Folded ds) in
        let w = faithful.width in
        unless (Leaves-Distinct (pos 0) cs ls left) (λ d.
          unless (Leaves-Distinct (pos 0) ds ks right) (λ e.
            unless
              (fold_layers-inj codec w (length ls) (length ks) 0 ls ks
                (Leaves-AllHeight codec w (pos 0) cs ls left)
                (Leaves-AllHeight codec w (pos 0) ds ks right) d e p q)
              (λ same.
                Leaves-inj (pos 0) (pos 0) cs ds ks (subst (Leaves codec (pos 0) cs) same left)
                  right)))
