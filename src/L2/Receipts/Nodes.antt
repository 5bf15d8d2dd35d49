-- ===== src/L2/Receipts/Nodes.antt =====
-- One node of the tree: what its digest says of the digests beneath it.
use nexum.Prelude.{
  ℕ, zero, suc, ◌≡◌, ◌≢◌, ◌⊎◌, inl, inr, refl, sym, ap, ◌∙◌, ◌++◌, length, arith, subst, Bool, true,
  false,
}
use nexum.Std.{Bytes, bytes_eq}
use nexum.Std.Equality.{bytes_eq_refl, append_inj}
use nexum.L2.{Codec}
use nexum.L2.Collision.{Collision, collide, unless}
use nexum.L2.Receipts.{leaf, node, leaf_domain, node_domain}

true_or_false : (b : Bool) → b ≡ true → b ≢ false
true_or_false b h k = ground arith

domains_differ : leaf_domain ≢ node_domain
domains_differ e =
    true_or_false (bytes_eq leaf_domain node_domain)
      (ap (bytes_eq leaf_domain) (sym e) ∙ bytes_eq_refl leaf_domain) refl

module _ (codec : Codec) (width : (b : Bytes) → length (codec.keccak b) ≡ 32) where
  abbrev pub Collides : Type 0
  Collides = Collision codec.keccak

  pub leaf_inj : (a b : Bytes) → leaf codec a ≡ leaf codec b → Collides ⊎ (a ≡ b)
  leaf_inj a b h =
      unless (collide codec.keccak (leaf_domain ++ a) (leaf_domain ++ b) h)
        (λ e. inr (append_inj leaf_domain leaf_domain a b refl e).1)

  leaf-ne-node : (a l r : Bytes) → leaf codec a ≡ node codec l r → Collides
  leaf-ne-node a l r h =
      elim (collide codec.keccak (leaf_domain ++ a) (node_domain ++ (l ++ r)) h) [
        | inl c ↦ c
        | inr e ↦ absurd (domains_differ (append_inj leaf_domain node_domain a (l ++ r) refl e).0)
      ]

  pub node_inj :
      (a b c d : Bytes)
      → length a ≡ 32
      → length c ≡ 32
      → node codec a b ≡ node codec c d
      → Collides ⊎ ((a ≡ c) × (b ≡ d))
  node_inj a b c d ha hc h =
      unless (collide codec.keccak (node_domain ++ (a ++ b)) (node_domain ++ (c ++ d)) h) (λ e.
        inr (
          append_inj a c b d (ha ∙ sym hc)
            (append_inj node_domain node_domain (a ++ b) (c ++ d) refl e).1))

  -- The digest of a node so many layers above the leaves.
  abbrev pub Height : ℕ → Bytes → Type 0
  Height zero x = (raw : Bytes) × (x ≡ leaf codec raw)
  Height (suc n) x = (l : Bytes) × (r : Bytes) × (x ≡ node codec l r) × Height n l × Height n r

  pub Height-width : (n : ℕ) (x : Bytes) → Height n x → length x ≡ 32
  Height-width zero x h = ap length h.1 ∙ width _
  Height-width (suc n) x h = ap length h.2 ∙ width _

  -- A digest stands on one layer.
  pub Height-unique : (m n : ℕ) (x : Bytes) → Height m x → Height n x → Collides ⊎ (m ≡ n)
  Height-unique zero zero x h k = inr refl
  Height-unique zero (suc n) x h k = inl (leaf-ne-node h.0 k.0 k.1 (sym h.1 ∙ k.2))
  Height-unique (suc m) zero x h k = inl (leaf-ne-node k.0 h.0 h.1 (sym k.1 ∙ h.2))
  Height-unique (suc m) (suc n) x h k =
      unless
        (node_inj h.0 h.1 k.0 k.1 (Height-width m h.0 h.3) (Height-width n k.0 k.3) (sym h.2 ∙ k.2))
        (λ e.
          unless (Height-unique m n h.0 h.3 (subst (Height n) (sym e.0) k.3)) (λ f. inr (ap suc f)))
