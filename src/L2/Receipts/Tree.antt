-- ===== src/L2/Receipts/Tree.antt =====
-- The layers of the tree: what one layer says of the layer below it.
use mathlib.Core.Path.{ap₂}
use nexum.Prelude.{
  ℕ, zero, suc, ◌+◌, ◌≡◌, ◌≢◌, ◌⊎◌, inl, inr, refl, sym, ap, ◌∙◌, List, [], ◌∷◌, length, arith,
  subst, ◌≤◌,
}
use nexum.Errors.{ok}
use nexum.Std.{Bytes}
use nexum.Std.Equality.{Bytes-cases}
use nexum.L2.{Codec}
use nexum.L2.Collision.{Collision, unless}
use nexum.L2.Receipts.{node, next_layer, fold_layers}
use nexum.L2.Receipts.Nodes.{node_inj, Height, Height-width, Height-unique}

-- No item is another.
abbrev pub Apart : Bytes → List Bytes → Type 0
Apart x [] = Unit
Apart x (y ∷ ys) = (x ≢ y) × Apart x ys

abbrev pub Distinct : List Bytes → Type 0
Distinct [] = Unit
Distinct (x ∷ xs) = Apart x xs × Distinct xs

module _ (codec : Codec) (width : (b : Bytes) → length (codec.keccak b) ≡ 32) where
  abbrev pub AllHeight : ℕ → List Bytes → Type 0
  AllHeight n [] = Unit
  AllHeight n (x ∷ xs) = Height codec width n x × AllHeight n xs

  next_layer-AllHeight :
      (n : ℕ) (xs : List Bytes) → AllHeight n xs → AllHeight (suc n) (next_layer codec xs)
  unfolding next_layer
  next_layer-AllHeight n [] h = tt
  next_layer-AllHeight n (x ∷ []) h = ((x, x, refl, h.0, h.0), tt)
  next_layer-AllHeight n (x ∷ y ∷ rest) h =
      ((x, y, refl, h.0, h.1.0), next_layer-AllHeight n rest h.1.1)

  -- Nodes with different left sides differ.
  node-ne :
      (x y z w : Bytes)
      → length x ≡ 32
      → length z ≡ 32
      → x ≢ z
      → Collision codec.keccak ⊎ (node codec x y ≢ node codec z w)
  node-ne x y z w hx hz ne = elim (Bytes-cases (node codec x y) (node codec z w)) [
    | inl e ↦ unless (node_inj codec width x y z w hx hz e) (λ p. absurd (ne p.0))
    | inr other ↦ inr other
  ]

  -- A node over `x` is apart from the nodes over items that are not `x`.
  node-Apart :
      (n : ℕ) (x y : Bytes) (rest : List Bytes)
      → length x ≡ 32
      → AllHeight n rest
      → Apart x rest
      → Collision codec.keccak ⊎ Apart (node codec x y) (next_layer codec rest)
  unfolding next_layer
  node-Apart n x y [] hx hs apart = inr tt
  node-Apart n x y (z ∷ []) hx hs apart =
      unless (node-ne x y z z hx (Height-width codec width n z hs.0) apart.0) (λ ne. inr (ne, tt))
  node-Apart n x y (z ∷ w ∷ rest) hx hs apart =
      unless (node-ne x y z w hx (Height-width codec width n z hs.0) apart.0)
        (λ ne. unless (node-Apart n x y rest hx hs.1.1 apart.1.1) (λ more. inr (ne, more)))

  next_layer-Distinct :
      (n : ℕ) (xs : List Bytes)
      → AllHeight n xs
      → Distinct xs
      → Collision codec.keccak ⊎ Distinct (next_layer codec xs)
  unfolding next_layer
  next_layer-Distinct n [] h d = inr tt
  next_layer-Distinct n (x ∷ []) h d = inr (tt, tt)
  next_layer-Distinct n (x ∷ y ∷ rest) h d =
      unless (node-Apart n x y rest (Height-width codec width n x h.0) h.1.1 d.0.1)
        (λ apart. unless (next_layer-Distinct n rest h.1.1 d.1.1) (λ more. inr (apart, more)))

  -- Layers without repetition that have one layer above them are equal. A repetition at the end of a
  -- layer would leave the layer above as it is.
  next_layer-inj :
      (n : ℕ) (xs ys : List Bytes)
      → AllHeight n xs
      → AllHeight n ys
      → Distinct xs
      → Distinct ys
      → next_layer codec xs ≡ next_layer codec ys
      → Collision codec.keccak ⊎ (xs ≡ ys)
  unfolding next_layer
  next_layer-inj n [] [] h k d e q = inr refl
  next_layer-inj n [] (y ∷ []) h k d e q = cc
  next_layer-inj n [] (y ∷ z ∷ ys) h k d e q = cc
  next_layer-inj n (x ∷ []) [] h k d e q = cc
  next_layer-inj n (x ∷ w ∷ xs) [] h k d e q = cc
  next_layer-inj n (x ∷ []) (y ∷ []) h k d e q =
      unless
        (node_inj codec width x x y y (Height-width codec width n x h.0)
          (Height-width codec width n y k.0) (cc))
        (λ p. inr (ap (λ b. b ∷ []) p.0))
  next_layer-inj n (x ∷ []) (y ∷ z ∷ ys) h k d e q =
      unless
        (node_inj codec width x x y z (Height-width codec width n x h.0)
          (Height-width codec width n y k.0) (cc))
        (λ p. absurd (e.0.0 (sym p.0 ∙ p.1)))
  next_layer-inj n (x ∷ w ∷ xs) (y ∷ []) h k d e q =
      unless
        (node_inj codec width x w y y (Height-width codec width n x h.0)
          (Height-width codec width n y k.0) (cc))
        (λ p. absurd (d.0.0 (p.0 ∙ sym p.1)))
  next_layer-inj n (x ∷ w ∷ xs) (y ∷ z ∷ ys) h k d e q =
      unless
        (node_inj codec width x w y z (Height-width codec width n x h.0)
          (Height-width codec width n y k.0) (cc))
        (λ p.
          unless (next_layer-inj n xs ys h.1.1 k.1.1 d.1.1 e.1.1 (cc))
            (λ more. inr (ap₂ (λ a l. a ∷ l) p.0 (ap₂ (λ a l. a ∷ l) p.1 more))))

  -- What a fold over a layer ends in stands on that layer or above it.
  fold_layers-Height :
      (rounds n : ℕ) (xs : List Bytes) {r : Bytes}
      → AllHeight n xs
      → fold_layers codec rounds xs ≡ ok r
      → (k : ℕ) × Height codec width (n + k) r
  unfolding fold_layers
  fold_layers-Height zero n xs h e = cc
  fold_layers-Height (suc rounds) n [] h e = cc
  fold_layers-Height (suc rounds) n (x ∷ []) {r} h e =
      let same : x ≡ r = cc in
      (
        0,
        subst (λ (m : ℕ). Height codec width m r) (omega arith)
            (subst (Height codec width n) same h.0),
      )
  fold_layers-Height (suc rounds) n (x ∷ y ∷ rest) {r} h e =
      let (k, above) =
        fold_layers-Height rounds (suc n) (next_layer codec (x ∷ y ∷ rest))
          (next_layer-AllHeight n (x ∷ y ∷ rest) h) e in
      (suc k, subst (λ (m : ℕ). Height codec width m r) (omega arith) above)

  -- A single digest is not what two or more nodes of its height fold to.
  lone_root :
      (g n : ℕ) (x y z : Bytes) (rest : List Bytes) {r : Bytes}
      → Height codec width n x
      → AllHeight n (y ∷ z ∷ rest)
      → x ≡ r
      → fold_layers codec g (next_layer codec (y ∷ z ∷ rest)) ≡ ok r
      → Collision codec.keccak
  lone_root g n x y z rest {r} h k same q =
      let (more, above) =
        fold_layers-Height g (suc n) (next_layer codec (y ∷ z ∷ rest))
          (next_layer-AllHeight n (y ∷ z ∷ rest) k) q in
      elim (Height-unique codec width n (suc n + more) r (subst (Height codec width n) same h)
        above) [ inl c ↦ c | inr e ↦ absurd (omega (arith, e)) ]

  -- Layers on one height without repetition that fold to one digest are equal.
  pub fold_layers-inj :
      (f g n : ℕ) (xs ys : List Bytes) {r : Bytes}
      → AllHeight n xs
      → AllHeight n ys
      → Distinct xs
      → Distinct ys
      → fold_layers codec f xs ≡ ok r
      → fold_layers codec g ys ≡ ok r
      → Collision codec.keccak ⊎ (xs ≡ ys)
  unfolding fold_layers
  fold_layers-inj zero g n xs ys h k d e p q = cc
  fold_layers-inj (suc f) zero n xs ys h k d e p q = cc
  fold_layers-inj (suc f) (suc g) n [] ys h k d e p q = cc
  fold_layers-inj (suc f) (suc g) n (x ∷ []) [] h k d e p q = cc
  fold_layers-inj (suc f) (suc g) n (x ∷ w ∷ xs) [] h k d e p q = cc
  fold_layers-inj (suc f) (suc g) n (x ∷ []) (y ∷ []) h k d e p q = inr (ap (λ b. b ∷ []) (cc))
  fold_layers-inj (suc f) (suc g) n (x ∷ []) (y ∷ z ∷ ys) h k d e p q =
      inl (lone_root g n x y z ys h.0 k (cc) q)
  fold_layers-inj (suc f) (suc g) n (x ∷ w ∷ xs) (y ∷ []) h k d e p q =
      inl (lone_root f n y x w xs k.0 h (cc) p)
  fold_layers-inj (suc f) (suc g) n (x ∷ w ∷ xs) (y ∷ z ∷ ys) h k d e p q =
      unless (next_layer-Distinct n (x ∷ w ∷ xs) h d) (λ d'.
        unless (next_layer-Distinct n (y ∷ z ∷ ys) k e) (λ e'.
          unless
            (fold_layers-inj f g (suc n) (next_layer codec (x ∷ w ∷ xs))
              (next_layer codec (y ∷ z ∷ ys)) (next_layer-AllHeight n (x ∷ w ∷ xs) h)
              (next_layer-AllHeight n (y ∷ z ∷ ys) k) d' e' p q)
            (λ same. next_layer-inj n (x ∷ w ∷ xs) (y ∷ z ∷ ys) h k d e same)))

module _ (codec : Codec) where
  length-next_layer-le : (xs : List Bytes) → length (next_layer codec xs) ≤ length xs
  unfolding next_layer
  length-next_layer-le [] = omega arith
  length-next_layer-le (x ∷ []) = omega arith
  length-next_layer-le (x ∷ y ∷ rest) = omega (arith, length-next_layer-le rest)

  -- As many rounds as there are nodes are enough.
  pub fold_layers_total :
      (rounds : ℕ) (x : Bytes) (xs : List Bytes)
      → length (x ∷ xs) ≤ rounds
      → (r : Bytes) × (fold_layers codec rounds (x ∷ xs) ≡ ok r)
  unfolding fold_layers next_layer
  fold_layers_total zero x xs h = absurd (omega (arith, h))
  fold_layers_total (suc rounds) x [] h = (x, refl)
  fold_layers_total (suc rounds) x (y ∷ rest) h =
      fold_layers_total rounds (node codec x y) (next_layer codec rest)
        (omega (arith, length-next_layer-le rest, h))
