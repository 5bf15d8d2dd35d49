-- ===== src/Settlement/Root.antt =====
-- The settlement root: its rounds are enough, and what it does not bind.
use mathlib.Core.List.{map-append}
use nexum.Prelude.{
  ℕ, zero, suc, String, ◌≤◌, ◌≡◌, refl, sym, ap, ◌∙◌, some, List, [], ◌∷◌, ◌++◌, length, map, arith,
  length-snoc,
}
use nexum.Std.{Std, Bytes}
use nexum.Settlement.{Hex, pad, hash_pairs, top_node, layer_leaf, settlement_root}

-- A list of an odd length, at least three, whose last item is `x`.
pub data OddEnding {ℓ} {A : Type ℓ} (x : A) : List A → Type ℓ where
  three : (a b : A) → OddEnding x (a ∷ b ∷ x ∷ [])
  longer : (a b : A) {l : List A} → OddEnding x l → OddEnding x (a ∷ b ∷ l)

OddEnding-map {ℓ κ} :
    {A : Type ℓ} {B : Type κ} (f : A → B) {x : A} {l : List A}
    → OddEnding x l
    → OddEnding (f x) (map f l)
OddEnding-map f (three a b) = three (f a) (f b)
OddEnding-map f (longer a b o) = longer (f a) (f b) (OddEnding-map f o)

length-map {ℓ κ} : {A : Type ℓ} {B : Type κ} (f : A → B) (l : List A) → length (map f l) ≡ length l
length-map f [] = refl
length-map f (x ∷ l) = omega (arith, length-map f l)

module _ (std : Std) (hex : Hex) where
  -- The layer is padded to what it would be with its last item once more.
  pad-repeat :
      {x : Bytes} {l : List Bytes} → OddEnding x l → pad std hex (l ++ x ∷ []) ≡ pad std hex l
  pad-repeat {x} (three a b) = refl
  pad-repeat {x} (longer a b o) = ap (λ r. a ∷ b ∷ r) (pad-repeat o)

  length-hash_pairs-pad : (l : List Bytes) → length (hash_pairs std hex (pad std hex l)) ≤ length l
  length-hash_pairs-pad [] = omega arith
  length-hash_pairs-pad (x ∷ []) = omega arith
  length-hash_pairs-pad (x ∷ y ∷ rest) = omega (arith, length-hash_pairs-pad rest)

  -- One more round changes nothing once there are as many as nodes.
  top_node_enough :
      (rounds more : ℕ) (x : Bytes) (l : List Bytes)
      → length (x ∷ l) ≤ rounds
      → length (x ∷ l) ≤ more
      → (t : Bytes) × (top_node std hex rounds (x ∷ l) ≡ some t)
        × (top_node std hex more (x ∷ l) ≡ some t)
  unfolding top_node
  top_node_enough zero more x l h k = absurd (omega (arith, h))
  top_node_enough (suc rounds) zero x l h k = absurd (omega (arith, k))
  top_node_enough (suc rounds) (suc more) x [] h k = (x, refl, refl)
  top_node_enough (suc rounds) (suc more) x (y ∷ rest) h k =
      top_node_enough rounds more (std.sha256 (x ++ y)) (hash_pairs std hex (pad std hex rest))
        (omega (arith, length-hash_pairs-pad rest, h))
        (omega (arith, length-hash_pairs-pad rest, k))

  -- Root returns: every list of hashes has one, within as many rounds as it has hashes.
  pub settlement_root_total :
      (hs : List String) → (r : String) × (settlement_root std hex hs ≡ some r)
  unfolding settlement_root
  settlement_root_total [] = (hex.encode (std.sha256 []), refl)
  settlement_root_total (h ∷ hs) =
      let leaves = map (layer_leaf std hex) hs in
      let (t, found, again) =
        top_node_enough (length (h ∷ hs)) (length (h ∷ hs)) (layer_leaf std hex h) leaves
          (omega (arith, length-map (layer_leaf std hex) hs))
          (omega (arith, length-map (layer_leaf std hex) hs)) in
      (hex.encode t, ground (arith, found))

  -- The layers above two that pad to one list are the same.
  top_node_padded :
      (n : ℕ) (a b x : Bytes) (rest : List Bytes)
      → length rest ≤ n
      → pad std hex (a ∷ b ∷ (rest ++ x ∷ [])) ≡ pad std hex (a ∷ b ∷ rest)
      → top_node std hex (suc (suc (suc n))) (a ∷ b ∷ (rest ++ x ∷ []))
        ≡ top_node std hex (suc (suc n)) (a ∷ b ∷ rest)
  unfolding top_node
  top_node_padded n a b x rest few same =
      let above = hash_pairs std hex (pad std hex rest) in
      let (t, found, again) =
        top_node_enough (suc (suc n)) (suc n) (std.sha256 (a ++ b)) above
          (omega (arith, length-hash_pairs-pad rest, few))
          (omega (arith, length-hash_pairs-pad rest, few)) in
      ap (λ l. top_node std hex (suc (suc n)) (hash_pairs std hex l)) same ∙ found ∙ sym again

  top_node_repeats :
      (hs : List String) (x : String)
      → OddEnding x hs
      → top_node std hex (length (hs ++ x ∷ [])) (map (layer_leaf std hex) (hs ++ x ∷ []))
        ≡ top_node std hex (length hs) (map (layer_leaf std hex) hs)
  top_node_repeats (a ∷ b ∷ rest) x odd =
      rw (length-snoc rest x, map-append (layer_leaf std hex) rest (x ∷ []))
        (top_node_padded (length rest) (layer_leaf std hex a) (layer_leaf std hex b)
          (layer_leaf std hex x) (map (layer_leaf std hex) rest)
          (omega (arith, length-map (layer_leaf std hex) rest))
          (pad-repeat (OddEnding-map (layer_leaf std hex) odd)))
  top_node_repeats [] x odd = elim odd [ ]
  top_node_repeats (a ∷ []) x odd = elim odd [ ]

  -- The root does not bind its list: a list of an odd length of at least three, and the same list with its
  -- last hash once more, have one Root, so that a settlement of one is a settlement of the other.
  pub settlement_root_repeats :
      (hs : List String) (x : String)
      → OddEnding x hs
      → settlement_root std hex (hs ++ x ∷ []) ≡ settlement_root std hex hs
  unfolding settlement_root
  settlement_root_repeats [] x odd = elim odd [ ]
  settlement_root_repeats (a ∷ rest) x odd = ground (arith, top_node_repeats (a ∷ rest) x odd)
