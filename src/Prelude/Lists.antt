-- ===== src/Prelude/Lists.antt =====
-- Lists measured and indexed by native numbers, under the library's names, and predicates on lists.
use Prim.Native.Nat.{ℕ, zero, suc, ◌+◌}
use mathlib.Core.Path.{◌≡◌, refl, ap}
use mathlib.Core.List.{List, [], ◌∷◌, ◌++◌}
use mathlib.Core.Option.{Option, none, some}
use native.Mathlib.Omega.{arith}

module _ {ℓ} {A : Type ℓ} where
  abbrev pub length : List A → ℕ
  length [] = 0
  length (x ∷ xs) = suc (length xs)

  abbrev pub get_elem? : List A → ℕ → Option A
  get_elem? [] i = none
  get_elem? (x ∷ xs) zero = some x
  get_elem? (x ∷ xs) (suc i) = get_elem? xs i

  pub length-append : (xs ys : List A) → length (xs ++ ys) ≡ length xs + length ys
  length-append [] ys = omega arith
  length-append (x ∷ xs) ys = omega (arith, length-append xs ys)

  pub length-snoc : (xs : List A) (y : A) → length (xs ++ y ∷ []) ≡ suc (length xs)
  length-snoc xs y = omega (arith, length-append xs (y ∷ []))

module _ {ℓ} {A : Type ℓ} where
  abbrev pub take : ℕ → List A → List A
  take zero xs = []
  take (suc n) [] = []
  take (suc n) (x ∷ xs) = x ∷ take n xs

  -- A list begins with the first `length xs` of its items: `take (length xs) ys ≡ xs`.
  pub take-append : (xs ys : List A) → take (length xs) (xs ++ ys) ≡ xs
  take-append [] ys = refl
  take-append (x ∷ xs) ys = ap (λ l. x ∷ l) (take-append xs ys)

  pub take-length : (xs : List A) → take (length xs) xs ≡ xs
  take-length [] = refl
  take-length (x ∷ xs) = ap (λ l. x ∷ l) (take-length xs)

  pub take_trans :
      (xs ys zs : List A)
      → take (length xs) ys ≡ xs
      → take (length ys) zs ≡ ys
      → take (length xs) zs ≡ xs
  take_trans [] ys zs h k = refl
  take_trans (x ∷ xs) [] zs h k = cc
  take_trans (x ∷ xs) (y ∷ ys) [] h k = cc
  take_trans (x ∷ xs) (y ∷ ys) (z ∷ zs) h k =
      let same : x ≡ z = ground arith in
      let rest : take (length xs) zs ≡ xs = take_trans xs ys zs (ground arith) (ground arith) in
      ground arith

  -- An item of the first n is an item.
  pub get_elem?-take :
      (n : ℕ) (xs : List A) (i : ℕ) {x : A}
      → get_elem? (take n xs) i ≡ some x
      → get_elem? xs i ≡ some x
  get_elem?-take zero xs i h = cc
  get_elem?-take (suc n) [] i h = h
  get_elem?-take (suc n) (x ∷ xs) zero h = h
  get_elem?-take (suc n) (x ∷ xs) (suc i) h = get_elem?-take n xs i h

  pub get_elem?-snoc : (xs : List A) (y : A) → get_elem? (xs ++ y ∷ []) (length xs) ≡ some y
  get_elem?-snoc [] y = refl
  get_elem?-snoc (x ∷ xs) y = get_elem?-snoc xs y
