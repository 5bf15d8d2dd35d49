-- ===== src/Std/Equality.antt =====
-- The comparison of byte strings decides equality.
use nexum.Prelude.{
  ℕ, ◌≡◌, ◌≢◌, ◌⊎◌, inl, inr, refl, List, [], ◌∷◌, true, arith, nat_eq_refl, Bool-cases, length,
  ◌++◌,
}
use nexum.Std.{Bytes, bytes_eq, drop}

pub bytes_eq_sound : (as_ bs : List ℕ) → bytes_eq as_ bs ≡ true → as_ ≡ bs
bytes_eq_sound [] [] h = refl
bytes_eq_sound [] (b ∷ bs) h = cc
bytes_eq_sound (a ∷ as_) [] h = cc
bytes_eq_sound (a ∷ as_) (b ∷ bs) h = ground (arith, bytes_eq_sound as_ bs)

pub bytes_eq_refl : (bs : Bytes) → bytes_eq bs bs ≡ true
bytes_eq_refl [] = refl
bytes_eq_refl (b ∷ bs) = ground (arith, nat_eq_refl b, bytes_eq_refl bs)

pub Bytes-cases : (a b : Bytes) → (a ≡ b) ⊎ (a ≢ b)
Bytes-cases a b = elim (Bool-cases (bytes_eq a b)) [
  | inl same ↦ inl (bytes_eq_sound a b same)
  | inr other ↦ inr (λ e. ground (arith, bytes_eq_refl b))
]

-- Two byte strings of one length at the front of equal byte strings.
pub append_inj :
    (as_ bs cs ds : Bytes) → length as_ ≡ length bs → as_ ++ cs ≡ bs ++ ds → (as_ ≡ bs) × (cs ≡ ds)
append_inj [] [] cs ds l h = (refl, h)
append_inj [] (b ∷ bs) cs ds l h = absurd (omega (arith, l))
append_inj (a ∷ as_) [] cs ds l h = absurd (omega (arith, l))
append_inj (a ∷ as_) (b ∷ bs) cs ds l h =
    ground (arith, append_inj as_ bs cs ds (omega (arith, l)) (cc))

-- A slice behind the bytes in front.
pub drop-append : (xs ys : Bytes) → drop (length xs) (xs ++ ys) ≡ ys
drop-append [] ys = refl
drop-append (x ∷ xs) ys = drop-append xs ys
