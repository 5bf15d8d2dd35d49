-- ===== src/L2/Collision.antt =====
-- Two inputs of a digest, and what follows where their digests are equal.
use nexum.Prelude.{◌≡◌, ◌≢◌, ◌⊎◌, inl, inr}
use nexum.Std.{Bytes}
use nexum.Std.Equality.{Bytes-cases}

-- Two different byte strings with one digest.
pub record Collision (digest : Bytes → Bytes) : Type 0 where
  pub left : Bytes
  pub right : Bytes
  pub differ : left ≢ right
  pub same : digest left ≡ digest right

pub collide :
    (digest : Bytes → Bytes) (a b : Bytes) → digest a ≡ digest b → Collision digest ⊎ (a ≡ b)
collide digest a b h = elim (Bytes-cases a b) [
  | inl same ↦ inr same
  | inr other ↦ inl (record { left = a; right = b; differ = other; same = h })
]

-- A fact that holds unless the digest collides, and what follows from it.
abbrev pub unless {ℓ κ} : {C : Type 0} {A : Type ℓ} {B : Type κ} → C ⊎ A → (A → C ⊎ B) → C ⊎ B
unless (inl c) f = inl c
unless (inr a) f = f a
