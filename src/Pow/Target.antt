-- ===== src/Pow/Target.antt =====
-- The difficulty test counts zero bits; it is the comparison of the digest, as a number, with a target.
use native.Mathlib.Nat.{
  pow-succ', pow-le-pow_right, add-mul, mul_comm, mul_left_comm, mul_right_comm, mul-le-mul_left,
  mul-le-mul_right, mul-lt-mul_of_pos_right, le_trans, one-le-pow, zero-mul, zero-add,
}
use nexum.Prelude.{
  ℕ, zero, suc, ◌+◌, ◌-◌, ◌*◌, ◌^◌, ◌≤◌, ◌<◌, ◌≡◌, ◌↔◌, subst, [], ◌∷◌, arith, length, leb, true,
  Bool-cases, inl, inr,
}
use nexum.Std.{Bytes}
use nexum.Pow

-- The number that bytes stand for, the first the most significant.
abbrev pub value : Bytes → ℕ
value [] = 0
value (b ∷ bs) = b * 256 ^ length bs + value bs

abbrev pub AllBytes : Bytes → Type 0
AllBytes [] = Unit
AllBytes (b ∷ bs) = (b < 256) × AllBytes bs

byte_step : (b v l : ℕ) → b < 256 → v < l → b * l + v < 256 * l
byte_step b v l hb hv = grind arith

value-lt : (bs : Bytes) → AllBytes bs → value bs < 256 ^ length bs
value-lt [] h = omega arith
value-lt (b ∷ bs) h =
    rw (pow-succ' 256 (length bs)) (byte_step b (value bs) (256 ^ length bs) h.0 (value-lt bs h.1))

leading_zeros_from-add :
    (n : ℕ) (bs : Bytes) → Pow.leading_zeros_from n bs ≡ n + Pow.leading_zeros_from 0 bs
unfolding Pow.leading_zeros_from
leading_zeros_from-add n [] = omega arith
leading_zeros_from-add n (b ∷ bs) =
    ground (arith, leading_zeros_from-add (n + 8) bs, leading_zeros_from-add 8 bs)

-- A byte b above zero has k leading zeros where (b + 1) * 2 ^ k ≤ 256 ≤ b * 2 ^ (k + 1).
zeros8_at : (b : ℕ) → 0 < b → b < 256 → (b + 1) * 2 ^ Pow.leading_zeros8 b ≤ 256
unfolding Pow.leading_zeros8
zeros8_at b hb hl = ground arith

zeros8_past : (b : ℕ) → 0 < b → 256 ≤ b * 2 ^ suc (Pow.leading_zeros8 b)
unfolding Pow.leading_zeros8
zeros8_past b hb = ground arith

zeros8_upper : (b d : ℕ) → 0 < b → b < 256 → d ≤ Pow.leading_zeros8 b → (b + 1) * 2 ^ d ≤ 256
zeros8_upper b d hb hl h =
    let power : 2 ^ d ≤ 2 ^ Pow.leading_zeros8 b = pow-le-pow_right (omega arith) h in
    le_trans (mul-le-mul_left (b + 1) power) (zeros8_at b hb hl)

zeros8_lower : (b d : ℕ) → 0 < b → Pow.leading_zeros8 b < d → 256 ≤ b * 2 ^ d
zeros8_lower b d hb h =
    let power : 2 ^ suc (Pow.leading_zeros8 b) ≤ 2 ^ d =
      pow-le-pow_right (omega arith) (omega arith) in
    le_trans (zeros8_past b hb) (mul-le-mul_left b power)

scaled_lt : (b p l v : ℕ) → v < l → 0 < p → (b + 1) * p ≤ 256 → (b * l + v) * p < 256 * l
scaled_lt b p l v hv hp h =
    let bound : (b * p + p) * l ≤ 256 * l = mul-le-mul_right l (omega (arith, add-mul b 1 p, h)) in
    omega (
      arith,
      add-mul (b * l) v p,
      mul_right_comm b l p,
      mul-lt-mul_of_pos_right hv hp,
      bound,
      add-mul (b * p) p l,
      mul_comm p l,
    )

scaled_ge : (b p l v : ℕ) → 256 ≤ b * p → 256 * l ≤ (b * l + v) * p
scaled_ge b p l v h =
    let bound : 256 * l ≤ b * p * l = mul-le-mul_right l h in
    omega (arith, add-mul (b * l) v p, mul_right_comm b l p, bound)

pow-pos : (d : ℕ) → 0 < 2 ^ d
pow-pos d = one-le-pow d 2 (omega arith)

-- Eight zero bits more, against a target 256 times as large.
shift_byte : (e : ℕ) → 2 ^ (8 + e) ≡ 256 * 2 ^ e
shift_byte e =
    let eight : 8 + e ≡ suc (suc (suc (suc (suc (suc (suc (suc e))))))) = omega arith in
    rw eight (
      omega (
        arith,
        pow-succ' 2 (e),
        pow-succ' 2 (suc e),
        pow-succ' 2 (suc (suc e)),
        pow-succ' 2 (suc (suc (suc e))),
        pow-succ' 2 (suc (suc (suc (suc e)))),
        pow-succ' 2 (suc (suc (suc (suc (suc e))))),
        pow-succ' 2 (suc (suc (suc (suc (suc (suc e)))))),
        pow-succ' 2 (suc (suc (suc (suc (suc (suc (suc e))))))),
      ))

low_scaled : (d l v : ℕ) → d ≤ 8 → v < l → v * 2 ^ d < 256 * l
low_scaled d l v h hv =
    let power : 2 ^ d ≤ 2 ^ 8 = pow-le-pow_right (omega arith) h in
    let bound : v * 2 ^ d ≤ v * 256 = mul-le-mul_left v power in omega (arith, bound)

high_scaled : (q l v : ℕ) → (v * q < l) ↔ (v * (256 * q) < 256 * l)
high_scaled q l v =
    ((λ h. omega (arith, mul_left_comm v 256 q, h)), (λ h. omega (arith, mul_left_comm v 256 q, h)))

leb→le : (a b : ℕ) → leb a b ≡ true → a ≤ b
leb→le a b h = ground arith

-- The step for a zero byte in front.
zero_byte :
    (d l v top low high : ℕ)
    → v < l
    → top ≡ 256 * l
    → high ≡ 8 + low
    → ((e : ℕ) → d ≡ 8 + e → (e ≤ low) ↔ (v * 2 ^ e < l))
    → (d ≤ high) ↔ ((0 * l + v) * 2 ^ d < top)
zero_byte d l v top low high hv ht hh ih =
    rw (zero-mul l, zero-add v, ht, hh)
      (elim (Bool-cases (leb d 8)) [
        | inl few ↦
            ((λ k. low_scaled d l v (ground arith) hv), (λ k. omega (arith, leb→le d 8 few)))
        | inr many ↦
            let e : ℕ = d - 8 in
            let split : d ≡ 8 + e = ground arith in
            let here = ih e split in
            rw (split, shift_byte e)
              (
                (λ k. (high_scaled (2 ^ e) l v).0 (here.0 (omega (arith, k)))),
                (λ k. omega (arith, here.1 ((high_scaled (2 ^ e) l v).1 k))),
              )
      ])

-- A digest has d leading zero bits exactly when its number is below 2 ^ (8 * length - d).
zeros_iff :
    (bs : Bytes) (d : ℕ)
    → AllBytes bs
    → d ≤ 8 * length bs
    → (d ≤ Pow.leading_zeros_from 0 bs) ↔ (value bs * 2 ^ d < 256 ^ length bs)
unfolding Pow.leading_zeros_from
zeros_iff [] d h hd = ((λ k. omega (arith, zero-mul (2 ^ d))), (λ k. hd))
zeros_iff (zero ∷ bs) d h hd =
    zero_byte d (256 ^ length bs) (value bs) (256 ^ suc (length bs)) (Pow.leading_zeros_from 0 bs)
      (Pow.leading_zeros_from 8 bs) (value-lt bs h.1) (pow-succ' 256 (length bs))
      (leading_zeros_from-add 8 bs) (λ e he. zeros_iff bs e h.1 (omega (arith, hd)))
zeros_iff (suc b ∷ bs) d h hd =
    let p = pow-succ' 256 (length bs) in
    let v = value-lt bs h.1 in
    rw p (
      (λ k.
          scaled_lt (suc b) (2 ^ d) (256 ^ length bs) (value bs) v (pow-pos d)
            (zeros8_upper (suc b) d (omega arith) h.0 (ground arith))),
      (λ k. elim (Bool-cases (leb d (Pow.leading_zeros8 (suc b)))) [
        | inl within ↦ ground arith
        | inr beyond ↦
            let far = zeros8_lower (suc b) d (omega arith) (ground arith) in
            let over = scaled_ge (suc b) (2 ^ d) (256 ^ length bs) (value bs) far in
            absurd (omega (arith, k, over))
      ]),
    )

-- The loop of `leadingZeros` against the target: for a digest of 32 bytes and a difficulty d of at
-- most 256 bits, at least d leading zero bits are counted exactly when the digest, read as a
-- big-endian number, times 2 ^ d is below 2 ^ 256.
pub leading_zeros-le_iff :
    (bs : Bytes) (d : ℕ)
    → AllBytes bs
    → length bs ≡ 32
    → d ≤ 256
    → (d ≤ Pow.leading_zeros bs) ↔ (value bs * 2 ^ d < 2 ^ 256)
unfolding Pow.leading_zeros
leading_zeros-le_iff bs d h len hd =
    subst (λ (n : ℕ). (d ≤ Pow.leading_zeros bs) ↔ (value bs * 2 ^ d < 256 ^ n)) len
      (unfold Pow.leading_zeros in zeros_iff bs d h (omega (arith, len)))
