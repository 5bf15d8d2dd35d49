-- ===== src/Std/RoundTrip.antt =====
-- internal/he and internal/settle: the bytes of a number, and the private state of a ledger.
use nexum.Prelude.{
  ℕ, zero, suc, ◌+◌, ◌*◌, ◌/◌, ◌%◌, ◌≤◌, ◌≡◌, refl, [], ◌∷◌, ◌++◌, arith, length, length-snoc,
  nat_eq, if_cases,
}
use nexum.Std
use nexum.Std.{Bytes, set_bytes_from, set_bytes, big_bytes}

set_bytes_from-snoc :
    (acc : ℕ) (bs : Bytes) (b : ℕ)
    → set_bytes_from acc (bs ++ b ∷ []) ≡ set_bytes_from acc bs * 256 + b
unfolding set_bytes_from
set_bytes_from-snoc acc [] b = refl
set_bytes_from-snoc acc (x ∷ bs) b = set_bytes_from-snoc (acc * 256 + x) bs b

set_bytes_from-digits256 : (fuel n : ℕ) → n ≤ fuel → set_bytes_from 0 (Std.digits256 fuel n) ≡ n
unfolding set_bytes_from Std.digits256
set_bytes_from-digits256 zero n h = omega (arith, h)
set_bytes_from-digits256 (suc fuel) n h =
    if_cases (λ bs. set_bytes_from 0 bs ≡ n) (nat_eq n 0) (λ z. ground arith)
      (λ z.
        let less : n / 256 ≤ fuel = ground arith in
        let high = set_bytes_from-digits256 fuel (n / 256) less in
        rw (set_bytes_from-snoc 0 (Std.digits256 fuel (n / 256)) (n % 256), high) (omega arith))

pub set_bytes-big_bytes : (n : ℕ) → set_bytes (big_bytes n) ≡ n
unfolding set_bytes big_bytes
set_bytes-big_bytes n = set_bytes_from-digits256 n n (omega arith)

length-digits256-le :
    (f g m n : ℕ) → m ≤ n → m ≤ f → n ≤ g → length (Std.digits256 f m) ≤ length (Std.digits256 g n)
unfolding Std.digits256
length-digits256-le zero g m n h hf hg = omega arith
length-digits256-le (suc f) zero m n h hf hg = ground arith
length-digits256-le (suc f) (suc g) m n h hf hg =
    let high = length-digits256-le f g (m / 256) (n / 256) in
    ground (
      arith,
      high,
      length-snoc (Std.digits256 f (m / 256)) (m % 256),
      length-snoc (Std.digits256 g (n / 256)) (n % 256),
    )

-- A smaller number has no more bytes.
pub length-big_bytes-le : (m n : ℕ) → m ≤ n → length (big_bytes m) ≤ length (big_bytes n)
unfolding big_bytes
length-big_bytes-le m n h = length-digits256-le m n m n h (omega arith) (omega arith)
