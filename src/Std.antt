-- ===== src/Std.antt =====
-- What the code takes from Go's standard library. What computes simply is defined (math/big on
-- numbers of zero or more, byte strings); digests, encodings, time formats and floats are a
-- parameter, a `Std`. A `time.Time` is the number of nanoseconds since Go's zero time, so `IsZero`
-- is 0 and `UTC` keeps the number; a `float64` is its bit pattern, and 0 is the pattern of 0.0.
pub mod RoundTrip
pub mod Equality
pub mod Texts
use Prim.Native.Char.{code}
use nexum.Prelude.{
  ℕ, zero, suc, ◌+◌, ◌*◌, ◌/◌, ◌%◌, ◌^◌, String, Bool, Option, none, some, List, [], ◌∷◌, ◌++◌, ltb,
  nat_eq, if◌then◌else◌, true, false, ◌-◌, ◌&&◌,
}
use nexum.Prelude.Int.{ℤ, sub_ℕ}

abbrev pub Bytes : Type 0
Bytes = List ℕ

abbrev pub Time : Type 0
Time = ℕ

abbrev pub Float64 : Type 0
Float64 = ℕ

-- `sha256_hex` is hex.EncodeToString of sha256.Sum256 of the bytes of a text, `decimal` the verb %d,
-- `float_lt` the order on floats, and the two proof functions json.Marshal and json.Unmarshal at
-- internal/he's zkProof.
pub record Std : Type 0 where
  pub sha256 : Bytes → Bytes
  pub sha256_hex : String → String
  pub decimal : ℤ → String
  pub rfc3339 : Time → String
  pub rfc3339_nano : Time → String
  pub base64 : Bytes → String
  pub float_lt : Float64 → Float64 → Bool
  pub marshal_proof : Bytes × Bytes → Bytes
  pub unmarshal_proof : Bytes → Option (Bytes × Bytes)

-- A slice from an index on.
abbrev pub drop : ℕ → Bytes → Bytes
drop zero bs = bs
drop (suc n) [] = []
drop (suc n) (b ∷ bs) = drop n bs

abbrev pub is_zero_time : Time → Bool
is_zero_time t = nat_eq t 0

-- t.Before(u)
abbrev pub before : Time → Time → Bool
before t u = ltb t u

-- x.Bytes(), big-endian with no leading zero; `fuel` is at least the number of bytes.
digits256 : ℕ → ℕ → Bytes
digits256 zero n = []
digits256 (suc fuel) n =
    let high = digits256 fuel (n / 256) in if nat_eq n 0 then [] else high ++ (n % 256) ∷ []

unfoldable pub big_bytes : ℕ → Bytes
unfolding digits256
big_bytes n = digits256 n n

-- new(big.Int).SetBytes(b)
unfoldable pub set_bytes_from : ℕ → Bytes → ℕ
set_bytes_from acc [] = acc
set_bytes_from acc (b ∷ bs) = set_bytes_from (acc * 256 + b) bs

unfoldable pub set_bytes : Bytes → ℕ
unfolding set_bytes_from
set_bytes bs = set_bytes_from 0 bs

-- Exp(b, e, m)
unfoldable pub exp_mod : ℕ → ℕ → ℕ → ℕ
exp_mod b e m = (b ^ e) % m

gcd_steps : ℕ → ℕ → ℕ → ℕ
gcd_steps zero a b = a
gcd_steps (suc fuel) a b = let rest = gcd_steps fuel b (a % b) in if nat_eq b 0 then a else rest

-- GCD(nil, nil, a, b): each round takes the second number below itself.
unfoldable pub gcd : ℕ → ℕ → ℕ
unfolding gcd_steps
gcd a b = gcd_steps (suc b) a b

-- The search tries x = k - 1, ..., 0.
inverse_below : ℕ → ℕ → ℕ → Option ℕ
inverse_below a n zero = none
inverse_below a n (suc k) =
    let rest = inverse_below a n k in if nat_eq ((a * k) % n) (1 % n) then some k else rest

-- ModInverse(a, n): the inverse of a in [0, n), or nil.
unfoldable pub mod_inverse : ℕ → ℕ → Option ℕ
unfolding inverse_below
mod_inverse a n = inverse_below a n n

-- The UTF-8 form of a character, by its code.
abbrev pub utf8 : ℕ → Bytes
utf8 c =
    if ltb c 128
    then c ∷ []
    else if ltb c 2048
    then (192 + c / 64) ∷ (128 + c % 64) ∷ []
    else if ltb c 65536
    then (224 + c / 4096) ∷ (128 + c / 64 % 64) ∷ (128 + c % 64) ∷ []
    else (240 + c / 262144) ∷ (128 + c / 4096 % 64) ∷ (128 + c / 64 % 64) ∷ (128 + c % 64) ∷ []

-- []byte(text)
abbrev pub text_bytes : String → Bytes
text_bytes String.[] = []
text_bytes (String.◌∷◌ c s) = utf8 (code c) ++ text_bytes s

-- bytes.Equal, and the comparison of arrays of bytes.
abbrev pub bytes_eq : Bytes → Bytes → Bool
bytes_eq [] [] = true
bytes_eq [] (b ∷ bs) = false
bytes_eq (a ∷ as_) [] = false
bytes_eq (a ∷ as_) (b ∷ bs) = nat_eq a b && bytes_eq as_ bs

-- now.Unix(): the seconds since 1970, which is 62135596800 seconds after Go's zero time.
abbrev pub unix_seconds : Time → ℤ
unix_seconds t = sub_ℕ (t / 1000000000) 62135596800
