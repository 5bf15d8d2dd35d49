-- ===== src/Pow.antt =====
-- internal/pow/pow.go: the header that is sealed, its difficulty test, and the search for a nonce by
-- concurrent workers. quarry/keccak is a copy of a library: its digest is a parameter.
pub mod Target
pub mod Search
use nexum.Prelude.{
  ℕ, zero, suc, ◌+◌, ◌-◌, ◌*◌, ◌/◌, ◌%◌, ◌^◌, Bool, true, false, not, ◌||◌, List, [], ◌∷◌, ◌++◌,
  ltb, leb, nat_eq, if◌then◌else◌,
}
use nexum.Prelude.Int.{ℤ, pos, negsuc, leb_ℤ, ltb_ℤ}
use nexum.Errors.{Result, ok, err, bad_difficulty, search_failed}
use nexum.Std.{Bytes}

-- The two digests are arrays of 32 bytes; `nonce` is a uint64.
pub record Header : Type 0 where
  pub parent : Bytes
  pub batch_root : Bytes
  pub time_unix : ℤ
  pub diff_bits : ℤ
  pub nonce : ℕ

-- The conversion of an int64 to an unsigned number below `modulus`.
abbrev pub wrap : ℕ → ℤ → ℕ
wrap modulus (pos n) = n % modulus
wrap modulus (negsuc n) = modulus - 1 - n % modulus

-- binary.BigEndian.PutUint64 and PutUint32: the last `width` bytes of a number.
abbrev pub be_bytes : ℕ → ℕ → Bytes
be_bytes zero n = []
be_bytes (suc width) n = be_bytes width (n / 256) ++ (n % 256) ∷ []

-- The zero value of an array of 32 bytes.
abbrev pub zero_digest : Bytes
zero_digest = be_bytes 32 0

-- What `Hash` writes, in order.
unfoldable pub header_bytes : Header → Bytes
header_bytes h =
    h.parent
    ++ (h.batch_root
        ++ (be_bytes 8 (wrap (2 ^ 64) h.time_unix)
            ++ (be_bytes 4 (wrap (2 ^ 32) h.diff_bits) ++ be_bytes 8 h.nonce)))

-- bits.LeadingZeros8
unfoldable pub leading_zeros8 : ℕ → ℕ
leading_zeros8 b =
    if ltb b 1
    then 8
    else if ltb b 2
    then 7
    else if ltb b 4
    then 6
    else if ltb b 8
    then 5
    else if ltb b 16
    then 4
    else if ltb b 32
    then 3
    else if ltb b 64
    then 2
    else if ltb b 128
    then 1
    else 0

-- The loop of `leadingZeros` from its count `n`.
leading_zeros_from : ℕ → Bytes → ℕ
leading_zeros_from n [] = n
leading_zeros_from n (b ∷ rest) =
    let more = leading_zeros_from (n + 8) rest in if nat_eq b 0 then more else n + leading_zeros8 b

unfoldable pub leading_zeros : Bytes → ℕ
unfolding leading_zeros_from leading_zeros8
leading_zeros sum = leading_zeros_from 0 sum

-- `Search` before its workers start: the bounds of the difficulty.
abbrev pub in_bounds : Header → Bool
in_bounds h = not (ltb_ℤ h.diff_bits (pos 0) || ltb_ℤ (pos 64) h.diff_bits)

module _ (keccak : Bytes → Bytes) where
  unfoldable pub header_hash : Header → Bytes
  header_hash h = keccak (header_bytes h)

  unfoldable pub valid : Header → Bool
  valid h =
      if ltb_ℤ h.diff_bits (pos 0)
      then false
      else leb_ℤ h.diff_bits (pos (leading_zeros (header_hash h)))

  -- `Search` after its workers have ended, where `found` is the number that they left.
  unfoldable pub search_result : Header → ℕ → Result (Header × ℕ)
  search_result h found =
      if not (in_bounds h)
      then err bad_difficulty
      else if not (valid (record h { nonce = found }))
      then err search_failed
      else ok (record h { nonce = found }, found)
