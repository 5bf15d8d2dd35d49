-- ===== src/He.antt =====
-- internal/he: additive Paillier encryption (paillier.go) and its private checkpoint
-- (checkpoint.go). A `big.Int` that the code keeps at zero or more is a number. Random draws are
-- arguments; `none` is a reader that fails.
use nexum.Prelude.{
  ℕ, ◌+◌, ◌-◌, ◌*◌, ◌/◌, ◌%◌, Bool, false, ◌||◌, Option, none, some, List, [], ◌∷◌, ◌++◌, length,
  leb, ltb, nat_eq, not, if◌then◌else◌,
}
use nexum.Prelude.Int.{ℤ, pos, negsuc}
use nexum.Errors.{Result, ok, err, keygen, enc_failed, dec_failed, add_failed, noise, bad_key}
use nexum.Std.{Std, Bytes, big_bytes, set_bytes, exp_mod, gcd, mod_inverse, text_bytes}

pub record Paillier : Type 0 where
  pub n : ℕ
  pub n2 : ℕ
  pub g : ℕ
  pub lambda : ℕ
  pub mu : ℕ

unfoldable pub p_minus1 : ℕ → ℕ
p_minus1 x = x - 1

unfoldable pub lcm : ℕ → ℕ → ℕ
lcm a b = (a * b) / gcd a b

-- The body of the key loop at two distinct primes; `none` is its `continue`.
key_of_primes : ℕ → ℕ → Option Paillier
unfolding p_minus1 lcm
key_of_primes p q =
    let n = p * q in
    let lambda = lcm (p_minus1 p) (p_minus1 q) in
    let l = (exp_mod (n + 1) lambda (n * n) - 1) / n in
    elim (mod_inverse l n) [
      | none ↦ none
      | some mu ↦ some (record { n = n; n2 = n * n; g = n + 1; lambda = lambda; mu = mu })
    ]

-- The key loop over the pairs of primes that the reader yields; past the last pair it fails.
key_loop : List (Option ℕ × Option ℕ) → Result Paillier
key_loop [] = err keygen
key_loop ((none, q) ∷ rest) = err keygen
key_loop ((some p, none) ∷ rest) = err keygen
key_loop ((some p, some q) ∷ rest) =
    let again = key_loop rest in
    if nat_eq p q then again else elim (key_of_primes p q) [ none ↦ again | some key ↦ ok key ]

-- `primes` is what rand.Prime yields at the bit length that is asked for.
unfoldable pub new_paillier : ℕ → (ℕ → List (Option ℕ × Option ℕ)) → Result Paillier
unfolding key_loop key_of_primes
new_paillier bits primes = key_loop (primes ((if ltb bits 1024 then 2048 else bits) / 2))

-- The ciphertext number g^m * r^n mod n^2.
unfoldable pub cipher : Paillier → ℕ → ℕ → ℕ
cipher p m r = (exp_mod p.g m p.n2 * exp_mod r p.n p.n2) % p.n2

unfoldable pub encrypt : Paillier → ℤ → Option ℕ → Result Bytes
unfolding cipher
encrypt p (negsuc m) draw = err enc_failed
encrypt p (pos m) none = err enc_failed
encrypt p (pos m) (some r) =
    if leb p.n m
    then err enc_failed
    else if nat_eq r 0
    then err enc_failed
    else ok (big_bytes (cipher p m r))

unfoldable pub add : Paillier → Bytes → Bytes → Result Bytes
add p a b =
    let ca = set_bytes a in
    let cb = set_bytes b in
    if nat_eq ca 0 || nat_eq cb 0 || leb p.n2 ca || leb p.n2 cb
    then err add_failed
    else ok (big_bytes ((ca * cb) % p.n2))

-- L may be -1, where the power is 0; `Div` and `Mod` are Euclidean.
unfoldable pub decrypt : Paillier → Bytes → Result ℕ
decrypt p c =
    let ct = set_bytes c in
    let x = exp_mod ct p.lambda p.n2 in
    if nat_eq ct 0 || leb p.n2 ct
    then err dec_failed
    else if nat_eq x 0
    then ok ((p.n - p.mu % p.n) % p.n)
    else ok ((((x - 1) / p.n) * p.mu) % p.n)

unfoldable pub mul : Paillier → Bytes → Bytes → Result Bytes
mul p a b = err noise

unfoldable pub encrypt_with_r : Paillier → ℤ → ℕ → Result Bytes
unfolding cipher
encrypt_with_r p (negsuc m) r = err enc_failed
encrypt_with_r p (pos m) r =
    if leb p.n m
    then err enc_failed
    else if nat_eq r 0 || leb p.n r
    then err enc_failed
    else if not (nat_eq (gcd r p.n) 1)
    then err enc_failed
    else ok (big_bytes (cipher p m r))

module _ (std : Std) where
  unfoldable pub zk_challenge : Bytes → Bytes → Bytes → ℕ → ℕ
  zk_challenge ct m commit modulus =
      let hash = std.sha256 (text_bytes "nex/zk-equal-v1" ++ (ct ++ (m ++ commit))) in
      let e = set_bytes hash % modulus in if nat_eq e 0 then 1 else e

  -- `draw` is the blinding number s.
  unfoldable pub prove_equal : Paillier → Bytes → ℤ → ℕ → Option ℕ → Result Bytes
  unfolding zk_challenge
  prove_equal p ct (negsuc m) r draw = err enc_failed
  prove_equal p ct (pos m) r draw =
      let c = set_bytes ct in
      if nat_eq c 0 || leb p.n2 c
      then err enc_failed
      else if leb p.n m
      then err enc_failed
      else if nat_eq r 0 || leb p.n r
      then err enc_failed
      else elim draw [
        | none ↦ err enc_failed
        | some s ↦
            let a = exp_mod s p.n p.n2 in
            let e = zk_challenge ct (big_bytes m) (big_bytes a) p.n in
            let z = (exp_mod r e p.n * s) % p.n in
            if nat_eq s 0 then err enc_failed else ok (std.marshal_proof (big_bytes a, big_bytes z))
      ]

  -- The check of a decoded proof: z^n = a * (ct / g^m)^e mod n^2.
  check_proof : Paillier → Bytes → ℕ → ℕ → ℕ → Bool
  unfolding zk_challenge
  check_proof p ct m a z =
      let e = zk_challenge ct (big_bytes m) (big_bytes a) p.n in
      elim (mod_inverse (exp_mod p.g m p.n2) p.n2) [
        | none ↦ false
        | some inverse ↦
            let rn = (set_bytes ct * inverse) % p.n2 in
            nat_eq (exp_mod z p.n p.n2) ((exp_mod rn e p.n2 * a) % p.n2)
      ]

  -- It never returns an error: a malformed proof is no proof.
  unfoldable pub verify_equal : Paillier → Bytes → ℤ → Bytes → Result Bool
  unfolding check_proof
  verify_equal p ct (negsuc m) proof = ok false
  verify_equal p ct (pos m) proof = elim (std.unmarshal_proof proof) [
    | none ↦ ok false
    | some (a_bytes, z_bytes) ↦
        let c = set_bytes ct in
        let a = set_bytes a_bytes in
        let z = set_bytes z_bytes in
        if nat_eq c 0 || leb p.n2 c
        then ok false
        else if leb p.n m
        then ok false
        else if nat_eq a 0 || leb p.n2 a || leb p.n z
        then ok false
        else ok (check_proof p ct m a z)
  ]

-- he.PrivateState
pub record KeyState : Type 0 where
  pub n : Bytes
  pub lambda : Bytes
  pub mu : Bytes

unfoldable pub private_state : Paillier → KeyState
private_state p = record { n = big_bytes p.n; lambda = big_bytes p.lambda; mu = big_bytes p.mu }

unfoldable pub restore_private : KeyState → Result Paillier
restore_private s =
    let n = set_bytes s.n in
    let lambda = set_bytes s.lambda in
    let mu = set_bytes s.mu in
    if ltb (length s.n) 128
      || ltb 1024 (length s.n)
      || ltb (length s.n) (length s.lambda)
      || ltb (length s.n) (length s.mu)
    then err bad_key
    else if nat_eq (n % 2) 0 || nat_eq lambda 0 || leb n lambda || nat_eq mu 0 || leb n mu
    then err bad_key
    else elim (mod_inverse lambda n) [
      | none ↦ err bad_key
      | some inverse ↦
          if nat_eq inverse mu
          then ok (record { n = n; n2 = n * n; g = n + 1; lambda = lambda; mu = mu })
          else err bad_key
    ]
