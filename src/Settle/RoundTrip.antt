-- ===== src/Settle/RoundTrip.antt =====
-- internal/settle/checkpoint.go and internal/he/checkpoint.go: a ledger comes back from its private
-- state.
use nexum.Prelude.{ℕ, ◌+◌, ◌*◌, ◌%◌, ◌≤◌, ◌<◌, ◌≡◌, refl, some, List, [], ◌∷◌, map, arith, length}
use nexum.Errors.{ok}
use nexum.Std.{big_bytes, gcd, mod_inverse}
use nexum.Std.RoundTrip.{set_bytes-big_bytes, length-big_bytes-le}
use nexum.He
use nexum.He.{Paillier}
use nexum.Settle
use nexum.Settle.{EncryptedLedger}

-- A key of 128 to 1024 bytes with the generator n + 1, whose `mu` inverts `lambda`.
pub record KeyFormed (p : Paillier) : Type 0 where
  pub square : p.n2 ≡ p.n * p.n
  pub generator : p.g ≡ p.n + 1
  pub wide : 128 ≤ length (big_bytes p.n)
  pub narrow : length (big_bytes p.n) ≤ 1024
  pub odd : p.n % 2 ≡ 1
  pub lambda_range : (0 < p.lambda) × (p.lambda < p.n)
  pub mu_range : (0 < p.mu) × (p.mu < p.n)
  pub inverse : mod_inverse p.lambda p.n ≡ some p.mu

key_round_trip : (p : Paillier) → KeyFormed p → He.restore_private (He.private_state p) ≡ ok p
unfolding He.restore_private He.private_state
key_round_trip p k = ground (
  arith,
  set_bytes-big_bytes p.n,
  set_bytes-big_bytes p.lambda,
  set_bytes-big_bytes p.mu,
  length-big_bytes-le p.lambda p.n,
  length-big_bytes-le p.mu p.n,
)

-- Every number is a unit below n.
abbrev pub AllUnits : ℕ → List ℕ → Type 0
AllUnits n [] = Unit
AllUnits n (r ∷ rs) = (0 < r) × (r < n) × (gcd r n ≡ 1) × AllUnits n rs

randomness_round_trip :
    (n : ℕ) (rs : List ℕ)
    → AllUnits n rs
    → Settle.restore_randomness n (length (big_bytes n)) (map big_bytes rs) ≡ ok rs
unfolding Settle.restore_randomness
randomness_round_trip n [] u = refl
randomness_round_trip n (r ∷ rs) u =
    rw (set_bytes-big_bytes r, randomness_round_trip n rs u.3)
      (ground (arith, u.2, length-big_bytes-le r n))

pub length-map : (rs : List ℕ) → length (map big_bytes rs) ≡ length rs
length-map [] = refl
length-map (r ∷ rs) = omega (arith, length-map rs)

-- A ledger that can be restored: a formed key, and at most 128 locks, blinded by units.
pub record LedgerFormed (l : EncryptedLedger) : Type 0 where
  pub key : KeyFormed l.p
  pub units : AllUnits l.p.n l.rs
  pub few : length l.rs ≤ 128

-- A round trip: RestorePrivate of PrivateState of a ledger is the ledger, where its key has an odd n of
-- 128 to 1024 bytes, n squared, the generator n + 1 and inverse numbers lambda and mu below n, and its
-- locks are at most 128, each blinded by a unit below n.
pub ledger_round_trip :
    (l : EncryptedLedger) → LedgerFormed l → Settle.restore_private (Settle.private_state l) ≡ ok l
unfolding Settle.restore_private Settle.private_state He.private_state
ledger_round_trip l w = ground (
  arith,
  length-map l.rs,
  key_round_trip l.p w.key,
  randomness_round_trip l.p.n l.rs w.units,
  w.few,
)
