-- ===== src/Contract/Run.antt =====
-- Runs of signed commands.
use nexum.Prelude.{List, [], ◌∷◌}
use nexum.Std.{Std, Bytes, Time}
use nexum.Room.{Entropy}
use nexum.Identity.{Command, Crypto}
use nexum.Contract
use nexum.Contract.{terms_of, Contract, on_agreement, signer, head, contract_meter}

module _ (std : Std) (crypto : Crypto) where
  -- The signed commands that reach a contract, with the time and the random numbers of each.
  abbrev pub Call : Type 0
  Call = Command × Bytes × Entropy × Time

  unfoldable pub apply_all : List Call → Contract → Contract
  apply_all [] c = c
  apply_all ((cmd, sig, rnd, now) ∷ rest) c =
      apply_all rest (Contract.apply std crypto c cmd sig rnd now).1
