-- ===== src/Tests/Setup.antt =====
-- A standard library to run with, and the agreements, delegations and councils of the tests.
use Prim.Native.String.{count}
use nexum.Prelude.{
  ◌≡◌, refl, Bool, true, false, Option, none, some, ◌++◌, [], ◌∷◌, ◌==◌, if◌then◌else◌,
}
use nexum.Prelude.Int.{pos}
use nexum.Errors.{ok}
use nexum.Std.{Std, Bytes}
use nexum.Meter.{opened, Meter}
use nexum.Receipt.{next_receipt}
use nexum.Receipt.Tamper.{FixedWidth}
use nexum.Agreement
use nexum.Agreement.{Agreement}

-- A pair of byte strings, the first of one byte.
abbrev split_first : Bytes → Option (Bytes × Bytes)
split_first [] = none
split_first (b ∷ rest) = some (b ∷ [], rest)

-- The digest has one digit: 0 for the empty text, 1 for any other.
abbrev pub test_std : Std
test_std = record {
  sha256 = λ b. b;
  sha256_hex = λ s. if s == "" then "0" else "1";
  decimal = λ n. "n";
  rfc3339 = λ t. "t";
  rfc3339_nano = λ t. "t";
  base64 = λ b. "b";
  float_lt = λ a b. false;
  marshal_proof = λ p. p.0 ++ p.1;
  unmarshal_proof = split_first;
}

abbrev pub test_meter : Meter
test_meter = record { cost_usd = 0; effort = "max"; budget_usd = 0; max_steps = pos 0 }

abbrev pub house : Agreement
house = record {
  id = "a1";
  kind = "sale";
  buyer = "alice";
  seller = "bob";
  amount = pos 5;
  unit = record { symbol = "" };
  status = opened;
  meter = record { cost_usd = 0; effort = "max"; budget_usd = 0; max_steps = pos 8 };
  deadline = 0;
  created_at = 10;
  locked_at = none;
  closed_at = none;
  released_to = "";
  receipts = next_receipt test_std "a1" [] "alice" "open" "agreement opened" 10 ∷ [];
  sealed = none;
  sealed_locks = [];
  sealed_sum = [];
  steps = 1;
}

pub house_opens :
    Agreement.open_agreement test_std "a1" "sale" "alice" "bob" (pos 5) test_meter 10 ≡ ok house
unfolding Agreement.open_agreement Agreement.open_with
house_opens = refl

pub test_std_width : FixedWidth test_std
test_std_width s t = widths (s == "") (t == "")
  where
    widths : (a b : Bool) → count (if a then "0" else "1") ≡ count (if b then "0" else "1")
    widths true true = refl
    widths true false = refl
    widths false true = refl
    widths false false = refl
