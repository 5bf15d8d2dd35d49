-- ===== src/Meter.antt =====
-- What the four kinds of contract of internal/nexum share: `Status` with its constants
-- (agreement.go, council.go, delegate.go), `Meter` (agreement.go) and `Unit` (token.go).
use nexum.Prelude.{String, Bool, true, false, ◌&&◌}
use nexum.Prelude.Int.{ℤ}
use nexum.Std.{Std, Float64}

pub data Status : Type 0 where
  opened locked accepted rejected expired : Status
  ready executed refused : Status
  offered claimed proven paid : Status

pub record Meter : Type 0 where
  pub cost_usd : Float64
  pub effort : String
  pub budget_usd : Float64
  pub max_steps : ℤ

-- The type `Unit` of token.go.
pub record TokenUnit : Type 0 where
  pub symbol : String

-- m.BudgetUSD > 0 && m.CostUSD > m.BudgetUSD
abbrev pub over_budget : Std → Meter → Bool
over_budget std m = std.float_lt 0 m.budget_usd && std.float_lt m.budget_usd m.cost_usd

abbrev pub is_open : Status → Bool
is_open opened = true
is_open _ = false

abbrev pub is_locked : Status → Bool
is_locked locked = true
is_locked _ = false
