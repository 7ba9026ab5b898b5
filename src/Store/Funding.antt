-- ===== src/Store/Funding.antt =====
-- The budget tables: the columns of a dimension (`_budget_fields` of
-- src/hnh/application/run_controller.py), the sum of the active reservations, and the invariant
-- that what is used and what is reserved stay within the limit.
pub mod Sums
pub mod Keeps
use http_harness.Base.{ℕ, ◌+◌, ◌≤◌, ◌≡◌, Bool, true, false, none, some, Option, arith}
use http_harness.Base.Table.{Table, lookup}
use http_harness.Base.Unique.{HasUniqueKeys}
use http_harness.Store.Rows
use http_harness.Store.Rows.{BudgetRow, ReservationRow, Dimension}
use http_harness.Store.Funding.Sums.{active, same_dimension}

unfoldable pub is_supported : Dimension → Bool
is_supported Rows.unsupported = false
is_supported _ = true

-- `getattr(budget, limit_field)`
unfoldable pub maximum : Dimension → BudgetRow → Option ℕ
maximum Rows.model_turn b = b.max_model_turns
maximum Rows.tool_call b = b.max_tool_calls
maximum Rows.output_tokens b = b.max_output_tokens
maximum Rows.cost_microunits b = b.max_cost_microunits
maximum Rows.unsupported b = none

-- `getattr(budget, used_field)`
unfoldable pub used : Dimension → BudgetRow → ℕ
used Rows.model_turn b = b.used_model_turns
used Rows.tool_call b = b.used_tool_calls
used Rows.output_tokens b = b.used_output_tokens
used Rows.cost_microunits b = b.used_cost_microunits
used Rows.unsupported b = 0

-- `setattr(budget, used_field, value)`
unfoldable pub set_used : Dimension → ℕ → BudgetRow → BudgetRow
set_used Rows.model_turn n b = record b { used_model_turns = n }
set_used Rows.tool_call n b = record b { used_tool_calls = n }
set_used Rows.output_tokens n b = record b { used_output_tokens = n }
set_used Rows.cost_microunits n b = record b { used_cost_microunits = n }
set_used Rows.unsupported n b = b

pub maximum-set_used :
    (d e : Dimension) (n : ℕ) (b : BudgetRow) → maximum e (set_used d n b) ≡ maximum e b
unfolding maximum set_used
maximum-set_used d e n b = ground arith

pub used-set_used_self :
    (d : Dimension) (n : ℕ) (b : BudgetRow) → is_supported d ≡ true → used d (set_used d n b) ≡ n
unfolding used set_used is_supported
used-set_used_self d n b h = ground arith

pub used-set_used_ne :
    (d e : Dimension) (n : ℕ) (b : BudgetRow)
    → same_dimension d e ≡ false
    → used e (set_used d n b) ≡ used e b
unfolding used set_used
used-set_used_ne d e n b h = ground arith

-- In every limited dimension of every run, the amount used and the amounts reserved together stay
-- within the limit; reservations are made only against budgets that exist.
pub record IsFunded (bs : Table BudgetRow) (rs : Table ReservationRow) : Type 0 where
  pub within :
      (id : ℕ) (b : BudgetRow) (d : Dimension) (limit : ℕ)
      → lookup id bs ≡ some b
      → maximum d b ≡ some limit
      → used d b + active id d rs ≤ limit
  pub unopened : (id : ℕ) (d : Dimension) → lookup id bs ≡ none → active id d rs ≡ 0
  pub unique : HasUniqueKeys rs
