-- ===== src/Controller/Limits.antt =====
-- The `limits` documents of src/hnh/application/run_controller.py: Python dictionaries from the
-- names of limits to integers, and the budget row that is opened from one.
use http_harness.Base.{
  ℕ, Bool, true, false, not, ◌&&◌, Option, none, some, List, [], ◌∷◌, ltb, ◌==◌, if◌then◌else◌,
  is_none,
}
use http_harness.Store.Rows.{BudgetRow}

-- The keys that the controller knows, and any other text.
pub data LimitKey : Type 0 where
  max_model_turns max_tool_calls max_output_tokens : LimitKey
  max_cost_microunits max_wall_seconds : LimitKey
  other : ℕ → LimitKey

abbrev same_limit : LimitKey → LimitKey → Bool
same_limit max_model_turns max_model_turns = true
same_limit max_tool_calls max_tool_calls = true
same_limit max_output_tokens max_output_tokens = true
same_limit max_cost_microunits max_cost_microunits = true
same_limit max_wall_seconds max_wall_seconds = true
same_limit (other a) (other b) = a == b
same_limit _ _ = false

abbrev pub Limits : Type 0
Limits = List (LimitKey × ℕ)

-- `limits.get(key)`
unfoldable pub limit_of : LimitKey → Limits → Option ℕ
limit_of key [] = none
limit_of key ((k, n) ∷ t) = if same_limit k key then some n else limit_of key t

abbrev is_allowed : LimitKey → Bool
is_allowed (other _) = false
is_allowed _ = true

-- Every key is allowed, and every value is positive.
unfoldable pub are_positive : Limits → Bool
are_positive [] = true
are_positive ((k, n) ∷ t) = is_allowed k && ltb 0 n && are_positive t

-- The check that `admit_child_run` makes of its limits.
unfoldable pub are_child_limits : Limits → Bool
unfolding limit_of are_positive
are_child_limits limits =
    not (is_none (limit_of max_model_turns limits))
    && not (is_none (limit_of max_tool_calls limits))
    && not (is_none (limit_of max_output_tokens limits))
    && are_positive limits

-- `BudgetRecord(run_id=…, max_model_turns=limits.get(…), …)`
abbrev pub new_budget : Limits → BudgetRow
new_budget limits = record {
  max_model_turns = limit_of max_model_turns limits;
  max_tool_calls = limit_of max_tool_calls limits;
  max_output_tokens = limit_of max_output_tokens limits;
  max_cost_microunits = limit_of max_cost_microunits limits;
  max_wall_seconds = limit_of max_wall_seconds limits;
  used_model_turns = 0;
  used_tool_calls = 0;
  used_output_tokens = 0;
  used_cost_microunits = 0;
}
