-- ===== src/Operations.antt =====
-- Proposed HTTP operations: src/hnh/application/operations.py. JSON values, the bound on their
-- depth, and the payload of an operation.
pub mod Depth
use http_harness.Base.{
  ℕ, zero, suc, ◌+◌, Bool, true, false, not, ◌&&◌, ◌||◌, Option, none, some, List, [], ◌∷◌, ltb,
  ◌==◌, if◌then◌else◌, member, list_eq,
}
use http_harness.Base.Texts.{Text, length}
use http_harness.Base.Ensures.{Result, ok, err, ◌>>=◌, ◌>>◌, guard}
use http_harness.Domain.Errors.{schema_invalid, value_error, invalid_operation}

-- What `json` gives: the values of Python that a payload is made of.
mutual
  pub data Json : Type 0 where
    null : Json
    bool : Bool → Json
    number : ℕ → Json
    text : Text → Json
    array : Items → Json
    object : Fields → Json

  pub data Items : Type 0 where
    nil : Items
    cons : Json → Items → Items

  pub data Fields : Type 0 where
    end : Fields
    field : Text → Json → Fields → Fields

-- `pending.extend(…)`: the list of Python is a stack whose top stands first here.
unfoldable pub extend_items : Items → ℕ → List (Json × ℕ) → List (Json × ℕ)
extend_items nil depth pending = pending
extend_items (cons value items) depth pending = extend_items items depth ((value, depth) ∷ pending)

unfoldable pub extend_fields : Fields → ℕ → List (Json × ℕ) → List (Json × ℕ)
extend_fields end depth pending = pending
extend_fields (field name value fields) depth pending =
    extend_fields fields depth ((value, depth) ∷ pending)

unfoldable pub extend : Json → ℕ → List (Json × ℕ) → List (Json × ℕ)
unfolding extend_items extend_fields
extend (array items) depth pending = extend_items items depth pending
extend (object fields) depth pending = extend_fields fields depth pending
extend _ depth pending = pending

-- The `while` loop, a round to each unit of fuel; `none` means that the fuel ran out.
unfoldable pub drain : ℕ → ℕ → List (Json × ℕ) → Option (Result (Unit {0}))
unfolding extend
drain maximum fuel [] = some (ok tt)
drain maximum zero ((current, depth) ∷ pending) = none
drain maximum (suc fuel) ((current, depth) ∷ pending) =
    let rest = drain maximum fuel (extend current (depth + 1) pending) in
    if ltb maximum depth then some (err schema_invalid) else rest

unfoldable pub require_json_depth : ℕ → ℕ → Json → Option (Result (Unit {0}))
unfolding drain
require_json_depth maximum fuel value = drain maximum fuel ((value, 1) ∷ [])
