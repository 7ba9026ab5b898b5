-- ===== src/Tests/Payloads.antt =====
-- The bound on nesting at a concrete payload.
use http_harness.Base.{◌≡◌, refl, ◌∷◌, [], some, arith}
use http_harness.Base.Ensures.{ok, err}
use http_harness.Domain.Errors.{schema_invalid}
use http_harness.Operations.{Json, Items, Fields, require_json_depth}
use http_harness.Operations.Depth.{require_json_depth-depth, size, depth}

-- `{"a": [null, {"b": []}]}`
abbrev nested : Json
nested = Json.object (
    Fields.field (b'a' ∷ [])
      (Json.array (
        Items.cons Json.null (
          Items.cons (Json.object (Fields.field (b'b' ∷ []) (Json.array Items.nil) Fields.end))
            Items.nil)))
      Fields.end)

nested_fits : require_json_depth 4 5 nested ≡ some (ok tt)
unfolding require_json_depth
nested_fits = refl

require_json_depth-depth_example : require_json_depth 3 5 nested ≡ some (err schema_invalid)
unfolding size depth
require_json_depth-depth_example = require_json_depth-depth 3 5 nested (omega arith)
