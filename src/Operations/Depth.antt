-- ===== src/Operations/Depth.antt =====
-- The loop of `require_json_depth` against the depth of a value by recursion.
use Prim.Native.Nat.{max}
use http_harness.Base.{
  ℕ, zero, suc, ◌+◌, ◌≤◌, ◌≡◌, refl, sym, ap, ◌∙◌, Bool-cases, inl, inr, arith, Bool, true, false,
  ◌&&◌, some, List, [], ◌∷◌, ltb, leb, if◌then◌else◌,
}
use http_harness.Base.Ensures.{Result, ok, err}
use http_harness.Domain.Errors.{schema_invalid}
use http_harness.Operations.{
  Json, Items, Fields, extend_items, extend_fields, extend, drain, require_json_depth,
}

-- How many values a value holds, itself included.
unfoldable mutual
  pub size : Json → ℕ
  size (Json.array items) = suc (size_items items)
  size (Json.object fields) = suc (size_fields fields)
  size Json.null = 1
  size (Json.bool b) = 1
  size (Json.number n) = 1
  size (Json.text t) = 1

  pub size_items : Items → ℕ
  size_items Items.nil = 0
  size_items (Items.cons value items) = size value + size_items items

  pub size_fields : Fields → ℕ
  size_fields Fields.end = 0
  size_fields (Fields.field name value fields) = size value + size_fields fields

-- The depth of a value: 1 where nothing is nested.
unfoldable mutual
  pub depth : Json → ℕ
  depth (Json.array items) = suc (depth_items items)
  depth (Json.object fields) = suc (depth_fields fields)
  depth Json.null = 1
  depth (Json.bool b) = 1
  depth (Json.number n) = 1
  depth (Json.text t) = 1

  pub depth_items : Items → ℕ
  depth_items Items.nil = 0
  depth_items (Items.cons value items) = max (depth value) (depth_items items)

  pub depth_fields : Fields → ℕ
  depth_fields Fields.end = 0
  depth_fields (Fields.field name value fields) = max (depth value) (depth_fields fields)

abbrev total : List (Json × ℕ) → ℕ
total [] = 0
total ((value, d) ∷ pending) = size value + total pending

-- Whether every pending value ends within the maximum.
abbrev fit : ℕ → List (Json × ℕ) → Bool
fit maximum [] = true
fit maximum ((value, d) ∷ pending) = leb (d + depth value) (maximum + 1) && fit maximum pending

total-extend_items :
    (items : Items) (d : ℕ) (pending : List (Json × ℕ))
    → total (extend_items items d pending) ≡ size_items items + total pending
unfolding extend_items size
total-extend_items Items.nil d pending = omega arith
total-extend_items (Items.cons value items) d pending =
    omega (arith, total-extend_items items d ((value, d) ∷ pending))

total-extend_fields :
    (fields : Fields) (d : ℕ) (pending : List (Json × ℕ))
    → total (extend_fields fields d pending) ≡ size_fields fields + total pending
unfolding extend_fields size
total-extend_fields Fields.end d pending = omega arith
total-extend_fields (Fields.field name value fields) d pending =
    omega (arith, total-extend_fields fields d ((value, d) ∷ pending))

fit-extend_items :
    (maximum : ℕ) (items : Items) (d : ℕ) (pending : List (Json × ℕ))
    → d ≤ maximum + 1
    → fit maximum (extend_items items d pending)
      ≡ (leb (d + depth_items items) (maximum + 1) && fit maximum pending)
unfolding extend_items depth
fit-extend_items maximum Items.nil d pending h = ground arith
fit-extend_items maximum (Items.cons value items) d pending h =
    ground (arith, fit-extend_items maximum items d ((value, d) ∷ pending) h)

fit-extend_fields :
    (maximum : ℕ) (fields : Fields) (d : ℕ) (pending : List (Json × ℕ))
    → d ≤ maximum + 1
    → fit maximum (extend_fields fields d pending)
      ≡ (leb (d + depth_fields fields) (maximum + 1) && fit maximum pending)
unfolding extend_fields depth
fit-extend_fields maximum Fields.end d pending h = ground arith
fit-extend_fields maximum (Fields.field name value fields) d pending h =
    ground (arith, fit-extend_fields maximum fields d ((value, d) ∷ pending) h)

size-extend :
    (value : Json) (d : ℕ) (pending : List (Json × ℕ))
    → size value + total pending ≡ suc (total (extend value d pending))
unfolding extend size
size-extend (Json.array items) d pending = omega (arith, total-extend_items items d pending)
size-extend (Json.object fields) d pending = omega (arith, total-extend_fields fields d pending)
size-extend Json.null d pending = omega arith
size-extend (Json.bool b) d pending = omega arith
size-extend (Json.number n) d pending = omega arith
size-extend (Json.text t) d pending = omega arith

fit-extend :
    (maximum : ℕ) (value : Json) (d : ℕ) (pending : List (Json × ℕ))
    → fit maximum ((value, d) ∷ pending)
      ≡ (if ltb maximum d then false else fit maximum (extend value (d + 1) pending))
unfolding extend depth
fit-extend maximum (Json.array items) d pending =
    ground (arith, fit-extend_items maximum items (d + 1) pending)
fit-extend maximum (Json.object fields) d pending =
    ground (arith, fit-extend_fields maximum fields (d + 1) pending)
fit-extend maximum Json.null d pending = ground arith
fit-extend maximum (Json.bool b) d pending = ground arith
fit-extend maximum (Json.number n) d pending = ground arith
fit-extend maximum (Json.text t) d pending = ground arith

abbrev verdict : Bool → Result (Unit {0})
verdict true = ok tt
verdict false = err schema_invalid

drain-fit :
    (maximum fuel : ℕ) (pending : List (Json × ℕ))
    → total pending ≤ fuel
    → drain maximum fuel pending ≡ some (verdict (fit maximum pending))
unfolding drain
drain-fit maximum fuel [] h = refl
drain-fit maximum zero ((value, d) ∷ pending) h =
    absurd (omega (arith, size-extend value (d + 1) pending))
drain-fit maximum (suc fuel) ((value, d) ∷ pending) h =
    let rest =
      drain-fit maximum fuel (extend value (d + 1) pending)
        (omega (arith, size-extend value (d + 1) pending)) in
    elim (Bool-cases (ltb maximum d)) [
      | inl deep ↦ ground (arith, fit-extend maximum value d pending)
      | inr fine ↦
          let same : fit maximum ((value, d) ∷ pending)
              ≡ fit maximum (extend value (d + 1) pending) =
            fit-extend maximum value d pending ∙ rw fine refl in
          rw fine (rest ∙ sym (ap (λ b. some (verdict b)) same))
    ]

-- The loop ends within as many rounds as the value holds values, and accepts exactly the values whose
-- nesting is no deeper than the maximum; any other is refused as invalid.
pub require_json_depth-depth :
    (maximum fuel : ℕ) (value : Json)
    → size value ≤ fuel
    → require_json_depth maximum fuel value
      ≡ some (if leb (depth value) maximum then ok tt else err schema_invalid)
unfolding require_json_depth
require_json_depth-depth maximum fuel value h =
    drain-fit maximum fuel ((value, 1) ∷ []) (omega arith) ∙ ground arith
