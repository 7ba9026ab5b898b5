-- ===== src/Store/Funding/Keeps.antt =====
-- The invariant of budgets under the writes of the budget operations.
use http_harness.Base.{ℕ, ◌+◌, ◌≤◌, ◌≡◌, Bool, true, false, none, some, arith, Bool-cases, inl, inr}
use http_harness.Base.Table.{
  Table, lookup, insert, update_where, lookup-insert, lookup-insert_cases,
}
use http_harness.Base.Unique.{insert-HasUniqueKeys, update_where-HasUniqueKeys}
use http_harness.Store.Rows.{BudgetRow, ReservationRow, Dimension}
use http_harness.Store.Session.{is_reserved}
use http_harness.Store.Funding.{
  IsFunded, is_supported, maximum, used, set_used, maximum-set_used, used-set_used_self,
  used-set_used_ne,
}
use http_harness.Store.Funding.Sums.{
  share, active, active_others, same_dimension, same_dimension→eq, active-insert, active-insert_new,
  active_others-add, active-update_where,
}

-- A reservation against the budget `b` of a run, which fits.
module _ (bs : Table BudgetRow) (rs : Table ReservationRow) (key : ℕ) (row : ReservationRow)
    (b : BudgetRow) (funded : IsFunded bs rs) (found : lookup row.run_id bs ≡ some b)
    (absent : lookup key rs ≡ none)
    (fits : (limit : ℕ)
      → maximum row.dimension b ≡ some limit
      → used row.dimension b + active row.run_id row.dimension rs + row.reserved_amount
        ≤ limit) where
  reserve_within :
      (id : ℕ) (c : BudgetRow) (d : Dimension) (limit : ℕ)
      → lookup id bs ≡ some c
      → maximum d c ≡ some limit
      → used d c + active id d (insert key row rs) ≤ limit
  unfolding share
  reserve_within id c d limit at max = ground (
    arith,
    active-insert_new id d key row rs absent,
    funded.within id c d limit at max,
    same_dimension→eq row.dimension d,
    fits limit,
  )

  pub reserve-IsFunded : IsFunded bs (insert key row rs)
  unfolding share
  reserve-IsFunded = record {
    within = reserve_within;
    unopened =
        λ id d h. ground (arith, active-insert_new id d key row rs absent, funded.unopened id d h);
    unique = insert-HasUniqueKeys key row rs funded.unique;
  }

-- A write to a reservation that adds to no sum, such as a release.
pub lower-IsFunded :
    (bs : Table BudgetRow) (rs : Table ReservationRow) (key : ℕ) (old new : ReservationRow)
    → lookup key rs ≡ some old
    → ((id : ℕ) (d : Dimension) → share id d new ≤ share id d old)
    → IsFunded bs rs
    → IsFunded bs (insert key new rs)
lower-IsFunded bs rs key old new found less funded = record {
  within = λ id b d limit at max. omega (
    arith,
    funded.within id b d limit at max,
    active-insert id d key old new rs found,
    less id d,
  );
  unopened = λ id d h.
      omega (arith, funded.unopened id d h, active-insert id d key old new rs found, less id d);
  unique = insert-HasUniqueKeys key new rs funded.unique;
}

pub lower_where-IsFunded :
    (bs : Table BudgetRow) (rs : Table ReservationRow) (test : ReservationRow → Bool)
    (f : ReservationRow → ReservationRow)
    → ((id : ℕ) (d : Dimension) (r : ReservationRow) → share id d (f r) ≤ share id d r)
    → IsFunded bs rs
    → IsFunded bs (update_where test f rs)
lower_where-IsFunded bs rs test f less funded = record {
  within = λ id b d limit at max.
      omega (arith, funded.within id b d limit at max, active-update_where test f less id d rs);
  unopened =
      λ id d h. omega (arith, funded.unopened id d h, active-update_where test f less id d rs);
  unique = update_where-HasUniqueKeys test f rs funded.unique;
}

-- A new budget, of which nothing is used.
pub open-IsFunded :
    (bs : Table BudgetRow) (rs : Table ReservationRow) (id : ℕ) (b : BudgetRow)
    → lookup id bs ≡ none
    → ((d : Dimension) → used d b ≡ 0)
    → IsFunded bs rs
    → IsFunded (insert id b bs) rs
open-IsFunded bs rs id b absent fresh funded = record {
  within = λ j c d limit at max. elim (lookup-insert_cases id j b c bs at) [
    | inl (same, is_new) ↦ ground (arith, fresh d, funded.unopened id d absent)
    | inr (other, found) ↦ funded.within j c d limit found max
  ];
  unopened = λ j d h. ground (arith, lookup-insert id j b bs, funded.unopened j d);
  unique = funded.unique;
}

-- A settlement: the reservation's row leaves the sums, and the actual amount is used.
module _ (bs : Table BudgetRow) (rs : Table ReservationRow) (key actual : ℕ)
    (row settled : ReservationRow) (b : BudgetRow) (funded : IsFunded bs rs)
    (found : lookup row.run_id bs ≡ some b) (at_key : lookup key rs ≡ some row)
    (open_row : is_reserved row.status ≡ true)
    (closes : (id : ℕ) (d : Dimension) → share id d settled ≡ 0)
    (supported : is_supported row.dimension ≡ true)
    (fits : (limit : ℕ)
      → maximum row.dimension b ≡ some limit
      → used row.dimension b + active_others key row.run_id row.dimension rs + actual ≤ limit) where
  -- The sum of any other pair is not raised.
  settled_sum :
      (id : ℕ) (d : Dimension)
      → active id d (insert key settled rs) + share id d row ≡ active id d rs
  settled_sum id d = omega (arith, active-insert id d key row settled rs at_key, closes id d)

  -- The charged dimension of the run itself.
  settle_self :
      (c : BudgetRow) (limit : ℕ)
      → c ≡ set_used row.dimension (used row.dimension b + actual) b
      → maximum row.dimension c ≡ some limit
      → used row.dimension c + active row.run_id row.dimension (insert key settled rs) ≤ limit
  settle_self c limit is max = ground (
    arith,
    fits limit,
    settled_sum row.run_id row.dimension,
    active_others-add key row.run_id row.dimension row rs funded.unique at_key,
    maximum-set_used row.dimension row.dimension (used row.dimension b + actual) b,
    used-set_used_self row.dimension (used row.dimension b + actual) b supported,
  )

  -- Another dimension of the run.
  settle_other :
      (c : BudgetRow) (d : Dimension) (limit : ℕ)
      → same_dimension row.dimension d ≡ false
      → c ≡ set_used row.dimension (used row.dimension b + actual) b
      → maximum d c ≡ some limit
      → used d c + active row.run_id d (insert key settled rs) ≤ limit
  settle_other c d limit ne is max = ground (
    arith,
    funded.within row.run_id b d limit found,
    settled_sum row.run_id d,
    maximum-set_used row.dimension d (used row.dimension b + actual) b,
    used-set_used_ne row.dimension d (used row.dimension b + actual) b ne,
  )

  settle_within :
      (id : ℕ) (c : BudgetRow) (d : Dimension) (limit : ℕ)
      → lookup id (insert row.run_id (set_used row.dimension (used row.dimension b + actual) b) bs)
        ≡ some c
      → maximum d c ≡ some limit
      → used d c + active id d (insert key settled rs) ≤ limit
  settle_within id c d limit at max = elim (lookup-insert_cases row.run_id id _ c bs at) [
    | inl (same, is) ↦ elim (Bool-cases (same_dimension row.dimension d)) [
      | inl eq ↦ ground (arith, settle_self c limit is, same_dimension→eq row.dimension d eq)
      | inr ne ↦ ground (arith, settle_other c d limit ne is max)
    ]
    | inr (other, old) ↦ omega (arith, funded.within id c d limit old max, settled_sum id d)
  ]

  settle_unopened :
      (id : ℕ) (d : Dimension)
      → lookup id (insert row.run_id (set_used row.dimension (used row.dimension b + actual) b) bs)
        ≡ none
      → active id d (insert key settled rs) ≡ 0
  settle_unopened id d h = ground (
    arith,
    lookup-insert row.run_id id (set_used row.dimension (used row.dimension b + actual) b) bs,
    funded.unopened id d,
    settled_sum id d,
  )

  pub settle-IsFunded :
      IsFunded
        (insert row.run_id (set_used row.dimension (used row.dimension b + actual) b) bs)
        (insert key settled rs)
  settle-IsFunded = record {
    within = settle_within;
    unopened = settle_unopened;
    unique = insert-HasUniqueKeys key settled rs funded.unique;
  }
