-- ===== src/Controller/Budget/Steps.antt =====
-- The budget operations as steps of the store.
use http_harness.Base.{ℕ, ◌+◌, ◌≤◌, ◌≡◌, arith, true, not, Option, none, some, is_none→eq}
use http_harness.Base.Table.{Table, lookup, insert}
use http_harness.Base.Grows.{Grows-refl}
use http_harness.Base.Ensures.{
  Ensures, Ensures-ok, Ensures-when, Ensures-bind, Ensures-guard, Ensures-require,
}
use http_harness.Store.Rows.{Db, BudgetRow, ReservationRow, Dimension, ReservationKey}
use http_harness.Store.Lease.{Claim}
use http_harness.Store.Funding.{IsFunded, maximum, used, set_used}
use http_harness.Store.Funding.Sums.{active, share}
use http_harness.Store.Funding.Keeps.{reserve-IsFunded, lower-IsFunded, settle-IsFunded}
use http_harness.Store.Trace.{Trace}
use http_harness.Store.Step.{Step, Step-refl, Commits}
use http_harness.Store.Step.Moves.{Bound-refl, Leased-refl}
use http_harness.Controller.Budget.{
  exceeds, new_reservation, add_reservation, reserve_new, reserve_again, reserve_found,
  reserve_budget, settled_row, settle_budget, released_row, release_budget, find_reservation,
}

-- A write to nothing but the budgets and the reservations.
pub funds-Step :
    (db : Db) (bs : Table BudgetRow) (rs : Table ReservationRow)
    → (IsFunded db.budgets db.reservations → IsFunded bs rs)
    → Step db (record db { budgets = bs; reservations = rs })
funds-Step db bs rs funded = record {
  trace = Trace.here;
  funded = funded;
  bound = Grows-refl Bound-refl db.actions;
  leased = λ u. (u, Grows-refl Leased-refl db.jobs);
}

exceeds-fits :
    (cap : Option ℕ) (total limit : ℕ)
    → not (exceeds cap total) ≡ true
    → cap ≡ some limit
    → total ≤ limit
exceeds-fits cap total limit h e = ground arith

pub add_reservation-Step :
    (id : ℕ) (row : ReservationRow) (b : BudgetRow) (db : Db)
    → lookup row.run_id db.budgets ≡ some b
    → not (
        exceeds (maximum row.dimension b) (
          used row.dimension b
          + active row.run_id row.dimension db.reservations
          + row.reserved_amount))
      ≡ true
    → Ensures (Step db) (add_reservation id row db)
unfolding add_reservation
add_reservation-Step id row b db found fits = Ensures-guard _ _ _ _ λ free. Ensures-ok _ _ (
    funds-Step db db.budgets (insert id row db.reservations) λ funded.
      reserve-IsFunded db.budgets db.reservations id row b funded found (is_none→eq free)
        (λ limit max. exceeds-fits (maximum row.dimension b) _ limit fits max))

reserve_new-Step :
    (id run_id : ℕ) (key : ReservationKey) (dimension : Dimension) (amount : ℕ) (b : BudgetRow)
    (db : Db)
    → lookup run_id db.budgets ≡ some b
    → Ensures (Commits db) (reserve_new id run_id key dimension amount b db)
unfolding reserve_new
reserve_new-Step id run_id key dimension amount b db found = Ensures-guard _ _ _ _ λ fits.
    Ensures-bind _ _ _ λ db' added. Ensures-ok _ _ (
      (add_reservation-Step id (new_reservation run_id key dimension amount) b db found fits).at db'
        added)

reserve_found-Step :
    (id run_id : ℕ) (key : ReservationKey) (dimension : Dimension) (amount : ℕ) (b : BudgetRow)
    (existing : Option (ℕ × ReservationRow)) (db : Db)
    → lookup run_id db.budgets ≡ some b
    → Ensures (Commits db) (reserve_found id run_id key dimension amount b existing db)
unfolding reserve_found reserve_again
reserve_found-Step id run_id key dimension amount b none db found =
    reserve_new-Step id run_id key dimension amount b db found
reserve_found-Step id run_id key dimension amount b (some (k, existing)) db found =
    Ensures-guard _ _ _ _ λ _. Ensures-ok _ _ (Step-refl db)

pub reserve_budget-Step :
    (id run_id : ℕ) (key : ReservationKey) (dimension : Dimension) (amount : ℕ) (claim : Claim)
    (db : Db)
    → Ensures (Commits db) (reserve_budget id run_id key dimension amount claim db)
unfolding reserve_budget
reserve_budget-Step id run_id key dimension amount claim db = Ensures-guard _ _ _ _ λ _.
    Ensures-guard _ _ _ _ λ _. Ensures-bind _ _ _ λ _ _. Ensures-require _ _ _ _ λ b found.
      reserve_found-Step id run_id key dimension amount b
        (find_reservation run_id key db.reservations) db found

pub settle_budget-Step :
    (id actual : ℕ) (claim : Claim) (db : Db)
    → Ensures (Commits db) (settle_budget id actual claim db)
unfolding settle_budget share
settle_budget-Step id actual claim db = Ensures-require _ _ _ _ λ row at_key.
    Ensures-bind _ _ _ λ _ _.
      Ensures-when _ _ _ _ (λ _. Ensures-ok _ _ (Step-refl db))
        (λ _. Ensures-guard _ _ _ _ λ open_row. Ensures-guard _ _ _ _ λ supported.
          Ensures-require _ _ _ _ λ b found. Ensures-guard _ _ _ _ λ fits. Ensures-ok _ _ (
            funds-Step db
              (insert row.run_id (set_used row.dimension (used row.dimension b + actual) b)
                db.budgets)
              (insert id (settled_row actual row) db.reservations)
              λ funded.
                settle-IsFunded db.budgets db.reservations id actual row (settled_row actual row) b
                  funded found at_key open_row (λ i d. ground arith) supported
                  (λ limit max. exceeds-fits (maximum row.dimension b) _ limit fits max)))

pub release_budget-Step :
    (id : ℕ) (claim : Claim) (db : Db) → Ensures (Commits db) (release_budget id claim db)
unfolding release_budget share
release_budget-Step id claim db = Ensures-require _ _ _ _ λ row found. Ensures-bind _ _ _ λ _ _.
    Ensures-when _ _ _ _
      (λ _. Ensures-ok _ _ (
        funds-Step db db.budgets (insert id (released_row row) db.reservations) λ funded.
          lower-IsFunded db.budgets db.reservations id row (released_row row) found
            (λ i d. ground arith) funded))
      (λ _. Ensures-ok _ _ (Step-refl db))
