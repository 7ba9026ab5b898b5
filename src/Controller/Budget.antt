-- ===== src/Controller/Budget.antt =====
-- The budget operations of src/hnh/application/run_controller.py: an amount is reserved, then
-- settled with what was used, or released. A reservation is returned with its id.
pub mod Steps
pub mod Once
use http_harness.Base.{
  ℕ, ◌+◌, Bool, true, false, not, ◌&&◌, Option, none, some, [], ◌∷◌, ltb, ◌==◌, ◌==?◌,
  if◌then◌else◌, is_none,
}
use http_harness.Base.Table.{Table, lookup, insert}
use http_harness.Base.Ensures.{Result, ok, ◌>>=◌, ◌>>◌, when◌then◌otherwise◌, guard, require}
use http_harness.Domain.Errors.{
  not_found, version_conflict, value_error, idempotency_conflict, budget_exhausted, integrity_error,
}
use http_harness.Store.Rows
use http_harness.Store.Rows.{
  Db, BudgetRow, ReservationRow, Dimension, ReservationKey, ReservationStatus, Context,
}
use http_harness.Store.Session.{owned_run, is_reserved}
use http_harness.Store.Lease.{Claim, require_claimed_run_job}
use http_harness.Store.Funding.{is_supported, maximum, used, set_used}
use http_harness.Store.Funding.Sums.{active, active_others, same_dimension}

abbrev pub same_reservation_key : ReservationKey → ReservationKey → Bool
same_reservation_key (ReservationKey.caller a) (ReservationKey.caller b) = a == b
same_reservation_key (ReservationKey.child a d) (ReservationKey.child b e) =
    a == b && same_dimension d e
same_reservation_key _ _ = false

-- `WHERE run_id=… AND reservation_key=…`
unfoldable pub find_reservation :
    ℕ → ReservationKey → Table ReservationRow → Option (ℕ × ReservationRow)
find_reservation run_id key [] = none
find_reservation run_id key ((k, r) ∷ t) =
    if r.run_id == run_id && same_reservation_key r.reservation_key key
    then some (k, r)
    else find_reservation run_id key t

-- `limit is not None and total > int(limit)`
abbrev pub exceeds : Option ℕ → ℕ → Bool
exceeds none total = false
exceeds (some limit) total = ltb limit total

-- `BudgetReservationRecord(…, status="reserved")`
abbrev pub new_reservation : ℕ → ReservationKey → Dimension → ℕ → ReservationRow
new_reservation run_id key dimension amount = record {
  run_id = run_id;
  reservation_key = key;
  dimension = dimension;
  reserved_amount = amount;
  actual_amount = none;
  status = Rows.reserved;
}

unfoldable pub add_reservation : ℕ → ReservationRow → Db → Result Db
add_reservation id row db = do
  guard (is_none (lookup id db.reservations)) integrity_error
  ok (record db { reservations = insert id row db.reservations })

-- A reservation whose key is new.
unfoldable pub reserve_new :
    ℕ → ℕ → ReservationKey → Dimension → ℕ → BudgetRow → Db → Result ((ℕ × ReservationRow) × Db)
unfolding add_reservation
reserve_new id run_id key dimension amount budget db = do
  guard
      (not (
        exceeds (maximum dimension budget)
          (used dimension budget + active run_id dimension db.reservations + amount)))
      budget_exhausted
  let row = new_reservation run_id key dimension amount
  db' ← add_reservation id row db
  ok ((id, row), db')

-- The same key again: the same request, or a conflict.
unfoldable pub reserve_again :
    Dimension → ℕ → ℕ × ReservationRow → Db → Result ((ℕ × ReservationRow) × Db)
reserve_again dimension amount (k, existing) db = do
  guard (same_dimension existing.dimension dimension && existing.reserved_amount == amount)
      idempotency_conflict
  ok ((k, existing), db)

unfoldable pub reserve_found :
    ℕ
    → ℕ
    → ReservationKey
    → Dimension
    → ℕ
    → BudgetRow
    → Option (ℕ × ReservationRow)
    → Db
    → Result ((ℕ × ReservationRow) × Db)
unfolding reserve_new reserve_again
reserve_found id run_id key dimension amount budget none db =
    reserve_new id run_id key dimension amount budget db
reserve_found id run_id key dimension amount budget (some existing) db =
    reserve_again dimension amount existing db

unfoldable pub reserve_budget :
    ℕ → ℕ → ReservationKey → Dimension → ℕ → Claim → Db → Result ((ℕ × ReservationRow) × Db)
unfolding reserve_found
reserve_budget id run_id key dimension amount claim db = do
  guard (ltb 0 amount) value_error
  guard (is_supported dimension) value_error
  require_claimed_run_job claim run_id db
  budget ← require (lookup run_id db.budgets) not_found
  reserve_found id run_id key dimension amount budget (find_reservation run_id key db.reservations)
      db

abbrev pub is_settled_reservation : ReservationStatus → Bool
is_settled_reservation Rows.settled = true
is_settled_reservation _ = false

abbrev pub settled_row : ℕ → ReservationRow → ReservationRow
settled_row actual row = record row { actual_amount = some actual; status = Rows.settled }

unfoldable pub settle_budget : ℕ → ℕ → Claim → Db → Result ((ℕ × ReservationRow) × Db)
settle_budget id actual claim db = do
  row ← require (lookup id db.reservations) not_found
  require_claimed_run_job claim row.run_id db
  when is_settled_reservation row.status then ok ((id, row), db) otherwise do
    guard (is_reserved row.status) version_conflict
    guard (is_supported row.dimension) value_error
    budget ← require (lookup row.run_id db.budgets) not_found
    let spent = used row.dimension budget
    guard
        (not (
          exceeds (maximum row.dimension budget)
            (spent + active_others id row.run_id row.dimension db.reservations + actual)))
        budget_exhausted
    ok (
      (id, settled_row actual row),
      record db {
        budgets = insert row.run_id (set_used row.dimension (spent + actual) budget) db.budgets;
        reservations = insert id (settled_row actual row) db.reservations;
      },
    )

abbrev pub released_row : ReservationRow → ReservationRow
released_row row = record row { actual_amount = some 0; status = Rows.released }

unfoldable pub release_budget : ℕ → Claim → Db → Result ((ℕ × ReservationRow) × Db)
release_budget id claim db = do
  row ← require (lookup id db.reservations) not_found
  require_claimed_run_job claim row.run_id db
  when is_reserved row.status
      then ok (
        (id, released_row row),
        record db { reservations = insert id (released_row row) db.reservations },
      )
      otherwise ok ((id, row), db)

-- The limit, the used and the reserved amount of every dimension.
pub record BudgetStatus : Type 0 where
  pub limits : Dimension → Option ℕ
  pub used_amounts : Dimension → ℕ
  pub reserved_amounts : Dimension → ℕ

unfoldable pub budget_status : Context → ℕ → Db → Result BudgetStatus
budget_status context run_id db = do
  run ← owned_run context run_id db
  budget ← require (lookup run_id db.budgets) not_found
  ok (record {
    limits = λ d. maximum d budget;
    used_amounts = λ d. used d budget;
    reserved_amounts = λ d. active run_id d db.reservations;
  })
