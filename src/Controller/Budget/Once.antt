-- ===== src/Controller/Budget/Once.antt =====
-- Repeated budget operations (`reserve_budget`, `settle_budget`).
use http_harness.Base.{
  ℕ, ◌≡◌, refl, arith, true, none, some, [], ◌∷◌, Option, ◌&&◌, ◌==◌, ==-refl, is_none→eq, ltb,
}
use http_harness.Base.Table.{Table, lookup, insert, lookup-insert}
use http_harness.Base.Ensures.{
  ok, Ensures, Ensures-ok, Ensures-bind, Ensures-guard, Ensures-require, Ensures-when, ◌>>=◌,
}
use http_harness.Store.Rows.{Db, BudgetRow, ReservationRow, Dimension, ReservationKey}
use http_harness.Store.Lease.{Claim, require_claimed_run_job}
use http_harness.Store.Fences.{require_claimed_run_job-same}
use http_harness.Store.Funding.Sums.{same_dimension}
use http_harness.Store.Funding.{is_supported}
use http_harness.Controller.Budget.{
  reserve_budget, reserve_found, reserve_new, reserve_again, add_reservation, find_reservation,
  new_reservation, same_reservation_key, settle_budget, settled_row, is_settled_reservation,
}

same_reservation_key_refl : (key : ReservationKey) → same_reservation_key key key ≡ true
same_reservation_key_refl key = ground arith

-- A reservation that was added under a new key is found under it.
find_reservation-insert :
    (run_id : ℕ) (key : ReservationKey) (id : ℕ) (dimension : Dimension) (amount : ℕ)
    (t : Table ReservationRow)
    → find_reservation run_id key t ≡ none
    → lookup id t ≡ none
    → find_reservation run_id key (insert id (new_reservation run_id key dimension amount) t)
      ≡ some (id, new_reservation run_id key dimension amount)
unfolding find_reservation lookup insert
find_reservation-insert run_id key id dimension amount [] absent free =
    ground (arith, same_reservation_key_refl key, ==-refl run_id)
find_reservation-insert run_id key id dimension amount ((k, r) ∷ t) absent free =
    ground (arith, find_reservation-insert run_id key id dimension amount t)

-- The reservation stands under its key, for what was asked, and nothing moved that a fence reads.
record Stands (run_id : ℕ) (key : ReservationKey) (dimension : Dimension) (amount : ℕ) (db : Db)
    (r : ℕ × ReservationRow) (db' : Db) : Type 0 where
  same_jobs : db'.jobs ≡ db.jobs
  same_clock : db'.clock ≡ db.clock
  same_budgets : db'.budgets ≡ db.budgets
  at : find_reservation run_id key db'.reservations ≡ some r
  fits : same_dimension r.1.dimension dimension && r.1.reserved_amount == amount ≡ true

add_reservation-Stands :
    (id run_id : ℕ) (key : ReservationKey) (dimension : Dimension) (amount : ℕ) (db : Db)
    → find_reservation run_id key db.reservations ≡ none
    → Ensures
        (λ db'.
          Stands run_id key dimension amount db
            (id, new_reservation run_id key dimension amount)
            db')
        (add_reservation id (new_reservation run_id key dimension amount) db)
unfolding add_reservation
add_reservation-Stands id run_id key dimension amount db absent = Ensures-guard _ _ _ _ λ free.
    Ensures-ok _ _ (record {
      same_jobs = refl;
      same_clock = refl;
      same_budgets = refl;
      at =
          find_reservation-insert run_id key id dimension amount db.reservations absent
            (is_none→eq free);
      fits = ground (arith, ==-refl amount);
    })

reserve_found-Stands :
    (id run_id : ℕ) (key : ReservationKey) (dimension : Dimension) (amount : ℕ) (budget : BudgetRow)
    (existing : Option (ℕ × ReservationRow)) (db : Db)
    → find_reservation run_id key db.reservations ≡ existing
    → Ensures
        (λ (r, db'). Stands run_id key dimension amount db r db')
        (reserve_found id run_id key dimension amount budget existing db)
unfolding reserve_found reserve_new reserve_again
reserve_found-Stands id run_id key dimension amount budget none db e = Ensures-guard _ _ _ _ λ _.
    Ensures-bind _ _ _ λ db' added.
      Ensures-ok _ _ ((add_reservation-Stands id run_id key dimension amount db e).at db' added)
reserve_found-Stands id run_id key dimension amount budget (some (k, existing)) db e =
    Ensures-guard _ _ _ _ λ fits.
      Ensures-ok _ _
        (record { same_jobs = refl; same_clock = refl; same_budgets = refl; at = e; fits = fits })

Stands-again :
    (id run_id : ℕ) (key : ReservationKey) (dimension : Dimension) (amount : ℕ) (budget : BudgetRow)
    (r : ℕ × ReservationRow) (db db' : Db)
    → Stands run_id key dimension amount db r db'
    → reserve_found id run_id key dimension amount budget
        (find_reservation run_id key db'.reservations)
        db'
      ≡ ok (r, db')
unfolding reserve_found reserve_again ◌>>=◌
Stands-again id run_id key dimension amount budget (k, row) db db' s =
    rw s.at (ground (arith, s.fits))

-- What a fence and the checks before it leave to a second request.
again :
    (id : ℕ) (run_id : ℕ) (key : ReservationKey) (dimension : Dimension) (amount : ℕ)
    (claim : Claim) (budget : BudgetRow) (r : ℕ × ReservationRow) (db db' : Db) {u : Unit {0}}
    → ltb 0 amount ≡ true
    → is_supported dimension ≡ true
    → require_claimed_run_job claim run_id db ≡ ok u
    → lookup run_id db.budgets ≡ some budget
    → Stands run_id key dimension amount db r db'
    → reserve_budget id run_id key dimension amount claim db' ≡ ok (r, db')
unfolding reserve_budget ◌>>=◌
again id run_id key dimension amount claim budget r db db' positive supported fence funds s =
    ground (
      arith,
      require_claimed_run_job-same db db' s.same_jobs s.same_clock claim run_id,
      fence,
      s.same_budgets,
      funds,
      Stands-again id run_id key dimension amount budget r db db' s,
    )

reserved_once :
    (id next_id run_id : ℕ) (key : ReservationKey) (dimension : Dimension) (amount : ℕ)
    (claim : Claim) (db : Db)
    → Ensures
        (λ (r, db'). reserve_budget next_id run_id key dimension amount claim db' ≡ ok (r, db'))
        (reserve_budget id run_id key dimension amount claim db)
unfolding reserve_budget
reserved_once id next_id run_id key dimension amount claim db = Ensures-guard _ _ _ _ λ positive.
    Ensures-guard _ _ _ _ λ supported. Ensures-bind _ _ _ λ u fence.
      Ensures-require _ _ _ _ λ budget funds. record {
        at = λ (r, db') h.
            again next_id run_id key dimension amount claim budget r db db' positive supported fence
              funds
              ((reserve_found-Stands id run_id key dimension amount budget _ db refl).at (r, db')
                h);
      }

-- A reservation that is asked for again, under the same key and for the same amount, is returned as
-- it is: nothing is reserved twice.
pub reserve_budget-again :
    (id next_id run_id : ℕ) (key : ReservationKey) (dimension : Dimension) (amount : ℕ)
    (claim : Claim) (r : ℕ × ReservationRow) (db db' : Db)
    → reserve_budget id run_id key dimension amount claim db ≡ ok (r, db')
    → reserve_budget next_id run_id key dimension amount claim db' ≡ ok (r, db')
reserve_budget-again id next_id run_id key dimension amount claim r db db' h =
    (reserved_once id next_id run_id key dimension amount claim db).at (r, db') h

-- A settled row stands under its key; the fence that passed still passes.
record Settles (id : ℕ) (claim : Claim) (r : ℕ × ReservationRow) (db : Db) : Type 0 where
  unit : Unit {0}
  same_id : r.0 ≡ id
  at : lookup id db.reservations ≡ some r.1
  settled : is_settled_reservation r.1.status ≡ true
  fence : require_claimed_run_job claim r.1.run_id db ≡ ok unit

fence_kept :
    (claim : Claim) (run_id : ℕ) (db db' : Db) {u : Unit {0}}
    → db'.jobs ≡ db.jobs
    → db'.clock ≡ db.clock
    → require_claimed_run_job claim run_id db ≡ ok u
    → require_claimed_run_job claim run_id db' ≡ ok u
fence_kept claim run_id db db' j c fence =
    rw (require_claimed_run_job-same db db' j c claim run_id) fence

settled-Settles :
    (id actual : ℕ) (claim : Claim) (db : Db)
    → Ensures (λ (r, db'). Settles id claim r db') (settle_budget id actual claim db)
unfolding settle_budget
settled-Settles id actual claim db = Ensures-require _ _ _ _ λ row at. Ensures-bind _ _ _ λ u fence.
    Ensures-when _ _ _ _
      (λ settled.
        Ensures-ok _ _
          (record { unit = u; same_id = refl; at = at; settled = settled; fence = fence }))
      (λ _. Ensures-guard _ _ _ _ λ _. Ensures-guard _ _ _ _ λ _.
        Ensures-require _ _ _ _ λ budget _. Ensures-guard _ _ _ _ λ _. Ensures-ok _ _ (record {
          unit = u;
          same_id = refl;
          at =
              ground
                (arith, lookup-insert id id (settled_row actual row) db.reservations, ==-refl id);
          settled = refl;
          fence = fence_kept claim row.run_id db _ refl refl fence;
        }))

settle_again :
    (id actual : ℕ) (claim : Claim) (r : ℕ × ReservationRow) (db : Db)
    → Settles id claim r db
    → settle_budget id actual claim db ≡ ok (r, db)
unfolding settle_budget ◌>>=◌
settle_again id actual claim (k, row) db s = rw s.at (ground (arith, s.fence, s.settled, s.same_id))

-- A reservation is charged once: a further settlement, with whatever amount, returns the settled
-- reservation and changes nothing.
pub settle_budget-again :
    (id actual next_actual : ℕ) (claim : Claim) (r : ℕ × ReservationRow) (db db' : Db)
    → settle_budget id actual claim db ≡ ok (r, db')
    → settle_budget id next_actual claim db' ≡ ok (r, db')
settle_budget-again id actual next_actual claim r db db' h =
    settle_again id next_actual claim r db' ((settled-Settles id actual claim db).at (r, db') h)
