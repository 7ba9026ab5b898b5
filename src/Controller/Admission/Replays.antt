-- ===== src/Controller/Admission/Replays.antt =====
-- Repeated requests under one idempotency key (`admit_run`).
use http_harness.Base.{ℕ, ◌≡◌, refl, arith, true, none, some, Option, ◌==◌, ==-refl, if◌then◌else◌}
use http_harness.Base.Ensures.{ok, err, Ensures, Ensures-ok, Ensures-bind, Ensures-guard, ◌>>=◌}
use http_harness.Domain.Errors.{idempotency_conflict}
use http_harness.Store.Rows
use http_harness.Store.Rows.{Db, Context, Route, IdempotencyRow}
use http_harness.Store.Session.{add_run, add_job}
use http_harness.Store.Tests.{same_route}
use http_harness.Controller.Limits.{Limits}
use http_harness.Controller.Admission.{
  Accepted, find_idempotency, remembered, remember, replay, add_budget, new_run, admit_found,
  admit_run,
}

-- The answer is kept under the key.
record Kept (context : Context) (route : Route) (key fingerprint : ℕ) (a : Accepted) (db : Db)
    : Type 0 where
  row : IdempotencyRow
  at : find_idempotency context route key db.idempotency ≡ some row
  same_request : row.request_hash ≡ fingerprint
  same_resource : row.resource_id ≡ a.resource_id

add_run-idempotency :
    (id : ℕ) (row : Rows.RunRow) (db : Db)
    → Ensures (λ db'. db'.idempotency ≡ db.idempotency) (add_run id row db)
unfolding add_run
add_run-idempotency id row db = Ensures-guard _ _ _ _ λ _. Ensures-ok _ _ refl

add_job-idempotency :
    (id tenant : ℕ) (kind : Rows.JobKind) (run_id : ℕ) (action_id : Option ℕ) (due_at : ℕ) (db : Db)
    → Ensures
        (λ db'. db'.idempotency ≡ db.idempotency)
        (add_job id tenant kind run_id action_id due_at db)
unfolding add_job
add_job-idempotency id tenant kind run_id action_id due_at db =
    Ensures-guard _ _ _ _ λ _. Ensures-ok _ _ refl

add_budget-idempotency :
    (id : ℕ) (limits : Limits) (db : Db)
    → Ensures (λ db'. db'.idempotency ≡ db.idempotency) (add_budget id limits db)
unfolding add_budget
add_budget-idempotency id limits db = Ensures-guard _ _ _ _ λ _. Ensures-ok _ _ refl

same_route_refl : (r : Route) → same_route r r ≡ true
same_route_refl r = ground arith

remember-Kept :
    (context : Context) (route : Route) (key fingerprint id : ℕ) (db : Db)
    → find_idempotency context route key (remember context route key fingerprint id db).idempotency
      ≡ some (remembered context route key fingerprint id)
unfolding find_idempotency remember
remember-Kept context route key fingerprint id db = ground (
  arith,
  ==-refl context.tenant_id,
  ==-refl context.subject_id,
  ==-refl key,
  same_route_refl route,
)

replay-Kept :
    (context : Context) (route : Route) (key fingerprint : ℕ) (existing : IdempotencyRow) (db : Db)
    → find_idempotency context route key db.idempotency ≡ some existing
    → Ensures
        (λ (a, db'). Kept context route key fingerprint a db')
        (replay fingerprint existing db)
unfolding replay
replay-Kept context route key fingerprint existing db found = Ensures-guard _ _ _ _ λ same.
    Ensures-ok _ _
      (record { row = existing; at = found; same_request = ground arith; same_resource = refl })

admit_found-Kept :
    (context : Context) (limits : Limits) (key fingerprint id job_id now : ℕ)
    (existing : Option IdempotencyRow) (db : Db)
    → find_idempotency context Rows.post_runs key db.idempotency ≡ existing
    → Ensures
        (λ (a, db'). Kept context Rows.post_runs key fingerprint a db')
        (admit_found context limits key fingerprint id job_id now existing db)
unfolding admit_found
admit_found-Kept context limits key fingerprint id job_id now (some existing) db found =
    replay-Kept context Rows.post_runs key fingerprint existing db found
admit_found-Kept context limits key fingerprint id job_id now none db found =
    let noted = remember context Rows.post_runs key fingerprint id db in
    Ensures-bind _ _ _ λ added a. Ensures-bind _ _ _ λ queued q. Ensures-bind _ _ _ λ opened o.
      let ra = (add_run-idempotency id (new_run context now) noted).at added a in
      let rq = (add_job-idempotency _ _ _ _ _ _ added).at queued q in
      let ro = (add_budget-idempotency id limits queued).at opened o in
      let kept = remember-Kept context Rows.post_runs key fingerprint id db in
      Ensures-ok _ _ (record {
        row = remembered context Rows.post_runs key fingerprint id;
        at = cc;
        same_request = refl;
        same_resource = refl;
      })

replayed :
    (context : Context) (limits : Limits) (key fingerprint other id job_id now : ℕ) (a : Accepted)
    (db : Db)
    → Kept context Rows.post_runs key fingerprint a db
    → admit_run context limits key other id job_id now db ≡ (
        if fingerprint == other
        then ok (record { resource_id = a.resource_id; replayed = true }, db)
        else err idempotency_conflict)
unfolding admit_run admit_found replay ◌>>=◌
replayed context limits key fingerprint other id job_id now a db kept =
    ground (arith, kept.at, kept.same_request, kept.same_resource)

-- After a request to admit a run was answered, a request of the same subject under the same key gets
-- the same run without any write if its fingerprint is the same, and a conflict if it is not.
pub admit_run-again :
    (context : Context) (limits later : Limits) (key fingerprint other id job_id now : ℕ)
    (id' job_id' now' : ℕ) (a : Accepted) (db db' : Db)
    → admit_run context limits key fingerprint id job_id now db ≡ ok (a, db')
    → admit_run context later key other id' job_id' now' db' ≡ (
        if fingerprint == other
        then ok (record { resource_id = a.resource_id; replayed = true }, db')
        else err idempotency_conflict)
unfolding admit_run
admit_run-again context limits later key fingerprint other id job_id now id' job_id' now' a db db'
      h =
    replayed context later key fingerprint other id' job_id' now' a db'
      ((admit_found-Kept context limits key fingerprint id job_id now _ db refl).at (a, db') h)
