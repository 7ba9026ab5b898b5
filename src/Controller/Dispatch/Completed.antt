-- ===== src/Controller/Dispatch/Completed.antt =====
-- Repeated completions of one action (`complete_action`).
use http_harness.Base.{ℕ, ◌≡◌, refl, arith, Bool, true, none, some, Option, ==-refl}
use http_harness.Base.Table.{lookup, lookup-insert}
use http_harness.Base.Ensures.{
  ok, Ensures, Ensures-ok, Ensures-bind, Ensures-guard, Ensures-require, Ensures-when, ◌>>=◌,
}
use http_harness.Domain.States.{is_succeeded_action}
use http_harness.Store.Rows.{Db, ActionRow, JobRow, ActionResult}
use http_harness.Store.Session.{log_event, put_action, put_attempt}
use http_harness.Store.Lease.{Claim}
use http_harness.Controller.Dispatch.{claimed_row, job_serves, complete_action, completed}
use http_harness.Controller.Dispatch.Once.{claimed_row-same}

-- The action stands as it was returned, and a claim that held still holds.
record Recorded (id : ℕ) (claim : Claim) (new : ActionRow) (db : Db) : Type 0 where
  job : Option JobRow
  held : claimed_row claim.claimed_job claim.worker_id db ≡ ok job
  at : lookup id db.actions ≡ some new
  serves : job_serves job id (some new) ≡ true

job_serves-completed :
    (job : Option JobRow) (id : ℕ) (succeeded : Bool) (result : ActionResult) (action : ActionRow)
    → job_serves job id (some action) ≡ true
    → job_serves job id (some (completed succeeded result action)) ≡ true
job_serves-completed none id succeeded result action h = refl
job_serves-completed (some job) id succeeded result action h = h

claimed_row-kept :
    (claim : Claim) (db db' : Db) (job : Option JobRow)
    → db'.jobs ≡ db.jobs
    → db'.clock ≡ db.clock
    → claimed_row claim.claimed_job claim.worker_id db ≡ ok job
    → claimed_row claim.claimed_job claim.worker_id db' ≡ ok job
claimed_row-kept claim db db' job j c held =
    rw (claimed_row-same claim.claimed_job claim.worker_id db db' j c) held

completed-Recorded :
    (id : ℕ) (result : ActionResult) (succeeded : Bool) (claim : Claim) (db : Db)
    → Ensures
        (λ (new, db'). Recorded id claim new db')
        (complete_action id result succeeded claim db)
unfolding complete_action log_event put_attempt put_action
completed-Recorded id result succeeded claim db = Ensures-bind _ _ _ λ job held.
    Ensures-require _ _ _ _ λ action at. Ensures-guard _ _ _ _ λ serves.
      Ensures-when _ _ _ _
        (λ _. Ensures-ok _ _ (record { job = job; held = held; at = at; serves = serves }))
        (λ _. Ensures-guard _ _ _ _ λ _. Ensures-guard _ _ _ _ λ _. Ensures-bind _ _ _ λ attempt _.
          Ensures-require _ _ _ _ λ run _. Ensures-ok _ _ (record {
            job = job;
            held = claimed_row-kept claim db _ job refl refl held;
            at = ground (
              arith,
              lookup-insert id id (completed succeeded result action) db.actions,
              ==-refl id,
            );
            serves = job_serves-completed job id succeeded result action serves;
          }))

Recorded-again :
    (id : ℕ) (result : ActionResult) (succeeded : Bool) (claim : Claim) (new : ActionRow) (db : Db)
    → Recorded id claim new db
    → is_succeeded_action new.status ≡ true
    → complete_action id result succeeded claim db ≡ ok (new, db)
unfolding complete_action ◌>>=◌
Recorded-again id result succeeded claim new db r done =
    rw r.held (ground (arith, r.at, r.serves, done))

-- Once an action has succeeded, a further completion under the same claim, with whatever receipt and
-- verdict, returns the recorded action and changes nothing.
pub complete_action-again :
    (id : ℕ) (result next_result : ActionResult) (succeeded next_succeeded : Bool) (claim : Claim)
    (new : ActionRow) (db db' : Db)
    → complete_action id result succeeded claim db ≡ ok (new, db')
    → is_succeeded_action new.status ≡ true
    → complete_action id next_result next_succeeded claim db' ≡ ok (new, db')
complete_action-again id result next_result succeeded next_succeeded claim new db db' h done =
    Recorded-again id next_result next_succeeded claim new db'
      ((completed-Recorded id result succeeded claim db).at (new, db') h) done
