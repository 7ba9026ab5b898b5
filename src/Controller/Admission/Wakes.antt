-- ===== src/Controller/Admission/Wakes.antt =====
-- What an admission leaves for the workers (`admit_run`).
use http_harness.Base.{ℕ, ◌≤◌, ◌≡◌, refl, arith, true, false, none, some, Option, [], ==-refl}
use http_harness.Base.Table.{lookup, lookup-insert}
use http_harness.Base.Ensures.{ok, Ensures, Ensures-ok, Ensures-bind, Ensures-guard}
use http_harness.Domain.States.{RunStatus}
use http_harness.Store.Rows
use http_harness.Store.Rows.{Db, RunRow, JobRow, Context, IdempotencyRow}
use http_harness.Store.Session.{add_run, add_job}
use http_harness.Controller.Limits.{Limits}
use http_harness.Controller.Jobs.{is_claimable}
use http_harness.Controller.Admission.{
  Accepted, add_budget, new_run, remember, replay, admit_found, admit_run,
}

-- A queued run of the caller, and a job for it that any worker can claim from `now` on.
pub record IsQueued (context : Context) (id job_id now : ℕ) (db : Db) : Type 0 where
  pub run : RunRow
  pub job : JobRow
  pub run_at : lookup id db.runs ≡ some run
  pub queued : run.status ≡ RunStatus.queued
  pub owned : (run.tenant_id ≡ context.tenant_id) × (run.subject_id ≡ context.subject_id)
  pub scopes : run.admitted_scopes ≡ context.scopes
  pub job_at : lookup job_id db.jobs ≡ some job
  pub of_run : job.run_id ≡ some id
  pub claimable :
      (clock : ℕ) → now ≤ clock → is_claimable (some Rows.advance_run) [] clock job_id job ≡ true

add_run-row :
    (id : ℕ) (row : RunRow) (db : Db)
    → Ensures (λ db'. lookup id db'.runs ≡ some (record row { event_seq = 1 })) (add_run id row db)
unfolding add_run
add_run-row id row db = Ensures-guard _ _ _ _ λ _.
    Ensures-ok _ _
      (ground (arith, lookup-insert id id (record row { event_seq = 1 }) db.runs, ==-refl id))

abbrev wake : ℕ → ℕ → ℕ → JobRow
wake tenant run_id now = record {
  tenant_id = tenant;
  kind = Rows.advance_run;
  run_id = some run_id;
  action_id = none;
  status = Rows.ready;
  due_at = now;
  lease_owner = none;
  lease_until = none;
  lease_epoch = 0;
  attempts = 0;
}

add_job-row :
    (id tenant run_id now : ℕ) (db : Db)
    → Ensures
        (λ db'. (lookup id db'.jobs ≡ some (wake tenant run_id now)) × (db'.runs ≡ db.runs))
        (add_job id tenant Rows.advance_run run_id none now db)
unfolding add_job
add_job-row id tenant run_id now db = Ensures-guard _ _ _ _ λ _.
    Ensures-ok _ _
      (ground (arith, lookup-insert id id (wake tenant run_id now) db.jobs, ==-refl id), refl)

add_budget-same :
    (id : ℕ) (limits : Limits) (db : Db)
    → Ensures (λ db'. (db'.jobs ≡ db.jobs) × (db'.runs ≡ db.runs)) (add_budget id limits db)
unfolding add_budget
add_budget-same id limits db = Ensures-guard _ _ _ _ λ _. Ensures-ok _ _ (refl, refl)

wake-claimable :
    (tenant run_id now clock id : ℕ)
    → now ≤ clock
    → is_claimable (some Rows.advance_run) [] clock id (wake tenant run_id now) ≡ true
unfolding is_claimable
wake-claimable tenant run_id now clock id h = ground arith

admit_found-IsQueued :
    (context : Context) (limits : Limits) (key fingerprint id job_id now : ℕ)
    (existing : Option IdempotencyRow) (db : Db)
    → Ensures
        (λ (a, db'). a.replayed ≡ false → (a.resource_id ≡ id) × IsQueued context id job_id now db')
        (admit_found context limits key fingerprint id job_id now existing db)
unfolding admit_found replay
admit_found-IsQueued context limits key fingerprint id job_id now (some existing) db =
    Ensures-guard _ _ _ _ λ _. Ensures-ok _ _ (λ fresh. absurd (cc))
admit_found-IsQueued context limits key fingerprint id job_id now none db =
    let noted = remember context Rows.post_runs key fingerprint id db in
    Ensures-bind _ _ _ λ added a. Ensures-bind _ _ _ λ queued q. Ensures-bind _ _ _ λ opened o.
      let ra = (add_run-row id (new_run context now) noted).at added a in
      let (rj, rr) = (add_job-row job_id context.tenant_id id now added).at queued q in
      let (sj, sr) = (add_budget-same id limits queued).at opened o in
      Ensures-ok _ _ (λ fresh. (
        refl,
        record {
          run = record (new_run context now) { event_seq = 1 };
          job = wake context.tenant_id id now;
          run_at = rw sr (rw rr ra);
          queued = refl;
          owned = (refl, refl);
          scopes = refl;
          job_at = rw sj rj;
          of_run = refl;
          claimable = λ clock due. wake-claimable context.tenant_id id now clock job_id due;
        },
      ))

-- An admission that is not a replay leaves a queued run of the caller, with the caller's scopes, and
-- a job for it that every worker that looks for work on runs can claim from then on.
pub admit_run-IsQueued :
    (context : Context) (limits : Limits) (key fingerprint id job_id now : ℕ) (a : Accepted)
    (db db' : Db)
    → admit_run context limits key fingerprint id job_id now db ≡ ok (a, db')
    → a.replayed ≡ false
    → (a.resource_id ≡ id) × IsQueued context id job_id now db'
unfolding admit_run
admit_run-IsQueued context limits key fingerprint id job_id now a db db' h fresh =
    (admit_found-IsQueued context limits key fingerprint id job_id now _ db).at (a, db') h fresh
