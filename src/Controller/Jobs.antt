-- ===== src/Controller/Jobs.antt =====
-- The durable wake-ups of src/hnh/application/run_controller.py: claiming, renewing, completing and
-- deferring a job under a lease.
pub mod Steps
pub mod Leasing
use http_harness.Base.{
  ℕ, ◌+◌, Bool, true, false, not, ◌&&◌, ◌||◌, Option, none, some, List, [], ◌∷◌, ltb, leb, ◌==◌,
  if◌then◌else◌, member,
}
use http_harness.Base.Table.{Table, lookup}
use http_harness.Base.Ensures.{Result, ok, err, ◌>>=◌, ◌>>◌, guard, require}
use http_harness.Domain.Errors.{value_error, invalid_operation, lease_lost}
use http_harness.Store.Rows
use http_harness.Store.Rows.{Db, JobRow, JobKind, RunRow}
use http_harness.Store.Session.{put_job, is_ready_job}
use http_harness.Store.Lease.{
  ClaimedJob, is_leased, same_kind, leased_job, require_claimed_run_job, require_claimed_cancel_job,
}

abbrev expired : Option ℕ → ℕ → Bool
expired none now = false
expired (some until) now = ltb until now

abbrev wanted : Option JobKind → JobKind → Bool
wanted none kind = true
wanted (some k) kind = same_kind k kind

-- The `WHERE` of `claim_job`; `locked` are the rows that other transactions hold (`SKIP LOCKED`).
unfoldable pub is_claimable : Option JobKind → List ℕ → ℕ → ℕ → JobRow → Bool
is_claimable kind locked now id job =
    (is_ready_job job.status || (is_leased job.status && expired job.lease_until now))
    && leb job.due_at now
    && wanted kind job.kind
    && not (member id locked)

abbrev pub due_before : ℕ → JobRow → ℕ → JobRow → Bool
due_before j a k b = ltb a.due_at b.due_at || (a.due_at == b.due_at && leb j k)

abbrev earlier : Option (ℕ × JobRow) → Option (ℕ × JobRow) → Option (ℕ × JobRow)
earlier none b = b
earlier (some a) none = some a
earlier (some (j, a)) (some (k, b)) = some (if due_before j a k b then (j, a) else (k, b))

-- `ORDER BY due_at, id LIMIT 1`
unfoldable pub first_due : (ℕ → JobRow → Bool) → Table JobRow → Option (ℕ × JobRow)
first_due test [] = none
first_due test ((k, a) ∷ t) = earlier (if test k a then some (k, a) else none) (first_due test t)

abbrev pub claim_of : ℕ → JobRow → ClaimedJob
claim_of id job = record {
  id = id;
  kind = job.kind;
  run_id = job.run_id;
  action_id = job.action_id;
  lease_epoch = job.lease_epoch;
}

abbrev pub leased_to : ℕ → ℕ → JobRow → JobRow
leased_to worker until job = record job {
  status = Rows.leased;
  lease_owner = some worker;
  lease_until = some until;
  lease_epoch = job.lease_epoch + 1;
  attempts = job.attempts + 1;
}

-- The chosen row is leased under the next epoch.
unfoldable pub take_job : ℕ → ℕ → Option (ℕ × JobRow) → Db → Option ClaimedJob × Db
take_job worker seconds none db = (none, db)
take_job worker seconds (some (id, job)) db =
    let leased = leased_to worker (db.clock + seconds) job in
    (some (claim_of id leased), put_job id leased db)

unfoldable pub claim_job : ℕ → ℕ → Option JobKind → List ℕ → Db → Result (Option ClaimedJob × Db)
unfolding take_job
claim_job worker lease_seconds kind locked db = do
  guard (ltb 0 lease_seconds) value_error
  ok (take_job worker lease_seconds (first_due (is_claimable kind locked db.clock) db.jobs) db)

unfoldable pub renew_job_lease : ClaimedJob → ℕ → ℕ → Db → Result (ClaimedJob × Db)
renew_job_lease claimed worker lease_seconds db = do
  guard (ltb 0 lease_seconds) value_error
  job ← leased_job claimed worker db
  let renewed = record job { lease_until = some (db.clock + lease_seconds) }
  ok (claim_of claimed.id renewed, put_job claimed.id renewed db)

unfoldable pub complete_job : ClaimedJob → ℕ → Db → Result (Unit {0} × Db)
complete_job claimed worker db = do
  job ← leased_job claimed worker db
  let finished = record job { status = Rows.done; lease_owner = none; lease_until = none }
  ok (tt, put_job claimed.id finished db)

unfoldable pub defer_job : ClaimedJob → ℕ → ℕ → Db → Result (Unit {0} × Db)
defer_job claimed worker delay_seconds db = do
  guard (ltb 0 delay_seconds) value_error
  job ← leased_job claimed worker db
  let later = record job {
    status = Rows.ready;
    due_at = db.clock + delay_seconds;
    lease_owner = none;
    lease_until = none;
  }
  ok (tt, put_job claimed.id later db)

-- The fence of the kind of job that was claimed; no other kind carries a run's work.
abbrev actor_fence : JobKind → ClaimedJob → ℕ → ℕ → Db → Result (Unit {0})
actor_fence Rows.advance_run claimed worker run_id db =
    require_claimed_run_job (record { claimed_job = some claimed; worker_id = some worker }) run_id
      db
actor_fence Rows.cancel_run claimed worker run_id db =
    require_claimed_cancel_job (record { claimed_job = some claimed; worker_id = some worker })
      run_id db
actor_fence Rows.mcp_task_poll claimed worker run_id db = err invalid_operation

-- The tenant and the subject of a leased run.
unfoldable pub claimed_run_actor : ClaimedJob → ℕ → Db → Result (ℕ × ℕ)
claimed_run_actor claimed worker db = do
  run_id ← require claimed.run_id invalid_operation
  actor_fence claimed.kind claimed worker run_id db
  run ← require (lookup run_id db.runs) lease_lost
  job ← require (lookup claimed.id db.jobs) lease_lost
  guard (job.tenant_id == run.tenant_id) lease_lost
  ok (run.tenant_id, run.subject_id)
