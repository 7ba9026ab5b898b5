-- ===== src/Store/Lease.antt =====
-- Worker leases: what a claim carries, when it still holds, and the fences that a transaction puts
-- before its writes (`_lease_matches` and the `_require_claimed_*_locked` methods of
-- src/hnh/application/run_controller.py).
use http_harness.Base.{
  ℕ, ◌≡◌, ◌<◌, Bool, true, false, ◌&&◌, Option, none, some, leb, ◌==◌, ◌==?◌, arith,
}
use http_harness.Base.Table.{lookup}
use http_harness.Base.Ensures.{Result, ok, err, ◌>>=◌, ◌>>◌, guard, require}
use http_harness.Domain.Errors.{lease_lost, value_error}
use http_harness.Store.Rows

-- `ClaimedJob`
pub record ClaimedJob : Type 0 where
  pub id : ℕ
  pub kind : Rows.JobKind
  pub run_id : Option ℕ
  pub action_id : Option ℕ
  pub lease_epoch : ℕ

-- The optional `claimed_job` and `worker_id` arguments of an operation.
pub record Claim : Type 0 where
  pub claimed_job : Option ClaimedJob
  pub worker_id : Option ℕ

abbrev pub unclaimed : Claim
unclaimed = record { claimed_job = none; worker_id = none }

abbrev pub is_leased : Rows.JobStatus → Bool
is_leased Rows.leased = true
is_leased _ = false

abbrev pub still_runs : Option ℕ → ℕ → Bool
still_runs none now = false
still_runs (some until) now = leb now until

unfoldable pub lease_matches : Option Rows.JobRow → ClaimedJob → ℕ → ℕ → Bool
lease_matches none claimed worker now = false
lease_matches (some job) claimed worker now =
    is_leased job.status
    && job.lease_owner ==? some worker
    && job.lease_epoch == claimed.lease_epoch
    && still_runs job.lease_until now

abbrev pub same_kind : Rows.JobKind → Rows.JobKind → Bool
same_kind Rows.advance_run Rows.advance_run = true
same_kind Rows.cancel_run Rows.cancel_run = true
same_kind Rows.mcp_task_poll Rows.mcp_task_poll = true
same_kind _ _ = false

-- The job of a claim, if the lease still matches.
unfoldable pub leased_job : ClaimedJob → ℕ → Rows.Db → Result Rows.JobRow
unfolding lease_matches
leased_job claimed worker db = do
  guard (lease_matches (lookup claimed.id db.jobs) claimed worker db.clock) lease_lost
  require (lookup claimed.id db.jobs) lease_lost

-- A fence: nothing to check without a claim; else the lease must match and the job pass the test.
unfoldable pub fenced :
    (Rows.JobRow → Bool) → Option ClaimedJob → Option ℕ → Rows.Db → Result (Unit {0})
unfolding leased_job
fenced test none worker db = ok tt
fenced test (some claimed) none db = err value_error
fenced test (some claimed) (some worker) db = do
  job ← leased_job claimed worker db
  guard (test job) lease_lost

unfoldable pub require_claimed_run_job : Claim → ℕ → Rows.Db → Result (Unit {0})
unfolding fenced
require_claimed_run_job c run_id =
    fenced (λ job. job.run_id ==? some run_id && same_kind job.kind Rows.advance_run) c.claimed_job
      c.worker_id

unfoldable pub require_claimed_cancel_job : Claim → ℕ → Rows.Db → Result (Unit {0})
unfolding fenced
require_claimed_cancel_job c run_id =
    fenced (λ job. job.run_id ==? some run_id && same_kind job.kind Rows.cancel_run) c.claimed_job
      c.worker_id

unfoldable pub require_claimed_job : Claim → ℕ → Rows.Db → Result (Unit {0})
unfolding fenced
require_claimed_job c action_id =
    fenced (λ job. job.action_id ==? some action_id && same_kind job.kind Rows.mcp_task_poll)
      c.claimed_job c.worker_id

-- A claim of an older epoch than its job's never matches.
pub lease_matches_stale :
    (job : Rows.JobRow) (claimed : ClaimedJob) (worker now : ℕ)
    → claimed.lease_epoch < job.lease_epoch
    → lease_matches (some job) claimed worker now ≡ false
unfolding lease_matches
lease_matches_stale job claimed worker now h = ground arith
