-- ===== src/Store/Fences.antt =====
-- When the lease check of src/hnh/application/run_controller.py refuses a claim.
use http_harness.Base.{ℕ, ◌≡◌, refl, Bool, true, false, Option, none, some, arith}
use http_harness.Base.Table.{lookup}
use http_harness.Base.Ensures.{err, ◌>>=◌}
use http_harness.Domain.Errors.{lease_lost}
use http_harness.Store.Rows.{Db, JobRow}
use http_harness.Store.Lease.{
  ClaimedJob, Claim, leased_job, lease_matches, fenced, require_claimed_run_job,
}
use http_harness.Store.Step.Moves.{is_done}

pub leased_job-refused :
    (claimed : ClaimedJob) (worker : ℕ) (db : Db) (job : JobRow)
    → lookup claimed.id db.jobs ≡ some job
    → lease_matches (some job) claimed worker db.clock ≡ false
    → leased_job claimed worker db ≡ err lease_lost
unfolding leased_job ◌>>=◌
leased_job-refused claimed worker db job found off = ground (arith)

-- No claim of a completed job matches.
pub lease_matches_done :
    (job : JobRow) (claimed : ClaimedJob) (worker now : ℕ)
    → is_done job.status ≡ true
    → lease_matches (some job) claimed worker now ≡ false
unfolding lease_matches
lease_matches_done job claimed worker now h = ground arith

-- A fence reads nothing but the jobs and the clock.
module _ (db db' : Db) (same_jobs : db'.jobs ≡ db.jobs) (same_clock : db'.clock ≡ db.clock) where
  pub leased_job-same :
      (claimed : ClaimedJob) (worker : ℕ)
      → leased_job claimed worker db' ≡ leased_job claimed worker db
  unfolding leased_job
  leased_job-same claimed worker = cc

  fenced-same :
      (test : JobRow → Bool) (claimed : Option ClaimedJob) (worker : Option ℕ)
      → fenced test claimed worker db' ≡ fenced test claimed worker db
  unfolding fenced
  fenced-same test none worker = refl
  fenced-same test (some claimed) none = refl
  fenced-same test (some claimed) (some worker) = rw (leased_job-same claimed worker) refl

  pub require_claimed_run_job-same :
      (claim : Claim) (run_id : ℕ)
      → require_claimed_run_job claim run_id db' ≡ require_claimed_run_job claim run_id db
  unfolding require_claimed_run_job
  require_claimed_run_job-same claim run_id = fenced-same _ claim.claimed_job claim.worker_id
