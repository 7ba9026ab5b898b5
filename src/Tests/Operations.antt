-- ===== src/Tests/Operations.antt =====
-- The theorems on single operations at concrete stores.
use http_harness.Base.{◌+◌, ◌≤◌, ◌≡◌, refl, arith, none, some, [], ◌∷◌, false}
use http_harness.Base.Table.{lookup, insert}
use http_harness.Base.Unique.{HasUniqueKeys}
use http_harness.Base.Ensures.{ok, ◌>>=◌}
use http_harness.Store.Rows
use http_harness.Store.Rows.{Db, RunRow, ActionRow, Context, ReservationRow}
use http_harness.Store.Lease.{leased_job}
use http_harness.Store.Session.{owned_run, put_job}
use http_harness.Controller.Admission
use http_harness.Controller.Admission.{Accepted, admit_run}
use http_harness.Controller.Jobs
use http_harness.Controller.Jobs.{claim_job, complete_job, is_claimable}
use http_harness.Controller.Jobs.Leasing.{Claimed, claim_job-Claimed, claim_job-leased_job}
use http_harness.Controller.Runs
use http_harness.Controller.Runs.{
  effective_context, transition_run, finalize_run_cancellation, terminate_run, stopped, moved_to,
}
use http_harness.Controller.Runs.Scopes.{Grants, effective_context-Grants}
use http_harness.Calls.{Call, perform, run_call}
use http_harness.Tests.Stores.{alice, first_claim, admitted_db, claimed_db, claim_at}

abbrev leased_db : Db
leased_db = perform first_claim admitted_db

unique : HasUniqueKeys admitted_db.jobs
unfolding run_call Admission.admit_run lookup insert ◌>>=◌
unique = (refl, tt)

first_claimed : claim_job 9 30 none [] admitted_db ≡ ok (some (claim_at 1), leased_db)
unfolding run_call Admission.admit_run Jobs.claim_job Jobs.first_due Jobs.is_claimable lookup insert
    ◌>>=◌ put_job
first_claimed = refl

claim_job-Claimed_example : Claimed 9 30 none [] admitted_db (claim_at 1) leased_db
claim_job-Claimed_example =
    claim_job-Claimed 9 30 none [] admitted_db (claim_at 1) leased_db unique first_claimed

idle : claim_job 3 30 none [] claimed_db ≡ ok (none, claimed_db)
unfolding run_call Admission.admit_run Jobs.claim_job Jobs.first_due Jobs.is_claimable lookup insert
    ◌>>=◌ put_job
idle = refl

clock-admitted : 120 ≤ admitted_db.clock + 30
unfolding run_call Admission.admit_run lookup insert ◌>>=◌
clock-admitted = omega arith

claim_job-leased_job_example :
    (row : Rows.JobRow) × (leased_job (claim_at 1) 9 (record leased_db { clock = 120 }) ≡ ok row)
    × (lookup 2 leased_db.jobs ≡ some row)
    × (is_claimable none [] 120 2 row ≡ false)
claim_job-leased_job_example =
    claim_job-leased_job 9 30 120 none [] admitted_db (claim_at 1) leased_db none [] unique
      first_claimed clock-admitted

abbrev finished_db : Db
finished_db = perform (Call.complete_job (claim_at 2) 10) claimed_db

finished : complete_job (claim_at 2) 10 claimed_db ≡ ok (tt, finished_db)
unfolding run_call Admission.admit_run Jobs.claim_job Jobs.first_due Jobs.is_claimable lookup insert
    ◌>>=◌ put_job complete_job leased_job
finished = refl

-- Alice with another session's scopes.
abbrev narrow_alice : Context
narrow_alice = record alice { scopes = 9 ∷ 7 ∷ [] }

narrowed : effective_context narrow_alice 1 admitted_db ≡ ok (record alice { scopes = 7 ∷ [] })
unfolding run_call Admission.admit_run lookup insert ◌>>=◌ Runs.effective_context owned_run
narrowed = refl

effective_context-Grants_example :
    (run : RunRow) × (lookup 1 admitted_db.runs ≡ some run) × Grants narrow_alice run 7
effective_context-Grants_example =
    effective_context-Grants narrow_alice (record alice { scopes = 7 ∷ [] }) 1 admitted_db 7
      narrowed refl
