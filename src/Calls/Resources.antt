-- ===== src/Calls/Resources.antt =====
-- Budgets, actions and leases through sequences of calls.
use http_harness.Base.{ℕ, ◌<◌, ◌≡◌, refl, ap, subst, true, some, arith}
use http_harness.Base.Table.{lookup}
use http_harness.Base.Unique.{HasUniqueKeys}
use http_harness.Base.Ensures.{ok, err, ◌>>=◌}
use http_harness.Domain.Errors.{lease_lost}
use http_harness.Store.Rows.{Db, ActionRow, JobRow}
use http_harness.Store.Lease.{ClaimedJob, leased_job, lease_matches_stale}
use http_harness.Store.Funding.{IsFunded}
use http_harness.Store.Funding.Sums.{active}
use http_harness.Store.Step.Moves.{Bound, Leased, is_done}
use http_harness.Store.Fences.{leased_job-refused, lease_matches_done}
use http_harness.Controller.Jobs.{complete_job}
use http_harness.Controller.Jobs.Leasing.{complete_job-done}
use http_harness.Calls.{Call, Reaches, empty, run_call, committed, store_of}
use http_harness.Calls.Reach.{Reaches-Step}

-- In every store reached from the empty one, no run has used and reserved more of a limited
-- dimension than its limit, whatever was reserved, settled, released, given to children or dropped
-- by a termination.
pub Reaches-IsFunded :
    (now : ℕ) (db : Db) → Reaches (empty now) db → IsFunded db.budgets db.reservations
unfolding lookup active
Reaches-IsFunded now db r =
    (Reaches-Step r).funded (record {
      within = λ id b d limit at max. absurd (cc);
      unopened = λ id d h. refl;
      unique = tt;
    })

-- An action is never removed; whatever sequence of calls follows, its slot, request, capability,
-- policy, scopes and owner stay, its version does not fall, and its status moves along the edges that
-- the methods allow one by one, `action_transitions`, at most one for each version that was counted
-- meanwhile, beside the cancellation of what was never dispatched, which counts none.
pub Reaches-Bound :
    {db db' : Db} (id : ℕ) (action : ActionRow)
    → Reaches db db'
    → lookup id db.actions ≡ some action
    → (later : ActionRow) × (lookup id db'.actions ≡ some later) × Bound action later
Reaches-Bound id action r found = (Reaches-Step r).bound.at id action found

Reaches-jobs : {now : ℕ} {db : Db} → Reaches (empty now) db → HasUniqueKeys db.jobs
Reaches-jobs r = ((Reaches-Step r).leased tt).0

Reaches-Leased :
    {now : ℕ} {db db' : Db} (id : ℕ) (job : JobRow)
    → Reaches (empty now) db
    → Reaches db db'
    → lookup id db.jobs ≡ some job
    → (later : JobRow) × (lookup id db'.jobs ≡ some later) × Leased job later
Reaches-Leased id job start r found =
    ((Reaches-Step r).leased (Reaches-jobs start)).1.at id job found

-- Fencing: once a job was leased under a newer epoch, a claim of the older epoch is refused in every
-- later store, for every worker.
pub Reaches-leased_job_stale :
    {now : ℕ} {db db' : Db} (claimed : ClaimedJob) (worker : ℕ) (job : JobRow)
    → Reaches (empty now) db
    → Reaches db db'
    → lookup claimed.id db.jobs ≡ some job
    → claimed.lease_epoch < job.lease_epoch
    → leased_job claimed worker db' ≡ err lease_lost
Reaches-leased_job_stale {db' = db'} claimed worker job start r found older =
    let (later, at, leased) = Reaches-Leased claimed.id job start r found in
    leased_job-refused claimed worker db' later at
      (lease_matches_stale later claimed worker db'.clock (omega (arith, leased.epoch_grows)))

completed_later :
    {now : ℕ} (claimed : ClaimedJob) (worker : ℕ) (u : Unit {0}) (db db' : Db)
    → Reaches (empty now) db
    → complete_job claimed worker db ≡ ok (u, db')
    → Reaches (empty now) db'
unfolding run_call
completed_later claimed worker u db db' start h =
    subst (Reaches _) (ap (λ r. committed db (store_of r)) h)
      (Reaches.after start (Call.complete_job claimed worker))

complete_job-refused :
    (claimed : ClaimedJob) (worker : ℕ) (db : Db)
    → leased_job claimed worker db ≡ err lease_lost
    → complete_job claimed worker db ≡ err lease_lost
unfolding complete_job ◌>>=◌
complete_job-refused claimed worker db h = rw h refl

-- A completed job is never worked on again: every claim of it is refused in every later store.
pub Reaches-leased_job_done :
    {now : ℕ} {db db' : Db} (claimed : ClaimedJob) (worker : ℕ) (job : JobRow)
    → Reaches (empty now) db
    → Reaches db db'
    → lookup claimed.id db.jobs ≡ some job
    → is_done job.status ≡ true
    → leased_job claimed worker db' ≡ err lease_lost
Reaches-leased_job_done {db' = db'} claimed worker job start r found done =
    let (later, at, leased) = Reaches-Leased claimed.id job start r found in
    leased_job-refused claimed worker db' later at
      (lease_matches_done later claimed worker db'.clock (leased.done_stays done))

-- A job is completed once: from the completion on, every claim of its row is refused in every later
-- store, whatever the claim's epoch and worker, so that no further completion gets through.
pub Reaches-complete_job :
    {now : ℕ} {db db' db'' : Db} (claimed later : ClaimedJob) (worker other : ℕ) (u : Unit {0})
    → Reaches (empty now) db
    → complete_job claimed worker db ≡ ok (u, db')
    → Reaches db' db''
    → later.id ≡ claimed.id
    → (leased_job later other db'' ≡ err lease_lost)
      × (complete_job later other db'' ≡ err lease_lost)
Reaches-complete_job {db = db} {db' = db'} {db'' = db''} claimed later worker other u start h r
      same =
    let (row, at, done) = (complete_job-done claimed worker db).at (u, db') h in
    let refused =
      Reaches-leased_job_done later other row (completed_later claimed worker u db db' start h) r
        (rw same at) done in
    (refused, complete_job-refused later other db'' refused)
