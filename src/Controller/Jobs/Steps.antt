-- ===== src/Controller/Jobs/Steps.antt =====
-- The methods on jobs as steps of the store.
use http_harness.Base.{
  ℕ, ◌≡◌, refl, arith, true, none, some, Option, List, [], ◌∷◌, Bool, ◌≢◌, Option-cases, inl, inr,
}
use http_harness.Base.Table.{Table, lookup}
use http_harness.Base.Unique.{HasUniqueKeys}
use http_harness.Base.Ensures.{Ensures, Ensures-ok, Ensures-bind, Ensures-guard, ok, ◌>>=◌}
use http_harness.Store.Rows.{Db, JobRow, JobKind, JobStatus}
use http_harness.Store.Lease.{ClaimedJob, leased_job, is_leased}
use http_harness.Store.Session.{put_job}
use http_harness.Store.Step.{Step, Step-refl, Commits}
use http_harness.Store.Step.Moves.{is_done}
use http_harness.Store.Step.Writes.{put_job-Step, put_job-Step_unique}
use http_harness.Controller.Jobs.{
  first_due, is_claimable, take_job, claim_job, renew_job_lease, complete_job, defer_job,
  due_before,
}

-- A matching lease is on a row of the table, which is leased to the worker at the claim's epoch.
pub leased_job-ok :
    (claimed : ClaimedJob) (worker : ℕ) (db : Db) (job : JobRow)
    → leased_job claimed worker db ≡ ok job
    → (lookup claimed.id db.jobs ≡ some job)
      × (is_leased job.status ≡ true)
      × (job.lease_owner ≡ some worker)
      × (job.lease_epoch ≡ claimed.lease_epoch)
unfolding leased_job ◌>>=◌
leased_job-ok claimed worker db job h = ground arith

leased_not_done : (job : JobRow) → is_leased job.status ≡ true → is_done job.status ≡ true → ⊥
leased_not_done job h finished = ground arith

-- The row that `claim_job` selects is in the table and passes the test.
pub first_due-lookup :
    (test : ℕ → JobRow → Bool) (t : Table JobRow) (id : ℕ) (job : JobRow)
    → HasUniqueKeys t
    → first_due test t ≡ some (id, job)
    → (lookup id t ≡ some job) × (test id job ≡ true)
unfolding first_due lookup
first_due-lookup test [] id job u h = cc
first_due-lookup test ((k, a) ∷ t) id job u h = ground (arith, first_due-lookup test t id job u.1)

pub first_due-some :
    (test : ℕ → JobRow → Bool) (t : Table JobRow) (j : ℕ) (b : JobRow)
    → lookup j t ≡ some b
    → test j b ≡ true
    → first_due test t ≢ none
unfolding first_due lookup
first_due-some test [] j b at pass h = cc
first_due-some test ((k, a) ∷ t) j b at pass h = ground (arith, first_due-some test t j b)

-- No claimable row comes before it in the order of `(due_at, id)`.
pub first_due-least :
    (test : ℕ → JobRow → Bool) (t : Table JobRow) (id : ℕ) (job : JobRow) (j : ℕ) (b : JobRow)
    → lookup j t ≡ some b
    → test j b ≡ true
    → first_due test t ≡ some (id, job)
    → due_before id job j b ≡ true
unfolding first_due lookup
first_due-least test [] id job j b at pass h = cc
first_due-least test ((k, a) ∷ t) id job j b at pass h = elim (Option-cases (first_due test t)) [
  | inl last ↦ ground (arith, first_due-some test t j b)
  | inr ((i, c), e) ↦ ground (arith, first_due-least test t i c j b)
]

claimable_not_done :
    (kind : Option JobKind) (locked : List ℕ) (now id : ℕ) (job : JobRow)
    → is_claimable kind locked now id job ≡ true
    → is_done job.status ≡ true
    → ⊥
unfolding is_claimable
claimable_not_done kind locked now id job h finished = ground arith

take_job-Step :
    (worker seconds : ℕ) (kind : Option JobKind) (locked : List ℕ) (db : Db)
    (chosen : Option (ℕ × JobRow))
    → first_due (is_claimable kind locked db.clock) db.jobs ≡ chosen
    → Commits db (take_job worker seconds chosen db)
unfolding take_job
take_job-Step worker seconds kind locked db none e = Step-refl db
take_job-Step worker seconds kind locked db (some (id, job)) e =
    put_job-Step_unique id job _ db (λ u.
      let (found, claimable) = first_due-lookup _ db.jobs id job u e in
      (
        found,
        record {
          same_kind = refl;
          same_run = refl;
          same_action = refl;
          same_tenant = refl;
          epoch_grows = omega arith;
          done_stays = λ finished.
              absurd (claimable_not_done kind locked db.clock id job claimable finished);
        },
      ))

pub claim_job-Step :
    (worker seconds : ℕ) (kind : Option JobKind) (locked : List ℕ) (db : Db)
    → Ensures (Commits db) (claim_job worker seconds kind locked db)
unfolding claim_job
claim_job-Step worker seconds kind locked db =
    Ensures-guard _ _ _ _ λ _. Ensures-ok _ _ (take_job-Step worker seconds kind locked db _ refl)

-- A leased job that is rewritten for the same purpose and at its own epoch.
module _ (claimed : ClaimedJob) (worker : ℕ) (db : Db) (job : JobRow)
    (held : leased_job claimed worker db ≡ ok job) where
  rewritten :
      (status : JobStatus) (due_at : ℕ) (owner until : Option ℕ)
      → Step db (
          put_job claimed.id
            (record job {
              status = status;
              due_at = due_at;
              lease_owner = owner;
              lease_until = until;
            })
            db)
  rewritten status due_at owner until =
      put_job-Step claimed.id job _ db (leased_job-ok claimed worker db job held).0 (record {
        same_kind = refl;
        same_run = refl;
        same_action = refl;
        same_tenant = refl;
        epoch_grows = omega arith;
        done_stays = λ finished.
            absurd (leased_not_done job (leased_job-ok claimed worker db job held).1 finished);
      })

pub renew_job_lease-Step :
    (claimed : ClaimedJob) (worker seconds : ℕ) (db : Db)
    → Ensures (Commits db) (renew_job_lease claimed worker seconds db)
unfolding renew_job_lease
renew_job_lease-Step claimed worker seconds db = Ensures-guard _ _ _ _ λ _.
    Ensures-bind _ _ _ λ job held.
      Ensures-ok _ _ (rewritten claimed worker db job held job.status job.due_at job.lease_owner _)

pub complete_job-Step :
    (claimed : ClaimedJob) (worker : ℕ) (db : Db)
    → Ensures (Commits db) (complete_job claimed worker db)
unfolding complete_job
complete_job-Step claimed worker db =
    Ensures-bind _ _ _
      λ job held. Ensures-ok _ _ (rewritten claimed worker db job held _ job.due_at _ _)

pub defer_job-Step :
    (claimed : ClaimedJob) (worker seconds : ℕ) (db : Db)
    → Ensures (Commits db) (defer_job claimed worker seconds db)
unfolding defer_job
defer_job-Step claimed worker seconds db = Ensures-guard _ _ _ _ λ _.
    Ensures-bind _ _ _ λ job held. Ensures-ok _ _ (rewritten claimed worker db job held _ _ _ _)
