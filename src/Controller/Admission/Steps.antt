-- ===== src/Controller/Admission/Steps.antt =====
-- The admission of a run as a step of the store.
use http_harness.Base.{ℕ, ◌≡◌, arith, Option, none, some, is_none→eq}
use http_harness.Base.Ensures.{Ensures, Ensures-ok, Ensures-bind, Ensures-guard}
use http_harness.Base.Grows.{Grows-refl}
use http_harness.Store.Rows
use http_harness.Store.Rows.{Db, Context, Route, IdempotencyRow, Dimension}
use http_harness.Store.Funding.{used}
use http_harness.Store.Funding.Keeps.{open-IsFunded}
use http_harness.Store.Trace.{Trace}
use http_harness.Store.Step.{Step, Step-refl, Step-trans, Commits}
use http_harness.Store.Step.Moves.{Bound-refl, Leased-refl}
use http_harness.Store.Step.Writes.{add_run-Step, add_job-Step}
use http_harness.Controller.Limits.{Limits, new_budget}
use http_harness.Controller.Admission.{
  remember, replay, add_budget, new_run, admit_found, admit_run,
}

pub remember-Step :
    (context : Context) (route : Route) (key fingerprint id : ℕ) (db : Db)
    → Step db (remember context route key fingerprint id db)
unfolding remember
remember-Step context route key fingerprint id db = record {
  trace = Trace.here;
  funded = λ h. h;
  bound = Grows-refl Bound-refl db.actions;
  leased = λ u. (u, Grows-refl Leased-refl db.jobs);
}

pub replay-Step :
    (fingerprint : ℕ) (existing : IdempotencyRow) (db : Db)
    → Ensures (Commits db) (replay fingerprint existing db)
unfolding replay
replay-Step fingerprint existing db = Ensures-guard _ _ _ _ λ _. Ensures-ok _ _ (Step-refl db)

used-new_budget : (limits : Limits) (d : Dimension) → used d (new_budget limits) ≡ 0
unfolding used
used-new_budget limits d = ground arith

pub add_budget-Step :
    (id : ℕ) (limits : Limits) (db : Db) → Ensures (Step db) (add_budget id limits db)
unfolding add_budget
add_budget-Step id limits db = Ensures-guard _ _ _ _ λ free. Ensures-ok _ _ (record {
  trace = Trace.here;
  funded = λ funded.
      open-IsFunded db.budgets db.reservations id (new_budget limits) (is_none→eq free)
        (used-new_budget limits) funded;
  bound = Grows-refl Bound-refl db.actions;
  leased = λ u. (u, Grows-refl Leased-refl db.jobs);
})

admit_found-Step :
    (context : Context) (limits : Limits) (key fingerprint id job_id now : ℕ)
    (existing : Option IdempotencyRow) (db : Db)
    → Ensures (Commits db) (admit_found context limits key fingerprint id job_id now existing db)
unfolding admit_found
admit_found-Step context limits key fingerprint id job_id now (some existing) db =
    replay-Step fingerprint existing db
admit_found-Step context limits key fingerprint id job_id now none db =
    let noted = remember context Rows.post_runs key fingerprint id db in
    Ensures-bind _ _ _ λ added a. Ensures-bind _ _ _ λ queued q. Ensures-bind _ _ _ λ opened o.
      Ensures-ok _ _ (
        Step-trans db noted opened (remember-Step context Rows.post_runs key fingerprint id db) (
          Step-trans noted added opened
            ((add_run-Step id (new_run context now) noted (λ p parent. absurd (cc))).at added a)
            (Step-trans added queued opened ((add_job-Step _ _ _ _ _ _ added).at queued q)
              ((add_budget-Step id limits queued).at opened o))))

pub admit_run-Step :
    (context : Context) (limits : Limits) (key fingerprint id job_id now : ℕ) (db : Db)
    → Ensures (Commits db) (admit_run context limits key fingerprint id job_id now db)
unfolding admit_run
admit_run-Step context limits key fingerprint id job_id now db =
    admit_found-Step context limits key fingerprint id job_id now _ db
