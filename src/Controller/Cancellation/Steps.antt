-- ===== src/Controller/Cancellation/Steps.antt =====
-- `request_cancellation` as a step of the store.
use http_harness.Base.{ℕ, ◌≡◌, refl, Option, none, some, List, [], ◌∷◌}
use http_harness.Base.Table.{Table, lookup}
use http_harness.Base.Ensures.{
  Ensures, Ensures-ok, Ensures-bind, Ensures-guard, Ensures-require, Ensures-when,
}
use http_harness.Domain.States.{RunStatus, is_terminal}
use http_harness.Store.Rows
use http_harness.Store.Rows.{Db, RunRow, Context, IdempotencyRow}
use http_harness.Store.Session.{log_event, cancel_open_actions}
use http_harness.Store.Step.{Step, Step-refl, Step-trans, Commits}
use http_harness.Store.Step.Writes.{add_job-Step, cancel_open_actions-Step}
use http_harness.Controller.Runs.{moved_to}
use http_harness.Controller.Runs.Steps.{live_move, owned_run-lookup}
use http_harness.Controller.Admission.{remember}
use http_harness.Controller.Admission.Steps.{remember-Step, replay-Step}
use http_harness.Controller.Cancellation.{
  start_cancelling, visit, propagate, cancel_run_tree, cancellation_found, request_cancellation,
}

cancel_open_actions-runs : (id : ℕ) (db : Db) → (cancel_open_actions id db).runs ≡ db.runs
unfolding cancel_open_actions
cancel_open_actions-runs id db = refl

pub remember-runs :
    (context : Context) (route : Rows.Route) (key fingerprint id : ℕ) (db : Db)
    → (remember context route key fingerprint id db).runs ≡ db.runs
unfolding remember
remember-runs context route key fingerprint id db = refl

pub start_cancelling-Step :
    (id : ℕ) (run : RunRow) (job_id now : ℕ) (db : Db)
    → lookup id db.runs ≡ some run
    → Ensures (Step db) (start_cancelling id run job_id now db)
unfolding start_cancelling is_terminal
start_cancelling-Step id run job_id now db found =
    let closed = cancel_open_actions id db in
    let moved =
      log_event id (moved_to RunStatus.cancelling run) Rows.run_cancellation_requested closed in
    Ensures-bind _ _ _ λ _ allowed. record {
      at = λ db' added. Step-trans db closed db' (cancel_open_actions-Step id db) (
          Step-trans closed moved db'
            (live_move id run closed (rw (cancel_open_actions-runs id db) found)
              RunStatus.cancelling run.failure Rows.run_cancellation_requested allowed refl)
            ((add_job-Step _ _ _ _ _ _ moved).at db' added));
    }

pub visit-Step :
    (job_ids : ℕ → ℕ) (now : ℕ) (pending : List ℕ) (id : ℕ) (db : Db)
    → Ensures (Commits db) (visit job_ids now pending id db)
unfolding visit
visit-Step job_ids now pending id db = Ensures-require _ _ _ _ λ child found.
    Ensures-when _ _ _ _
      (λ _.
        Ensures-when _ _ _ _ (λ _. Ensures-ok _ _ (Step-refl db))
          (λ _. Ensures-bind _ _ _ λ moved m.
            Ensures-ok _ _ ((start_cancelling-Step id child (job_ids id) now db found).at moved m)))
      (λ _. Ensures-ok _ _ (Step-refl db))

pub propagate-Step :
    (job_ids : ℕ → ℕ) (now : ℕ) (pending : List ℕ) (rows : Table RunRow) (db : Db)
    → Ensures (Step db) (propagate job_ids now pending rows db)
unfolding propagate
propagate-Step job_ids now pending [] db = Ensures-ok _ _ (Step-refl db)
propagate-Step job_ids now pending ((id, r) ∷ t) db = Ensures-bind _ _ _ λ (seen, moved) v. record {
  at = λ db' p.
      Step-trans db moved db' ((visit-Step job_ids now pending id db).at (seen, moved) v)
        ((propagate-Step job_ids now seen t moved).at db' p);
}

cancel_run_tree-Step :
    (context : Context) (id : ℕ) (run : RunRow) (job_ids : ℕ → ℕ) (now : ℕ) (db : Db)
    → lookup id db.runs ≡ some run
    → Ensures (Commits db) (cancel_run_tree context id run job_ids now db)
unfolding cancel_run_tree
cancel_run_tree-Step context id run job_ids now db found = Ensures-guard _ _ _ _ λ _.
    Ensures-when _ _ _ _ (λ _. Ensures-ok _ _ (Step-refl db))
      (λ _. Ensures-bind _ _ _ λ moved m. Ensures-bind _ _ _ λ all p. Ensures-ok _ _ (
        Step-trans db moved all
          ((start_cancelling-Step id run (job_ids id) now db found).at moved m)
          ((propagate-Step job_ids now _ _ moved).at all p)))

cancellation_found-Step :
    (context : Context) (id : ℕ) (run : RunRow) (key fingerprint : ℕ) (job_ids : ℕ → ℕ) (now : ℕ)
    (existing : Option IdempotencyRow) (db : Db)
    → lookup id db.runs ≡ some run
    → Ensures
        (Commits db)
        (cancellation_found context id run key fingerprint job_ids now existing db)
unfolding cancellation_found
cancellation_found-Step context id run key fingerprint job_ids now (some existing) db found =
    replay-Step fingerprint existing db
cancellation_found-Step context id run key fingerprint job_ids now none db found =
    let noted = remember context Rows.post_cancellations key fingerprint id db in
    record {
      at = λ (a, db') c.
          Step-trans db noted db'
            (remember-Step context Rows.post_cancellations key fingerprint id db)
            ((cancel_run_tree-Step context id run job_ids now noted
                (rw (remember-runs context Rows.post_cancellations key fingerprint id db) found)).at
              (a, db') c);
    }

pub request_cancellation-Step :
    (context : Context) (id key fingerprint : ℕ) (job_ids : ℕ → ℕ) (now : ℕ) (db : Db)
    → Ensures (Commits db) (request_cancellation context id key fingerprint job_ids now db)
unfolding request_cancellation
request_cancellation-Step context id key fingerprint job_ids now db =
    Ensures-bind _ _ _ λ run owned.
      cancellation_found-Step context id run key fingerprint job_ids now _ db
        (owned_run-lookup context id db run owned)
