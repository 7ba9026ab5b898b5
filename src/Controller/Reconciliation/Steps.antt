-- ===== src/Controller/Reconciliation/Steps.antt =====
-- The reconciliation of an action as a step of the store.
use http_harness.Base.{ℕ, ◌+◌, ◌≡◌, refl, arith, Bool, true, ◌&&◌, none, some, Option, inl}
use http_harness.Base.Table.{lookup}
use http_harness.Base.Ensures.{
  Ensures, Ensures-ok, Ensures-bind, Ensures-guard, Ensures-require, Ensures-when, ok, ◌>>=◌,
}
use http_harness.Domain.States.{RunStatus, is_cancelling, needs_evidence, is_terminal, is_blocked}
use http_harness.Domain.Transitions.{Follows}
use http_harness.Store.Rows
use http_harness.Store.Rows.{
  Db, RunRow, ActionRow, Context, DownstreamKey, ActionResult, EventType, AttemptRow,
  ReconciliationRow, JobKind,
}
use http_harness.Store.Session.{log_event, put_action, owned_action, add_job}
use http_harness.Store.Trace.{Edit, Edit-refl, Edit-trans}
use http_harness.Store.Step.{Step, Step-refl, Step-trans, Commits}
use http_harness.Store.Step.Moves.{Moves-step, action_transitions, revised-Bound, Bound}
use http_harness.Store.Step.Edits.{require_run_transition-ok, versioned-Edit}
use http_harness.Store.Step.Writes.{log_event-Step, put_action-Step, add_job-Step}
use http_harness.Controller.Effects.{cancelled_when_settled, after_event}
use http_harness.Controller.Reconciliation.{
  resolved, resolved_status, requeued, resolve_action, decide, reconcile_action, add_reconciliation,
  Evidence, recorded,
}
use http_harness.Controller.Effects.Settlement.{
  log_event-lookup, cancelled_when_settled-Step, cancelled-Follows,
}

resolved_moves :
    (a : ActionRow) (e : Evidence) (cancelling matches : Bool)
    → (matches && needs_evidence a.status) ≡ true
    → action_transitions a.status (resolved_status e.resolution cancelling) ≡ true
unfolding action_transitions
resolved_moves a e cancelling matches h = ground arith

-- A run that was moved at most to `queued`, in a store that may have one more job.
record Requeued (run : RunRow) (db : Db) (out : RunRow × Db) : Type 0 where
  edit : Edit 1 run out.0
  seq : out.0.event_seq ≡ run.event_seq
  calm : is_terminal out.0.status ≡ true → is_terminal run.status ≡ true
  same : is_cancelling run.status ≡ true → out.0.status ≡ run.status
  step : Step db out.1
  runs : out.1.runs ≡ db.runs

add_job-runs :
    (id tenant : ℕ) (kind : JobKind) (run_id : ℕ) (action_id : Option ℕ) (now : ℕ) (db db' : Db)
    → add_job id tenant kind run_id action_id now db ≡ ok db'
    → db'.runs ≡ db.runs
unfolding add_job ◌>>=◌
add_job-runs id tenant kind run_id action_id now db db' h = ground arith

queued_calm : (status : RunStatus) → is_terminal RunStatus.queued ≡ true → is_terminal status ≡ true
unfolding is_terminal
queued_calm status h = cc

blocked_not_cancelling :
    (old new : RunStatus) → is_blocked old ≡ true → is_cancelling old ≡ true → new ≡ old
blocked_not_cancelling old new h g = absurd (ground arith)

requeued-Requeued :
    (job_id tenant id run_id now : ℕ) (run : RunRow) (db : Db)
    → Ensures (Requeued run db) (requeued job_id tenant id run_id now run db)
unfolding requeued
requeued-Requeued job_id tenant id run_id now run db =
    Ensures-when _ _ _ _
      (λ blocked. Ensures-bind _ _ _ λ _ allowed. Ensures-bind _ _ _ λ added e.
        Ensures-ok _ _ (record {
          edit =
              versioned-Edit run RunStatus.queued run.failure run.version
                (Follows.move Follows.stay (require_run_transition-ok _ _ allowed)) (omega arith);
          seq = refl;
          calm = queued_calm run.status;
          same = blocked_not_cancelling run.status RunStatus.queued blocked;
          step = (add_job-Step job_id tenant Rows.advance_run run_id (some id) now db).at added e;
          runs = add_job-runs job_id tenant Rows.advance_run run_id (some id) now db added e;
        }))
      (λ _. Ensures-ok _ _ (record {
        edit = Edit-refl run;
        seq = refl;
        calm = λ t. t;
        same = λ _. refl;
        step = Step-refl db;
        runs = refl;
      }))

add_reconciliation-Step : (r : ReconciliationRow) (db : Db) → Step db (add_reconciliation r db)
unfolding add_reconciliation
add_reconciliation-Step r db = record {
  trace = (Step-refl db).trace;
  funded = (Step-refl db).funded;
  bound = (Step-refl db).bound;
  leased = (Step-refl db).leased;
}

-- The writes of a decision before the run is touched.
module _ (id : ℕ) (action new : ActionRow) (r : ReconciliationRow) (db : Db)
    (at : lookup id db.actions ≡ some action) (bound : Bound action new) where
  decided-Step : Step db (put_action id new (add_reconciliation r db))
  unfolding add_reconciliation
  decided-Step =
      Step-trans db (add_reconciliation r db) _ (add_reconciliation-Step r db)
        (put_action-Step id action new (add_reconciliation r db) at bound)

decided-runs :
    (id : ℕ) (new : ActionRow) (r : ReconciliationRow) (db : Db)
    → (put_action id new (add_reconciliation r db)).runs ≡ db.runs
unfolding add_reconciliation put_action
decided-runs id new r db = refl

-- The end of a decision: the run's version goes up, the event is logged, and a cancelling run that
-- has settled is cancelled.
module _ (id : ℕ) (run : RunRow) (db : Db) (out : RunRow × Db) (r : Requeued run db out)
    (found : lookup id db.runs ≡ some run) where
  abbrev bumped : RunRow
  bumped = record (out.0) { version = out.0.version + 1 }

  bumped-Edit : Edit 1 run bumped
  bumped-Edit = Edit-trans {n = 0} run out.0 bumped r.edit (
      versioned-Edit out.0 out.0.status out.0.failure (out.0.version + 1) Follows.stay
        (omega arith))

  reconciled-Step : Step db (log_event id bumped Rows.action_reconciled out.1)
  reconciled-Step = Step-trans db out.1 _ r.step (
      log_event-Step id run bumped Rows.action_reconciled out.1 (rw r.runs found) bumped-Edit r.seq
        (λ t. inl (r.calm t)))

  resolution-Step : Step db (
      cancelled_when_settled
        (is_cancelling run.status)
        id
        (record (after_event bumped) { status = RunStatus.cancelled })
        (log_event id bumped Rows.action_reconciled out.1))
  resolution-Step =
      Step-trans db (log_event id bumped Rows.action_reconciled out.1) _ reconciled-Step (
        cancelled_when_settled-Step (is_cancelling run.status) id (after_event bumped) _ _
          (log_event-lookup id bumped _ out.1)
          (λ cancelling. (
            versioned-Edit (after_event bumped) RunStatus.cancelled out.0.failure bumped.version
                (rw (r.same cancelling) (cancelled-Follows run.status cancelling)) (omega arith),
            refl,
          )))

resolve_action-Step :
    (context : Context) (id job_id now : ℕ) (e : Evidence) (action : ActionRow) (db : Db)
    → lookup id db.actions ≡ some action
    → Ensures (Commits db) (resolve_action context id job_id now e action db)
unfolding resolve_action
resolve_action-Step context id job_id now e action db at = Ensures-guard _ _ _ _ λ decidable.
    Ensures-require _ _ _ _ λ run found. Ensures-bind _ _ _ λ out queued.
      let new = resolved e (is_cancelling run.status) action in
      let r = recorded id action.run_id e in
      let written = put_action id new (add_reconciliation r db) in
      Ensures-ok _ _ (
        Step-trans db written _
          (decided-Step id action new r db at (
            revised-Bound action _ action.downstream_idempotency_key action.upstream_handle _
              action.lease_epoch
              (Moves-step _ _ (resolved_moves action e (is_cancelling run.status) _ decidable))))
          (resolution-Step action.run_id run written out
            ((requeued-Requeued job_id context.tenant_id id action.run_id now run written).at out
              queued)
            (rw (decided-runs id new r db) found)))

decide-Step :
    (context : Context) (id job_id now : ℕ) (e : Evidence) (existing : Option ReconciliationRow)
    (action : ActionRow) (db : Db)
    → lookup id db.actions ≡ some action
    → Ensures (Commits db) (decide context id job_id now e existing action db)
unfolding decide
decide-Step context id job_id now e none action db at =
    resolve_action-Step context id job_id now e action db at
decide-Step context id job_id now e (some existing) action db at =
    Ensures-guard _ _ _ _ λ _. Ensures-ok _ _ (Step-refl db)

owned_action-lookup :
    (context : Context) (id : ℕ) (db : Db) (action : ActionRow)
    → owned_action context id db ≡ ok action
    → lookup id db.actions ≡ some action
unfolding owned_action ◌>>=◌
owned_action-lookup context id db action h = ground arith

pub reconcile_action-Step :
    (context : Context) (id job_id now : ℕ) (e : Evidence) (db : Db)
    → Ensures (Commits db) (reconcile_action context id job_id now e db)
unfolding reconcile_action
reconcile_action-Step context id job_id now e db = Ensures-guard _ _ _ _ λ _.
    Ensures-bind _ _ _ λ action owned.
      decide-Step context id job_id now e _ action db
        (owned_action-lookup context id db action owned)
