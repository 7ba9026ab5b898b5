-- ===== src/Controller/Reconciliation.antt =====
-- `reconcile_action` (src/hnh/application/run_controller.py): an operator, or a driver, settles an
-- action of unknown outcome with evidence.
pub mod Steps
pub mod Intent
use http_harness.Base.{
  ℕ, ◌+◌, Bool, true, false, not, ◌&&◌, ◌||◌, Option, none, some, List, [], ◌∷◌, ◌==◌, ◌==?◌,
  if◌then◌else◌, is_none, list_eq,
}
use http_harness.Base.Table.{Table, lookup}
use http_harness.Base.Ensures.{Result, ok, err, ◌>>=◌, ◌>>◌, when◌then◌otherwise◌, guard, require}
use http_harness.Domain.Errors.{not_found, version_conflict, idempotency_conflict, value_error}
use http_harness.Domain.States.{
  RunStatus, ActionStatus, is_running, is_blocked, is_cancelling, is_running_action,
  is_retry_wait_action, needs_evidence, require_run_transition,
}
use http_harness.Store.Rows
use http_harness.Store.Rows.{
  Db, RunRow, ActionRow, AttemptRow, Context, DownstreamKey, ActionResult, AttemptStatus,
  Resolution, ReconciliationRow,
}
use http_harness.Store.Tests.{same_key, is_remote_idempotent, same_resolution}
use http_harness.Store.Session.{
  owned_action, latest_attempt_locked, log_event, put_action, put_attempt, add_attempt, add_job,
  has_unresolved_actions, has_nonterminal_children,
}
use http_harness.Controller.Runs.{moved_to}
use http_harness.Controller.Effects.{after_event, cancelled_when_settled}

-- The reconciliation of an action under a key, if it was recorded.
unfoldable pub find_reconciliation : ℕ → ℕ → List ReconciliationRow → Option ReconciliationRow
find_reconciliation id key [] = none
find_reconciliation id key (r ∷ rs) =
    if r.action_id == id && r.idempotency_key == key then some r else find_reconciliation id key rs

-- What an operator, or a driver, submits.
pub record Evidence : Type 0 where
  pub expected_version : ℕ
  pub resolution : Resolution
  pub evidence_ids : List ℕ
  pub comment : Option ℕ
  pub idempotency_key : ℕ

abbrev pub same_evidence : Evidence → ReconciliationRow → Bool
same_evidence e r =
    r.action_version == e.expected_version
    && same_resolution r.resolution e.resolution
    && list_eq r.evidence_ids e.evidence_ids
    && r.comment ==? e.comment

abbrev pub resolved_status : Resolution → Bool → ActionStatus
resolved_status Rows.confirmed_applied cancelling = ActionStatus.succeeded
resolved_status Rows.confirmed_not_applied cancelling =
    if cancelling then ActionStatus.cancelled else ActionStatus.ready
resolved_status Rows.confirmed_stopped cancelling = ActionStatus.cancelled

abbrev pub resolved : Evidence → Bool → ActionRow → ActionRow
resolved e cancelling action = record action {
  status = resolved_status e.resolution cancelling;
  result = some (ActionResult.reconciliation e.resolution e.evidence_ids);
  version = action.version + 1;
}

abbrev pub recorded : ℕ → ℕ → Evidence → ReconciliationRow
recorded action_id run_id e = record {
  action_id = action_id;
  run_id = run_id;
  idempotency_key = e.idempotency_key;
  action_version = e.expected_version;
  resolution = e.resolution;
  evidence_ids = e.evidence_ids;
  comment = e.comment;
}

unfoldable pub add_reconciliation : ReconciliationRow → Db → Db
add_reconciliation r db = record db { reconciliations = r ∷ db.reconciliations }

abbrev is_empty : List ℕ → Bool
is_empty [] = true
is_empty (_ ∷ _) = false

-- A blocked run is queued again, with a wake-up for it that is due at `now`.
unfoldable pub requeued : ℕ → ℕ → ℕ → ℕ → ℕ → RunRow → Db → Result (RunRow × Db)
requeued job_id tenant id run_id now run db =
    when is_blocked run.status
    then (do
      require_run_transition run.status RunStatus.queued
      added ← add_job job_id tenant Rows.advance_run run_id (some id) now db
      ok (record run { status = RunStatus.queued }, added))
    otherwise ok (run, db)

-- The decision on an action that waits for evidence; `now` is the time of the wake-up.
unfoldable pub resolve_action :
    Context → ℕ → ℕ → ℕ → Evidence → ActionRow → Db → Result (ActionRow × Db)
unfolding requeued cancelled_when_settled add_reconciliation
resolve_action context id job_id now e action db = do
  guard (action.version == e.expected_version && needs_evidence action.status) version_conflict
  run ← require (lookup action.run_id db.runs) not_found
  let cancelling = is_cancelling run.status
  let new = resolved e cancelling action
  let written = put_action id new (add_reconciliation (recorded id action.run_id e) db)
  (queued, woken) ← requeued job_id context.tenant_id id action.run_id now run written
  let bumped = record queued { version = queued.version + 1 }
  let noted = log_event action.run_id bumped Rows.action_reconciled woken
  let last = record (after_event bumped) { status = RunStatus.cancelled }
  ok (new, cancelled_when_settled cancelling action.run_id last noted)

-- A decision under a recorded key is replayed if it is the same one.
unfoldable pub decide :
    Context
    → ℕ
    → ℕ
    → ℕ
    → Evidence
    → Option ReconciliationRow
    → ActionRow
    → Db
    → Result (ActionRow × Db)
unfolding resolve_action
decide context id job_id now e (some existing) action db =
    guard (same_evidence e existing) idempotency_conflict >> ok (action, db)
decide context id job_id now e none action db = resolve_action context id job_id now e action db

-- The three resolutions are the values of `Resolution`.
unfoldable pub reconcile_action : Context → ℕ → ℕ → ℕ → Evidence → Db → Result (ActionRow × Db)
unfolding decide
reconcile_action context id job_id now e db = do
  guard (not (is_empty e.evidence_ids)) value_error
  action ← owned_action context id db
  decide context id job_id now e (find_reconciliation id e.idempotency_key db.reconciliations)
      action db
