-- ===== src/Controller/Effects.antt =====
-- The methods of src/hnh/application/run_controller.py for effects whose outcome is not known: the
-- marks of an ambiguous dispatch, the retry under the same key, and the receipt of a cancellation.
pub mod Steps
pub mod Settlement
pub mod Retries
use http_harness.Base.{
  ℕ, ◌+◌, Bool, true, false, not, ◌&&◌, ◌||◌, Option, none, some, List, [], ◌∷◌, ◌==◌, ◌==?◌,
  if◌then◌else◌, is_none, list_eq,
}
use http_harness.Base.Table.{Table, lookup}
use http_harness.Base.Ensures.{Result, ok, err, ◌>>=◌, ◌>>◌, when◌then◌otherwise◌, guard, require}
use http_harness.Domain.Errors.{not_found, version_conflict, idempotency_conflict, value_error}
use http_harness.Domain.States.{
  RunStatus, ActionStatus, is_running, is_blocked, is_cancelling, is_running_action,
  is_retry_wait_action, needs_evidence, require_run_transition,
}
use http_harness.Store.Rows
use http_harness.Store.Rows.{
  Db, RunRow, ActionRow, AttemptRow, Context, DownstreamKey, ActionResult, AttemptStatus,
  Resolution, ReconciliationRow,
}
use http_harness.Store.Tests.{same_key, is_remote_idempotent, same_resolution}
use http_harness.Store.Session.{
  owned_action, latest_attempt_locked, log_event, put_action, put_attempt, add_attempt, add_job,
  has_unresolved_actions, has_nonterminal_children,
}
use http_harness.Controller.Runs.{moved_to}

abbrev pub lost : AttemptRow → AttemptRow
lost attempt = record attempt { status = AttemptStatus.outcome_unknown }

abbrev pub unknown : ℕ → Option ℕ → ActionRow → ActionRow
unknown receipt handle action = record action {
  status = ActionStatus.outcome_unknown;
  result = some (ActionResult.receipt receipt);
  upstream_handle = handle;
  version = action.version + 1;
}

-- The run is blocked, unless it is already.
unfoldable pub blocked_run : RunRow → Result RunRow
blocked_run run =
    when is_blocked run.status
    then ok run
    otherwise (require_run_transition run.status RunStatus.blocked
        >> ok (moved_to RunStatus.blocked run))

unfoldable pub mark_action_outcome_unknown : ℕ → ℕ → Option ℕ → Db → Result (ActionRow × Db)
unfolding blocked_run
mark_action_outcome_unknown id receipt handle db = do
  action ← require (lookup id db.actions) not_found
  guard (is_running_action action.status) version_conflict
  attempt ← latest_attempt_locked id AttemptStatus.started db
  let new = unknown receipt handle action
  let marked = put_attempt attempt.0 (lost attempt.1) (put_action id new db)
  run ← require (lookup action.run_id db.runs) not_found
  blocked ← blocked_run run
  ok (new, log_event action.run_id blocked Rows.action_outcome_unknown marked)

abbrev pub waiting : ℕ → DownstreamKey → ActionRow → ActionRow
waiting receipt key action = record action {
  status = ActionStatus.retry_wait;
  result = some (ActionResult.receipt receipt);
  downstream_idempotency_key = some key;
  version = action.version + 1;
}

unfoldable pub mark_action_retry_wait : ℕ → ℕ → DownstreamKey → Db → Result (ActionRow × Db)
mark_action_retry_wait id receipt key db = do
  action ← require (lookup id db.actions) not_found
  guard (is_running_action action.status && is_remote_idempotent action.effect_semantics)
      version_conflict
  guard
      (is_none action.downstream_idempotency_key
        || same_key action.downstream_idempotency_key (some key))
      idempotency_conflict
  attempt ← latest_attempt_locked id AttemptStatus.started db
  let new = waiting receipt key action
  let marked = put_attempt attempt.0 (lost attempt.1) (put_action id new db)
  run ← require (lookup action.run_id db.runs) not_found
  ok (new, log_event action.run_id run Rows.action_retry_scheduled marked)

abbrev next_attempt : ℕ → AttemptRow → ℕ → DownstreamKey → AttemptRow
next_attempt action_id prior epoch key = record {
  action_id = action_id;
  attempt_no = prior.attempt_no + 1;
  status = AttemptStatus.started;
  lease_epoch = epoch;
  downstream_idempotency_key = some key;
}

abbrev pub retried : ActionRow → ActionRow
retried action = record action { status = ActionStatus.running; version = action.version + 1 }

-- The drawn identifier is the new attempt's; the result is its number.
unfoldable pub begin_retry_dispatch : ℕ → ℕ → DownstreamKey → Db → Result (ℕ × Db)
begin_retry_dispatch id attempt_id key db = do
  action ← require (lookup id db.actions) not_found
  run ← require (lookup action.run_id db.runs) not_found
  guard
      (is_retry_wait_action action.status
        && is_remote_idempotent action.effect_semantics
        && same_key action.downstream_idempotency_key (some key)
        && is_running run.status)
      version_conflict
  prior ← latest_attempt_locked id AttemptStatus.outcome_unknown db
  started ← add_attempt attempt_id (next_attempt id prior.1 action.lease_epoch key) db
  ok (
    prior.1.attempt_no + 1,
    log_event action.run_id run Rows.action_retry_started (put_action id (retried action) started),
  )

-- The run's object after one more event.
abbrev pub after_event : RunRow → RunRow
after_event run = record run { event_seq = run.event_seq + 1 }

-- A cancelling run whose actions are settled and whose children are terminal is cancelled; the run
-- object has logged one event before.
unfoldable pub cancelled_when_settled : Bool → ℕ → RunRow → Db → Db
cancelled_when_settled asked id new db =
    if asked
      && not (has_unresolved_actions id db.actions)
      && not (has_nonterminal_children id db.runs)
    then log_event id new Rows.run_cancelled db
    else db

abbrev pub receipted : Bool → ActionRow → ActionRow
receipted stopped action = record action {
  status = if stopped then ActionStatus.cancelled else ActionStatus.waiting_external;
  version = action.version + 1;
}

-- No status of the action is tested.
unfoldable pub record_action_cancel_receipt : ℕ → Bool → Db → Result (ActionRow × Db)
unfolding cancelled_when_settled
record_action_cancel_receipt id stopped db = do
  action ← require (lookup id db.actions) not_found
  run ← require (lookup action.run_id db.runs) not_found
  guard (is_cancelling run.status) version_conflict
  let new = receipted stopped action
  let type = if stopped then Rows.action_cancelled else Rows.action_cancel_acknowledged
  let noted = log_event action.run_id run type (put_action id new db)
  let last = moved_to RunStatus.cancelled (after_event run)
  ok (new, cancelled_when_settled stopped action.run_id last noted)
