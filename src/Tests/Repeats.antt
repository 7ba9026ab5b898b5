-- ===== src/Tests/Repeats.antt =====
-- The theorems on repeated and late calls at concrete stores.
use http_harness.Store.Funding.Sums.{active_others}
use http_harness.Store.Funding.{is_supported, maximum, used}
use http_harness.Store.Session.{
  add_job, cancel_open_actions, latest_attempt, latest_attempt_locked, log_event, owned_action,
  owned_run, put_action, put_attempt,
}
use http_harness.Base.{◌+◌, ◌≡◌, refl, none, some, [], ◌∷◌, true, false}
use http_harness.Base.Table.{lookup, insert}
use http_harness.Base.Ensures.{ok, ◌>>=◌}
use http_harness.Domain.States.{ActionStatus, RunStatus, is_terminal, require_run_transition}
use http_harness.Store.Rows
use http_harness.Store.Rows.{
  Db, RunRow, ActionRow, AttemptRow, ReservationRow, ModelCallRow, CallStatus,
}
use http_harness.Store.Lease.{require_claimed_run_job, unclaimed}
use http_harness.Controller.Admission.{Accepted, find_idempotency}
use http_harness.Controller.Budget.{settle_budget, new_reservation, settled_row}
use http_harness.Controller.Budget.Once.{settle_budget-again}
use http_harness.Controller.Cancellation.{descendants, request_cancellation}
use http_harness.Controller.Cancellation.Descent.{IsHalted}
use http_harness.Controller.Cancellation.Reach.{request_cancellation-IsHalted}
use http_harness.Controller.Dispatch.{complete_action, completed}
use http_harness.Controller.Dispatch.Completed.{complete_action-again}
use http_harness.Controller.Effects.{mark_action_outcome_unknown, unknown}
use http_harness.Controller.Reconciliation.{
  Evidence, reconcile_action, resolved, find_reconciliation,
}
use http_harness.Controller.Reconciliation.Intent.{reconcile_action-ready}
use http_harness.Calls.{Call, empty, perform, run_call}
use http_harness.Tests.Stores.{alice, queued_run}

-- A run with one action under way, a reservation, and a turn of the model that is answered.
abbrev running_run : RunRow
running_run = record queued_run { status = RunStatus.running; version = 1; event_seq = 4 }

abbrev action : ActionRow
action = record {
  run_id = 1;
  tenant_id = 1;
  subject_id = 2;
  turn_id = 1;
  call_index = 0;
  status = ActionStatus.running;
  request_hash = 77;
  capability_id = Rows.CapabilityId.named 5;
  capability_revision = 1;
  effect_semantics = Rows.unsafe;
  policy_revision = 1;
  scope_fingerprint = 7 ∷ 8 ∷ [];
  downstream_idempotency_key = none;
  upstream_handle = none;
  approval_request_id = none;
  result = none;
  version = 1;
  lease_epoch = 0;
}

abbrev attempt : AttemptRow
attempt = record {
  action_id = 4;
  attempt_no = 1;
  status = Rows.AttemptStatus.started;
  lease_epoch = 0;
  downstream_idempotency_key = none;
}

abbrev pub call : ModelCallRow
call = record {
  run_id = 1;
  turn_id = 1;
  provider = 3;
  model_revision = 2;
  status = Rows.response_committed;
}

abbrev reservation : ReservationRow
reservation = new_reservation 1 (Rows.ReservationKey.caller 3) Rows.model_turn 2

abbrev child : RunRow
child = record queued_run {
  parent_run_id = some 1;
  child_depth = 1;
  delegated_scopes = some (7 ∷ []);
}

abbrev pub busy_db : Db
busy_db = record (empty 110) {
  runs = (1, running_run) ∷ (40, child) ∷ [];
  actions = (4, action) ∷ [];
  attempts = (5, attempt) ∷ [];
  budgets =
      (
        1,
        record {
          max_model_turns = some 5;
          max_tool_calls = none;
          max_output_tokens = none;
          max_cost_microunits = none;
          max_wall_seconds = none;
          used_model_turns = 1;
          used_tool_calls = 0;
          used_output_tokens = 0;
          used_cost_microunits = 0;
        },
      )
      ∷ [];
  reservations = (20, reservation) ∷ [];
  model_calls = (9, call) ∷ [];
}

abbrev done_db : Db
done_db = perform (Call.complete_action 4 (Rows.ActionResult.receipt 9) true unclaimed) busy_db

done :
    complete_action 4 (Rows.ActionResult.receipt 9) true unclaimed busy_db
    ≡ ok (completed true (Rows.ActionResult.receipt 9) action, done_db)
unfolding run_call lookup insert ◌>>=◌ complete_action latest_attempt_locked latest_attempt
done = refl

complete_action-again_example :
    complete_action 4 (Rows.ActionResult.receipt 10) false unclaimed done_db
    ≡ ok (completed true (Rows.ActionResult.receipt 9) action, done_db)
complete_action-again_example =
    complete_action-again 4 (Rows.ActionResult.receipt 9) (Rows.ActionResult.receipt 10) true false
      unclaimed (completed true (Rows.ActionResult.receipt 9) action) busy_db done_db done refl

abbrev charged_db : Db
charged_db = perform (Call.settle_budget 20 1 unclaimed) busy_db

charged : settle_budget 20 1 unclaimed busy_db ≡ ok ((20, settled_row 1 reservation), charged_db)
unfolding run_call lookup insert ◌>>=◌ settle_budget require_claimed_run_job is_supported maximum
    used active_others
charged = refl

settle_budget-again_example :
    settle_budget 20 2 unclaimed charged_db ≡ ok ((20, settled_row 1 reservation), charged_db)
settle_budget-again_example =
    settle_budget-again 20 1 2 unclaimed (20, settled_row 1 reservation) busy_db charged_db charged

-- The run is being cancelled when the effect turns out ambiguous.
abbrev cancelling_db : Db
cancelling_db = record busy_db {
  runs = (1, record running_run { status = RunStatus.cancelling }) ∷ [];
}

abbrev unknown_db : Db
unknown_db = perform (Call.mark_action_outcome_unknown 4 8 none) cancelling_db

abbrev evidence : Evidence
evidence = record {
  expected_version = 2;
  resolution = Rows.confirmed_not_applied;
  evidence_ids = 60 ∷ [];
  comment = none;
  idempotency_key = 61;
}

abbrev ready_db : Db
ready_db = perform (Call.reconcile_action alice 4 62 120 evidence) unknown_db

marked : mark_action_outcome_unknown 4 8 none cancelling_db ≡ ok (unknown 8 none action, unknown_db)
unfolding run_call lookup insert ◌>>=◌ mark_action_outcome_unknown latest_attempt_locked
    latest_attempt require_run_transition
marked = refl

unrecorded : find_reconciliation 4 61 unknown_db.reconciliations ≡ none
unfolding run_call lookup insert ◌>>=◌ find_reconciliation mark_action_outcome_unknown
    latest_attempt_locked latest_attempt require_run_transition log_event put_attempt put_action
unrecorded = refl

abbrev ready_action : ActionRow
ready_action = resolved evidence false (unknown 8 none action)

reconciled : reconcile_action alice 4 62 120 evidence unknown_db ≡ ok (ready_action, ready_db)
unfolding run_call lookup insert ◌>>=◌ reconcile_action owned_action mark_action_outcome_unknown
    latest_attempt_locked latest_attempt require_run_transition log_event put_attempt put_action
    find_reconciliation add_job
reconciled = refl

reconcile_action-ready_example : ready_action.status ≡ ActionStatus.ready
reconcile_action-ready_example =
    reconcile_action-ready alice 4 8 62 120 none evidence (unknown 8 none action) ready_action
      cancelling_db unknown_db ready_db marked unrecorded refl reconciled

-- A request to cancel the run.
abbrev asked_db : Db
asked_db = perform (Call.request_cancellation alice 1 21 66 (λ id. id + 50) 111) busy_db

abbrev accepted : Accepted
accepted = record { resource_id = 1; replayed = false }

asked : request_cancellation alice 1 21 66 (λ id. id + 50) 111 busy_db ≡ ok (accepted, asked_db)
unfolding run_call lookup insert ◌>>=◌ request_cancellation owned_run is_terminal
    require_run_transition add_job log_event cancel_open_actions descendants
asked = refl

new_key : find_idempotency alice Rows.post_cancellations 21 busy_db.idempotency ≡ none
unfolding find_idempotency
new_key = refl

busy_at : lookup 1 busy_db.runs ≡ some running_run
unfolding lookup
busy_at = refl

child_at : lookup 40 busy_db.runs ≡ some child
unfolding lookup
child_at = refl

request_cancellation-IsHalted_example : IsHalted 40 asked_db
request_cancellation-IsHalted_example =
    request_cancellation-IsHalted alice 1 21 66 (λ id. id + 50) 111 40 running_run child accepted
      busy_db asked_db new_key busy_at refl child_at refl refl asked
