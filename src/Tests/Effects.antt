-- ===== src/Tests/Effects.antt =====
-- The theorems on actions and on the ends of runs at concrete stores.
use http_harness.Base.{◌≡◌, refl, ◌⊎◌, none, some, [], ◌∷◌, true, false}
use http_harness.Base.Table.{any_row, insert, lookup, update_where}
use http_harness.Base.Ensures.{ok, err, ◌>>=◌}
use http_harness.Domain.Errors.{version_conflict}
use http_harness.Domain.States.{
  ActionStatus, RunStatus, is_open, is_settled, is_terminal, is_uncertain, require_run_transition,
}
use http_harness.Store.Rows
use http_harness.Store.Rows.{Db, RunRow, ActionRow, Context, ReservationRow}
use http_harness.Store.Lease.{require_claimed_cancel_job, require_claimed_run_job, unclaimed}
use http_harness.Store.Session.{
  add_action, add_attempt, cancel_open_actions, has_nonterminal_children, has_uncertain_effects,
  has_unresolved_actions, latest_attempt, latest_attempt_locked, log_event, owned_run, put_action,
  release_reservations,
}
use http_harness.Controller.Admission
use http_harness.Controller.Admission.{Accepted, admit_run}
use http_harness.Controller.Budget.{new_reservation}
use http_harness.Controller.Dispatch
use http_harness.Controller.Dispatch.{begin_action_dispatch}
use http_harness.Controller.Dispatch.Once.{begin_action_dispatch-again}
use http_harness.Controller.Effects.{
  begin_retry_dispatch, mark_action_retry_wait, record_action_cancel_receipt,
}
use http_harness.Controller.Effects.Retries.{
  begin_retry_dispatch-same_key, record_action_cancel_receipt-any,
}
use http_harness.Controller.Runs
use http_harness.Controller.Runs.{
  effective_context, transition_run, finalize_run_cancellation, terminate_run, stopped, moved_to,
}
use http_harness.Controller.Runs.Closing.{
  IsClosed, finalize_run_cancellation-settled, terminate_run-IsClosed,
}
use http_harness.Calls.{Call, empty, perform, run_call}
use http_harness.Tests.Stores.{alice, proposed_db, queued_run}

-- The calls that bring the proposed action of run 1 to its dispatch.
abbrev running_db : Db
running_db = perform (Call.ensure_run_running 1 unclaimed) proposed_db

abbrev dispatched_db : Db
dispatched_db = perform (Call.begin_action_dispatch 4 5 unclaimed none) running_db

dispatched : begin_action_dispatch 4 5 unclaimed none running_db ≡ ok (true, dispatched_db)
unfolding run_call Admission.admit_run lookup insert ◌>>=◌ begin_action_dispatch
    Runs.ensure_run_running require_claimed_run_job Dispatch.get_or_record_admitted_action owned_run
    Dispatch.find_slot add_action log_event require_run_transition Dispatch.recovers_local
    add_attempt put_action
dispatched = refl

begin_action_dispatch-again_example :
    begin_action_dispatch 4 6 unclaimed none dispatched_db ≡ ok (false, dispatched_db)
begin_action_dispatch-again_example =
    begin_action_dispatch-again 4 5 6 unclaimed none none running_db dispatched_db dispatched

abbrev waiting_db : Db
waiting_db = perform (Call.mark_action_retry_wait 4 3 (Rows.DownstreamKey.hnh 4)) dispatched_db

-- The action as it waits.
abbrev waits : ActionRow
waits = record {
  run_id = 1;
  tenant_id = 1;
  subject_id = 2;
  turn_id = 1;
  call_index = 0;
  status = ActionStatus.retry_wait;
  request_hash = 77;
  capability_id = Rows.CapabilityId.named 5;
  capability_revision = 1;
  effect_semantics = Rows.remote_idempotent;
  policy_revision = 1;
  scope_fingerprint = 7 ∷ 8 ∷ [];
  downstream_idempotency_key = some (Rows.DownstreamKey.hnh 4);
  upstream_handle = none;
  approval_request_id = none;
  result = some (Rows.ActionResult.receipt 3);
  version = 2;
  lease_epoch = 0;
}

marked :
    mark_action_retry_wait 4 3 (Rows.DownstreamKey.hnh 4) dispatched_db ≡ ok (waits, waiting_db)
unfolding run_call Admission.admit_run lookup insert ◌>>=◌ mark_action_retry_wait
    begin_action_dispatch Runs.ensure_run_running require_claimed_run_job
    Dispatch.get_or_record_admitted_action owned_run Dispatch.find_slot add_action log_event
    require_run_transition Dispatch.recovers_local add_attempt put_action latest_attempt_locked
    latest_attempt
marked = refl

begin_retry_dispatch-same_key_example :
    begin_retry_dispatch 4 6 (Rows.DownstreamKey.action 4) waiting_db ≡ err version_conflict
begin_retry_dispatch-same_key_example =
    begin_retry_dispatch-same_key 4 3 6 (Rows.DownstreamKey.hnh 4) (Rows.DownstreamKey.action 4)
      dispatched_db waiting_db waits marked refl

-- The effect succeeded, and the run was asked to cancel.
abbrev succeeded_action : ActionRow
succeeded_action = record waits {
  status = ActionStatus.succeeded;
  downstream_idempotency_key = none;
  result = some (Rows.ActionResult.receipt 9);
}

abbrev cancelling_run : RunRow
cancelling_run = record queued_run { status = RunStatus.cancelling; version = 2; event_seq = 6 }

abbrev cancelling_db : Db
cancelling_db = record (empty 110) {
  runs = (1, cancelling_run) ∷ [];
  actions = (4, succeeded_action) ∷ [];
}

succeeded_at : lookup 4 cancelling_db.actions ≡ some succeeded_action
unfolding lookup
succeeded_at = refl

cancelling_at : lookup 1 cancelling_db.runs ≡ some cancelling_run
unfolding lookup
cancelling_at = refl

record_action_cancel_receipt-any_example :
    (new : ActionRow) × (db' : Db) × (record_action_cancel_receipt 4 true cancelling_db
      ≡ ok (new, db'))
    × (lookup 4 db'.actions ≡ some new)
    × (new.status ≡ ActionStatus.cancelled)
    × (new.result ≡ succeeded_action.result)
record_action_cancel_receipt-any_example =
    record_action_cancel_receipt-any 4 true cancelling_db succeeded_action cancelling_run
      succeeded_at cancelling_at refl

abbrev cancelled_db : Db
cancelled_db = perform (Call.finalize_run_cancellation alice 1 unclaimed) cancelling_db

cancelled :
    finalize_run_cancellation alice 1 unclaimed cancelling_db
    ≡ ok (moved_to RunStatus.cancelled cancelling_run, cancelled_db)
unfolding run_call lookup insert ◌>>=◌ finalize_run_cancellation require_claimed_cancel_job
    owned_run has_unresolved_actions any_row is_settled has_nonterminal_children
    require_run_transition
cancelled = refl

finalize_run_cancellation-settled_example :
    (RunStatus.cancelled ≡ RunStatus.cancelled)
    × ((cancelled_db ≡ cancelling_db)
        ⊎ ((has_unresolved_actions 1 cancelling_db.actions ≡ false)
            × (has_nonterminal_children 1 cancelling_db.runs ≡ false)))
finalize_run_cancellation-settled_example =
    finalize_run_cancellation-settled alice 1 unclaimed cancelling_db cancelled_db
      (moved_to RunStatus.cancelled cancelling_run) cancelled

-- A run whose effect is under way, while another action of it waits to be dispatched.
abbrev running_run : RunRow
running_run = record queued_run { status = RunStatus.running; version = 1; event_seq = 4 }

abbrev busy_db : Db
busy_db = record (empty 110) {
  runs = (1, running_run) ∷ [];
  actions =
      (4, record waits { status = ActionStatus.running })
      ∷ (5, record waits { call_index = 1; status = ActionStatus.ready })
      ∷ [];
  reservations = (20, new_reservation 1 (Rows.ReservationKey.caller 3) Rows.model_turn 2) ∷ [];
}

abbrev blocked_run : RunRow
blocked_run = record running_run {
  status = RunStatus.blocked;
  version = 2;
  failure = some (record { code = 6; termination_intent = true; unresolved_effects = true });
}

abbrev terminated_db : Db
terminated_db = perform (Call.terminate_run 1 6 unclaimed) busy_db

running_at : lookup 1 busy_db.runs ≡ some running_run
unfolding lookup
running_at = refl

running-is_terminal : is_terminal running_run.status ≡ false
unfolding is_terminal
running-is_terminal = refl

terminated : terminate_run 1 6 unclaimed busy_db ≡ ok (blocked_run, terminated_db)
unfolding run_call lookup insert ◌>>=◌ terminate_run require_claimed_run_job is_terminal
    require_run_transition has_uncertain_effects any_row release_reservations cancel_open_actions
    update_where is_open is_uncertain
terminated = refl

terminate_run-IsClosed_example :
    IsClosed 1 terminated_db
    × (RunStatus.blocked ≡ stopped (has_uncertain_effects 1 terminated_db.actions))
terminate_run-IsClosed_example =
    terminate_run-IsClosed 1 6 unclaimed busy_db terminated_db running_run blocked_run running_at
      running-is_terminal terminated
