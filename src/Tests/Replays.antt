-- ===== src/Tests/Replays.antt =====
-- The theorems on the recovery coordinator at a concrete store and driver.
use http_harness.Controller.Dispatch.{
  begin_action_dispatch, recovers_local, complete_action, completed,
}
use http_harness.Store.Session.{
  add_attempt, latest_attempt, latest_attempt_locked, log_event, owned_action, put_action,
}
use http_harness.Base.{◌≡◌, refl, none, some, [], ◌∷◌, true, false}
use http_harness.Base.Table.{lookup, insert}
use http_harness.Base.Ensures.{ok, err, ◌>>=◌}
use http_harness.Domain.Errors.{Error}
use http_harness.Domain.States.{ActionStatus, RunStatus, require_run_transition}
use http_harness.Store.Rows
use http_harness.Store.Rows.{Db, RunRow, ActionRow}
use http_harness.Controller.Effects.{mark_action_outcome_unknown, unknown}
use http_harness.Recovery.{EffectDriver, DispatchResult, Decision, dispatch, key_of}
use http_harness.Recovery.Replay.{dispatch-refused}
use http_harness.Recovery.Verdicts.{Settles, verdict, dispatch-Settles}
use http_harness.Calls.{empty}
use http_harness.Tests.Stores.{alice, queued_run}

-- A driver whose answers get lost, and one that always succeeds.
abbrev losing : EffectDriver
losing = record {
  send = λ id key. DispatchResult.ambiguous 8 none;
  look_up = λ id handle key. none;
  stop = λ id handle. false;
}

abbrev answering : EffectDriver
answering = record {
  send = λ id key. DispatchResult.response 200 (some true) 9 none;
  look_up = λ id handle key. none;
  stop = λ id handle. true;
}

abbrev ready_action : ActionRow
ready_action = record {
  run_id = 1;
  tenant_id = 1;
  subject_id = 2;
  turn_id = 1;
  call_index = 0;
  status = ActionStatus.ready;
  request_hash = 77;
  capability_id = Rows.CapabilityId.named 5;
  capability_revision = 1;
  effect_semantics = Rows.unsafe;
  policy_revision = 1;
  scope_fingerprint = 7 ∷ 8 ∷ [];
  downstream_idempotency_key = none;
  upstream_handle = none;
  approval_request_id = none;
  result = none;
  version = 0;
  lease_epoch = 0;
}

abbrev work_db : Db
work_db = record (empty 110) {
  runs = (1, record queued_run { status = RunStatus.running; version = 1; event_seq = 4 }) ∷ [];
  actions = (4, ready_action) ∷ [];
}

abbrev lost_action : ActionRow
lost_action = unknown 8 none (record ready_action { status = ActionStatus.running; version = 1 })

abbrev lost_db : Db
lost_db = (dispatch losing alice 4 5 work_db).1

lost : dispatch losing alice 4 5 work_db ≡ (ok (lost_action, Decision.reconcile_only), lost_db)
unfolding dispatch lookup insert ◌>>=◌ owned_action begin_action_dispatch recovers_local add_attempt
    put_action mark_action_outcome_unknown log_event latest_attempt_locked latest_attempt
    require_run_transition
lost = refl

dispatch-refused_example : (e : Error) × (dispatch answering alice 4 6 lost_db ≡ (err e, lost_db))
dispatch-refused_example =
    dispatch-refused losing answering alice alice 4 5 6 lost_action work_db lost_db lost

abbrev done_action : ActionRow
done_action =
    completed true (Rows.ActionResult.receipt 9)
      (record ready_action { status = ActionStatus.running; version = 1 })

abbrev done_db : Db
done_db = (dispatch answering alice 4 5 work_db).1

done : dispatch answering alice 4 5 work_db ≡ (ok (done_action, Decision.completed), done_db)
unfolding dispatch lookup insert ◌>>=◌ owned_action begin_action_dispatch recovers_local add_attempt
    put_action complete_action log_event latest_attempt_locked latest_attempt
done = refl

dispatch-Settles_example :
    (action : ActionRow) × (owned_action alice 4 work_db ≡ ok action)
    × Settles 4
        (verdict action.effect_semantics (answering.send 4 (key_of 4 action.effect_semantics)))
        done_action
        Decision.completed
        done_db
dispatch-Settles_example =
    dispatch-Settles answering alice 4 5 done_action Decision.completed work_db done_db done
