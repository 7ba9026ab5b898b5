-- ===== src/Calls/Steps.antt =====
-- Calls as steps of the store: each method's own step, for the machine as a whole.
use http_harness.Base.{ℕ, ◌+◌, refl}
use http_harness.Base.Grows.{Grows-refl}
use http_harness.Base.Ensures.{Result, ok, err, Ensures, Ensures-ok, Ensures-err}
use http_harness.Store.Rows.{Db}
use http_harness.Store.Trace.{Trace}
use http_harness.Store.Step.{Step, Step-refl, Commits}
use http_harness.Store.Step.Moves.{Bound-refl, Leased-refl}
use http_harness.Controller.Admission.Steps.{admit_run-Step}
use http_harness.Controller.Children.Steps.{admit_child_run-Step}
use http_harness.Controller.Cancellation.Steps.{request_cancellation-Step}
use http_harness.Controller.Runs.Steps.{
  pin_run_skills-Step, transition_run-Step, ensure_run_running-Step, finish_implicit_run-Step,
  finalize_run_cancellation-Step, block_run-Step, fail_run-Step, terminate_run-Step,
  record_completion-Step, append_event-Step,
}
use http_harness.Controller.Jobs.Steps.{
  claim_job-Step, renew_job_lease-Step, defer_job-Step, complete_job-Step,
}
use http_harness.Controller.Dispatch.Steps.{
  get_or_record_admitted_action-Step, begin_action_dispatch-Step, complete_action-Step,
}
use http_harness.Controller.Effects.Steps.{
  mark_action_outcome_unknown-Step, mark_action_retry_wait-Step, begin_retry_dispatch-Step,
}
use http_harness.Controller.Effects.Settlement.{record_action_cancel_receipt-Step}
use http_harness.Controller.Reconciliation.Steps.{reconcile_action-Step}
use http_harness.Controller.Budget.Steps.{
  reserve_budget-Step, settle_budget-Step, release_budget-Step,
}
use http_harness.Controller.ModelCalls.Steps.{
  begin_model_call-Step, complete_model_call-Step, fail_model_call_attempt-Step,
  mark_model_call-Step,
}
use http_harness.Controller.Inputs.Steps.{request_approval-Step, request_clarification-Step}
use http_harness.Controller.Inputs.Settling.{respond_to_input-Step}
use http_harness.Calls.{Call, store_of, run_call, committed, perform}

store_of-Step :
    {A : Type 0} (db : Db) (r : Result (A × Db))
    → Ensures (Commits db) r
    → Ensures (Step db) (store_of r)
store_of-Step db (ok (a, db')) commits = Ensures-ok _ _ (commits.at (a, db') refl)
store_of-Step db (err e) commits = Ensures-err _ e

tick-Step : (seconds : ℕ) (db : Db) → Step db (record db { clock = db.clock + seconds })
tick-Step seconds db = record {
  trace = Trace.here;
  funded = λ h. h;
  bound = Grows-refl Bound-refl db.actions;
  leased = λ u. (u, Grows-refl Leased-refl db.jobs);
}

pub run_call-Step : (call : Call) (db : Db) → Ensures (Step db) (run_call call db)
unfolding run_call
run_call-Step (Call.admit_run c limits key f id job now) db =
    store_of-Step db _ (admit_run-Step c limits key f id job now db)
run_call-Step (Call.admit_child_run c parent key f request ids now) db =
    store_of-Step db _ (admit_child_run-Step c parent key f request ids now db)
run_call-Step (Call.request_cancellation c id key f jobs now) db =
    store_of-Step db _ (request_cancellation-Step c id key f jobs now db)
run_call-Step (Call.pin_run_skills c id refs claim) db =
    store_of-Step db _ (pin_run_skills-Step c id refs claim db)
run_call-Step (Call.transition_run id version status type) db =
    store_of-Step db _ (transition_run-Step id version status type db)
run_call-Step (Call.ensure_run_running id claim) db =
    store_of-Step db _ (ensure_run_running-Step id claim db)
run_call-Step (Call.finish_implicit_run id succeeded) db =
    store_of-Step db _ (finish_implicit_run-Step id succeeded db)
run_call-Step (Call.finalize_run_cancellation c id claim) db =
    store_of-Step db _ (finalize_run_cancellation-Step c id claim db)
run_call-Step (Call.block_run id code claim) db =
    store_of-Step db _ (block_run-Step id code claim db)
run_call-Step (Call.fail_run id code claim) db = store_of-Step db _ (fail_run-Step id code claim db)
run_call-Step (Call.terminate_run id code claim) db =
    store_of-Step db _ (terminate_run-Step id code claim db)
run_call-Step (Call.record_completion c id verified claim) db =
    store_of-Step db _ (record_completion-Step c id verified claim db)
run_call-Step (Call.append_event id type) db = store_of-Step db _ (append_event-Step id type db)
run_call-Step (Call.claim_job worker seconds kind locked) db =
    store_of-Step db _ (claim_job-Step worker seconds kind locked db)
run_call-Step (Call.renew_job_lease claimed worker seconds) db =
    store_of-Step db _ (renew_job_lease-Step claimed worker seconds db)
run_call-Step (Call.defer_job claimed worker seconds) db =
    store_of-Step db _ (defer_job-Step claimed worker seconds db)
run_call-Step (Call.complete_job claimed worker) db =
    store_of-Step db _ (complete_job-Step claimed worker db)
run_call-Step (Call.get_or_record_admitted_action c run_id id p claim) db =
    store_of-Step db _ (get_or_record_admitted_action-Step c run_id id p claim db)
run_call-Step (Call.begin_action_dispatch id attempt claim key) db =
    store_of-Step db _ (begin_action_dispatch-Step id attempt claim key db)
run_call-Step (Call.complete_action id result succeeded claim) db =
    store_of-Step db _ (complete_action-Step id result succeeded claim db)
run_call-Step (Call.mark_action_outcome_unknown id receipt handle) db =
    store_of-Step db _ (mark_action_outcome_unknown-Step id receipt handle db)
run_call-Step (Call.mark_action_retry_wait id receipt key) db =
    store_of-Step db _ (mark_action_retry_wait-Step id receipt key db)
run_call-Step (Call.begin_retry_dispatch id attempt key) db =
    store_of-Step db _ (begin_retry_dispatch-Step id attempt key db)
run_call-Step (Call.record_action_cancel_receipt id stopped) db =
    store_of-Step db _ (record_action_cancel_receipt-Step id stopped db)
run_call-Step (Call.reconcile_action c id job now e) db =
    store_of-Step db _ (reconcile_action-Step c id job now e db)
run_call-Step (Call.reserve_budget id run_id key dimension amount claim) db =
    store_of-Step db _ (reserve_budget-Step id run_id key dimension amount claim db)
run_call-Step (Call.settle_budget id actual claim) db =
    store_of-Step db _ (settle_budget-Step id actual claim db)
run_call-Step (Call.release_budget id claim) db =
    store_of-Step db _ (release_budget-Step id claim db)
run_call-Step (Call.begin_model_call c run_id turn provider revision id attempt claim) db =
    store_of-Step db _ (begin_model_call-Step c run_id turn provider revision id attempt claim db)
run_call-Step (Call.complete_model_call id attempt claim) db =
    store_of-Step db _ (complete_model_call-Step id attempt claim db)
run_call-Step (Call.fail_model_call_attempt id attempt claim) db =
    store_of-Step db _ (fail_model_call_attempt-Step id attempt claim db)
run_call-Step (Call.mark_model_call id status claim) db =
    store_of-Step db _ (mark_model_call-Step id status claim db)
run_call-Step (Call.request_approval c id request expires_at versions now) db =
    store_of-Step db _ (request_approval-Step c id request expires_at versions now db)
run_call-Step (Call.request_clarification c run_id request hash expires_at now claim) db =
    store_of-Step db _ (request_clarification-Step c run_id request hash expires_at now claim db)
run_call-Step (Call.respond_to_input c reply response job now) db =
    store_of-Step db _ (respond_to_input-Step c reply response job now db)
run_call-Step (Call.tick seconds) db = Ensures-ok _ _ (tick-Step seconds db)

committed-Step : (db : Db) (r : Result Db) → Ensures (Step db) r → Step db (committed db r)
committed-Step db (ok db') steps = steps.at db' refl
committed-Step db (err e) steps = Step-refl db

pub perform-Step : (call : Call) (db : Db) → Step db (perform call db)
perform-Step call db = committed-Step db (run_call call db) (run_call-Step call db)
