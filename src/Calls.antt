-- ===== src/Calls.antt =====
-- The controller as one machine: a call for each method of `RunController` that is modelled, its
-- transaction, and the stores that sequences of calls reach. A transaction that raises is rolled
-- back. Transactions are serial, as the row locks and the retries of PostgreSQL make them.
pub mod Steps
pub mod Reach
pub mod Lifecycle
pub mod Resources
use http_harness.Base.{ℕ, ◌+◌, Bool, Option, List, []}
use http_harness.Base.Ensures.{Result, ok, err}
use http_harness.Domain.States.{RunStatus}
use http_harness.Store.Rows.{
  Db, Context, EventType, ActionResult, DownstreamKey, Dimension, ReservationKey, JobKind,
  CallStatus,
}
use http_harness.Store.Lease.{ClaimedJob, Claim}
use http_harness.Controller.Limits.{Limits}
use http_harness.Controller.Runs
use http_harness.Controller.Jobs
use http_harness.Controller.Dispatch
use http_harness.Controller.Dispatch.{Proposal}
use http_harness.Controller.Effects
use http_harness.Controller.Reconciliation
use http_harness.Controller.Reconciliation.{Evidence}
use http_harness.Controller.Budget
use http_harness.Controller.Admission
use http_harness.Controller.Children
use http_harness.Controller.Children.{ChildRequest, ChildIds}
use http_harness.Controller.Cancellation
use http_harness.Controller.ModelCalls
use http_harness.Controller.Inputs
use http_harness.Controller.Inputs.Responses
use http_harness.Controller.Inputs.Responses.{Reply}

-- Every call carries the ids that it draws and the times that the application's clock shows in it.
pub data Call : Type 0 where
  admit_run : Context → Limits → (key fingerprint id job_id now : ℕ) → Call
  admit_child_run :
      Context → (parent_id key fingerprint : ℕ) → ChildRequest → ChildIds → (now : ℕ) → Call
  request_cancellation : Context → (id key fingerprint : ℕ) → (ℕ → ℕ) → (now : ℕ) → Call
  pin_run_skills : Context → (id : ℕ) → List ℕ → Claim → Call
  transition_run : (id expected_version : ℕ) → RunStatus → EventType → Call
  ensure_run_running : (id : ℕ) → Claim → Call
  finish_implicit_run : (id : ℕ) → Bool → Call
  finalize_run_cancellation : Context → (id : ℕ) → Claim → Call
  block_run fail_run terminate_run : (id code : ℕ) → Claim → Call
  record_completion : Context → (id : ℕ) → Bool → Claim → Call
  append_event : (id : ℕ) → EventType → Call
  claim_job : (worker seconds : ℕ) → Option JobKind → List ℕ → Call
  renew_job_lease defer_job : ClaimedJob → (worker seconds : ℕ) → Call
  complete_job : ClaimedJob → (worker : ℕ) → Call
  get_or_record_admitted_action : Context → (run_id id : ℕ) → Proposal → Claim → Call
  begin_action_dispatch : (id attempt_id : ℕ) → Claim → Option DownstreamKey → Call
  complete_action : (id : ℕ) → ActionResult → Bool → Claim → Call
  mark_action_outcome_unknown : (id receipt : ℕ) → Option ℕ → Call
  mark_action_retry_wait : (id receipt : ℕ) → DownstreamKey → Call
  begin_retry_dispatch : (id attempt_id : ℕ) → DownstreamKey → Call
  record_action_cancel_receipt : (id : ℕ) → Bool → Call
  reconcile_action : Context → (id job_id now : ℕ) → Evidence → Call
  reserve_budget : (id run_id : ℕ) → ReservationKey → Dimension → ℕ → Claim → Call
  settle_budget : (id actual : ℕ) → Claim → Call
  release_budget : (id : ℕ) → Claim → Call
  begin_model_call :
      Context → (run_id turn_id provider revision call_id attempt_id : ℕ) → Claim → Call
  complete_model_call fail_model_call_attempt : (id attempt_id : ℕ) → Claim → Call
  mark_model_call : (id : ℕ) → CallStatus → Claim → Call
  request_approval :
      Context → (id request_id expires_at : ℕ) → (versions : Option ℕ) → (now : ℕ) → Call
  request_clarification : Context → (run_id request_id hash expires_at now : ℕ) → Claim → Call
  respond_to_input : Context → Reply → (response_id job_id now : ℕ) → Call
  -- The clock of the database goes on.
  tick : ℕ → Call

-- What a transaction commits.
abbrev pub store_of : {A : Type 0} → Result (A × Db) → Result Db
store_of (ok (_, db)) = ok db
store_of (err e) = err e

unfoldable pub run_call : Call → Db → Result Db
run_call (admit_run c limits key f id job now) db =
    store_of (Admission.admit_run c limits key f id job now db)
run_call (admit_child_run c parent key f request ids now) db =
    store_of (Children.admit_child_run c parent key f request ids now db)
run_call (request_cancellation c id key f jobs now) db =
    store_of (Cancellation.request_cancellation c id key f jobs now db)
run_call (pin_run_skills c id refs claim) db = store_of (Runs.pin_run_skills c id refs claim db)
run_call (transition_run id version status type) db =
    store_of (Runs.transition_run id version status type db)
run_call (ensure_run_running id claim) db = store_of (Runs.ensure_run_running id claim db)
run_call (finish_implicit_run id succeeded) db = store_of (Runs.finish_implicit_run id succeeded db)
run_call (finalize_run_cancellation c id claim) db =
    store_of (Runs.finalize_run_cancellation c id claim db)
run_call (block_run id code claim) db = store_of (Runs.block_run id code claim db)
run_call (fail_run id code claim) db = store_of (Runs.fail_run id code claim db)
run_call (terminate_run id code claim) db = store_of (Runs.terminate_run id code claim db)
run_call (record_completion c id verified claim) db =
    store_of (Runs.record_completion c id verified claim db)
run_call (append_event id type) db = store_of (Runs.append_event id type db)
run_call (claim_job worker seconds kind locked) db =
    store_of (Jobs.claim_job worker seconds kind locked db)
run_call (renew_job_lease claimed worker seconds) db =
    store_of (Jobs.renew_job_lease claimed worker seconds db)
run_call (defer_job claimed worker seconds) db = store_of (Jobs.defer_job claimed worker seconds db)
run_call (complete_job claimed worker) db = store_of (Jobs.complete_job claimed worker db)
run_call (get_or_record_admitted_action c run_id id p claim) db =
    store_of (Dispatch.get_or_record_admitted_action c run_id id p claim db)
run_call (begin_action_dispatch id attempt claim key) db =
    store_of (Dispatch.begin_action_dispatch id attempt claim key db)
run_call (complete_action id result succeeded claim) db =
    store_of (Dispatch.complete_action id result succeeded claim db)
run_call (mark_action_outcome_unknown id receipt handle) db =
    store_of (Effects.mark_action_outcome_unknown id receipt handle db)
run_call (mark_action_retry_wait id receipt key) db =
    store_of (Effects.mark_action_retry_wait id receipt key db)
run_call (begin_retry_dispatch id attempt key) db =
    store_of (Effects.begin_retry_dispatch id attempt key db)
run_call (record_action_cancel_receipt id stopped) db =
    store_of (Effects.record_action_cancel_receipt id stopped db)
run_call (reconcile_action c id job now e) db =
    store_of (Reconciliation.reconcile_action c id job now e db)
run_call (reserve_budget id run_id key dimension amount claim) db =
    store_of (Budget.reserve_budget id run_id key dimension amount claim db)
run_call (settle_budget id actual claim) db = store_of (Budget.settle_budget id actual claim db)
run_call (release_budget id claim) db = store_of (Budget.release_budget id claim db)
run_call (begin_model_call c run_id turn provider revision id attempt claim) db =
    store_of (ModelCalls.begin_model_call c run_id turn provider revision id attempt claim db)
run_call (complete_model_call id attempt claim) db =
    store_of (ModelCalls.complete_model_call id attempt claim db)
run_call (fail_model_call_attempt id attempt claim) db =
    store_of (ModelCalls.fail_model_call_attempt id attempt claim db)
run_call (mark_model_call id status claim) db =
    store_of (ModelCalls.mark_model_call id status claim db)
run_call (request_approval c id request expires_at versions now) db =
    store_of (Inputs.request_approval c id request expires_at versions now db)
run_call (request_clarification c run_id request hash expires_at now claim) db =
    store_of (Inputs.request_clarification c run_id request hash expires_at now claim db)
run_call (respond_to_input c reply response job now) db =
    store_of (Responses.respond_to_input c reply response job now db)
run_call (tick seconds) db = ok (record db { clock = db.clock + seconds })

-- `with self._sessions.begin()`: what is committed, or the store as it was.
abbrev pub committed : Db → Result Db → Db
committed db (ok db') = db'
committed db (err e) = db

abbrev pub perform : Call → Db → Db
perform call db = committed db (run_call call db)

-- The migrated database before the first request.
abbrev pub empty : ℕ → Db
empty now = record {
  runs = [];
  events = [];
  actions = [];
  attempts = [];
  jobs = [];
  budgets = [];
  reservations = [];
  idempotency = [];
  reconciliations = [];
  model_calls = [];
  model_attempts = [];
  input_requests = [];
  input_responses = [];
  clock = now;
}

-- The stores that calls lead to, whether they commit or raise.
pub data Reaches (db : Db) : Db → Type 0 where
  here : Reaches db db
  after : {db' : Db} → Reaches db db' → (call : Call) → Reaches db (perform call db')
