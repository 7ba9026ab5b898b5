-- ===== src/Controller/Inputs.antt =====
-- Questions to the user (src/hnh/application/run_controller.py): approvals of actions,
-- clarifications, their answers, and the tests before a dispatch. A request is returned with its id.
pub mod Responses
pub mod Steps
pub mod Settling
pub mod Resuming
pub mod Effect
pub mod Once
pub mod Expiry
pub mod Asking
pub mod Approval
use http_harness.Base.{
  ℕ, ◌+◌, Bool, true, false, not, ◌&&◌, ◌||◌, Option, none, some, List, [], ◌∷◌, ltb, leb, ◌==◌,
  ◌==?◌, if◌then◌else◌, is_none, list_eq,
}
use http_harness.Base.Table.{Table, lookup, insert, any_row}
use http_harness.Base.Ensures.{Result, ok, err, ◌>>=◌, ◌>>◌, when◌then◌otherwise◌, guard, require}
use http_harness.Domain.Errors.{
  not_found, version_conflict, already_terminal, idempotency_conflict, integrity_error,
  input_request_expired, approval_required, permission_denied,
}
use http_harness.Domain.States.{
  RunStatus, ActionStatus, is_running, is_ready_action, require_run_transition,
}
use http_harness.Store.Rows
use http_harness.Store.Rows.{
  Db, RunRow, ActionRow, Context, EventType, InputKind, InputStatus, InputRequestRow, InputDecision,
  InputResponseRow,
}
use http_harness.Store.Session.{
  owned_run, owned_action, log_event, put_action, add_job, has_nonterminal_children,
}
use http_harness.Controller.Runs.{moved_to}
use http_harness.Store.Lease.{Claim, require_claimed_run_job}

abbrev pub is_pending_input : InputStatus → Bool
is_pending_input Rows.pending = true
is_pending_input _ = false

abbrev pub is_answered : InputStatus → Bool
is_answered Rows.answered = true
is_answered _ = false

abbrev pub is_waiting_run : RunStatus → Bool
is_waiting_run RunStatus.waiting_input = true
is_waiting_run _ = false

abbrev pub is_approval : InputKind → Bool
is_approval Rows.approval = true
is_approval _ = false

abbrev pub is_clarification : InputKind → Bool
is_clarification Rows.clarification = true
is_clarification _ = false

-- `session.get(InputRequestRecord, action.approval_request_id)`, if it is pending.
abbrev pub pending_request : Option ℕ → Table InputRequestRow → Option (ℕ × InputRequestRow)
pending_request none t = none
pending_request (some id) t = elim (lookup id t) [
  | none ↦ none
  | some row ↦ if is_pending_input row.status then some (id, row) else none
]

unfoldable pub add_request : ℕ → InputRequestRow → Db → Result Db
add_request id row db = do
  guard (is_none (lookup id db.input_requests)) integrity_error
  ok (record db { input_requests = insert id row db.input_requests })

-- The run waits for the answer.
unfoldable pub wait_for_input : ℕ → RunRow → Db → Result Db
wait_for_input run_id run db = do
  require_run_transition run.status RunStatus.waiting_input
  ok (log_event run_id (moved_to RunStatus.waiting_input run) Rows.input_requested db)

abbrev pub approval_of : Context → RunRow → ℕ → ActionRow → Option ℕ → ℕ → InputRequestRow
approval_of c run action_id action versions expires_at = record {
  run_id = action.run_id;
  action_id = some action_id;
  tenant_id = c.tenant_id;
  subject_id = c.subject_id;
  kind = Rows.approval;
  status = Rows.pending;
  version = 0;
  request_hash = action.request_hash;
  capability_revision = some action.capability_revision;
  policy_revision = run.policy_revision;
  scope_fingerprint = action.scope_fingerprint;
  resource_versions = versions;
  expires_at = expires_at;
}

abbrev pub asked_action : ℕ → ActionRow → ActionRow
asked_action request_id action = record action {
  status = ActionStatus.waiting_input;
  approval_request_id = some request_id;
  version = action.version + 1;
}

unfoldable pub ask_approval :
    Context
    → ℕ
    → ℕ
    → ℕ
    → Option ℕ
    → ActionRow
    → RunRow
    → Option (ℕ × InputRequestRow)
    → Db
    → Result ((ℕ × InputRequestRow) × Db)
unfolding add_request wait_for_input
ask_approval c id request_id expires_at versions action run (some existing) db = ok (existing, db)
ask_approval c id request_id expires_at versions action run none db = do
  guard (is_ready_action action.status) version_conflict
  guard (is_running run.status) already_terminal
  let row = approval_of c run id action versions expires_at
  added ← add_request request_id row db
  asked ← wait_for_input action.run_id run (put_action id (asked_action request_id action) added)
  ok ((request_id, row), asked)

unfoldable pub request_approval :
    Context
    → ℕ
    → ℕ
    → (expires_at : ℕ) → Option ℕ
    → (now : ℕ) → Db
    → Result ((ℕ × InputRequestRow) × Db)
unfolding ask_approval
request_approval c id request_id expires_at versions now db = do
  guard (ltb now expires_at) input_request_expired
  action ← owned_action c id db
  run ← require (lookup action.run_id db.runs) not_found
  ask_approval c id request_id expires_at versions action run
      (pending_request action.approval_request_id db.input_requests) db

-- `WHERE run_id=… AND action_id IS NULL AND kind='clarification' AND request_hash=…`
unfoldable pub find_clarification : ℕ → ℕ → Table InputRequestRow → Option (ℕ × InputRequestRow)
find_clarification run_id hash [] = none
find_clarification run_id hash ((k, r) ∷ t) =
    if r.run_id == run_id
      && is_none r.action_id
      && is_clarification r.kind
      && r.request_hash == hash
    then some (k, r)
    else find_clarification run_id hash t

abbrev pub clarification_of : Context → ℕ → RunRow → ℕ → ℕ → InputRequestRow
clarification_of c run_id run hash expires_at = record {
  run_id = run_id;
  action_id = none;
  tenant_id = c.tenant_id;
  subject_id = c.subject_id;
  kind = Rows.clarification;
  status = Rows.pending;
  version = 0;
  request_hash = hash;
  capability_revision = none;
  policy_revision = run.policy_revision;
  scope_fingerprint = c.scopes;
  resource_versions = none;
  expires_at = expires_at;
}

unfoldable pub ask_clarification :
    Context
    → ℕ
    → ℕ
    → ℕ
    → ℕ
    → RunRow
    → Option (ℕ × InputRequestRow)
    → Db
    → Result ((ℕ × InputRequestRow) × Db)
unfolding add_request wait_for_input
ask_clarification c run_id request_id hash expires_at run (some existing) db = ok (existing, db)
ask_clarification c run_id request_id hash expires_at run none db = do
  guard (is_running run.status) already_terminal
  let row = clarification_of c run_id run hash expires_at
  added ← add_request request_id row db
  asked ← wait_for_input run_id run added
  ok ((request_id, row), asked)

unfoldable pub request_clarification :
    Context → ℕ → ℕ → ℕ → (expires_at now : ℕ) → Claim → Db → Result ((ℕ × InputRequestRow) × Db)
unfolding ask_clarification find_clarification
request_clarification c run_id request_id hash expires_at now claim db = do
  guard (ltb now expires_at) input_request_expired
  require_claimed_run_job claim run_id db
  run ← owned_run c run_id db
  ask_clarification c run_id request_id hash expires_at run
      (find_clarification run_id hash db.input_requests) db
