-- ===== src/Controller/Inputs/Responses.antt =====
-- `respond_to_input`, `validate_approval` and `validate_dispatch`.
use http_harness.Base.{
  ℕ, ◌+◌, Bool, true, false, not, ◌&&◌, ◌||◌, Option, none, some, [], ◌∷◌, ltb, leb, ◌==◌, ◌==?◌,
  if◌then◌else◌, is_none, list_eq,
}
use http_harness.Base.Table.{Table, lookup, insert, any_row}
use http_harness.Base.Ensures.{Result, ok, ◌>>=◌, ◌>>◌, when◌then◌otherwise◌, guard, require}
use http_harness.Domain.Errors.{
  not_found, version_conflict, idempotency_conflict, integrity_error, approval_required,
  permission_denied,
}
use http_harness.Domain.States.{RunStatus, ActionStatus, require_run_transition}
use http_harness.Store.Rows
use http_harness.Store.Rows.{
  Db, RunRow, ActionRow, Context, EventType, InputStatus, InputRequestRow, InputDecision,
  InputResponseRow,
}
use http_harness.Store.Session.{
  owned_action, log_event, put_action, add_job, has_nonterminal_children,
}
use http_harness.Controller.Runs.{moved_to}
use http_harness.Controller.Inputs.{is_pending_input, is_answered, is_waiting_run, is_approval}

abbrev pub is_deny : InputDecision → Bool
is_deny Rows.deny = true
is_deny _ = false

abbrev pub is_approve : InputDecision → Bool
is_approve Rows.approve = true
is_approve _ = false

abbrev pub is_submit : InputDecision → Bool
is_submit Rows.submit = true
is_submit _ = false

abbrev pub same_decision : InputDecision → InputDecision → Bool
same_decision Rows.approve d = is_approve d
same_decision Rows.deny d = is_deny d
same_decision Rows.submit d = is_submit d

-- What a user sends.
pub record Reply : Type 0 where
  pub input_request_id : ℕ
  pub expected_version : ℕ
  pub decision : InputDecision
  pub values : Option ℕ
  pub comment : Option ℕ
  pub idempotency_key : ℕ

unfoldable pub find_response : Context → ℕ → Table InputResponseRow → Option InputResponseRow
find_response c key [] = none
find_response c key ((k, r) ∷ t) =
    if r.tenant_id == c.tenant_id && r.subject_id == c.subject_id && r.idempotency_key == key
    then some r
    else find_response c key t

abbrev pub same_reply : Reply → InputResponseRow → Bool
same_reply reply r =
    r.input_request_id == reply.input_request_id
    && r.request_version == reply.expected_version
    && same_decision r.decision reply.decision
    && r.values ==? reply.values
    && r.comment ==? reply.comment

abbrev pub response_of : Context → Reply → InputResponseRow
response_of c reply = record {
  input_request_id = reply.input_request_id;
  tenant_id = c.tenant_id;
  subject_id = c.subject_id;
  idempotency_key = reply.idempotency_key;
  request_version = reply.expected_version;
  decision = reply.decision;
  values = reply.values;
  comment = reply.comment;
}

-- What the caller gets; an expiry is committed, and raised after that.
pub data Answered : Type 0 where
  snapshot : InputRequestRow → Answered
  raises_expired : Answered

abbrev pub owns_request : Context → InputRequestRow → Bool
owns_request c r = r.tenant_id == c.tenant_id && r.subject_id == c.subject_id

abbrev pub decided_row : InputStatus → InputRequestRow → InputRequestRow
decided_row status request = record request { status = status; version = request.version + 1 }

unfoldable pub put_request : ℕ → InputRequestRow → Db → Db
put_request id row db = record db { input_requests = insert id row db.input_requests }

unfoldable pub add_response : ℕ → InputResponseRow → Db → Result Db
add_response id row db = do
  guard (is_none (lookup id db.input_responses)) integrity_error
  ok (record db { input_responses = insert id row db.input_responses })

-- The action of the request, where it is there.
abbrev pub action_of : Option ℕ → Table ActionRow → Option (ℕ × ActionRow)
action_of none t = none
action_of (some id) t = elim (lookup id t) [ none ↦ none | some row ↦ some (id, row) ]

abbrev pub is_unchanged : InputRequestRow → Option (ℕ × ActionRow) → Bool
is_unchanged request none = true
is_unchanged request (some (id, action)) =
    action.request_hash == request.request_hash
    && some action.capability_revision ==? request.capability_revision
    && action.policy_revision == request.policy_revision

abbrev pub decided_action : InputRequestRow → InputDecision → ActionRow → ActionRow
decided_action request decision action = record action {
  status =
      if is_approve decision || not (is_approval request.kind) && is_submit decision
      then ActionStatus.ready
      else ActionStatus.cancelled;
  version = action.version + 1;
}

unfoldable pub decide_action : InputRequestRow → InputDecision → Option (ℕ × ActionRow) → Db → Db
decide_action request decision none db = db
decide_action request decision (some (id, action)) db =
    put_action id (decided_action request decision action) db

-- The run goes on, or fails where the user denies.
unfoldable pub resume_run :
    Context → ℕ → ℕ → InputRequestRow → InputDecision → RunRow → Db → Result Db
unfolding has_nonterminal_children
resume_run c job_id now request decision run db = do
  guard (is_waiting_run run.status) version_conflict
  let target = if is_deny decision then RunStatus.failed else RunStatus.queued
  require_run_transition run.status target
  guard (not (is_deny decision && has_nonterminal_children request.run_id db.runs)) version_conflict
  let type = if is_deny decision then Rows.input_denied else Rows.input_answered
  let logged = log_event request.run_id (moved_to target run) type db
  when is_deny decision
      then ok logged
      otherwise add_job job_id c.tenant_id Rows.advance_run request.run_id request.action_id now
          logged

-- An answer in time.
unfoldable pub accept :
    Context → Reply → ℕ → ℕ → ℕ → InputRequestRow → RunRow → Db → Result (Answered × Db)
unfolding add_response put_request decide_action resume_run
accept c reply response_id job_id now request run db = do
  guard (not (is_approval request.kind && is_submit reply.decision)) version_conflict
  guard (is_approval request.kind || is_submit reply.decision) version_conflict
  let action = action_of request.action_id db.actions
  guard (is_unchanged request action) approval_required
  added ← add_response response_id (response_of c reply) db
  let status = if is_deny reply.decision then Rows.denied else Rows.answered
  let decided = decided_row status request
  let written = put_request reply.input_request_id decided added
  resumed ←
      resume_run c job_id now request reply.decision run
        (decide_action request reply.decision action written)
  ok (snapshot decided, resumed)

-- A request that is pending, at the version that the reply is for.
unfoldable pub answer : Context → Reply → ℕ → ℕ → ℕ → InputRequestRow → Db → Result (Answered × Db)
unfolding accept put_request
answer c reply response_id job_id now request db = do
  run ← require (lookup request.run_id db.runs) not_found
  when leb request.expires_at now
      then ok (
        raises_expired,
        log_event request.run_id run Rows.input_expired
            (put_request reply.input_request_id (decided_row Rows.expired request) db),
      )
      otherwise accept c reply response_id job_id now request run db

-- The ledger is read again where the request is not pending; between the two reads of a serial
-- transaction it does not change.
unfoldable pub reply_found :
    Context → Reply → ℕ → ℕ → ℕ → Option InputResponseRow → Db → Result (Answered × Db)
unfolding answer
reply_found c reply response_id job_id now (some recorded) db = do
  guard (same_reply reply recorded) idempotency_conflict
  request ← require (lookup reply.input_request_id db.input_requests) not_found
  ok (snapshot request, db)
reply_found c reply response_id job_id now none db = do
  request ← require (lookup reply.input_request_id db.input_requests) not_found
  guard (owns_request c request) not_found
  guard (request.version == reply.expected_version && is_pending_input request.status)
      version_conflict
  answer c reply response_id job_id now request db

unfoldable pub respond_to_input : Context → Reply → ℕ → ℕ → ℕ → Db → Result (Answered × Db)
unfolding find_response reply_found
respond_to_input c reply response_id job_id now db =
    reply_found c reply response_id job_id now
      (find_response c reply.idempotency_key db.input_responses) db

abbrev pub is_approval_of : ℕ → InputResponseRow → Bool
is_approval_of id r = r.input_request_id == id && is_approve r.decision

-- The request still allows the action, for this caller and these versions. Lists of scopes are sorted
-- and stand for their fingerprints.
abbrev pub is_valid_approval :
    Context → ℕ → ℕ → Option ℕ → ℕ → ActionRow → InputRequestRow → Db → Bool
is_valid_approval c id approval_id versions now action request db =
    any_row (is_approval_of approval_id) db.input_responses
    && request.action_id ==? some id
    && is_answered request.status
    && ltb now request.expires_at
    && request.request_hash == action.request_hash
    && request.capability_revision ==? some action.capability_revision
    && request.policy_revision == action.policy_revision
    && list_eq request.scope_fingerprint action.scope_fingerprint
    && list_eq action.scope_fingerprint c.scopes
    && request.resource_versions ==? versions

-- `input_request_id or action.approval_request_id`
abbrev pub wanted_approval : Option ℕ → Option ℕ → Option ℕ
wanted_approval none kept = kept
wanted_approval (some id) kept = some id

unfoldable pub validate_approval : Context → ℕ → Option ℕ → Option ℕ → ℕ → Db → Result (Unit {0})
unfolding any_row
validate_approval c id input_request_id versions now db = do
  action ← owned_action c id db
  let wanted = wanted_approval input_request_id action.approval_request_id
  approval_id ← require wanted approval_required
  guard (some approval_id ==? action.approval_request_id) approval_required
  request ← require (lookup approval_id db.input_requests) approval_required
  guard (is_valid_approval c id approval_id versions now action request db) approval_required

unfoldable pub validate_dispatch : Context → ℕ → ℕ → Db → Result (Unit {0})
validate_dispatch c id capability_revision db = do
  action ← owned_action c id db
  run ← require (lookup action.run_id db.runs) not_found
  guard
      (action.capability_revision == capability_revision
        && action.policy_revision == run.policy_revision
        && list_eq action.scope_fingerprint c.scopes)
      permission_denied
