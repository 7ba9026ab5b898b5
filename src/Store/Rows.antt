-- ===== src/Store/Rows.antt =====
-- The rows of src/hnh/adapters/postgres/models.py that the controller's transactions read and
-- write. Identifiers, digests, keys and scopes are compared and nothing else, so they are numbers;
-- times are seconds. Documents that are stored and handed back (goals, payloads, receipts, event
-- data) decide nothing and are left out.
mod Inputs
pub use Inputs.{
  InputKind, approval, clarification, external_input, InputStatus, pending, answered, denied,
  expired, InputRequestRow, InputDecision, approve, deny, submit, InputResponseRow,
}
use http_harness.Base.{ℕ, Bool, Option, List}
use http_harness.Base.Table.{Table}
use http_harness.Domain.States.{RunStatus, ActionStatus}

-- `TrustedContext`
pub record Context : Type 0 where
  pub tenant_id : ℕ
  pub subject_id : ℕ
  pub scopes : List ℕ

-- The `failure` document: its code, and the two flags of `terminate_run`.
pub record Failure : Type 0 where
  pub code : ℕ
  pub termination_intent : Bool
  pub unresolved_effects : Bool

pub record RunRow : Type 0 where
  pub tenant_id : ℕ
  pub subject_id : ℕ
  pub admitted_scopes : List ℕ
  pub delegated_scopes : Option (List ℕ)
  pub skill_refs : Option (List ℕ)
  pub parent_run_id : Option ℕ
  pub child_depth : ℕ
  pub status : RunStatus
  pub version : ℕ
  pub event_seq : ℕ
  pub policy_revision : ℕ
  pub failure : Option Failure
  pub created_at : ℕ

pub data EffectSemantics : Type 0 where
  read_only local_transactional remote_idempotent unsafe : EffectSemantics

-- The capabilities that `LEASE_REPLAYABLE_LOCAL_CAPABILITIES` names, and any other.
pub data CapabilityId : Type 0 where
  artifact_create workspace_file_write : CapabilityId
  named : ℕ → CapabilityId

pub data Resolution : Type 0 where
  confirmed_applied confirmed_not_applied confirmed_stopped : Resolution

-- `action.result`: a receipt of the transport, or the record of a reconciliation.
pub data ActionResult : Type 0 where
  receipt : ℕ → ActionResult
  reconciliation : Resolution → List ℕ → ActionResult

-- A downstream idempotency key: `hnh:{action.id}`, `action:{action.id}`, or any other text.
pub data DownstreamKey : Type 0 where
  hnh action other : ℕ → DownstreamKey

pub record ActionRow : Type 0 where
  pub run_id : ℕ
  pub tenant_id : ℕ
  pub subject_id : ℕ
  pub turn_id : ℕ
  pub call_index : ℕ
  pub status : ActionStatus
  pub request_hash : ℕ
  pub capability_id : CapabilityId
  pub capability_revision : ℕ
  pub effect_semantics : EffectSemantics
  pub policy_revision : ℕ
  pub scope_fingerprint : List ℕ
  pub approval_request_id : Option ℕ
  pub downstream_idempotency_key : Option DownstreamKey
  pub upstream_handle : Option ℕ
  pub result : Option ActionResult
  pub version : ℕ
  pub lease_epoch : ℕ

pub data AttemptStatus : Type 0 where
  started succeeded failed outcome_unknown : AttemptStatus

pub record AttemptRow : Type 0 where
  pub action_id : ℕ
  pub attempt_no : ℕ
  pub status : AttemptStatus
  pub lease_epoch : ℕ
  pub downstream_idempotency_key : Option DownstreamKey

pub data JobKind : Type 0 where
  advance_run cancel_run mcp_task_poll : JobKind

pub data JobStatus : Type 0 where
  ready leased done : JobStatus

pub record JobRow : Type 0 where
  pub tenant_id : ℕ
  pub kind : JobKind
  pub run_id : Option ℕ
  pub action_id : Option ℕ
  pub status : JobStatus
  pub due_at : ℕ
  pub lease_owner : Option ℕ
  pub lease_until : Option ℕ
  pub lease_epoch : ℕ
  pub attempts : ℕ

-- The `event_type` texts of the modelled operations; `named` is any other text.
pub data EventType : Type 0 where
  run_accepted run_child_accepted run_started run_succeeded run_failed run_blocked : EventType
  run_cancelled run_cancellation_requested run_skills_pinned : EventType
  action_ready action_started action_retry_started action_succeeded action_failed : EventType
  action_outcome_unknown action_retry_scheduled action_cancelled : EventType
  action_cancel_acknowledged action_reconciled : EventType
  model_call_started model_response_committed model_output_invalid : EventType
  model_turn_processed completion_verified completion_rejected : EventType
  input_requested input_expired input_denied input_answered : EventType
  named : ℕ → EventType

pub record EventRow : Type 0 where
  pub run_id : ℕ
  pub seq : ℕ
  pub event_type : EventType

pub record BudgetRow : Type 0 where
  pub max_model_turns : Option ℕ
  pub max_tool_calls : Option ℕ
  pub max_output_tokens : Option ℕ
  pub max_cost_microunits : Option ℕ
  pub max_wall_seconds : Option ℕ
  pub used_model_turns : ℕ
  pub used_tool_calls : ℕ
  pub used_output_tokens : ℕ
  pub used_cost_microunits : ℕ

-- The dimensions that `_budget_fields` knows, and any other text.
pub data Dimension : Type 0 where
  model_turn tool_call output_tokens cost_microunits unsupported : Dimension

pub data ReservationStatus : Type 0 where
  reserved settled released : ReservationStatus

-- The key of a reservation: a caller's text, or `child:{child_id}:{dimension}`.
pub data ReservationKey : Type 0 where
  caller : ℕ → ReservationKey
  child : ℕ → Dimension → ReservationKey

pub record ReservationRow : Type 0 where
  pub run_id : ℕ
  pub reservation_key : ReservationKey
  pub dimension : Dimension
  pub reserved_amount : ℕ
  pub actual_amount : Option ℕ
  pub status : ReservationStatus

-- The canonical routes of the idempotency ledger, each with its one method.
pub data Route : Type 0 where
  post_runs post_children post_cancellations : Route

pub record IdempotencyRow : Type 0 where
  pub tenant_id : ℕ
  pub subject_id : ℕ
  pub route : Route
  pub idempotency_key : ℕ
  pub request_hash : ℕ
  pub resource_id : ℕ

pub record ReconciliationRow : Type 0 where
  pub action_id : ℕ
  pub run_id : ℕ
  pub idempotency_key : ℕ
  pub action_version : ℕ
  pub resolution : Resolution
  pub evidence_ids : List ℕ
  pub comment : Option ℕ

pub data CallStatus : Type 0 where
  started response_committed invalid processed : CallStatus

pub record ModelCallRow : Type 0 where
  pub run_id : ℕ
  pub turn_id : ℕ
  pub provider : ℕ
  pub model_revision : ℕ
  pub status : CallStatus

pub data CallAttemptStatus : Type 0 where
  started completed failed : CallAttemptStatus

pub record CallAttemptRow : Type 0 where
  pub model_call_id : ℕ
  pub attempt_no : ℕ
  pub status : CallAttemptStatus

-- One PostgreSQL database; `clock` is its `now()`.
pub record Db : Type 0 where
  pub runs : Table RunRow
  pub events : List EventRow
  pub actions : Table ActionRow
  pub attempts : Table AttemptRow
  pub jobs : Table JobRow
  pub budgets : Table BudgetRow
  pub reservations : Table ReservationRow
  pub idempotency : List IdempotencyRow
  pub reconciliations : List ReconciliationRow
  pub model_calls : Table ModelCallRow
  pub model_attempts : Table CallAttemptRow
  pub input_requests : Table InputRequestRow
  pub input_responses : Table InputResponseRow
  pub clock : ℕ
