-- ===== src/Store/Rows/Inputs.antt =====
-- The rows of questions to the user and of the answers, `InputRequestRecord` and
-- `InputResponseRecord` (src/hnh/adapters/postgres/models.py).
use http_harness.Base.{ℕ, Option, List}

pub data InputKind : Type 0 where
  approval clarification external_input : InputKind

pub data InputStatus : Type 0 where
  pending answered denied expired : InputStatus

-- `resource_versions` is a document that is only compared; none stands for `{}`.
pub record InputRequestRow : Type 0 where
  pub run_id : ℕ
  pub action_id : Option ℕ
  pub tenant_id : ℕ
  pub subject_id : ℕ
  pub kind : InputKind
  pub status : InputStatus
  pub version : ℕ
  pub request_hash : ℕ
  pub capability_revision : Option ℕ
  pub policy_revision : ℕ
  pub scope_fingerprint : List ℕ
  pub resource_versions : Option ℕ
  pub expires_at : ℕ

pub data InputDecision : Type 0 where
  approve deny submit : InputDecision

pub record InputResponseRow : Type 0 where
  pub input_request_id : ℕ
  pub tenant_id : ℕ
  pub subject_id : ℕ
  pub idempotency_key : ℕ
  pub request_version : ℕ
  pub decision : InputDecision
  pub values : Option ℕ
  pub comment : Option ℕ
