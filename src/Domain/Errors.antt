-- ===== src/Domain/Errors.antt =====
-- The exceptions of src/hnh/domain/errors.py, with what the transport and the worker read of them.
-- Titles, details and extensions are texts for people and are left out.
use Prim.Native.Nat.{ℕ}

pub data Error : Type 0 where
  authentication_required permission_denied not_found idempotency_conflict already_terminal : Error
  invalid_transition version_conflict dependency_unavailable schema_invalid : Error
  invalid_operation lease_dispatch_unsupported precondition_required precondition_failed : Error
  payload_too_large unsupported_media_type budget_exhausted model_output_invalid : Error
  provider_unavailable event_cursor_expired event_cursor_future execution_unavailable : Error
  environment_lost execution_busy approval_required input_request_expired lease_lost : Error
  outcome_unknown migration_required : Error
  -- Python's `ValueError` and `RuntimeError`, a rejected `INSERT` of a primary key in use, and one of a
  -- text that is longer than its column.
  value_error runtime_error integrity_error data_error : Error

pub data RetryHint : Type 0 where
  never after_refresh after_reconciliation backoff after_user_input after_migration : RetryHint

-- The HTTP status; what is no `HarnessError` ends as 500.
unfoldable pub status : Error → ℕ
status authentication_required = 401
status permission_denied = 403
status not_found = 404
status dependency_unavailable = 503
status schema_invalid = 400
status invalid_operation = 400
status precondition_required = 428
status precondition_failed = 412
status payload_too_large = 413
status unsupported_media_type = 415
status model_output_invalid = 422
status provider_unavailable = 503
status event_cursor_expired = 410
status execution_unavailable = 503
status value_error = 500
status runtime_error = 500
status integrity_error = 500
status data_error = 500
status _ = 409

unfoldable pub retry_hint : Error → RetryHint
retry_hint dependency_unavailable = after_refresh
retry_hint event_cursor_expired = after_refresh
retry_hint event_cursor_future = after_refresh
retry_hint execution_unavailable = after_refresh
retry_hint environment_lost = after_reconciliation
retry_hint execution_busy = backoff
retry_hint approval_required = after_user_input
retry_hint outcome_unknown = after_reconciliation
retry_hint migration_required = after_migration
retry_hint _ = never
