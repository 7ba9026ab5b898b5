-- ===== src/Domain/States.antt =====
-- src/hnh/domain/states.py: the statuses of runs and actions, and the allowed run transitions.
use http_harness.Base.{Bool, true, false}
use http_harness.Base.Ensures.{Result, guard}
use http_harness.Domain.Errors.{invalid_transition}

pub data RunStatus : Type 0 where
  queued running waiting_input blocked cancelling succeeded failed cancelled expired : RunStatus

-- `new in RUN_TRANSITIONS[old]`
unfoldable pub run_transitions : RunStatus → RunStatus → Bool
run_transitions queued running = true
run_transitions queued cancelling = true
run_transitions queued failed = true
run_transitions queued expired = true
run_transitions running waiting_input = true
run_transitions running blocked = true
run_transitions running cancelling = true
run_transitions running succeeded = true
run_transitions running failed = true
run_transitions running expired = true
run_transitions waiting_input queued = true
run_transitions waiting_input blocked = true
run_transitions waiting_input cancelling = true
run_transitions waiting_input failed = true
run_transitions waiting_input expired = true
run_transitions blocked queued = true
run_transitions blocked cancelling = true
run_transitions blocked failed = true
run_transitions blocked expired = true
run_transitions cancelling cancelled = true
run_transitions cancelling blocked = true
run_transitions cancelling failed = true
run_transitions _ _ = false

-- `status in TERMINAL_RUN_STATUSES`
unfoldable pub is_terminal : RunStatus → Bool
is_terminal succeeded = true
is_terminal failed = true
is_terminal cancelled = true
is_terminal expired = true
is_terminal _ = false

unfoldable pub require_run_transition : RunStatus → RunStatus → Result (Unit {0})
unfolding run_transitions
require_run_transition old new = guard (run_transitions old new) invalid_transition

-- Tests against one status.
abbrev pub is_queued : RunStatus → Bool
is_queued queued = true
is_queued _ = false

abbrev pub is_running : RunStatus → Bool
is_running running = true
is_running _ = false

abbrev pub is_blocked : RunStatus → Bool
is_blocked blocked = true
is_blocked _ = false

abbrev pub is_cancelling : RunStatus → Bool
is_cancelling cancelling = true
is_cancelling _ = false

abbrev pub is_cancelled : RunStatus → Bool
is_cancelled cancelled = true
is_cancelled _ = false

-- `class ActionStatus`; the names that a run status has too are written behind the type.
pub data ActionStatus : Type 0 where
  proposed waiting_input ready running waiting_external retry_wait outcome_unknown : ActionStatus
  succeeded failed cancelled : ActionStatus

-- Not yet dispatched: what a cancellation or a termination closes at once.
unfoldable pub is_open : ActionStatus → Bool
is_open ActionStatus.proposed = true
is_open ActionStatus.waiting_input = true
is_open ActionStatus.ready = true
is_open _ = false

-- In `(SUCCEEDED, FAILED, CANCELLED)`.
unfoldable pub is_settled : ActionStatus → Bool
is_settled ActionStatus.succeeded = true
is_settled ActionStatus.failed = true
is_settled ActionStatus.cancelled = true
is_settled _ = false

-- An external effect may have happened and is not confirmed.
unfoldable pub is_uncertain : ActionStatus → Bool
is_uncertain ActionStatus.running = true
is_uncertain ActionStatus.waiting_external = true
is_uncertain ActionStatus.retry_wait = true
is_uncertain ActionStatus.outcome_unknown = true
is_uncertain _ = false

abbrev pub is_ready_action : ActionStatus → Bool
is_ready_action ActionStatus.ready = true
is_ready_action _ = false

abbrev pub is_running_action : ActionStatus → Bool
is_running_action ActionStatus.running = true
is_running_action _ = false

abbrev pub is_succeeded_action : ActionStatus → Bool
is_succeeded_action ActionStatus.succeeded = true
is_succeeded_action _ = false

abbrev pub is_retry_wait_action : ActionStatus → Bool
is_retry_wait_action ActionStatus.retry_wait = true
is_retry_wait_action _ = false

-- In `{OUTCOME_UNKNOWN, WAITING_EXTERNAL}`.
abbrev pub needs_evidence : ActionStatus → Bool
needs_evidence ActionStatus.outcome_unknown = true
needs_evidence ActionStatus.waiting_external = true
needs_evidence _ = false
