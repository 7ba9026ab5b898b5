-- ===== src/Tests/Questions.antt =====
-- Questions to the user at a concrete store: an approval is asked for, and answered in time or late.
use http_harness.Base.{◌≡◌, refl, none, some, [], ◌∷◌}
use http_harness.Base.Table.{any_row, insert, lookup}
use http_harness.Base.Ensures.{ok, err, ◌>>=◌}
use http_harness.Domain.Errors.{version_conflict}
use http_harness.Domain.States.{ActionStatus, RunStatus, require_run_transition}
use http_harness.Store.Rows
use http_harness.Store.Rows.{Db, RunRow, ActionRow, InputRequestRow}
use http_harness.Store.Session.{add_job, log_event, owned_action, put_action}
use http_harness.Controller.Inputs.{request_approval, approval_of, asked_action}
use http_harness.Controller.Inputs.Responses
use http_harness.Controller.Inputs.Responses.{
  Reply, respond_to_input, validate_approval, find_response, decided_row,
}
use http_harness.Controller.Inputs.Once.{respond_to_input-once}
use http_harness.Controller.Inputs.Effect.{Committed, respond_to_input-Committed}
use http_harness.Controller.Inputs.Expiry.{respond_to_input-expired}
use http_harness.Controller.Inputs.Approval.{respond_to_input-validate_approval}
use http_harness.Calls.{Call, empty, perform, run_call}
use http_harness.Tests.Stores.{alice, queued_run}

abbrev running_run : RunRow
running_run = record queued_run { status = RunStatus.running; version = 1; event_seq = 3 }

abbrev proposed_action : ActionRow
proposed_action = record {
  run_id = 1;
  tenant_id = 1;
  subject_id = 2;
  turn_id = 1;
  call_index = 0;
  status = ActionStatus.ready;
  request_hash = 77;
  capability_id = Rows.CapabilityId.named 5;
  capability_revision = 1;
  effect_semantics = Rows.remote_idempotent;
  policy_revision = 1;
  scope_fingerprint = 7 ∷ 8 ∷ [];
  downstream_idempotency_key = none;
  upstream_handle = none;
  approval_request_id = none;
  result = none;
  version = 0;
  lease_epoch = 0;
}

abbrev asking_db : Db
asking_db = record (empty 100) { runs = (1, running_run) ∷ []; actions = (4, proposed_action) ∷ [] }

-- The approval is asked for at 100 and expires at 200.
abbrev asked_db : Db
asked_db = perform (Call.request_approval alice 4 50 200 none 100) asking_db

abbrev question : InputRequestRow
question = approval_of alice running_run 4 proposed_action none 200

asked : request_approval alice 4 50 200 none 100 asking_db ≡ ok ((50, question), asked_db)
unfolding request_approval run_call ◌>>=◌ lookup insert owned_action require_run_transition
asked = refl

abbrev consent : Reply
consent = record {
  input_request_id = 50;
  expected_version = 0;
  decision = Rows.approve;
  values = none;
  comment = none;
  idempotency_key = 21;
}

abbrev approved_db : Db
approved_db = perform (Call.respond_to_input alice consent 60 61 150) asked_db

approved :
    respond_to_input alice consent 60 61 150 asked_db
    ≡ ok (Responses.snapshot (decided_row Rows.answered question), approved_db)
unfolding respond_to_input run_call ◌>>=◌ lookup insert request_approval owned_action
    require_run_transition log_event put_action add_job
approved = refl

no_reply : find_response alice 21 asking_db.input_responses ≡ none
unfolding find_response
no_reply = refl

no_reply_yet : find_response alice 21 asked_db.input_responses ≡ none
unfolding find_response run_call request_approval ◌>>=◌ owned_action lookup require_run_transition
    log_event put_action
no_reply_yet = refl

owned : owned_action alice 4 asking_db ≡ ok proposed_action
unfolding owned_action ◌>>=◌ lookup
owned = refl

respond_to_input-validate_approval_example :
    validate_approval alice 4 none none 199 approved_db ≡ ok tt
unfolding any_row
respond_to_input-validate_approval_example =
    respond_to_input-validate_approval alice 4 50 none none 200 100 proposed_action consent 60 61
      150 199 (50, question) (decided_row Rows.answered question) asking_db asked_db approved_db
      owned refl refl asked refl no_reply approved

respond_to_input-Committed_example :
    Committed alice consent 60 61 150 asked_db
      (Responses.snapshot (decided_row Rows.answered question))
      approved_db
respond_to_input-Committed_example =
    respond_to_input-Committed alice consent 60 61 150 (decided_row Rows.answered question) asked_db
      approved_db no_reply_yet approved

-- A change of mind.
abbrev refusal : Reply
refusal = record consent { decision = Rows.deny; idempotency_key = 22; expected_version = 1 }

no_refusal : find_response alice 22 asked_db.input_responses ≡ none
unfolding find_response run_call request_approval ◌>>=◌ owned_action lookup require_run_transition
    log_event put_action
no_refusal = refl

respond_to_input-once_example :
    respond_to_input alice refusal 62 63 160 approved_db ≡ err version_conflict
respond_to_input-once_example =
    respond_to_input-once alice consent refusal 60 61 150 62 63 160
      (decided_row Rows.answered question) asked_db approved_db no_reply_yet approved refl
      no_refusal

-- The reply comes at 250.
abbrev late_db : Db
late_db = perform (Call.respond_to_input alice consent 60 61 250) asked_db

late : respond_to_input alice consent 60 61 250 asked_db ≡ ok (Responses.raises_expired, late_db)
unfolding respond_to_input run_call ◌>>=◌ lookup insert request_approval owned_action
    require_run_transition log_event put_action
late = refl

abbrev waiting_action : ActionRow
waiting_action = asked_action 50 proposed_action

abbrev waiting_run : RunRow
waiting_run = record running_run { status = RunStatus.waiting_input; version = 2; event_seq = 4 }

owned_waiting : owned_action alice 4 asked_db ≡ ok waiting_action
unfolding owned_action ◌>>=◌ lookup run_call request_approval require_run_transition log_event
    put_action insert
owned_waiting = refl

waiting_at : lookup 1 asked_db.runs ≡ some waiting_run
unfolding lookup run_call request_approval ◌>>=◌ owned_action require_run_transition log_event
    insert put_action
waiting_at = refl

respond_to_input-expired_example :
    (respond_to_input alice refusal 62 63 260 late_db ≡ err version_conflict)
    × (request_approval alice 4 51 400 none 260 late_db ≡ err version_conflict)
    × (owned_action alice 4 late_db ≡ ok waiting_action)
    × ((left : RunRow) × (lookup 1 late_db.runs ≡ some left)
        × (left.status ≡ RunStatus.waiting_input))
respond_to_input-expired_example =
    respond_to_input-expired alice consent refusal 60 61 250 62 63 260 4 51 400 none waiting_action
      asked_db late_db late refl no_refusal owned_waiting refl refl waiting_run waiting_at refl
