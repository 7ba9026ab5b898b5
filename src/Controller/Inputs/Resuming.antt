-- ===== src/Controller/Inputs/Resuming.antt =====
-- The run after an answer (`respond_to_input`).
use http_harness.Base.{ℕ, ◌+◌, ◌≡◌, refl, arith, true, false, none, some, if◌then◌else◌, ==-refl}
use http_harness.Base.Table.{lookup, insert, lookup-insert}
use http_harness.Base.Ensures.{Ensures, Ensures-ok, Ensures-bind, Ensures-guard, Ensures-when}
use http_harness.Domain.States.{RunStatus}
use http_harness.Store.Rows
use http_harness.Store.Rows.{
  Db, RunRow, ActionRow, JobRow, Context, InputRequestRow, InputResponseRow, InputDecision,
  InputStatus,
}
use http_harness.Store.Session.{log_event, add_job}
use http_harness.Controller.Runs.{moved_to}
use http_harness.Controller.Inputs.{is_waiting_run}
use http_harness.Controller.Inputs.Responses.{resume_run, is_deny}

abbrev pub decided_status : InputDecision → InputStatus
decided_status decision = if is_deny decision then Rows.denied else Rows.answered

abbrev pub target : InputDecision → RunStatus
target decision = if is_deny decision then RunStatus.failed else RunStatus.queued

-- The run after its answer: moved, and with one more event.
abbrev pub resumed_row : InputDecision → RunRow → RunRow
resumed_row decision run = record (moved_to (target decision) run) { event_seq = run.event_seq + 1 }

-- The job that wakes the run.
abbrev pub wake_up : Context → ℕ → InputRequestRow → JobRow
wake_up c now request = record {
  tenant_id = c.tenant_id;
  kind = Rows.advance_run;
  run_id = some request.run_id;
  action_id = request.action_id;
  status = Rows.ready;
  due_at = now;
  lease_owner = none;
  lease_until = none;
  lease_epoch = 0;
  attempts = 0;
}

-- The store after the run was resumed: the questions, answers and actions are left.
pub record Resumed (c : Context) (job_id now : ℕ) (request : InputRequestRow)
    (decision : InputDecision) (run : RunRow) (db db' : Db) : Type 0 where
  pub waited : is_waiting_run run.status ≡ true
  pub requests : db'.input_requests ≡ db.input_requests
  pub responses : db'.input_responses ≡ db.input_responses
  pub actions : db'.actions ≡ db.actions
  pub runs : db'.runs ≡ insert request.run_id (resumed_row decision run) db.runs
  pub woken : is_deny decision ≡ false → lookup job_id db'.jobs ≡ some (wake_up c now request)

module _ (c : Context) (job_id now : ℕ) (request : InputRequestRow) (run : RunRow) (db : Db) where
  stopped-Resumed :
      Ensures
        (Resumed c job_id now request Rows.deny run db)
        (resume_run c job_id now request Rows.deny run db)
  unfolding resume_run log_event
  stopped-Resumed = Ensures-guard _ _ _ _ λ waits. Ensures-bind _ _ _ λ _ _.
      Ensures-guard _ _ _ _ λ _.
        Ensures-when _ _ _ _
          (λ _. Ensures-ok _ _ (record {
            waited = waits;
            requests = refl;
            responses = refl;
            actions = refl;
            runs = refl;
            woken = λ h. absurd (cc);
          }))
          (λ h. absurd (cc))

  goes_on-Resumed :
      (decision : InputDecision)
      → is_deny decision ≡ false
      → Ensures
          (Resumed c job_id now request decision run db)
          (resume_run c job_id now request decision run db)
  unfolding resume_run log_event add_job
  goes_on-Resumed decision goes_on = Ensures-guard _ _ _ _ λ waits. Ensures-bind _ _ _ λ _ _.
      Ensures-guard _ _ _ _ λ _.
        Ensures-when _ _ _ _ (λ h. absurd (cc))
          (λ _. Ensures-guard _ _ _ _ λ _. Ensures-ok _ _ (record {
            waited = waits;
            requests = refl;
            responses = refl;
            actions = refl;
            runs = refl;
            woken = λ _. ground (
              arith,
              lookup-insert job_id job_id (wake_up c now request) db.jobs,
              ==-refl job_id,
            );
          }))

  pub resume_run-Resumed :
      (decision : InputDecision)
      → Ensures
          (Resumed c job_id now request decision run db)
          (resume_run c job_id now request decision run db)
  resume_run-Resumed Rows.approve = goes_on-Resumed Rows.approve refl
  resume_run-Resumed Rows.deny = stopped-Resumed
  resume_run-Resumed Rows.submit = goes_on-Resumed Rows.submit refl
