-- ===== src/Tests/Machine.antt =====
-- The theorems on the machine at a concrete history.
use http_harness.Base.{◌-◌, ◌≡◌, refl, arith, none, some, [], ◌∷◌, true, false}
use http_harness.Base.Table.{any_row, insert, lookup}
use http_harness.Base.Ensures.{ok, err, ◌>>=◌}
use http_harness.Domain.Errors.{lease_lost}
use http_harness.Domain.States.{RunStatus, ActionStatus, is_terminal, require_run_transition}
use http_harness.Store.Rows
use http_harness.Store.Rows.{Db, RunRow, JobRow, ActionRow}
use http_harness.Store.Lease.{unclaimed, leased_job, require_claimed_run_job}
use http_harness.Store.Session.{
  put_job, owned_run, add_action, log_event, finish_ready_jobs, has_nonterminal_children,
}
use http_harness.Store.Funding.{IsFunded}
use http_harness.Store.Trace.{Edit}
use http_harness.Store.Trace.Invariants.{IsOrphanFree}
use http_harness.Store.Trace.EventLog.{IsDense}
use http_harness.Store.Step.Moves.{Bound}
use http_harness.Controller.Admission
use http_harness.Controller.Dispatch
use http_harness.Controller.Dispatch.{Proposal}
use http_harness.Controller.Jobs
use http_harness.Controller.Runs
use http_harness.Controller.Jobs.{complete_job}
use http_harness.Calls.{Call, Reaches, perform, run_call}
use http_harness.Calls.Lifecycle.{
  Reaches-Edit, Reaches-is_terminal, Reaches-IsOrphanFree, Reaches-IsDense, Reaches-Extends,
  Extends,
}
use http_harness.Calls.Resources.{
  Reaches-IsFunded, Reaches-Bound, Reaches-leased_job_stale, Reaches-leased_job_done,
  Reaches-complete_job,
}
use http_harness.Tests.Stores.{
  first_claim, second_claim, admitted_db, claimed_db, history, retaken_job, retaken, claim_at,
  proposed_db, queued_run, queued_at,
}

abbrev later_work : Reaches admitted_db claimed_db
later_work =
    Reaches.after (Reaches.after (Reaches.after Reaches.here first_claim) (Call.tick 40))
      second_claim

Reaches-Edit_example :
    (later : RunRow) × (lookup 1 claimed_db.runs ≡ some later)
    × Edit (later.event_seq - queued_run.event_seq) queued_run later
Reaches-Edit_example = Reaches-Edit 1 queued_run later_work queued_at

-- The run fails before a worker sees it.
abbrev failed_db : Db
failed_db = perform (Call.fail_run 1 3 unclaimed) admitted_db

abbrev failed_run : RunRow
failed_run = record queued_run {
  status = RunStatus.failed;
  version = 1;
  event_seq = 2;
  failure = some (record { code = 3; termination_intent = false; unresolved_effects = false });
}

failed_at : lookup 1 failed_db.runs ≡ some failed_run
unfolding run_call Admission.admit_run lookup insert ◌>>=◌ Runs.fail_run log_event finish_ready_jobs
    require_claimed_run_job is_terminal require_run_transition has_nonterminal_children any_row
failed_at = refl

failed-is_terminal : is_terminal failed_run.status ≡ true
unfolding is_terminal
failed-is_terminal = refl

abbrev after_failure : Db
after_failure = perform (Call.ensure_run_running 1 unclaimed) failed_db

Reaches-is_terminal_example :
    (later : RunRow) × (lookup 1 after_failure.runs ≡ some later)
    × (later.status ≡ RunStatus.failed)
Reaches-is_terminal_example =
    Reaches-is_terminal 1 failed_run
      (Reaches.after Reaches.here (Call.ensure_run_running 1 unclaimed)) failed_at
      failed-is_terminal

Reaches-IsOrphanFree_example : IsOrphanFree claimed_db.runs
Reaches-IsOrphanFree_example = Reaches-IsOrphanFree 100 claimed_db history

Reaches-IsDense_example : IsDense claimed_db.runs claimed_db.events
Reaches-IsDense_example = Reaches-IsDense 100 claimed_db history

Reaches-Extends_example : Extends admitted_db.events claimed_db.events
Reaches-Extends_example = Reaches-Extends later_work

Reaches-IsFunded_example : IsFunded claimed_db.budgets claimed_db.reservations
Reaches-IsFunded_example = Reaches-IsFunded 100 claimed_db history

abbrev ready_action : ActionRow
ready_action = record {
  run_id = 1;
  tenant_id = 1;
  subject_id = 2;
  turn_id = 1;
  call_index = 0;
  status = ActionStatus.ready;
  request_hash = 77;
  capability_id = Rows.CapabilityId.named 5;
  capability_revision = 1;
  effect_semantics = Rows.remote_idempotent;
  policy_revision = 1;
  scope_fingerprint = 7 ∷ 8 ∷ [];
  downstream_idempotency_key = none;
  upstream_handle = none;
  approval_request_id = none;
  result = none;
  version = 0;
  lease_epoch = 0;
}

ready_at : lookup 4 proposed_db.actions ≡ some ready_action
unfolding run_call Admission.admit_run lookup insert ◌>>=◌ Dispatch.get_or_record_admitted_action
    Dispatch.find_slot require_claimed_run_job owned_run add_action log_event
ready_at = refl

abbrev terminated_db : Db
terminated_db = perform (Call.terminate_run 1 6 unclaimed) proposed_db

Reaches-Bound_example :
    (later : ActionRow) × (lookup 4 terminated_db.actions ≡ some later) × Bound ready_action later
Reaches-Bound_example =
    Reaches-Bound 4 ready_action (Reaches.after Reaches.here (Call.terminate_run 1 6 unclaimed))
      ready_at

Reaches-leased_job_stale_example :
    leased_job (claim_at 1) 9 (perform (Call.tick 5) claimed_db) ≡ err lease_lost
Reaches-leased_job_stale_example =
    Reaches-leased_job_stale (claim_at 1) 9 retaken_job history
      (Reaches.after Reaches.here (Call.tick 5)) retaken (omega arith)

abbrev finished_db : Db
finished_db = perform (Call.complete_job (claim_at 2) 10) claimed_db

abbrev finished_job : JobRow
finished_job = record retaken_job { status = Rows.done; lease_owner = none; lease_until = none }

finished_at : lookup 2 finished_db.jobs ≡ some finished_job
unfolding run_call Admission.admit_run Jobs.claim_job Jobs.first_due Jobs.is_claimable lookup insert
    ◌>>=◌ put_job Jobs.complete_job leased_job
finished_at = refl

Reaches-leased_job_done_example :
    leased_job (claim_at 2) 10 (perform (Call.tick 5) finished_db) ≡ err lease_lost
Reaches-leased_job_done_example =
    Reaches-leased_job_done (claim_at 2) 10 finished_job
      (Reaches.after history (Call.complete_job (claim_at 2) 10))
      (Reaches.after Reaches.here (Call.tick 5)) finished_at refl

finished : complete_job (claim_at 2) 10 claimed_db ≡ ok (tt, finished_db)
unfolding run_call Admission.admit_run Jobs.claim_job Jobs.first_due Jobs.is_claimable lookup insert
    ◌>>=◌ put_job Jobs.complete_job leased_job
finished = refl

Reaches-complete_job_example :
    (leased_job (claim_at 7) 4 (perform (Call.tick 5) finished_db) ≡ err lease_lost)
    × (complete_job (claim_at 7) 4 (perform (Call.tick 5) finished_db) ≡ err lease_lost)
Reaches-complete_job_example =
    Reaches-complete_job (claim_at 2) (claim_at 7) 10 4 tt history finished
      (Reaches.after Reaches.here (Call.tick 5)) refl
