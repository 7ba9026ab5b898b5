-- ===== src/Tests/Stores.antt =====
-- A small deployment: one subject, two workers, the stores that a first request and its work lead to.
use http_harness.Base.{ℕ, ◌≡◌, refl, none, some, [], ◌∷◌}
use http_harness.Base.Table.{lookup, insert}
use http_harness.Base.Ensures.{◌>>=◌}
use http_harness.Domain.States.{RunStatus}
use http_harness.Store.Rows
use http_harness.Store.Rows.{Db, Context, RunRow, JobRow, ActionRow, BudgetRow}
use http_harness.Store.Lease.{ClaimedJob, unclaimed}
use http_harness.Store.Session.{put_job}
use http_harness.Controller.Limits
use http_harness.Controller.Admission
use http_harness.Controller.Jobs
use http_harness.Controller.Dispatch.{Proposal}
use http_harness.Calls.{Call, Reaches, empty, perform, run_call}

abbrev pub alice : Context
alice = record { tenant_id = 1; subject_id = 2; scopes = 7 ∷ 8 ∷ [] }

abbrev pub limits : Limits.Limits
limits =
    (Limits.max_model_turns, 5) ∷ (Limits.max_tool_calls, 3) ∷ (Limits.max_output_tokens, 900) ∷ []

-- Run 1 with job 2, at the time 100.
abbrev pub admission : Call
admission = Call.admit_run alice limits 11 55 1 2 100

-- Worker 9 takes the job for 30 seconds; after 40, worker 10 takes it.
abbrev pub first_claim : Call
first_claim = Call.claim_job 9 30 none []

abbrev pub second_claim : Call
second_claim = Call.claim_job 10 30 none []

abbrev pub admitted_db : Db
admitted_db = perform admission (empty 100)

abbrev pub claimed_db : Db
claimed_db = perform second_claim (perform (Call.tick 40) (perform first_claim admitted_db))

abbrev pub history : Reaches (empty 100) claimed_db
history =
    Reaches.after
      (Reaches.after (Reaches.after (Reaches.after Reaches.here admission) first_claim)
        (Call.tick 40))
      second_claim

abbrev pub retaken_job : JobRow
retaken_job = record {
  tenant_id = 1;
  kind = Rows.advance_run;
  run_id = some 1;
  action_id = none;
  status = Rows.leased;
  due_at = 100;
  lease_owner = some 10;
  lease_until = some 170;
  lease_epoch = 2;
  attempts = 2;
}

pub retaken : lookup 2 claimed_db.jobs ≡ some retaken_job
unfolding run_call Admission.admit_run Jobs.claim_job Jobs.first_due Jobs.is_claimable lookup insert
    ◌>>=◌ put_job
retaken = refl

-- The claims that the two workers got.
abbrev pub claim_at : ℕ → ClaimedJob
claim_at epoch = record {
  id = 2;
  kind = Rows.advance_run;
  run_id = some 1;
  action_id = none;
  lease_epoch = epoch;
}

abbrev pub proposal : Proposal
proposal = record {
  turn_id = 1;
  call_index = 0;
  request_hash = 77;
  capability_id = Rows.CapabilityId.named 5;
  capability_revision = 1;
  effect_semantics = Rows.remote_idempotent;
}

abbrev pub proposed_db : Db
proposed_db = perform (Call.get_or_record_admitted_action alice 1 4 proposal unclaimed) admitted_db

abbrev pub queued_run : RunRow
queued_run = record {
  tenant_id = 1;
  subject_id = 2;
  admitted_scopes = 7 ∷ 8 ∷ [];
  delegated_scopes = none;
  skill_refs = none;
  parent_run_id = none;
  child_depth = 0;
  status = RunStatus.queued;
  version = 0;
  event_seq = 1;
  policy_revision = 1;
  failure = none;
  created_at = 100;
}

pub queued_at : lookup 1 admitted_db.runs ≡ some queued_run
unfolding run_call Admission.admit_run lookup insert ◌>>=◌
queued_at = refl
