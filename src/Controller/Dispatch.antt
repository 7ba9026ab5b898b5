-- ===== src/Controller/Dispatch.antt =====
-- The methods of src/hnh/application/run_controller.py that admit an action, start its dispatch and
-- complete it.
pub mod Steps
pub mod Once
pub mod Completed
use http_harness.Base.{
  ℕ, ◌+◌, Bool, true, false, not, ◌&&◌, ◌||◌, Option, none, some, List, [], ◌∷◌, ltb, ◌==◌, ◌==?◌,
  if◌then◌else◌, is_none,
}
use http_harness.Base.Table.{Table, lookup}
use http_harness.Base.Ensures.{Result, ok, err, ◌>>=◌, ◌>>◌, when◌then◌otherwise◌, guard, require}
use http_harness.Domain.Errors.{
  not_found, version_conflict, idempotency_conflict, already_terminal, invalid_operation,
  lease_lost, value_error,
}
use http_harness.Domain.States.{
  ActionStatus, is_queued, is_running, is_ready_action, is_running_action, is_succeeded_action,
}
use http_harness.Store.Rows
use http_harness.Store.Rows.{
  Db, RunRow, ActionRow, AttemptRow, JobRow, Context, CapabilityId, EffectSemantics, DownstreamKey,
  ActionResult, EventType, AttemptStatus,
}
use http_harness.Store.Tests.{is_replayable, same_capability, same_key, is_local}
use http_harness.Store.Session.{
  owned_run, latest_attempt_locked, max_attempt_no, log_event, put_action, add_action, put_attempt,
  add_attempt,
}
use http_harness.Store.Lease.{ClaimedJob, Claim, same_kind, leased_job, require_claimed_run_job}

-- What a caller proposes for one action slot.
pub record Proposal : Type 0 where
  pub turn_id : ℕ
  pub call_index : ℕ
  pub request_hash : ℕ
  pub capability_id : CapabilityId
  pub capability_revision : ℕ
  pub effect_semantics : EffectSemantics

abbrev in_slot : ℕ → Proposal → ActionRow → Bool
in_slot run_id p a = a.run_id == run_id && a.turn_id == p.turn_id && a.call_index == p.call_index

-- The action of a slot; the table holds one at most.
unfoldable pub find_slot : ℕ → Proposal → Table ActionRow → Option (ℕ × ActionRow)
find_slot run_id p [] = none
find_slot run_id p ((k, a) ∷ t) = if in_slot run_id p a then some (k, a) else find_slot run_id p t

abbrev pub same_request : Proposal → ActionRow → Bool
same_request p a =
    a.request_hash == p.request_hash
    && same_capability a.capability_id p.capability_id
    && a.capability_revision == p.capability_revision

abbrev pub admitted : Context → ℕ → Proposal → RunRow → ActionRow
admitted context run_id p run = record {
  run_id = run_id;
  tenant_id = context.tenant_id;
  subject_id = context.subject_id;
  turn_id = p.turn_id;
  call_index = p.call_index;
  status = ActionStatus.ready;
  request_hash = p.request_hash;
  capability_id = p.capability_id;
  capability_revision = p.capability_revision;
  effect_semantics = p.effect_semantics;
  policy_revision = run.policy_revision;
  scope_fingerprint = context.scopes;
  downstream_idempotency_key = none;
  upstream_handle = none;
  approval_request_id = none;
  result = none;
  version = 0;
  lease_epoch = 0;
}

-- The slot's action if it holds the same request, or a new one under the drawn identifier.
unfoldable pub admit_slot :
    Context
    → ℕ
    → ℕ
    → Proposal
    → RunRow
    → Option (ℕ × ActionRow)
    → Db
    → Result ((ℕ × ActionRow × Bool) × Db)
admit_slot context run_id id p run (some (k, a)) db =
    guard (same_request p a) idempotency_conflict >> ok ((k, a, true), db)
admit_slot context run_id id p run none db = do
  guard (is_queued run.status || is_running run.status) already_terminal
  added ← add_action id (admitted context run_id p run) db
  ok ((id, admitted context run_id p run, false), log_event run_id run Rows.action_ready added)

-- `ActionAdmission` is the action, under its identifier, and whether it was replayed.
unfoldable pub get_or_record_admitted_action :
    Context → ℕ → ℕ → Proposal → Claim → Db → Result ((ℕ × ActionRow × Bool) × Db)
unfolding admit_slot
get_or_record_admitted_action context run_id id p claim db = do
  require_claimed_run_job claim run_id db
  run ← owned_run context run_id db
  admit_slot context run_id id p run (find_slot run_id p db.actions) db

-- The job of an optional claim, its lease checked.
unfoldable pub claimed_row : Option ClaimedJob → Option ℕ → Db → Result (Option JobRow)
claimed_row none worker db = ok none
claimed_row (some claimed) none db = err value_error
claimed_row (some claimed) (some worker) db = do job ← leased_job claimed worker db; ok (some job)

-- Whether the leased job is the work of this action: of its run, or of itself.
abbrev pub job_serves : Option JobRow → ℕ → Option ActionRow → Bool
job_serves none id action = true
job_serves (some job) id action =
    if same_kind job.kind Rows.advance_run
    then elim action [ none ↦ false | some a ↦ job.run_id ==? some a.run_id ]
    else job.action_id ==? some id

abbrev pub claimed_epoch : Option ClaimedJob → ℕ
claimed_epoch none = 0
claimed_epoch (some claimed) = claimed.lease_epoch

-- `recovering_local`: a ledger-backed local effect whose lease was lost to this newer one.
unfoldable pub recovers_local : Option JobRow → ℕ → ActionRow → Bool
recovers_local none epoch a = false
recovers_local (some job) epoch a =
    is_running_action a.status
    && same_kind job.kind Rows.advance_run
    && is_local a.effect_semantics
    && is_replayable a.capability_id
    && ltb a.lease_epoch epoch

-- A recovery closes the attempt of the lost lease as unknown.
unfoldable pub close_lost_attempt : Bool → ℕ → Option DownstreamKey → ActionRow → Db → Result Db
close_lost_attempt false id key action db = ok db
close_lost_attempt true id key action db = do
  guard (same_key key action.downstream_idempotency_key) version_conflict
  previous ← latest_attempt_locked id AttemptStatus.started db
  ok (put_attempt previous.0 (record (previous.1) { status = AttemptStatus.outcome_unknown }) db)

abbrev pub kept_key : Option DownstreamKey → Option DownstreamKey → Option DownstreamKey
kept_key none old = old
kept_key (some key) old = some key

abbrev pub dispatching : ℕ → Option DownstreamKey → ActionRow → ActionRow
dispatching epoch key action = record action {
  status = ActionStatus.running;
  version = action.version + 1;
  lease_epoch = epoch;
  downstream_idempotency_key = kept_key key action.downstream_idempotency_key;
}

abbrev started_attempt : ℕ → ℕ → ℕ → Option DownstreamKey → AttemptRow
started_attempt action_id number epoch key = record {
  action_id = action_id;
  attempt_no = number;
  status = AttemptStatus.started;
  lease_epoch = epoch;
  downstream_idempotency_key = key;
}

-- The dispatch itself, of an action that is ready or recovers. Where it recovers it is running
-- already, so that both branches of the source leave it running.
unfoldable pub start_attempt :
    ℕ → ℕ → ℕ → Bool → Option DownstreamKey → ActionRow → RunRow → Db → Result (Bool × Db)
unfolding close_lost_attempt
start_attempt id attempt_id epoch recovering key action run db = do
  closed ← close_lost_attempt recovering id key action db
  let number = max_attempt_no id closed.attempts + 1
  let dispatched = put_action id (dispatching epoch key action) closed
  started ← add_attempt attempt_id (started_attempt id number epoch key) dispatched
  let type = if recovering then Rows.action_retry_started else Rows.action_started
  ok (true, log_event action.run_id run type started)

unfoldable pub dispatch_action :
    ℕ
    → ℕ
    → Claim
    → Option JobRow
    → Option DownstreamKey
    → Option ActionRow
    → Db
    → Result (Bool × Db)
unfolding start_attempt
dispatch_action id attempt_id claim job key none db = ok (false, db)
dispatch_action id attempt_id claim job key (some action) db = do
  let epoch = claimed_epoch claim.claimed_job
  let recovering = recovers_local job epoch action
  when not (is_ready_action action.status || recovering) then ok (false, db) otherwise do
    run ← require (lookup action.run_id db.runs) not_found
    guard (is_running run.status) already_terminal
    guard (is_none job || not (is_replayable action.capability_id) || not (is_none key))
        invalid_operation
    start_attempt id attempt_id epoch recovering key action run db

unfoldable pub begin_action_dispatch :
    ℕ → ℕ → Claim → Option DownstreamKey → Db → Result (Bool × Db)
unfolding claimed_row dispatch_action
begin_action_dispatch id attempt_id claim key db = do
  job ← claimed_row claim.claimed_job claim.worker_id db
  guard (job_serves job id (lookup id db.actions)) lease_lost
  dispatch_action id attempt_id claim job key (lookup id db.actions) db

abbrev pub completion : Bool → ActionStatus
completion succeeded = if succeeded then ActionStatus.succeeded else ActionStatus.failed

abbrev attempt_completion : Bool → AttemptStatus
attempt_completion succeeded = if succeeded then AttemptStatus.succeeded else AttemptStatus.failed

abbrev pub completed : Bool → ActionResult → ActionRow → ActionRow
completed succeeded result action = record action {
  status = completion succeeded;
  result = some result;
  version = action.version + 1;
}

-- The epoch under which the action was dispatched is the claim's.
abbrev pub same_epoch : Option ClaimedJob → ActionRow → Bool
same_epoch none action = true
same_epoch (some claimed) action = action.lease_epoch == claimed.lease_epoch

unfoldable pub complete_action : ℕ → ActionResult → Bool → Claim → Db → Result (ActionRow × Db)
unfolding claimed_row
complete_action id result succeeded claim db = do
  job ← claimed_row claim.claimed_job claim.worker_id db
  action ← require (lookup id db.actions) not_found
  guard (job_serves job id (some action)) lease_lost
  when is_succeeded_action action.status then ok (action, db) otherwise do
    guard (is_running_action action.status) version_conflict
    guard (same_epoch claim.claimed_job action) lease_lost
    attempt ← latest_attempt_locked id AttemptStatus.started db
    let closed = record (attempt.1) { status = attempt_completion succeeded }
    let new = completed succeeded result action
    let settled = put_attempt attempt.0 closed (put_action id new db)
    run ← require (lookup action.run_id db.runs) not_found
    let type = if succeeded then Rows.action_succeeded else Rows.action_failed
    ok (new, log_event action.run_id run type settled)
