-- ===== src/Controller/Runs.antt =====
-- The methods of src/hnh/application/run_controller.py that move a run along its diagram.
pub mod Steps
pub mod Scopes
pub mod Closing
use http_harness.Base.{
  ℕ, ◌+◌, Bool, true, false, not, ◌&&◌, Option, none, some, List, list_eq, ◌==◌, if◌then◌else◌,
  intersection,
}
use http_harness.Base.Table.{Table, lookup}
use http_harness.Base.Ensures.{Result, ok, ◌>>=◌, ◌>>◌, when◌then◌otherwise◌, guard, require}
use http_harness.Domain.Errors.{not_found, version_conflict, already_terminal, migration_required}
use http_harness.Domain.States.{
  RunStatus, is_terminal, is_queued, is_running, is_blocked, is_cancelled, is_cancelling,
  require_run_transition,
}
use http_harness.Store.Rows
use http_harness.Store.Rows.{Db, RunRow, Context, EventType, Failure}
use http_harness.Store.Session.{
  owned_run, log_event, has_nonterminal_children, has_unresolved_actions, has_uncertain_effects,
  cancel_open_actions, finish_ready_jobs, release_reservations,
}
use http_harness.Store.Lease.{Claim, require_claimed_run_job, require_claimed_cancel_job}

-- `run.status = status; run.version += 1; run.failure = failure`
abbrev pub failing : RunStatus → Option Failure → RunRow → RunRow
failing status failure run = record run {
  status = status;
  version = run.version + 1;
  failure = failure;
}

-- The same with the failure left as it is.
abbrev pub moved_to : RunStatus → RunRow → RunRow
moved_to status run = failing status run.failure run

-- `{"code": code, …}`
abbrev failed_with : ℕ → Bool → Bool → Option Failure
failed_with code intent unresolved =
    some (record { code = code; termination_intent = intent; unresolved_effects = unresolved })

-- The intersection with the delegated scopes, where the run has any.
abbrev pub narrow : Option (List ℕ) → List ℕ → List ℕ
narrow none scopes = scopes
narrow (some delegated) scopes = intersection scopes delegated

-- A run is returned as its row, in place of the `RunSnapshot` copied from it.
unfoldable pub effective_context : Context → ℕ → Db → Result Context
effective_context context id db = do
  run ← owned_run context id db
  ok (record context {
    scopes = narrow run.delegated_scopes (intersection context.scopes run.admitted_scopes);
  })

-- The skills are pinned once; later they must be the same.
unfoldable pub pin_skills : ℕ → RunRow → List ℕ → Option (List ℕ) → Db → Result (RunRow × Db)
pin_skills id run refs none db =
    let new = record run { skill_refs = some refs; version = run.version + 1 } in
    ok (new, log_event id new Rows.run_skills_pinned db)
pin_skills id run refs (some pinned) db =
    guard (list_eq pinned refs) migration_required >> ok (run, db)

unfoldable pub pin_run_skills : Context → ℕ → List ℕ → Claim → Db → Result (RunRow × Db)
unfolding pin_skills
pin_run_skills context id refs claim db = do
  require_claimed_run_job claim id db
  run ← owned_run context id db
  pin_skills id run refs run.skill_refs db

unfoldable pub transition_run : ℕ → ℕ → RunStatus → EventType → Db → Result (RunRow × Db)
transition_run id expected_version status type db = do
  run ← require (lookup id db.runs) not_found
  guard (run.version == expected_version) version_conflict
  require_run_transition run.status status
  guard (not (is_terminal status && has_nonterminal_children id db.runs)) version_conflict
  ok (moved_to status run, log_event id (moved_to status run) type db)

unfoldable pub ensure_run_running : ℕ → Claim → Db → Result (RunRow × Db)
ensure_run_running id claim db = do
  require_claimed_run_job claim id db
  run ← require (lookup id db.runs) not_found
  when is_queued run.status
      then require_run_transition run.status RunStatus.running
        >> ok (
          moved_to RunStatus.running run,
          log_event id (moved_to RunStatus.running run) Rows.run_started db,
        )
      otherwise (guard (is_running run.status) already_terminal >> ok (run, db))

-- `RunStatus.SUCCEEDED if succeeded else RunStatus.FAILED`, and the event named after it.
abbrev pub outcome : Bool → RunStatus
outcome succeeded = if succeeded then RunStatus.succeeded else RunStatus.failed

abbrev outcome_event : Bool → EventType
outcome_event succeeded = if succeeded then Rows.run_succeeded else Rows.run_failed

unfoldable pub finish_implicit_run : ℕ → Bool → Db → Result (RunRow × Db)
finish_implicit_run id succeeded db = do
  run ← require (lookup id db.runs) not_found
  when is_terminal run.status then ok (run, db) otherwise do
    require_run_transition run.status (outcome succeeded)
    guard (not (has_nonterminal_children id db.runs)) version_conflict
    let new = moved_to (outcome succeeded) run
    ok (new, finish_ready_jobs id (log_event id new (outcome_event succeeded) db))

unfoldable pub finalize_run_cancellation : Context → ℕ → Claim → Db → Result (RunRow × Db)
finalize_run_cancellation context id claim db = do
  require_claimed_cancel_job claim id db
  run ← owned_run context id db
  when is_cancelled run.status then ok (run, db) otherwise do
    guard (is_cancelling run.status) version_conflict
    guard (not (has_unresolved_actions id db.actions)) version_conflict
    guard (not (has_nonterminal_children id db.runs)) version_conflict
    require_run_transition RunStatus.cancelling RunStatus.cancelled
    let new = moved_to RunStatus.cancelled run
    ok (new, finish_ready_jobs id (log_event id new Rows.run_cancelled db))

unfoldable pub block_run : ℕ → ℕ → Claim → Db → Result (RunRow × Db)
block_run id code claim db = do
  require_claimed_run_job claim id db
  run ← require (lookup id db.runs) not_found
  when is_blocked run.status then ok (run, db) otherwise do
    require_run_transition run.status RunStatus.blocked
    let new = failing RunStatus.blocked (failed_with code false false) run
    ok (new, log_event id new Rows.run_blocked db)

unfoldable pub fail_run : ℕ → ℕ → Claim → Db → Result (RunRow × Db)
fail_run id code claim db = do
  require_claimed_run_job claim id db
  run ← require (lookup id db.runs) not_found
  when is_terminal run.status then ok (run, db) otherwise do
    require_run_transition run.status RunStatus.failed
    guard (not (has_nonterminal_children id db.runs)) version_conflict
    let new = failing RunStatus.failed (failed_with code false false) run
    ok (new, finish_ready_jobs id (log_event id new Rows.run_failed db))

abbrev pub stopped : Bool → RunStatus
stopped unresolved = if unresolved then RunStatus.blocked else RunStatus.failed

abbrev pub stopped_event : Bool → EventType
stopped_event unresolved = if unresolved then Rows.run_blocked else Rows.run_failed

unfoldable pub terminate_run : ℕ → ℕ → Claim → Db → Result (RunRow × Db)
terminate_run id code claim db = do
  require_claimed_run_job claim id db
  run ← require (lookup id db.runs) not_found
  when is_terminal run.status then ok (run, db) otherwise do
    let closed = release_reservations id (cancel_open_actions id db)
    let unresolved = has_uncertain_effects id closed.actions
    require_run_transition run.status (stopped unresolved)
    guard (not (not unresolved && has_nonterminal_children id closed.runs)) version_conflict
    let new = failing (stopped unresolved) (failed_with code true unresolved) run
    ok (new, finish_ready_jobs id (log_event id new (stopped_event unresolved) closed))

-- The completion record itself and the final answer are documents; see `Store/Rows.antt`.
unfoldable pub record_completion : Context → ℕ → Bool → Claim → Db → Result (Unit {0} × Db)
record_completion context id verified claim db = do
  require_claimed_run_job claim id db
  run ← owned_run context id db
  when verified
      then (do
        guard (not (has_nonterminal_children id db.runs)) version_conflict
        require_run_transition run.status RunStatus.succeeded
        let finished = finish_ready_jobs id db
        ok (tt, log_event id (moved_to RunStatus.succeeded run) Rows.completion_verified finished))
      otherwise ok (tt, log_event id run Rows.completion_rejected db)

unfoldable pub append_event : ℕ → EventType → Db → Result (RunRow × Db)
append_event id type db = do
  run ← require (lookup id db.runs) not_found
  ok (run, log_event id run type db)
