-- ===== src/Controller/Effects/Steps.antt =====
-- The methods for effects of unknown outcome as steps of the store.
use http_harness.Base.{ℕ, ◌≡◌, refl, ◌∙◌, arith, Bool, true, false, ◌&&◌, some, Option}
use http_harness.Base.Table.{lookup}
use http_harness.Base.Ensures.{
  Ensures, Ensures-ok, Ensures-bind, Ensures-guard, Ensures-require, Ensures-when, ok, ◌>>=◌,
}
use http_harness.Domain.States.{
  RunStatus, ActionStatus, is_running_action, is_retry_wait_action, is_terminal, is_blocked,
}
use http_harness.Store.Rows.{Db, RunRow, ActionRow, DownstreamKey, EventType, AttemptRow}
use http_harness.Store.Session.{log_event, put_action, add_attempt}
use http_harness.Store.Trace.{Edit, Edit-refl}
use http_harness.Store.Step.{Step, Step-trans, Commits}
use http_harness.Store.Step.Moves.{Moves-step, action_transitions, revised-Bound}
use http_harness.Store.Step.Edits.{require_run_transition-ok, status-Edit, Settled-live}
use http_harness.Store.Step.Writes.{log_event-Step, put_action-Step, add_attempt-Step}
use http_harness.Controller.Dispatch.Steps.{
  acted, rewritten, rewritten-runs, noted_after, put_action-runs, add_attempt-runs,
}
use http_harness.Controller.Effects.{
  blocked_run, mark_action_outcome_unknown, mark_action_retry_wait, begin_retry_dispatch, retried,
  unknown, lost,
}

blocked_live : (status : RunStatus) → is_blocked status ≡ true → is_terminal status ≡ false
unfolding is_terminal
blocked_live status h = ground arith

-- What `blocked_run` leaves of a run: it is moved at most to `blocked`.
abbrev Unsettled : RunRow → RunRow → Type 0
Unsettled run new =
    Edit 1 run new × (new.event_seq ≡ run.event_seq) × (is_terminal new.status ≡ false)

blocked_run-Unsettled : (run : RunRow) → Ensures (Unsettled run) (blocked_run run)
unfolding blocked_run
blocked_run-Unsettled run =
    Ensures-when _ _ _ _
      (λ already. Ensures-ok _ _ (Edit-refl run, refl, blocked_live run.status already))
      (λ _. Ensures-bind _ _ _ λ _ allowed. Ensures-ok _ _ (
        status-Edit run RunStatus.blocked run.failure (require_run_transition-ok _ _ allowed),
        refl,
        blocked_live RunStatus.blocked refl,
      ))

-- An edit of a run that stays unsettled, after writes that left the runs alone.
Unsettled-after :
    (id : ℕ) (run new : RunRow) (type : EventType) (db db' : Db)
    → lookup id db.runs ≡ some run
    → db'.runs ≡ db.runs
    → Step db db'
    → Unsettled run new
    → Step db (log_event id new type db')
Unsettled-after id run new type db db' found same step (edit, seq, live) =
    Step-trans db db' _ step (
      log_event-Step id run new type db' (rw same found) edit seq
        (Settled-live id db'.runs run new live))

unknown_moves :
    (a : ActionRow)
    → is_running_action a.status ≡ true
    → action_transitions a.status ActionStatus.outcome_unknown ≡ true
unfolding action_transitions
unknown_moves a h = ground arith

pub mark_action_outcome_unknown-Step :
    (id receipt : ℕ) (handle : Option ℕ) (db : Db)
    → Ensures (Commits db) (mark_action_outcome_unknown id receipt handle db)
unfolding mark_action_outcome_unknown
mark_action_outcome_unknown-Step id receipt handle db = Ensures-require _ _ _ _ λ action at.
    Ensures-guard _ _ _ _ λ running. Ensures-bind _ _ _ λ attempt _.
      Ensures-require _ _ _ _ λ run found. Ensures-bind _ _ _ λ blocked e. Ensures-ok _ _ (
        Unsettled-after action.run_id run blocked _ db _ found
          (rewritten-runs id (unknown receipt handle action) attempt.0 (lost attempt.1) db)
          (rewritten id action _ attempt.0 _ db at (
            revised-Bound action _ action.downstream_idempotency_key _ _ action.lease_epoch
              (Moves-step _ _ (unknown_moves action running))))
          ((blocked_run-Unsettled run).at blocked e))

retry_moves :
    (a : ActionRow) (remote : Bool)
    → (is_running_action a.status && remote) ≡ true
    → action_transitions a.status ActionStatus.retry_wait ≡ true
unfolding action_transitions
retry_moves a remote h = ground arith

pub mark_action_retry_wait-Step :
    (id receipt : ℕ) (key : DownstreamKey) (db : Db)
    → Ensures (Commits db) (mark_action_retry_wait id receipt key db)
unfolding mark_action_retry_wait
mark_action_retry_wait-Step id receipt key db = Ensures-require _ _ _ _ λ action at.
    Ensures-guard _ _ _ _ λ running. Ensures-guard _ _ _ _ λ _. Ensures-bind _ _ _ λ attempt _.
      Ensures-require _ _ _ _ λ run found. Ensures-ok _ _ (
        acted id action _ attempt.0 _ run _ db at
          (revised-Bound action _ _ action.upstream_handle _ action.lease_epoch
            (Moves-step _ _ (retry_moves action _ running)))
          found)

rerun_moves :
    (a : ActionRow) (remote keyed live : Bool)
    → (is_retry_wait_action a.status && remote && keyed && live) ≡ true
    → action_transitions a.status ActionStatus.running ≡ true
unfolding action_transitions
rerun_moves a remote keyed live h = ground arith

add_attempt-lookup :
    (attempt_id : ℕ) (row : AttemptRow) (id : ℕ) (action : ActionRow) (db db' : Db)
    → add_attempt attempt_id row db ≡ ok db'
    → lookup id db.actions ≡ some action
    → lookup id db'.actions ≡ some action
unfolding add_attempt ◌>>=◌
add_attempt-lookup attempt_id row id action db db' h at = ground arith

pub begin_retry_dispatch-Step :
    (id attempt_id : ℕ) (key : DownstreamKey) (db : Db)
    → Ensures (Commits db) (begin_retry_dispatch id attempt_id key db)
unfolding begin_retry_dispatch
begin_retry_dispatch-Step id attempt_id key db = Ensures-require _ _ _ _ λ action at.
    Ensures-require _ _ _ _ λ run found. Ensures-guard _ _ _ _ λ retryable.
      Ensures-bind _ _ _ λ prior _. Ensures-bind _ _ _ λ started e. Ensures-ok _ _ (
        noted_after action.run_id run _ db (put_action id (retried action) started) found
          (put_action-runs id _ started ∙ add_attempt-runs attempt_id _ db started e)
          (Step-trans db started _ ((add_attempt-Step attempt_id _ db).at started e) (
            put_action-Step id action _ started
              (add_attempt-lookup attempt_id _ id action db started e at)
              (revised-Bound action _ action.downstream_idempotency_key action.upstream_handle
                action.result action.lease_epoch
                (Moves-step _ _ (rerun_moves action _ _ _ retryable))))))
