-- ===== src/Controller/Effects/Retries.antt =====
-- Effects whose outcome is not known: the key they are retried under, and the evidence that
-- settles them.
use http_harness.Base.{ℕ, ◌+◌, ◌≡◌, refl, arith, Bool, true, false, some, ==-refl, if◌then◌else◌}
use http_harness.Base.Table.{lookup, lookup-insert}
use http_harness.Base.Ensures.{
  ok, err, Ensures, Ensures-ok, Ensures-bind, Ensures-guard, Ensures-require, ◌>>=◌,
}
use http_harness.Domain.Errors.{version_conflict}
use http_harness.Domain.States.{RunStatus, ActionStatus, is_cancelling}
use http_harness.Store.Rows
use http_harness.Store.Rows.{Db, RunRow, ActionRow, DownstreamKey}
use http_harness.Store.Tests.{same_key}
use http_harness.Store.Session.{log_event, put_action, put_attempt}
use http_harness.Controller.Effects.{
  mark_action_retry_wait, waiting, begin_retry_dispatch, record_action_cancel_receipt, receipted,
  cancelled_when_settled, after_event,
}
use http_harness.Controller.Runs.{moved_to}

mark_action_retry_wait-row :
    (id receipt : ℕ) (key : DownstreamKey) (db : Db)
    → Ensures
        (λ (new, db').
          (run : RunRow) × (lookup id db'.actions ≡ some new)
          × (lookup new.run_id db'.runs ≡ some run)
          × (new.downstream_idempotency_key ≡ some key))
        (mark_action_retry_wait id receipt key db)
unfolding mark_action_retry_wait log_event put_attempt put_action
mark_action_retry_wait-row id receipt key db = Ensures-require _ _ _ _ λ action _.
    Ensures-guard _ _ _ _ λ _. Ensures-guard _ _ _ _ λ _. Ensures-bind _ _ _ λ attempt _.
      Ensures-require _ _ _ _ λ run _.
        let after = record run { event_seq = run.event_seq + 1 } in
        Ensures-ok _ _ (
          after,
          ground (arith, lookup-insert id id (waiting receipt key action) db.actions, ==-refl id),
          ground (
            arith,
            lookup-insert action.run_id action.run_id after db.runs,
            ==-refl action.run_id,
          ),
          refl,
        )

-- An ambiguous dispatch is retried only under the key that was recorded when it was marked for a
-- retry: with another key the dispatch is refused and nothing is written.
pub begin_retry_dispatch-same_key :
    (id receipt attempt_id : ℕ) (key next_key : DownstreamKey) (db db' : Db) (waits : ActionRow)
    → mark_action_retry_wait id receipt key db ≡ ok (waits, db')
    → same_key (some key) (some next_key) ≡ false
    → begin_retry_dispatch id attempt_id next_key db' ≡ err version_conflict
unfolding begin_retry_dispatch ◌>>=◌
begin_retry_dispatch-same_key id receipt attempt_id key next_key db db' waits h ne =
    let (run, at, at_run, keyed) =
      (mark_action_retry_wait-row id receipt key db).at (waits, db') h in
    ground (arith, at, at_run, keyed, ne)

cancel_row-kept :
    (id : ℕ) (row : ActionRow) (asked : Bool) (run_id : ℕ) (run : RunRow) (db : Db)
    → lookup id db.actions ≡ some row
    → lookup id (cancelled_when_settled asked run_id run db).actions ≡ some row
unfolding cancelled_when_settled log_event
cancel_row-kept id row asked run_id run db h = ground arith

-- The receipt of a cancellation is written over whatever status the action of a cancelling run has:
-- whatever it was, also that the effect succeeded or failed, the action is stored as cancelled after it
-- where the effect was stopped, and as waiting for the other system where it was not; the result that
-- was recorded stays.
pub record_action_cancel_receipt-any :
    (id : ℕ) (stopped : Bool) (db : Db) (action : ActionRow) (run : RunRow)
    → lookup id db.actions ≡ some action
    → lookup action.run_id db.runs ≡ some run
    → is_cancelling run.status ≡ true
    → (new : ActionRow) × (db' : Db) × (record_action_cancel_receipt id stopped db ≡ ok (new, db'))
      × (lookup id db'.actions ≡ some new)
      × (new.status ≡ (if stopped then ActionStatus.cancelled else ActionStatus.waiting_external))
      × (new.result ≡ action.result)
unfolding record_action_cancel_receipt cancelled_when_settled log_event put_action ◌>>=◌
record_action_cancel_receipt-any id stopped db action run at found cancelling =
    let type = if stopped then Rows.action_cancelled else Rows.action_cancel_acknowledged in
    let noted = log_event action.run_id run type (put_action id (receipted stopped action) db) in
    let last = moved_to RunStatus.cancelled (after_event run) in
    let after = cancelled_when_settled stopped action.run_id last noted in
    (
      receipted stopped action,
      after,
      rw (at) (rw (found) (rw (cancelling) refl)),
      cancel_row-kept id (receipted stopped action) stopped action.run_id last noted
          (ground (arith, lookup-insert id id (receipted stopped action) db.actions, ==-refl id)),
      refl,
      refl,
    )
