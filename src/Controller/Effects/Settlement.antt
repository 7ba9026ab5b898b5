-- ===== src/Controller/Effects/Settlement.antt =====
-- The receipt of a cancellation as a step of the store.
use http_harness.Base.{
  ℕ, ◌+◌, ◌≡◌, refl, arith, Bool, true, false, not, ◌&&◌, if◌then◌else◌, some, Bool-cases, inl, inr,
}
use http_harness.Base.Table.{lookup, lookup-insert}
use http_harness.Base.Ensures.{Ensures, Ensures-ok, Ensures-guard, Ensures-require}
use http_harness.Domain.States.{RunStatus, ActionStatus, is_cancelling, run_transitions}
use http_harness.Domain.Transitions.{Follows}
use http_harness.Store.Rows
use http_harness.Store.Rows.{
  Db, RunRow, ActionRow, Context, DownstreamKey, ActionResult, EventType, AttemptRow,
  ReconciliationRow, JobKind,
}
use http_harness.Store.Session.{
  log_event, put_action, has_nonterminal_children, has_unresolved_actions,
}
use http_harness.Store.Trace.{Edit}
use http_harness.Store.Step.{Step, Step-refl, Step-trans, Commits}
use http_harness.Store.Step.Moves.{Moves-step, action_transitions, revised-Bound}
use http_harness.Store.Step.Edits.{versioned-Edit, Settled-childless}
use http_harness.Store.Step.Writes.{log_event-Step, put_action-Step}
use http_harness.Controller.Dispatch.Steps.{noted_after, put_action-runs}
use http_harness.Controller.Effects.{
  cancelled_when_settled, record_action_cancel_receipt, after_event, receipted,
}

pub log_event-lookup :
    (id : ℕ) (run : RunRow) (type : EventType) (db : Db)
    → lookup id (log_event id run type db).runs ≡ some (after_event run)
unfolding log_event
log_event-lookup id run type db = ground (arith, lookup-insert id id (after_event run) db.runs)

-- The last move of a cancelling run, if it is asked for and the run has settled.
pub cancelled_when_settled-Step :
    (asked : Bool) (id : ℕ) (old new : RunRow) (db : Db)
    → lookup id db.runs ≡ some old
    → (asked ≡ true → Edit 1 old new × (new.event_seq ≡ old.event_seq))
    → Step db (cancelled_when_settled asked id new db)
unfolding cancelled_when_settled
cancelled_when_settled-Step false id old new db found allowed = Step-refl db
cancelled_when_settled-Step true id old new db found allowed =
    elim (Bool-cases
      (not (has_unresolved_actions id db.actions) && not (has_nonterminal_children id db.runs))) [
        | inl settled ↦
            let (edit, seq) = allowed refl in
            rw settled (
              log_event-Step id old new Rows.run_cancelled db found edit seq
                (Settled-childless id db.runs old new (ground arith)))
        | inr unsettled ↦ rw unsettled (Step-refl db)
      ]

pub cancelled-Follows :
    (status : RunStatus) → is_cancelling status ≡ true → Follows status 1 RunStatus.cancelled
unfolding run_transitions
cancelled-Follows status h = Follows.move Follows.stay (ground arith)

receipt_moves :
    (a : ActionRow) (stopped : Bool)
    → action_transitions a.status
        (if stopped then ActionStatus.cancelled else ActionStatus.waiting_external)
      ≡ true
unfolding action_transitions
receipt_moves a stopped = ground arith

pub record_action_cancel_receipt-Step :
    (id : ℕ) (stopped : Bool) (db : Db)
    → Ensures (Commits db) (record_action_cancel_receipt id stopped db)
unfolding record_action_cancel_receipt
record_action_cancel_receipt-Step id stopped db = Ensures-require _ _ _ _ λ action at.
    Ensures-require _ _ _ _ λ run found. Ensures-guard _ _ _ _ λ cancelling.
      let written = put_action id (receipted stopped action) db in
      Ensures-ok _ _ (
        Step-trans db (log_event action.run_id run _ written) _
          (noted_after action.run_id run _ db written found (put_action-runs id _ db) (
            put_action-Step id action _ db at (
              revised-Bound action _ action.downstream_idempotency_key action.upstream_handle
                action.result action.lease_epoch (Moves-step _ _ (receipt_moves action stopped)))))
          (cancelled_when_settled-Step stopped action.run_id (after_event run) _ _
            (log_event-lookup action.run_id run _ written)
            (λ _. (
              versioned-Edit (after_event run) RunStatus.cancelled run.failure (run.version + 1)
                  (cancelled-Follows run.status cancelling) (omega arith),
              refl,
            ))))
