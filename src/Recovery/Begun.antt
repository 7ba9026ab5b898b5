-- ===== src/Recovery/Begun.antt =====
-- The action of a dispatch: running when the driver is called, and rewritten after it.
use http_harness.Base.{
  ℕ, ◌≡◌, refl, sym, ap, ◌∙◌, arith, Bool, true, Option, some, if◌then◌else◌, ==-refl,
}
use http_harness.Base.Table.{lookup, lookup-insert}
use http_harness.Base.Ensures.{
  ok, Ensures, Ensures-ok, Ensures-err, Ensures-bind, Ensures-guard, Ensures-require, Ensures-when,
}
use http_harness.Domain.Errors.{version_conflict}
use http_harness.Domain.States.{ActionStatus, is_succeeded_action}
use http_harness.Store.Rows.{Db, ActionRow, Context, DownstreamKey, ActionResult}
use http_harness.Store.Lease.{unclaimed}
use http_harness.Store.Session.{owned_action, log_event, put_action, put_attempt}
use http_harness.Controller.Dispatch.{complete_action, completed}
use http_harness.Controller.Dispatch.Once.{begin_action_dispatch-running}
use http_harness.Controller.Effects.{
  mark_action_outcome_unknown, mark_action_retry_wait, begin_retry_dispatch, unknown, waiting,
  retried,
}
use http_harness.Recovery.{begin, start, key_of}

pub record IsRunning (id : ℕ) (db : Db) : Type 0 where
  pub row : ActionRow
  pub at : lookup id db.actions ≡ some row
  pub runs : row.status ≡ ActionStatus.running

begin_retry_dispatch-IsRunning :
    (id attempt_id : ℕ) (key : DownstreamKey) (db : Db)
    → Ensures (λ (_, db'). IsRunning id db') (begin_retry_dispatch id attempt_id key db)
unfolding begin_retry_dispatch log_event put_action
begin_retry_dispatch-IsRunning id attempt_id key db = Ensures-require _ _ _ _ λ action at.
    Ensures-require _ _ _ _ λ run _. Ensures-guard _ _ _ _ λ _. Ensures-bind _ _ _ λ prior _.
      Ensures-bind _ _ _ λ started _. Ensures-ok _ _ (record {
        row = retried action;
        at = ground (arith, lookup-insert id id (retried action) started.actions, ==-refl id);
        runs = refl;
      })

start-IsRunning :
    (id attempt_id : ℕ) (action : ActionRow) (db : Db)
    → Ensures (λ (_, db'). IsRunning id db') (start id attempt_id action db)
unfolding start
start-IsRunning id attempt_id action db =
    Ensures-when _ _ _ _
      (λ _. Ensures-bind _ _ _ λ (started, begun) b. Ensures-guard _ _ _ _ λ yes_started.
        let (row, at, runs) =
          (begin_action_dispatch-running id attempt_id unclaimed (key_of id action.effect_semantics)
              db).at
            (started, begun) b yes_started in
        Ensures-ok _ _ (record { row = row; at = at; runs = runs }))
      (λ _.
        Ensures-when _ _ _ _
          (λ _. Ensures-require _ _ _ _ λ key _. Ensures-bind _ _ _ λ (number, begun) b.
            Ensures-ok _ _
              ((begin_retry_dispatch-IsRunning id attempt_id key db).at (number, begun) b))
          (λ _. Ensures-err _ version_conflict))

pub begin-IsRunning :
    (context : Context) (id attempt_id : ℕ) (db : Db)
    → Ensures
        (λ (action, db'). (owned_action context id db ≡ ok action) × IsRunning id db')
        (begin context id attempt_id db)
unfolding begin
begin-IsRunning context id attempt_id db = Ensures-bind _ _ _ λ action owned.
    Ensures-bind _ _ _ λ (u, begun) b.
      Ensures-ok _ _ (owned, (start-IsRunning id attempt_id action db).at (u, begun) b)

some-eq : {a b : ActionRow} → some a ≡ some b → a ≡ b
some-eq h = cc

succeeded_not_running :
    (status : ActionStatus) → status ≡ ActionStatus.running → is_succeeded_action status ≡ true → ⊥
succeeded_not_running status r h = absurd (ground arith)

pub complete_action-row :
    (id : ℕ) (result : ActionResult) (succeeded : Bool) (db : Db)
    → IsRunning id db
    → Ensures
        (λ (new, db').
          (lookup id db'.actions ≡ some new)
          × (new.status ≡ (if succeeded then ActionStatus.succeeded else ActionStatus.failed)))
        (complete_action id result succeeded unclaimed db)
unfolding complete_action log_event put_attempt put_action
complete_action-row id result succeeded db r = Ensures-bind _ _ _ λ job held.
    Ensures-require _ _ _ _ λ action at. Ensures-guard _ _ _ _ λ serves.
      Ensures-when _ _ _ _
        (λ already. absurd (
          succeeded_not_running action.status
            (ap (λ (a : ActionRow). a.status) (some-eq (sym at ∙ r.at)) ∙ r.runs) already))
        (λ _. Ensures-guard _ _ _ _ λ _. Ensures-guard _ _ _ _ λ _. Ensures-bind _ _ _ λ attempt _.
          Ensures-require _ _ _ _ λ run _. Ensures-ok _ _ (
            ground (
              arith,
              lookup-insert id id (completed succeeded result action) db.actions,
              ==-refl id,
            ),
            refl,
          ))

pub mark_action_retry_wait-row :
    (id receipt : ℕ) (key : DownstreamKey) (db : Db)
    → Ensures
        (λ (new, db'). (lookup id db'.actions ≡ some new) × (new.status ≡ ActionStatus.retry_wait))
        (mark_action_retry_wait id receipt key db)
unfolding mark_action_retry_wait log_event put_attempt put_action
mark_action_retry_wait-row id receipt key db = Ensures-require _ _ _ _ λ action _.
    Ensures-guard _ _ _ _ λ _. Ensures-guard _ _ _ _ λ _. Ensures-bind _ _ _ λ attempt _.
      Ensures-require _ _ _ _ λ run _. Ensures-ok _ _ (
        ground (arith, lookup-insert id id (waiting receipt key action) db.actions, ==-refl id),
        refl,
      )

pub mark_action_outcome_unknown-row :
    (id receipt : ℕ) (handle : Option ℕ) (db : Db)
    → Ensures
        (λ (new, db').
          (lookup id db'.actions ≡ some new) × (new.status ≡ ActionStatus.outcome_unknown))
        (mark_action_outcome_unknown id receipt handle db)
unfolding mark_action_outcome_unknown log_event put_attempt put_action
mark_action_outcome_unknown-row id receipt handle db = Ensures-require _ _ _ _ λ action _.
    Ensures-guard _ _ _ _ λ _. Ensures-bind _ _ _ λ attempt _. Ensures-require _ _ _ _ λ run _.
      Ensures-bind _ _ _ λ blocked _. Ensures-ok _ _ (
        ground (arith, lookup-insert id id (unknown receipt handle action) db.actions, ==-refl id),
        refl,
      )
