-- ===== src/Controller/Reconciliation/Intent.antt =====
-- What becomes of the intent to cancel a run when an effect of it turns out ambiguous.
use http_harness.Base.{ℕ, ◌+◌, ◌≡◌, refl, arith, true, Option, none, some, ==-refl}
use http_harness.Base.Table.{lookup, lookup-insert}
use http_harness.Base.Ensures.{
  ok, Ensures, Ensures-ok, Ensures-bind, Ensures-guard, Ensures-require, Ensures-when,
}
use http_harness.Domain.States.{RunStatus, ActionStatus, is_blocked}
use http_harness.Store.Rows
use http_harness.Store.Rows.{Db, RunRow, ActionRow, Context, ReconciliationRow}
use http_harness.Store.Session.{log_event, put_action, put_attempt, owned_action}
use http_harness.Controller.Effects.{mark_action_outcome_unknown, blocked_run, unknown}
use http_harness.Controller.Reconciliation.{
  Evidence, reconcile_action, resolve_action, decide, find_reconciliation,
}

is_blocked→eq : (status : RunStatus) → is_blocked status ≡ true → status ≡ RunStatus.blocked
is_blocked→eq status h = ground arith

blocked_run-status :
    (run : RunRow) → Ensures (λ new. new.status ≡ RunStatus.blocked) (blocked_run run)
unfolding blocked_run
blocked_run-status run =
    Ensures-when _ _ _ _ (λ is. Ensures-ok _ _ (is_blocked→eq run.status is))
      (λ _. Ensures-bind _ _ _ λ _ _. Ensures-ok _ _ refl)

-- After the mark, the action stands as it was returned and its run is blocked.
record Blocks (id : ℕ) (action : ActionRow) (db : Db) : Type 0 where
  run : RunRow
  at : lookup id db.actions ≡ some action
  at_run : lookup action.run_id db.runs ≡ some run
  blocked : run.status ≡ RunStatus.blocked

mark-Blocks :
    (id receipt : ℕ) (handle : Option ℕ) (db : Db)
    → Ensures (λ (new, db'). Blocks id new db') (mark_action_outcome_unknown id receipt handle db)
unfolding mark_action_outcome_unknown log_event put_attempt put_action
mark-Blocks id receipt handle db = Ensures-require _ _ _ _ λ action _. Ensures-guard _ _ _ _ λ _.
    Ensures-bind _ _ _ λ attempt _. Ensures-require _ _ _ _ λ run _. Ensures-bind _ _ _ λ blocked b.
      let after = record blocked { event_seq = blocked.event_seq + 1 } in
      Ensures-ok _ _ (record {
        run = after;
        at =
            ground
              (arith, lookup-insert id id (unknown receipt handle action) db.actions, ==-refl id);
        at_run =
            ground (
              arith,
              lookup-insert action.run_id action.run_id after db.runs,
              ==-refl action.run_id,
            );
        blocked = (blocked_run-status run).at blocked b;
      })

resolve-ready :
    (context : Context) (id job_id now : ℕ) (e : Evidence) (action : ActionRow) (db : Db)
    → Blocks id action db
    → e.resolution ≡ Rows.confirmed_not_applied
    → Ensures
        (λ (new, _). new.status ≡ ActionStatus.ready)
        (resolve_action context id job_id now e action db)
unfolding resolve_action
resolve-ready context id job_id now e action db blocks is = Ensures-guard _ _ _ _ λ _.
    Ensures-require _ _ _ _ λ run found.
      Ensures-bind _ _ _
        λ (q, w) _. Ensures-ok _ _ (ground (arith, is, found, blocks.at_run, blocks.blocked))

decide-ready :
    (context : Context) (id job_id now : ℕ) (e : Evidence) (existing : Option ReconciliationRow)
    (action : ActionRow) (db : Db)
    → existing ≡ none
    → Blocks id action db
    → e.resolution ≡ Rows.confirmed_not_applied
    → Ensures
        (λ (new, _). new.status ≡ ActionStatus.ready)
        (decide context id job_id now e existing action db)
unfolding decide
decide-ready context id job_id now e none action db fresh blocks is =
    resolve-ready context id job_id now e action db blocks is
decide-ready context id job_id now e (some r) action db fresh blocks is = absurd (cc)

owned_action-lookup :
    (context : Context) (id : ℕ) (db : Db)
    → Ensures (λ action. lookup id db.actions ≡ some action) (owned_action context id db)
unfolding owned_action
owned_action-lookup context id db =
    Ensures-require _ _ _ _ λ action found. Ensures-guard _ _ _ _ λ _. Ensures-ok _ _ found

same-Blocks :
    (id : ℕ) (a b : ActionRow) (db : Db)
    → Blocks id a db
    → lookup id db.actions ≡ some b
    → Blocks id b db
same-Blocks id a b db blocks found = record {
  run = blocks.run;
  at = found;
  at_run = ground (arith, blocks.at, blocks.at_run);
  blocked = blocks.blocked;
}

reconciled-ready :
    (context : Context) (id job_id now : ℕ) (e : Evidence) (unknown_action : ActionRow) (db : Db)
    → Blocks id unknown_action db
    → find_reconciliation id e.idempotency_key db.reconciliations ≡ none
    → e.resolution ≡ Rows.confirmed_not_applied
    → Ensures
        (λ (new, _). new.status ≡ ActionStatus.ready)
        (reconcile_action context id job_id now e db)
unfolding reconcile_action
reconciled-ready context id job_id now e unknown_action db blocks fresh is =
    Ensures-guard _ _ _ _ λ _. Ensures-bind _ _ _ λ action owned.
      decide-ready context id job_id now e _ action db fresh
        (same-Blocks id unknown_action action db blocks
          ((owned_action-lookup context id db).at action owned))
        is

-- Where an action is marked as unknown and then, with new evidence, as not applied, it is ready to be
-- dispatched again, whatever the status of its run was before the mark: also where the run was being
-- cancelled.
pub reconcile_action-ready :
    (context : Context) (id receipt job_id now : ℕ) (handle : Option ℕ) (e : Evidence)
    (marked settled : ActionRow) (db db' db'' : Db)
    → mark_action_outcome_unknown id receipt handle db ≡ ok (marked, db')
    → find_reconciliation id e.idempotency_key db'.reconciliations ≡ none
    → e.resolution ≡ Rows.confirmed_not_applied
    → reconcile_action context id job_id now e db' ≡ ok (settled, db'')
    → settled.status ≡ ActionStatus.ready
reconcile_action-ready context id receipt job_id now handle e marked settled db db' db'' h fresh is
      r =
    (reconciled-ready context id job_id now e marked db'
        ((mark-Blocks id receipt handle db).at (marked, db') h) fresh is).at
      (settled, db'') r
