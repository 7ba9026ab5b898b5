-- ===== src/Recovery/Steps.antt =====
-- The transactions of the recovery coordinator as steps of the store.
use http_harness.Base.{ℕ, refl, true, false, Option, none, some}
use http_harness.Base.Ensures.{
  Result, ok, err, Ensures, Ensures-ok, Ensures-err, Ensures-bind, Ensures-guard, Ensures-require,
  Ensures-when,
}
use http_harness.Domain.Errors.{version_conflict}
use http_harness.Store.Rows.{Db, ActionRow, Context, DownstreamKey, ActionResult}
use http_harness.Store.Lease.{unclaimed}
use http_harness.Store.Step.{Step, Step-refl, Step-trans, Commits}
use http_harness.Controller.Dispatch.Steps.{begin_action_dispatch-Step, complete_action-Step}
use http_harness.Controller.Effects.Steps.{
  mark_action_outcome_unknown-Step, mark_action_retry_wait-Step, begin_retry_dispatch-Step,
}
use http_harness.Controller.Effects.Settlement.{record_action_cancel_receipt-Step}
use http_harness.Controller.Reconciliation.Steps.{reconcile_action-Step}
use http_harness.Recovery.{
  EffectDriver, DispatchResult, begin, start, settle, uncertain, concluded, sent, dispatch, key_of,
  reconcile, cancel,
}

start-Step :
    (id attempt_id : ℕ) (action : ActionRow) (db : Db)
    → Ensures (Commits db) (start id attempt_id action db)
unfolding start
start-Step id attempt_id action db =
    Ensures-when _ _ _ _
      (λ _. Ensures-bind _ _ _ λ (started, begun) b. Ensures-guard _ _ _ _ λ _. Ensures-ok _ _ (
        (begin_action_dispatch-Step id attempt_id unclaimed (key_of id action.effect_semantics)
            db).at
          (started, begun) b))
      (λ _.
        Ensures-when _ _ _ _
          (λ _. Ensures-require _ _ _ _ λ key _. Ensures-bind _ _ _ λ (number, begun) b.
            Ensures-ok _ _ ((begin_retry_dispatch-Step id attempt_id key db).at (number, begun) b))
          (λ _. Ensures-err _ version_conflict))

begin-Step :
    (context : Context) (id attempt_id : ℕ) (db : Db)
    → Ensures (Commits db) (begin context id attempt_id db)
unfolding begin
begin-Step context id attempt_id db = Ensures-bind _ _ _ λ action _.
    Ensures-bind _ _ _
      λ (u, begun) b. Ensures-ok _ _ ((start-Step id attempt_id action db).at (u, begun) b)

uncertain-Step :
    (id : ℕ) (key : Option DownstreamKey) (receipt : ℕ) (handle : Option ℕ) (db : Db)
    → Ensures (Commits db) (uncertain id key receipt handle db)
unfolding uncertain
uncertain-Step id (some key) receipt handle db = Ensures-bind _ _ _ λ (action, marked) m.
    Ensures-ok _ _ ((mark_action_retry_wait-Step id receipt key db).at (action, marked) m)
uncertain-Step id none receipt handle db = Ensures-bind _ _ _ λ (action, marked) m.
    Ensures-ok _ _ ((mark_action_outcome_unknown-Step id receipt handle db).at (action, marked) m)

settle-Step :
    (id : ℕ) (key : Option DownstreamKey) (result : DispatchResult) (db : Db)
    → Ensures (Commits db) (settle id key result db)
unfolding settle
settle-Step id key (DispatchResult.ambiguous receipt handle) db =
    uncertain-Step id key receipt handle db
settle-Step id key (DispatchResult.response status_code applied receipt handle) db =
    Ensures-when _ _ _ _
      (λ _. Ensures-bind _ _ _ λ (action, done) c. Ensures-ok _ _ (
        (complete_action-Step id (ActionResult.receipt receipt) true unclaimed db).at (action, done)
          c))
      (λ _.
        Ensures-when _ _ _ _
          (λ _. Ensures-bind _ _ _ λ (action, done) c. Ensures-ok _ _ (
            (complete_action-Step id (ActionResult.receipt receipt) false unclaimed db).at
              (action, done) c))
          (λ _. uncertain-Step id key receipt handle db))

-- The store that a transaction leaves.
concluded-Step :
    {A : Type 0} (db : Db) (r : Result (A × Db))
    → Ensures (Commits db) r
    → Step db (concluded db r).1
concluded-Step db (ok (a, db')) c = c.at (a, db') refl
concluded-Step db (err e) c = Step-refl db

sent-Step :
    (driver : EffectDriver) (id : ℕ) (db : Db) (begun : Result (ActionRow × Db))
    → Ensures (Commits db) begun
    → Step db (sent driver id db begun).1
sent-Step driver id db (err e) c = Step-refl db
sent-Step driver id db (ok (action, begun)) c =
    let key = key_of id action.effect_semantics in
    Step-trans db begun _ (c.at (action, begun) refl) (
      concluded-Step begun (settle id key (driver.send id key) begun)
        (settle-Step id key (driver.send id key) begun))

-- Whatever a driver answers, and also where the second transaction of a dispatch raises, what the
-- dispatch leaves is a step of the store.
dispatch-Step :
    (driver : EffectDriver) (context : Context) (id attempt_id : ℕ) (db : Db)
    → Step db (dispatch driver context id attempt_id db).1
unfolding dispatch
dispatch-Step driver context id attempt_id db =
    sent-Step driver id db (begin context id attempt_id db) (begin-Step context id attempt_id db)

reconcile-Step :
    (driver : EffectDriver) (context : Context) (id job_id now key : ℕ) (db : Db)
    → Ensures (Commits db) (reconcile driver context id job_id now key db)
unfolding reconcile
reconcile-Step driver context id job_id now key db = Ensures-bind _ _ _ λ action _.
    Ensures-guard _ _ _ _ λ _. Ensures-require _ _ _ _ λ found _.
      Ensures-bind _ _ _ λ (current, settled) s.
        Ensures-ok _ _ ((reconcile_action-Step context id job_id now _ db).at (current, settled) s)

cancel-Step :
    (driver : EffectDriver) (context : Context) (id : ℕ) (db : Db)
    → Ensures (Commits db) (cancel driver context id db)
unfolding cancel
cancel-Step driver context id db = Ensures-bind _ _ _ λ action _.
    Ensures-bind _ _ _ λ (current, noted) n. Ensures-ok _ _ (
      (record_action_cancel_receipt-Step id (driver.stop id action.upstream_handle) db).at
        (current, noted) n)
