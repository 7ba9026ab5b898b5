-- ===== src/Recovery.antt =====
-- `RecoveryCoordinator` (src/hnh/application/recovery.py): the rules by which an effect is
-- dispatched, retried, reconciled and cancelled through an `EffectDriver`
-- (src/hnh/ports/effects.py). The driver is code outside of the repository, a parameter.
pub mod Replay
pub mod Steps
pub mod Begun
pub mod Verdicts
use http_harness.Base.{
  ℕ, Bool, true, false, ◌&&◌, Option, none, some, List, ltb, leb, if◌then◌else◌,
}
use http_harness.Base.Ensures.{Result, ok, err, ◌>>=◌, ◌>>◌, when◌then◌otherwise◌, guard, require}
use http_harness.Domain.Errors.{version_conflict, outcome_unknown}
use http_harness.Domain.States.{ActionStatus, is_ready_action, is_retry_wait_action}
use http_harness.Store.Rows
use http_harness.Store.Rows.{
  Db, ActionRow, Context, DownstreamKey, ActionResult, EffectSemantics, Resolution,
}
use http_harness.Store.Tests.{is_remote_idempotent}
use http_harness.Store.Lease.{unclaimed}
use http_harness.Store.Session.{owned_action}
use http_harness.Controller.Dispatch.{begin_action_dispatch, complete_action}
use http_harness.Controller.Effects.{
  mark_action_outcome_unknown, mark_action_retry_wait, begin_retry_dispatch,
  record_action_cancel_receipt,
}
use http_harness.Controller.Reconciliation.{Evidence, reconcile_action}

-- `EffectDispatchResult`, or the `AmbiguousDispatch` that is raised; with the receipt made of it.
pub data DispatchResult : Type 0 where
  response : (status_code : ℕ) → (applied : Option Bool) → (receipt : ℕ) → Option ℕ → DispatchResult
  ambiguous : (receipt : ℕ) → Option ℕ → DispatchResult

-- `EffectReconciliation`
pub record EffectReconciliation : Type 0 where
  pub resolution : Resolution
  pub evidence_ids : List ℕ
  pub comment : Option ℕ

pub record EffectDriver : Type 0 where
  pub send : ℕ → Option DownstreamKey → DispatchResult
  pub look_up : ℕ → Option ℕ → Option DownstreamKey → Option EffectReconciliation
  -- Whether the effect was stopped.
  pub stop : ℕ → Option ℕ → Bool

-- The `decision` of a `RecoveryDecision`.
pub data Decision : Type 0 where
  retry_same_key reconcile_only completed confirmed_failed stopped awaiting_confirmation : Decision
  resolution : Resolution → Decision

-- `downstream_key`
abbrev pub key_of : ℕ → EffectSemantics → Option DownstreamKey
key_of id semantics = if is_remote_idempotent semantics then some (DownstreamKey.hnh id) else none

-- The transaction that precedes the call of the driver.
unfoldable pub start : ℕ → ℕ → ActionRow → Db → Result (Unit {0} × Db)
start id attempt_id action db =
    when is_ready_action action.status
    then (do
      (started, begun) ←
          begin_action_dispatch id attempt_id unclaimed (key_of id action.effect_semantics) db
      guard started version_conflict
      ok (tt, begun))
    otherwise (when is_retry_wait_action action.status
        then (do
          key ← require (key_of id action.effect_semantics) version_conflict
          (number, begun) ← begin_retry_dispatch id attempt_id key db
          ok (tt, begun))
        otherwise err version_conflict)

unfoldable pub begin : Context → ℕ → ℕ → Db → Result (ActionRow × Db)
unfolding start
begin context id attempt_id db = do
  action ← owned_action context id db
  (done, begun) ← start id attempt_id action db
  ok (action, begun)

-- An outcome that is not known: to be retried under the same key, or to be reconciled.
unfoldable pub uncertain :
    ℕ → Option DownstreamKey → ℕ → Option ℕ → Db → Result ((ActionRow × Decision) × Db)
uncertain id (some key) receipt handle db = do
  (action, marked) ← mark_action_retry_wait id receipt key db
  ok ((action, retry_same_key), marked)
uncertain id none receipt handle db = do
  (action, marked) ← mark_action_outcome_unknown id receipt handle db
  ok ((action, reconcile_only), marked)

abbrev is_refused : Option Bool → Bool
is_refused (some false) = true
is_refused _ = false

-- The transaction that follows the call of the driver.
unfoldable pub settle :
    ℕ → Option DownstreamKey → DispatchResult → Db → Result ((ActionRow × Decision) × Db)
unfolding uncertain
settle id key (ambiguous receipt handle) db = uncertain id key receipt handle db
settle id key (response status_code applied receipt handle) db =
    when leb 200 status_code && ltb status_code 300
    then (do
      (action, done) ← complete_action id (ActionResult.receipt receipt) true unclaimed db
      ok ((action, completed), done))
    otherwise (when is_refused applied
        then (do
          (action, done) ← complete_action id (ActionResult.receipt receipt) false unclaimed db
          ok ((action, confirmed_failed), done))
        otherwise uncertain id key receipt handle db)

-- A transaction's result, with the store it leaves, committed or rolled back.
abbrev pub concluded : {A : Type 0} → Db → Result (A × Db) → Result A × Db
concluded db (ok (a, db')) = (ok a, db')
concluded db (err e) = (err e, db)

abbrev pub sent :
    EffectDriver → ℕ → Db → Result (ActionRow × Db) → Result (ActionRow × Decision) × Db
sent driver id db (err e) = (err e, db)
sent driver id db (ok (action, begun)) =
    let key = key_of id action.effect_semantics in
    concluded begun (settle id key (driver.send id key) begun)

-- Two transactions with the call of the driver between them: what the first has committed stays,
-- whatever becomes of the second.
unfoldable pub dispatch : EffectDriver → Context → ℕ → ℕ → Db → Result (ActionRow × Decision) × Db
unfolding begin settle
dispatch driver context id attempt_id db = sent driver id db (begin context id attempt_id db)

abbrev is_outcome_unknown : ActionStatus → Bool
is_outcome_unknown ActionStatus.outcome_unknown = true
is_outcome_unknown _ = false

abbrev submitted : ActionRow → EffectReconciliation → ℕ → Evidence
submitted action found key = record {
  expected_version = action.version;
  resolution = found.resolution;
  evidence_ids = found.evidence_ids;
  comment = found.comment;
  idempotency_key = key;
}

-- `job_id` and `now` are of the wake-up that a reconciliation may add.
unfoldable pub reconcile :
    EffectDriver → Context → ℕ → ℕ → ℕ → ℕ → Db → Result ((ActionRow × Decision) × Db)
reconcile driver context id job_id now key db = do
  action ← owned_action context id db
  guard (is_outcome_unknown action.status) version_conflict
  found ←
      require (driver.look_up id action.upstream_handle action.downstream_idempotency_key)
        outcome_unknown
  (current, settled) ← reconcile_action context id job_id now (submitted action found key) db
  ok ((current, resolution found.resolution), settled)

unfoldable pub cancel : EffectDriver → Context → ℕ → Db → Result ((ActionRow × Decision) × Db)
cancel driver context id db = do
  action ← owned_action context id db
  let is_stopped = driver.stop id action.upstream_handle
  (current, noted) ← record_action_cancel_receipt id is_stopped db
  ok ((current, if is_stopped then stopped else awaiting_confirmation), noted)
