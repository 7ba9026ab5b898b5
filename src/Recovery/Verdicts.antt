-- ===== src/Recovery/Verdicts.antt =====
-- What a dispatch makes of the answer of the driver (`RecoveryCoordinator.dispatch`).
use http_harness.Base.{
  ℕ, ◌≡◌, refl, sym, true, false, ◌&&◌, Option, none, some, if◌then◌else◌, ltb, leb, Bool-cases,
  inl, inr,
}
use http_harness.Base.Table.{lookup}
use http_harness.Base.Ensures.{
  Result, ok, err, Ensures, Ensures-ok, Ensures-bind, Ensures-when, ◌>>=◌,
}
use http_harness.Domain.States.{ActionStatus}
use http_harness.Store.Rows.{Db, ActionRow, Context, DownstreamKey, ActionResult, EffectSemantics}
use http_harness.Store.Tests.{is_remote_idempotent}
use http_harness.Store.Lease.{unclaimed}
use http_harness.Store.Session.{owned_action}
use http_harness.Controller.Dispatch.{complete_action}
use http_harness.Recovery.{
  EffectDriver, DispatchResult, Decision, begin, settle, uncertain, sent, dispatch, key_of,
}
use http_harness.Recovery.Replay.{concluded-ok}
use http_harness.Recovery.Begun.{
  IsRunning, begin-IsRunning, complete_action-row, mark_action_retry_wait-row,
  mark_action_outcome_unknown-row,
}

-- An outcome that is not known: the effect is sent again under its key where the other system knows
-- keys, and is otherwise not sent again.
abbrev pub unclear : EffectSemantics → Decision
unclear semantics =
    if is_remote_idempotent semantics then Decision.retry_same_key else Decision.reconcile_only

abbrev pub verdict : EffectSemantics → DispatchResult → Decision
verdict semantics (DispatchResult.ambiguous receipt handle) = unclear semantics
verdict semantics (DispatchResult.response code (some false) receipt handle) =
    if leb 200 code && ltb code 300 then Decision.completed else Decision.confirmed_failed
verdict semantics (DispatchResult.response code (some true) receipt handle) =
    if leb 200 code && ltb code 300 then Decision.completed else unclear semantics
verdict semantics (DispatchResult.response code none receipt handle) =
    if leb 200 code && ltb code 300 then Decision.completed else unclear semantics

-- The status of the action that stands for a decision.
pub data Records : Decision → ActionStatus → Type 0 where
  succeeds : Records Decision.completed ActionStatus.succeeded
  fails : Records Decision.confirmed_failed ActionStatus.failed
  waits : Records Decision.retry_same_key ActionStatus.retry_wait
  is_unknown : Records Decision.reconcile_only ActionStatus.outcome_unknown

-- The decision and the row that a dispatch returns, and what is stored.
pub record Settles (id : ℕ) (decided : Decision) (new : ActionRow) (decision : Decision) (db' : Db)
    : Type 0 where
  pub same : decision ≡ decided
  pub records : Records decided new.status
  pub at : lookup id db'.actions ≡ some new

true_not_false : true ≡ false → ⊥
true_not_false h = absurd (cc)

to_Settles :
    (id : ℕ) (decided decision : Decision) (new : ActionRow) (status : ActionStatus) (db' : Db)
    → decision ≡ decided
    → Records decision status
    → (lookup id db'.actions ≡ some new) × (new.status ≡ status)
    → Settles id decided new decision db'
to_Settles id decided decision new status db' same records (at, is) = record {
  same = same;
  records = rw (is, ← same) records;
  at = at;
}

uncertain-Settles :
    (id : ℕ) (semantics : EffectSemantics) (receipt : ℕ) (handle : Option ℕ) (db : Db)
    → Ensures
        (λ ((new, decision), db'). Settles id (unclear semantics) new decision db')
        (uncertain id (key_of id semantics) receipt handle db)
unfolding uncertain
uncertain-Settles id semantics receipt handle db =
    elim (Bool-cases (is_remote_idempotent semantics)) [
      | inl remote ↦ rw remote (
          Ensures-bind _ _ _ λ (action, marked) m. Ensures-ok _ _ (
            to_Settles id Decision.retry_same_key Decision.retry_same_key action _ marked refl
              Records.waits
              ((mark_action_retry_wait-row id receipt (DownstreamKey.hnh id) db).at (action, marked)
                m)))
      | inr local ↦ rw local (
          Ensures-bind _ _ _ λ (action, marked) m. Ensures-ok _ _ (
            to_Settles id Decision.reconcile_only Decision.reconcile_only action _ marked refl
              Records.is_unknown
              ((mark_action_outcome_unknown-row id receipt handle db).at (action, marked) m)))
    ]

completed-Settles :
    (id : ℕ) (receipt : ℕ) (decided : Decision) (db : Db)
    → IsRunning id db
    → decided ≡ Decision.completed
    → Ensures
        (λ ((new, decision), db'). Settles id decided new decision db')
        (complete_action id (ActionResult.receipt receipt) true unclaimed db >>= λ (action, done).
          ok ((action, Decision.completed), done))
completed-Settles id receipt decided db running is = Ensures-bind _ _ _ λ (action, done) c.
    Ensures-ok _ _ (
      to_Settles id decided Decision.completed action _ done (sym is) Records.succeeds (
        (complete_action-row id (ActionResult.receipt receipt) true db running).at (action, done)
          c))

failed-Settles :
    (id : ℕ) (receipt : ℕ) (decided : Decision) (db : Db)
    → IsRunning id db
    → decided ≡ Decision.confirmed_failed
    → Ensures
        (λ ((new, decision), db'). Settles id decided new decision db')
        (complete_action id (ActionResult.receipt receipt) false unclaimed db >>= λ (action, done).
          ok ((action, Decision.confirmed_failed), done))
failed-Settles id receipt decided db running is = Ensures-bind _ _ _ λ (action, done) c.
    Ensures-ok _ _ (
      to_Settles id decided Decision.confirmed_failed action _ done (sym is) Records.fails (
        (complete_action-row id (ActionResult.receipt receipt) false db running).at (action, done)
          c))

settle-Settles :
    (id : ℕ) (semantics : EffectSemantics) (result : DispatchResult) (db : Db)
    → IsRunning id db
    → Ensures
        (λ ((new, decision), db'). Settles id (verdict semantics result) new decision db')
        (settle id (key_of id semantics) result db)
unfolding settle
settle-Settles id semantics (DispatchResult.ambiguous receipt handle) db running =
    uncertain-Settles id semantics receipt handle db
settle-Settles id semantics (DispatchResult.response code (some false) receipt handle) db running =
    Ensures-when _ _ _ _ (λ fine. completed-Settles id receipt _ db running (rw fine refl))
      (λ bad.
        Ensures-when _ _ _ _ (λ _. failed-Settles id receipt _ db running (rw bad refl))
          (λ impossible. absurd (true_not_false impossible)))
settle-Settles id semantics (DispatchResult.response code (some true) receipt handle) db running =
    Ensures-when _ _ _ _ (λ fine. completed-Settles id receipt _ db running (rw fine refl))
      (λ bad.
        Ensures-when _ _ _ _ (λ impossible. absurd (true_not_false (sym impossible)))
          (λ _. rw bad (uncertain-Settles id semantics receipt handle db)))
settle-Settles id semantics (DispatchResult.response code none receipt handle) db running =
    Ensures-when _ _ _ _ (λ fine. completed-Settles id receipt _ db running (rw fine refl))
      (λ bad.
        Ensures-when _ _ _ _ (λ impossible. absurd (true_not_false (sym impossible)))
          (λ _. rw bad (uncertain-Settles id semantics receipt handle db)))

sent-Settles :
    (driver : EffectDriver) (id : ℕ) (context : Context) (db db' : Db)
    (begun : Result (ActionRow × Db)) (new : ActionRow) (decision : Decision)
    → Ensures
        (λ (action, started). (owned_action context id db ≡ ok action) × IsRunning id started)
        begun
    → sent driver id db begun ≡ (ok (new, decision), db')
    → (action : ActionRow) × (owned_action context id db ≡ ok action)
      × Settles id
          (verdict action.effect_semantics (driver.send id (key_of id action.effect_semantics)))
          new
          decision
          db'
sent-Settles driver id context db db' (err e) new decision known h = absurd (cc)
sent-Settles driver id context db db' (ok (action, started)) new decision known h =
    let (owned, running) = known.at (action, started) refl in
    let answer = driver.send id (key_of id action.effect_semantics) in
    (
      action,
      owned,
      (settle-Settles id action.effect_semantics answer started running).at ((new, decision), db')
          (concluded-ok started db' (settle id (key_of id action.effect_semantics) answer started)
            (new, decision) h),
    )

-- A dispatch that returns has decided by the driver's answer, and stored it: a response in the
-- 200s completes the action, one that says that nothing was applied confirms that it failed, and any
-- other answer leaves it to be sent again under its key where the other system knows keys, and to be
-- reconciled where it does not. The action is stored with the status of that decision: succeeded,
-- failed, waiting for the retry, or unknown.
pub dispatch-Settles :
    (driver : EffectDriver) (context : Context) (id attempt_id : ℕ) (new : ActionRow)
    (decision : Decision) (db db' : Db)
    → dispatch driver context id attempt_id db ≡ (ok (new, decision), db')
    → (action : ActionRow) × (owned_action context id db ≡ ok action)
      × Settles id
          (verdict action.effect_semantics (driver.send id (key_of id action.effect_semantics)))
          new
          decision
          db'
unfolding dispatch
dispatch-Settles driver context id attempt_id new decision db db' h =
    sent-Settles driver id context db db' (begin context id attempt_id db) new decision
      (begin-IsRunning context id attempt_id db) h
