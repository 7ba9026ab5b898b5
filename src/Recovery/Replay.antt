-- ===== src/Recovery/Replay.antt =====
-- Dispatches after an ambiguous one (`RecoveryCoordinator.dispatch`).
use http_harness.Base.{ℕ, ◌≡◌, refl, arith, Option, none, some, ==-refl, Bool-cases, inl, inr}
use http_harness.Base.Table.{lookup, lookup-insert}
use http_harness.Base.Ensures.{
  Result, ok, err, Ensures, Ensures-ok, Ensures-bind, Ensures-guard, Ensures-require, Ensures-when,
  ◌>>=◌,
}
use http_harness.Domain.Errors.{Error, version_conflict, not_found}
use http_harness.Domain.States.{ActionStatus}
use http_harness.Store.Rows.{Db, ActionRow, Context, DownstreamKey}
use http_harness.Store.Session.{owned_action, owns_action, log_event, put_action, put_attempt}
use http_harness.Controller.Effects.{mark_action_outcome_unknown, unknown}
use http_harness.Recovery.{
  EffectDriver, DispatchResult, Decision, begin, start, settle, uncertain, concluded, sent,
  dispatch, key_of,
}

-- The action under an identifier has an outcome that is not known.
record IsUnknown (id : ℕ) (db : Db) : Type 0 where
  action : ActionRow
  at : lookup id db.actions ≡ some action
  status : action.status ≡ ActionStatus.outcome_unknown

marked-IsUnknown :
    (id receipt : ℕ) (handle : Option ℕ) (db : Db)
    → Ensures (λ (_, db'). IsUnknown id db') (mark_action_outcome_unknown id receipt handle db)
unfolding mark_action_outcome_unknown log_event put_attempt put_action
marked-IsUnknown id receipt handle db = Ensures-require _ _ _ _ λ action _.
    Ensures-guard _ _ _ _ λ _. Ensures-bind _ _ _ λ attempt _. Ensures-require _ _ _ _ λ run _.
      Ensures-bind _ _ _ λ blocked _. Ensures-ok _ _ (record {
        action = unknown receipt handle action;
        at =
            ground
              (arith, lookup-insert id id (unknown receipt handle action) db.actions, ==-refl id);
        status = refl;
      })

uncertain-IsUnknown :
    (id : ℕ) (key : Option DownstreamKey) (receipt : ℕ) (handle : Option ℕ) (db : Db)
    → Ensures
        (λ ((_, decision), db'). decision ≡ Decision.reconcile_only → IsUnknown id db')
        (uncertain id key receipt handle db)
unfolding uncertain
uncertain-IsUnknown id (some key) receipt handle db =
    Ensures-bind _ _ _ λ (action, marked) _. Ensures-ok _ _ (λ other. absurd (cc))
uncertain-IsUnknown id none receipt handle db = Ensures-bind _ _ _ λ (action, marked) m.
    Ensures-ok _ _ (λ _. (marked-IsUnknown id receipt handle db).at (action, marked) m)

settle-IsUnknown :
    (id : ℕ) (key : Option DownstreamKey) (result : DispatchResult) (db : Db)
    → Ensures
        (λ ((_, decision), db'). decision ≡ Decision.reconcile_only → IsUnknown id db')
        (settle id key result db)
unfolding settle
settle-IsUnknown id key (DispatchResult.ambiguous receipt handle) db =
    uncertain-IsUnknown id key receipt handle db
settle-IsUnknown id key (DispatchResult.response status_code applied receipt handle) db =
    Ensures-when _ _ _ _
      (λ _. Ensures-bind _ _ _ λ (action, done) _. Ensures-ok _ _ (λ other. absurd (cc)))
      (λ _.
        Ensures-when _ _ _ _
          (λ _. Ensures-bind _ _ _ λ (action, done) _. Ensures-ok _ _ (λ other. absurd (cc)))
          (λ _. uncertain-IsUnknown id key receipt handle db))

pub concluded-ok :
    {A : Type 0} (begun db' : Db) (r : Result (A × Db)) (a : A)
    → concluded begun r ≡ (ok a, db')
    → r ≡ ok (a, db')
concluded-ok begun db' (ok (b, db'')) a h = cc
concluded-ok begun db' (err e) a h = absurd (cc)

sent-IsUnknown :
    (driver : EffectDriver) (id : ℕ) (db db' : Db) (begun : Result (ActionRow × Db))
    (new : ActionRow)
    → sent driver id db begun ≡ (ok (new, Decision.reconcile_only), db')
    → IsUnknown id db'
sent-IsUnknown driver id db db' (err e) new h = absurd (cc)
sent-IsUnknown driver id db db' (ok (action, begun)) new h =
    let key = key_of id action.effect_semantics in
    (settle-IsUnknown id key (driver.send id key) begun).at ((new, Decision.reconcile_only), db')
      (concluded-ok begun db' (settle id key (driver.send id key) begun)
        (new, Decision.reconcile_only) h)
      refl

begin-refused :
    (context : Context) (id attempt_id : ℕ) (db : Db)
    → IsUnknown id db
    → (e : Error) × (begin context id attempt_id db ≡ err e)
unfolding begin start owned_action ◌>>=◌
begin-refused context id attempt_id db u = elim (Bool-cases (owns_action context u.action)) [
  | inl owned ↦ (version_conflict, ground (arith, u.at, u.status, owned))
  | inr other ↦ (not_found, ground (arith, u.at, other))
]

-- After the coordinator has decided that an effect can only be reconciled, a further dispatch of the
-- action raises and changes nothing, whatever the driver, which is not asked, would answer.
pub dispatch-refused :
    (driver other : EffectDriver) (context later : Context) (id attempt_id next_id : ℕ)
    (new : ActionRow) (db db' : Db)
    → dispatch driver context id attempt_id db ≡ (ok (new, Decision.reconcile_only), db')
    → (e : Error) × (dispatch other later id next_id db' ≡ (err e, db'))
unfolding dispatch
dispatch-refused driver other context later id attempt_id next_id new db db' h =
    let u = sent-IsUnknown driver id db db' (begin context id attempt_id db) new h in
    let (e, refused) = begin-refused later id next_id db' u in (e, rw refused refl)
