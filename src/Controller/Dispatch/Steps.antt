-- ===== src/Controller/Dispatch/Steps.antt =====
-- Admission, dispatch and completion of an action as steps of the store.
use http_harness.Base.{
  ℕ, ◌≡◌, refl, ◌∙◌, arith, Bool, true, false, not, ◌||◌, none, some, Option, Bool-cases, inl, inr,
}
use http_harness.Base.Table.{lookup}
use http_harness.Base.Ensures.{
  Ensures, Ensures-ok, Ensures-bind, Ensures-guard, Ensures-require, Ensures-when, ok, ◌>>=◌,
}
use http_harness.Domain.States.{ActionStatus, is_ready_action, is_running_action}
use http_harness.Store.Rows.{
  Db, RunRow, ActionRow, Context, DownstreamKey, ActionResult, EventType, JobRow, AttemptRow,
}
use http_harness.Store.Session.{log_event, put_action, add_action, put_attempt, add_attempt}
use http_harness.Store.Lease.{Claim}
use http_harness.Store.Step.{Step, Step-refl, Step-trans, Commits}
use http_harness.Store.Step.Moves.{Moves, Moves-step, action_transitions, revised-Bound, Bound}
use http_harness.Store.Step.Writes.{
  put_action-Step, add_action-Step, put_attempt-Step, add_attempt-Step,
}
use http_harness.Controller.Runs.Steps.{owned_run-lookup, noted}
use http_harness.Controller.Dispatch.{
  Proposal, admit_slot, get_or_record_admitted_action, start_attempt, dispatch_action,
  close_lost_attempt, begin_action_dispatch, complete_action, recovers_local, dispatching,
  completion,
}

-- The tables of runs that writes to actions and attempts leave alone.
pub put_action-runs : (id : ℕ) (a : ActionRow) (db : Db) → (put_action id a db).runs ≡ db.runs
unfolding put_action
put_action-runs id a db = refl

pub put_attempt-runs : (id : ℕ) (a : AttemptRow) (db : Db) → (put_attempt id a db).runs ≡ db.runs
unfolding put_attempt
put_attempt-runs id a db = refl

pub put_attempt-actions :
    (id : ℕ) (a : AttemptRow) (db : Db) → (put_attempt id a db).actions ≡ db.actions
unfolding put_attempt
put_attempt-actions id a db = refl

pub add_action-runs :
    (id : ℕ) (a : ActionRow) (db db' : Db) → add_action id a db ≡ ok db' → db'.runs ≡ db.runs
unfolding add_action ◌>>=◌
add_action-runs id a db db' h = ground arith

pub add_attempt-runs :
    (id : ℕ) (a : AttemptRow) (db db' : Db) → add_attempt id a db ≡ ok db' → db'.runs ≡ db.runs
unfolding add_attempt ◌>>=◌
add_attempt-runs id a db db' h = ground arith

-- Logs an event on a run found before writes that left the runs alone.
pub noted_after :
    (id : ℕ) (run : RunRow) (type : EventType) (db db' : Db)
    → lookup id db.runs ≡ some run
    → db'.runs ≡ db.runs
    → Step db db'
    → Step db (log_event id run type db')
noted_after id run type db db' found same step =
    Step-trans db db' _ step (noted id run db' (rw same found) type)

-- An action and its attempt rewritten.
pub rewritten :
    (id : ℕ) (action new : ActionRow) (attempt_id : ℕ) (attempt : AttemptRow) (db : Db)
    → lookup id db.actions ≡ some action
    → Bound action new
    → Step db (put_attempt attempt_id attempt (put_action id new db))
rewritten id action new attempt_id attempt db at bound =
    Step-trans db (put_action id new db) _ (put_action-Step id action new db at bound)
      (put_attempt-Step attempt_id attempt (put_action id new db))

pub rewritten-runs :
    (id : ℕ) (new : ActionRow) (attempt_id : ℕ) (attempt : AttemptRow) (db : Db)
    → (put_attempt attempt_id attempt (put_action id new db)).runs ≡ db.runs
rewritten-runs id new attempt_id attempt db =
    put_attempt-runs attempt_id attempt (put_action id new db) ∙ put_action-runs id new db

-- The same, then an event of the action's run.
pub acted :
    (id : ℕ) (action new : ActionRow) (attempt_id : ℕ) (attempt : AttemptRow) (run : RunRow)
    (type : EventType) (db : Db)
    → lookup id db.actions ≡ some action
    → Bound action new
    → lookup action.run_id db.runs ≡ some run
    → Step db
        (log_event action.run_id run type (put_attempt attempt_id attempt (put_action id new db)))
acted id action new attempt_id attempt run type db at bound found =
    noted_after action.run_id run type db (put_attempt attempt_id attempt (put_action id new db))
      found (rewritten-runs id new attempt_id attempt db)
      (rewritten id action new attempt_id attempt db at bound)

admit_slot-Step :
    (context : Context) (run_id id : ℕ) (p : Proposal) (run : RunRow)
    (slot : Option (ℕ × ActionRow)) (db : Db)
    → lookup run_id db.runs ≡ some run
    → Ensures (Commits db) (admit_slot context run_id id p run slot db)
unfolding admit_slot
admit_slot-Step context run_id id p run (some (k, a)) db found =
    Ensures-guard _ _ _ _ λ _. Ensures-ok _ _ (Step-refl db)
admit_slot-Step context run_id id p run none db found = Ensures-guard _ _ _ _ λ _.
    Ensures-bind _ _ _ λ added e. Ensures-ok _ _ (
      noted_after run_id run _ db added found (add_action-runs id _ db added e)
        ((add_action-Step id _ db).at added e))

pub get_or_record_admitted_action-Step :
    (context : Context) (run_id id : ℕ) (p : Proposal) (claim : Claim) (db : Db)
    → Ensures (Commits db) (get_or_record_admitted_action context run_id id p claim db)
unfolding get_or_record_admitted_action
get_or_record_admitted_action-Step context run_id id p claim db = Ensures-bind _ _ _ λ _ _.
    Ensures-bind _ _ _ λ run owned.
      admit_slot-Step context run_id id p run _ db (owned_run-lookup context run_id db run owned)

close_lost_attempt-Step :
    (recovering : Bool) (id : ℕ) (key : Option DownstreamKey) (action : ActionRow) (db : Db)
    → Ensures
        (λ db'. Step db db' × (db'.runs ≡ db.runs) × (db'.actions ≡ db.actions))
        (close_lost_attempt recovering id key action db)
unfolding close_lost_attempt
close_lost_attempt-Step false id key action db = Ensures-ok _ _ (Step-refl db, refl, refl)
close_lost_attempt-Step true id key action db = Ensures-guard _ _ _ _ λ _.
    Ensures-bind _ _ _ λ previous _.
      Ensures-ok _ _ (put_attempt-Step _ _ db, put_attempt-runs _ _ db, put_attempt-actions _ _ db)

pub running→eq :
    (status : ActionStatus) → is_running_action status ≡ true → status ≡ ActionStatus.running
running→eq status h = ground arith

-- An action that is ready, or that recovers and is running, goes on as running.
dispatch-Moves :
    (job : Option JobRow) (epoch : ℕ) (a : ActionRow)
    → not (is_ready_action a.status || recovers_local job epoch a) ≡ false
    → Moves a.status 1 ActionStatus.running
unfolding recovers_local action_transitions
dispatch-Moves job epoch a h = elim (Bool-cases (is_ready_action a.status)) [
  | inl ready ↦ Moves-step _ _ (ground arith)
  | inr waiting ↦ rw (running→eq a.status (ground arith)) Moves.stay
]

start_attempt-Step :
    (id attempt_id epoch : ℕ) (recovering : Bool) (key : Option DownstreamKey) (action : ActionRow)
    (run : RunRow) (db : Db)
    → lookup id db.actions ≡ some action
    → lookup action.run_id db.runs ≡ some run
    → Moves action.status 1 ActionStatus.running
    → Ensures (Commits db) (start_attempt id attempt_id epoch recovering key action run db)
unfolding start_attempt
start_attempt-Step id attempt_id epoch recovering key action run db at found moves =
    Ensures-bind _ _ _ λ closed e. Ensures-bind _ _ _ λ started e'.
      let (step, runs, actions) =
        (close_lost_attempt-Step recovering id key action db).at closed e in
      let dispatched = put_action id (dispatching epoch key action) closed in
      Ensures-ok _ _ (
        noted_after action.run_id run _ db started found
          (add_attempt-runs attempt_id _ dispatched started e' ∙ put_action-runs id _ closed ∙ runs)
          (Step-trans db closed started step (
            Step-trans closed dispatched started
              (put_action-Step id action _ closed (rw actions at)
                (revised-Bound action _ _ action.upstream_handle action.result _ moves))
              ((add_attempt-Step attempt_id _ dispatched).at started e'))))

dispatch_action-Step :
    (id attempt_id : ℕ) (claim : Claim) (job : Option JobRow) (key : Option DownstreamKey)
    (action : Option ActionRow) (db : Db)
    → lookup id db.actions ≡ action
    → Ensures (Commits db) (dispatch_action id attempt_id claim job key action db)
unfolding dispatch_action
dispatch_action-Step id attempt_id claim job key none db at = Ensures-ok _ _ (Step-refl db)
dispatch_action-Step id attempt_id claim job key (some action) db at =
    Ensures-when _ _ _ _ (λ _. Ensures-ok _ _ (Step-refl db))
      (λ startable. Ensures-require _ _ _ _ λ run found. Ensures-guard _ _ _ _ λ _.
        Ensures-guard _ _ _ _ λ _.
          start_attempt-Step id attempt_id _ _ key action run db at found
            (dispatch-Moves job _ action startable))

pub begin_action_dispatch-Step :
    (id attempt_id : ℕ) (claim : Claim) (key : Option DownstreamKey) (db : Db)
    → Ensures (Commits db) (begin_action_dispatch id attempt_id claim key db)
unfolding begin_action_dispatch
begin_action_dispatch-Step id attempt_id claim key db =
    Ensures-bind _ _ _
      λ job _. Ensures-guard _ _ _ _ λ _. dispatch_action-Step id attempt_id claim job key _ db refl

completion_moves :
    (succeeded : Bool) (status : ActionStatus)
    → is_running_action status ≡ true
    → action_transitions status (completion succeeded) ≡ true
unfolding action_transitions
completion_moves succeeded status h = ground arith

pub complete_action-Step :
    (id : ℕ) (result : ActionResult) (succeeded : Bool) (claim : Claim) (db : Db)
    → Ensures (Commits db) (complete_action id result succeeded claim db)
unfolding complete_action
complete_action-Step id result succeeded claim db = Ensures-bind _ _ _ λ job _.
    Ensures-require _ _ _ _ λ action at. Ensures-guard _ _ _ _ λ _.
      Ensures-when _ _ _ _ (λ _. Ensures-ok _ _ (Step-refl db))
        (λ _. Ensures-guard _ _ _ _ λ running. Ensures-guard _ _ _ _ λ _.
          Ensures-bind _ _ _ λ attempt _. Ensures-require _ _ _ _ λ run found. Ensures-ok _ _ (
            acted id action _ attempt.0 _ run _ db at
              (revised-Bound action _ action.downstream_idempotency_key action.upstream_handle _
                action.lease_epoch (Moves-step _ _ (completion_moves succeeded _ running)))
              found))
