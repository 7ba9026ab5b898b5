-- ===== src/Controller/Inputs/Steps.antt =====
-- Questions and answers as steps of the store.
use http_harness.Base.{ℕ, ◌≡◌, refl, subst, sym, arith, true, false, none, some, Option}
use http_harness.Base.Table.{Table, lookup, insert}
use http_harness.Base.Ensures.{
  ok, Ensures, Ensures-ok, Ensures-bind, Ensures-guard, Ensures-require, ◌>>=◌,
}
use http_harness.Domain.States.{RunStatus, ActionStatus, is_ready_action, is_terminal}
use http_harness.Store.Rows
use http_harness.Store.Rows.{
  Db, RunRow, ActionRow, Context, InputRequestRow, InputResponseRow, InputDecision,
}
use http_harness.Store.Session.{put_action, owned_action}
use http_harness.Store.Step.{Step, Step-refl, Step-trans, Commits}
use http_harness.Store.Step.Moves.{Moves-step, Bound, asked-Bound, action_transitions}
use http_harness.Store.Step.Writes.{put_action-Step}
use http_harness.Store.Lease.{Claim}
use http_harness.Controller.Runs.Steps.{live_move, owned_run-lookup}
use http_harness.Controller.Inputs.{
  add_request, wait_for_input, ask_approval, request_approval, ask_clarification,
  request_clarification, asked_action, approval_of, clarification_of,
}

pub add_request-is :
    (id : ℕ) (row : InputRequestRow) (db : Db)
    → Ensures
        (λ db'. db' ≡ record db { input_requests = insert id row db.input_requests })
        (add_request id row db)
unfolding add_request
add_request-is id row db = Ensures-guard _ _ _ _ λ _. Ensures-ok _ _ refl

-- The tables of questions and answers belong to no other invariant.
pub inputs-Step :
    (requests : Table InputRequestRow) (responses : Table InputResponseRow) (db : Db)
    → Step db (record db { input_requests = requests; input_responses = responses })
inputs-Step requests responses db = record {
  trace = (Step-refl db).trace;
  funded = (Step-refl db).funded;
  bound = (Step-refl db).bound;
  leased = (Step-refl db).leased;
}

waiting_live : is_terminal RunStatus.waiting_input ≡ false
unfolding is_terminal
waiting_live = refl

wait_for_input-Step :
    (id : ℕ) (run : RunRow) (db : Db)
    → lookup id db.runs ≡ some run
    → Ensures (Step db) (wait_for_input id run db)
unfolding wait_for_input
wait_for_input-Step id run db found = Ensures-bind _ _ _ λ _ allowed. Ensures-ok _ _ (
    live_move id run db found RunStatus.waiting_input run.failure Rows.input_requested allowed
      waiting_live)

ready→waiting :
    (status : ActionStatus)
    → is_ready_action status ≡ true
    → action_transitions status ActionStatus.waiting_input ≡ true
unfolding action_transitions
ready→waiting status h = ground arith

-- The action is written in a store whose other questions and answers differ.
asked-Step :
    (id : ℕ) (old new : ActionRow) (requests : Table InputRequestRow) (db db' : Db)
    → lookup id db.actions ≡ some old
    → Bound old new
    → db' ≡ record db { input_requests = requests }
    → Step db (put_action id new db')
asked-Step id old new requests db db' at bound is =
    subst (λ d. Step db (put_action id new d)) (sym is)
      (Step-trans db (record db { input_requests = requests }) _
        (inputs-Step requests db.input_responses db)
        (put_action-Step id old new (record db { input_requests = requests }) at bound))

put_action-runs :
    (id : ℕ) (new : ActionRow) (requests : Table InputRequestRow) (db db' : Db)
    → db' ≡ record db { input_requests = requests }
    → (put_action id new db').runs ≡ db.runs
unfolding put_action
put_action-runs id new requests db db' is = rw is refl

ask_approval-Step :
    (c : Context) (id request_id expires_at : ℕ) (versions : Option ℕ) (action : ActionRow)
    (run : RunRow) (existing : Option (ℕ × InputRequestRow)) (db : Db)
    → lookup id db.actions ≡ some action
    → lookup action.run_id db.runs ≡ some run
    → Ensures (Commits db) (ask_approval c id request_id expires_at versions action run existing db)
unfolding ask_approval
ask_approval-Step c id request_id expires_at versions action run (some existing) db at found =
    Ensures-ok _ _ (Step-refl db)
ask_approval-Step c id request_id expires_at versions action run none db at found =
    Ensures-guard _ _ _ _ λ ready. Ensures-guard _ _ _ _ λ _. Ensures-bind _ _ _ λ added a.
      Ensures-bind _ _ _ λ asked w.
        let row = approval_of c run id action versions expires_at in
        let is = (add_request-is request_id row db).at added a in
        let new = asked_action request_id action in
        let first =
          asked-Step id action new _ db added at
            (asked-Bound action _ _ (Moves-step _ _ (ready→waiting action.status ready))) is in
        Ensures-ok _ _ (
          Step-trans db (put_action id new added) asked first (
            (wait_for_input-Step action.run_id run (put_action id new added)
                (rw (put_action-runs id new _ db added is) found)).at
              asked w))

pub owned_action-lookup :
    (c : Context) (id : ℕ) (db : Db) (action : ActionRow)
    → owned_action c id db ≡ ok action
    → lookup id db.actions ≡ some action
unfolding owned_action ◌>>=◌
owned_action-lookup c id db action h = ground arith

pub request_approval-Step :
    (c : Context) (id request_id expires_at : ℕ) (versions : Option ℕ) (now : ℕ) (db : Db)
    → Ensures (Commits db) (request_approval c id request_id expires_at versions now db)
unfolding request_approval
request_approval-Step c id request_id expires_at versions now db = Ensures-guard _ _ _ _ λ _.
    Ensures-bind _ _ _ λ action owned. Ensures-require _ _ _ _ λ run found.
      ask_approval-Step c id request_id expires_at versions action run _ db
        (owned_action-lookup c id db action owned) found

ask_clarification-Step :
    (c : Context) (run_id request_id hash expires_at : ℕ) (run : RunRow)
    (existing : Option (ℕ × InputRequestRow)) (db : Db)
    → lookup run_id db.runs ≡ some run
    → Ensures (Commits db) (ask_clarification c run_id request_id hash expires_at run existing db)
unfolding ask_clarification
ask_clarification-Step c run_id request_id hash expires_at run (some existing) db found =
    Ensures-ok _ _ (Step-refl db)
ask_clarification-Step c run_id request_id hash expires_at run none db found =
    Ensures-guard _ _ _ _ λ _. Ensures-bind _ _ _ λ added a. Ensures-bind _ _ _ λ asked w.
      let row = clarification_of c run_id run hash expires_at in
      let is = (add_request-is request_id row db).at added a in
      let first : Step db added = subst (Step db) (sym is) (inputs-Step _ db.input_responses db) in
      Ensures-ok _ _ (
        Step-trans db added asked first
          ((wait_for_input-Step run_id run added (rw is found)).at asked w))

pub request_clarification-Step :
    (c : Context) (run_id request_id hash expires_at now : ℕ) (claim : Claim) (db : Db)
    → Ensures (Commits db) (request_clarification c run_id request_id hash expires_at now claim db)
unfolding request_clarification
request_clarification-Step c run_id request_id hash expires_at now claim db =
    Ensures-guard _ _ _ _ λ _. Ensures-bind _ _ _ λ _ _. Ensures-bind _ _ _ λ run owned.
      ask_clarification-Step c run_id request_id hash expires_at run _ db
        (owned_run-lookup c run_id db run owned)
