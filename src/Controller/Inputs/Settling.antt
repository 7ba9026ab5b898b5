-- ===== src/Controller/Inputs/Settling.antt =====
-- Answers as steps of the store (`respond_to_input`).
use http_harness.Base.{
  ℕ, ◌≡◌, refl, subst, sym, ap, ◌∙◌, arith, true, false, none, some, Option, if◌then◌else◌, Bool,
}
use http_harness.Base.Table.{Table, lookup, insert}
use http_harness.Base.Ensures.{
  ok, Ensures, Ensures-ok, Ensures-bind, Ensures-guard, Ensures-require, Ensures-when,
}
use http_harness.Domain.States.{RunStatus, ActionStatus, is_terminal}
use http_harness.Store.Rows
use http_harness.Store.Rows.{
  Db, RunRow, ActionRow, Context, InputRequestRow, InputResponseRow, InputDecision,
}
use http_harness.Store.Session.{log_event, put_action}
use http_harness.Store.Step.{Step, Step-refl, Step-trans, Commits}
use http_harness.Store.Step.Moves.{Moves-step, asked-Bound, action_transitions}
use http_harness.Store.Step.Writes.{put_action-Step, add_job-Step}
use http_harness.Controller.Runs.{moved_to}
use http_harness.Controller.Runs.Steps.{live_move, last_move, noted}
use http_harness.Controller.Inputs.Steps.{inputs-Step}
use http_harness.Controller.Inputs.Responses.{
  Reply, put_request, add_response, action_of, decided_row, decided_action, decide_action,
  resume_run, accept, answer, reply_found, respond_to_input, response_of, is_deny,
}

pub add_response-is :
    (id : ℕ) (row : InputResponseRow) (db : Db)
    → Ensures
        (λ db'. db' ≡ record db { input_responses = insert id row db.input_responses })
        (add_response id row db)
unfolding add_response
add_response-is id row db = Ensures-guard _ _ _ _ λ _. Ensures-ok _ _ refl

-- Only questions and answers changed.
pub record SameRest (db db' : Db) : Type 0 where
  pub requests : Table InputRequestRow
  pub responses : Table InputResponseRow
  pub is : db' ≡ record db { input_requests = requests; input_responses = responses }

SameRest-Step : (db db' : Db) → SameRest db db' → Step db db'
SameRest-Step db db' s = subst (Step db) (sym s.is) (inputs-Step s.requests s.responses db)

pub put_request-SameRest :
    (id : ℕ) (row : InputRequestRow) (response_id : ℕ) (response : InputResponseRow) (db added : Db)
    → add_response response_id response db ≡ ok added
    → SameRest db (put_request id row added)
unfolding put_request
put_request-SameRest id row response_id response db added e =
    let is = (add_response-is response_id response db).at added e in
    record {
      requests = insert id row db.input_requests;
      responses = insert response_id response db.input_responses;
      is = rw is refl;
    }

decided_moves :
    (old : ActionStatus) (b : Bool)
    → action_transitions old (if b then ActionStatus.ready else ActionStatus.cancelled) ≡ true
unfolding action_transitions
decided_moves old b = ground arith

pub action_of-lookup :
    (wanted : Option ℕ) (id : ℕ) (action : ActionRow) (t : Table ActionRow)
    → action_of wanted t ≡ some (id, action)
    → lookup id t ≡ some action
action_of-lookup none id action t h = absurd (cc)
action_of-lookup (some k) id action t h = ground arith

decide_action-Step :
    (request : InputRequestRow) (decision : InputDecision) (found : Option (ℕ × ActionRow))
    (db : Db)
    → action_of request.action_id db.actions ≡ found
    → Step db (decide_action request decision found db)
unfolding decide_action
decide_action-Step request decision none db is = Step-refl db
decide_action-Step request decision (some (id, action)) db is =
    put_action-Step id action (decided_action request decision action) db
      (action_of-lookup request.action_id id action db.actions is)
      (asked-Bound action _ action.approval_request_id
        (Moves-step _ _ (decided_moves action.status _)))

decide_action-runs :
    (request : InputRequestRow) (decision : InputDecision) (found : Option (ℕ × ActionRow))
    (db : Db)
    → (decide_action request decision found db).runs ≡ db.runs
unfolding decide_action put_action
decide_action-runs request decision none db = refl
decide_action-runs request decision (some (id, action)) db = refl

queued_live : is_terminal RunStatus.queued ≡ false
unfolding is_terminal
queued_live = refl

module _ (c : Context) (job_id now : ℕ) (request : InputRequestRow) (run : RunRow) (db : Db)
    (found : lookup request.run_id db.runs ≡ some run) where
  go_on-Step :
      (decision : InputDecision)
      → is_deny decision ≡ false
      → Ensures (Step db) (resume_run c job_id now request decision run db)
  unfolding resume_run
  go_on-Step decision goes_on = Ensures-guard _ _ _ _ λ _. rw goes_on (
      Ensures-bind _ _ _ λ _ allowed. Ensures-guard _ _ _ _ λ _.
        Ensures-when _ _ _ _ (λ h. absurd (cc))
          (λ _. record {
            at = λ db' e.
                let logged =
                  log_event request.run_id (moved_to RunStatus.queued run) Rows.input_answered db in
                Step-trans db logged db'
                  (live_move request.run_id run db found RunStatus.queued run.failure
                    Rows.input_answered allowed queued_live)
                  ((add_job-Step job_id c.tenant_id Rows.advance_run request.run_id
                      request.action_id now logged).at
                    db' e);
          }))

  stop-Step : Ensures (Step db) (resume_run c job_id now request Rows.deny run db)
  unfolding resume_run
  stop-Step = Ensures-guard _ _ _ _ λ _. Ensures-bind _ _ _ λ _ allowed.
      Ensures-guard _ _ _ _ λ childless.
        Ensures-when _ _ _ _
          (λ _. Ensures-ok _ _ (
            last_move request.run_id run db found RunStatus.failed run.failure Rows.input_denied
              allowed childless))
          (λ h. absurd (cc))

  resume_run-Step :
      (decision : InputDecision)
      → Ensures (Step db) (resume_run c job_id now request decision run db)
  resume_run-Step Rows.approve = go_on-Step Rows.approve refl
  resume_run-Step Rows.deny = stop-Step
  resume_run-Step Rows.submit = go_on-Step Rows.submit refl

accept-Step :
    (c : Context) (reply : Reply) (response_id job_id now : ℕ) (request : InputRequestRow)
    (run : RunRow) (db : Db)
    → lookup request.run_id db.runs ≡ some run
    → Ensures (Commits db) (accept c reply response_id job_id now request run db)
unfolding accept
accept-Step c reply response_id job_id now request run db found = Ensures-guard _ _ _ _ λ _.
    Ensures-guard _ _ _ _ λ _. Ensures-guard _ _ _ _ λ _. Ensures-bind _ _ _ λ added a.
      Ensures-bind _ _ _ λ resumed r.
        let status = if is_deny reply.decision then Rows.denied else Rows.answered in
        let decided = decided_row status request in
        let written = put_request reply.input_request_id decided added in
        let same =
          put_request-SameRest reply.input_request_id decided response_id (response_of c reply) db
            added a in
        let action = action_of request.action_id db.actions in
        let last = decide_action request reply.decision action written in
        let acted : Step written last =
          decide_action-Step request reply.decision action written
            (ap (λ (d : Db). action_of request.action_id d.actions) same.is) in
        let there : lookup request.run_id last.runs ≡ some run =
          ap (λ t. lookup request.run_id t)
            (decide_action-runs request reply.decision action written
              ∙ ap (λ (d : Db). d.runs) same.is)
          ∙ found in
        Ensures-ok _ _ (
          Step-trans db written resumed (SameRest-Step db written same) (
            Step-trans written last resumed acted
              ((resume_run-Step c job_id now request run last there reply.decision).at resumed r)))

put_request-Step : (id : ℕ) (row : InputRequestRow) (db : Db) → Step db (put_request id row db)
unfolding put_request
put_request-Step id row db = inputs-Step (insert id row db.input_requests) db.input_responses db

put_request-runs :
    (id : ℕ) (row : InputRequestRow) (db : Db) → (put_request id row db).runs ≡ db.runs
unfolding put_request
put_request-runs id row db = refl

answer-Step :
    (c : Context) (reply : Reply) (response_id job_id now : ℕ) (request : InputRequestRow) (db : Db)
    → Ensures (Commits db) (answer c reply response_id job_id now request db)
unfolding answer
answer-Step c reply response_id job_id now request db = Ensures-require _ _ _ _ λ run found.
    Ensures-when _ _ _ _
      (λ _.
        let id = reply.input_request_id in
        let row = decided_row Rows.expired request in
        Ensures-ok _ _ (
          Step-trans db (put_request id row db) _ (put_request-Step id row db) (
            noted request.run_id run (put_request id row db) (rw (put_request-runs id row db) found)
              Rows.input_expired)))
      (λ _. accept-Step c reply response_id job_id now request run db found)

reply_found-Step :
    (c : Context) (reply : Reply) (response_id job_id now : ℕ) (recorded : Option InputResponseRow)
    (db : Db)
    → Ensures (Commits db) (reply_found c reply response_id job_id now recorded db)
unfolding reply_found
reply_found-Step c reply response_id job_id now (some recorded) db =
    Ensures-guard _ _ _ _ λ _. Ensures-require _ _ _ _ λ _ _. Ensures-ok _ _ (Step-refl db)
reply_found-Step c reply response_id job_id now none db = Ensures-require _ _ _ _ λ request _.
    Ensures-guard _ _ _ _
      λ _. Ensures-guard _ _ _ _ λ _. answer-Step c reply response_id job_id now request db

pub respond_to_input-Step :
    (c : Context) (reply : Reply) (response_id job_id now : ℕ) (db : Db)
    → Ensures (Commits db) (respond_to_input c reply response_id job_id now db)
unfolding respond_to_input
respond_to_input-Step c reply response_id job_id now db =
    reply_found-Step c reply response_id job_id now _ db
