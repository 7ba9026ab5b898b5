-- ===== src/Controller/Inputs/Effect.antt =====
-- What an answer in time leaves (`respond_to_input`).
use http_harness.Base.{
  not, ◌+◌, if◌then◌else◌, ℕ, ◌≡◌, refl, sym, ap, ◌∙◌, arith, true, false, ◌&&◌, ◌||◌, Option, none,
  some, is_none→eq, leb, ◌==◌,
}
use http_harness.Base.Table.{Table, lookup, insert}
use http_harness.Base.Ensures.{
  ok, Ensures, Ensures-ok, Ensures-bind, Ensures-guard, Ensures-require, Ensures-when,
}
use http_harness.Store.Rows.{
  Db, RunRow, ActionRow, Context, InputRequestRow, InputResponseRow, InputDecision,
}
use http_harness.Store.Session.{put_action}
use http_harness.Controller.Inputs.{is_approval, is_waiting_run, is_pending_input}
use http_harness.Domain.States.{ActionStatus}
use http_harness.Store.Rows
use http_harness.Store.Rows.{InputKind}
use http_harness.Controller.Inputs.Responses
use http_harness.Controller.Inputs.Responses.{
  Reply, Answered, put_request, add_response, action_of, decided_row, decided_action, decide_action,
  resume_run, accept, answer, reply_found, respond_to_input, response_of, is_deny, is_unchanged,
  find_response, owns_request, is_submit, is_approve,
}
use http_harness.Controller.Inputs.Resuming.{
  decided_status, resumed_row, wake_up, resume_run-Resumed,
}

abbrev pub wanted_status : InputDecision → ActionStatus
wanted_status Rows.approve = ActionStatus.ready
wanted_status Rows.submit = ActionStatus.ready
wanted_status Rows.deny = ActionStatus.cancelled

-- The action that a question was about, if it was about one: ready after an approval or a submission
-- and cancelled after a denial, at its next version. No other action changes.
pub data Acted (decision : InputDecision) (found : Option (ℕ × ActionRow))
    (before : Table ActionRow) (after : Table ActionRow) : Type 0 where
  untouched : found ≡ none → after ≡ before → Acted decision found before after
  decided :
      (id : ℕ) (old new : ActionRow)
      → found ≡ some (id, old)
      → after ≡ insert id new before
      → new.status ≡ wanted_status decision
      → new.version ≡ old.version + 1
      → Acted decision found before after

-- What an answer in time leaves.
pub record Decided (c : Context) (reply : Reply) (response_id job_id now : ℕ)
    (request : InputRequestRow) (run : RunRow) (db : Db) (out : Answered) (db' : Db) : Type 0 where
  pub fits :
      ((is_approval request.kind && is_submit reply.decision) ≡ false)
      × ((is_approval request.kind || is_submit reply.decision) ≡ true)
  pub unchanged : is_unchanged request (action_of request.action_id db.actions) ≡ true
  pub free : lookup response_id db.input_responses ≡ none
  pub waited : is_waiting_run run.status ≡ true
  pub result : out ≡ Responses.snapshot (decided_row (decided_status reply.decision) request)
  pub requests :
      db'.input_requests
      ≡ insert reply.input_request_id
          (decided_row (decided_status reply.decision) request)
          db.input_requests
  pub responses : db'.input_responses ≡ insert response_id (response_of c reply) db.input_responses
  pub rewritten :
      db'.actions
      ≡ (decide_action request reply.decision (action_of request.action_id db.actions) db).actions
  pub actions : Acted reply.decision (action_of request.action_id db.actions) db.actions db'.actions
  pub runs : db'.runs ≡ insert request.run_id (resumed_row reply.decision run) db.runs
  pub woken : is_deny reply.decision ≡ false → lookup job_id db'.jobs ≡ some (wake_up c now request)

add_response-new :
    (id : ℕ) (row : InputResponseRow) (db : Db)
    → Ensures
        (λ db'.
          (lookup id db.input_responses ≡ none)
          × (db' ≡ record db { input_responses = insert id row db.input_responses }))
        (add_response id row db)
unfolding add_response
add_response-new id row db = Ensures-guard _ _ _ _ λ free. Ensures-ok _ _ (is_none→eq free, refl)

-- The action is decided in a store whose questions and answers differ.
module _ (request : InputRequestRow) (decision : InputDecision) where
  decide_action-actions :
      (found : Option (ℕ × ActionRow)) (db db' : Db)
      → db'.actions ≡ db.actions
      → (decide_action request decision found db').actions
        ≡ (decide_action request decision found db).actions
  unfolding decide_action put_action
  decide_action-actions none db db' e = e
  decide_action-actions (some (id, a)) db db' e =
      ap (insert id (decided_action request decision a)) e

  decide_action-rest :
      (found : Option (ℕ × ActionRow)) (db : Db)
      → ((decide_action request decision found db).input_requests ≡ db.input_requests)
        × ((decide_action request decision found db).input_responses ≡ db.input_responses)
        × ((decide_action request decision found db).runs ≡ db.runs)
  unfolding decide_action put_action
  decide_action-rest none db = (refl, refl, refl)
  decide_action-rest (some (id, a)) db = (refl, refl, refl)

fitting_status :
    (kind : InputKind) (decision : InputDecision)
    → (is_approval kind && is_submit decision) ≡ false
    → (is_approval kind || is_submit decision) ≡ true
    → (if is_approve decision || not (is_approval kind) && is_submit decision
        then ActionStatus.ready
        else ActionStatus.cancelled)
      ≡ wanted_status decision
fitting_status kind Rows.approve first second = refl
fitting_status kind Rows.deny first second = ground arith
fitting_status kind Rows.submit first second = ground arith

decide_action-Acted :
    (request : InputRequestRow) (decision : InputDecision) (found : Option (ℕ × ActionRow))
    (db : Db) (after : Table ActionRow)
    → (if is_approve decision || not (is_approval request.kind) && is_submit decision
        then ActionStatus.ready
        else ActionStatus.cancelled)
      ≡ wanted_status decision
    → after ≡ (decide_action request decision found db).actions
    → Acted decision found db.actions after
unfolding decide_action put_action
decide_action-Acted request decision none db after fits e = Acted.untouched refl e
decide_action-Acted request decision (some (id, a)) db after fits e =
    Acted.decided id a (decided_action request decision a) refl e fits refl

pub accept-Decided :
    (c : Context) (reply : Reply) (response_id job_id now : ℕ) (request : InputRequestRow)
    (run : RunRow) (db : Db)
    → Ensures
        (λ (out, db'). Decided c reply response_id job_id now request run db out db')
        (accept c reply response_id job_id now request run db)
unfolding accept put_request
accept-Decided c reply response_id job_id now request run db = Ensures-guard _ _ _ _ λ first.
    Ensures-guard _ _ _ _ λ second. Ensures-guard _ _ _ _ λ unchanged. Ensures-bind _ _ _ λ added a.
      Ensures-bind _ _ _ λ resumed r.
        let (free, is) = (add_response-new response_id (response_of c reply) db).at added a in
        let row = decided_row (decided_status reply.decision) request in
        let written = record added {
          input_requests = insert reply.input_request_id row added.input_requests;
        } in
        let action = action_of request.action_id db.actions in
        let last = decide_action request reply.decision action written in
        let (same_requests, same_responses, same_runs) =
          decide_action-rest request reply.decision action written in
        let done = (resume_run-Resumed c job_id now request run last reply.decision).at resumed r in
        let rewritten =
          done.actions
          ∙ decide_action-actions request reply.decision action db written
              (ap (λ (d : Db). d.actions) is) in
        Ensures-ok _ _ (record {
          fits = (ground arith, second);
          unchanged = unchanged;
          free = free;
          waited = done.waited;
          result = refl;
          requests =
              done.requests
              ∙ same_requests
              ∙ ap (λ (d : Db). insert reply.input_request_id row d.input_requests) is;
          responses = done.responses ∙ same_responses ∙ ap (λ (d : Db). d.input_responses) is;
          rewritten = rewritten;
          actions =
              decide_action-Acted request reply.decision action db resumed.actions
                (fitting_status request.kind reply.decision (ground arith) second) rewritten;
          runs =
              done.runs
              ∙ ap (insert request.run_id (resumed_row reply.decision run))
                  (same_runs ∙ ap (λ (d : Db). d.runs) is);
          woken = done.woken;
        })

-- A first answer that was committed in time: what was there, and what it left.
pub record Committed (c : Context) (reply : Reply) (response_id job_id now : ℕ) (db : Db)
    (out : Answered) (db' : Db) : Type 0 where
  pub request : InputRequestRow
  pub run : RunRow
  pub at : lookup reply.input_request_id db.input_requests ≡ some request
  pub owned : owns_request c request ≡ true
  pub current : (request.version == reply.expected_version) ≡ true
  pub pending : is_pending_input request.status ≡ true
  pub in_time : leb request.expires_at now ≡ false
  pub run_at : lookup request.run_id db.runs ≡ some run
  pub decided : Decided c reply response_id job_id now request run db out db'

expired_no_snapshot :
    (row : InputRequestRow) → Responses.raises_expired ≡ Responses.snapshot row → ⊥
expired_no_snapshot row h = absurd (cc)

reply_found-Committed :
    (c : Context) (reply : Reply) (response_id job_id now : ℕ) (db : Db)
    → Ensures
        (λ (out, db').
          (row : InputRequestRow)
          → out ≡ Responses.snapshot row
          → Committed c reply response_id job_id now db out db')
        (reply_found c reply response_id job_id now none db)
unfolding reply_found answer
reply_found-Committed c reply response_id job_id now db = Ensures-require _ _ _ _ λ request at.
    Ensures-guard _ _ _ _ λ owned. Ensures-guard _ _ _ _ λ current.
      Ensures-require _ _ _ _ λ run run_at.
        Ensures-when _ _ _ _ (λ late. Ensures-ok _ _ (λ row h. absurd (expired_no_snapshot row h)))
          (λ in_time. record {
            at = λ (out, db') e row h. record {
              request = request;
              run = run;
              at = at;
              owned = owned;
              current = ground arith;
              pending = ground arith;
              in_time = in_time;
              run_at = run_at;
              decided =
                  (accept-Decided c reply response_id job_id now request run db).at (out, db') e;
            };
          })

-- A first answer that is committed in time was for a pending request of the subject at the version
-- that was expected, whose kind fits the decision and whose action has not changed. It closes the
-- request and records the response. The action that it was about is ready after an approval or a
-- submission, which only another kind of request takes, and cancelled after a denial, at its next
-- version, and no other action changes; the run, which waited, is queued with a
-- job that wakes it, or fails where the answer denies.
pub respond_to_input-Committed :
    (c : Context) (reply : Reply) (response_id job_id now : ℕ) (row : InputRequestRow) (db db' : Db)
    → find_response c reply.idempotency_key db.input_responses ≡ none
    → respond_to_input c reply response_id job_id now db ≡ ok (Responses.snapshot row, db')
    → Committed c reply response_id job_id now db (Responses.snapshot row) db'
unfolding respond_to_input
respond_to_input-Committed c reply response_id job_id now row db db' fresh h =
    (reply_found-Committed c reply response_id job_id now db).at (Responses.snapshot row, db')
      (ap (λ found. reply_found c reply response_id job_id now found db) (sym fresh) ∙ h) row refl
