-- ===== src/Controller/Inputs/Expiry.antt =====
-- A question that is answered too late (`respond_to_input`).
use http_harness.Base.{
  ℕ, ◌+◌, ◌≡◌, refl, sym, ap, ◌∙◌, arith, true, false, Option, none, some, ◌==◌, Bool-cases, inl,
  inr, ==→eq, ==-refl, ltb,
}
use http_harness.Base.Table.{lookup, insert, lookup-insert}
use http_harness.Base.Ensures.{
  ok, err, ◌>>=◌, ◌>>◌, guard, require, Ensures, Ensures-ok, Ensures-bind, Ensures-guard,
  Ensures-require, Ensures-when,
}
use http_harness.Domain.Errors.{version_conflict, not_found}
use http_harness.Store.Rows
use http_harness.Store.Rows.{Db, RunRow, ActionRow, Context, InputRequestRow, InputResponseRow}
use http_harness.Store.Session.{owned_action, owns_action, log_event}
use http_harness.Domain.States.{is_ready_action}
use http_harness.Controller.Inputs.{ask_approval, request_approval, is_pending_input}
use http_harness.Controller.Inputs.Responses
use http_harness.Controller.Inputs.Responses.{
  Reply, Answered, find_response, reply_found, respond_to_input, answer, accept, decided_row,
  put_request, owns_request,
}

-- What an expiry leaves: the request is closed, and nothing else has changed but the event log.
pub record Expired (c : Context) (reply : Reply) (db db' : Db) : Type 0 where
  pub request : InputRequestRow
  pub run : RunRow
  pub owned : owns_request c request ≡ true
  pub run_at : lookup request.run_id db.runs ≡ some run
  pub closed :
      lookup reply.input_request_id db'.input_requests ≡ some (decided_row Rows.expired request)
  pub runs : db'.runs ≡ insert request.run_id (record run { event_seq = run.event_seq + 1 }) db.runs
  pub responses : db'.input_responses ≡ db.input_responses
  pub actions : db'.actions ≡ db.actions

snapshot_not_expired :
    (row : InputRequestRow) → Responses.snapshot row ≡ Responses.raises_expired → ⊥
snapshot_not_expired row h = absurd (cc)

accept-snapshot :
    (c : Context) (reply : Reply) (response_id job_id now : ℕ) (request : InputRequestRow)
    (run : RunRow) (db : Db)
    → Ensures
        (λ (out, db'). (row : InputRequestRow) × (out ≡ Responses.snapshot row))
        (accept c reply response_id job_id now request run db)
unfolding accept
accept-snapshot c reply response_id job_id now request run db = Ensures-guard _ _ _ _ λ _.
    Ensures-guard _ _ _ _ λ _.
      Ensures-guard _ _ _ _
        λ _. Ensures-bind _ _ _ λ _ _. Ensures-bind _ _ _ λ _ _. Ensures-ok _ _ (_, refl)

reply_found-Expired :
    (c : Context) (reply : Reply) (response_id job_id now : ℕ) (recorded : Option InputResponseRow)
    (db : Db)
    → Ensures
        (λ (out, db'). out ≡ Responses.raises_expired → Expired c reply db db')
        (reply_found c reply response_id job_id now recorded db)
unfolding reply_found answer put_request log_event
reply_found-Expired c reply response_id job_id now (some recorded) db = Ensures-guard _ _ _ _ λ _.
    Ensures-require _ _ _ _
      λ request _. Ensures-ok _ _ (λ h. absurd (snapshot_not_expired request h))
reply_found-Expired c reply response_id job_id now none db = Ensures-require _ _ _ _ λ request at.
    Ensures-guard _ _ _ _ λ owned. Ensures-guard _ _ _ _ λ _. Ensures-require _ _ _ _ λ run run_at.
      Ensures-when _ _ _ _
        (λ late. Ensures-ok _ _ (λ _. record {
          request = request;
          run = run;
          owned = owned;
          run_at = run_at;
          closed = ground (
            arith,
            lookup-insert reply.input_request_id reply.input_request_id
                (decided_row Rows.expired request) db.input_requests,
            ==-refl reply.input_request_id,
          );
          runs = refl;
          responses = refl;
          actions = refl;
        }))
        (λ in_time. record {
          at = λ (out, db') e h.
              let (row, is) =
                (accept-snapshot c reply response_id job_id now request run db).at (out, db') e in
              absurd (snapshot_not_expired row (sym is ∙ h));
        })

respond_to_input-Expired :
    (c : Context) (reply : Reply) (response_id job_id now : ℕ) (db db' : Db)
    → respond_to_input c reply response_id job_id now db ≡ ok (Responses.raises_expired, db')
    → Expired c reply db db'
unfolding respond_to_input
respond_to_input-Expired c reply response_id job_id now db db' h =
    (reply_found-Expired c reply response_id job_id now _ db).at (Responses.raises_expired, db') h
      refl

some-eq : {a b : RunRow} → some a ≡ some b → a ≡ b
some-eq h = cc

refuses_reply :
    (c : Context) (again : Reply) (response_id job_id later : ℕ) (row : InputRequestRow) (db : Db)
    → owns_request c row ≡ true
    → is_pending_input row.status ≡ false
    → lookup again.input_request_id db.input_requests ≡ some row
    → find_response c again.idempotency_key db.input_responses ≡ none
    → respond_to_input c again response_id job_id later db ≡ err version_conflict
unfolding respond_to_input reply_found ◌>>=◌ guard require
refuses_reply c again response_id job_id later row db owned closed at unused =
    rw unused (ground (arith, owned, closed, at))

refuses_question :
    (c : Context) (id other_id expires_at : ℕ) (versions : Option ℕ) (later request_id : ℕ)
    (action : ActionRow) (run : RunRow) (row : InputRequestRow) (db : Db)
    → ltb later expires_at ≡ true
    → owned_action c id db ≡ ok action
    → is_ready_action action.status ≡ false
    → action.approval_request_id ≡ some request_id
    → lookup request_id db.input_requests ≡ some row
    → is_pending_input row.status ≡ false
    → lookup action.run_id db.runs ≡ some run
    → request_approval c id other_id expires_at versions later db ≡ err version_conflict
unfolding request_approval ask_approval ◌>>=◌ guard require
refuses_question c id other_id expires_at versions later request_id action run row db soon owned
      waits asked at closed run_at =
    ground (arith, soon, owned, waits, asked, at, closed, run_at)

owned_action-same :
    (c : Context) (id : ℕ) (db db' : Db)
    → db'.actions ≡ db.actions
    → owned_action c id db' ≡ owned_action c id db
unfolding owned_action
owned_action-same c id db db' e =
    ap
      (λ t. require (lookup id t) not_found >>= λ action.
        guard (owns_action c action) not_found >> ok action)
      e

same_status :
    {c : Context} {reply : Reply} {db db' : Db} (id : ℕ) (run : RunRow)
    → Expired c reply db db'
    → lookup id db.runs ≡ some run
    → (left : RunRow) × (lookup id db'.runs ≡ some left) × (left.status ≡ run.status)
same_status {db = db} id run e found = elim (Bool-cases (e.request.run_id == id)) [
  | inl same ↦
      let new = record e.run { event_seq = e.run.event_seq + 1 } in
      let is : e.run ≡ run =
        some-eq
          (sym e.run_at ∙ ap (λ k. lookup k db.runs) (==→eq e.request.run_id id same) ∙ found) in
      (
        new,
        ap (lookup id) e.runs ∙ ground (arith, lookup-insert e.request.run_id id new db.runs),
        ap (λ (r : RunRow). r.status) is,
      )
  | inr other ↦ (
    run,
    ap (lookup id) e.runs
        ∙ ground (
          arith,
          lookup-insert e.request.run_id id (record e.run { event_seq = e.run.event_seq + 1 })
              db.runs,
          found,
        ),
    refl,
  )
]

-- A reply that comes too late closes the question and leaves the action and the status of the run as
-- they are. After that no other reply to the question is accepted, and no new approval can be asked
-- for the action, which is not ready, so that the run stays where it waits.
pub respond_to_input-expired :
    (c : Context) (reply again : Reply) (response_id job_id now other_response other_job later : ℕ)
    (id request_id expires_at : ℕ) (versions : Option ℕ) (action : ActionRow) (db db' : Db)
    → respond_to_input c reply response_id job_id now db ≡ ok (Responses.raises_expired, db')
    → again.input_request_id ≡ reply.input_request_id
    → find_response c again.idempotency_key db.input_responses ≡ none
    → owned_action c id db ≡ ok action
    → action.approval_request_id ≡ some reply.input_request_id
    → is_ready_action action.status ≡ false
    → (run : RunRow) → lookup action.run_id db.runs ≡ some run
    → ltb later expires_at ≡ true
    → (respond_to_input c again other_response other_job later db' ≡ err version_conflict)
      × (request_approval c id request_id expires_at versions later db' ≡ err version_conflict)
      × (owned_action c id db' ≡ ok action)
      × ((left : RunRow) × (lookup action.run_id db'.runs ≡ some left) × (left.status ≡ run.status))
respond_to_input-expired c reply again response_id job_id now other_response other_job later id
      request_id expires_at versions action db db' h same unused owned asked waits run run_at soon =
    let e = respond_to_input-Expired c reply response_id job_id now db db' h in
    let row = decided_row Rows.expired e.request in
    let kept : owned_action c id db' ≡ ok action =
      owned_action-same c id db db' e.actions ∙ owned in
    let (left, there, still) = same_status action.run_id run e run_at in
    (
      refuses_reply c again other_response other_job later row db' e.owned refl
          (ap (λ k. lookup k db'.input_requests) same ∙ e.closed)
          (ap (find_response c again.idempotency_key) e.responses ∙ unused),
      refuses_question c id request_id expires_at versions later reply.input_request_id action left
          row db' soon kept waits asked e.closed refl there,
      kept,
      (left, there, still),
    )
