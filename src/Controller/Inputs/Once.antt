-- ===== src/Controller/Inputs/Once.antt =====
-- A question is answered once (`respond_to_input`).
use http_harness.Base.{
  ℕ, ◌≡◌, ap, ◌∙◌, arith, false, none, some, [], ◌∷◌, if◌then◌else◌, ◌==◌, ==-refl, Bool-cases, inl,
  inr,
}
use http_harness.Base.Table.{Table, lookup, insert, lookup-insert}
use http_harness.Base.Ensures.{ok, err, ◌>>=◌, guard, require}
use http_harness.Domain.Errors.{version_conflict, idempotency_conflict}
use http_harness.Store.Rows.{Db, Context, InputRequestRow, InputResponseRow, InputDecision}
use http_harness.Controller.Inputs.{is_pending_input}
use http_harness.Controller.Inputs.Responses
use http_harness.Controller.Inputs.Responses.{
  Reply, Answered, response_of, same_reply, find_response, reply_found, respond_to_input,
  decided_row, owns_request,
}
use http_harness.Controller.Inputs.Effect.{respond_to_input-Committed}
use http_harness.Controller.Inputs.Resuming.{decided_status}

find_response-insert :
    (c : Context) (reply : Reply) (key id : ℕ) (t : Table InputResponseRow)
    → lookup id t ≡ none
    → find_response c key t ≡ none
    → find_response c key (insert id (response_of c reply) t)
      ≡ (if reply.idempotency_key == key then some (response_of c reply) else none)
unfolding find_response lookup insert
find_response-insert c reply key id [] free fresh =
    ground (arith, ==-refl c.tenant_id, ==-refl c.subject_id)
find_response-insert c reply key id ((k, r) ∷ t) free fresh =
    ground (arith, find_response-insert c reply key id t)

snapshot-eq : (a b : InputRequestRow) → Responses.snapshot a ≡ Responses.snapshot b → a ≡ b
snapshot-eq a b h = cc

decided_not_pending :
    (decision : InputDecision) → is_pending_input (decided_status decision) ≡ false
decided_not_pending decision = ground arith

-- After a question was answered in time, the same reply under the same key gets the same answer
-- again, another reply under that key is a conflict, and a reply of the subject under another key
-- is refused, whatever it says and whichever version it is for; none of them writes.
pub respond_to_input-once :
    (c : Context) (reply again : Reply) (response_id job_id now : ℕ)
    (other_response other_job later : ℕ) (row : InputRequestRow) (db db' : Db)
    → find_response c reply.idempotency_key db.input_responses ≡ none
    → respond_to_input c reply response_id job_id now db ≡ ok (Responses.snapshot row, db')
    → again.input_request_id ≡ reply.input_request_id
    → find_response c again.idempotency_key db.input_responses ≡ none
    → respond_to_input c again other_response other_job later db' ≡ (
        if reply.idempotency_key == again.idempotency_key
        then (if same_reply again (response_of c reply)
            then ok (Responses.snapshot row, db')
            else err idempotency_conflict)
        else err version_conflict)
unfolding respond_to_input reply_found ◌>>=◌ guard require
respond_to_input-once c reply again response_id job_id now other_response other_job later row db db'
      fresh h same_request unused =
    let made = respond_to_input-Committed c reply response_id job_id now row db db' fresh h in
    let new = decided_row (decided_status reply.decision) made.request in
    let ledger : find_response c again.idempotency_key db'.input_responses ≡ (
        if reply.idempotency_key == again.idempotency_key
        then some (response_of c reply)
        else none) =
      ap (find_response c again.idempotency_key) made.decided.responses
      ∙ find_response-insert c reply again.idempotency_key response_id db.input_responses
          made.decided.free unused in
    let there : lookup again.input_request_id db'.input_requests ≡ some new =
      ap (λ t. lookup again.input_request_id t) made.decided.requests
      ∙ ground (
        arith,
        lookup-insert reply.input_request_id again.input_request_id new db.input_requests,
        ==-refl reply.input_request_id,
      ) in
    let same : row ≡ new = snapshot-eq row new made.decided.result in
    elim (Bool-cases (reply.idempotency_key == again.idempotency_key)) [
      | inl e ↦ rw (ledger, e) (ground (arith, there, same))
      | inr e ↦
          rw (ledger, e) (ground (arith, there, made.owned, decided_not_pending reply.decision))
    ]
