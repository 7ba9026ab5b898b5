-- ===== src/Controller/Inputs/Approval.antt =====
-- From the request of an approval to the test before the dispatch (`request_approval`,
-- `respond_to_input`, `validate_approval`).
use http_harness.Base.{
  ℕ, ◌≡◌, refl, sym, ap, ◌∙◌, subst, arith, Bool, true, false, ◌&&◌, ◌||◌, Option, none, some, [],
  ◌∷◌, if◌then◌else◌, ◌==?◌, ==-refl, ltb, list_eq,
}
use http_harness.Base.Texts.{list_eq_refl}
use http_harness.Base.Table.{Table, lookup, insert, any_row, lookup-insert}
use http_harness.Base.Ensures.{ok, err, ◌>>=◌, guard, require}
use http_harness.Domain.Errors.{approval_required}
use http_harness.Store.Rows.{Db, RunRow, ActionRow, Context, InputRequestRow, InputDecision}
use http_harness.Store.Session.{owned_action, owns_action, put_action}
use http_harness.Controller.Inputs.{
  pending_request, approval_of, asked_action, request_approval, is_answered,
}
use http_harness.Controller.Inputs.Responses
use http_harness.Controller.Inputs.Responses.{
  Reply, response_of, find_response, respond_to_input, decided_row, decided_action, decide_action,
  action_of, is_approve, is_deny, is_submit, is_approval_of, is_valid_approval, validate_approval,
  is_unchanged,
}
use http_harness.Controller.Inputs.Effect.{Decided, respond_to_input-Committed}
use http_harness.Controller.Inputs.Resuming.{decided_status}
use http_harness.Controller.Inputs.Asking.{Asked, request_approval-Asked}

any_row-insert {ℓ} :
    {A : Type ℓ} (test : A → Bool) (id : ℕ) (row : A) (t : Table A)
    → lookup id t ≡ none
    → any_row test (insert id row t) ≡ (test row || any_row test t)
unfolding any_row insert lookup
any_row-insert test id row [] free = refl
any_row-insert test id row ((k, r) ∷ t) free = ground (arith, any_row-insert test id row t)

some-eq : {a b : InputRequestRow} → some a ≡ some b → a ≡ b
some-eq h = cc

owned_action-owns :
    (c : Context) (id : ℕ) (db : Db) (action : ActionRow)
    → owned_action c id db ≡ ok action
    → owns_action c action ≡ true
unfolding owned_action ◌>>=◌ guard require
owned_action-owns c id db action h = ground arith

-- The action after its approval was decided.
abbrev approved : ℕ → InputDecision → InputRequestRow → ActionRow → ActionRow
approved request_id decision row action =
    decided_action row decision (asked_action request_id action)

answered_unless_denied :
    (decision : InputDecision)
    → (true && is_submit decision) ≡ false
    → is_answered (decided_status decision) ≡ is_approve decision
answered_unless_denied decision h = ground arith

validated :
    (c : Context) (id request_id : ℕ) (versions : Option ℕ) (later : ℕ) (action : ActionRow)
    (row : InputRequestRow) (db : Db)
    → owns_action c action ≡ true
    → action.approval_request_id ≡ some request_id
    → lookup id db.actions ≡ some action
    → lookup request_id db.input_requests ≡ some row
    → validate_approval c id none versions later db ≡ (
        if is_valid_approval c id request_id versions later action row db
        then ok tt
        else err approval_required)
unfolding validate_approval owned_action ◌>>=◌ guard require
validated c id request_id versions later action row db owns asked at there =
    ground (arith, owns, asked, at, there, ==-refl request_id)

-- What the tests before a dispatch find of an approval that was decided.
decided_approval :
    (c : Context) (id request_id : ℕ) (versions later_versions : Option ℕ) (later expires_at : ℕ)
    (action : ActionRow) (run : RunRow) (decision : InputDecision) (db : Db)
    → (true && is_submit decision) ≡ false
    → any_row (is_approval_of request_id) db.input_responses ≡ is_approve decision
    → (let row = approval_of c run id action versions expires_at in
        is_unchanged row (some (id, asked_action request_id action)) ≡ true
        → is_valid_approval c id request_id later_versions later
            (approved request_id decision row action)
            (decided_row (decided_status decision) row)
            db
          ≡ (is_approve decision
              && ltb later expires_at
              && list_eq action.scope_fingerprint c.scopes
              && versions ==? later_versions))
decided_approval c id request_id versions later_versions later expires_at action run decision db
      fits answers unchanged =
    ground (
      arith,
      answers,
      answered_unless_denied decision fits,
      ==-refl id,
      unchanged,
      list_eq_refl action.scope_fingerprint,
    )

-- The same for the store that an answer left.
after_answer :
    (c : Context) (id request_id : ℕ) (versions later_versions : Option ℕ) (later expires_at : ℕ)
    (action : ActionRow) (run moved : RunRow) (reply : Reply) (response_id job_id now : ℕ)
    (db asked : Db) (out : Responses.Answered) (db' : Db)
    → owns_action c action ≡ true
    → any_row (is_approval_of request_id) db.input_responses ≡ false
    → reply.input_request_id ≡ request_id
    → Asked c id request_id action (approval_of c run id action versions expires_at) db asked
    → Decided c reply response_id job_id now
        (approval_of c run id action versions expires_at)
        moved
        asked
        out
        db'
    → validate_approval c id none later_versions later db' ≡ (
        if is_approve reply.decision
          && ltb later expires_at
          && list_eq action.scope_fingerprint c.scopes
          && versions ==? later_versions
        then ok tt
        else err approval_required)
unfolding decide_action put_action
after_answer c id request_id versions later_versions later expires_at action run moved reply
      response_id job_id now db asked out db' owns unanswered is_for was d =
    let row = approval_of c run id action versions expires_at in
    let waiting = asked_action request_id action in
    let new = approved request_id reply.decision row action in
    let acted : lookup id asked.actions ≡ some waiting =
      ap (lookup id) was.actions
      ∙ ground (arith, lookup-insert id id waiting db.actions, ==-refl id) in
    let found : action_of (some id) asked.actions ≡ some (id, waiting) =
      rw (acted, action_of) refl in
    let unchanged : is_unchanged row (some (id, waiting)) ≡ true =
      ap (is_unchanged row) (sym found) ∙ d.unchanged in
    let at : lookup id db'.actions ≡ some new =
      ap (lookup id)
        (d.rewritten ∙ ap (λ f. (decide_action row reply.decision f asked).actions) found)
      ∙ ground (arith, lookup-insert id id new asked.actions, ==-refl id) in
    let there : lookup request_id db'.input_requests
        ≡ some (decided_row (decided_status reply.decision) row) =
      ap (lookup request_id) d.requests
      ∙ ground (
        arith,
        lookup-insert reply.input_request_id request_id
            (decided_row (decided_status reply.decision) row) asked.input_requests,
        ==-refl request_id,
      ) in
    let answers : any_row (is_approval_of request_id) db'.input_responses
        ≡ is_approve reply.decision =
      ap (any_row (is_approval_of request_id)) d.responses
      ∙ any_row-insert (is_approval_of request_id) response_id (response_of c reply)
          asked.input_responses d.free
      ∙ ground (
        arith,
        ==-refl request_id,
        ap (any_row (is_approval_of request_id)) was.responses ∙ unanswered,
      ) in
    validated c id request_id later_versions later new
      (decided_row (decided_status reply.decision) row) db' owns refl at there
    ∙ ap (λ b. if b then ok tt else err approval_required)
        (decided_approval c id request_id versions later_versions later expires_at action run
          reply.decision db' d.fits.0 answers unchanged)

-- After an approval was asked for and answered, the test before the dispatch passes exactly if the
-- answer was to approve, the request has not expired by then, the caller's scopes are those that the
-- action was admitted with, and the resource versions are those that the user saw; otherwise an
-- approval is required.
pub respond_to_input-validate_approval :
    (c : Context) (id request_id : ℕ) (versions later_versions : Option ℕ) (expires_at asked_at : ℕ)
    (action : ActionRow) (reply : Reply) (response_id job_id now later : ℕ)
    (r : ℕ × InputRequestRow) (row : InputRequestRow) (db asked db' : Db)
    → owned_action c id db ≡ ok action
    → pending_request action.approval_request_id db.input_requests ≡ none
    → any_row (is_approval_of request_id) db.input_responses ≡ false
    → request_approval c id request_id expires_at versions asked_at db ≡ ok (r, asked)
    → reply.input_request_id ≡ request_id
    → find_response c reply.idempotency_key db.input_responses ≡ none
    → respond_to_input c reply response_id job_id now asked ≡ ok (Responses.snapshot row, db')
    → validate_approval c id none later_versions later db' ≡ (
        if is_approve reply.decision
          && ltb later expires_at
          && list_eq action.scope_fingerprint c.scopes
          && versions ==? later_versions
        then ok tt
        else err approval_required)
respond_to_input-validate_approval c id request_id versions later_versions expires_at asked_at
      action reply response_id job_id now later r row db asked db' owned no_pending unanswered ask
      is_for fresh h =
    let (run, was) =
      (request_approval-Asked c id request_id expires_at versions asked_at action db owned
          no_pending).at
        (r, asked) ask in
    let made =
      respond_to_input-Committed c reply response_id job_id now row asked db'
        (ap (find_response c reply.idempotency_key) was.responses ∙ fresh) h in
    let question = approval_of c run id action versions expires_at in
    let same : made.request ≡ question = some-eq (
      sym made.at
      ∙ ap (lookup reply.input_request_id) was.requests
      ∙ ground (
        arith,
        lookup-insert request_id reply.input_request_id question db.input_requests,
        ==-refl request_id,
      )) in
    after_answer c id request_id versions later_versions later expires_at action run made.run reply
      response_id job_id now db asked (Responses.snapshot row) db'
      (owned_action-owns c id db action owned) unanswered is_for was
      (subst
        (λ q. Decided c reply response_id job_id now q made.run asked (Responses.snapshot row) db')
        same made.decided)
