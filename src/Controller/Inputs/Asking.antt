-- ===== src/Controller/Inputs/Asking.antt =====
-- The store after an approval was asked for (`request_approval`).
use http_harness.Base.{ℕ, ◌≡◌, refl, sym, ap, ◌∙◌, Option, none}
use http_harness.Base.Table.{insert}
use http_harness.Base.Ensures.{
  ok, Ensures, Ensures-ok, Ensures-bind, Ensures-guard, Ensures-require,
}
use http_harness.Store.Rows.{Db, RunRow, ActionRow, Context, InputRequestRow}
use http_harness.Store.Session.{owned_action, log_event, put_action}
use http_harness.Controller.Inputs.{
  pending_request, wait_for_input, approval_of, asked_action, ask_approval, request_approval,
}
use http_harness.Controller.Inputs.Steps.{add_request-is}

-- The store in which an action waits for its approval.
pub record Asked (c : Context) (id request_id : ℕ) (action : ActionRow) (row : InputRequestRow)
    (db db' : Db) : Type 0 where
  pub requests : db'.input_requests ≡ insert request_id row db.input_requests
  pub responses : db'.input_responses ≡ db.input_responses
  pub actions : db'.actions ≡ insert id (asked_action request_id action) db.actions

wait_for_input-rest :
    (id : ℕ) (run : RunRow) (db : Db)
    → Ensures
        (λ db'.
          (db'.input_requests ≡ db.input_requests)
          × (db'.input_responses ≡ db.input_responses)
          × (db'.actions ≡ db.actions))
        (wait_for_input id run db)
unfolding wait_for_input log_event
wait_for_input-rest id run db = Ensures-bind _ _ _ λ _ _. Ensures-ok _ _ (refl, refl, refl)

ask_approval-Asked :
    (c : Context) (id request_id expires_at : ℕ) (versions : Option ℕ) (action : ActionRow)
    (run : RunRow) (db : Db)
    → Ensures
        (λ (r, db').
          Asked c id request_id action (approval_of c run id action versions expires_at) db db')
        (ask_approval c id request_id expires_at versions action run none db)
unfolding ask_approval put_action
ask_approval-Asked c id request_id expires_at versions action run db = Ensures-guard _ _ _ _ λ _.
    Ensures-guard _ _ _ _ λ _. Ensures-bind _ _ _ λ added a. Ensures-bind _ _ _ λ asked w.
      let row = approval_of c run id action versions expires_at in
      let is = (add_request-is request_id row db).at added a in
      let (requests, responses, actions) =
        (wait_for_input-rest action.run_id run (record added {
          actions = insert id (asked_action request_id action) added.actions;
        })).at
          asked w in
      Ensures-ok _ _ (record {
        requests = requests ∙ ap (λ (d : Db). d.input_requests) is;
        responses = responses ∙ ap (λ (d : Db). d.input_responses) is;
        actions =
            actions ∙ ap (λ (d : Db). insert id (asked_action request_id action) d.actions) is;
      })

ok-eq : {a b : ActionRow} → ok a ≡ ok b → a ≡ b
ok-eq h = cc

pub request_approval-Asked :
    (c : Context) (id request_id expires_at : ℕ) (versions : Option ℕ) (now : ℕ)
    (action : ActionRow) (db : Db)
    → owned_action c id db ≡ ok action
    → pending_request action.approval_request_id db.input_requests ≡ none
    → Ensures
        (λ (r, db').
          (run : RunRow) × Asked c id request_id action
            (approval_of c run id action versions expires_at)
            db
            db')
        (request_approval c id request_id expires_at versions now db)
unfolding request_approval
request_approval-Asked c id request_id expires_at versions now action db owned fresh =
    Ensures-guard _ _ _ _ λ _. Ensures-bind _ _ _ λ other owned'. Ensures-require _ _ _ _ λ run _.
      let same : other ≡ action = ok-eq (sym owned' ∙ owned) in
      let still : pending_request other.approval_request_id db.input_requests ≡ none =
        ap (λ (a : ActionRow). pending_request a.approval_request_id db.input_requests) same
        ∙ fresh in
      record {
        at = λ (r, db') h. (
          run,
          (ask_approval-Asked c id request_id expires_at versions action run db).at (r, db')
              (ap (λ a. ask_approval c id request_id expires_at versions a run none db) (sym same)
                ∙ ap (λ found. ask_approval c id request_id expires_at versions other run found db)
                    (sym still)
                ∙ h),
        );
      }
