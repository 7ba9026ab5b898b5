-- ===== src/Controller/Children/Steps.antt =====
-- The admission of a child as a step of the store.
use http_harness.Base.{ℕ, ◌≡◌, refl, arith, true, false, ◌||◌, Option, none, some, is_none→eq}
use http_harness.Base.Table.{lookup, lookup-insert}
use http_harness.Base.Ensures.{Ensures, Ensures-ok, Ensures-bind, Ensures-guard, Ensures-require}
use http_harness.Domain.States.{RunStatus, is_queued, is_running, is_terminal}
use http_harness.Store.Rows
use http_harness.Store.Rows.{Db, RunRow, BudgetRow, Context, Dimension, IdempotencyRow}
use http_harness.Store.Session.{add_run, add_job}
use http_harness.Store.Step.{Step-trans, Commits}
use http_harness.Store.Step.Writes.{add_run-Step, add_job-Step}
use http_harness.Controller.Limits
use http_harness.Controller.Limits.{limit_of}
use http_harness.Controller.Runs.Steps.{noted, owned_run-lookup}
use http_harness.Controller.Admission.{remember, add_budget}
use http_harness.Controller.Admission.Steps.{remember-Step, replay-Step, add_budget-Step}
use http_harness.Controller.Children.{
  ChildRequest, ChildIds, fits, new_child, child_scopes, create_child, admit_new_child, child_found,
  admit_child_run,
}
use http_harness.Controller.Children.Reserving.{reserve_limits-Step}

add_run-Keeps :
    (id parent_id : ℕ) (row parent : RunRow) (db : Db)
    → lookup parent_id db.runs ≡ some parent
    → Ensures
        (λ db'.
          (lookup parent_id db'.runs ≡ some parent)
          × (db'.budgets ≡ db.budgets)
          × (db'.reservations ≡ db.reservations))
        (add_run id row db)
unfolding add_run
add_run-Keeps id parent_id row parent db found = Ensures-guard _ _ _ _ λ free. Ensures-ok _ _ (
  ground
      (arith, lookup-insert id parent_id (record row { event_seq = 1 }) db.runs, is_none→eq free),
  refl,
  refl,
)

pub add_budget-runs :
    (id : ℕ) (limits : Limits.Limits) (db : Db)
    → Ensures (λ db'. db'.runs ≡ db.runs) (add_budget id limits db)
unfolding add_budget
add_budget-runs id limits db = Ensures-guard _ _ _ _ λ _. Ensures-ok _ _ refl

pub add_job-runs :
    (id tenant : ℕ) (kind : Rows.JobKind) (run_id : ℕ) (action_id : Option ℕ) (due_at : ℕ) (db : Db)
    → Ensures (λ db'. db'.runs ≡ db.runs) (add_job id tenant kind run_id action_id due_at db)
unfolding add_job
add_job-runs id tenant kind run_id action_id due_at db =
    Ensures-guard _ _ _ _ λ _. Ensures-ok _ _ refl

-- A parent that accepts work.
accepting-live :
    (status : RunStatus) → is_queued status || is_running status ≡ true → is_terminal status ≡ false
unfolding is_terminal
accepting-live status h = ground arith

module _ (context : Context) (parent_id : ℕ) (parent : RunRow) (request : ChildRequest)
    (ids : ChildIds) (now : ℕ) where
  create_child-Step :
      (b : BudgetRow) (db : Db)
      → lookup parent_id db.runs ≡ some parent
      → is_terminal parent.status ≡ false
      → lookup parent_id db.budgets ≡ some b
      → fits parent_id b db.reservations Rows.model_turn
          (limit_of Limits.max_model_turns request.limits)
        ≡ true
      → fits parent_id b db.reservations Rows.tool_call
          (limit_of Limits.max_tool_calls request.limits)
        ≡ true
      → fits parent_id b db.reservations Rows.output_tokens
          (limit_of Limits.max_output_tokens request.limits)
        ≡ true
      → fits parent_id b db.reservations Rows.cost_microunits
          (limit_of Limits.max_cost_microunits request.limits)
        ≡ true
      → Ensures (Commits db) (create_child context parent_id parent request ids now db)
  unfolding create_child
  create_child-Step b db found live funds turns calls tokens cost =
      let child : RunRow =
        new_child context parent_id parent (child_scopes context parent request.requested_scopes)
          now in
      Ensures-bind _ _ _ λ added a. Ensures-bind _ _ _ λ funded f. Ensures-bind _ _ _ λ opened o.
        Ensures-bind _ _ _ λ queued q.
          let (found1, same_budgets, same_reservations) =
            (add_run-Keeps ids.child_id parent_id child parent db found).at added a in
          let (reserving, same_runs) =
            (reserve_limits-Step parent_id ids request.limits b added (rw same_budgets funds)
                (rw same_reservations turns) (rw same_reservations calls)
                (rw same_reservations tokens) (rw same_reservations cost)).at
              funded f in
          let opening = (add_budget-runs ids.child_id request.limits funded).at opened o in
          let queuing =
            (add_job-runs ids.job_id context.tenant_id Rows.advance_run ids.child_id none now
                opened).at
              queued q in
          Ensures-ok _ _ (
            Step-trans db added _
              ((add_run-Step ids.child_id child db (λ p is. (parent, cc, live))).at added a)
              (Step-trans added funded _ reserving (
                Step-trans funded opened _
                  ((add_budget-Step ids.child_id request.limits funded).at opened o)
                  (Step-trans opened queued _ ((add_job-Step _ _ _ _ _ _ opened).at queued q)
                    (noted parent_id parent queued (cc) Rows.run_child_accepted)))))

  admit_new_child-Step :
      (key fingerprint : ℕ) (db : Db)
      → lookup parent_id db.runs ≡ some parent
      → Ensures
          (Commits db)
          (admit_new_child context parent_id parent key fingerprint request ids now db)
  unfolding admit_new_child remember
  admit_new_child-Step key fingerprint db found =
      let noted_db = remember context Rows.post_children key fingerprint ids.child_id db in
      Ensures-guard _ _ _ _ λ accepting. Ensures-guard _ _ _ _ λ _. Ensures-guard _ _ _ _ λ _.
        Ensures-require _ _ _ _ λ b funds. Ensures-guard _ _ _ _ λ _. Ensures-guard _ _ _ _ λ _.
          Ensures-guard _ _ _ _ λ turns. Ensures-guard _ _ _ _ λ calls.
            Ensures-guard _ _ _ _ λ tokens. Ensures-guard _ _ _ _ λ cost. record {
              at = λ (a, db') c.
                  Step-trans db noted_db db'
                    (remember-Step context Rows.post_children key fingerprint ids.child_id db)
                    ((create_child-Step b noted_db found (accepting-live parent.status accepting)
                        funds turns calls tokens cost).at
                      (a, db') c);
            }

  child_found-Step :
      (key fingerprint : ℕ) (existing : Option IdempotencyRow) (db : Db)
      → lookup parent_id db.runs ≡ some parent
      → Ensures
          (Commits db)
          (child_found context parent_id parent key fingerprint request ids now existing db)
  unfolding child_found
  child_found-Step key fingerprint none db found = admit_new_child-Step key fingerprint db found
  child_found-Step key fingerprint (some existing) db found = replay-Step fingerprint existing db

pub admit_child_run-Step :
    (context : Context) (parent_id key fingerprint : ℕ) (request : ChildRequest) (ids : ChildIds)
    (now : ℕ) (db : Db)
    → Ensures (Commits db) (admit_child_run context parent_id key fingerprint request ids now db)
unfolding admit_child_run
admit_child_run-Step context parent_id key fingerprint request ids now db =
    Ensures-guard _ _ _ _ λ _. Ensures-guard _ _ _ _ λ _. Ensures-bind _ _ _ λ parent owned.
      child_found-Step context parent_id parent request ids now key fingerprint _ db
        (owned_run-lookup context parent_id db parent owned)
