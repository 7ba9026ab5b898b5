-- ===== src/Controller/Children.antt =====
-- `admit_child_run` (src/hnh/application/run_controller.py): a child run is admitted under its
-- parent, with scopes that the parent has and limits that are reserved in the parent's budget.
pub mod Reserving
pub mod Steps
pub mod Authority
use http_harness.Base.{
  ℕ, ◌+◌, Bool, true, false, not, ◌&&◌, ◌||◌, Option, none, some, List, [], ◌∷◌, ltb, leb, ◌==?◌,
  if◌then◌else◌, is_none, intersection,
}
use http_harness.Base.Table.{Table, lookup}
use http_harness.Base.Ensures.{Result, ok, ◌>>=◌, ◌>>◌, guard, require}
use http_harness.Domain.Errors.{not_found, invalid_operation, budget_exhausted}
use http_harness.Domain.States.{RunStatus, is_queued, is_running}
use http_harness.Store.Rows
use http_harness.Store.Rows.{
  Db, RunRow, BudgetRow, Context, Dimension, ReservationRow, IdempotencyRow,
}
use http_harness.Store.Session.{owned_run, add_run, add_job, log_event}
use http_harness.Store.Funding.{maximum, used}
use http_harness.Store.Funding.Sums.{active}
use http_harness.Controller.Budget.{exceeds, new_reservation, add_reservation}
use http_harness.Controller.Runs.{narrow}
use http_harness.Controller.Limits
use http_harness.Controller.Limits.{Limits, limit_of, are_child_limits}
use http_harness.Controller.Admission.{Accepted, find_idempotency, remember, replay, add_budget}

-- The arguments of a request: whether the goal is blank, what is asked for, and the bounds.
pub record ChildRequest : Type 0 where
  pub blank_goal : Bool
  pub requested_scopes : List ℕ
  pub limits : Limits
  pub max_depth : ℕ
  pub max_children : ℕ

-- The ids that `_identifier` draws in a request.
pub record ChildIds : Type 0 where
  pub child_id : ℕ
  pub job_id : ℕ
  pub reservation_ids : Dimension → ℕ

-- `SELECT count(*) … WHERE parent_run_id=…`
unfoldable pub count_children : ℕ → Table RunRow → ℕ
count_children id [] = 0
count_children id ((_, r) ∷ t) =
    (if r.parent_run_id ==? some id then 1 else 0) + count_children id t

-- `child_scopes`
abbrev pub child_scopes : Context → RunRow → List ℕ → List ℕ
child_scopes context parent requested =
    intersection
      (narrow parent.delegated_scopes (intersection context.scopes parent.admitted_scopes))
      requested

-- `remaining_wall` and what is compared with it, with the subtraction moved to the other side.
abbrev fits_wall : Option ℕ → Option ℕ → ℕ → ℕ → Bool
fits_wall none child_wall created now = true
fits_wall (some wall) none created now = false
fits_wall (some wall) (some child_wall) created now = leb (child_wall + now) (wall + created)

-- A limit that is asked for fits into what the parent has left.
abbrev pub fits : ℕ → BudgetRow → Table ReservationRow → Dimension → Option ℕ → Bool
fits parent_id budget rs dimension none = true
fits parent_id budget rs dimension (some amount) = not (
    exceeds (maximum dimension budget)
      (used dimension budget + active parent_id dimension rs + amount))

-- The limit is reserved in the parent's budget for the child.
unfoldable pub reserve_limit : ℕ → ℕ → (Dimension → ℕ) → Dimension → Option ℕ → Db → Result Db
unfolding add_reservation
reserve_limit parent_id child_id ids dimension none db = ok db
reserve_limit parent_id child_id ids dimension (some amount) db =
    add_reservation (ids dimension)
      (new_reservation parent_id (Rows.ReservationKey.child child_id dimension) dimension amount) db

-- `RunRecord(…)` of the child.
abbrev pub new_child : Context → ℕ → RunRow → List ℕ → ℕ → RunRow
new_child context parent_id parent scopes now = record {
  tenant_id = context.tenant_id;
  subject_id = context.subject_id;
  admitted_scopes = scopes;
  delegated_scopes = some scopes;
  skill_refs = none;
  parent_run_id = some parent_id;
  child_depth = parent.child_depth + 1;
  status = RunStatus.queued;
  version = 0;
  event_seq = 1;
  policy_revision = parent.policy_revision;
  failure = none;
  created_at = now;
}

-- The reservations, in the order of the table of dimensions.
unfoldable pub reserve_limits : ℕ → ChildIds → Limits → Db → Result Db
unfolding reserve_limit
reserve_limits parent_id ids limits db = do
  let reserve = reserve_limit parent_id ids.child_id ids.reservation_ids
  turns ← reserve Rows.model_turn (limit_of Limits.max_model_turns limits) db
  calls ← reserve Rows.tool_call (limit_of Limits.max_tool_calls limits) turns
  tokens ← reserve Rows.output_tokens (limit_of Limits.max_output_tokens limits) calls
  reserve Rows.cost_microunits (limit_of Limits.max_cost_microunits limits) tokens

-- The writes of an admission.
unfoldable pub create_child :
    Context → ℕ → RunRow → ChildRequest → ChildIds → ℕ → Db → Result (Accepted × Db)
unfolding reserve_limits add_run add_budget add_job log_event
create_child context parent_id parent request ids now db = do
  let child =
      new_child context parent_id parent (child_scopes context parent request.requested_scopes) now
  added ← add_run ids.child_id child db
  funded ← reserve_limits parent_id ids request.limits added
  opened ← add_budget ids.child_id request.limits funded
  queued ← add_job ids.job_id context.tenant_id Rows.advance_run ids.child_id none now opened
  ok (
    record { resource_id = ids.child_id; replayed = false },
    log_event parent_id parent Rows.run_child_accepted queued,
  )

-- The checks of an admission with a new key, then its writes.
unfoldable pub admit_new_child :
    Context → ℕ → RunRow → ℕ → ℕ → ChildRequest → ChildIds → ℕ → Db → Result (Accepted × Db)
unfolding remember create_child count_children
admit_new_child context parent_id parent key fingerprint request ids now db = do
  guard (is_queued parent.status || is_running parent.status) invalid_operation
  guard (ltb parent.child_depth request.max_depth) invalid_operation
  guard (ltb (count_children parent_id db.runs) request.max_children) invalid_operation
  budget ← require (lookup parent_id db.budgets) not_found
  let limit : Limits.LimitKey → Option ℕ = λ k. limit_of k request.limits
  guard (is_none budget.max_cost_microunits || not (is_none (limit Limits.max_cost_microunits)))
      invalid_operation
  guard (fits_wall budget.max_wall_seconds (limit Limits.max_wall_seconds) parent.created_at now)
      invalid_operation
  guard (fits parent_id budget db.reservations Rows.model_turn (limit Limits.max_model_turns))
      budget_exhausted
  guard (fits parent_id budget db.reservations Rows.tool_call (limit Limits.max_tool_calls))
      budget_exhausted
  guard (fits parent_id budget db.reservations Rows.output_tokens (limit Limits.max_output_tokens))
      budget_exhausted
  guard
      (fits parent_id budget db.reservations Rows.cost_microunits
        (limit Limits.max_cost_microunits))
      budget_exhausted
  create_child context parent_id parent request ids now
      (remember context Rows.post_children key fingerprint ids.child_id db)

unfoldable pub child_found :
    Context
    → ℕ
    → RunRow
    → ℕ
    → ℕ
    → ChildRequest
    → ChildIds
    → ℕ
    → Option IdempotencyRow
    → Db
    → Result (Accepted × Db)
unfolding replay admit_new_child
child_found context parent_id parent key fingerprint request ids now (some existing) db =
    replay fingerprint existing db
child_found context parent_id parent key fingerprint request ids now none db =
    admit_new_child context parent_id parent key fingerprint request ids now db

unfoldable pub admit_child_run :
    Context → ℕ → ℕ → ℕ → ChildRequest → ChildIds → ℕ → Db → Result (Accepted × Db)
unfolding find_idempotency child_found
admit_child_run context parent_id key fingerprint request ids now db = do
  guard (not request.blank_goal && ltb 0 request.max_depth && ltb 0 request.max_children)
      invalid_operation
  guard (are_child_limits request.limits) invalid_operation
  parent ← owned_run context parent_id db
  child_found context parent_id parent key fingerprint request ids now
      (find_idempotency context Rows.post_children key db.idempotency) db
