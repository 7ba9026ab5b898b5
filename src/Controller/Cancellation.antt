-- ===== src/Controller/Cancellation.antt =====
-- `request_cancellation` (src/hnh/application/run_controller.py): the intent to cancel a run is
-- committed together with that of every live descendant. `job_ids` gives the id of the job that is
-- added for each run.
pub mod Steps
pub mod Descent
pub mod Reach
use http_harness.Base.{
  ℕ, Bool, true, false, ◌&&◌, ◌||◌, Option, none, some, List, [], ◌∷◌, ltb, leb, ◌==◌,
  if◌then◌else◌, is_none, not, member,
}
use http_harness.Base.Table.{Table, lookup}
use http_harness.Base.Ensures.{Result, ok, ◌>>=◌, ◌>>◌, when◌then◌otherwise◌, guard, require}
use http_harness.Domain.Errors.{not_found, already_terminal}
use http_harness.Domain.States.{RunStatus, is_terminal, is_cancelling, require_run_transition}
use http_harness.Store.Rows
use http_harness.Store.Rows.{Db, RunRow, Context, IdempotencyRow}
use http_harness.Store.Session.{owns_run, owned_run, log_event, add_job, cancel_open_actions}
use http_harness.Controller.Runs.{moved_to}
use http_harness.Controller.Admission.{Accepted, find_idempotency, remember, replay}

-- `ORDER BY child_depth, id`
abbrev comes_before : ℕ × RunRow → ℕ × RunRow → Bool
comes_before (j, a) (k, b) =
    ltb a.child_depth b.child_depth || a.child_depth == b.child_depth && leb j k

unfoldable pub put_in_order : ℕ × RunRow → Table RunRow → Table RunRow
put_in_order row [] = row ∷ []
put_in_order row (other ∷ t) =
    let rest = put_in_order row t in
    if comes_before row other then row ∷ other ∷ t else other ∷ rest

-- The runs of the subject that have a parent, the shallow ones first.
unfoldable pub descendants : Context → Table RunRow → Table RunRow
unfolding put_in_order
descendants context [] = []
descendants context ((k, r) ∷ t) =
    let rest = descendants context t in
    if owns_run context r && not (is_none r.parent_run_id) then put_in_order (k, r) rest else rest

-- The status change, the cancellation of what was not dispatched, the event and the job.
unfoldable pub start_cancelling : ℕ → RunRow → ℕ → ℕ → Db → Result Db
start_cancelling id run job_id now db = do
  require_run_transition run.status RunStatus.cancelling
  add_job job_id run.tenant_id Rows.cancel_run id none now (
      log_event id (moved_to RunStatus.cancelling run) Rows.run_cancellation_requested
        (cancel_open_actions id db))

-- `child.parent_run_id in pending`
abbrev pub is_pending : List ℕ → RunRow → Bool
is_pending pending run = elim (run.parent_run_id) [ none ↦ false | some p ↦ member p pending ]

-- One turn of the loop over the descendants. The session's object for a row is the row as the
-- transaction has left it.
unfoldable pub visit : (ℕ → ℕ) → ℕ → List ℕ → ℕ → Db → Result (List ℕ × Db)
unfolding start_cancelling
visit job_ids now pending id db = do
  child ← require (lookup id db.runs) not_found
  when is_pending pending child
      then (when is_terminal child.status || is_cancelling child.status
          then ok (id ∷ pending, db)
          otherwise do
            moved ← start_cancelling id child (job_ids id) now db
            ok (id ∷ pending, moved))
      otherwise ok (pending, db)

unfoldable pub propagate : (ℕ → ℕ) → ℕ → List ℕ → Table RunRow → Db → Result Db
unfolding visit
propagate job_ids now pending [] db = ok db
propagate job_ids now pending ((id, _) ∷ t) db = do
  (seen, moved) ← visit job_ids now pending id db
  propagate job_ids now seen t moved

-- A request with a new key.
unfoldable pub cancel_run_tree : Context → ℕ → RunRow → (ℕ → ℕ) → ℕ → Db → Result (Accepted × Db)
unfolding start_cancelling propagate
cancel_run_tree context id run job_ids now db = do
  guard (not (is_terminal run.status)) already_terminal
  let accepted : Accepted = record { resource_id = id; replayed = false }
  when is_cancelling run.status then ok (accepted, db) otherwise do
    moved ← start_cancelling id run (job_ids id) now db
    all ← propagate job_ids now (id ∷ []) (descendants context moved.runs) moved
    ok (accepted, all)

unfoldable pub cancellation_found :
    Context → ℕ → RunRow → ℕ → ℕ → (ℕ → ℕ) → ℕ → Option IdempotencyRow → Db → Result (Accepted × Db)
unfolding replay remember cancel_run_tree
cancellation_found context id run key fingerprint job_ids now (some existing) db =
    replay fingerprint existing db
cancellation_found context id run key fingerprint job_ids now none db =
    cancel_run_tree context id run job_ids now
      (remember context Rows.post_cancellations key fingerprint id db)

unfoldable pub request_cancellation :
    Context → ℕ → ℕ → ℕ → (ℕ → ℕ) → ℕ → Db → Result (Accepted × Db)
unfolding find_idempotency cancellation_found
request_cancellation context id key fingerprint job_ids now db = do
  run ← owned_run context id db
  cancellation_found context id run key fingerprint job_ids now
      (find_idempotency context Rows.post_cancellations key db.idempotency) db
