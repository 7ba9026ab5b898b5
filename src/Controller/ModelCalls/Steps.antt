-- ===== src/Controller/ModelCalls/Steps.antt =====
-- The operations on model calls as steps of the store.
use http_harness.Base.{ℕ, ◌≡◌, Option, none, some}
use http_harness.Base.Table.{Table, lookup}
use http_harness.Base.Grows.{Grows-refl}
use http_harness.Base.Ensures.{
  Ensures, Ensures-ok, Ensures-bind, Ensures-guard, Ensures-require, Ensures-when,
}
use http_harness.Store.Rows
use http_harness.Store.Rows.{
  Db, RunRow, Context, ModelCallRow, CallAttemptRow, CallStatus, EventType,
}
use http_harness.Store.Session.{log_event}
use http_harness.Store.Lease.{Claim}
use http_harness.Store.Trace.{Trace}
use http_harness.Store.Step.{Step, Step-refl, Step-trans, Commits}
use http_harness.Store.Step.Moves.{Bound-refl, Leased-refl}
use http_harness.Controller.Runs.Steps.{noted, owned_run-lookup}
use http_harness.Controller.ModelCalls.{
  start_call, call_found, begin_model_call, complete_model_call, fail_model_call_attempt,
  mark_model_call,
}

-- A write to nothing but the calls and their attempts.
calls-Step :
    (db : Db) (calls : Table ModelCallRow) (attempts : Table CallAttemptRow)
    → Step db (record db { model_calls = calls; model_attempts = attempts })
calls-Step db calls attempts = record {
  trace = Trace.here;
  funded = λ h. h;
  bound = Grows-refl Bound-refl db.actions;
  leased = λ u. (u, Grows-refl Leased-refl db.jobs);
}

-- The same, then an event.
noted_call :
    (run_id : ℕ) (run : RunRow) (type : EventType) (db : Db) (calls : Table ModelCallRow)
    (attempts : Table CallAttemptRow)
    → lookup run_id db.runs ≡ some run
    → Step db
        (log_event run_id run type (record db { model_calls = calls; model_attempts = attempts }))
noted_call run_id run type db calls attempts found =
    let written = record db { model_calls = calls; model_attempts = attempts } in
    Step-trans db written _ (calls-Step db calls attempts) (noted run_id run written found type)

start_call-Step :
    (run_id : ℕ) (run : RunRow) (id : ℕ) (call : ModelCallRow) (attempt_id attempt_no : ℕ) (db : Db)
    → lookup run_id db.runs ≡ some run
    → Ensures (Commits db) (start_call run_id run (id, call) attempt_id attempt_no db)
unfolding start_call
start_call-Step run_id run id call attempt_id attempt_no db found =
    Ensures-guard _ _ _ _
      λ _. Ensures-ok _ _ (noted_call run_id run Rows.model_call_started db db.model_calls _ found)

call_found-Step :
    (run_id : ℕ) (run : RunRow) (turn_id provider revision call_id attempt_id : ℕ)
    (existing : Option (ℕ × ModelCallRow)) (db : Db)
    → lookup run_id db.runs ≡ some run
    → Ensures
        (Commits db)
        (call_found run_id run turn_id provider revision call_id attempt_id existing db)
unfolding call_found start_call
call_found-Step run_id run turn_id provider revision call_id attempt_id none db found =
    Ensures-guard _ _ _ _ λ _.
      Ensures-guard _ _ _ _
        λ _. Ensures-ok _ _ (noted_call run_id run Rows.model_call_started db _ _ found)
call_found-Step run_id run turn_id provider revision call_id attempt_id (some (id, call)) db found =
    Ensures-when _ _ _ _
      (λ _. Ensures-guard _ _ _ _ λ _. start_call-Step run_id run id call attempt_id _ db found)
      (λ _. Ensures-ok _ _ (Step-refl db))

pub begin_model_call-Step :
    (context : Context) (run_id turn_id provider revision call_id attempt_id : ℕ) (claim : Claim)
    (db : Db)
    → Ensures
        (Commits db)
        (begin_model_call context run_id turn_id provider revision call_id attempt_id claim db)
unfolding begin_model_call
begin_model_call-Step context run_id turn_id provider revision call_id attempt_id claim db =
    Ensures-bind _ _ _ λ _ _. Ensures-bind _ _ _ λ run owned. Ensures-guard _ _ _ _ λ _.
      call_found-Step run_id run turn_id provider revision call_id attempt_id _ db
        (owned_run-lookup context run_id db run owned)

pub complete_model_call-Step :
    (id attempt_id : ℕ) (claim : Claim) (db : Db)
    → Ensures (Commits db) (complete_model_call id attempt_id claim db)
unfolding complete_model_call
complete_model_call-Step id attempt_id claim db = Ensures-bind _ _ _ λ _ _.
    Ensures-require _ _ _ _ λ call _.
      Ensures-when _ _ _ _
        (λ _. Ensures-require _ _ _ _ λ attempt _. Ensures-guard _ _ _ _ λ _.
          Ensures-require _ _ _ _ λ run found.
            Ensures-ok _ _ (noted_call call.run_id run Rows.model_response_committed db _ _ found))
        (λ _. Ensures-ok _ _ (Step-refl db))

pub fail_model_call_attempt-Step :
    (id attempt_id : ℕ) (claim : Claim) (db : Db)
    → Ensures (Commits db) (fail_model_call_attempt id attempt_id claim db)
unfolding fail_model_call_attempt
fail_model_call_attempt-Step id attempt_id claim db = Ensures-bind _ _ _ λ _ _.
    Ensures-require _ _ _ _
      λ call _. Ensures-require _ _ _ _ λ attempt _. Ensures-ok _ _ (calls-Step db db.model_calls _)

pub mark_model_call-Step :
    (id : ℕ) (status : CallStatus) (claim : Claim) (db : Db)
    → Ensures (Commits db) (mark_model_call id status claim db)
unfolding mark_model_call
mark_model_call-Step id status claim db = Ensures-guard _ _ _ _ λ _. Ensures-bind _ _ _ λ _ _.
    Ensures-require _ _ _ _ λ call _.
      Ensures-when _ _ _ _ (λ _. Ensures-ok _ _ (Step-refl db))
        (λ _. Ensures-guard _ _ _ _ λ _.
          Ensures-require _ _ _ _
            λ run found. Ensures-ok _ _ (noted_call call.run_id run _ db _ db.model_attempts found))
