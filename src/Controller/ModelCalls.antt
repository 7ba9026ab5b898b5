-- ===== src/Controller/ModelCalls.antt =====
-- The record of the model's turns (src/hnh/application/run_controller.py): a call is begun, its
-- response committed before it is acted on, and it is marked when its output was used or refused.
pub mod Steps
pub mod Turns
use http_harness.Base.{
  ℕ, ◌+◌, Bool, true, false, ◌&&◌, Option, none, some, [], ◌∷◌, ltb, ◌==◌, if◌then◌else◌, is_none,
  not,
}
use http_harness.Base.Table.{Table, lookup, insert}
use http_harness.Base.Ensures.{Result, ok, ◌>>=◌, ◌>>◌, when◌then◌otherwise◌, guard, require}
use http_harness.Domain.Errors.{
  not_found, version_conflict, value_error, idempotency_conflict, integrity_error, already_terminal,
}
use http_harness.Domain.States.{is_running}
use http_harness.Store.Rows
use http_harness.Store.Rows.{Db, RunRow, Context, ModelCallRow, CallAttemptRow, CallStatus}
use http_harness.Store.Session.{owned_run, log_event}
use http_harness.Store.Lease.{Claim, ClaimedJob, require_claimed_run_job}

abbrev pub same_call_status : CallStatus → CallStatus → Bool
same_call_status CallStatus.started CallStatus.started = true
same_call_status Rows.response_committed Rows.response_committed = true
same_call_status Rows.invalid Rows.invalid = true
same_call_status Rows.processed Rows.processed = true
same_call_status _ _ = false

-- `ModelCallWork`: the call with its id, the id and the number of the attempt, and the replay flag.
pub record ModelCallWork : Type 0 where
  pub call : ℕ × ModelCallRow
  pub attempt : Option (ℕ × ℕ)
  pub replayed : Bool

-- `WHERE run_id=… AND turn_id=…`
unfoldable pub find_call : ℕ → ℕ → Table ModelCallRow → Option (ℕ × ModelCallRow)
find_call run_id turn_id [] = none
find_call run_id turn_id ((k, r) ∷ t) =
    if r.run_id == run_id && r.turn_id == turn_id then some (k, r) else find_call run_id turn_id t

-- `SELECT count(*) … WHERE model_call_id=…`
unfoldable pub count_attempts : ℕ → Table CallAttemptRow → ℕ
count_attempts id [] = 0
count_attempts id ((_, a) ∷ t) = (if a.model_call_id == id then 1 else 0) + count_attempts id t

-- Adds an attempt, and logs that a call was started.
unfoldable pub start_call : ℕ → RunRow → ℕ × ModelCallRow → ℕ → ℕ → Db → Result (ModelCallWork × Db)
start_call run_id run (id, call) attempt_id attempt_no db = do
  guard (is_none (lookup attempt_id db.model_attempts)) integrity_error
  let attempt : CallAttemptRow = record {
    model_call_id = id;
    attempt_no = attempt_no;
    status = Rows.CallAttemptStatus.started;
  }
  ok (
    record { call = (id, call); attempt = some (attempt_id, attempt_no); replayed = false },
    log_event run_id run Rows.model_call_started
        (record db { model_attempts = insert attempt_id attempt db.model_attempts }),
  )

-- A turn that has no call, one whose call is still started, and one whose response is committed.
unfoldable pub call_found :
    ℕ → RunRow → ℕ → ℕ → ℕ → ℕ → ℕ → Option (ℕ × ModelCallRow) → Db → Result (ModelCallWork × Db)
unfolding start_call count_attempts
call_found run_id run turn_id provider revision call_id attempt_id none db = do
  guard (is_none (lookup call_id db.model_calls)) integrity_error
  let call : ModelCallRow = record {
    run_id = run_id;
    turn_id = turn_id;
    provider = provider;
    model_revision = revision;
    status = CallStatus.started;
  }
  start_call run_id run (call_id, call) attempt_id 1
      (record db { model_calls = insert call_id call db.model_calls })
call_found run_id run turn_id provider revision call_id attempt_id (some (id, call)) db =
    when same_call_status call.status CallStatus.started
    then (do
      guard (call.provider == provider && call.model_revision == revision) idempotency_conflict
      start_call run_id run (id, call) attempt_id (count_attempts id db.model_attempts + 1) db)
    otherwise ok (record { call = (id, call); attempt = none; replayed = true }, db)

unfoldable pub begin_model_call :
    Context → ℕ → ℕ → ℕ → ℕ → ℕ → ℕ → Claim → Db → Result (ModelCallWork × Db)
unfolding find_call call_found
begin_model_call context run_id turn_id provider revision call_id attempt_id claim db = do
  require_claimed_run_job claim run_id db
  run ← owned_run context run_id db
  guard (is_running run.status) already_terminal
  call_found run_id run turn_id provider revision call_id attempt_id
      (find_call run_id turn_id db.model_calls) db

-- `if claimed_job is not None`: the fence of the call's run.
unfoldable pub call_fence : Option ClaimedJob → Claim → ℕ → Db → Result (Unit {0})
call_fence none claim id db = ok tt
call_fence (some _) claim id db = do
  call ← require (lookup id db.model_calls) not_found
  require_claimed_run_job claim call.run_id db

abbrev pub call_moved : CallStatus → ModelCallRow → ModelCallRow
call_moved status call = record call { status = status }

abbrev attempt_moved : Rows.CallAttemptStatus → CallAttemptRow → CallAttemptRow
attempt_moved status attempt = record attempt { status = status }

unfoldable pub complete_model_call : ℕ → ℕ → Claim → Db → Result ((ℕ × ModelCallRow) × Db)
unfolding call_fence
complete_model_call id attempt_id claim db = do
  call_fence claim.claimed_job claim id db
  call ← require (lookup id db.model_calls) not_found
  when same_call_status call.status CallStatus.started
      then (do
        attempt ← require (lookup attempt_id db.model_attempts) not_found
        guard (attempt.model_call_id == id) not_found
        run ← require (lookup call.run_id db.runs) not_found
        let done = call_moved Rows.response_committed call
        ok (
          (id, done),
          log_event call.run_id run Rows.model_response_committed (record db {
            model_calls = insert id done db.model_calls;
            model_attempts =
                insert attempt_id (attempt_moved Rows.completed attempt) db.model_attempts;
          }),
        ))
      otherwise ok ((id, call), db)

unfoldable pub fail_model_call_attempt : ℕ → ℕ → Claim → Db → Result (Unit {0} × Db)
unfolding call_fence
fail_model_call_attempt id attempt_id claim db = do
  call_fence claim.claimed_job claim id db
  call ← require (lookup id db.model_calls) not_found
  attempt ← require (lookup attempt_id db.model_attempts) not_found
  ok (
    tt,
    record db {
      model_attempts =
          insert attempt_id (attempt_moved Rows.CallAttemptStatus.failed attempt) db.model_attempts;
    },
  )

abbrev is_mark : CallStatus → Bool
is_mark Rows.invalid = true
is_mark Rows.processed = true
is_mark _ = false

abbrev mark_event : CallStatus → Rows.EventType
mark_event Rows.invalid = Rows.EventType.model_output_invalid
mark_event _ = Rows.model_turn_processed

unfoldable pub mark_model_call : ℕ → CallStatus → Claim → Db → Result ((ℕ × ModelCallRow) × Db)
unfolding call_fence
mark_model_call id status claim db = do
  guard (is_mark status) value_error
  call_fence claim.claimed_job claim id db
  call ← require (lookup id db.model_calls) not_found
  when same_call_status call.status status then ok ((id, call), db) otherwise do
    guard (same_call_status call.status Rows.response_committed) version_conflict
    run ← require (lookup call.run_id db.runs) not_found
    ok (
      (id, call_moved status call),
      log_event call.run_id run (mark_event status)
          (record db { model_calls = insert id (call_moved status call) db.model_calls }),
    )

-- `coalesce(max(turn_id), 0)`
unfoldable pub last_turn : ℕ → Table ModelCallRow → ℕ
last_turn run_id [] = 0
last_turn run_id ((_, r) ∷ t) =
    let rest = last_turn run_id t in
    if r.run_id == run_id && ltb rest r.turn_id then r.turn_id else rest

unfoldable pub next_turn_id : Context → ℕ → Db → Result ℕ
unfolding last_turn
next_turn_id context run_id db = do
  run ← owned_run context run_id db
  ok (last_turn run_id db.model_calls + 1)
