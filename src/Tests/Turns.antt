-- ===== src/Tests/Turns.antt =====
-- The theorems on the turns of the model at a concrete store.
use http_harness.Store.Session.{log_event, owned_run}
use http_harness.Base.{◌≡◌, refl, none, some, [], ◌∷◌, true}
use http_harness.Base.Table.{lookup, insert}
use http_harness.Base.Ensures.{ok, ◌>>=◌}
use http_harness.Store.Rows
use http_harness.Store.Rows.{
  Db, RunRow, ActionRow, AttemptRow, ReservationRow, ModelCallRow, CallStatus,
}
use http_harness.Store.Lease.{require_claimed_run_job, unclaimed}
use http_harness.Controller.ModelCalls.{
  ModelCallWork, begin_model_call, complete_model_call, find_call,
}
use http_harness.Controller.ModelCalls.Turns.{complete_model_call-begin_model_call}
use http_harness.Calls.{Call, perform, run_call}
use http_harness.Tests.Stores.{alice}
use http_harness.Tests.Repeats.{busy_db, call}

-- The same turn before its answer, with an attempt under way.
abbrev open_call : ModelCallRow
open_call = record call { status = CallStatus.started }

abbrev open_db : Db
open_db = record busy_db {
  model_calls = (9, open_call) ∷ [];
  model_attempts =
      (31, record { model_call_id = 9; attempt_no = 1; status = Rows.CallAttemptStatus.started })
      ∷ [];
}

abbrev answered_db : Db
answered_db = perform (Call.complete_model_call 9 31 unclaimed) open_db

answered : complete_model_call 9 31 unclaimed open_db ≡ ok ((9, call), answered_db)
unfolding run_call complete_model_call lookup insert ◌>>=◌
answered = refl

open_turn : find_call open_call.run_id open_call.turn_id open_db.model_calls ≡ some (9, open_call)
unfolding find_call
open_turn = refl

open_at : lookup 9 open_db.model_calls ≡ some open_call
unfolding lookup
open_at = refl

abbrev replayed_work : ModelCallWork
replayed_work = record { call = (9, call); attempt = none; replayed = true }

begun : begin_model_call alice 1 1 3 2 30 32 unclaimed answered_db ≡ ok (replayed_work, answered_db)
unfolding run_call complete_model_call begin_model_call lookup insert ◌>>=◌ require_claimed_run_job
    owned_run log_event
begun = refl

complete_model_call-begin_model_call_example :
    (replayed_work ≡ record { call = (9, call); attempt = none; replayed = true })
    × (answered_db ≡ answered_db)
complete_model_call-begin_model_call_example =
    complete_model_call-begin_model_call 9 31 unclaimed open_call (9, call) alice 3 2 30 32
      unclaimed replayed_work open_db answered_db answered_db open_at open_turn answered begun
