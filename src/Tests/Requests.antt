-- ===== src/Tests/Requests.antt =====
-- The theorems on requests, budgets, events and children at concrete stores.
use http_harness.Store.Funding.Sums.{active}
use http_harness.Store.Funding.{is_supported, maximum, used}
use http_harness.Base.{◌-◌, ◌≡◌, refl, none, some, [], ◌∷◌, false}
use http_harness.Base.Table.{lookup, insert}
use http_harness.Base.Ensures.{ok, err, ◌>>=◌}
use http_harness.Domain.Errors.{idempotency_conflict}
use http_harness.Store.Rows
use http_harness.Store.Rows.{Db, RunRow, ActionRow, Context, ReservationRow}
use http_harness.Store.Lease.{require_claimed_run_job, unclaimed}
use http_harness.Store.Session.{owned_run}
use http_harness.Controller.Admission
use http_harness.Controller.Admission.{Accepted, admit_run}
use http_harness.Controller.Admission.Wakes.{IsQueued, admit_run-IsQueued}
use http_harness.Controller.Admission.Replays.{admit_run-again}
use http_harness.Controller.Budget
use http_harness.Controller.Budget.{reserve_budget, new_reservation}
use http_harness.Controller.Budget.Once.{reserve_budget-again}
use http_harness.Controller.Children.{ChildRequest, ChildIds, admit_child_run}
use http_harness.Controller.Children.Authority.{IsChild, admit_child_run-IsChild}
use http_harness.Controller.Events.{EventPage, get_event_history, get_recent_events}
use http_harness.Controller.Events.Recent.{get_recent_events-get_event_history}
use http_harness.Controller.Events.Paging.{get_event_history-range, numbers, first_numbers, range}
use http_harness.Controller.Limits
use http_harness.Calls.{Call, Reaches, empty, perform, run_call}
use http_harness.Calls.Lifecycle.{Reaches-IsDense}
use http_harness.Tests.Stores.{alice, limits, admission, admitted_db, queued_run}

-- The first request, answered.
abbrev accepted : Accepted
accepted = record { resource_id = 1; replayed = false }

answered : admit_run alice limits 11 55 1 2 100 (empty 100) ≡ ok (accepted, admitted_db)
unfolding run_call Admission.admit_run lookup insert ◌>>=◌
answered = refl

admit_run-again_example :
    admit_run alice limits 11 56 30 31 101 admitted_db ≡ err idempotency_conflict
admit_run-again_example =
    admit_run-again alice limits limits 11 55 56 1 2 100 30 31 101 accepted (empty 100) admitted_db
      answered

abbrev reserved_db : Db
reserved_db =
    perform (Call.reserve_budget 20 1 (Rows.ReservationKey.caller 3) Rows.model_turn 2 unclaimed)
      admitted_db

abbrev reservation : ReservationRow
reservation = new_reservation 1 (Rows.ReservationKey.caller 3) Rows.model_turn 2

reserved :
    reserve_budget 20 1 (Rows.ReservationKey.caller 3) Rows.model_turn 2 unclaimed admitted_db
    ≡ ok ((20, reservation), reserved_db)
unfolding run_call Admission.admit_run lookup insert ◌>>=◌ reserve_budget is_supported
    require_claimed_run_job Budget.find_reservation maximum Limits.limit_of used active
reserved = refl

reserve_budget-again_example :
    reserve_budget 21 1 (Rows.ReservationKey.caller 3) Rows.model_turn 2 unclaimed reserved_db
    ≡ ok ((20, reservation), reserved_db)
reserve_budget-again_example =
    reserve_budget-again 20 21 1 (Rows.ReservationKey.caller 3) Rows.model_turn 2 unclaimed
      (20, reservation) admitted_db reserved_db reserved

abbrev page : EventPage
page = record {
  events = (record { run_id = 1; seq = 1; event_type = Rows.run_accepted }) ∷ [];
  next_after = none;
}

first_page : get_event_history alice 1 0 2 admitted_db ≡ ok page
unfolding run_call Admission.admit_run lookup insert ◌>>=◌ get_event_history owned_run
first_page = refl

get_event_history-range_example :
    (run : RunRow) × (lookup 1 admitted_db.runs ≡ some run)
    × (numbers page.events ≡ first_numbers 2 (range 0 run.event_seq))
get_event_history-range_example =
    get_event_history-range alice 1 0 2 admitted_db page
      (Reaches-IsDense 100 admitted_db (Reaches.after Reaches.here admission)) first_page

get_recent_events-get_event_history_example :
    (page : EventPage) × (get_event_history alice 1 (queued_run.event_seq - 2) 2 admitted_db
      ≡ ok page)
    × (get_recent_events alice 1 2 admitted_db ≡ ok page.events)
    × (page.next_after ≡ none)
unfolding run_call Admission.admit_run lookup insert ◌>>=◌ owned_run
get_recent_events-get_event_history_example =
    get_recent_events-get_event_history alice 1 2 queued_run admitted_db
      (Reaches-IsDense 100 admitted_db (Reaches.after Reaches.here admission)) refl refl refl

abbrev request : ChildRequest
request = record {
  blank_goal = false;
  requested_scopes = 7 ∷ 9 ∷ [];
  limits =
      (Limits.max_model_turns, 2)
      ∷ (Limits.max_tool_calls, 1)
      ∷ (Limits.max_output_tokens, 100)
      ∷ [];
  max_depth = 2;
  max_children = 4;
}

abbrev ids : ChildIds
ids = record {
  child_id = 40;
  job_id = 41;
  reservation_ids = λ d. elim d [
    | Rows.model_turn ↦ 42
    | Rows.tool_call ↦ 43
    | Rows.output_tokens ↦ 44
    | Rows.cost_microunits ↦ 45
    | Rows.unsupported ↦ 46
  ];
}

abbrev family_db : Db
family_db = perform (Call.admit_child_run alice 1 12 57 request ids 105) admitted_db

abbrev child_accepted : Accepted
child_accepted = record { resource_id = 40; replayed = false }

adopted : admit_child_run alice 1 12 57 request ids 105 admitted_db ≡ ok (child_accepted, family_db)
unfolding run_call Admission.admit_run lookup insert ◌>>=◌ admit_child_run Limits.are_child_limits
    owned_run maximum used active
adopted = refl

admit_child_run-IsChild_example : IsChild alice 1 request admitted_db 40 family_db
admit_child_run-IsChild_example =
    admit_child_run-IsChild alice 1 12 57 request ids 105 child_accepted admitted_db family_db
      adopted refl

admit_run-IsQueued_example : (accepted.resource_id ≡ 1) × IsQueued alice 1 2 100 admitted_db
admit_run-IsQueued_example =
    admit_run-IsQueued alice limits 11 55 1 2 100 accepted (empty 100) admitted_db answered refl
