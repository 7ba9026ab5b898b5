-- ===== src/Controller/Events.antt =====
-- `get_event_history` and `get_recent_events` (src/hnh/application/run_controller.py): the events of a
-- run after a cursor, in order and one page at a time, and its latest events.
pub mod Paging
pub mod Recent
use http_harness.Base.{
  ℕ, zero, suc, ◌+◌, Bool, true, false, ◌&&◌, Option, none, some, List, [], ◌∷◌, ltb, leb, ◌==◌,
  if◌then◌else◌, not,
}
use mathlib.Core.List.{◌++◌}
use http_harness.Base.Texts.{length}
use http_harness.Base.Table.{lookup}
use http_harness.Base.Ensures.{Result, ok, ◌>>=◌, ◌>>◌, guard}
use http_harness.Domain.Errors.{value_error, event_cursor_expired, event_cursor_future}
use http_harness.Store.Rows
use http_harness.Store.Rows.{Db, EventRow, Context}
use http_harness.Store.Session.{owned_run}

-- `min(seq)`
abbrev lower : Option ℕ → ℕ → Option ℕ
lower none n = some n
lower (some m) n = some (if ltb m n then m else n)

unfoldable pub first_seq : ℕ → List EventRow → Option ℕ
first_seq id [] = none
first_seq id (e ∷ es) = if e.run_id == id then lower (first_seq id es) e.seq else first_seq id es

unfoldable pub put_by_seq : EventRow → List EventRow → List EventRow
put_by_seq e [] = e ∷ []
put_by_seq e (f ∷ es) =
    let rest = put_by_seq e es in if leb e.seq f.seq then e ∷ f ∷ es else f ∷ rest

-- `WHERE run_id=… AND seq>after ORDER BY seq`
unfoldable pub events_after : ℕ → ℕ → List EventRow → List EventRow
unfolding put_by_seq
events_after id after [] = []
events_after id after (e ∷ es) =
    let rest = events_after id after es in
    if e.run_id == id && ltb after e.seq then put_by_seq e rest else rest

unfoldable pub take : ℕ → List EventRow → List EventRow
take zero es = []
take (suc n) [] = []
take (suc n) (e ∷ es) = e ∷ take n es

unfoldable pub last_seq : List EventRow → Option ℕ
last_seq [] = none
last_seq (e ∷ []) = some e.seq
last_seq (_ ∷ f ∷ es) = last_seq (f ∷ es)

-- `EventPageSnapshot`
pub record EventPage : Type 0 where
  pub events : List EventRow
  pub next_after : Option ℕ

-- Whether the cursor lies before what is kept.
abbrev pub is_expired : Option ℕ → ℕ → ℕ → Bool
is_expired none event_seq after = ltb after event_seq
is_expired (some minimum) event_seq after = ltb (after + 1) minimum

-- `rows[:limit]` of `limit + 1` rows, with the cursor of the next page when one row is left.
unfoldable pub page_of : ℕ → List EventRow → EventPage
unfolding take last_seq
page_of limit rows = record {
  events = take limit rows;
  next_after = if ltb limit (length rows) then last_seq (take limit rows) else none;
}

unfoldable pub get_event_history : Context → ℕ → ℕ → ℕ → Db → Result EventPage
unfolding page_of events_after first_seq
get_event_history context id after limit db = do
  guard (leb 1 limit && leb limit 1000) value_error
  run ← owned_run context id db
  guard (not (is_expired (first_seq id db.events) run.event_seq after)) event_cursor_expired
  guard (leb after run.event_seq) event_cursor_future
  ok (page_of limit (take (limit + 1) (events_after id after db.events)))

-- `ORDER BY seq DESC`
unfoldable pub put_latest : EventRow → List EventRow → List EventRow
put_latest e [] = e ∷ []
put_latest e (f ∷ es) =
    let rest = put_latest e es in if leb f.seq e.seq then e ∷ f ∷ es else f ∷ rest

unfoldable pub latest_first : ℕ → List EventRow → List EventRow
unfolding put_latest
latest_first id [] = []
latest_first id (e ∷ es) =
    let rest = latest_first id es in if e.run_id == id then put_latest e rest else rest

unfoldable pub reversed : List EventRow → List EventRow
reversed [] = []
reversed (e ∷ es) = reversed es ++ e ∷ []

unfoldable pub get_recent_events : Context → ℕ → ℕ → Db → Result (List EventRow)
unfolding latest_first take reversed
get_recent_events context id limit db = do
  guard (leb 1 limit && leb limit 100) value_error
  run ← owned_run context id db
  ok (reversed (take limit (latest_first id db.events)))
