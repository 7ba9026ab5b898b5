-- ===== src/Controller/Events/Recent.antt =====
-- The latest events of a run (`get_recent_events`) and the pages of its history.
use http_harness.Base.{
  ℕ, zero, suc, ◌+◌, ◌-◌, ◌≤◌, ◌≡◌, refl, ap, ◌∙◌, arith, true, not, none, some, List, [], ◌∷◌, ltb,
  leb,
}
use mathlib.Core.List.{◌++◌}
use http_harness.Base.Texts.{length}
use http_harness.Base.Ensures.{ok, ◌>>=◌, guard}
use http_harness.Store.Rows.{Db, RunRow, EventRow, Context}
use http_harness.Store.Session.{owned_run}
use http_harness.Store.Trace.EventLog.{seqs, countdown, IsDense}
use http_harness.Controller.Runs.Steps.{owned_run-lookup}
use http_harness.Controller.Events
use http_harness.Controller.Events.{
  EventPage, events_after, put_by_seq, put_latest, latest_first, reversed, first_seq, last_seq,
  take, page_of, get_event_history, get_recent_events,
}
use http_harness.Controller.Events.Paging.{below, below-grows, events_after-below}

put_by_seq-last :
    (e : EventRow) (es : List EventRow) → below e.seq es ≡ true → put_by_seq e es ≡ es ++ e ∷ []
unfolding put_by_seq
put_by_seq-last e [] h = refl
put_by_seq-last e (f ∷ es) h = ground (arith, put_by_seq-last e es)

put_latest-first :
    (e : EventRow) (es : List EventRow) → below e.seq es ≡ true → put_latest e es ≡ e ∷ es
unfolding put_latest
put_latest-first e [] h = refl
put_latest-first e (f ∷ es) h = ground arith

below-put_latest :
    (n : ℕ) (e : EventRow) (es : List EventRow)
    → ltb e.seq n ≡ true
    → below n es ≡ true
    → below n (put_latest e es) ≡ true
unfolding put_latest
below-put_latest n e [] lt h = ground arith
below-put_latest n e (f ∷ es) lt h = ground (arith, below-put_latest n e es lt)

latest_first-below :
    (id n : ℕ) (es : List EventRow)
    → seqs id es ≡ countdown n
    → below (suc n) (latest_first id es) ≡ true
unfolding latest_first
latest_first-below id n [] h = refl
latest_first-below id zero (e ∷ es) h = ground (arith, latest_first-below id zero es)
latest_first-below id (suc n) (e ∷ es) h = ground (
  arith,
  latest_first-below id (suc n) es,
  latest_first-below id n es,
  below-put_latest (suc (suc n)) e (latest_first id es),
  below-grows (suc n) (suc (suc n)) (latest_first id es),
)

events_after-none :
    (id after n : ℕ) (es : List EventRow)
    → n ≤ after
    → seqs id es ≡ countdown n
    → events_after id after es ≡ []
unfolding events_after
events_after-none id after n [] le h = refl
events_after-none id after zero (e ∷ es) le h = ground (arith, events_after-none id after zero es)
events_after-none id after (suc n) (e ∷ es) le h =
    ground (arith, events_after-none id after (suc n) es, events_after-none id after n es)

first_seq-zero : (id : ℕ) (es : List EventRow) → seqs id es ≡ [] → first_seq id es ≡ none
unfolding first_seq
first_seq-zero id [] h = refl
first_seq-zero id (e ∷ es) h = ground (arith, first_seq-zero id es)

first_seq-one :
    (id n : ℕ) (es : List EventRow) → seqs id es ≡ countdown (suc n) → first_seq id es ≡ some 1
unfolding first_seq
first_seq-one id n [] h = absurd (cc)
first_seq-one id zero (e ∷ es) h = ground (arith, first_seq-one id zero es, first_seq-zero id es)
first_seq-one id (suc n) (e ∷ es) h =
    ground (arith, first_seq-one id (suc n) es, first_seq-one id n es)

-- What follows a cursor `k` events before the end is the `k` latest events.
events_after-latest_first :
    (id n k : ℕ) (es : List EventRow)
    → seqs id es ≡ countdown n
    → events_after id (n - k) es ≡ reversed (take k (latest_first id es))
unfolding events_after latest_first reversed take
events_after-latest_first id n zero es h = events_after-none id (n - zero) n es (omega arith) h
events_after-latest_first id n (suc k) [] h = refl
events_after-latest_first id zero (suc k) (e ∷ es) h =
    ground (arith, events_after-latest_first id zero (suc k) es)
events_after-latest_first id (suc n) (suc k) (e ∷ es) h = ground (
  arith,
  events_after-latest_first id (suc n) (suc k) es,
  events_after-latest_first id n k es,
  events_after-below id (n - k) n es,
  latest_first-below id n es,
  put_by_seq-last e (events_after id (n - k) es),
  put_latest-first e (latest_first id es),
)

length-reversed : (es : List EventRow) → length (reversed es) ≡ length es
unfolding reversed
length-reversed [] = refl
length-reversed (e ∷ es) = length_snoc (reversed es) ∙ ap suc (length-reversed es)
  where
    length_snoc : (fs : List EventRow) → length (fs ++ e ∷ []) ≡ suc (length fs)
    length_snoc [] = refl
    length_snoc (f ∷ fs) = ap suc (length_snoc fs)

length-take : (n : ℕ) (es : List EventRow) → length (take n es) ≤ n
unfolding take
length-take zero es = omega arith
length-take (suc n) [] = omega arith
length-take (suc n) (e ∷ es) = omega (arith, length-take n es)

take_all : (n : ℕ) (es : List EventRow) → length es ≤ n → take n es ≡ es
unfolding take
take_all zero [] h = refl
take_all zero (e ∷ es) h = absurd (omega (arith, h))
take_all (suc n) [] h = refl
take_all (suc n) (e ∷ es) h = ap (λ fs. e ∷ fs) (take_all n es (omega (arith, h)))

page_of-whole :
    (limit : ℕ) (es : List EventRow)
    → length es ≤ limit
    → page_of limit (take (limit + 1) es) ≡ record { events = es; next_after = none }
unfolding page_of
page_of-whole limit es h =
    rw (take_all (limit + 1) es (omega (arith, h)), take_all limit es h) (ground arith)

-- In a dense log no cursor has expired.
first_seq-kept :
    (id n after : ℕ) (es : List EventRow)
    → seqs id es ≡ countdown n
    → after ≤ n
    → not (Events.is_expired (first_seq id es) n after) ≡ true
first_seq-kept id zero after es h le = rw (first_seq-zero id es h) (ground arith)
first_seq-kept id (suc n) after es h le = rw (first_seq-one id n es h) (ground arith)

-- Where the log is dense, as it is in every reached store, the recent events of a run are the last page
-- of its history: the page after the cursor that lies the limit before the end, or at the start of a
-- shorter history, is returned, has no further page, and holds just these events in this order.
pub get_recent_events-get_event_history :
    (context : Context) (id limit : ℕ) (run : RunRow) (db : Db)
    → IsDense db.runs db.events
    → owned_run context id db ≡ ok run
    → leb 1 limit ≡ true
    → leb limit 100 ≡ true
    → (page : EventPage) × (get_event_history context id (run.event_seq - limit) limit db ≡ ok page)
      × (get_recent_events context id limit db ≡ ok page.events)
      × (page.next_after ≡ none)
unfolding get_event_history get_recent_events ◌>>=◌ guard
get_recent_events-get_event_history context id limit run db dense owned least most =
    let numbered = dense.numbered id run (owned_run-lookup context id db run owned) in
    let latest = reversed (take limit (latest_first id db.events)) in
    let after = events_after-latest_first id run.event_seq limit db.events numbered in
    let short : length latest ≤ limit = omega (
      arith,
      length-reversed (take limit (latest_first id db.events)),
      length-take limit (latest_first id db.events),
    ) in
    let kept =
      first_seq-kept id run.event_seq (run.event_seq - limit) db.events numbered (omega arith) in
    let bound : leb limit 1000 ≡ true = ground arith in
    let before_end : leb (run.event_seq - limit) run.event_seq ≡ true = ground arith in
    (
      record { events = latest; next_after = none },
      rw (least, bound, owned, kept, before_end, after, page_of-whole limit latest short) refl,
      rw (least, most, owned) refl,
      refl,
    )
