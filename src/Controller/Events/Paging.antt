-- ===== src/Controller/Events/Paging.antt =====
-- Pages of the history (`get_event_history`) and the numbers of the events of a run.
use http_harness.Base.{
  ℕ, zero, suc, ◌+◌, ◌≤◌, ◌≡◌, refl, ap, arith, Bool, true, ◌&&◌, some, List, [], ◌∷◌, ltb,
  if◌then◌else◌,
}
use http_harness.Base.Table.{lookup}
use http_harness.Base.Ensures.{ok, Ensures, Ensures-ok, Ensures-bind, Ensures-guard}
use http_harness.Store.Rows.{Db, RunRow, EventRow, Context}
use http_harness.Store.Trace.EventLog.{seqs, countdown, IsDense}
use http_harness.Controller.Runs.Steps.{owned_run-lookup}
use http_harness.Controller.Events.{
  EventPage, events_after, put_by_seq, take, page_of, get_event_history,
}

-- The numbers of events.
abbrev pub numbers : List EventRow → List ℕ
numbers [] = []
numbers (e ∷ es) = e.seq ∷ numbers es

abbrev snoc : List ℕ → ℕ → List ℕ
snoc [] n = n ∷ []
snoc (m ∷ ms) n = m ∷ snoc ms n

-- `after + 1, …, last`
abbrev pub range : ℕ → ℕ → List ℕ
range after zero = []
range after (suc n) = if ltb after (suc n) then snoc (range after n) (suc n) else []

abbrev pub below : ℕ → List EventRow → Bool
below n [] = true
below n (e ∷ es) = ltb e.seq n && below n es

put_by_seq-below :
    (e : EventRow) (es : List EventRow)
    → below e.seq es ≡ true
    → numbers (put_by_seq e es) ≡ snoc (numbers es) e.seq
unfolding put_by_seq
put_by_seq-below e [] h = refl
put_by_seq-below e (f ∷ es) h = ground (arith, put_by_seq-below e es)

below-put_by_seq :
    (n : ℕ) (e : EventRow) (es : List EventRow)
    → ltb e.seq n ≡ true
    → below n es ≡ true
    → below n (put_by_seq e es) ≡ true
unfolding put_by_seq
below-put_by_seq n e [] lt h = ground arith
below-put_by_seq n e (f ∷ es) lt h = ground (arith, below-put_by_seq n e es lt)

pub below-grows : (m n : ℕ) (es : List EventRow) → m ≤ n → below m es ≡ true → below n es ≡ true
below-grows m n [] le h = refl
below-grows m n (e ∷ es) le h = ground (arith, below-grows m n es le)

-- What a log whose numbers count down gives after a cursor, for one run.
pub events_after-below :
    (id after n : ℕ) (es : List EventRow)
    → seqs id es ≡ countdown n
    → below (suc n) (events_after id after es) ≡ true
unfolding events_after
events_after-below id after n [] h = refl
events_after-below id after zero (e ∷ es) h = ground (arith, events_after-below id after zero es)
events_after-below id after (suc n) (e ∷ es) h = ground (
  arith,
  events_after-below id after (suc n) es,
  events_after-below id after n es,
  below-put_by_seq (suc (suc n)) e (events_after id after es),
  below-grows (suc n) (suc (suc n)) (events_after id after es),
)

range-empty : (after n : ℕ) → n ≤ after → range after n ≡ []
range-empty after zero h = refl
range-empty after (suc n) h = ground arith

events_after-range :
    (id after n : ℕ) (es : List EventRow)
    → seqs id es ≡ countdown n
    → numbers (events_after id after es) ≡ range after n
unfolding events_after
events_after-range id after zero [] h = refl
events_after-range id after (suc n) [] h = absurd (cc)
events_after-range id after zero (e ∷ es) h = ground (arith, events_after-range id after zero es)
events_after-range id after (suc n) (e ∷ es) h = ground (
  arith,
  events_after-range id after (suc n) es,
  events_after-range id after n es,
  events_after-below id after n es,
  put_by_seq-below e (events_after id after es),
  range-empty after n,
)

abbrev pub first_numbers : ℕ → List ℕ → List ℕ
first_numbers zero ns = []
first_numbers (suc n) [] = []
first_numbers (suc n) (m ∷ ms) = m ∷ first_numbers n ms

numbers-take : (n : ℕ) (es : List EventRow) → numbers (take n es) ≡ first_numbers n (numbers es)
unfolding take
numbers-take zero es = refl
numbers-take (suc n) [] = refl
numbers-take (suc n) (e ∷ es) = ap (λ ms. e.seq ∷ ms) (numbers-take n es)

pub take-take : (n : ℕ) (es : List EventRow) → take n (take (suc n) es) ≡ take n es
unfolding take
take-take zero es = refl
take-take (suc n) [] = refl
take-take (suc n) (e ∷ es) = ap (λ fs. e ∷ fs) (take-take n es)

numbers-page_of :
    (limit : ℕ) (es : List EventRow)
    → numbers (page_of limit (take (limit + 1) es)).events ≡ first_numbers limit (numbers es)
unfolding page_of
numbers-page_of limit es = ground (arith, take-take limit es, numbers-take limit es)

page-numbers :
    (context : Context) (id after limit : ℕ) (db : Db)
    → IsDense db.runs db.events
    → Ensures
        (λ page.
          (run : RunRow) × (lookup id db.runs ≡ some run)
          × (numbers page.events ≡ first_numbers limit (range after run.event_seq)))
        (get_event_history context id after limit db)
unfolding get_event_history
page-numbers context id after limit db dense = Ensures-guard _ _ _ _ λ _.
    Ensures-bind _ _ _ λ run owned. Ensures-guard _ _ _ _ λ _. Ensures-guard _ _ _ _ λ _.
      let found = owned_run-lookup context id db run owned in
      let rows = events_after id after db.events in
      let all = events_after-range id after run.event_seq db.events (dense.numbered id run found) in
      Ensures-ok _ _ (run, found, rw (numbers-page_of limit rows) (rw all refl))

-- Where the log is dense, as it is in every reached store, a page of the history holds the events of
-- the run that follow the cursor, without a gap and in order, as many as the limit allows.
pub get_event_history-range :
    (context : Context) (id after limit : ℕ) (db : Db) (page : EventPage)
    → IsDense db.runs db.events
    → get_event_history context id after limit db ≡ ok page
    → (run : RunRow) × (lookup id db.runs ≡ some run)
      × (numbers page.events ≡ first_numbers limit (range after run.event_seq))
get_event_history-range context id after limit db page dense h =
    (page-numbers context id after limit db dense).at page h
