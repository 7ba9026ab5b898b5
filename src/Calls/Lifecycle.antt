-- ===== src/Calls/Lifecycle.antt =====
-- Runs and the event log through sequences of calls.
use http_harness.Base.{ℕ, ◌-◌, ◌≡◌, refl, true, some, List, ◌∷◌}
use http_harness.Base.Table.{Table, lookup}
use http_harness.Domain.States.{is_terminal}
use http_harness.Domain.Transitions.{Follows-is_terminal}
use http_harness.Store.Rows.{Db, RunRow, EventRow}
use http_harness.Store.Trace.{Trace, Edit}
use http_harness.Store.Trace.Lifecycle.{Trace-Grows}
use http_harness.Store.Trace.Invariants.{IsOrphanFree, Trace-IsOrphanFree}
use http_harness.Store.Trace.EventLog.{IsDense, Trace-IsDense}
use http_harness.Calls.{Reaches, empty}
use http_harness.Calls.Reach.{Reaches-Step}

-- A run is never removed, and whatever sequence of calls follows, its status moves along edges of
-- `RUN_TRANSITIONS`, at most one for each event that was logged of the run meanwhile, its owner,
-- scopes, parent and depth stay, pinned skills stay pinned, and its version and its event number do
-- not fall.
pub Reaches-Edit :
    {db db' : Db} (id : ℕ) (run : RunRow)
    → Reaches db db'
    → lookup id db.runs ≡ some run
    → (later : RunRow) × (lookup id db'.runs ≡ some later)
      × Edit (later.event_seq - run.event_seq) run later
Reaches-Edit id run r found = (Trace-Grows ((Reaches-Step r).trace)).at id run found

-- A run that is in a terminal status is in the same status after any sequence of calls.
pub Reaches-is_terminal :
    {db db' : Db} (id : ℕ) (run : RunRow)
    → Reaches db db'
    → lookup id db.runs ≡ some run
    → is_terminal run.status ≡ true
    → (later : RunRow) × (lookup id db'.runs ≡ some later) × (later.status ≡ run.status)
Reaches-is_terminal id run r found ends =
    let (later, at, edit) = Reaches-Edit id run r found in
    (later, at, Follows-is_terminal edit.follows ends)

-- In every store reached from the empty one, the parent of a run exists, and where it is terminal
-- the run is terminal too: no run is left behind by its parent.
pub Reaches-IsOrphanFree : (now : ℕ) (db : Db) → Reaches (empty now) db → IsOrphanFree db.runs
unfolding lookup
Reaches-IsOrphanFree now db r = Trace-IsOrphanFree ((Reaches-Step r).trace) (record {
  parents = λ c p child h e. absurd (cc);
  ended = λ c p child parent h e g t. absurd (cc);
})

-- In every store reached from the empty one, the events of a run are numbered 1, 2, … up to its
-- `event_seq`, each number once and in the order of the commits; there is no event of no run.
pub Reaches-IsDense : (now : ℕ) (db : Db) → Reaches (empty now) db → IsDense db.runs db.events
unfolding lookup
Reaches-IsDense now db r =
    Trace-IsDense ((Reaches-Step r).trace)
      (record { numbered = λ id run h. absurd (cc); silent = λ id h. refl })

-- `later` is `before` with events put in front of it.
pub data Extends (before : List EventRow) : List EventRow → Type 0 where
  same : Extends before before
  more : {later : List EventRow} (e : EventRow) → Extends before later → Extends before (e ∷ later)

Trace-Extends :
    {rs : Table RunRow} {es : List EventRow} {rs' : Table RunRow} {es' : List EventRow}
    → Trace rs es rs' es'
    → Extends es es'
Trace-Extends Trace.here = Extends.same
Trace-Extends (Trace.log t id old new type found edit settled seq) =
    Extends.more _ (Trace-Extends t)
Trace-Extends (Trace.create t id new type absent parents seq) = Extends.more _ (Trace-Extends t)

-- The event log is append-only: no sequence of calls changes or removes an event.
pub Reaches-Extends : {db db' : Db} → Reaches db db' → Extends db.events db'.events
Reaches-Extends r = Trace-Extends ((Reaches-Step r).trace)
