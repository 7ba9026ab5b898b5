-- ===== src/Store/Trace/Lifecycle.antt =====
-- The rows of runs through a trace.
use http_harness.Base.{suc, ◌-◌, ◌≡◌, subst, arith, List}
use http_harness.Base.Table.{Table}
use http_harness.Base.Grows.{Grows, Grows-refl, Grows-trans, Grows-insert, Grows-insert_new}
use http_harness.Store.Rows.{RunRow, EventRow}
use http_harness.Store.Trace.{Trace, Edit, Edit-refl, Edit-trans}

-- A run moves at most once for each of its events.
abbrev pub Evolves : RunRow → RunRow → Type 0
Evolves old new = Edit (new.event_seq - old.event_seq) old new

Evolves-trans : (a b c : RunRow) → Evolves a b → Evolves b c → Evolves a c
Evolves-trans a b c e f =
    subst (λ n. Edit n a c) (omega (arith, e.seq_grows, f.seq_grows)) (Edit-trans a b c e f)

logged-Evolves :
    (old new : RunRow) → Edit 1 old new → new.event_seq ≡ suc old.event_seq → Evolves old new
logged-Evolves old new e seq = subst (λ n. Edit n old new) (omega (arith, seq)) e

pub Trace-Grows :
    {rs : Table RunRow} {es : List EventRow} {rs' : Table RunRow} {es' : List EventRow}
    → Trace rs es rs' es'
    → Grows Evolves rs rs'
Trace-Grows {rs} Trace.here = Grows-refl (λ r. Edit-refl r) rs
Trace-Grows {rs} (Trace.log {rs' = mid} t id old new type found edit settled seq) =
    Grows-trans Evolves-trans rs mid _ (Trace-Grows t)
      (Grows-insert (λ r. Edit-refl r) id old new mid found (logged-Evolves old new edit seq))
Trace-Grows {rs} (Trace.create {rs' = mid} t id new type absent parents seq) =
    Grows-trans Evolves-trans rs mid _ (Trace-Grows t)
      (Grows-insert_new (λ r. Edit-refl r) id new mid absent)
