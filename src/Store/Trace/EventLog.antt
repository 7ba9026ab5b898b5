-- ===== src/Store/Trace/EventLog.antt =====
-- The event log is dense: the events of a run are numbered from 1 to the run's `event_seq`, each
-- number once, in the order of their commits.
use http_harness.Base.{ℕ, zero, suc, ◌≡◌, ap, none, some, List, [], ◌∷◌, arith, ◌==◌, if◌then◌else◌}
use http_harness.Base.Table.{Table, lookup, lookup-insert}
use http_harness.Store.Rows.{RunRow, EventRow}
use http_harness.Store.Trace.{Trace}

-- The sequence numbers of a run's events, latest first.
abbrev pub seqs : ℕ → List EventRow → List ℕ
seqs id [] = []
seqs id (e ∷ es) = if e.run_id == id then e.seq ∷ seqs id es else seqs id es

abbrev pub countdown : ℕ → List ℕ
countdown zero = []
countdown (suc n) = suc n ∷ countdown n

pub record IsDense (rs : Table RunRow) (es : List EventRow) : Type 0 where
  pub numbered : (id : ℕ) (r : RunRow) → lookup id rs ≡ some r → seqs id es ≡ countdown r.event_seq
  pub silent : (id : ℕ) → lookup id rs ≡ none → seqs id es ≡ []

pub Trace-IsDense :
    {rs : Table RunRow} {es : List EventRow} {rs' : Table RunRow} {es' : List EventRow}
    → Trace rs es rs' es'
    → IsDense rs es
    → IsDense rs' es'
Trace-IsDense Trace.here d = d
Trace-IsDense (Trace.log {rs' = mid} t id old new type found edit settled seq) d =
    let before = Trace-IsDense t d in
    record {
      numbered = λ j r h. ground (
        arith,
        lookup-insert id j new mid,
        before.numbered j r,
        before.numbered id old found,
        ap countdown seq,
      );
      silent = λ j h. ground (arith, lookup-insert id j new mid, before.silent j);
    }
Trace-IsDense (Trace.create {rs' = mid} t id new type absent parents seq) d =
    let before = Trace-IsDense t d in
    record {
      numbered = λ j r h. ground (
        arith,
        lookup-insert id j new mid,
        before.numbered j r,
        before.silent id absent,
        ap countdown seq,
      );
      silent = λ j h. ground (arith, lookup-insert id j new mid, before.silent j);
    }
