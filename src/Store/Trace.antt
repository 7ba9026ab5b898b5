-- ===== src/Store/Trace.antt =====
-- How transactions change the runs and the event log, as a relation: a run is edited and one event
-- is logged, or a run is created with its first event. The bookkeeping invariants of the two
-- tables follow by induction on it (the child modules).
pub mod Invariants
pub mod EventLog
pub mod Lifecycle
use http_harness.Base.{ℕ, suc, ◌+◌, ◌≤◌, ◌≡◌, refl, ◌⊎◌, true, false, none, some, List, ◌∷◌, arith}
use http_harness.Base.Table.{Table, lookup, insert}
use http_harness.Domain.States.{is_terminal}
use http_harness.Domain.Transitions.{Follows, Follows-trans}
use http_harness.Store.Rows
use http_harness.Store.Rows.{RunRow, EventRow, EventType}
use http_harness.Store.Session.{has_nonterminal_children}

-- What no transaction changes of a run, what only grows, and at most `n` moves of its status.
pub record Edit (n : ℕ) (old new : RunRow) : Type 0 where
  pub follows : Follows old.status n new.status
  pub same_tenant : new.tenant_id ≡ old.tenant_id
  pub same_subject : new.subject_id ≡ old.subject_id
  pub same_admitted : new.admitted_scopes ≡ old.admitted_scopes
  pub same_delegated : new.delegated_scopes ≡ old.delegated_scopes
  pub same_parent : new.parent_run_id ≡ old.parent_run_id
  pub same_depth : new.child_depth ≡ old.child_depth
  pub skills_pinned : (refs : List ℕ) → old.skill_refs ≡ some refs → new.skill_refs ≡ some refs
  pub version_grows : old.version ≤ new.version
  pub seq_grows : old.event_seq ≤ new.event_seq

-- A run with live children does not become terminal.
abbrev pub Settled : ℕ → Table RunRow → RunRow → RunRow → Type 0
Settled id rs old new =
    is_terminal new.status ≡ true
    → (is_terminal old.status ≡ true) ⊎ (has_nonterminal_children id rs ≡ false)

abbrev pub event : ℕ → ℕ → EventType → EventRow
event id n type = record { run_id = id; seq = n; event_type = type }

-- One event is logged for each edit, which moves the run at most once.
pub data Trace (rs : Table RunRow) (es : List EventRow)
    : Table RunRow → List EventRow → Type 0 where
  here : Trace rs es rs es
  log :
      {rs' : Table RunRow} {es' : List EventRow}
      → Trace rs es rs' es'
      → (id : ℕ) (old new : RunRow) (type : EventType) → lookup id rs' ≡ some old
      → Edit 1 old new
      → Settled id rs' old new
      → new.event_seq ≡ suc old.event_seq
      → Trace rs es (insert id new rs') (event id new.event_seq type ∷ es')
  create :
      {rs' : Table RunRow} {es' : List EventRow}
      → Trace rs es rs' es'
      → (id : ℕ) (new : RunRow) (type : EventType) → lookup id rs' ≡ none
      → ((p : ℕ)
          → new.parent_run_id ≡ some p
          → (parent : RunRow) × (lookup p rs' ≡ some parent) × (is_terminal parent.status ≡ false))
      → new.event_seq ≡ 1
      → Trace rs es (insert id new rs') (event id 1 type ∷ es')

pub Trace-trans :
    {rs rs' : Table RunRow} {es es' : List EventRow} {rs'' : Table RunRow} {es'' : List EventRow}
    → Trace rs es rs' es'
    → Trace rs' es' rs'' es''
    → Trace rs es rs'' es''
Trace-trans t here = t
Trace-trans t (log u id old new type found edit settled seq) =
    log (Trace-trans t u) id old new type found edit settled seq
Trace-trans t (create u id new type absent parents seq) =
    create (Trace-trans t u) id new type absent parents seq

pub Edit-refl : {n : ℕ} (r : RunRow) → Edit n r r
Edit-refl r = record {
  follows = Follows.stay;
  same_tenant = refl;
  same_subject = refl;
  same_admitted = refl;
  same_delegated = refl;
  same_parent = refl;
  same_depth = refl;
  skills_pinned = λ refs h. h;
  version_grows = omega arith;
  seq_grows = omega arith;
}

pub Edit-trans : {m n : ℕ} (a b c : RunRow) → Edit m a b → Edit n b c → Edit (m + n) a c
Edit-trans a b c e f = record {
  follows = Follows-trans e.follows f.follows;
  same_tenant = cc;
  same_subject = cc;
  same_admitted = cc;
  same_delegated = cc;
  same_parent = cc;
  same_depth = cc;
  skills_pinned = λ refs h. f.skills_pinned refs (e.skills_pinned refs h);
  version_grows = omega arith;
  seq_grows = omega arith;
}

-- The sequence number that an event takes.
pub Edit-next_event :
    {n : ℕ} (old new : RunRow)
    → Edit n old new
    → Edit n old (record new { event_seq = new.event_seq + 1 })
Edit-next_event old new e = record {
  follows = e.follows;
  same_tenant = e.same_tenant;
  same_subject = e.same_subject;
  same_admitted = e.same_admitted;
  same_delegated = e.same_delegated;
  same_parent = e.same_parent;
  same_depth = e.same_depth;
  skills_pinned = e.skills_pinned;
  version_grows = e.version_grows;
  seq_grows = omega (arith, e.seq_grows);
}
