-- ===== src/Controller/Runs/Scopes.antt =====
-- What a run narrows: the scopes it acts with, the skills it is pinned to, the version it is at.
use http_harness.Base.{
  ℕ, ◌+◌, ◌≡◌, refl, arith, true, false, none, some, Option, List, ◌==◌, member, intersection,
  member-intersection,
}
use http_harness.Base.Table.{lookup, lookup-insert}
use http_harness.Base.Ensures.{
  ok, err, ◌>>=◌, Ensures, Ensures-ok, Ensures-bind, Ensures-guard, Ensures-require,
}
use http_harness.Domain.Errors.{version_conflict}
use http_harness.Domain.States.{RunStatus}
use http_harness.Store.Rows.{Db, RunRow, Context, EventType}
use http_harness.Store.Session.{log_event}
use http_harness.Controller.Runs.{effective_context, narrow, transition_run, moved_to}
use http_harness.Controller.Runs.Steps.{owned_run-lookup}

-- A scope is granted.
pub record Grants (context : Context) (run : RunRow) (scope : ℕ) : Type 0 where
  pub by_context : member scope context.scopes ≡ true
  pub by_admission : member scope run.admitted_scopes ≡ true
  pub by_delegation :
      (delegated : List ℕ) → run.delegated_scopes ≡ some delegated → member scope delegated ≡ true

pub narrow-member :
    (scope : ℕ) (delegated : Option (List ℕ)) (scopes : List ℕ)
    → member scope (narrow delegated scopes) ≡ true
    → (member scope scopes ≡ true) × ((d : List ℕ) → delegated ≡ some d → member scope d ≡ true)
narrow-member scope none scopes h = (h, λ d e. absurd (cc))
narrow-member scope (some d) scopes h = (
  ground (arith, member-intersection scope scopes d),
  λ e same. ground (arith, member-intersection scope scopes d),
)

pub narrow-Grants :
    (context : Context) (run : RunRow) (scope : ℕ)
    → member scope (narrow run.delegated_scopes (intersection context.scopes run.admitted_scopes))
      ≡ true
    → Grants context run scope
narrow-Grants context run scope h =
    let both = member-intersection scope context.scopes run.admitted_scopes in
    let (first, delegated) =
      narrow-member scope run.delegated_scopes (intersection context.scopes run.admitted_scopes)
        h in
    record {
      by_context = ground (arith, both, first);
      by_admission = ground (arith, both, first);
      by_delegation = delegated;
    }

effective_context-narrow :
    (context : Context) (id : ℕ) (db : Db)
    → Ensures
        (λ narrowed.
          (run : RunRow) × (lookup id db.runs ≡ some run)
          × (narrowed.scopes
              ≡ narrow run.delegated_scopes (intersection context.scopes run.admitted_scopes)))
        (effective_context context id db)
unfolding effective_context
effective_context-narrow context id db =
    Ensures-bind _ _ _
      λ run owned. Ensures-ok _ _ (run, owned_run-lookup context id db run owned, refl)

-- Authority only narrows: a scope that a run acts with is one of the caller's, one that was
-- admitted with the run, and, for a run with delegated scopes, one of these.
pub effective_context-Grants :
    (context narrowed : Context) (id : ℕ) (db : Db) (scope : ℕ)
    → effective_context context id db ≡ ok narrowed
    → member scope narrowed.scopes ≡ true
    → (run : RunRow) × (lookup id db.runs ≡ some run) × Grants context run scope
effective_context-Grants context narrowed id db scope h granted =
    let (run, found, is) = (effective_context-narrow context id db).at narrowed h in
    (run, found, narrow-Grants context run scope (rw (← is) granted))

transition_run-version :
    (id version : ℕ) (status : RunStatus) (type : EventType) (db : Db)
    → Ensures
        (λ (_, db').
          (row : RunRow) × (lookup id db'.runs ≡ some row) × ((row.version == version) ≡ false))
        (transition_run id version status type db)
unfolding transition_run log_event
transition_run-version id version status type db = Ensures-require _ _ _ _ λ run found.
    Ensures-guard _ _ _ _ λ same. Ensures-bind _ _ _ λ _ _. Ensures-guard _ _ _ _ λ _.
      let row = record (moved_to status run) { event_seq = run.event_seq + 1 } in
      Ensures-ok _ _ (row, ground (arith, lookup-insert id id row db.runs), ground arith)

-- Compare and set: after `transition_run` commits at a version, a second transition that expects
-- the same version is refused, whatever its target.
transition_run-stale :
    (id version : ℕ) (status next : RunStatus) (type later : EventType) (db db' : Db) (new : RunRow)
    → transition_run id version status type db ≡ ok (new, db')
    → transition_run id version next later db' ≡ err version_conflict
unfolding transition_run ◌>>=◌
transition_run-stale id version status next type later db db' new h =
    let (row, at, stale) = (transition_run-version id version status type db).at (new, db') h in
    ground arith
