-- ===== src/Store/Step.antt =====
-- What a committed transaction may do to the store, in one relation: it follows a trace of the
-- runs and the event log, keeps budgets within their limits, keeps what an action is bound to and
-- moves it along its diagram, and lets the lease epochs of jobs only grow.
pub mod Moves
pub mod Writes
pub mod Edits
use http_harness.Base.{ℕ, ◌≤◌, ◌≡◌, refl, Bool, true, false, List, arith}
use http_harness.Base.Grows.{Grows, Grows-refl, Grows-trans}
use http_harness.Base.Unique.{HasUniqueKeys}
use http_harness.Domain.States.{ActionStatus}
use http_harness.Store.Rows
use http_harness.Store.Rows.{Db, ActionRow, JobRow}
use http_harness.Store.Funding.{IsFunded}
use http_harness.Store.Trace.{Trace, Trace-trans}
use http_harness.Store.Step.Moves.{
  Bound, Bound-refl, Bound-trans, Leased, Leased-refl, Leased-trans,
}

pub record Step (db db' : Db) : Type 0 where
  pub trace : Trace db.runs db.events db'.runs db'.events
  pub funded : IsFunded db.budgets db.reservations → IsFunded db'.budgets db'.reservations
  pub bound : Grows Bound db.actions db'.actions
  pub leased : HasUniqueKeys db.jobs → HasUniqueKeys db'.jobs × Grows Leased db.jobs db'.jobs

pub Step-refl : (db : Db) → Step db db
Step-refl db = record {
  trace = Trace.here;
  funded = λ h. h;
  bound = Grows-refl Bound-refl db.actions;
  leased = λ u. (u, Grows-refl Leased-refl db.jobs);
}

pub Step-trans : (a b c : Db) → Step a b → Step b c → Step a c
Step-trans a b c s t = record {
  trace = Trace-trans s.trace t.trace;
  funded = λ h. t.funded (s.funded h);
  bound = Grows-trans Bound-trans a.actions b.actions c.actions s.bound t.bound;
  leased = λ u.
      let (v, first) = s.leased u in
      let (w, second) = t.leased v in
      (w, Grows-trans Leased-trans a.jobs b.jobs c.jobs first second);
}

-- What an operation returns beside its value is a step from where it began.
abbrev pub Commits : {A : Type 0} → Db → A × Db → Type 0
Commits db (_, db') = Step db db'
