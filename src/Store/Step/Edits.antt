-- ===== src/Store/Step/Edits.antt =====
-- The edits of a run that the controller's transactions make, and what their guards give.
use http_harness.Base.{
  ℕ, ◌+◌, ◌≤◌, ◌≡◌, refl, arith, Bool, true, false, not, Option, none, some, List, inl, inr,
}
use http_harness.Base.Ensures.{ok, guard}
use http_harness.Domain.Errors.{Error}
use http_harness.Domain.States.{RunStatus, is_terminal, run_transitions, require_run_transition}
use http_harness.Domain.Transitions.{Follows}
use http_harness.Store.Rows.{RunRow, Failure}
use http_harness.Store.Trace.{Edit, Settled}
use http_harness.Store.Session.{has_nonterminal_children}
use http_harness.Base.Table.{Table}

-- What passes a guard.
pub guard-ok : (b : Bool) (e : Error) {u : Unit {0}} → guard b e ≡ ok u → b ≡ true
unfolding guard
guard-ok true e h = refl
guard-ok false e h = absurd (cc)

pub require_run_transition-ok :
    (old new : RunStatus) {u : Unit {0}}
    → require_run_transition old new ≡ ok u
    → run_transitions old new ≡ true
unfolding require_run_transition
require_run_transition-ok old new h = guard-ok _ _ h

pub not→false : (b : Bool) → not b ≡ true → b ≡ false
not→false b h = ground arith

-- A run moved along its diagram to a version that is no lower.
pub versioned-Edit :
    {n : ℕ} (run : RunRow) (status : RunStatus) (failure : Option Failure) (version : ℕ)
    → Follows run.status n status
    → run.version ≤ version
    → Edit n run (record run { status = status; version = version; failure = failure })
versioned-Edit run status failure version follows grows = record {
  follows = follows;
  same_tenant = refl;
  same_subject = refl;
  same_admitted = refl;
  same_delegated = refl;
  same_parent = refl;
  same_depth = refl;
  skills_pinned = λ refs h. h;
  version_grows = grows;
  seq_grows = omega arith;
}

pub status-Edit :
    (run : RunRow) (status : RunStatus) (failure : Option Failure)
    → run_transitions run.status status ≡ true
    → Edit 1 run (record run { status = status; version = run.version + 1; failure = failure })
status-Edit run status failure allowed =
    versioned-Edit run status failure (run.version + 1) (Follows.move Follows.stay allowed)
      (omega arith)

-- A run whose skills are pinned for the first time.
pub pin-Edit :
    (run : RunRow) (refs : List ℕ)
    → run.skill_refs ≡ none
    → Edit 1 run (record run { skill_refs = some refs; version = run.version + 1 })
pin-Edit run refs unpinned = record {
  follows = Follows.stay;
  same_tenant = refl;
  same_subject = refl;
  same_admitted = refl;
  same_delegated = refl;
  same_parent = refl;
  same_depth = refl;
  skills_pinned = λ other h. cc;
  version_grows = omega arith;
  seq_grows = omega arith;
}

-- Three reasons why an edit settles no run too early.
pub Settled-live :
    (id : ℕ) (rs : Table RunRow) (old new : RunRow)
    → is_terminal new.status ≡ false
    → Settled id rs old new
Settled-live id rs old new live ended = absurd (ground arith)

pub Settled-childless :
    (id : ℕ) (rs : Table RunRow) (old new : RunRow)
    → has_nonterminal_children id rs ≡ false
    → Settled id rs old new
Settled-childless id rs old new childless ended = inr childless

pub Settled-same :
    (id : ℕ) (rs : Table RunRow) (old new : RunRow)
    → new.status ≡ old.status
    → Settled id rs old new
Settled-same id rs old new same ended = inl (ground arith)
