-- ===== src/Controller/Runs/Steps.antt =====
-- The methods that move a run as steps of the store.
use http_harness.Base.{
  ℕ, ◌+◌, ◌≡◌, refl, arith, Bool, true, false, not, ◌&&◌, none, some, List, Option, Bool-cases, inl,
  inr,
}
use http_harness.Base.Table.{lookup}
use http_harness.Base.Ensures.{
  Ensures, Ensures-ok, Ensures-when, Ensures-bind, Ensures-guard, Ensures-require, ok, ◌>>=◌,
}
use http_harness.Domain.States.{RunStatus, is_terminal, is_cancelling, require_run_transition}
use http_harness.Store.Rows
use http_harness.Store.Rows.{Db, RunRow, Context, EventType, Failure}
use http_harness.Store.Session.{
  owned_run, log_event, finish_ready_jobs, has_nonterminal_children, release_reservations,
  cancel_open_actions,
}
use http_harness.Store.Lease.{Claim}
use http_harness.Store.Trace.{Edit-refl}
use http_harness.Store.Step.{Step, Step-refl, Step-trans, Commits}
use http_harness.Store.Step.Writes.{
  log_event-Step, finish_ready_jobs-Step, release_reservations-Step, cancel_open_actions-Step,
}
use http_harness.Store.Step.Edits.{
  require_run_transition-ok, not→false, status-Edit, pin-Edit, Settled-live, Settled-childless,
  Settled-same,
}
use http_harness.Controller.Runs.{
  pin_run_skills, transition_run, ensure_run_running, finish_implicit_run,
  finalize_run_cancellation, block_run, fail_run, terminate_run, record_completion, append_event,
  failing, pin_skills, stopped, stopped_event,
}

-- What `_owned_run_locked` returns is in the table.
pub owned_run-lookup :
    (context : Context) (id : ℕ) (db : Db) (run : RunRow)
    → owned_run context id db ≡ ok run
    → lookup id db.runs ≡ some run
unfolding owned_run ◌>>=◌
owned_run-lookup context id db run h = ground arith

-- The moves of a run along its diagram, each with its event.
module _ (id : ℕ) (run : RunRow) (db : Db) (found : lookup id db.runs ≡ some run) where
  pub live_move :
      (status : RunStatus) (failure : Option Failure) (type : EventType) {u : Unit {0}}
      → require_run_transition run.status status ≡ ok u
      → is_terminal status ≡ false
      → Step db (log_event id (failing status failure run) type db)
  live_move status failure type allowed live =
      log_event-Step id run _ type db found
        (status-Edit run status failure (require_run_transition-ok _ _ allowed)) refl
        (Settled-live id db.runs run (failing status failure run) live)

  pub last_move :
      (status : RunStatus) (failure : Option Failure) (type : EventType) {u : Unit {0}}
      → require_run_transition run.status status ≡ ok u
      → not (has_nonterminal_children id db.runs) ≡ true
      → Step db (log_event id (failing status failure run) type db)
  last_move status failure type allowed childless =
      log_event-Step id run _ type db found
        (status-Edit run status failure (require_run_transition-ok _ _ allowed)) refl
        (Settled-childless id db.runs run (failing status failure run) (not→false _ childless))

  -- The last move, then the ready jobs of the run are closed.
  pub finished :
      (status : RunStatus) (failure : Option Failure) (type : EventType) {u : Unit {0}}
      → require_run_transition run.status status ≡ ok u
      → not (has_nonterminal_children id db.runs) ≡ true
      → Step db (finish_ready_jobs id (log_event id (failing status failure run) type db))
  finished status failure type allowed childless =
      Step-trans db (log_event id (failing status failure run) type db) _
        (last_move status failure type allowed childless) (finish_ready_jobs-Step id _)

  pub noted : (type : EventType) → Step db (log_event id run type db)
  noted type =
      log_event-Step id run run type db found (Edit-refl run) refl
        (Settled-same id db.runs run run refl)

is_cancelling→eq :
    (status : RunStatus) → is_cancelling status ≡ true → status ≡ RunStatus.cancelling
is_cancelling→eq status h = ground arith

-- The end of `terminate_run`, on the store whose open actions and reservations are closed.
stop_move :
    (id : ℕ) (run : RunRow) (db : Db) (failure : Option Failure) (unresolved : Bool) {u : Unit {0}}
    → lookup id db.runs ≡ some run
    → require_run_transition run.status (stopped unresolved) ≡ ok u
    → not (not unresolved && has_nonterminal_children id db.runs) ≡ true
    → Step db (
        finish_ready_jobs id
          (log_event id (failing (stopped unresolved) failure run) (stopped_event unresolved) db))
unfolding is_terminal
stop_move id run db failure true found allowed childless =
    Step-trans db (log_event id (failing RunStatus.blocked failure run) Rows.run_blocked db) _
      (live_move id run db found _ failure _ allowed refl) (finish_ready_jobs-Step id _)
stop_move id run db failure false found allowed childless =
    finished id run db found _ failure _ allowed childless

-- What is closed before `terminate_run` moves the run.
close_work : (id : ℕ) (db : Db) → Step db (release_reservations id (cancel_open_actions id db))
close_work id db =
    Step-trans db (cancel_open_actions id db) _ (cancel_open_actions-Step id db)
      (release_reservations-Step id (cancel_open_actions id db))

close_work-runs :
    (id : ℕ) (db : Db) → (release_reservations id (cancel_open_actions id db)).runs ≡ db.runs
unfolding release_reservations cancel_open_actions
close_work-runs id db = refl

finish_ready_jobs-runs : (id : ℕ) (db : Db) → (finish_ready_jobs id db).runs ≡ db.runs
unfolding finish_ready_jobs
finish_ready_jobs-runs id db = refl

pub block_run-Step :
    (id code : ℕ) (claim : Claim) (db : Db) → Ensures (Commits db) (block_run id code claim db)
unfolding block_run is_terminal
block_run-Step id code claim db = Ensures-bind _ _ _ λ _ _. Ensures-require _ _ _ _ λ run found.
    Ensures-when _ _ _ _ (λ _. Ensures-ok _ _ (Step-refl db))
      (λ _.
        Ensures-bind _ _ _
          λ _ allowed. Ensures-ok _ _ (live_move id run db found _ _ _ allowed refl))

pub fail_run-Step :
    (id code : ℕ) (claim : Claim) (db : Db) → Ensures (Commits db) (fail_run id code claim db)
unfolding fail_run
fail_run-Step id code claim db = Ensures-bind _ _ _ λ _ _. Ensures-require _ _ _ _ λ run found.
    Ensures-when _ _ _ _ (λ _. Ensures-ok _ _ (Step-refl db))
      (λ _. Ensures-bind _ _ _ λ _ allowed.
        Ensures-guard _ _ _ _
          λ childless. Ensures-ok _ _ (finished id run db found _ _ _ allowed childless))

pin_skills-Step :
    (id : ℕ) (run : RunRow) (refs : List ℕ) (pinned : Option (List ℕ)) (db : Db)
    → lookup id db.runs ≡ some run
    → run.skill_refs ≡ pinned
    → Ensures (Commits db) (pin_skills id run refs pinned db)
unfolding pin_skills
pin_skills-Step id run refs none db found unpinned =
    let new = record run { skill_refs = some refs; version = run.version + 1 } in
    Ensures-ok _ _ (
      log_event-Step id run new Rows.run_skills_pinned db found (pin-Edit run refs unpinned) refl
        (Settled-same id db.runs run new refl))
pin_skills-Step id run refs (some pinned) db found e =
    Ensures-guard _ _ _ _ λ _. Ensures-ok _ _ (Step-refl db)

pub pin_run_skills-Step :
    (context : Context) (id : ℕ) (refs : List ℕ) (claim : Claim) (db : Db)
    → Ensures (Commits db) (pin_run_skills context id refs claim db)
unfolding pin_run_skills
pin_run_skills-Step context id refs claim db = Ensures-bind _ _ _ λ _ _.
    Ensures-bind _ _ _ λ run owned.
      pin_skills-Step id run refs run.skill_refs db (owned_run-lookup context id db run owned) refl

pub transition_run-Step :
    (id version : ℕ) (status : RunStatus) (type : EventType) (db : Db)
    → Ensures (Commits db) (transition_run id version status type db)
unfolding transition_run
transition_run-Step id version status type db = Ensures-require _ _ _ _ λ run found.
    Ensures-guard _ _ _ _ λ _. Ensures-bind _ _ _ λ _ allowed. Ensures-guard _ _ _ _ λ childless.
      Ensures-ok _ _ (elim (Bool-cases (is_terminal status)) [
        | inl ends ↦ last_move id run db found _ _ _ allowed (ground arith)
        | inr live ↦ live_move id run db found _ _ _ allowed live
      ])

pub ensure_run_running-Step :
    (id : ℕ) (claim : Claim) (db : Db) → Ensures (Commits db) (ensure_run_running id claim db)
unfolding ensure_run_running is_terminal
ensure_run_running-Step id claim db = Ensures-bind _ _ _ λ _ _. Ensures-require _ _ _ _ λ run found.
    Ensures-when _ _ _ _
      (λ _.
        Ensures-bind _ _ _
          λ _ allowed. Ensures-ok _ _ (live_move id run db found _ _ _ allowed refl))
      (λ _. Ensures-guard _ _ _ _ λ _. Ensures-ok _ _ (Step-refl db))

pub finish_implicit_run-Step :
    (id : ℕ) (succeeded : Bool) (db : Db)
    → Ensures (Commits db) (finish_implicit_run id succeeded db)
unfolding finish_implicit_run
finish_implicit_run-Step id succeeded db = Ensures-require _ _ _ _ λ run found.
    Ensures-when _ _ _ _ (λ _. Ensures-ok _ _ (Step-refl db))
      (λ _. Ensures-bind _ _ _ λ _ allowed.
        Ensures-guard _ _ _ _
          λ childless. Ensures-ok _ _ (finished id run db found _ _ _ allowed childless))

pub finalize_run_cancellation-Step :
    (context : Context) (id : ℕ) (claim : Claim) (db : Db)
    → Ensures (Commits db) (finalize_run_cancellation context id claim db)
unfolding finalize_run_cancellation
finalize_run_cancellation-Step context id claim db = Ensures-bind _ _ _ λ _ _.
    Ensures-bind _ _ _ λ run owned.
      Ensures-when _ _ _ _ (λ _. Ensures-ok _ _ (Step-refl db))
        (λ _. Ensures-guard _ _ _ _ λ cancelling. Ensures-guard _ _ _ _ λ _.
          Ensures-guard _ _ _ _ λ childless. Ensures-bind _ _ _ λ _ allowed. Ensures-ok _ _ (
            finished id run db (owned_run-lookup context id db run owned) RunStatus.cancelled
              run.failure Rows.run_cancelled (rw (is_cancelling→eq run.status cancelling) allowed)
              childless))

pub terminate_run-Step :
    (id code : ℕ) (claim : Claim) (db : Db) → Ensures (Commits db) (terminate_run id code claim db)
unfolding terminate_run
terminate_run-Step id code claim db = Ensures-bind _ _ _ λ _ _. Ensures-require _ _ _ _ λ run found.
    Ensures-when _ _ _ _ (λ _. Ensures-ok _ _ (Step-refl db))
      (λ _. Ensures-bind _ _ _ λ _ allowed. Ensures-guard _ _ _ _ λ childless. Ensures-ok _ _ (
        Step-trans db (release_reservations id (cancel_open_actions id db)) _ (close_work id db) (
          stop_move id run (release_reservations id (cancel_open_actions id db)) _ _
            (rw (close_work-runs id db) found) allowed childless)))

pub record_completion-Step :
    (context : Context) (id : ℕ) (verified : Bool) (claim : Claim) (db : Db)
    → Ensures (Commits db) (record_completion context id verified claim db)
unfolding record_completion
record_completion-Step context id verified claim db = Ensures-bind _ _ _ λ _ _.
    Ensures-bind _ _ _ λ run owned.
      Ensures-when _ _ _ _
        (λ _. Ensures-guard _ _ _ _ λ childless. Ensures-bind _ _ _ λ _ allowed. Ensures-ok _ _ (
          Step-trans db (finish_ready_jobs id db) _ (finish_ready_jobs-Step id db) (
            last_move id run (finish_ready_jobs id db)
              (rw (finish_ready_jobs-runs id db) (owned_run-lookup context id db run owned)) _ _ _
              allowed (rw (finish_ready_jobs-runs id db) childless))))
        (λ _. Ensures-ok _ _ (noted id run db (owned_run-lookup context id db run owned) _))

pub append_event-Step :
    (id : ℕ) (type : EventType) (db : Db) → Ensures (Commits db) (append_event id type db)
unfolding append_event
append_event-Step id type db =
    Ensures-require _ _ _ _ λ run found. Ensures-ok _ _ (noted id run db found _)
