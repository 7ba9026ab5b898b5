-- ===== src/Store/Step/Writes.antt =====
-- The writes of src/hnh/application/run_controller.py as steps of the store.
use http_harness.Base.{ℕ, ◌+◌, ◌≡◌, refl, true, false, Option, none, some, ◌∷◌, arith, is_none→eq}
use http_harness.Base.Table.{lookup, insert}
use http_harness.Base.Grows.{Grows-refl, Grows-insert, Grows-insert_new, Grows-update_where}
use http_harness.Base.Unique.{HasUniqueKeys, insert-HasUniqueKeys, update_where-HasUniqueKeys}
use http_harness.Base.Ensures.{Ensures, Ensures-guard, Ensures-ok}
use http_harness.Domain.States.{ActionStatus, is_terminal, is_open}
use http_harness.Store.Rows
use http_harness.Store.Rows.{Db, RunRow, ActionRow, AttemptRow, JobRow, EventType}
use http_harness.Store.Session.{
  log_event, add_run, put_action, add_action, put_attempt, add_attempt, put_job, add_job,
  cancel_open_actions, finish_ready_jobs, release_reservations,
}
use http_harness.Store.Funding.Sums.{share}
use http_harness.Store.Funding.Keeps.{lower_where-IsFunded}
use http_harness.Store.Trace.{Trace, Edit, Settled, Edit-next_event}
use http_harness.Store.Step.{Step}
use http_harness.Store.Step.Moves.{Moves, Bound, Bound-refl, Leased, Leased-refl}

-- The step that changes nothing but the runs and the log, the actions, or the jobs.
pub log_event-Step :
    (id : ℕ) (old new : RunRow) (type : EventType) (db : Db)
    → lookup id db.runs ≡ some old
    → Edit 1 old new
    → new.event_seq ≡ old.event_seq
    → Settled id db.runs old new
    → Step db (log_event id new type db)
unfolding log_event
log_event-Step id old new type db found edit seq settled = record {
  trace =
      Trace.log Trace.here id old (record new { event_seq = new.event_seq + 1 }) type found
        (Edit-next_event old new edit) settled (omega arith);
  funded = λ h. h;
  bound = Grows-refl Bound-refl db.actions;
  leased = λ u. (u, Grows-refl Leased-refl db.jobs);
}

module _ (id : ℕ) (new : RunRow) (db : Db)
    (parents : (p : ℕ)
      → new.parent_run_id ≡ some p
      → (parent : RunRow) × (lookup p db.runs ≡ some parent)
        × (is_terminal parent.status ≡ false)) where
  created :
      lookup id db.runs ≡ none
      → Step db (record db {
        runs = insert id (record new { event_seq = 1 }) db.runs;
        events = (record { run_id = id; seq = 1; event_type = Rows.run_accepted }) ∷ db.events;
      })
  created absent = record {
    trace =
        Trace.create Trace.here id (record new { event_seq = 1 }) Rows.run_accepted absent parents
          refl;
    funded = λ h. h;
    bound = Grows-refl Bound-refl db.actions;
    leased = λ u. (u, Grows-refl Leased-refl db.jobs);
  }

  pub add_run-Step : Ensures (Step db) (add_run id new db)
  unfolding add_run
  add_run-Step = Ensures-guard _ _ _ _ λ free. Ensures-ok _ _ (created (is_none→eq free))

pub put_action-Step :
    (id : ℕ) (old new : ActionRow) (db : Db)
    → lookup id db.actions ≡ some old
    → Bound old new
    → Step db (put_action id new db)
unfolding put_action
put_action-Step id old new db found bound = record {
  trace = Trace.here;
  funded = λ h. h;
  bound = Grows-insert Bound-refl id old new db.actions found bound;
  leased = λ u. (u, Grows-refl Leased-refl db.jobs);
}

pub add_action-Step :
    (id : ℕ) (new : ActionRow) (db : Db) → Ensures (Step db) (add_action id new db)
unfolding add_action
add_action-Step id new db = Ensures-guard _ _ _ _ λ free. Ensures-ok _ _ (record {
  trace = Trace.here;
  funded = λ h. h;
  bound = Grows-insert_new Bound-refl id new db.actions (is_none→eq free);
  leased = λ u. (u, Grows-refl Leased-refl db.jobs);
})

-- A write to a job whose row is known where primary keys are unique.
pub put_job-Step_unique :
    (id : ℕ) (old new : JobRow) (db : Db)
    → (HasUniqueKeys db.jobs → (lookup id db.jobs ≡ some old) × Leased old new)
    → Step db (put_job id new db)
unfolding put_job
put_job-Step_unique id old new db known = record {
  trace = Trace.here;
  funded = λ h. h;
  bound = Grows-refl Bound-refl db.actions;
  leased = λ u.
      let (found, leased) = known u in
      (
        insert-HasUniqueKeys id new db.jobs u,
        Grows-insert Leased-refl id old new db.jobs found leased,
      );
}

pub put_job-Step :
    (id : ℕ) (old new : JobRow) (db : Db)
    → lookup id db.jobs ≡ some old
    → Leased old new
    → Step db (put_job id new db)
put_job-Step id old new db found leased = put_job-Step_unique id old new db (λ u. (found, leased))

pub add_job-Step :
    (id tenant : ℕ) (kind : Rows.JobKind) (run_id : ℕ) (action_id : Option ℕ) (due_at : ℕ) (db : Db)
    → Ensures (Step db) (add_job id tenant kind run_id action_id due_at db)
unfolding add_job
add_job-Step id tenant kind run_id action_id due_at db = Ensures-guard _ _ _ _ λ free.
    Ensures-ok _ _ (record {
      trace = Trace.here;
      funded = λ h. h;
      bound = Grows-refl Bound-refl db.actions;
      leased = λ u. (
        insert-HasUniqueKeys id _ db.jobs u,
        Grows-insert_new Leased-refl id _ db.jobs (is_none→eq free),
      );
    })

pub put_attempt-Step : (id : ℕ) (row : AttemptRow) (db : Db) → Step db (put_attempt id row db)
unfolding put_attempt
put_attempt-Step id row db = record {
  trace = Trace.here;
  funded = λ h. h;
  bound = Grows-refl Bound-refl db.actions;
  leased = λ u. (u, Grows-refl Leased-refl db.jobs);
}

pub add_attempt-Step :
    (id : ℕ) (row : AttemptRow) (db : Db) → Ensures (Step db) (add_attempt id row db)
unfolding add_attempt
add_attempt-Step id row db = Ensures-guard _ _ _ _ λ free. Ensures-ok _ _ (record {
  trace = Trace.here;
  funded = λ h. h;
  bound = Grows-refl Bound-refl db.actions;
  leased = λ u. (u, Grows-refl Leased-refl db.jobs);
})

-- An action that was never dispatched may be cancelled.
cancel_open-Bound :
    (a : ActionRow)
    → is_open a.status ≡ true
    → Bound a (record a { status = ActionStatus.cancelled })
cancel_open-Bound a h = record {
  moves = Moves.drop Moves.stay h;
  same_run = refl;
  same_tenant = refl;
  same_subject = refl;
  same_turn = refl;
  same_index = refl;
  same_request = refl;
  same_capability = refl;
  same_revision = refl;
  same_semantics = refl;
  same_policy = refl;
  same_scopes = refl;
  version_grows = omega arith;
}

pub cancel_open_actions-Step : (run_id : ℕ) (db : Db) → Step db (cancel_open_actions run_id db)
unfolding cancel_open_actions
cancel_open_actions-Step run_id db = record {
  trace = Trace.here;
  funded = λ h. h;
  bound =
      Grows-update_where _ _ Bound-refl (λ a hit. cancel_open-Bound a (ground arith)) db.actions;
  leased = λ u. (u, Grows-refl Leased-refl db.jobs);
}

finish_ready-Leased : (j : JobRow) → Leased j (record j { status = Rows.done })
finish_ready-Leased j = record {
  same_kind = refl;
  same_run = refl;
  same_action = refl;
  same_tenant = refl;
  epoch_grows = omega arith;
  done_stays = λ h. refl;
}

pub finish_ready_jobs-Step : (run_id : ℕ) (db : Db) → Step db (finish_ready_jobs run_id db)
unfolding finish_ready_jobs
finish_ready_jobs-Step run_id db = record {
  trace = Trace.here;
  funded = λ h. h;
  bound = Grows-refl Bound-refl db.actions;
  leased = λ u. (
    update_where-HasUniqueKeys _ _ db.jobs u,
    Grows-update_where _ _ Leased-refl (λ j hit. finish_ready-Leased j) db.jobs,
  );
}

pub release_reservations-Step : (run_id : ℕ) (db : Db) → Step db (release_reservations run_id db)
unfolding release_reservations share
release_reservations-Step run_id db = record {
  trace = Trace.here;
  funded = λ h. lower_where-IsFunded db.budgets db.reservations _ _ (λ id d r. ground arith) h;
  bound = Grows-refl Bound-refl db.actions;
  leased = λ u. (u, Grows-refl Leased-refl db.jobs);
}
