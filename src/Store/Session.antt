-- ===== src/Store/Session.antt =====
-- The queries and writes that the transactions of src/hnh/application/run_controller.py share.
-- A read sees the writes made before it in the transaction, as SQLAlchemy's autoflush gives.
use http_harness.Base.{
  ℕ, ◌+◌, Bool, true, false, not, ◌&&◌, Option, none, some, [], ◌∷◌, ltb, ◌==◌, ◌==?◌,
  if◌then◌else◌, is_none,
}
use http_harness.Base.Table.{Table, lookup, insert, update_where, any_row}
use http_harness.Base.Ensures.{Result, ok, ◌>>=◌, ◌>>◌, guard, require}
use http_harness.Domain.Errors.{not_found, version_conflict, integrity_error}
use http_harness.Domain.States.{ActionStatus, is_terminal, is_open, is_settled, is_uncertain}
use http_harness.Store.Rows

abbrev pub owns_run : Rows.Context → Rows.RunRow → Bool
owns_run c r = r.tenant_id == c.tenant_id && r.subject_id == c.subject_id

abbrev pub owns_action : Rows.Context → Rows.ActionRow → Bool
owns_action c r = r.tenant_id == c.tenant_id && r.subject_id == c.subject_id

-- `get_run` without its snapshot, and `_owned_run_locked`.
unfoldable pub owned_run : Rows.Context → ℕ → Rows.Db → Result Rows.RunRow
owned_run c id db = do
  run ← require (lookup id db.runs) not_found
  guard (owns_run c run) not_found
  ok run

unfoldable pub owned_action : Rows.Context → ℕ → Rows.Db → Result Rows.ActionRow
owned_action c id db = do
  action ← require (lookup id db.actions) not_found
  guard (owns_action c action) not_found
  ok action

-- `ORDER BY attempt_no DESC LIMIT 1`
abbrev newer :
    Option (ℕ × Rows.AttemptRow) → Option (ℕ × Rows.AttemptRow) → Option (ℕ × Rows.AttemptRow)
newer none b = b
newer (some a) none = some a
newer (some (j, a)) (some (k, b)) = some (if ltb a.attempt_no b.attempt_no then (k, b) else (j, a))

unfoldable pub latest_attempt : ℕ → Table Rows.AttemptRow → Option (ℕ × Rows.AttemptRow)
latest_attempt id [] = none
latest_attempt id ((k, a) ∷ t) =
    newer (if a.action_id == id then some (k, a) else none) (latest_attempt id t)

abbrev pub same_attempt_status : Rows.AttemptStatus → Rows.AttemptStatus → Bool
same_attempt_status Rows.AttemptStatus.started Rows.AttemptStatus.started = true
same_attempt_status Rows.AttemptStatus.succeeded Rows.AttemptStatus.succeeded = true
same_attempt_status Rows.AttemptStatus.failed Rows.AttemptStatus.failed = true
same_attempt_status Rows.AttemptStatus.outcome_unknown Rows.AttemptStatus.outcome_unknown = true
same_attempt_status _ _ = false

-- `_latest_attempt_locked`: the latest attempt, which must have the wanted status.
unfoldable pub latest_attempt_locked :
    ℕ → Rows.AttemptStatus → Rows.Db → Result (ℕ × Rows.AttemptRow)
latest_attempt_locked id wanted db = do
  found ← require (latest_attempt id db.attempts) version_conflict
  guard (same_attempt_status found.1.status wanted) version_conflict
  ok found

-- `coalesce(max(attempt_no), 0)`
unfoldable pub max_attempt_no : ℕ → Table Rows.AttemptRow → ℕ
unfolding latest_attempt
max_attempt_no id t = elim (latest_attempt id t) [ none ↦ 0 | some (k, a) ↦ a.attempt_no ]

unfoldable pub has_unresolved_actions : ℕ → Table Rows.ActionRow → Bool
has_unresolved_actions run_id = any_row (λ a. a.run_id == run_id && not (is_settled a.status))

unfoldable pub has_uncertain_effects : ℕ → Table Rows.ActionRow → Bool
has_uncertain_effects run_id = any_row (λ a. a.run_id == run_id && is_uncertain a.status)

abbrev pub is_live_child : ℕ → Rows.RunRow → Bool
is_live_child run_id r = r.parent_run_id ==? some run_id && not (is_terminal r.status)

unfoldable pub has_nonterminal_children : ℕ → Table Rows.RunRow → Bool
has_nonterminal_children run_id = any_row (is_live_child run_id)

-- `_append_event_locked` on a run object whose fields the transaction has set: the sequence number
-- goes up by one, and the flush writes the run and the event together.
unfoldable pub log_event : ℕ → Rows.RunRow → Rows.EventType → Rows.Db → Rows.Db
log_event id run type db = record db {
  runs = insert id (record run { event_seq = run.event_seq + 1 }) db.runs;
  events = (record { run_id = id; seq = run.event_seq + 1; event_type = type }) ∷ db.events;
}

-- `session.add(RunRecord(…, event_seq=1))` with its first event; a primary key is used once.
unfoldable pub add_run : ℕ → Rows.RunRow → Rows.Db → Result Rows.Db
add_run id run db = do
  guard (is_none (lookup id db.runs)) integrity_error
  ok (record db {
    runs = insert id (record run { event_seq = 1 }) db.runs;
    events = (record { run_id = id; seq = 1; event_type = Rows.run_accepted }) ∷ db.events;
  })

unfoldable pub put_action : ℕ → Rows.ActionRow → Rows.Db → Rows.Db
put_action id row db = record db { actions = insert id row db.actions }

unfoldable pub add_action : ℕ → Rows.ActionRow → Rows.Db → Result Rows.Db
add_action id row db = do
  guard (is_none (lookup id db.actions)) integrity_error
  ok (record db { actions = insert id row db.actions })

unfoldable pub put_attempt : ℕ → Rows.AttemptRow → Rows.Db → Rows.Db
put_attempt id row db = record db { attempts = insert id row db.attempts }

unfoldable pub add_attempt : ℕ → Rows.AttemptRow → Rows.Db → Result Rows.Db
add_attempt id row db = do
  guard (is_none (lookup id db.attempts)) integrity_error
  ok (record db { attempts = insert id row db.attempts })

unfoldable pub put_job : ℕ → Rows.JobRow → Rows.Db → Rows.Db
put_job id row db = record db { jobs = insert id row db.jobs }

-- A new job: ready, unleased, at epoch 0.
unfoldable pub add_job : ℕ → ℕ → Rows.JobKind → ℕ → Option ℕ → ℕ → Rows.Db → Result Rows.Db
add_job id tenant kind run_id action_id due_at db = do
  guard (is_none (lookup id db.jobs)) integrity_error
  ok (record db {
    jobs =
        insert id
          (record {
            tenant_id = tenant;
            kind = kind;
            run_id = some run_id;
            action_id = action_id;
            status = Rows.ready;
            due_at = due_at;
            lease_owner = none;
            lease_until = none;
            lease_epoch = 0;
            attempts = 0;
          })
          db.jobs;
  })

-- `UPDATE actions SET status='cancelled' WHERE run_id=… AND status IN (…)`
unfoldable pub cancel_open_actions : ℕ → Rows.Db → Rows.Db
cancel_open_actions run_id db = record db {
  actions =
      update_where (λ a. a.run_id == run_id && is_open a.status)
        (λ a. record a { status = ActionStatus.cancelled }) db.actions;
}

abbrev pub is_ready_job : Rows.JobStatus → Bool
is_ready_job Rows.ready = true
is_ready_job _ = false

-- `UPDATE jobs SET status='done' WHERE run_id=… AND status='ready'`
unfoldable pub finish_ready_jobs : ℕ → Rows.Db → Rows.Db
finish_ready_jobs run_id db = record db {
  jobs =
      update_where (λ j. j.run_id ==? some run_id && is_ready_job j.status)
        (λ j. record j { status = Rows.done }) db.jobs;
}

abbrev pub is_reserved : Rows.ReservationStatus → Bool
is_reserved Rows.reserved = true
is_reserved _ = false

-- `UPDATE budget_reservations SET status='released', actual_amount=0 WHERE …`
unfoldable pub release_reservations : ℕ → Rows.Db → Rows.Db
release_reservations run_id db = record db {
  reservations =
      update_where (λ r. r.run_id == run_id && is_reserved r.status)
        (λ r. record r { status = Rows.released; actual_amount = some 0 }) db.reservations;
}
