-- ===== src/Controller/Admission.antt =====
-- The admission of runs and of cancellations (src/hnh/application/run_controller.py): requests
-- with an idempotency key, answered once and replayed after that. `fingerprint` is what
-- `request_fingerprint` gives for the request; `now` is `datetime.now(UTC)`.
pub mod Steps
pub mod Replays
pub mod Wakes
use http_harness.Base.{
  ℕ, Bool, true, false, ◌&&◌, Option, none, some, List, [], ◌∷◌, ◌==◌, if◌then◌else◌, is_none,
}
use http_harness.Base.Table.{lookup, insert}
use http_harness.Base.Ensures.{Result, ok, ◌>>=◌, ◌>>◌, guard}
use http_harness.Domain.Errors.{idempotency_conflict, integrity_error}
use http_harness.Domain.States.{RunStatus}
use http_harness.Store.Rows
use http_harness.Store.Rows.{Db, RunRow, Context, Route, IdempotencyRow}
use http_harness.Store.Session.{add_run, add_job}
use http_harness.Store.Tests.{same_route}
use http_harness.Controller.Limits.{Limits, new_budget}

-- `Accepted`, without the location that is written from the id.
pub record Accepted : Type 0 where
  pub resource_id : ℕ
  pub replayed : Bool

-- `_idempotency_query`; every route has one method.
unfoldable pub find_idempotency : Context → Route → ℕ → List IdempotencyRow → Option IdempotencyRow
find_idempotency context route key [] = none
find_idempotency context route key (r ∷ t) =
    if r.tenant_id == context.tenant_id
      && r.subject_id == context.subject_id
      && same_route r.route route
      && r.idempotency_key == key
    then some r
    else find_idempotency context route key t

-- `IdempotencyRecord(…)`
abbrev pub remembered : Context → Route → ℕ → ℕ → ℕ → IdempotencyRow
remembered context route key fingerprint id = record {
  tenant_id = context.tenant_id;
  subject_id = context.subject_id;
  route = route;
  idempotency_key = key;
  request_hash = fingerprint;
  resource_id = id;
}

-- The insert for a key that no row has.
unfoldable pub remember : Context → Route → ℕ → ℕ → ℕ → Db → Db
remember context route key fingerprint id db = record db {
  idempotency = remembered context route key fingerprint id ∷ db.idempotency;
}

-- The answer to a key that has a row.
unfoldable pub replay : ℕ → IdempotencyRow → Db → Result (Accepted × Db)
replay fingerprint existing db = do
  guard (existing.request_hash == fingerprint) idempotency_conflict
  ok (record { resource_id = existing.resource_id; replayed = true }, db)

unfoldable pub add_budget : ℕ → Limits → Db → Result Db
add_budget id limits db = do
  guard (is_none (lookup id db.budgets)) integrity_error
  ok (record db { budgets = insert id (new_budget limits) db.budgets })

-- The column default "dev-1".
abbrev default_policy_revision : ℕ
default_policy_revision = 1

-- `RunRecord(…)` of a run without a parent.
abbrev pub new_run : Context → ℕ → RunRow
new_run context now = record {
  tenant_id = context.tenant_id;
  subject_id = context.subject_id;
  admitted_scopes = context.scopes;
  delegated_scopes = none;
  skill_refs = none;
  parent_run_id = none;
  child_depth = 0;
  status = RunStatus.queued;
  version = 0;
  event_seq = 1;
  policy_revision = default_policy_revision;
  failure = none;
  created_at = now;
}

-- The answer to a new key, or the replay.
unfoldable pub admit_found :
    Context → Limits → ℕ → ℕ → ℕ → ℕ → ℕ → Option IdempotencyRow → Db → Result (Accepted × Db)
unfolding remember add_run add_job add_budget replay
admit_found context limits key fingerprint id job_id now (some existing) db =
    replay fingerprint existing db
admit_found context limits key fingerprint id job_id now none db = do
  added ← add_run id (new_run context now) (remember context Rows.post_runs key fingerprint id db)
  queued ← add_job job_id context.tenant_id Rows.advance_run id none now added
  opened ← add_budget id limits queued
  ok (record { resource_id = id; replayed = false }, opened)

unfoldable pub admit_run : Context → Limits → ℕ → ℕ → ℕ → ℕ → ℕ → Db → Result (Accepted × Db)
unfolding find_idempotency admit_found
admit_run context limits key fingerprint id job_id now db =
    admit_found context limits key fingerprint id job_id now
      (find_idempotency context Rows.post_runs key db.idempotency) db
