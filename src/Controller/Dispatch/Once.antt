-- ===== src/Controller/Dispatch/Once.antt =====
-- Repeated dispatches of one action (`begin_action_dispatch`).
use http_harness.Base.{ℕ, ◌≡◌, refl, arith, Bool, true, false, ◌||◌, none, some, Option, ==-refl}
use http_harness.Base.Table.{lookup, lookup-insert}
use http_harness.Base.Ensures.{
  ok, Ensures, Ensures-ok, Ensures-bind, Ensures-guard, Ensures-require, Ensures-when, ◌>>=◌,
}
use http_harness.Domain.States.{ActionStatus, is_ready_action}
use http_harness.Store.Rows
use http_harness.Store.Rows.{Db, RunRow, ActionRow, JobRow, DownstreamKey, ActionResult}
use http_harness.Store.Session.{log_event, put_action, put_attempt, add_attempt}
use http_harness.Store.Lease.{ClaimedJob, Claim}
use http_harness.Store.Fences.{leased_job-same}
use http_harness.Controller.Dispatch.{
  claimed_row, recovers_local, close_lost_attempt, dispatching, start_attempt, dispatch_action,
  begin_action_dispatch, claimed_epoch, job_serves,
}

pub claimed_row-same :
    (claimed : Option ClaimedJob) (worker : Option ℕ) (db db' : Db)
    → db'.jobs ≡ db.jobs
    → db'.clock ≡ db.clock
    → claimed_row claimed worker db' ≡ claimed_row claimed worker db
unfolding claimed_row
claimed_row-same none worker db db' j c = refl
claimed_row-same (some claimed) none db db' j c = refl
claimed_row-same (some claimed) (some worker) db db' j c =
    rw (leased_job-same db db' j c claimed worker) refl

-- What a write to an action leaves: the jobs, the clock, and the row that was written.
record Wrote (id : ℕ) (new : ActionRow) (db db' : Db) : Type 0 where
  same_jobs : db'.jobs ≡ db.jobs
  same_clock : db'.clock ≡ db.clock
  at : lookup id db'.actions ≡ some new

close_lost_attempt-same :
    (recovering : Bool) (id : ℕ) (key : Option DownstreamKey) (action : ActionRow) (db : Db)
    → Ensures
        (λ db'. (db'.jobs ≡ db.jobs) × (db'.clock ≡ db.clock))
        (close_lost_attempt recovering id key action db)
unfolding close_lost_attempt put_attempt
close_lost_attempt-same false id key action db = Ensures-ok _ _ (refl, refl)
close_lost_attempt-same true id key action db =
    Ensures-guard _ _ _ _ λ _. Ensures-bind _ _ _ λ previous _. Ensures-ok _ _ (refl, refl)

add_attempt-Wrote :
    (id attempt_id run_id : ℕ) (new : ActionRow) (attempt : Rows.AttemptRow) (run : RunRow)
    (type : Rows.EventType) (db : Db)
    → Ensures
        (λ db'. Wrote id new db (log_event run_id run type db'))
        (add_attempt attempt_id attempt (put_action id new db))
unfolding add_attempt put_action log_event
add_attempt-Wrote id attempt_id run_id new attempt run type db = Ensures-guard _ _ _ _ λ _.
    Ensures-ok _ _ (record {
      same_jobs = refl;
      same_clock = refl;
      at = ground (arith, lookup-insert id id new db.actions, ==-refl id);
    })

start_attempt-Wrote :
    (id attempt_id epoch : ℕ) (recovering : Bool) (key : Option DownstreamKey) (action : ActionRow)
    (run : RunRow) (db : Db)
    → Ensures
        (λ (_, db'). Wrote id (dispatching epoch key action) db db')
        (start_attempt id attempt_id epoch recovering key action run db)
unfolding start_attempt
start_attempt-Wrote id attempt_id epoch recovering key action run db =
    Ensures-bind _ _ _ λ closed c. Ensures-bind _ _ _ λ started s.
      let (j, k) = (close_lost_attempt-same recovering id key action db).at closed c in
      let w = (add_attempt-Wrote id attempt_id action.run_id _ _ run _ closed).at started s in
      Ensures-ok _ _ (record { same_jobs = cc; same_clock = cc; at = w.at })

-- What is known of a dispatch that was started.
record Dispatched (id : ℕ) (claim : Claim) (job : Option JobRow) (old : Option ActionRow)
    (db db' : Db) : Type 0 where
  pub action : ActionRow
  pub key : Option DownstreamKey
  pub was : old ≡ some action
  pub free :
      is_ready_action action.status || recovers_local job (claimed_epoch claim.claimed_job) action
      ≡ true
  pub wrote : Wrote id (dispatching (claimed_epoch claim.claimed_job) key action) db db'

dispatch_action-Dispatched :
    (id attempt_id : ℕ) (claim : Claim) (job : Option JobRow) (key : Option DownstreamKey)
    (old : Option ActionRow) (db : Db)
    → Ensures
        (λ (started, db'). started ≡ true → Dispatched id claim job old db db')
        (dispatch_action id attempt_id claim job key old db)
unfolding dispatch_action
dispatch_action-Dispatched id attempt_id claim job key none db = Ensures-ok _ _ (λ h. absurd (cc))
dispatch_action-Dispatched id attempt_id claim job key (some action) db =
    Ensures-when _ _ _ _ (λ _. Ensures-ok _ _ (λ h. absurd (cc)))
      (λ free. Ensures-require _ _ _ _ λ run _. Ensures-guard _ _ _ _ λ _.
        Ensures-guard _ _ _ _ λ _. record {
          at = λ (started, db') s h. record {
            action = action;
            key = key;
            was = refl;
            free = ground arith;
            wrote =
                (start_attempt-Wrote id attempt_id (claimed_epoch claim.claimed_job) _ key action
                    run db).at
                  (started, db') s;
          };
        })

-- A dispatch that has been started is neither ready nor recoverable under the same epoch.
dispatch_action-again :
    (id attempt_id : ℕ) (claim : Claim) (job : Option JobRow) (key old_key : Option DownstreamKey)
    (action : ActionRow) (db : Db)
    → dispatch_action id attempt_id claim job key
        (some (dispatching (claimed_epoch claim.claimed_job) old_key action))
        db
      ≡ ok (false, db)
unfolding dispatch_action recovers_local ◌>>=◌
dispatch_action-again id attempt_id claim none key old_key action db = refl
dispatch_action-again id attempt_id claim (some job) key old_key action db = ground arith

refused :
    (id attempt_id : ℕ) (claim : Claim) (key old_key : Option DownstreamKey) (action : ActionRow)
    (job : Option JobRow) (db : Db)
    → claimed_row claim.claimed_job claim.worker_id db ≡ ok job
    → lookup id db.actions ≡ some (dispatching (claimed_epoch claim.claimed_job) old_key action)
    → job_serves job id (some action) ≡ true
    → begin_action_dispatch id attempt_id claim key db ≡ ok (false, db)
unfolding begin_action_dispatch ◌>>=◌
refused id attempt_id claim key old_key action none db held at serves =
    ground (arith, dispatch_action-again id attempt_id claim none key old_key action db)
refused id attempt_id claim key old_key action (some job) db held at serves =
    ground (arith, dispatch_action-again id attempt_id claim (some job) key old_key action db)

-- A dispatch that was started leaves its action running.
pub begin_action_dispatch-running :
    (id attempt_id : ℕ) (claim : Claim) (key : Option DownstreamKey) (db : Db)
    → Ensures
        (λ (started, db').
          started ≡ true
          → (row : ActionRow) × (lookup id db'.actions ≡ some row)
            × (row.status ≡ ActionStatus.running))
        (begin_action_dispatch id attempt_id claim key db)
unfolding begin_action_dispatch
begin_action_dispatch-running id attempt_id claim key db = Ensures-bind _ _ _ λ job held.
    Ensures-guard _ _ _ _ λ serves. record {
      at = λ (started, db') s h.
          let d =
            (dispatch_action-Dispatched id attempt_id claim job key (lookup id db.actions) db).at
              (started, db') s h in
          (dispatching (claimed_epoch claim.claimed_job) d.key d.action, d.wrote.at, refl);
    }

begun :
    (id attempt_id next_id : ℕ) (claim : Claim) (key next_key : Option DownstreamKey) (db : Db)
    → Ensures
        (λ (started, db').
          started ≡ true → begin_action_dispatch id next_id claim next_key db' ≡ ok (false, db'))
        (begin_action_dispatch id attempt_id claim key db)
unfolding begin_action_dispatch
begun id attempt_id next_id claim key next_key db = Ensures-bind _ _ _ λ job held.
    Ensures-guard _ _ _ _ λ serves. record {
      at = λ (started, db') s h.
          let d =
            (dispatch_action-Dispatched id attempt_id claim job key (lookup id db.actions) db).at
              (started, db') s h in
          let w = d.wrote in
          let same =
            claimed_row-same claim.claimed_job claim.worker_id db db' w.same_jobs w.same_clock in
          refused id next_id claim next_key d.key d.action job db' (cc) w.at (rw (← d.was) serves);
    }

-- After `begin_action_dispatch` has said that an effect may run, it says no to every further
-- dispatch of the same action under the same claim, and changes nothing.
pub begin_action_dispatch-again :
    (id attempt_id next_id : ℕ) (claim : Claim) (key next_key : Option DownstreamKey) (db db' : Db)
    → begin_action_dispatch id attempt_id claim key db ≡ ok (true, db')
    → begin_action_dispatch id next_id claim next_key db' ≡ ok (false, db')
begin_action_dispatch-again id attempt_id next_id claim key next_key db db' h =
    (begun id attempt_id next_id claim key next_key db).at (true, db') h refl
