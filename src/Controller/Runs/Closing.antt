-- ===== src/Controller/Runs/Closing.antt =====
-- What the ends of a run leave behind.
use http_harness.Base.{
  ℕ, ◌≡◌, refl, arith, false, ◌&&◌, some, [], ◌∷◌, ◌==◌, ◌==?◌, ==-refl, inl, inr, ◌⊎◌,
}
use http_harness.Base.Table.{Table, lookup, update_where, lookup-update_where}
use http_harness.Base.Ensures.{
  ok, Ensures, Ensures-ok, Ensures-bind, Ensures-guard, Ensures-require, Ensures-when,
}
use http_harness.Domain.States.{RunStatus, ActionStatus, is_terminal, is_open}
use http_harness.Store.Rows
use http_harness.Store.Rows.{Db, RunRow, ActionRow, JobRow, ReservationRow, Context, Dimension}
use http_harness.Store.Session.{
  cancel_open_actions, finish_ready_jobs, release_reservations, log_event, has_unresolved_actions,
  has_nonterminal_children, has_uncertain_effects, is_ready_job, is_reserved,
}
use http_harness.Store.Funding.Sums.{active, share}
use http_harness.Store.Lease.{Claim}
use http_harness.Controller.Runs.{finalize_run_cancellation, terminate_run, stopped}

cancellation_settled :
    (context : Context) (id : ℕ) (claim : Claim) (db : Db)
    → Ensures
        (λ (new, db').
          (new.status ≡ RunStatus.cancelled)
          × ((db' ≡ db)
              ⊎ ((has_unresolved_actions id db.actions ≡ false)
                  × (has_nonterminal_children id db.runs ≡ false))))
        (finalize_run_cancellation context id claim db)
unfolding finalize_run_cancellation
cancellation_settled context id claim db = Ensures-bind _ _ _ λ _ _. Ensures-bind _ _ _ λ run _.
    Ensures-when _ _ _ _ (λ ended. Ensures-ok _ _ (ground arith, inl refl))
      (λ _. Ensures-guard _ _ _ _ λ _. Ensures-guard _ _ _ _ λ resolved.
        Ensures-guard _ _ _ _ λ childless.
          Ensures-bind _ _ _ λ _ _. Ensures-ok _ _ (refl, inr (ground arith, ground arith)))

-- A cancellation becomes final only where every action of the run is settled and every child is
-- terminal; a run that is cancelled already is left as it is.
pub finalize_run_cancellation-settled :
    (context : Context) (id : ℕ) (claim : Claim) (db db' : Db) (new : RunRow)
    → finalize_run_cancellation context id claim db ≡ ok (new, db')
    → (new.status ≡ RunStatus.cancelled)
      × ((db' ≡ db)
          ⊎ ((has_unresolved_actions id db.actions ≡ false)
              × (has_nonterminal_children id db.runs ≡ false)))
finalize_run_cancellation-settled context id claim db db' new h =
    (cancellation_settled context id claim db).at (new, db') h

-- What no longer waits for a run: no action that may still be dispatched, nothing reserved, and no
-- job that is ready.
pub record IsClosed (id : ℕ) (db : Db) : Type 0 where
  pub dispatched :
      (k : ℕ) (a : ActionRow)
      → lookup k db.actions ≡ some a
      → a.run_id ≡ id
      → is_open a.status ≡ false
  pub released : (d : Dimension) → active id d db.reservations ≡ 0
  pub woken :
      (k : ℕ) (j : JobRow)
      → lookup k db.jobs ≡ some j
      → j.run_id ≡ some id
      → is_ready_job j.status ≡ false

cancel_open_actions-dispatched :
    (id : ℕ) (db : Db) (k : ℕ) (a : ActionRow)
    → lookup k (cancel_open_actions id db).actions ≡ some a
    → a.run_id ≡ id
    → is_open a.status ≡ false
unfolding cancel_open_actions is_open
cancel_open_actions-dispatched id db k a h same = ground (
  arith,
  lookup-update_where (λ r. r.run_id == id && is_open r.status)
      (λ r. record r { status = ActionStatus.cancelled }) k db.actions,
  ==-refl id,
)

finish_ready_jobs-woken :
    (id : ℕ) (db : Db) (k : ℕ) (j : JobRow)
    → lookup k (finish_ready_jobs id db).jobs ≡ some j
    → j.run_id ≡ some id
    → is_ready_job j.status ≡ false
unfolding finish_ready_jobs
finish_ready_jobs-woken id db k j h same = ground (
  arith,
  lookup-update_where (λ r. r.run_id ==? some id && is_ready_job r.status)
      (λ r. record r { status = Rows.done }) k db.jobs,
  ==-refl id,
)

release-active :
    (id : ℕ) (d : Dimension) (t : Table ReservationRow)
    → active id d (
        update_where
          (λ r. r.run_id == id && is_reserved r.status)
          (λ r. record r { status = Rows.released; actual_amount = some 0 })
          t)
      ≡ 0
unfolding active share update_where
release-active id d [] = refl
release-active id d ((k, r) ∷ t) = ground (arith, release-active id d t)

-- The store that `terminate_run` leaves, in two parts: what is closed, then the move of the run.
terminated-IsClosed :
    (id : ℕ) (new : RunRow) (type : Rows.EventType) (db : Db)
    → IsClosed id (
        finish_ready_jobs id
          (log_event id new type (release_reservations id (cancel_open_actions id db))))
unfolding finish_ready_jobs log_event release_reservations
terminated-IsClosed id new type db = record {
  dispatched = λ k a h same. cancel_open_actions-dispatched id db k a h same;
  released = λ d. release-active id d (cancel_open_actions id db).reservations;
  woken = λ k j h same.
      finish_ready_jobs-woken id
        (log_event id new type (release_reservations id (cancel_open_actions id db))) k j h same;
}

log_event-actions :
    (id : ℕ) (new : RunRow) (type : Rows.EventType) (db : Db)
    → (finish_ready_jobs id (log_event id new type db)).actions ≡ db.actions
unfolding finish_ready_jobs log_event
log_event-actions id new type db = refl

terminate-IsClosed :
    (id code : ℕ) (claim : Claim) (db : Db) (run : RunRow)
    → lookup id db.runs ≡ some run
    → is_terminal run.status ≡ false
    → Ensures
        (λ (new, db').
          IsClosed id db' × (new.status ≡ stopped (has_uncertain_effects id db'.actions)))
        (terminate_run id code claim db)
unfolding terminate_run
terminate-IsClosed id code claim db run found live = Ensures-bind _ _ _ λ _ _.
    Ensures-require _ _ _ _ λ run' found'.
      Ensures-when _ _ _ _ (λ ended. absurd (ground arith))
        (λ _. Ensures-bind _ _ _ λ _ _.
          Ensures-guard _ _ _ _
            λ _. Ensures-ok _ _ (terminated-IsClosed id _ _ db, rw (log_event-actions id) refl))

-- A run that `terminate_run` stops is closed for work; it is blocked where an external effect of it
-- is not confirmed, and failed otherwise.
pub terminate_run-IsClosed :
    (id code : ℕ) (claim : Claim) (db db' : Db) (run new : RunRow)
    → lookup id db.runs ≡ some run
    → is_terminal run.status ≡ false
    → terminate_run id code claim db ≡ ok (new, db')
    → IsClosed id db' × (new.status ≡ stopped (has_uncertain_effects id db'.actions))
terminate_run-IsClosed id code claim db db' run new found live h =
    (terminate-IsClosed id code claim db run found live).at (new, db') h
