-- ===== src/Controller/Cancellation/Descent.antt =====
-- The loop over the descendants in `request_cancellation`, run by run.
use http_harness.Base.{
  ℕ, ◌+◌, ◌≡◌, refl, arith, Bool, true, false, ◌||◌, some, List, [], ◌∷◌, ◌==◌, ==-refl, Bool-cases,
  inl, inr, is_none, member,
}
use http_harness.Base.Table.{Table, lookup, insert, lookup-insert}
use http_harness.Base.Ensures.{
  Ensures, Ensures-ok, Ensures-bind, Ensures-guard, Ensures-require, Ensures-when,
}
use http_harness.Domain.States.{RunStatus, is_terminal, is_cancelling}
use http_harness.Store.Rows.{Db, RunRow, Context}
use http_harness.Store.Session.{owns_run, log_event, add_job, cancel_open_actions}
use http_harness.Controller.Runs.{moved_to}
use http_harness.Controller.Cancellation.{
  put_in_order, descendants, start_cancelling, is_pending, visit, propagate,
}

-- The run under an identifier is terminal or being cancelled.
pub record IsHalted (id : ℕ) (db : Db) : Type 0 where
  pub run : RunRow
  pub at : lookup id db.runs ≡ some run
  pub halted : is_terminal run.status || is_cancelling run.status ≡ true

abbrev cancelling_row : RunRow → RunRow
cancelling_row run = record (moved_to RunStatus.cancelling run) { event_seq = run.event_seq + 1 }

pub start_cancelling-runs :
    (id : ℕ) (run : RunRow) (job_id now : ℕ) (db : Db)
    → Ensures
        (λ db'. db'.runs ≡ insert id (cancelling_row run) db.runs)
        (start_cancelling id run job_id now db)
unfolding start_cancelling add_job log_event cancel_open_actions
start_cancelling-runs id run job_id now db =
    Ensures-bind _ _ _ λ _ _. Ensures-guard _ _ _ _ λ _. Ensures-ok _ _ refl

-- What starts to cancel one run halts it, and halts no other run less.
pub started-IsHalted :
    (id : ℕ) (run : RunRow) (db db' : Db)
    → db'.runs ≡ insert id (cancelling_row run) db.runs
    → IsHalted id db'
unfolding is_terminal
started-IsHalted id run db db' e = record {
  run = cancelling_row run;
  at = rw e (ground (arith, lookup-insert id id (cancelling_row run) db.runs, ==-refl id));
  halted = refl;
}

pub kept-IsHalted :
    (id c : ℕ) (run : RunRow) (db db' : Db)
    → db'.runs ≡ insert id (cancelling_row run) db.runs
    → IsHalted c db
    → IsHalted c db'
unfolding is_terminal
kept-IsHalted id c run db db' e h = elim (Bool-cases (id == c)) [
  | inl same ↦ record {
    run = cancelling_row run;
    at = rw e (ground (arith, lookup-insert id c (cancelling_row run) db.runs));
    halted = refl;
  }
  | inr other ↦ record {
    run = h.run;
    at = rw e (ground (arith, lookup-insert id c (cancelling_row run) db.runs, h.at));
    halted = h.halted;
  }
]

module _ (job_ids : ℕ → ℕ) (now : ℕ) where
  pub visit-kept :
      (pending : List ℕ) (id c : ℕ) (db : Db)
      → IsHalted c db
      → Ensures (λ (_, db'). IsHalted c db') (visit job_ids now pending id db)
  unfolding visit
  visit-kept pending id c db h = Ensures-require _ _ _ _ λ child _.
      Ensures-when _ _ _ _
        (λ _.
          Ensures-when _ _ _ _ (λ _. Ensures-ok _ _ h)
            (λ _. Ensures-bind _ _ _ λ moved m. Ensures-ok _ _ (
              kept-IsHalted id c child db moved
                ((start_cancelling-runs id child (job_ids id) now db).at moved m) h)))
        (λ _. Ensures-ok _ _ h)

  pub visit-IsHalted :
      (pending : List ℕ) (id : ℕ) (run : RunRow) (db : Db)
      → lookup id db.runs ≡ some run
      → is_pending pending run ≡ true
      → Ensures (λ (_, db'). IsHalted id db') (visit job_ids now pending id db)
  unfolding visit
  visit-IsHalted pending id run db found waits = Ensures-require _ _ _ _ λ child at.
      Ensures-when _ _ _ _
        (λ _.
          Ensures-when _ _ _ _
            (λ halted. Ensures-ok _ _ (record { run = child; at = at; halted = halted }))
            (λ _. Ensures-bind _ _ _ λ moved m. Ensures-ok _ _ (
              started-IsHalted id child db moved
                ((start_cancelling-runs id child (job_ids id) now db).at moved m))))
        (λ idle. absurd (ground arith))

  pub visit-pending :
      (pending : List ℕ) (id p : ℕ) (db : Db)
      → member p pending ≡ true
      → Ensures (λ (seen, _). member p seen ≡ true) (visit job_ids now pending id db)
  unfolding visit
  visit-pending pending id p db h = Ensures-require _ _ _ _ λ child _.
      Ensures-when _ _ _ _
        (λ _.
          Ensures-when _ _ _ _ (λ _. Ensures-ok _ _ (ground arith))
            (λ _. Ensures-bind _ _ _ λ moved _. Ensures-ok _ _ (ground arith)))
        (λ _. Ensures-ok _ _ h)

  pub propagate-kept :
      (pending : List ℕ) (c : ℕ) (rows : Table RunRow) (db : Db)
      → IsHalted c db
      → Ensures (IsHalted c) (propagate job_ids now pending rows db)
  unfolding propagate
  propagate-kept pending c [] db h = Ensures-ok _ _ h
  propagate-kept pending c ((id, r) ∷ t) db h = Ensures-bind _ _ _ λ (seen, moved) v.
      propagate-kept seen c t moved ((visit-kept pending id c db h).at (seen, moved) v)

-- A table has a row under a key.
abbrev pub listed : ℕ → Table RunRow → Bool
listed c [] = false
listed c ((k, _) ∷ t) = k == c || listed c t

put_in_order-listed :
    (c k : ℕ) (r : RunRow) (t : Table RunRow)
    → listed c (put_in_order (k, r) t) ≡ (k == c || listed c t)
unfolding put_in_order
put_in_order-listed c k r [] = refl
put_in_order-listed c k r ((j, s) ∷ t) = ground (arith, put_in_order-listed c k r t)

pub descendants-listed :
    (context : Context) (c : ℕ) (r : RunRow) (t : Table RunRow)
    → lookup c t ≡ some r
    → owns_run context r ≡ true
    → is_none r.parent_run_id ≡ false
    → listed c (descendants context t) ≡ true
unfolding descendants lookup
descendants-listed context c r [] h owns child = absurd (cc)
descendants-listed context c r ((k, s) ∷ t) h owns child =
    ground
      (arith, descendants-listed context c r t, put_in_order-listed c k s (descendants context t))
