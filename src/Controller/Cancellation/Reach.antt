-- ===== src/Controller/Cancellation/Reach.antt =====
-- Which runs a request to cancel reaches (`request_cancellation`).
use http_harness.Base.{
  ℕ, ◌≡◌, arith, true, false, Option, none, some, List, [], ◌∷◌, ◌==◌, ==-refl, ==→eq, subst,
  Bool-cases, inl, inr, member,
}
use http_harness.Base.Table.{Table, lookup}
use http_harness.Base.Ensures.{ok, Ensures, Ensures-ok, Ensures-bind, Ensures-guard, Ensures-when}
use http_harness.Domain.States.{is_cancelling}
use http_harness.Store.Rows
use http_harness.Store.Rows.{Db, RunRow, Context, IdempotencyRow}
use http_harness.Store.Session.{owns_run}
use http_harness.Store.Trace.Lifecycle.{Trace-Grows}
use http_harness.Store.Step.{Step}
use http_harness.Controller.Runs.Steps.{owned_run-lookup}
use http_harness.Controller.Admission.{Accepted, find_idempotency, remember}
use http_harness.Controller.Cancellation.{
  descendants, propagate, cancel_run_tree, cancellation_found, request_cancellation,
}
use http_harness.Controller.Cancellation.Steps.{start_cancelling-Step, visit-Step}
use http_harness.Controller.Cancellation.Descent.{
  IsHalted, visit-IsHalted, visit-pending, propagate-kept, listed, descendants-listed,
}

-- A run of the subject, in the table, under a parent.
record IsUnder (context : Context) (p c : ℕ) (db : Db) : Type 0 where
  run : RunRow
  at : lookup c db.runs ≡ some run
  owned : owns_run context run ≡ true
  under : run.parent_run_id ≡ some p

Step-IsUnder :
    (context : Context) (p c : ℕ) (db db' : Db)
    → Step db db'
    → IsUnder context p c db
    → IsUnder context p c db'
Step-IsUnder context p c db db' step h =
    let (later, at, edit) = (Trace-Grows step.trace).at c h.run h.at in
    record {
      run = later;
      at = at;
      owned = ground (arith, h.owned, edit.same_tenant, edit.same_subject);
      under = ground (arith, h.under, edit.same_parent);
    }

propagate-IsHalted :
    (context : Context) (job_ids : ℕ → ℕ) (now : ℕ) (pending : List ℕ) (p c : ℕ)
    (rows : Table RunRow) (db : Db)
    → listed c rows ≡ true
    → IsUnder context p c db
    → member p pending ≡ true
    → Ensures (IsHalted c) (propagate job_ids now pending rows db)
unfolding propagate
propagate-IsHalted context job_ids now pending p c [] db l h waits = absurd (cc)
propagate-IsHalted context job_ids now pending p c ((id, r) ∷ t) db l h waits =
    Ensures-bind _ _ _ λ (seen, moved) v. elim (Bool-cases (id == c)) [
      | inl same ↦ propagate-kept job_ids now seen c t moved (
          subst (λ k. IsHalted k moved) (==→eq id c same)
            ((visit-IsHalted job_ids now pending id h.run db (ground (arith, h.at, ==→eq id c same))
                (ground (arith, h.under, waits))).at
              (seen, moved) v))
      | inr other ↦
          propagate-IsHalted context job_ids now seen p c t moved (ground arith)
            (Step-IsUnder context p c db moved
              ((visit-Step job_ids now pending id db).at (seen, moved) v) h)
            ((visit-pending job_ids now pending id p db waits).at (seen, moved) v)
    ]

module _ (context : Context) (id : ℕ) (run : RunRow) (job_ids : ℕ → ℕ) (now : ℕ) (c : ℕ)
    (live : is_cancelling run.status ≡ false) where
  cancel_run_tree-IsHalted :
      (db : Db)
      → lookup id db.runs ≡ some run
      → IsUnder context id c db
      → Ensures (λ (_, db'). IsHalted c db') (cancel_run_tree context id run job_ids now db)
  unfolding cancel_run_tree
  cancel_run_tree-IsHalted db found h = Ensures-guard _ _ _ _ λ _.
      Ensures-when _ _ _ _ (λ halted. absurd (cc))
        (λ _. Ensures-bind _ _ _ λ moved m. Ensures-bind _ _ _ λ all a.
          let u =
            Step-IsUnder context id c db moved
              ((start_cancelling-Step id run (job_ids id) now db found).at moved m) h in
          Ensures-ok _ _ (
            (propagate-IsHalted context job_ids now (id ∷ []) id c (descendants context moved.runs)
                moved
                (descendants-listed context c u.run moved.runs u.at u.owned
                  (ground (arith, u.under)))
                u (ground (arith, ==-refl id))).at
              all a))

  cancellation_found-IsHalted :
      (key fingerprint : ℕ) (existing : Option IdempotencyRow) (db : Db)
      → existing ≡ none
      → lookup id db.runs ≡ some run
      → IsUnder context id c db
      → Ensures
          (λ (_, db'). IsHalted c db')
          (cancellation_found context id run key fingerprint job_ids now existing db)
  unfolding cancellation_found remember
  cancellation_found-IsHalted key fingerprint (some r) db fresh found h = absurd (cc)
  cancellation_found-IsHalted key fingerprint none db fresh found h =
      let noted = remember context Rows.post_cancellations key fingerprint id db in
      cancel_run_tree-IsHalted noted found
        (record { run = h.run; at = h.at; owned = h.owned; under = h.under })

requested-IsHalted :
    (context : Context) (id key fingerprint : ℕ) (job_ids : ℕ → ℕ) (now c : ℕ) (run : RunRow)
    (db : Db)
    → find_idempotency context Rows.post_cancellations key db.idempotency ≡ none
    → lookup id db.runs ≡ some run
    → is_cancelling run.status ≡ false
    → IsUnder context id c db
    → Ensures
        (λ (_, db'). IsHalted c db')
        (request_cancellation context id key fingerprint job_ids now db)
unfolding request_cancellation
requested-IsHalted context id key fingerprint job_ids now c run db fresh found live h =
    Ensures-bind _ _ _ λ row owned.
      let at = owned_run-lookup context id db row owned in
      cancellation_found-IsHalted context id row job_ids now c (ground (arith, at, found, live)) key
        fingerprint _ db fresh at h

-- A request under a new key to cancel a run that is not yet being cancelled leaves every child that
-- the subject has under it terminal or being cancelled too.
pub request_cancellation-IsHalted :
    (context : Context) (id key fingerprint : ℕ) (job_ids : ℕ → ℕ) (now c : ℕ) (run child : RunRow)
    (a : Accepted) (db db' : Db)
    → find_idempotency context Rows.post_cancellations key db.idempotency ≡ none
    → lookup id db.runs ≡ some run
    → is_cancelling run.status ≡ false
    → lookup c db.runs ≡ some child
    → owns_run context child ≡ true
    → child.parent_run_id ≡ some id
    → request_cancellation context id key fingerprint job_ids now db ≡ ok (a, db')
    → IsHalted c db'
request_cancellation-IsHalted context id key fingerprint job_ids now c run child a db db' fresh
      found live at owned under h =
    (requested-IsHalted context id key fingerprint job_ids now c run db fresh found live
        (record { run = child; at = at; owned = owned; under = under })).at
      (a, db') h
