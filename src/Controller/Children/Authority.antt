-- ===== src/Controller/Children/Authority.antt =====
-- The authority of an admitted child: its place in the tree of runs and its scopes.
use http_harness.Base.{
  ℕ, ◌+◌, ◌≤◌, ◌≡◌, refl, arith, true, false, none, some, Option, ◌==◌, ==-refl, member,
  intersection, member-intersection, is_none→eq,
}
use http_harness.Base.Table.{lookup, lookup-insert}
use http_harness.Base.Ensures.{
  ok, Ensures, Ensures-ok, Ensures-bind, Ensures-guard, Ensures-require,
}
use http_harness.Store.Rows
use http_harness.Store.Rows.{Db, RunRow, Context, IdempotencyRow}
use http_harness.Store.Session.{add_run, log_event}
use http_harness.Controller.Runs.{narrow}
use http_harness.Controller.Runs.Scopes.{Grants, narrow-Grants}
use http_harness.Controller.Runs.Steps.{owned_run-lookup}
use http_harness.Controller.Admission.{Accepted, remember, replay}
use http_harness.Controller.Children.{
  ChildRequest, ChildIds, child_scopes, new_child, create_child, admit_new_child, child_found,
  admit_child_run,
}
use http_harness.Controller.Children.Steps.{add_budget-runs, add_job-runs}
use http_harness.Controller.Children.Reserving.{reserve_limits-runs}

-- A child under its parent: one level deeper and within the bound, owned by the caller, and with
-- scopes that were asked for and that the parent's own context grants.
pub record IsChild (context : Context) (parent_id : ℕ) (request : ChildRequest) (db : Db) (id : ℕ)
    (db' : Db) : Type 0 where
  pub parent : RunRow
  pub child : RunRow
  pub parent_at : lookup parent_id db.runs ≡ some parent
  pub child_at : lookup id db'.runs ≡ some child
  pub linked : child.parent_run_id ≡ some parent_id
  pub deeper : child.child_depth ≡ parent.child_depth + 1
  pub bounded : child.child_depth ≤ request.max_depth
  pub same_owner : (child.tenant_id ≡ context.tenant_id) × (child.subject_id ≡ context.subject_id)
  pub granted :
      (scope : ℕ) → member scope child.admitted_scopes ≡ true → Grants context parent scope
  pub requested :
      (scope : ℕ)
      → member scope child.admitted_scopes ≡ true
      → member scope request.requested_scopes ≡ true

module _ (context : Context) (parent_id : ℕ) (parent : RunRow) (request : ChildRequest)
    (ids : ChildIds) (now : ℕ) where
  scopes_of :
      (scope : ℕ)
      → member scope (child_scopes context parent request.requested_scopes) ≡ true
      → Grants context parent scope × (member scope request.requested_scopes ≡ true)
  scopes_of scope h =
      let mine =
        narrow parent.delegated_scopes (intersection context.scopes parent.admitted_scopes) in
      let both = member-intersection scope mine request.requested_scopes in
      (narrow-Grants context parent scope (ground (arith, both)), ground (arith, both))

  -- The child's row, through the writes that follow its own.
  add_run-row :
      (id : ℕ) (row : RunRow) (db : Db)
      → lookup parent_id db.runs ≡ some parent
      → Ensures
          (λ db'.
            (lookup id db'.runs ≡ some (record row { event_seq = 1 }))
            × ((parent_id == id) ≡ false))
          (add_run id row db)
  unfolding add_run
  add_run-row id row db found = Ensures-guard _ _ _ _ λ free. Ensures-ok _ _ (
    ground (arith, lookup-insert id id (record row { event_seq = 1 }) db.runs, ==-refl id),
    ground (arith, is_none→eq free, found),
  )

  log_event-other :
      (id : ℕ) (row : RunRow) (type : Rows.EventType) (db : Db)
      → (parent_id == id) ≡ false
      → lookup id db.runs ≡ some row
      → lookup id (log_event parent_id parent type db).runs ≡ some row
  unfolding log_event
  log_event-other id row type db other at = ground (
    arith,
    lookup-insert parent_id id (record parent { event_seq = parent.event_seq + 1 }) db.runs,
  )

  create_child-row :
      (db : Db)
      → lookup parent_id db.runs ≡ some parent
      → Ensures
          (λ (a, db').
            lookup a.resource_id db'.runs
            ≡ some (
                new_child context parent_id parent
                  (child_scopes context parent request.requested_scopes)
                  now))
          (create_child context parent_id parent request ids now db)
  unfolding create_child
  create_child-row db found = Ensures-bind _ _ _ λ added a. Ensures-bind _ _ _ λ funded f.
      Ensures-bind _ _ _ λ opened o. Ensures-bind _ _ _ λ queued q.
        let row : RunRow =
          new_child context parent_id parent (child_scopes context parent request.requested_scopes)
            now in
        let (at, other) = (add_run-row ids.child_id row db found).at added a in
        let rf = (reserve_limits-runs parent_id ids request.limits added).at funded f in
        let ro = (add_budget-runs ids.child_id request.limits funded).at opened o in
        let rq = (add_job-runs _ _ _ _ _ _ opened).at queued q in
        Ensures-ok _ _ (
          log_event-other ids.child_id row Rows.run_child_accepted queued other
            (rw rq (rw ro (rw rf at))))

  admit_new_child-IsChild :
      (key fingerprint : ℕ) (db : Db)
      → lookup parent_id db.runs ≡ some parent
      → Ensures
          (λ (a, db'). IsChild context parent_id request db a.resource_id db')
          (admit_new_child context parent_id parent key fingerprint request ids now db)
  unfolding admit_new_child remember
  admit_new_child-IsChild key fingerprint db found = Ensures-guard _ _ _ _ λ _.
      Ensures-guard _ _ _ _ λ depth. Ensures-guard _ _ _ _ λ _. Ensures-require _ _ _ _ λ b _.
        Ensures-guard _ _ _ _ λ _. Ensures-guard _ _ _ _ λ _. Ensures-guard _ _ _ _ λ _.
          Ensures-guard _ _ _ _ λ _. Ensures-guard _ _ _ _ λ _. Ensures-guard _ _ _ _ λ _. record {
            at = λ (a, db') c. record {
              parent = parent;
              child =
                  new_child context parent_id parent
                    (child_scopes context parent request.requested_scopes) now;
              parent_at = found;
              child_at =
                  (create_child-row
                      (remember context Rows.post_children key fingerprint ids.child_id db)
                      found).at
                    (a, db') c;
              linked = refl;
              deeper = refl;
              bounded = ground arith;
              same_owner = (refl, refl);
              granted = λ scope h. (scopes_of scope h).0;
              requested = λ scope h. (scopes_of scope h).1;
            };
          }

  child_found-IsChild :
      (key fingerprint : ℕ) (existing : Option IdempotencyRow) (db : Db)
      → lookup parent_id db.runs ≡ some parent
      → Ensures
          (λ (a, db'). a.replayed ≡ false → IsChild context parent_id request db a.resource_id db')
          (child_found context parent_id parent key fingerprint request ids now existing db)
  unfolding child_found replay
  child_found-IsChild key fingerprint none db found = record {
    at = λ r e _. (admit_new_child-IsChild key fingerprint db found).at r e;
  }
  child_found-IsChild key fingerprint (some existing) db found =
      Ensures-guard _ _ _ _ λ _. Ensures-ok _ _ (λ fresh. absurd (cc))

admitted-IsChild :
    (context : Context) (parent_id key fingerprint : ℕ) (request : ChildRequest) (ids : ChildIds)
    (now : ℕ) (db : Db)
    → Ensures
        (λ (a, db'). a.replayed ≡ false → IsChild context parent_id request db a.resource_id db')
        (admit_child_run context parent_id key fingerprint request ids now db)
unfolding admit_child_run
admitted-IsChild context parent_id key fingerprint request ids now db = Ensures-guard _ _ _ _ λ _.
    Ensures-guard _ _ _ _ λ _. Ensures-bind _ _ _ λ parent owned.
      child_found-IsChild context parent_id parent request ids now key fingerprint _ db
        (owned_run-lookup context parent_id db parent owned)

-- A child that is admitted is the caller's, stands one level under its parent and within the depth
-- that was allowed, and has only scopes that were requested and that the parent itself may use.
pub admit_child_run-IsChild :
    (context : Context) (parent_id key fingerprint : ℕ) (request : ChildRequest) (ids : ChildIds)
    (now : ℕ) (a : Accepted) (db db' : Db)
    → admit_child_run context parent_id key fingerprint request ids now db ≡ ok (a, db')
    → a.replayed ≡ false
    → IsChild context parent_id request db a.resource_id db'
admit_child_run-IsChild context parent_id key fingerprint request ids now a db db' h fresh =
    (admitted-IsChild context parent_id key fingerprint request ids now db).at (a, db') h fresh
