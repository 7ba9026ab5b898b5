-- ===== src/Controller/Jobs/Leasing.antt =====
-- What a claim of a job gives, and what it keeps from others.
use http_harness.Base.{ℕ, ◌+◌, ◌≤◌, ◌≡◌, refl, arith, true, false, none, some, Option, List}
use http_harness.Base.Table.{lookup, lookup-insert}
use http_harness.Base.Unique.{HasUniqueKeys}
use http_harness.Base.Ensures.{ok, ◌>>=◌, Ensures, Ensures-ok, Ensures-bind}
use http_harness.Store.Step.Moves.{is_done}
use http_harness.Store.Rows
use http_harness.Store.Rows.{Db, JobRow, JobKind}
use http_harness.Store.Lease.{ClaimedJob, leased_job, lease_matches}
use http_harness.Store.Session.{put_job}
use http_harness.Controller.Jobs.{
  claim_job, complete_job, take_job, first_due, is_claimable, due_before, leased_to, claim_of,
}
use http_harness.Controller.Jobs.Steps.{first_due-lookup, first_due-least, first_due-some}

-- A job that `claim_job` chose from a store.
pub record Chosen (kind : Option JobKind) (locked : List ℕ) (db : Db) (id : ℕ) (job : JobRow)
    : Type 0 where
  pub at : lookup id db.jobs ≡ some job
  pub claimable : is_claimable kind locked db.clock id job ≡ true
  pub least :
      (j : ℕ) (other : JobRow)
      → lookup j db.jobs ≡ some other
      → is_claimable kind locked db.clock j other ≡ true
      → due_before id job j other ≡ true

-- A claim and the store it leaves, from the row that was chosen.
pub record Claimed (worker seconds : ℕ) (kind : Option JobKind) (locked : List ℕ) (db : Db)
    (claimed : ClaimedJob) (db' : Db) : Type 0 where
  pub id : ℕ
  pub job : JobRow
  pub chosen : Chosen kind locked db id job
  pub claims : claimed ≡ claim_of id (leased_to worker (db.clock + seconds) job)
  pub writes : db' ≡ put_job id (leased_to worker (db.clock + seconds) job) db

taken-Claimed :
    (worker seconds : ℕ) (kind : Option JobKind) (locked : List ℕ) (db : Db)
    (chosen : Option (ℕ × JobRow)) (claimed : ClaimedJob) (db' : Db)
    → HasUniqueKeys db.jobs
    → first_due (is_claimable kind locked db.clock) db.jobs ≡ chosen
    → take_job worker seconds chosen db ≡ (some claimed, db')
    → Claimed worker seconds kind locked db claimed db'
unfolding take_job
taken-Claimed worker seconds kind locked db none claimed db' u e h = absurd (cc)
taken-Claimed worker seconds kind locked db (some (id, job)) claimed db' u e h =
    let (at, claimable) = first_due-lookup _ db.jobs id job u e in
    record {
      id = id;
      job = job;
      chosen = record {
        at = at;
        claimable = claimable;
        least = λ j other found able. first_due-least _ db.jobs id job j other found able e;
      };
      claims = cc;
      writes = cc;
    }

-- Where primary keys are unique, a claim that `claim_job` returns is of a row that was ready or
-- whose lease had run out, that was due, of the wanted kind and not locked, and no such row comes
-- before it in the order of due time and id; the row is leased under the next epoch.
pub claim_job-Claimed :
    (worker seconds : ℕ) (kind : Option JobKind) (locked : List ℕ) (db : Db) (claimed : ClaimedJob)
    (db' : Db)
    → HasUniqueKeys db.jobs
    → claim_job worker seconds kind locked db ≡ ok (some claimed, db')
    → Claimed worker seconds kind locked db claimed db'
unfolding claim_job ◌>>=◌
claim_job-Claimed worker seconds kind locked db claimed db' u h =
    taken-Claimed worker seconds kind locked db _ claimed db' u refl (ground arith)

idle-none :
    (worker seconds : ℕ) (chosen : Option (ℕ × JobRow)) (db db' : Db)
    → take_job worker seconds chosen db ≡ (none, db')
    → chosen ≡ none
unfolding take_job
idle-none worker seconds none db db' h = refl
idle-none worker seconds (some (id, job)) db db' h = absurd (cc)

-- `claim_job` returns nothing only where no row is claimable.
claim_job-none :
    (worker seconds : ℕ) (kind : Option JobKind) (locked : List ℕ) (db db' : Db) (id : ℕ)
    (job : JobRow)
    → claim_job worker seconds kind locked db ≡ ok (none, db')
    → lookup id db.jobs ≡ some job
    → is_claimable kind locked db.clock id job ≡ false
unfolding claim_job ◌>>=◌
claim_job-none worker seconds kind locked db db' id job h found =
    let empty =
      idle-none worker seconds (first_due (is_claimable kind locked db.clock) db.jobs) db db'
        (ground arith) in
    ground (arith, first_due-some (is_claimable kind locked db.clock) db.jobs id job found)

fresh_lease :
    (worker until now id : ℕ) (job : JobRow)
    → now ≤ until
    → lease_matches
        (some (leased_to worker until job))
        (claim_of id (leased_to worker until job))
        worker
        now
      ≡ true
unfolding lease_matches
fresh_lease worker until now id job h = ground arith

live_lease :
    (worker until now id : ℕ) (kind : Option JobKind) (locked : List ℕ) (job : JobRow)
    → now ≤ until
    → is_claimable kind locked now id (leased_to worker until job) ≡ false
unfolding is_claimable
live_lease worker until now id kind locked job h = ground arith

-- Until its lease runs out, a claim passes the fence, and no other claim can take its row.
pub claim_job-leased_job :
    (worker seconds now : ℕ) (kind : Option JobKind) (locked : List ℕ) (db : Db)
    (claimed : ClaimedJob) (db' : Db) (other_kind : Option JobKind) (other_locked : List ℕ)
    → HasUniqueKeys db.jobs
    → claim_job worker seconds kind locked db ≡ ok (some claimed, db')
    → now ≤ db.clock + seconds
    → (row : JobRow) × (leased_job claimed worker (record db' { clock = now }) ≡ ok row)
      × (lookup claimed.id db'.jobs ≡ some row)
      × (is_claimable other_kind other_locked now claimed.id row ≡ false)
unfolding leased_job ◌>>=◌ put_job
claim_job-leased_job worker seconds now kind locked db claimed db' other_kind other_locked u h
      live =
    let c = claim_job-Claimed worker seconds kind locked db claimed db' u h in
    let row = leased_to worker (db.clock + seconds) c.job in
    (
      row,
      ground (
        arith,
        c.claims,
        c.writes,
        lookup-insert c.id c.id row db.jobs,
        fresh_lease worker (db.clock + seconds) now c.id c.job live,
      ),
      ground (arith, c.claims, c.writes, lookup-insert c.id c.id row db.jobs),
      ground (
        arith,
        c.claims,
        live_lease worker (db.clock + seconds) now c.id other_kind other_locked c.job live,
      ),
    )

pub complete_job-done :
    (claimed : ClaimedJob) (worker : ℕ) (db : Db)
    → Ensures
        (λ (u, db').
          (row : JobRow) × (lookup claimed.id db'.jobs ≡ some row) × (is_done row.status ≡ true))
        (complete_job claimed worker db)
unfolding complete_job put_job
complete_job-done claimed worker db = Ensures-bind _ _ _ λ job held.
    let row = record job { status = Rows.done; lease_owner = none; lease_until = none } in
    Ensures-ok _ _ (row, ground (arith, lookup-insert claimed.id claimed.id row db.jobs), refl)
