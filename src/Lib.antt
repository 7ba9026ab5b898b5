-- ===== src/Lib.antt =====
-- A model of the run controller of HNH, an HTTP harness for agents, and of what it promises.
--
-- The program. An agent's work is a run. `RunController` (src/hnh/application/run_controller.py) is
-- the only part that changes stored state: each method is one PostgreSQL transaction over the tables
-- of src/hnh/adapters/postgres/models.py. Clients admit runs and ask for their cancellation through
-- the HTTP transport; workers claim durable jobs under a lease, move the run along its diagram
-- (src/hnh/domain/states.py), record model calls, admit and dispatch actions (effects in other
-- systems), and settle what an effect cost; operators reconcile effects whose outcome is not known.
-- Everything that happens to a run is an event of its log.
--
-- The files. `Base` has the shared helpers: Boolean tests, scopes, tables keyed by identifiers, tables
-- that only grow, results of transactions and postconditions of them (`Ensures`).
--   Domain      errors.py and states.py: exceptions, statuses, the transition table; `Follows` is the
--               diagram as a relation, with the number of its moves.
--   Store       models.py: a row type for each table, `Db` for the database; `Session` has the queries
--               and writes that methods share, `Lease` the fences (`_lease_matches`,
--               `_require_claimed_*_locked`), `Funding` the columns and sums of budgets.
--   Store/Trace the effect of transactions on runs and events as a relation, with the invariants that
--               follow by induction on it.
--   Store/Step  what any committed transaction keeps, and that each single write keeps it.
--   Controller  run_controller.py, one function for each method and under the method's name. `Runs` has
--               the methods that move a run, `Jobs` claims and leases, `Dispatch`, `Effects` and
--               `Reconciliation` actions, `Budget` reservations, `Admission`, `Children` and
--               `Cancellation` the requests with an idempotency key, `ModelCalls` the turns of the
--               model, `Events` the history, `Inputs` the questions to the user: approvals of actions,
--               clarifications, their answers, and the test of an approval before a dispatch (in
--               `Responses`); its `Approval`, `Once`, `Effect` and `Expiry` are about an answer. The child
--               module `Steps` of each relates its methods to `Store/Step`; the other child modules are
--               about what the methods do.
--   Recovery    application/recovery.py: the rules for effects (`RecoveryCoordinator`), around a driver
--               (ports/effects.py) that is a parameter.
--   Calls       the controller as one machine: a constructor for each method, the transaction it runs,
--               the rollback when it raises, and the stores that sequences of calls reach.
--   Resources   application/resources.py with adapters/blobs/filesystem.py: artifacts and the files of
--               workspaces, read here; `Writes` creates artifacts and collects blobs, `Edits` writes files.
--               `Blobs` is about the files that hold the bytes, `Entries` about the table of paths,
--               `Changes` and `Steps` about what a call changes, and `Reach` about the stores that calls,
--               writers that stop half way and collections reach; `Reach/Promise` has the map from paths to
--               contents that the store stands for.
--   Operations  application/operations.py: the bound on the depth of a JSON document.
--   Tests       concrete stores, and the theorems at them.
--
-- The model. A method takes the database and returns its result with the new database, or an error;
-- the error of a transaction leaves the database as it was. Identifiers, digests, keys and scopes are
-- only compared and are natural numbers. A set of scopes is a list in the sorted order in which
-- `scope_fingerprint` digests it, and the list stands for its digest: two lists that differ in order
-- alone are no two sets of the program. Times are seconds: `clock` is the database's `now()`, and
-- `datetime.now(UTC)` of the application is an argument `now`. Identifiers that the code draws at random
-- are arguments, and the insert of a used one raises. Amounts are natural numbers, so that the tests
-- for negative ones have nothing to do. The loop over the pending values of a document has fuel, the
-- number of values in it, which is enough as each round takes one value off; all other loops run over
-- lists. In `Resources` contents, paths and digests are texts, lists of code points (`Base/Texts`);
-- SHA-256, the normal form NFC, the digest of a request, the text of a workspace's identifier and
-- whether there is a blob store are the fields of a parameter (`Env`), and theorems about bytes suppose
-- that no two of the contents that are ever sent (`Sent`) have one digest. A blob is published before
-- the transaction that names it, as in the code. The widths of the columns that a file's path and
-- workspace go into are tested where the rows are written (`Resources.Edits.fits`); a path that fits
-- the ledger's route fits `location` and `logical_path` too.
--
-- Not modelled. Documents that are stored and handed back and decide nothing (goals, payloads,
-- receipts, event data, completion records); JSON and SHA-256, of which the fingerprint of a request
-- is an argument; unique constraints other than primary keys, the widths of columns other than those
-- of paths and workspaces, and the missing database clock; row
-- locks, in whose place transactions are serial and the rows that `SKIP LOCKED` passes over are an
-- argument; in serial transactions the second read of the ledger in `respond_to_input` finds nothing
-- new. Prompts and schemas of questions, media types other than their names, MCP and execution records,
-- checkpoints, and the parts around the controller (worker, gateway, adapters other than the blob files,
-- transport) are left out.
pub mod Base
pub mod Domain
pub mod Store
pub mod Controller
pub mod Recovery
pub mod Calls
pub mod Resources
pub mod Operations
pub mod Tests
