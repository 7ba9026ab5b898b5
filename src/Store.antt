-- ===== src/Store.antt =====
-- The database of the run controller (src/hnh/adapters/postgres/models.py) and what each of its
-- transactions uses: the rows, the queries and writes that operations share, the lease fences,
-- and the relation that says how a committed transaction may change the store.
pub mod Rows
pub mod Tests
pub mod Session
pub mod Lease
pub mod Funding
pub mod Trace
pub mod Step
pub mod Fences
