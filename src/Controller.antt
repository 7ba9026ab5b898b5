-- ===== src/Controller.antt =====
-- `RunController` (src/hnh/application/run_controller.py), one function for each method.
pub mod Runs
pub mod Jobs
pub mod Dispatch
pub mod Effects
pub mod Reconciliation
pub mod Budget
pub mod Limits
pub mod Admission
pub mod Cancellation
pub mod Children
pub mod ModelCalls
pub mod Events
pub mod Inputs
