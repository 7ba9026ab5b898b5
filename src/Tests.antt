-- ===== src/Tests.antt =====
-- Concrete stores and calls on which the definitions run, and the theorems at them.
pub mod Stores
pub mod Machine
pub mod Operations
pub mod Effects
pub mod Requests
pub mod Files
pub mod Questions
pub mod Payloads
pub mod Repeats
pub mod Turns
pub mod Replays
