-- ===== src/Domain.antt =====
-- The domain package (src/hnh/domain): its errors and its state machines.
pub mod Errors
pub mod States
pub mod Transitions
