-- ===== src/Execution.antt =====
-- kernel/execution: the deterministic reducers of the Run and Invocation aggregates.
pub mod Identity
pub mod Event
pub mod Checks
pub mod Run
pub mod Invocation
