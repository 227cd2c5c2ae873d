-- ===== src/Execution/Run.antt =====
-- kernel/execution/run.go: the reducer of the Run aggregate.
pub mod Validation
pub mod Transition
pub mod Accepted
pub mod Revisions
pub mod Lifecycle
pub mod History
pub mod Liveness
pub mod Events
