-- ===== src/Execution/Invocation.antt =====
-- kernel/execution/invocation.go: the reducer of the Invocation aggregate and its attempts.
pub mod Validation
pub mod Fence
pub mod Activation
pub mod Claims
pub mod Primary
pub mod Waits
pub mod Recovery
pub mod Compensation
pub mod Steps
pub mod Changes
pub mod Frozen
pub mod Conflicts
pub mod Live
pub mod OneLive
pub mod Leases
