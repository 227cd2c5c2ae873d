-- ===== src/Workflow.antt =====
-- kernel/workflow and the routing of controller: what a compiled plan allows, and how a Run walks it.
pub mod Retry
pub mod Backoff
pub mod Routing
pub mod Walk
pub mod Progress
pub mod Reachable
pub mod Dominance
