-- ===== src/Runtime.antt =====
-- kernel/runtime: the reducer of runtime bindings, which managed processes hold under a generation
-- and a fencing token.
pub mod Validation
pub mod Operations
pub mod Steps
pub mod Fencing
pub mod Validity
pub mod Observations
pub mod Takeovers
