-- ===== src/Contracts.antt =====
-- The language-facing contract types of sdk/go/contracts.
pub mod Identity
pub mod Statuses
pub mod Json
pub mod Records
pub mod Runtimes
pub mod EffectStates
pub mod Effects
pub mod Ownership
pub mod Workflows
