-- ===== src/Effect.antt =====
-- kernel/effect: the protocol of external effects, which an adapter applies and reports on.
pub mod Json
pub mod Checks
pub mod Records
pub mod Envelopes
pub mod Receipts
pub mod Commands
pub mod Events
pub mod Outcomes
pub mod Primary
pub mod Remedies
pub mod Compensation
pub mod Steps
pub mod Frozen
pub mod Machine
pub mod Moves
pub mod Validity
pub mod Closing
pub mod Outbox
pub mod Replay
pub mod Ledgers
pub mod Fences
