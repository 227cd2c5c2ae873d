-- ===== src/Witnesses.antt =====
-- Concrete runs and ledgers, and the theorems applied to them.
mod Encoder
mod Runs
mod RunTheorems
mod Ledgers
mod LedgerTheorems
mod Bindings
mod Takeovers
mod Effects
mod EffectRuns
mod EffectTheorems
mod EffectConflict
mod Closure
mod Uncertain
mod Routing
mod Graphs
