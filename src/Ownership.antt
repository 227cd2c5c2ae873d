-- ===== src/Ownership.antt =====
-- kernel/ownership: the facts that close a Run, derived from what it owns.
pub mod Json
pub mod Facts
pub mod Graph
pub mod Quiet
pub mod Counts
pub mod Terminal
pub mod Uncertain
