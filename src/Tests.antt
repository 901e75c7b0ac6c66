-- ===== src/Tests.antt =====
-- Concrete inputs: each theorem with hypotheses at a value that meets them.
pub mod Platforms
mod Containers
mod Images
mod Ids
mod Counters
mod Lockfiles
mod Layers
mod Indexes
mod Identifiers
