-- ===== src/Sync.antt =====
-- crates/yoop-core/src/sync: directory synchronisation.
pub mod Model
pub mod Index
pub mod Conflict
pub mod Engine
pub mod Plan
pub mod Session
mod Examples
