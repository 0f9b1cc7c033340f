-- ===== src/Spool.antt =====
-- scripts/forge_memory_spool.py: a log of events per session, closed by a manifest and published.
pub mod Check
pub mod Keys
pub mod Files
pub mod Events
pub mod Publish
pub mod Sessions
pub mod Lines
pub mod Stored
pub mod Appends
pub mod Guarded
pub mod Safety
pub mod Paths
pub mod Bootstrap
mod Tests
