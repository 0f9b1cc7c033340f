-- ===== src/Watcher.antt =====
-- The watcher of scripts/codex_approval_watcher.py, which reads a log and tells of the approvals that wait.
pub mod Pattern
pub mod Lines
pub mod Main
pub mod Bounds
pub mod Told
mod Tests
