-- ===== src/Backup.antt =====
-- scripts/validate-hasslehoff-backup-policy.py, which checks the policy of backups.
pub mod Policy
pub mod Covered
mod Tests
