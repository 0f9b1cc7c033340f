-- ===== src/Identity.antt =====
-- scripts/validate_identity_source.py, scripts/render_identity_sync_plan.py and
-- scripts/apply_identity_sync_plan.py: the identity source, its validation, the plan and its application.
pub mod Check
pub mod Fields
pub mod Ranges
pub mod Rows
pub mod Source
pub mod Clean
pub mod Directory
pub mod Accepted
pub mod Plan
pub mod Apply
pub mod Tests
