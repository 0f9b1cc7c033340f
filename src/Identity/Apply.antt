-- ===== src/Identity/Apply.antt =====
-- scripts/apply_identity_sync_plan.py: the gated application of a plan.
pub mod Run
pub mod Env
pub mod Freeipa
pub mod Freeradius
pub mod Main
pub mod Keeps
pub mod Invariant
pub mod Safety
pub mod Redaction
mod Tests
