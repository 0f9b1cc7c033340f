-- ===== src/Firstboot.antt =====
-- The enrollment bundles of a first boot: scripts/validate_secure_firstboot_bundle.py and
-- scripts/stage_secure_firstboot_bundle.py.
pub mod Bundle
pub mod Stage
pub mod Accepted
pub mod Staged
mod Tests
