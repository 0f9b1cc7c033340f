-- ===== src/Dns.antt =====
-- scripts/apply-hetzner-dns-plan.py.
pub mod Provider
pub mod Records
pub mod Groups
pub mod Errors
pub mod Requests
pub mod Lookup
pub mod Apply
pub mod Counts
pub mod Ensures
pub mod Sends
pub mod Tokens
pub mod Runs
pub mod Safety
pub mod Pages
mod Tests
