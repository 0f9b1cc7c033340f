-- ===== src/DnsPlan.antt =====
-- scripts/plan-hetzner-dns-from-inventory.py: the DNS records that the inventory asks for.
pub mod Names
pub mod Zones
pub mod Add
pub mod Sources
pub mod Hosts
pub mod Plan
pub mod Dicts
pub mod Invariant
pub mod Sound
pub mod Result
pub mod Accounts
pub mod Keeps
pub mod Complete
pub mod Whole
pub mod Roundtrip
pub mod Main
pub mod Writes
pub mod HostsLaws
pub mod HostsEntries
mod Tests
