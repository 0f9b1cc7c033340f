-- ===== src/DnsReport.antt =====
-- scripts/report-hetzner-dns-inventory.py: the names and addresses in the zones of the provider.
pub mod Names
