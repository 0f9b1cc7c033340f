-- ===== src/Mcp.antt =====
-- Shared parts of the MCP services, scripts/mcp_servers/rfc1918_mcp_common.
pub mod Gates
pub mod Audit
mod Tests
