-- ===== src/NtfyHook.antt =====
-- The hook of scripts/codex_ntfy_hook.py, which asks for approvals and answers over ntfy, with its policy.
pub mod Policy
pub mod Replies
pub mod Hook
pub mod Stop
pub mod Approvals
pub mod Allowed
pub mod Overlay
pub mod Granted
mod Tests
