-- ===== src/Mcp/Tests.antt =====
-- The gate and the names of artifacts on small inputs.
use rfc_codex_gentoo_stage.Prelude.{
  String, false, none, some, ◌==◌, ◌≡◌, ◌↔◌, ◌≤◌, refl, if◌then◌else◌,
}
use rfc_codex_gentoo_stage.Text.{strip, lower, all_chars, is_space}
use rfc_codex_gentoo_stage.Mcp.Gates.{Env, get_env, gate_from_env, Opens, require, require-passes}
use rfc_codex_gentoo_stage.Mcp.Audit.{
  IsSafe, artifact_name, artifact_name-IsSafe, safe_fragment, size,
}

abbrev open_env : Env
open_env name = if name == "MCP_ALLOW_MUTATIONS" then some " Yes " else none

passes : require (gate_from_env open_env) "create" "key" "why" ≡ none
unfolding require gate_from_env
passes = refl

require-passes_example : (require (gate_from_env open_env) "create" "key" "why" ≡ none) ↔ (
    Opens (lower (strip (get_env open_env "MCP_ALLOW_MUTATIONS" "")))
    × (all_chars is_space "key" ≡ false)
    × (all_chars is_space "why" ≡ false))
require-passes_example = require-passes open_env "create" "key" "why"

no_path :
    artifact_name "20260101T000000Z" "netbox" " ../etc/passwd " "k"
    ≡ "20260101T000000Z-netbox-.._etc_passwd-k.json"
unfolding artifact_name
no_path = refl

time-IsSafe : IsSafe "20260101T000000Z"
unfolding rfc_codex_gentoo_stage.Text.all_chars rfc_codex_gentoo_stage.Mcp.Audit.is_safe_char
time-IsSafe = refl

artifact_name-IsSafe_example :
    IsSafe (artifact_name "20260101T000000Z" "netbox" " ../etc/passwd " "k")
    × ((value : String) → (1 ≤ size (safe_fragment value)) × (size (safe_fragment value) ≤ 96))
artifact_name-IsSafe_example =
    artifact_name-IsSafe "20260101T000000Z" "netbox" " ../etc/passwd " "k" time-IsSafe
