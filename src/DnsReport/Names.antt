-- ===== src/DnsReport/Names.antt =====
-- `record_fqdn` of scripts/report-hetzner-dns-inventory.py.
use rfc_codex_gentoo_stage.Prelude.{String, ◌||◌, ◌==◌, [], ◌∷◌, if◌then◌else◌}
use rfc_codex_gentoo_stage.Text.{concat, is_empty}
use rfc_codex_gentoo_stage.Text.Ends.{ends_with, dotted}
use rfc_codex_gentoo_stage.Dns.Records.{normalize_dns_name}

-- the part behind the normalization of both names
unfoldable pub join_names : String → String → String
unfolding ends_with concat
join_names name zone =
    if is_empty name || name == "@"
    then zone
    else if name == zone || ends_with name (dotted zone)
    then name
    else concat (name ∷ "." ∷ zone ∷ [])

unfoldable pub record_fqdn : String → String → String
unfolding join_names normalize_dns_name
record_fqdn record_name zone_name =
    join_names (normalize_dns_name record_name) (normalize_dns_name zone_name)
