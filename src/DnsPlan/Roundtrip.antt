-- ===== src/DnsPlan/Roundtrip.antt =====
-- The relative names that scripts/plan-hetzner-dns-from-inventory.py plans, read back by
-- `record_fqdn` of scripts/report-hetzner-dns-inventory.py.
use Prim.Native.String.{◌++◌}
use text.Mathlib.TextLemmas.{append-nil}
use rfc_codex_gentoo_stage.Prelude.{
  String, true, false, ◌==◌, ◌≡◌, ◌≢◌, refl, sym, ◌∙◌, inl, inr, Bool-cases, eq_iff, ◌⊎◌,
}
use rfc_codex_gentoo_stage.Text.{is_empty}
use rfc_codex_gentoo_stage.Text.Laws.{differ}
use rfc_codex_gentoo_stage.Text.Ends.{ends_with, without_end, dotted, append-without_end}
use rfc_codex_gentoo_stage.Dns.Records.{normalize_dns_name}
use rfc_codex_gentoo_stage.DnsPlan.Names.{is_within, relative_record_name}
use rfc_codex_gentoo_stage.DnsReport.Names.{record_fqdn, join_names}

-- A name that is neither empty nor `@` nor a name in the zone, as `record_fqdn` reads it.
abbrev pub IsRelative : String → String → Type 0
IsRelative name zone =
    (normalize_dns_name name ≡ name)
    × (is_empty name ≡ false)
    × (name ≢ "@")
    × (is_within name zone ≡ false)

joined :
    (name zone : String)
    → is_empty name ≡ false
    → name ≢ "@"
    → is_within name zone ≡ false
    → join_names name zone ≡ name ++ dotted zone
unfolding join_names is_within
joined name zone h g k = rw (join_names, h, differ name "@" g, k, append-nil zone) refl

at_apex : (zone : String) → normalize_dns_name zone ≡ zone → record_fqdn "@" zone ≡ zone
unfolding record_fqdn join_names normalize_dns_name
at_apex zone h = h

below :
    (fqdn zone : String)
    → normalize_dns_name zone ≡ zone
    → ends_with fqdn (dotted zone) ≡ true
    → IsRelative (without_end fqdn (dotted zone)) zone
    → record_fqdn (without_end fqdn (dotted zone)) zone ≡ fqdn
unfolding record_fqdn
below fqdn zone h end (normal, filled, not_at, outside) =
    rw (record_fqdn, normal, h)
      (joined (without_end fqdn (dotted zone)) zone filled not_at outside
        ∙ append-without_end fqdn (dotted zone) end)

-- If a name lies in a normalized zone and is the zone, or its name relative to the zone is in normal form, is
-- neither empty nor `@`, and is no name in the zone itself, then the report reads the relative name, which the plan gives the
-- record, as the name again.
pub record_fqdn-relative_record_name :
    (fqdn zone : String)
    → normalize_dns_name zone ≡ zone
    → is_within fqdn zone ≡ true
    → (fqdn ≡ zone) ⊎ IsRelative (relative_record_name fqdn zone) zone
    → record_fqdn (relative_record_name fqdn zone) zone ≡ fqdn
unfolding is_within relative_record_name
record_fqdn-relative_record_name fqdn zone h within (inl same) =
    rw ((eq_iff fqdn zone).1 same) (at_apex zone h ∙ sym same)
record_fqdn-relative_record_name fqdn zone h within (inr relative) =
    elim (Bool-cases (fqdn == zone)) [
      | inl e ↦ rw e (at_apex zone h ∙ sym ((eq_iff fqdn zone).0 e))
      | inr e ↦
          rw (e, rw e at within)
            (below fqdn zone h (rw e at within)
              (rw (relative_record_name, e, rw e at within) at relative))
    ]
