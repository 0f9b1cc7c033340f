-- ===== src/DnsPlan/Hosts.antt =====
-- `generate_hosts_entries` and `render_hosts_file` of scripts/plan-hetzner-dns-from-inventory.py: the
-- names of each address, as lines of a hosts file.
use Prim.Native.String.{compare}
use Prim.Native.Nat.{Ordering, compare as compare_ℕ}
use rfc_codex_gentoo_stage.Prelude.{
  ℕ, String, Bool, ◌||◌, nat_eq, Option, none, some, List, [], ◌∷◌, ◌++◌, map, ◌==◌, starts_with,
  if◌then◌else◌,
}
use rfc_codex_gentoo_stage.Text.{rstrip_by, join, concat, is_empty, before_text, is_space}
use rfc_codex_gentoo_stage.Sorted.{sorted_set, sort_by, then_by}
use rfc_codex_gentoo_stage.Dns.Records.{put, find, contains, normalize_dns_name}
use rfc_codex_gentoo_stage.DnsPlan.Add.{Planned}

-- A record set to ensure, with its values.
pub record PlanRecord : Type 0 where
  pub planned : Planned
  pub values : List String

abbrev pub same_text : String → String → Bool
same_text s t = s == t

-- The names of one address, with their sources.
abbrev pub Names : Type 0
Names = List (String × String)

abbrev pub or_no_names : Option Names → Names
or_no_names none = []
or_no_names (some names) = names

abbrev pub AddressRecords : Type 0
AddressRecords = List (String × Names)

-- `address_records[value][fqdn] = source`
unfoldable pub add_name : String → String → String → AddressRecords → AddressRecords
unfolding put find
add_name value fqdn source records =
    put same_text value (put same_text fqdn source (or_no_names (find same_text value records)))
      records

unfoldable pub add_names : List String → String → String → AddressRecords → AddressRecords
unfolding add_name
add_names [] fqdn source records = records
add_names (value ∷ values) fqdn source records =
    add_names values fqdn source (add_name value fqdn source records)

unfoldable pub is_address_type : String → Bool
is_address_type record_type = record_type == "A" || record_type == "AAAA"

unfoldable pub address_records_of : List PlanRecord → AddressRecords → AddressRecords
unfolding is_address_type add_names
address_records_of [] records = records
address_records_of (r ∷ rs) records =
    if is_address_type r.planned.record_type
    then address_records_of rs (add_names r.values r.planned.fqdn r.planned.source records)
    else address_records_of rs records

-- `cname_targets`: the target of each alias
unfoldable pub note_cname : PlanRecord → List (String × String) → List (String × String)
unfolding is_address_type put normalize_dns_name
note_cname r targets =
    if is_address_type r.planned.record_type
    then targets
    else if r.planned.record_type == "CNAME"
    then elim r.values [
      | [] ↦ targets
      | value ∷ _ ↦ put same_text r.planned.fqdn (normalize_dns_name value) targets
    ]
    else targets

unfoldable pub cname_targets_of : List PlanRecord → List (String × String) → List (String × String)
unfolding note_cname
cname_targets_of [] targets = targets
cname_targets_of (r ∷ rs) targets = cname_targets_of rs (note_cname r targets)

-- `target_to_aliases.get(fqdn, [])`
unfoldable pub aliases_to : String → List (String × String) → List String
unfolding rstrip_by
aliases_to fqdn [] = []
aliases_to fqdn ((alias, target) ∷ targets) =
    let rest = aliases_to fqdn targets in
    if rstrip_by (λ c. nat_eq c b'.') target == fqdn then alias ∷ rest else rest

unfoldable pub source_priority : String → ℕ
source_priority source =
    if starts_with source "device:" then 0 else if starts_with source "service_vip:" then 1 else 2

unfoldable pub add_candidate : String → List String → List String
unfolding contains
add_candidate candidate hostnames =
    if is_empty candidate || contains candidate hostnames
    then hostnames
    else hostnames ++ candidate ∷ []

-- the name, and its first label
unfoldable pub append_hostname : String → List String → List String
unfolding add_candidate before_text
append_hostname fqdn hostnames = add_candidate (before_text "." fqdn) (add_candidate fqdn hostnames)

unfoldable pub append_hostnames : List String → List String → List String
unfolding append_hostname
append_hostnames [] hostnames = hostnames
append_hostnames (fqdn ∷ fqdns) hostnames = append_hostnames fqdns (append_hostname fqdn hostnames)

-- `(source_priority(item[1]), item[0])`
unfoldable pub compare_names : String × String → String × String → Ordering
unfolding source_priority
compare_names a b =
    then_by (compare_ℕ (source_priority a.1) (source_priority b.1)) (compare a.0 b.0)

unfoldable pub hostnames_of : List (String × String) → Names → List String → List String
unfolding append_hostname append_hostnames sorted_set aliases_to
hostnames_of targets [] hostnames = hostnames
hostnames_of targets ((fqdn, _) ∷ names) hostnames =
    hostnames_of targets names
      (append_hostnames (sorted_set (aliases_to fqdn targets)) (append_hostname fqdn hostnames))

-- `list(dict.fromkeys(names))`
unfoldable pub from_keys : List String → List String → List String
unfolding contains
from_keys [] seen = seen
from_keys (name ∷ names) seen =
    from_keys names (if contains name seen then seen else seen ++ name ∷ [])

pub record HostsEntry : Type 0 where
  pub address : String
  pub names : List String

unfoldable pub hosts_entry : List (String × String) → String × Names → HostsEntry
unfolding hostnames_of from_keys sort_by compare_names
hosts_entry targets (address, names) = record {
  address = address;
  names = from_keys (hostnames_of targets (sort_by compare_names names) []) [];
}

unfoldable pub compare_addresses : String × Names → String × Names → Ordering
compare_addresses a b = compare a.0 b.0

unfoldable pub generate_hosts_entries : List PlanRecord → List HostsEntry
unfolding hosts_entry sort_by compare_addresses address_records_of cname_targets_of
generate_hosts_entries records =
    map (hosts_entry (cname_targets_of records []))
      (sort_by compare_addresses (address_records_of records []))

unfoldable pub hosts_line : HostsEntry → String
unfolding concat join
hosts_line entry = concat (entry.address ∷ " " ∷ join " " entry.names ∷ [])

unfoldable pub render_hosts_file : List HostsEntry → String
unfolding hosts_line join rstrip_by concat is_space
render_hosts_file entries =
    concat (rstrip_by is_space (join "\n" (map hosts_line entries)) ∷ "\n" ∷ [])
