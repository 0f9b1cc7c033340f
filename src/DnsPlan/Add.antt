-- ===== src/DnsPlan/Add.antt =====
-- `add_record` and `add_address_record` of scripts/plan-hetzner-dns-from-inventory.py, with the
-- dictionaries and lists that they change as one state.
use rfc_codex_gentoo_stage.Prelude.{
  ℤ, String, Bool, true, false, not, ◌&&◌, ◌||◌, nat_eq, length, Option, none, some, List, [], ◌∷◌,
  ◌==◌, if◌then◌else◌, ◌++◌,
}
use rfc_codex_gentoo_stage.Text.{upper, is_empty}
use rfc_codex_gentoo_stage.Sorted.{sorted_set}
use rfc_codex_gentoo_stage.Dns.Records.{put, find, normalize_dns_name}
use rfc_codex_gentoo_stage.Dns.Apply.{same_texts}
use rfc_codex_gentoo_stage.DnsPlan.Names.{
  ZoneGroup, Match, required_domain_match, zone_for_name, relative_record_name,
}

pub record Key : Type 0 where
  pub fqdn : String
  pub record_type : String

unfoldable pub same_key : Key → Key → Bool
same_key a b = a.fqdn == b.fqdn && a.record_type == b.record_type

-- A record set to ensure, without its values.
pub record Planned : Type 0 where
  pub token_group : String
  pub zone : String
  pub fqdn : String
  pub relative_name : String
  pub record_type : String
  pub ttl : ℤ
  pub source : String

pub data RowReason : Type 0 where
  outside_managed_domain no_matching_zone cname_requires_single_target : RowReason
  conflicting_rrset_values cname_address_type_conflict : RowReason
  missing_address invalid_address : RowReason

-- What is not planned, and why.
pub record Left : Type 0 where
  pub fqdn : String
  pub record_type : String
  pub source : String
  pub reason : RowReason

pub record Planning : Type 0 where
  pub rrsets : List (Key × Planned)
  pub grouped_values : List (Key × List String)
  pub errors : List Left
  pub skipped : List Left

abbrev pub nothing_planned : Planning
nothing_planned = record { rrsets = []; grouped_values = []; errors = []; skipped = [] }

-- What the whole run is given.
pub record Setting : Type 0 where
  pub zone_groups : List ZoneGroup
  pub required_domains : List String
  pub managed_domains : List String
  pub ttl : ℤ

-- The arguments of one call of `add_record`.
pub record Wish : Type 0 where
  pub fqdn : String
  pub record_type : String
  pub values : List String
  pub source : String

unfoldable pub add_error : Left → Planning → Planning
add_error row planning = record planning { errors = planning.errors ++ row ∷ [] }

unfoldable pub add_skipped : Left → Planning → Planning
add_skipped row planning = record planning { skipped = planning.skipped ++ row ∷ [] }

unfoldable pub left_for : RowReason → Wish → Left
left_for reason wish = record {
  fqdn = wish.fqdn;
  record_type = wish.record_type;
  source = wish.source;
  reason = reason;
}

-- `fqdn = normalize_dns_name(fqdn)` and `record_type = record_type.upper()`
unfoldable pub normal_wish : Wish → Wish
unfolding normalize_dns_name upper
normal_wish wish = record wish {
  fqdn = normalize_dns_name wish.fqdn;
  record_type = upper wish.record_type;
}

unfoldable pub key_of : Wish → Key
key_of wish = record { fqdn = wish.fqdn; record_type = wish.record_type }

-- the record type that a name with this one must not have
unfoldable pub incompatible_type : String → String
incompatible_type record_type = if record_type == "A" || record_type == "AAAA" then "CNAME" else "A"

-- `existing_values is not None and existing_values != set(values)`
unfoldable pub differs : Option (List String) → List String → Bool
unfolding same_texts
differs none values = false
differs (some existing) values = not (same_texts existing values)

abbrev pub is_planned : Key → List (Key × Planned) → Bool
is_planned key rrsets = elim (find same_key key rrsets) [ none ↦ false | some _ ↦ true ]

abbrev pub or_none : Option (List String) → List String
or_none none = []
or_none (some values) = values

unfoldable pub planned_of : Setting → Wish → Match → Planned
unfolding relative_record_name
planned_of setting wish match = record {
  token_group = match.group_name;
  zone = match.zone;
  fqdn = wish.fqdn;
  relative_name = relative_record_name wish.fqdn match.zone;
  record_type = wish.record_type;
  ttl = setting.ttl;
  source = wish.source;
}

-- `grouped_values[key].update(normalized_values)` and `rrsets[key] = {...}`
unfoldable pub plan_record : Setting → Wish → Match → List String → Planning → Planning
unfolding planned_of key_of put find same_key sorted_set
plan_record setting wish match values planning =
    let key = key_of wish in
    record planning {
      grouped_values =
          put same_key key
            (sorted_set (or_none (find same_key key planning.grouped_values) ++ values))
            planning.grouped_values;
      rrsets = put same_key key (planned_of setting wish match) planning.rrsets;
    }

-- the part behind the search for a zone
unfoldable pub add_in_zone : Setting → Wish → Match → List String → Planning → Planning
unfolding add_error left_for key_of find same_key differs incompatible_type plan_record
add_in_zone setting wish match values planning =
    if wish.record_type == "CNAME" && not (nat_eq (length values) 1)
    then add_error (left_for cname_requires_single_target wish) planning
    else if differs (find same_key (key_of wish) planning.grouped_values) values
    then add_error (left_for conflicting_rrset_values wish) planning
    else if is_planned
        (record { fqdn = wish.fqdn; record_type = incompatible_type wish.record_type })
        planning.rrsets
    then add_error (left_for cname_address_type_conflict wish) planning
    else plan_record setting wish match values planning

unfoldable pub add_without_zone : Setting → Wish → Planning → Planning
unfolding add_error add_skipped left_for required_domain_match
add_without_zone setting wish planning =
    if required_domain_match wish.fqdn setting.required_domains
    then add_error (left_for no_matching_zone wish) planning
    else add_skipped (left_for no_matching_zone wish) planning

-- `managed_domains and not required_domain_match(fqdn, managed_domains)`
unfoldable pub is_outside : String → List String → Bool
unfolding required_domain_match
is_outside fqdn [] = false
is_outside fqdn (domain ∷ domains) = not (required_domain_match fqdn (domain ∷ domains))

unfoldable pub add_normal : Setting → Wish → Planning → Planning
unfolding is_outside add_skipped left_for zone_for_name add_without_zone add_in_zone sorted_set
add_normal setting wish planning =
    if is_outside wish.fqdn setting.managed_domains
    then add_skipped (left_for outside_managed_domain wish) planning
    else elim (zone_for_name wish.fqdn setting.zone_groups) [
      | none ↦ add_without_zone setting wish planning
      | some match ↦ add_in_zone setting wish match (sorted_set wish.values) planning
    ]

unfoldable pub add_record : Setting → Wish → Planning → Planning
unfolding add_normal normal_wish
add_record setting wish planning = add_normal setting (normal_wish wish) planning

-- `ipaddress.ip_interface(value).ip`: whether its version is 4, and its text
pub record Address : Type 0 where
  pub is_version_4 : Bool
  pub written : String

abbrev pub type_of_address : Address → String
type_of_address address = if address.is_version_4 then "A" else "AAAA"

-- A host or a service address of the inventory.
pub record Source : Type 0 where
  pub source : String
  pub fqdn : String
  pub address : String
  pub aliases : List String

unfoldable pub address_wish : Source → Address → Wish
address_wish row address = record {
  fqdn = row.fqdn;
  record_type = type_of_address address;
  values = address.written ∷ [];
  source = row.source;
}

-- `none` is a `ValueError` of `ipaddress.ip_interface`.
module _ (ip_interface : String → Option Address) where
  unfoldable pub add_address_record : Setting → Source → Planning → Planning
  unfolding add_record add_error address_wish
  add_address_record setting row planning =
      if is_empty row.address
      then add_error
          (record {
            fqdn = row.fqdn;
            record_type = "A";
            source = row.source;
            reason = missing_address;
          })
          planning
      else elim (ip_interface row.address) [
        | none ↦
            add_error
              (record {
                fqdn = row.fqdn;
                record_type = "A";
                source = row.source;
                reason = invalid_address;
              })
              planning
        | some address ↦ add_record setting (address_wish row address) planning
      ]
