-- ===== src/DnsPlan/Tests.antt =====
-- Runs of `generate_dns_plan` of scripts/plan-hetzner-dns-from-inventory.py on small inventories.
use rfc_codex_gentoo_stage.Prelude.{
  String, true, false, Unique, Option, none, some, List, [], ◌∷◌, ◌≡◌, ◌≢◌, refl, All, map, pos,
  inr, ◌⊎◌, starts_with, if◌then◌else◌,
}
use rfc_codex_gentoo_stage.Text.{has_text}
use rfc_codex_gentoo_stage.Value.{Value, str, list, nil, cons, dict, Fields, field, end}
use rfc_codex_gentoo_stage.Dns.Records.{normalize_dns_name}
use rfc_codex_gentoo_stage.DnsPlan.Names.{
  ZoneGroup, zone_for_name, slugify, relative_record_name, is_within,
}
use rfc_codex_gentoo_stage.DnsPlan.Zones.{Chosen, zone_for_name-Chosen}
use rfc_codex_gentoo_stage.DnsPlan.Add.{Setting, Source, Address}
use rfc_codex_gentoo_stage.DnsPlan.Hosts.{
  PlanRecord, HostsEntry, render_hosts_file, generate_hosts_entries,
}
use rfc_codex_gentoo_stage.DnsPlan.Plan.{DnsPlan, generate_dns_plan, all_sources}
use rfc_codex_gentoo_stage.DnsPlan.Main.{Arguments, Run, print, write_file, main, plan_for}
use rfc_codex_gentoo_stage.DnsPlan.Writes.{IsCleanRun, main-IsClean}
use rfc_codex_gentoo_stage.DnsPlan.HostsEntries.{IsResolved, generate_hosts_entries-Resolves}
use rfc_codex_gentoo_stage.DnsPlan.Result.{IsSoundPlan, generate_dns_plan-IsSound}
use rfc_codex_gentoo_stage.DnsPlan.Complete.{RowFate}
use rfc_codex_gentoo_stage.DnsPlan.Whole.{IsAccountedIn, IsReportedIn, generate_dns_plan-Accounts}
use rfc_codex_gentoo_stage.DnsPlan.Roundtrip.{IsRelative, record_fqdn-relative_record_name}
use rfc_codex_gentoo_stage.DnsReport.Names.{record_fqdn}

abbrev two_groups : List ZoneGroup
two_groups =
    (record { name = "outer"; zones = "example.com" ∷ "test" ∷ [] })
    ∷ (record { name = "inner"; zones = "lab.example.com" ∷ [] })
    ∷ []

slugs : slugify "  Web Server #1 " ≡ "web-server-1"
unfolding slugify
slugs = refl

the_longest :
    zone_for_name "www.lab.example.com" two_groups
    ≡ some (record { group_name = "inner"; zone = "lab.example.com" })
unfolding zone_for_name
the_longest = refl

zone_for_name-Chosen_example :
    Chosen "www.lab.example.com" two_groups (zone_for_name "www.lab.example.com" two_groups)
zone_for_name-Chosen_example = zone_for_name-Chosen "www.lab.example.com" two_groups

abbrev item : String → String → Fields → Value → Value
item name address others aliases = dict (
    field "name" (str name)
      (field "management_ip" (str address) (field "dns_aliases" aliases others)))

abbrev aliases : Value
aliases = list (cons (str "www") (cons (str "Mail.Example.com.") nil))

abbrev inventory : Fields
inventory =
    field "devices"
      (list (
        cons (item "Web 1" "10.0.0.5/24" end aliases) (
          cons (item "broken" "nowhere" end (list nil))
            (cons (item "six" "fe80::6" end (list nil)) nil))))
      end

abbrev read_address : String → Option Address
read_address s =
    if starts_with s "10."
    then some (record { is_version_4 = true; written = "10.0.0.5" })
    else if has_text ":" s
    then some (record { is_version_4 = false; written = s })
    else none

abbrev setting : Setting
setting = record {
  zone_groups = two_groups;
  required_domains = "lab.example.com" ∷ [];
  managed_domains = "example.com" ∷ [];
  ttl = pos 300;
}

abbrev rows : List Source
rows =
    (record {
      source = "device:Web 1";
      fqdn = "web-1.lab.example.com";
      address = "10.0.0.5/24";
      aliases = "www.lab.example.com" ∷ "mail.example.com" ∷ [];
    })
    ∷ (record {
      source = "device:broken";
      fqdn = "broken.lab.example.com";
      address = "nowhere";
      aliases = [];
    })
    ∷ (record {
      source = "device:six";
      fqdn = "six.lab.example.com";
      address = "fe80::6";
      aliases = [];
    })
    ∷ []

reads_rows : all_sources (λ v. "") "lab.example.com" (inventory ∷ []) ≡ some rows
unfolding all_sources
reads_rows = refl

generate_dns_plan-IsSound_example :
    (plan : DnsPlan) × (generate_dns_plan
        (λ v. "")
        read_address
        setting
        "lab.example.com"
        (inventory ∷ [])
        true
        false
      ≡ some plan)
    × IsSoundPlan setting plan
generate_dns_plan-IsSound_example =
    generate_dns_plan-IsSound (λ v. "") read_address setting "lab.example.com" (inventory ∷ []) true
      false rows reads_rows

generate_dns_plan-Accounts_example :
    (plan : DnsPlan) × (generate_dns_plan
        (λ v. "")
        read_address
        setting
        "lab.example.com"
        (inventory ∷ [])
        true
        false
      ≡ some plan)
    × All (RowFate read_address (IsAccountedIn plan) (IsReportedIn plan)) rows
generate_dns_plan-Accounts_example =
    generate_dns_plan-Accounts (λ v. "") read_address setting "lab.example.com" (inventory ∷ [])
      true false rows reads_rows

abbrev written : Option DnsPlan → List (String × String × List String)
written none = []
written (some plan) =
    map (λ r. (r.planned.relative_name, r.planned.record_type, r.values)) plan.records

abbrev hosts_of : Option DnsPlan → List HostsEntry
hosts_of none = []
hosts_of (some plan) = plan.hosts_entries

planned_records :
    written (
      generate_dns_plan
        (λ v. "")
        read_address
        setting
        "lab.example.com"
        (inventory ∷ [])
        true
        false)
    ≡ ("mail", "CNAME", "web-1.lab.example.com." ∷ [])
      ∷ ("six", "AAAA", "fe80::6" ∷ [])
      ∷ ("web-1", "A", "10.0.0.5" ∷ [])
      ∷ ("www", "CNAME", "web-1.lab.example.com." ∷ [])
      ∷ []
unfolding generate_dns_plan
planned_records = refl

hosts_file :
    render_hosts_file (
      hosts_of (
        generate_dns_plan
          (λ v. "")
          read_address
          setting
          "lab.example.com"
          (inventory ∷ [])
          true
          false))
    ≡ "10.0.0.5 web-1.lab.example.com web-1 mail.example.com mail www.lab.example.com www\nfe80::6 six.lab.example.com six\n"
unfolding generate_dns_plan render_hosts_file
hosts_file = refl

-- A device with an address of version 6, and an alias of another one with the name of the first.
abbrev clash : Fields
clash =
    field "devices"
      (list (
        cons (item "six" "fe80::6" end (list nil))
          (cons (item "four" "10.0.0.5" end (list (cons (str "six") nil))) nil)))
      end

-- The CNAME is not refused beside the address of version 6.
cname_beside_aaaa :
    written
      (generate_dns_plan (λ v. "") read_address setting "lab.example.com" (clash ∷ []) true false)
    ≡ ("four", "A", "10.0.0.5" ∷ [])
      ∷ ("six", "AAAA", "fe80::6" ∷ [])
      ∷ ("six", "CNAME", "four.lab.example.com." ∷ [])
      ∷ []
unfolding generate_dns_plan
cname_beside_aaaa = refl

abbrev www : String
www = "www.example.com"

www_within : is_within www "example.com" ≡ true
unfolding is_within
www_within = refl

example_normal : normalize_dns_name "example.com" ≡ "example.com"
unfolding normalize_dns_name
example_normal = refl

abbrev label : String
label = "www"

differs_from_at : label ≢ "@"
differs_from_at h = cc

www-IsRelative :
    (www ≡ "example.com") ⊎ IsRelative (relative_record_name www "example.com") "example.com"
unfolding relative_record_name normalize_dns_name is_within
www-IsRelative = inr (refl, refl, differs_from_at, refl)

record_fqdn-relative_record_name_example :
    record_fqdn (relative_record_name www "example.com") "example.com" ≡ www
record_fqdn-relative_record_name_example =
    record_fqdn-relative_record_name www "example.com" example_normal www_within www-IsRelative

abbrev group_of : String → String → Value
group_of name zone = dict (field "name" (str name) (field "zones" (list (cons (str zone) nil)) end))

abbrev arguments : Arguments
arguments = record {
  payloads = clash ∷ [];
  zone_groups = list (cons (group_of "outer" "example.com") nil);
  default_domain = "lab.example.com";
  required_domain_inputs = str "lab.example.com" ∷ [];
  managed_domain_inputs = [];
  default_ttl = pos 300;
  apply = false;
  allow_delete = false;
  hosts_output = "/tmp/hosts";
  is_json = true;
  output = "";
}

abbrev run : Run
run = record {
  exit_code = 0;
  effects =
      write_file "/tmp/hosts"
        "10.0.0.5 four.lab.example.com four six.lab.example.com six\nfe80::6 six.lab.example.com six\n"
      ∷ print "{}\n"
      ∷ [];
}

main_returns : main (λ v. "300") (λ plan. "{}") read_address arguments ≡ some run
unfolding main
main_returns = refl

main-IsClean_example : IsCleanRun (plan_for (λ v. "300") (λ plan. "{}") read_address arguments) run
main-IsClean_example =
    main-IsClean (λ v. "300") (λ plan. "{}") read_address arguments run main_returns

abbrev two_records : List PlanRecord
two_records =
    (record {
      planned = record {
        token_group = "outer";
        zone = "test";
        fqdn = "www.test";
        relative_name = "www";
        record_type = "CNAME";
        ttl = pos 300;
        source = "device:a";
      };
      values = "a.test." ∷ [];
    })
    ∷ (record {
      planned = record {
        token_group = "outer";
        zone = "test";
        fqdn = "a.test";
        relative_name = "a";
        record_type = "A";
        ttl = pos 300;
        source = "device:a";
      };
      values = "10.0.0.5" ∷ [];
    })
    ∷ []

generate_hosts_entries-Resolves_example :
    Unique (map (λ e. e.address) (generate_hosts_entries two_records))
    × All (λ e. Unique e.names) (generate_hosts_entries two_records)
    × All (IsResolved (generate_hosts_entries two_records)) two_records
generate_hosts_entries-Resolves_example = generate_hosts_entries-Resolves two_records
