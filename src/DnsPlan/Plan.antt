-- ===== src/DnsPlan/Plan.antt =====
-- `generate_dns_plan` of scripts/plan-hetzner-dns-from-inventory.py, with what `main` does with the
-- plan.
use Prim.Native.String.{compare}
use Prim.Native.Nat.{Ordering}
use rfc_codex_gentoo_stage.Prelude.{
  ℕ, suc, String, Bool, length, Option, none, some, List, [], ◌∷◌, ◌++◌, map, if◌then◌else◌,
}
use rfc_codex_gentoo_stage.Text.{concat}
use rfc_codex_gentoo_stage.Sorted.{sorted_set, sort_by, then_by}
use rfc_codex_gentoo_stage.Value.{Value, Fields}
use rfc_codex_gentoo_stage.Dns.Records.{find}
use rfc_codex_gentoo_stage.DnsPlan.Names.{required_domain_match}
use rfc_codex_gentoo_stage.DnsPlan.Add.{
  Key, same_key, Planned, Left, Planning, nothing_planned, or_none, Setting, Address, Source,
  add_record, Wish, add_address_record,
}
use rfc_codex_gentoo_stage.DnsPlan.Sources.{iter_inventory_sources}
use rfc_codex_gentoo_stage.DnsPlan.Hosts.{PlanRecord, HostsEntry, generate_hosts_entries}

-- `values=[f"{row['fqdn']}."]`
unfoldable pub alias_wish : Source → String → Wish
unfolding concat
alias_wish row alias = record {
  fqdn = alias;
  record_type = "CNAME";
  values = concat (row.fqdn ∷ "." ∷ []) ∷ [];
  source = row.source;
}

unfoldable pub add_aliases : Setting → Source → List String → Planning → Planning
unfolding add_record alias_wish
add_aliases setting row [] planning = planning
add_aliases setting row (alias ∷ aliases) planning =
    add_aliases setting row aliases (add_record setting (alias_wish row alias) planning)

pub record Summary : Type 0 where
  pub input_files : ℕ
  pub record_count : ℕ
  pub hosts_entry_count : ℕ
  pub skipped_count : ℕ
  pub error_count : ℕ
  pub required_domain_errors : ℕ

pub record DnsPlan : Type 0 where
  pub apply : Bool
  pub allow_delete : Bool
  pub summary : Summary
  pub records : List PlanRecord
  pub hosts_entries : List HostsEntry
  pub skipped : List Left
  pub errors : List Left

-- `(item[1]["zone"], item[1]["fqdn"], item[1]["type"])`
unfoldable pub compare_planned : Key × Planned → Key × Planned → Ordering
compare_planned a b =
    then_by (compare a.1.zone b.1.zone)
      (then_by (compare a.1.fqdn b.1.fqdn) (compare a.1.record_type b.1.record_type))

-- `{**record, "values": sorted(grouped_values[key])}`
unfoldable pub with_values : List (Key × List String) → Key × Planned → PlanRecord
unfolding find same_key sorted_set
with_values grouped (key, planned) = record {
  planned = planned;
  values = sorted_set (or_none (find same_key key grouped));
}

unfoldable pub plan_records : Planning → List PlanRecord
unfolding with_values sort_by compare_planned
plan_records planning =
    map (with_values planning.grouped_values) (sort_by compare_planned planning.rrsets)

unfoldable pub count_required : List String → List Left → ℕ
unfolding required_domain_match
count_required required_domains [] = 0
count_required required_domains (error ∷ errors) =
    let rest = count_required required_domains errors in
    if required_domain_match error.fqdn required_domains then suc rest else rest

module _ (ip_interface : String → Option Address) where
  unfoldable pub add_source : Setting → Source → Planning → Planning
  unfolding add_address_record add_aliases
  add_source setting row planning =
      add_aliases setting row row.aliases (add_address_record ip_interface setting row planning)

  unfoldable pub add_sources : Setting → List Source → Planning → Planning
  unfolding add_source
  add_sources setting [] planning = planning
  add_sources setting (row ∷ rows) planning =
      add_sources setting rows (add_source setting row planning)

unfoldable pub plan_of : Setting → ℕ → Bool → Bool → Planning → DnsPlan
unfolding plan_records generate_hosts_entries count_required
plan_of setting input_files apply allow_delete planning =
    let records = plan_records planning in
    let hosts_entries = generate_hosts_entries records in
    record {
      apply = apply;
      allow_delete = allow_delete;
      summary = record {
        input_files = input_files;
        record_count = length records;
        hosts_entry_count = length hosts_entries;
        skipped_count = length planning.skipped;
        error_count = length planning.errors;
        required_domain_errors = count_required setting.required_domains planning.errors;
      };
      records = records;
      hosts_entries = hosts_entries;
      skipped = planning.skipped;
      errors = planning.errors;
    }

module _ (str_of : Value → String) where
  abbrev or_raise : Option (List Source) → Option (List Source) → Option (List Source)
  or_raise none rest = none
  or_raise (some rows) none = none
  or_raise (some rows) (some more) = some (rows ++ more)

  -- The rows of all inventories, which are added one after the other.
  unfoldable pub all_sources : String → List Fields → Option (List Source)
  unfolding iter_inventory_sources
  all_sources default_domain [] = some []
  all_sources default_domain (payload ∷ payloads) =
      or_raise (iter_inventory_sources str_of default_domain payload)
        (all_sources default_domain payloads)

  module _ (ip_interface : String → Option Address) where
    -- `none` is an exception that the script does not catch.
    unfoldable pub generate_dns_plan : Setting → String → List Fields → Bool → Bool → Option DnsPlan
    unfolding all_sources add_sources plan_of
    generate_dns_plan setting default_domain payloads apply allow_delete =
        elim (all_sources default_domain payloads) [
          | none ↦ none
          | some rows ↦ some (
              plan_of setting (length payloads) apply allow_delete
                (add_sources ip_interface setting rows nothing_planned))
        ]
