-- ===== src/DnsPlan/Main.antt =====
-- What `main` of scripts/plan-hetzner-dns-from-inventory.py does behind the reading of the command line
-- and of the files: its exit code, and what it prints and writes.
use rfc_codex_gentoo_stage.Prelude.{
  ℕ, ℤ, String, Bool, true, false, Option, none, some, List, [], ◌∷◌, ◌++◌, map, ◌⊎◌, inl, inr,
  if◌then◌else◌, pos,
}
use rfc_codex_gentoo_stage.Text.{strip, concat, join, is_empty}
use rfc_codex_gentoo_stage.Value.{Value, Fields, int, as_str, text_by}
use rfc_codex_gentoo_stage.Dns.Records.{normalize_dns_name}
use rfc_codex_gentoo_stage.DnsPlan.Names.{ZoneGroup, ZoneGroupError, load_zone_groups}
use rfc_codex_gentoo_stage.DnsPlan.Add.{
  Left, RowReason, Address, outside_managed_domain, no_matching_zone, cname_requires_single_target,
  conflicting_rrset_values, cname_address_type_conflict, missing_address, invalid_address,
}
use rfc_codex_gentoo_stage.DnsPlan.Hosts.{PlanRecord, render_hosts_file}
use rfc_codex_gentoo_stage.DnsPlan.Plan.{DnsPlan, generate_dns_plan}

pub data Effect : Type 0 where
  print_error print : String → Effect
  write_file : String → String → Effect

-- the command line, with the inventories and the zone groups as they were read
pub record Arguments : Type 0 where
  pub payloads : List Fields
  pub zone_groups : Value
  pub default_domain : String
  pub required_domain_inputs : List Value
  pub managed_domain_inputs : List Value
  pub default_ttl : ℤ
  pub apply : Bool
  pub allow_delete : Bool
  pub hosts_output : String
  pub is_json : Bool
  pub output : String

pub record Run : Type 0 where
  pub exit_code : ℕ
  pub effects : List Effect

unfoldable pub reason_text : RowReason → String
reason_text outside_managed_domain = "outside_managed_domain"
reason_text no_matching_zone = "no_matching_zone"
reason_text cname_requires_single_target = "cname_requires_single_target"
reason_text conflicting_rrset_values = "conflicting_rrset_values"
reason_text cname_address_type_conflict = "cname_address_type_conflict"
reason_text missing_address = "missing_address"
reason_text invalid_address = "invalid_address"

unfoldable pub error_line : Left → Effect
unfolding reason_text concat
error_line error = print_error (
    concat (
      "ERROR: "
      ∷ reason_text error.reason
      ∷ " fqdn="
      ∷ error.fqdn
      ∷ " type="
      ∷ error.record_type
      ∷ " source="
      ∷ error.source
      ∷ []))

abbrev lower_bool : Bool → String
lower_bool true = "true"
lower_bool false = "false"

-- `str_of` is `str` of a value that is no text, and `dumps` the JSON text of a plan.
module _ (str_of : Value → String) (dumps : DnsPlan → String) where
  -- `[normalize_dns_name(domain) for domain in inputs if str(domain).strip()]`; `none` is the
  -- `AttributeError` of a value that is no text.
  unfoldable pub domains_of : List Value → Option (List String)
  unfolding strip text_by normalize_dns_name as_str
  domains_of [] = some []
  domains_of (v ∷ vs) =
      let rest = domains_of vs in
      if is_empty (strip (text_by str_of v)) then rest else elim (as_str v) [
        | none ↦ none
        | some s ↦ elim rest [ none ↦ none | some ss ↦ some (normalize_dns_name s ∷ ss) ]
      ]

  unfoldable pub record_line : PlanRecord → String
  unfolding concat join text_by
  record_line r = concat (
      "ensure "
      ∷ r.planned.zone
      ∷ " "
      ∷ r.planned.relative_name
      ∷ " "
      ∷ r.planned.record_type
      ∷ " "
      ∷ text_by str_of (int r.planned.ttl)
      ∷ " "
      ∷ join " " r.values
      ∷ [])

  abbrev number_line : String → ℕ → String
  number_line name n = concat (name ∷ "=" ∷ text_by str_of (int (pos n)) ∷ [])

  unfoldable pub text_output : DnsPlan → String
  unfolding concat join record_line text_by
  text_output plan = concat (
      join "\n" (
        concat ("apply=" ∷ lower_bool plan.apply ∷ [])
        ∷ concat ("allow_delete=" ∷ lower_bool plan.allow_delete ∷ [])
        ∷ number_line "records" plan.summary.record_count
        ∷ number_line "hosts_entries" plan.summary.hosts_entry_count
        ∷ number_line "skipped" plan.summary.skipped_count
        ∷ map record_line plan.records)
      ∷ "\n"
      ∷ [])

  unfoldable pub output_of : Arguments → DnsPlan → String
  unfolding text_output concat
  output_of args plan = if args.is_json then concat (dumps plan ∷ "\n" ∷ []) else text_output plan

  unfoldable pub hosts_effects : Arguments → DnsPlan → List Effect
  unfolding render_hosts_file
  hosts_effects args plan =
      if is_empty args.hosts_output
      then []
      else write_file args.hosts_output (render_hosts_file plan.hosts_entries) ∷ []

  unfoldable pub plan_effects : Arguments → DnsPlan → List Effect
  unfolding hosts_effects output_of
  plan_effects args plan =
      hosts_effects args plan
      ++ (if is_empty args.output
          then print (output_of args plan)
          else write_file args.output (output_of args plan))
        ∷ []

  -- the end of the run, by the errors of the plan
  abbrev pub end_with : Arguments → DnsPlan → List Left → Run
  end_with args plan [] = record { exit_code = 0; effects = plan_effects args plan }
  end_with args plan (error ∷ errors) = record {
    exit_code = 1;
    effects = map error_line (error ∷ errors);
  }

  unfoldable pub finish : Arguments → DnsPlan → Run
  unfolding error_line plan_effects
  finish args plan = end_with args plan plan.errors

  module _ (ip_interface : String → Option Address) where
    abbrev with_domains :
        Arguments → List ZoneGroup → Option (List String) → Option (List String) → Option DnsPlan
    with_domains args groups none managed = none
    with_domains args groups (some required) none = none
    with_domains args groups (some required) (some managed) =
        generate_dns_plan str_of ip_interface
          (record {
            zone_groups = groups;
            required_domains = required;
            managed_domains = managed;
            ttl = args.default_ttl;
          })
          (normalize_dns_name args.default_domain) args.payloads args.apply args.allow_delete

    abbrev with_groups : Arguments → ZoneGroupError ⊎ List ZoneGroup → Option DnsPlan
    with_groups args (inl e) = none
    with_groups args (inr groups) =
        with_domains args groups (domains_of args.required_domain_inputs)
          (domains_of args.managed_domain_inputs)

    -- the plan that `main` makes; `none` is an exception
    unfoldable pub plan_for : Arguments → Option DnsPlan
    unfolding generate_dns_plan normalize_dns_name domains_of load_zone_groups
    plan_for args = with_groups args (load_zone_groups str_of args.zone_groups)

    -- `main`, with `none` for an exception that ends it
    unfoldable pub main : Arguments → Option Run
    unfolding plan_for finish
    main args = elim args.payloads [
      | [] ↦
          some
            (record { exit_code = 2; effects = print_error "ERROR: no inventory files found" ∷ [] })
      | _ ∷ _ ↦ elim (plan_for args) [ none ↦ none | some plan ↦ some (finish args plan) ]
    ]
