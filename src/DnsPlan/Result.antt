-- ===== src/DnsPlan/Result.antt =====
-- The plan that `generate_dns_plan` of scripts/plan-hetzner-dns-from-inventory.py returns.
use rfc_codex_gentoo_stage.Prelude.{
  String, Bool, false, Option, some, List, [], ◌∷◌, ◌≡◌, refl, sym, subst, ap, ◌∙◌, All, All-map,
  Unique, map, length, ℕ,
}
use rfc_codex_gentoo_stage.Value.{Value, Fields}
use rfc_codex_gentoo_stage.Dns.Records.{find}
use rfc_codex_gentoo_stage.Sorted.{sort_by}
use rfc_codex_gentoo_stage.Sorted.Kept.{All-sort_by, Unique-sort_by}
use rfc_codex_gentoo_stage.DnsPlan.Names.{relative_record_name}
use rfc_codex_gentoo_stage.DnsPlan.Zones.{Chosen, zone_for_name-Chosen}
use rfc_codex_gentoo_stage.DnsPlan.Add.{
  Key, same_key, Planned, Planning, nothing_planned, Setting, Source, Address, is_outside, or_none,
}
use rfc_codex_gentoo_stage.DnsPlan.Hosts.{PlanRecord}
use rfc_codex_gentoo_stage.DnsPlan.Plan.{
  add_sources, generate_dns_plan, plan_of, plan_records, with_values, compare_planned, DnsPlan,
  all_sources,
}
use rfc_codex_gentoo_stage.DnsPlan.Invariant.{
  IsPlaced, IsSoundPlanning, one_value, Apart, HasOneValue, key_eq,
}
use rfc_codex_gentoo_stage.DnsPlan.Sound.{add_sources-IsSoundPlanning}

abbrev pub record_key : PlanRecord → Key
record_key r = record { fqdn = r.planned.fqdn; record_type = r.planned.record_type }

-- The record set has one value, and stands in the zone that is chosen for its name.
abbrev pub IsSoundRecord : Setting → PlanRecord → Type 0
IsSoundRecord setting r =
    (is_outside r.planned.fqdn setting.managed_domains ≡ false)
    × Chosen r.planned.fqdn setting.zone_groups
        (some (record { group_name = r.planned.token_group; zone = r.planned.zone }))
    × (r.planned.relative_name ≡ relative_record_name r.planned.fqdn r.planned.zone)
    × (length r.values ≡ 1)

abbrev pub IsSoundPlan : Setting → DnsPlan → Type 0
IsSoundPlan setting plan =
    All (IsSoundRecord setting) plan.records
    × Unique (map record_key plan.records)
    × All (λ a. All (λ b. Apart (record_key a) (record_key b)) plan.records) plan.records

abbrev Entry : Type 0
Entry = Key × Planned

module _ (setting : Setting) (grouped : List (Key × List String)) where
  sound_record :
      (e : Entry)
      → IsPlaced setting e
      → HasOneValue grouped e.0
      → IsSoundRecord setting (with_values grouped e)
  unfolding with_values
  sound_record (key, p) (same_name, same_type, managed, zone, relative) single = (
    managed,
    subst (Chosen p.fqdn setting.zone_groups) zone
        (zone_for_name-Chosen p.fqdn setting.zone_groups),
    relative,
    ap length (one_value (or_none (find same_key key grouped)) single) ∙ single,
  )

  pub record_key-with_values :
      (e : Entry) → IsPlaced setting e → record_key (with_values grouped e) ≡ e.0
  unfolding with_values
  record_key-with_values (key, p) placed = key_eq _ key placed.0 placed.1

  sound_records :
      (es : List Entry)
      → All (IsPlaced setting) es
      → All (λ e. HasOneValue grouped e.0) es
      → All (IsSoundRecord setting) (map (with_values grouped) es)
  sound_records [] placed single = tt
  sound_records (e ∷ es) placed single =
      (sound_record e placed.0 single.0, sound_records es placed.1 single.1)

  keys_are :
      (es : List Entry)
      → All (IsPlaced setting) es
      → map record_key (map (with_values grouped) es) ≡ map (λ e. e.0) es
  keys_are [] placed = refl
  keys_are (e ∷ es) placed = rw (record_key-with_values e placed.0, keys_are es placed.1) refl

  -- what is true of the keys of all entries is true of all records
  all_keys :
      (P : Key → Type 0) (es : List Entry)
      → All (IsPlaced setting) es
      → All (λ e. P e.0) es
      → All (λ r. P (record_key r)) (map (with_values grouped) es)
  all_keys P [] placed h = tt
  all_keys P (e ∷ es) placed h =
      (subst P (sym (record_key-with_values e placed.0)) h.0, all_keys P es placed.1 h.1)

plan_of-IsSoundPlan :
    (setting : Setting) (input_files : ℕ) (apply allow_delete : Bool) (planning : Planning)
    → IsSoundPlanning setting planning
    → IsSoundPlan setting (plan_of setting input_files apply allow_delete planning)
unfolding plan_of plan_records
plan_of-IsSoundPlan setting input_files apply allow_delete planning
      (placed, unique, apart, single) =
    let es = sort_by compare_planned planning.rrsets in
    let grouped = planning.grouped_values in
    let sorted_placed = All-sort_by compare_planned (IsPlaced setting) planning.rrsets placed in
    (
      sound_records setting grouped es sorted_placed
          (All-sort_by compare_planned (λ e. HasOneValue grouped e.0) planning.rrsets single),
      subst Unique (sym (keys_are setting grouped es sorted_placed))
          (Unique-sort_by compare_planned (λ e. e.0) planning.rrsets unique),
      all_keys setting grouped
          (λ a. All (λ r. Apart a (record_key r)) (map (with_values grouped) es)) es sorted_placed
          (All-map _ _ es
            (λ a h.
              all_keys setting grouped (λ b. Apart a.0 b) es sorted_placed
                (All-sort_by compare_planned (λ b. Apart a.0 b.0) planning.rrsets h))
            (All-sort_by compare_planned (λ a. All (λ b. Apart a.0 b.0) planning.rrsets)
              planning.rrsets apart)),
    )

-- If the rows of the inventories can be read, then a plan is made, and in it no two record sets have one
-- name and type, no name has both a CNAME and an address of version 4, and each record set has one
-- value, lies within the managed domains if there are any, and stands in a zone and with a token group of the given
-- ones that hold its name, of which no zone is longer, under the name relative to this zone.
pub generate_dns_plan-IsSound :
    (str_of : Value → String) (ip_interface : String → Option Address) (setting : Setting)
    (default_domain : String) (payloads : List Fields) (apply allow_delete : Bool)
    (rows : List Source)
    → all_sources str_of default_domain payloads ≡ some rows
    → (plan : DnsPlan) × (generate_dns_plan str_of ip_interface setting default_domain payloads
          apply allow_delete
        ≡ some plan)
      × IsSoundPlan setting plan
unfolding generate_dns_plan
generate_dns_plan-IsSound str_of ip_interface setting default_domain payloads apply allow_delete
      rows h =
    let planning = add_sources ip_interface setting rows nothing_planned in
    (
      plan_of setting (length payloads) apply allow_delete planning,
      rw (generate_dns_plan, h) refl,
      plan_of-IsSoundPlan setting (length payloads) apply allow_delete planning
          (add_sources-IsSoundPlanning setting ip_interface rows nothing_planned (tt, tt, tt, tt)),
    )
