-- ===== src/DnsPlan/Sound.antt =====
-- The plan that `generate_dns_plan` of scripts/plan-hetzner-dns-from-inventory.py makes: what all of
-- its records satisfy.
use rfc_codex_gentoo_stage.Prelude.{
  String, false, not, ◌&&◌, ◌==◌, Option, some, List, [], ◌∷◌, ◌≡◌, refl, ap, ◌∙◌, inl, inr,
  Bool-cases, Option-cases, length, nat_eq,
}
use rfc_codex_gentoo_stage.Text.{is_empty}
use rfc_codex_gentoo_stage.Dns.Records.{find}
use rfc_codex_gentoo_stage.Sorted.{sorted_set}
use rfc_codex_gentoo_stage.DnsPlan.Names.{Match, zone_for_name, required_domain_match}
use rfc_codex_gentoo_stage.DnsPlan.Add.{
  same_key, Planning, Setting, Wish, Left, Address, Source, is_planned, differs, incompatible_type,
  add_in_zone, add_without_zone, add_normal, add_record, normal_wish, key_of, is_outside, add_error,
  add_skipped, add_address_record, address_wish,
}
use rfc_codex_gentoo_stage.DnsPlan.Plan.{alias_wish, add_aliases, add_source, add_sources}
use rfc_codex_gentoo_stage.DnsPlan.Invariant.{
  IsSoundPlanning, plan_record-IsSoundPlanning, one_value,
}

module _ (setting : Setting) where
  add_error-IsSoundPlanning :
      (row : Left) (planning : Planning)
      → IsSoundPlanning setting planning
      → IsSoundPlanning setting (add_error row planning)
  unfolding add_error
  add_error-IsSoundPlanning row planning h = h

  add_in_zone-IsSoundPlanning :
      (wish : Wish) (match : Match) (values : List String) (planning : Planning)
      → is_outside wish.fqdn setting.managed_domains ≡ false
      → zone_for_name wish.fqdn setting.zone_groups ≡ some match
      → length values ≡ 1
      → IsSoundPlanning setting planning
      → IsSoundPlanning setting (add_in_zone setting wish match values planning)
  unfolding add_in_zone add_error
  add_in_zone-IsSoundPlanning wish match values planning managed zone single h =
      elim (Bool-cases (wish.record_type == "CNAME" && not (nat_eq (length values) 1))) [
        | inl e ↦ rw e h
        | inr e ↦
            elim (Bool-cases
              (differs (find same_key (key_of wish) planning.grouped_values) values)) [
                | inl d ↦ rw (e, d) h
                | inr d ↦
                    elim (Bool-cases (
                      is_planned
                        (record {
                          fqdn = wish.fqdn;
                          record_type = incompatible_type wish.record_type;
                        })
                        planning.rrsets)) [
                          | inl f ↦ rw (e, d, f) h
                          | inr f ↦
                              rw (e, d, f)
                                (plan_record-IsSoundPlanning setting wish match values planning
                                  managed zone single d f h)
                        ]
              ]
      ]

  add_without_zone-IsSoundPlanning :
      (wish : Wish) (planning : Planning)
      → IsSoundPlanning setting planning
      → IsSoundPlanning setting (add_without_zone setting wish planning)
  unfolding add_without_zone add_error add_skipped
  add_without_zone-IsSoundPlanning wish planning h =
      elim (Bool-cases (required_domain_match wish.fqdn setting.required_domains)) [
        | inl e ↦ rw e h
        | inr e ↦ rw e h
      ]

  add_normal-IsSoundPlanning :
      (wish : Wish) (planning : Planning)
      → length wish.values ≡ 1
      → IsSoundPlanning setting planning
      → IsSoundPlanning setting (add_normal setting wish planning)
  unfolding add_normal add_skipped
  add_normal-IsSoundPlanning wish planning single h =
      elim (Bool-cases (is_outside wish.fqdn setting.managed_domains)) [
        | inl e ↦ rw e h
        | inr e ↦ elim (Option-cases (zone_for_name wish.fqdn setting.zone_groups)) [
          | inl z ↦ rw (e, z) (add_without_zone-IsSoundPlanning wish planning h)
          | inr (match, z) ↦
              rw (e, z)
                (add_in_zone-IsSoundPlanning wish match (sorted_set wish.values) planning e z
                  (ap length (one_value wish.values single) ∙ single) h)
        ]
      ]

  pub add_record-IsSoundPlanning :
      (wish : Wish) (planning : Planning)
      → length wish.values ≡ 1
      → IsSoundPlanning setting planning
      → IsSoundPlanning setting (add_record setting wish planning)
  unfolding add_record normal_wish
  add_record-IsSoundPlanning wish planning single h =
      add_normal-IsSoundPlanning (normal_wish wish) planning single h

  -- An alias has one target, and an address record one address.
  pub add_aliases-IsSoundPlanning :
      (row : Source) (aliases : List String) (planning : Planning)
      → IsSoundPlanning setting planning
      → IsSoundPlanning setting (add_aliases setting row aliases planning)
  unfolding add_aliases alias_wish
  add_aliases-IsSoundPlanning row [] planning h = h
  add_aliases-IsSoundPlanning row (alias ∷ aliases) planning h =
      add_aliases-IsSoundPlanning row aliases (add_record setting (alias_wish row alias) planning)
        (add_record-IsSoundPlanning (alias_wish row alias) planning refl h)

  module _ (ip_interface : String → Option Address) where
    add_address_record-IsSoundPlanning :
        (row : Source) (planning : Planning)
        → IsSoundPlanning setting planning
        → IsSoundPlanning setting (add_address_record ip_interface setting row planning)
    unfolding add_address_record add_error address_wish
    add_address_record-IsSoundPlanning row planning h = elim (Bool-cases (is_empty row.address)) [
      | inl e ↦ rw e h
      | inr e ↦ elim (Option-cases (ip_interface row.address)) [
        | inl d ↦ rw (e, d) h
        | inr (address, d) ↦
            rw (e, d) (add_record-IsSoundPlanning (address_wish row address) planning refl h)
      ]
    ]

    pub add_sources-IsSoundPlanning :
        (rows : List Source) (planning : Planning)
        → IsSoundPlanning setting planning
        → IsSoundPlanning setting (add_sources ip_interface setting rows planning)
    unfolding add_sources add_source
    add_sources-IsSoundPlanning [] planning h = h
    add_sources-IsSoundPlanning (row ∷ rows) planning h = add_sources-IsSoundPlanning rows _ (
        add_aliases-IsSoundPlanning row row.aliases _
          (add_address_record-IsSoundPlanning row planning h))
