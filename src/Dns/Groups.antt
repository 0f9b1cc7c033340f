-- ===== src/Dns/Groups.antt =====
-- Token groups and fixtures of scripts/apply-hetzner-dns-plan.py.
use rfc_codex_gentoo_stage.Prelude.{
  ℕ, suc, String, Option, none, some, List, [], ◌∷◌, ◌==◌, if◌then◌else◌, ◌⊎◌, inl, inr,
}
use rfc_codex_gentoo_stage.Text.{strip, is_empty}
use rfc_codex_gentoo_stage.Value.{
  Value, null, list, nil, dict, end, Fields, get, get_or, as_str, as_dict, as_list, iterate,
}
use rfc_codex_gentoo_stage.Dns.Provider.{Web, text, Result, ok, err, uncaught}
use rfc_codex_gentoo_stage.Dns.Records.{
  Row, stripped, normalize_dns_name, mappings, extract_records, rrsets_to_records,
}

pub record TokenGroup : Type 0 where
  pub name : String
  pub token_name : String
  pub api_token : String
  pub zones : List String

pub data GroupError : Type 0 where
  not_list : GroupError
  not_mapping missing_name zones_not_list : ℕ → GroupError

module _ (web : Web) where
  unfoldable pub zone_names : List Value → List String
  unfolding normalize_dns_name strip
  zone_names [] = []
  zone_names (v ∷ vs) =
      let rest = zone_names vs in
      if is_empty (strip (text web v)) then rest else normalize_dns_name (text web v) ∷ rest

  -- `zones`, with `None` as the empty list
  abbrev pub zones_of : Value → Option (List Value)
  zones_of null = some []
  zones_of v = as_list v

  unfoldable pub load_group : ℕ → Fields → GroupError ⊎ TokenGroup
  unfolding stripped zone_names get_or as_list
  load_group index item =
      if is_empty (stripped web item "name")
      then inl (missing_name index)
      else elim (zones_of (get_or item "zones" (list nil))) [
        | none ↦ inl (zones_not_list index)
        | some zones ↦ inr (record {
          name = stripped web item "name";
          token_name = stripped web item "token_name";
          api_token = stripped web item "api_token";
          zones = zone_names zones;
        })
      ]

  abbrev and_group :
      GroupError ⊎ TokenGroup → GroupError ⊎ List TokenGroup → GroupError ⊎ List TokenGroup
  and_group (inl e) rest = inl e
  and_group (inr g) (inl e) = inl e
  and_group (inr g) (inr gs) = inr (g ∷ gs)

  unfoldable pub load_groups : ℕ → List Value → GroupError ⊎ List TokenGroup
  unfolding load_group as_dict
  load_groups index [] = inr []
  load_groups index (v ∷ vs) =
      let rest = load_groups (suc index) vs in
      elim (as_dict v) [
        | none ↦ inl (not_mapping index)
        | some item ↦ and_group (load_group index item) rest
      ]

  -- the part behind the reading of the JSON text
  unfoldable pub load_token_groups : Value → GroupError ⊎ List TokenGroup
  unfolding load_groups as_list
  load_token_groups payload = elim (as_list payload) [
    | none ↦ inl not_list
    | some items ↦ load_groups 0 items
  ]

  -- the first of the groups with the name
  unfoldable pub group_named : String → List Value → Option Fields
  unfolding as_dict as_str get
  group_named name [] = none
  group_named name (v ∷ vs) =
      let rest = group_named name vs in
      elim (as_dict v) [
        | none ↦ rest
        | some group ↦ elim (as_str (get group "name")) [
          | none ↦ rest
          | some s ↦ if s == name then some group else rest
        ]
      ]

  abbrev in_groups : String → Option (List Value) → Result (Option Fields)
  in_groups name none = err uncaught
  in_groups name (some vs) = ok (group_named name vs)

  unfoldable pub fixture_group : Fields → String → Result (Option Fields)
  unfolding group_named iterate get_or
  fixture_group fixture name = in_groups name (iterate (get_or fixture "token_groups" (list nil)))

  abbrev zones_in : Result (Option Fields) → Result (List Fields)
  zones_in (err e) = err e
  zones_in (ok none) = ok []
  zones_in (ok (some group)) = elim (as_list (get_or group "zones" (list nil))) [
    | none ↦ ok []
    | some vs ↦ ok (mappings vs)
  ]

  unfoldable pub fixture_zones : Fields → String → Result (List Fields)
  unfolding fixture_group mappings as_list get_or
  fixture_zones fixture name = zones_in (fixture_group fixture name)

  abbrev rows_in_payload : Value → Result (List Row)
  rows_in_payload (dict payload) = extract_records web payload "fixture records"
  rows_in_payload v = elim (as_list v) [
    | none ↦ ok []
    | some vs ↦ ok (rrsets_to_records web (mappings vs))
  ]

  abbrev rows_in : String → Result (Option Fields) → Result (List Row)
  rows_in zone_id (err e) = err e
  rows_in zone_id (ok none) = ok []
  rows_in zone_id (ok (some group)) =
      elim (as_dict (get_or group "records_by_zone_id" (dict end))) [
        | none ↦ ok []
        | some by_id ↦ rows_in_payload (get_or by_id zone_id (list nil))
      ]

  unfoldable pub fixture_records : Fields → String → String → Result (List Row)
  unfolding fixture_group extract_records rrsets_to_records mappings as_list as_dict get_or
  fixture_records fixture name zone_id = rows_in zone_id (fixture_group fixture name)
