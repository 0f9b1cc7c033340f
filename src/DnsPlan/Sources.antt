-- ===== src/DnsPlan/Sources.antt =====
-- `iter_inventory_sources` of scripts/plan-hetzner-dns-from-inventory.py: the names and addresses of
-- the devices and of the service addresses of one inventory.
use rfc_codex_gentoo_stage.Prelude.{
  String, ◌||◌, Option, none, some, List, [], ◌∷◌, ◌++◌, if◌then◌else◌,
}
use rfc_codex_gentoo_stage.Text.{strip, concat, is_empty}
use rfc_codex_gentoo_stage.Value.{
  Value, Fields, get, get_or, as_dict, iterate, is_truthy, text_by, empty_list, ◌or_value◌,
}
use rfc_codex_gentoo_stage.DnsPlan.Names.{slugify, with_default_domain, stripped}
use rfc_codex_gentoo_stage.DnsPlan.Add.{Source}

module _ (str_of : Value → String) (default_domain : String) where
  -- `[with_default_domain(str(alias), default_domain) for alias in ... if str(alias).strip()]`
  unfoldable pub alias_names : List Value → List String
  unfolding strip text_by with_default_domain
  alias_names [] = []
  alias_names (v ∷ vs) =
      let rest = alias_names vs in
      if is_empty (strip (text_by str_of v))
      then rest
      else with_default_domain (text_by str_of v) default_domain ∷ rest

  -- `str(row.get("fqdn") or slugify(name))`
  unfoldable pub own_name : Fields → String → String
  unfolding is_truthy get text_by slugify
  own_name row name =
      if is_truthy (get row "fqdn") then text_by str_of (get row "fqdn") else slugify name

  abbrev row_with : String → Fields → String → String → Option (List Value) → Option (List Source)
  row_with prefix row name address none = none
  row_with prefix row name address (some aliases) = some (
      record {
        source = concat (prefix ∷ name ∷ []);
        fqdn = with_default_domain (own_name row name) default_domain;
        address = address;
        aliases = alias_names aliases;
      }
      ∷ [])

  -- The rows of one entry, at most one; `none` is the `TypeError` of aliases that are no sequence.
  unfoldable pub source_of : String → String → String → Value → Option (List Source)
  unfolding as_dict stripped own_name alias_names with_default_domain iterate get ◌or_value◌ concat
      get_or
  source_of prefix address_key aliases_key v = elim (as_dict v) [
    | none ↦ some []
    | some row ↦
        if is_empty (stripped str_of row "name") || is_empty (stripped str_of row address_key)
        then some []
        else row_with prefix row (stripped str_of row "name") (stripped str_of row address_key)
            (iterate (get_or row aliases_key empty_list or_value empty_list))
  ]

  abbrev and_rows : Option (List Source) → Option (List Source) → Option (List Source)
  and_rows none rest = none
  and_rows (some rows) none = none
  and_rows (some rows) (some more) = some (rows ++ more)

  unfoldable pub sources_of : String → String → String → List Value → Option (List Source)
  unfolding source_of
  sources_of prefix address_key aliases_key [] = some []
  sources_of prefix address_key aliases_key (v ∷ vs) =
      and_rows (source_of prefix address_key aliases_key v)
        (sources_of prefix address_key aliases_key vs)

  abbrev sources_in : String → String → String → Option (List Value) → Option (List Source)
  sources_in prefix address_key aliases_key none = none
  sources_in prefix address_key aliases_key (some vs) = sources_of prefix address_key aliases_key vs

  unfoldable pub iter_inventory_sources : Fields → Option (List Source)
  unfolding sources_of iterate get_or ◌or_value◌
  iter_inventory_sources payload =
      and_rows
        (sources_in "device:" "management_ip" "dns_aliases"
          (iterate (get_or payload "devices" empty_list or_value empty_list)))
        (sources_in "service_vip:" "address" "aliases"
          (iterate (get_or payload "service_vips" empty_list or_value empty_list)))
