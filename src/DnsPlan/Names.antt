-- ===== src/DnsPlan/Names.antt =====
-- Names, domains and zones of scripts/plan-hetzner-dns-from-inventory.py, from `load_zone_groups` to
-- `required_domain_match`.
use Prim.Native.String.{compare, count}
use Prim.Native.Nat.{Ordering, compare as compare_ℕ}
use rfc_codex_gentoo_stage.Prelude.{
  ℕ, suc, code, String, Bool, true, false, ◌&&◌, ◌||◌, leb, nat_eq, Option, none, some, List, [],
  ◌∷◌, ◌==◌, if◌then◌else◌, ◌⊎◌, inl, inr, any, ◌++◌,
}
use rfc_codex_gentoo_stage.Text.{strip, strip_by, lower, concat, is_empty, has_text}
use rfc_codex_gentoo_stage.Text.Ends.{ends_with, without_end, dotted}
use rfc_codex_gentoo_stage.Value.{Value, str, list, nil, Fields, get_or, as_dict, as_list, text_by}
use rfc_codex_gentoo_stage.Dns.Records.{normalize_dns_name}

pub record ZoneGroup : Type 0 where
  pub name : String
  pub zones : List String

pub data ZoneGroupError : Type 0 where
  not_list : ZoneGroupError
  not_mapping missing_name zones_not_list : ℕ → ZoneGroupError

module _ (str_of : Value → String) where
  -- `str(item.get(key, "")).strip()`
  unfoldable pub stripped : Fields → String → String
  unfolding strip text_by get_or
  stripped item key = strip (text_by str_of (get_or item key (str "")))

  unfoldable pub clean_zones : List Value → List String
  unfolding strip text_by normalize_dns_name
  clean_zones [] = []
  clean_zones (zone ∷ zones) =
      let rest = clean_zones zones in
      if is_empty (strip (text_by str_of zone))
      then rest
      else normalize_dns_name (text_by str_of zone) ∷ rest

  unfoldable pub zone_group : ℕ → Fields → ZoneGroupError ⊎ ZoneGroup
  unfolding stripped clean_zones as_list get_or
  zone_group index item =
      if is_empty (stripped item "name")
      then inl (missing_name index)
      else elim (as_list (get_or item "zones" (list nil))) [
        | none ↦ inl (zones_not_list index)
        | some [] ↦ inl (zones_not_list index)
        | some (zone ∷ zones) ↦
            inr (record { name = stripped item "name"; zones = clean_zones (zone ∷ zones) })
      ]

  abbrev and_group :
      ZoneGroupError ⊎ ZoneGroup → ZoneGroupError ⊎ List ZoneGroup → ZoneGroupError ⊎ List ZoneGroup
  and_group (inl e) rest = inl e
  and_group (inr g) (inl e) = inl e
  and_group (inr g) (inr gs) = inr (g ∷ gs)

  unfoldable pub zone_groups_from : ℕ → List Value → ZoneGroupError ⊎ List ZoneGroup
  unfolding zone_group as_dict
  zone_groups_from index [] = inr []
  zone_groups_from index (v ∷ vs) =
      let rest = zone_groups_from (suc index) vs in
      elim (as_dict v) [
        | none ↦ inl (not_mapping index)
        | some item ↦ and_group (zone_group index item) rest
      ]

  -- the part behind the reading of the JSON text
  unfoldable pub load_zone_groups : Value → ZoneGroupError ⊎ List ZoneGroup
  unfolding zone_groups_from as_list
  load_zone_groups payload = elim (as_list payload) [
    | none ↦ inl not_list
    | some items ↦ zone_groups_from 0 items
  ]

is_slug_char : ℕ → Bool
is_slug_char c = (leb b'a' c && leb c b'z') || (leb b'0' c && leb c b'9')

-- `re.sub(r"[^a-z0-9]+", "-", value)`, with whether the character before was replaced
unfoldable pub replace_runs : Bool → String → String
unfolding is_slug_char concat
replace_runs in_run String.[] = String.[]
replace_runs in_run (String.◌∷◌ c s) =
    let kept = replace_runs false s in
    let skipped = replace_runs true s in
    if is_slug_char (code c)
    then String.◌∷◌ c kept
    else if in_run
    then skipped
    else concat ("-" ∷ skipped ∷ [])

abbrev or_host : String → String
or_host s = if is_empty s then "host" else s

unfoldable pub slugify : String → String
unfolding strip strip_by lower replace_runs
slugify value = or_host (strip_by (λ c. nat_eq c b'-') (replace_runs false (lower (strip value))))

unfoldable pub with_default_domain : String → String → String
unfolding normalize_dns_name has_text concat
with_default_domain name default_domain =
    let normalized = normalize_dns_name name in
    if has_text "." normalized
    then normalized
    else normalize_dns_name (concat (normalized ∷ "." ∷ default_domain ∷ []))

-- `fqdn == zone or fqdn.endswith(f".{zone}")`
unfoldable pub is_within : String → String → Bool
unfolding ends_with
is_within fqdn zone = fqdn == zone || ends_with fqdn (dotted zone)

unfoldable pub required_domain_match : String → List String → Bool
unfolding is_within
required_domain_match fqdn required_domains = any (is_within fqdn) required_domains

-- A zone that holds the name, with its group.
pub record Match : Type 0 where
  pub group_name : String
  pub zone : String

-- The order of the tuples `(len(zone), group["name"], zone)`.
abbrev then_text : Ordering → Ordering → Ordering
then_text Ordering.lt o = Ordering.lt
then_text Ordering.eq o = o
then_text Ordering.gt o = Ordering.gt

unfoldable pub compare_matches : Match → Match → Ordering
compare_matches a b =
    then_text (compare_ℕ (count a.zone) (count b.zone))
      (then_text (compare a.group_name b.group_name) (compare a.zone b.zone))

unfoldable pub group_matches : String → String → List String → List Match
unfolding is_within
group_matches fqdn group_name [] = []
group_matches fqdn group_name (zone ∷ zones) =
    let rest = group_matches fqdn group_name zones in
    if is_within fqdn zone then (record { group_name = group_name; zone = zone }) ∷ rest else rest

unfoldable pub zone_matches : String → List ZoneGroup → List Match
unfolding group_matches
zone_matches fqdn [] = []
zone_matches fqdn (group ∷ groups) =
    group_matches fqdn group.name group.zones ++ zone_matches fqdn groups

abbrev pub greater : Match → Option Match → Option Match
greater a none = some a
greater a (some b) = elim (compare_matches a b) [
  | Ordering.lt ↦ some b
  | Ordering.eq ↦ some a
  | Ordering.gt ↦ some a
]

-- `sorted(matches, reverse=True)[0]`, if there is one
unfoldable pub greatest : List Match → Option Match
unfolding compare_matches
greatest [] = none
greatest (m ∷ ms) = greater m (greatest ms)

unfoldable pub zone_for_name : String → List ZoneGroup → Option Match
unfolding zone_matches greatest
zone_for_name fqdn zone_groups = greatest (zone_matches fqdn zone_groups)

unfoldable pub relative_record_name : String → String → String
unfolding ends_with without_end
relative_record_name fqdn zone =
    if fqdn == zone
    then "@"
    else if ends_with fqdn (dotted zone)
    then without_end fqdn (dotted zone)
    else fqdn
