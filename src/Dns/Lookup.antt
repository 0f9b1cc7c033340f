-- ===== src/Dns/Lookup.antt =====
-- The zones and the record sets that the provider or the fixture has: `zone_lookup`,
-- `current_record_lookup` and `find_current_record` of scripts/apply-hetzner-dns-plan.py.
use rfc_codex_gentoo_stage.Prelude.{
  ℕ, ℤ, pos, String, Bool, true, false, not, ◌&&◌, ◌||◌, Option, none, some, List, [], ◌∷◌, ◌==◌,
  if◌then◌else◌,
}
use rfc_codex_gentoo_stage.Text.{strip, upper, is_empty}
use rfc_codex_gentoo_stage.Sorted.{sorted_set}
use rfc_codex_gentoo_stage.Value.{int, str, Fields, get_or, to_int, ◌or_value◌}
use rfc_codex_gentoo_stage.Dns.Provider.{Web, text, Dns, pure, or_uncaught, ◌>>=◌}
use rfc_codex_gentoo_stage.Dns.Records.{Row, put, contains, stripped, normalize_dns_name}
use rfc_codex_gentoo_stage.Dns.Groups.{TokenGroup, fixture_zones, fixture_records}
use rfc_codex_gentoo_stage.Dns.Requests.{lift, fetch_zones, fetch_zone_records}

-- what the run is given besides the plan: the endpoint, the flags, the fixture, and how many pages
-- of one list are followed
pub record Options : Type 0 where
  pub endpoint : String
  pub apply : Bool
  pub allow_delete : Bool
  pub fixture : Option Fields
  pub fuel : ℕ

-- A zone, as the pair of its token group and its name.
pub record ZoneKey : Type 0 where
  pub token_group : String
  pub zone : String

unfoldable pub same_zone : ZoneKey → ZoneKey → Bool
same_zone a b = a.token_group == b.token_group && a.zone == b.zone

pub record Zone : Type 0 where
  pub id : String
  pub name : String
  pub token_group : String
  pub api_token : String

abbrev pub Zones : Type 0
Zones = List (ZoneKey × Zone)

pub record RecordKey : Type 0 where
  pub zone_key : ZoneKey
  pub relative_name : String
  pub record_type : String

unfoldable pub same_record : RecordKey → RecordKey → Bool
unfolding same_zone
same_record a b =
    same_zone a.zone_key b.zone_key
    && a.relative_name == b.relative_name
    && a.record_type == b.record_type

-- A record set as it is now.
pub record Current : Type 0 where
  pub id : String
  pub values : List String
  pub ttl : ℤ

abbrev pub Records : Type 0
Records = List (RecordKey × Current)

-- `int(row.get("ttl") or 300)` raises on a value that is no number.
unfoldable pub current_of : Row → Option Current
unfolding strip sorted_set to_int ◌or_value◌
current_of row = elim (to_int (row.ttl or_value int (pos 300))) [
  | none ↦ none
  | some ttl ↦ some (record { id = strip row.id; values = sorted_set row.values; ttl = ttl })
]

unfoldable pub record_key : ZoneKey → Row → RecordKey
unfolding strip upper
record_key key row = record {
  zone_key = key;
  relative_name = strip row.name;
  record_type = upper (strip row.type_name);
}

-- the group that has the name, the last of them if there are several
unfoldable pub last_group : String → List TokenGroup → Option TokenGroup
last_group name [] = none
last_group name (g ∷ gs) = elim (last_group name gs) [
  | some later ↦ some later
  | none ↦ if g.name == name then some g else none
]

abbrev has_no_names : List String → Bool
has_no_names [] = true
has_no_names (_ ∷ _) = false

module _ (web : Web) (options : Options) where
  unfoldable pub zone_name_of : Fields → String
  unfolding get_or normalize_dns_name
  zone_name_of zone = normalize_dns_name (text web (get_or zone "name" (str "")))

  -- whether the group wants the zone, and the zone has a name and an ID
  unfoldable pub is_wanted : TokenGroup → Fields → Bool
  unfolding zone_name_of contains stripped
  is_wanted group zone =
      (has_no_names group.zones || contains (zone_name_of zone) group.zones)
      && not (is_empty (zone_name_of zone))
      && not (is_empty (stripped web zone "id"))

  unfoldable pub note_zones : TokenGroup → List Fields → Zones → Zones
  unfolding is_wanted zone_name_of stripped put same_zone
  note_zones group [] zones = zones
  note_zones group (zone ∷ more) zones = note_zones group more (
      if is_wanted group zone
      then put same_zone (record { token_group = group.name; zone = zone_name_of zone })
          (record {
            id = stripped web zone "id";
            name = zone_name_of zone;
            token_group = group.name;
            api_token = group.api_token;
          })
          zones
      else zones)

  unfoldable pub provider_zones : Option Fields → TokenGroup → Dns (List Fields)
  unfolding fixture_zones fetch_zones
  provider_zones none group = fetch_zones web options.endpoint options.fuel group.api_token
  provider_zones (some fixture) group = lift (fixture_zones web fixture group.name)

  unfoldable pub zones_from : List TokenGroup → Zones → Dns Zones
  unfolding provider_zones note_zones
  zones_from [] zones = pure zones
  zones_from (group ∷ groups) zones = do
    found ← provider_zones options.fixture group
    zones_from groups (note_zones group found zones)

  unfoldable pub zone_lookup : List TokenGroup → Dns Zones
  unfolding zones_from
  zone_lookup groups = zones_from groups []

  unfoldable pub note_records : ZoneKey → List Row → Records → Option Records
  unfolding current_of record_key put same_record
  note_records key [] records = some records
  note_records key (row ∷ rows) records = elim (current_of row) [
    | none ↦ none
    | some current ↦ note_records key rows (put same_record (record_key key row) current records)
  ]

  unfoldable pub zone_rows_of : Option Fields → TokenGroup → String → String → Dns (List Row)
  unfolding fixture_records fetch_zone_records
  zone_rows_of none group group_name zone_id =
      fetch_zone_records web options.endpoint options.fuel group.api_token zone_id
  zone_rows_of (some fixture) group group_name zone_id =
      lift (fixture_records web fixture group_name zone_id)

  unfoldable pub records_from : List TokenGroup → Zones → Records → Dns Records
  unfolding last_group zone_rows_of note_records
  records_from groups [] records = pure records
  records_from groups ((key, zone) ∷ zones) records = do
    group ← or_uncaught (last_group key.token_group groups)
    rows ← zone_rows_of options.fixture group key.token_group zone.id
    noted ← or_uncaught (note_records key rows records)
    records_from groups zones noted

  unfoldable pub current_record_lookup : List TokenGroup → Zones → Dns Records
  unfolding records_from
  current_record_lookup groups zones = records_from groups zones []

  -- the first row of the name and type
  unfoldable pub find_row : String → String → List Row → Option Row
  unfolding strip upper
  find_row name type_text [] = none
  find_row name type_text (row ∷ rows) =
      let rest = find_row name type_text rows in
      if strip row.name == name && upper (strip row.type_name) == type_text then some row else rest

  abbrev pub current_or_none : Option Row → Dns (Option Current)
  current_or_none none = pure none
  current_or_none (some row) = do current ← or_uncaught (current_of row); pure (some current)

  unfoldable pub find_current_record : String → String → String → String → Dns (Option Current)
  unfolding fetch_zone_records find_row current_of
  find_current_record token zone_id name type_text = do
    rows ← fetch_zone_records web options.endpoint options.fuel token zone_id
    current_or_none (find_row name type_text rows)
