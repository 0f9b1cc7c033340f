-- ===== src/Dns/Records.antt =====
-- The records in the replies of the provider: `extract_list`, `rrsets_to_records` and
-- `extract_records` of scripts/apply-hetzner-dns-plan.py.
use rfc_codex_gentoo_stage.Prelude.{
  String, Bool, true, false, ◌&&◌, Option, none, some, List, [], ◌∷◌, ◌++◌, map, ◌==◌,
  if◌then◌else◌, nat_eq, ◌||◌,
}
use rfc_codex_gentoo_stage.Text.{strip, upper, lower, concat, join, strip_by, rstrip_by, is_empty}
use rfc_codex_gentoo_stage.Value.{Value, str, list, nil, Fields, get, get_or, as_dict, as_list}
use rfc_codex_gentoo_stage.Dns.Provider.{Web, text, Result, ok, err, runtime_error}

-- The values of a dictionary in the order in which its keys came; `put` keeps the place of a key
-- that is there.
module _ {K V : Type 0} (same : K → K → Bool) where
  unfoldable pub put : K → V → List (K × V) → List (K × V)
  put key value [] = (key, value) ∷ []
  put key value ((k, v) ∷ entries) =
      let rest = put key value entries in if same k key then (k, value) ∷ entries else (k, v) ∷ rest

  unfoldable pub find : K → List (K × V) → Option V
  find key [] = none
  find key ((k, v) ∷ entries) = let rest = find key entries in if same k key then some v else rest

unfoldable pub contains : String → List String → Bool
contains s [] = false
contains s (t ∷ ts) = if s == t then true else contains s ts

-- `value.strip().strip("{}").strip().rstrip(".").lower()`
unfoldable pub normalize_dns_name : String → String
unfolding strip strip_by rstrip_by lower
normalize_dns_name value = lower (
    rstrip_by (λ c. nat_eq c b'.')
      (strip (strip_by (λ c. nat_eq c b'{' || nat_eq c b'}') (strip value))))

-- `[item for item in items if isinstance(item, dict)]`
unfoldable pub mappings : List Value → List Fields
unfolding as_dict
mappings [] = []
mappings (v ∷ vs) = elim (as_dict v) [ none ↦ mappings vs | some fs ↦ fs ∷ mappings vs ]

-- the first of the keys that holds a list
unfoldable pub first_list : Fields → List String → Option (List Value)
unfolding get as_list
first_list payload [] = none
first_list payload (key ∷ keys) =
    let rest = first_list payload keys in
    elim (as_list (get payload key)) [ none ↦ rest | some items ↦ some items ]

unfoldable pub extract_list : Fields → List String → String → Result (List Fields)
unfolding first_list concat join mappings
extract_list payload keys context = elim (first_list payload keys) [
  | none ↦ err (
      runtime_error (concat (context ∷ " response did not contain any of: " ∷ join ", " keys ∷ [])))
  | some items ↦ ok (mappings items)
]

-- A record set: all values under one name and type.
pub record Row : Type 0 where
  pub id : String
  pub name : String
  pub type_name : String
  pub values : List String
  pub ttl : Value

module _ (web : Web) where
  -- `str(fields.get(key, "")).strip()`
  unfoldable pub stripped : Fields → String → String
  unfolding strip get_or
  stripped fields key = strip (text web (get_or fields key (str "")))

  -- `str(fields.get("type", "")).strip().upper()`
  unfoldable pub type_of : Fields → String
  unfolding stripped upper
  type_of fields = upper (stripped fields "type")

  unfoldable pub record_value : Value → String
  unfolding as_dict stripped strip
  record_value v = elim (as_dict v) [ none ↦ strip (text web v) | some fs ↦ stripped fs "value" ]

  unfoldable pub record_values : List Value → List String
  unfolding record_value
  record_values [] = []
  record_values (v ∷ vs) =
      let rest = record_values vs in
      if is_empty (record_value v) then rest else record_value v ∷ rest

  -- The values of a record set, a text as a list of one, and anything else as no values.
  unfoldable pub values_of : Value → List Value
  unfolding as_list
  values_of (str s) = str s ∷ []
  values_of v = elim (as_list v) [ none ↦ [] | some vs ↦ vs ]

  unfoldable pub rrset_row : Fields → Row
  unfolding stripped type_of record_values values_of get_or get
  rrset_row rrset = record {
    id = stripped rrset "id";
    name = stripped rrset "name";
    type_name = type_of rrset;
    values = record_values (values_of (get_or rrset "records" (get_or rrset "values" (list nil))));
    ttl = get rrset "ttl";
  }

  unfoldable pub rrsets_to_records : List Fields → List Row
  unfolding rrset_row
  rrsets_to_records rrsets = map rrset_row rrsets

  abbrev pub same_row : Row → Row → Bool
  same_row r o = r.name == o.name && r.type_name == o.type_name

  -- a row of the older interface, with at most one value
  unfoldable pub single_row : Fields → Row
  unfolding stripped type_of get
  single_row row = record {
    id = stripped row "id";
    name = stripped row "name";
    type_name = type_of row;
    values = if is_empty (stripped row "value") then [] else stripped row "value" ∷ [];
    ttl = get row "ttl";
  }

  -- adds the value to the first row of the same name and type
  unfoldable pub group_row : Row → List Row → List Row
  group_row r [] = r ∷ []
  group_row r (o ∷ os) =
      let rest = group_row r os in
      if same_row o r then (record o { values = o.values ++ r.values }) ∷ os else o ∷ rest

  unfoldable pub group_rows : List Fields → List Row → List Row
  unfolding group_row single_row
  group_rows [] grouped = grouped
  group_rows (row ∷ rows) grouped = group_rows rows (group_row (single_row row) grouped)

  unfoldable pub rows_or_error : Result (List Fields) → Result (List Row)
  unfolding group_rows
  rows_or_error (ok rows) = ok (group_rows rows [])
  rows_or_error (err e) = err e

  unfoldable pub extract_records : Fields → String → Result (List Row)
  unfolding rrsets_to_records mappings extract_list rows_or_error as_list get
  extract_records payload context = elim (as_list (get payload "rrsets")) [
    | some items ↦ ok (rrsets_to_records (mappings items))
    | none ↦ rows_or_error (extract_list payload ("records" ∷ "results" ∷ []) context)
  ]
