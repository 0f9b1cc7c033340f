-- ===== src/Dns/Requests.antt =====
-- The requests that read zones and records and that create, update and delete record sets, and the
-- texts of their errors.
use rfc_codex_gentoo_stage.Prelude.{
  ℕ, pos, String, Bool, ◌||◌, nat_eq, Option, none, some, List, [], ◌∷◌, ◌++◌,
}
use rfc_codex_gentoo_stage.Text.{concat, has_text, rstrip_by}
use rfc_codex_gentoo_stage.Value.{
  Value, int, list, Items, nil, cons, dict, Fields, field, end, get, get_or, get_elem?, as_str,
  iterate, to_int, ◌or_value◌,
}
use rfc_codex_gentoo_stage.Dns.Provider.{
  Web, http_post, http_delete, Dns, Result, ok, err, runtime_error, pure, raise, or_uncaught, ◌>>=◌,
  request_json, fetch_paginated_payloads, try_except,
}
use rfc_codex_gentoo_stage.Dns.Records.{Row, extract_list, extract_records}

abbrev pub lift : {A : Type 0} → Result A → Dns A
lift r s = (r, s)

-- `{"value": value} for value in values`
unfoldable pub value_items : List Value → Items
value_items [] = nil
value_items (v ∷ vs) = cons (dict (field "value" v end)) (value_items vs)

unfoldable pub values_payload : Fields → Option Value
unfolding iterate get_or value_items
values_payload record_fields = elim (iterate (get_or record_fields "values" (list nil))) [
  | none ↦ none
  | some vs ↦ some (list (value_items vs))
]

unfoldable pub rrset_payload : Fields → Dns Value
unfolding get_elem? get to_int ◌or_value◌ values_payload
rrset_payload fields = do
  name ← or_uncaught (get_elem? fields "relative_name")
  type_value ← or_uncaught (get_elem? fields "type")
  ttl ← or_uncaught (to_int (get fields "ttl" or_value int (pos 300)))
  values ← or_uncaught (values_payload fields)
  pure (
      dict (
        field "name" name
          (field "type" type_value (field "ttl" (int ttl) (field "records" values end)))))

unfoldable pub records_payload : Fields → Dns Value
unfolding values_payload
records_payload fields = do
  values ← or_uncaught (values_payload fields)
  pure (dict (field "records" values end))

-- `record[key]`, quoted for a URL
unfoldable pub quoted : Web → Fields → String → Option String
unfolding get_elem? as_str
quoted web fields key = elim (get_elem? fields key) [
  | none ↦ none
  | some v ↦ elim (as_str v) [ none ↦ none | some s ↦ some (web.quote s) ]
]

abbrev base_url : String → String
base_url endpoint = rstrip_by (λ c. nat_eq c b'/') endpoint

module _ (web : Web) (endpoint : String) where
  unfoldable pub rrsets_url : String → List String → String
  unfolding concat rstrip_by
  rrsets_url zone_id more =
      concat (base_url endpoint ∷ "/zones/" ∷ web.quote zone_id ∷ "/rrsets" ∷ more)

  unfoldable pub create_rrset : String → String → Fields → Dns (Unit {0})
  unfolding rrsets_url rrset_payload request_json
  create_rrset token zone_id fields = do
    payload ← rrset_payload fields
    _ ← request_json web (record {
      method = http_post;
      url = rrsets_url zone_id [];
      token = token;
      payload = some payload;
    })
    pure tt

  unfoldable pub update_rrset : String → String → Fields → Dns (Unit {0})
  unfolding rrsets_url records_payload request_json quoted
  update_rrset token zone_id fields = do
    name ← or_uncaught (quoted web fields "relative_name")
    type_text ← or_uncaught (quoted web fields "type")
    payload ← records_payload fields
    _ ← request_json web (record {
      method = http_post;
      url = rrsets_url zone_id ("/" ∷ name ∷ "/" ∷ type_text ∷ "/actions/set_records" ∷ []);
      token = token;
      payload = some payload;
    })
    pure tt

  unfoldable pub delete_rrset : String → String → String → Dns (Unit {0})
  unfolding rrsets_url request_json
  delete_rrset token zone_id rrset_id = do
    _ ← request_json web (record {
      method = http_delete;
      url = rrsets_url zone_id ("/" ∷ web.quote rrset_id ∷ []);
      token = token;
      payload = none;
    })
    pure tt

  unfoldable pub zone_rows : List Fields → Result (List Fields)
  unfolding extract_list
  zone_rows [] = ok []
  zone_rows (payload ∷ payloads) = elim (extract_list payload ("zones" ∷ "results" ∷ []) "zones") [
    | err e ↦ err e
    | ok rows ↦ elim (zone_rows payloads) [ err e ↦ err e | ok more ↦ ok (rows ++ more) ]
  ]

  unfoldable pub record_rows : List Fields → Result (List Row)
  unfolding extract_records
  record_rows [] = ok []
  record_rows (payload ∷ payloads) = elim (extract_records web payload "records") [
    | err e ↦ err e
    | ok rows ↦ elim (record_rows payloads) [ err e ↦ err e | ok more ↦ ok (rows ++ more) ]
  ]

  unfoldable pub fetch_zones : ℕ → String → Dns (List Fields)
  unfolding concat rstrip_by fetch_paginated_payloads zone_rows
  fetch_zones fuel token = do
    payloads ← fetch_paginated_payloads web fuel (concat (base_url endpoint ∷ "/zones" ∷ [])) token
    lift (zone_rows payloads)

  -- the three addresses that are tried in turn
  unfoldable pub record_urls : String → List String
  unfolding concat rstrip_by rrsets_url
  record_urls zone_id =
      rrsets_url zone_id []
      ∷ concat (base_url endpoint ∷ "/records?" ∷ web.zone_query zone_id ∷ [])
      ∷ concat (base_url endpoint ∷ "/zones/" ∷ web.quote zone_id ∷ "/records" ∷ [])
      ∷ []

  unfoldable pub fetch_records : ℕ → String → String → Dns (List Row)
  unfolding fetch_paginated_payloads record_rows
  fetch_records fuel token url = do
    payloads ← fetch_paginated_payloads web fuel url token
    lift (record_rows payloads)

  -- the first of the addresses that answers; the last error if none does
  unfoldable pub fetch_first : ℕ → String → String → List String → Dns (List Row)
  unfolding fetch_records try_except
  fetch_first fuel token last_error [] = raise (runtime_error last_error)
  fetch_first fuel token last_error (url ∷ urls) =
      try_except (fetch_records fuel token url) (λ message. fetch_first fuel token message urls)

  unfoldable pub fetch_zone_records : ℕ → String → String → Dns (List Row)
  unfolding fetch_first record_urls
  fetch_zone_records fuel token zone_id = fetch_first fuel token "" (record_urls zone_id)

unfoldable pub is_already_exists_error : String → Bool
unfolding has_text
is_already_exists_error message =
    has_text "already exist" message || has_text "uniqueness_error" message
