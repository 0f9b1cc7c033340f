-- ===== src/Dns/Sends.antt =====
-- Which requests the lookups and the changes of scripts/apply-hetzner-dns-plan.py send.
use rfc_codex_gentoo_stage.Prelude.{ℕ, zero, suc, String, none, some, List, [], ◌∷◌}
use rfc_codex_gentoo_stage.Value.{Value, Fields, as_dict}
use rfc_codex_gentoo_stage.Dns.Provider.{
  Request, http_get, http_post, http_delete, Web, next_page_number, pagination_payload, fetch_pages,
  fetch_paginated_payloads,
}
use rfc_codex_gentoo_stage.Dns.Requests.{
  rrset_payload, records_payload, create_rrset, update_rrset, delete_rrset, fetch_zones,
  fetch_records, fetch_first, fetch_zone_records, record_urls,
}
use rfc_codex_gentoo_stage.Dns.Ensures.{
  Ensures, Any, Ensures-pure, Ensures-raise, Ensures-lift-Any, Ensures-bind, Ensures-try,
  Ensures-option, Ensures-or_uncaught, request_json-Ensures,
}

-- a read with the token
abbrev pub IsRead : (Request → Type 0) → String → Type 0
IsRead Q token =
    (url : String) → Q (record { method = http_get; url = url; token = token; payload = none })

module _ (web : Web) {Q : Request → Type 0} (token : String) (read : IsRead Q token) where
  fetch_pages-Ensures :
      (fuel : ℕ) (url : String) (page : Value) → Ensures Q Any (fetch_pages web fuel url token page)
  unfolding fetch_pages
  fetch_pages-Ensures zero url page = Ensures-raise _
  fetch_pages-Ensures (suc fuel) url page =
      Ensures-bind _ _ (request_json-Ensures web _ (read _)) (λ reply _.
        Ensures-bind _ _ (Ensures-or_uncaught (as_dict reply)) (λ payload _.
          Ensures-option (next_page_number (pagination_payload payload) page) _ _
            (λ _. Ensures-pure _ tt)
            (λ next _.
              Ensures-bind _ _ (fetch_pages-Ensures fuel url next)
                (λ payloads _. Ensures-pure _ tt))))

  fetch_paginated_payloads-Ensures :
      (fuel : ℕ) (url : String) → Ensures Q Any (fetch_paginated_payloads web fuel url token)
  unfolding fetch_paginated_payloads
  fetch_paginated_payloads-Ensures fuel url = fetch_pages-Ensures fuel url _

  module _ (endpoint : String) (fuel : ℕ) where
    pub fetch_zones-Ensures : Ensures Q Any (fetch_zones web endpoint fuel token)
    unfolding fetch_zones
    fetch_zones-Ensures =
        Ensures-bind _ _ (fetch_paginated_payloads-Ensures fuel _)
          (λ payloads _. Ensures-lift-Any _)

    fetch_records-Ensures :
        (url : String) → Ensures Q Any (fetch_records web endpoint fuel token url)
    unfolding fetch_records
    fetch_records-Ensures url =
        Ensures-bind _ _ (fetch_paginated_payloads-Ensures fuel url)
          (λ payloads _. Ensures-lift-Any _)

    fetch_first-Ensures :
        (message : String) (urls : List String)
        → Ensures Q Any (fetch_first web endpoint fuel token message urls)
    unfolding fetch_first
    fetch_first-Ensures message [] = Ensures-raise _
    fetch_first-Ensures message (url ∷ urls) =
        Ensures-try _ _ (fetch_records-Ensures url) (λ later. fetch_first-Ensures later urls)

    pub fetch_zone_records-Ensures :
        (zone_id : String) → Ensures Q Any (fetch_zone_records web endpoint fuel token zone_id)
    unfolding fetch_zone_records
    fetch_zone_records-Ensures zone_id = fetch_first-Ensures "" (record_urls web endpoint zone_id)

module _ {Q : Request → Type 0} where
  rrset_payload-Ensures : (fields : Fields) → Ensures Q Any (rrset_payload fields)
  unfolding rrset_payload
  rrset_payload-Ensures fields = Ensures-bind _ _ (Ensures-or_uncaught _) (λ _ _.
      Ensures-bind _ _ (Ensures-or_uncaught _) (λ _ _.
        Ensures-bind _ _ (Ensures-or_uncaught _)
          (λ _ _. Ensures-bind _ _ (Ensures-or_uncaught _) (λ _ _. Ensures-pure _ tt))))

  records_payload-Ensures : (fields : Fields) → Ensures Q Any (records_payload fields)
  unfolding records_payload
  records_payload-Ensures fields =
      Ensures-bind _ _ (Ensures-or_uncaught _) (λ _ _. Ensures-pure _ tt)

-- a change with the token
abbrev pub IsWrite : (Request → Type 0) → String → Type 0
IsWrite Q token =
    (url : String) (payload : Value)
    → Q (record { method = http_post; url = url; token = token; payload = some payload })

abbrev pub IsRemoval : (Request → Type 0) → String → Type 0
IsRemoval Q token =
    (url : String) → Q (record { method = http_delete; url = url; token = token; payload = none })

module _ (web : Web) (endpoint : String) {Q : Request → Type 0} (token : String) where
  pub create_rrset-Ensures :
      IsWrite Q token
      → (zone_id : String) (fields : Fields)
      → Ensures Q Any (create_rrset web endpoint token zone_id fields)
  unfolding create_rrset
  create_rrset-Ensures write zone_id fields =
      Ensures-bind _ _ (rrset_payload-Ensures fields) (λ payload _.
        Ensures-bind _ _ (request_json-Ensures web _ (write _ payload)) (λ _ _. Ensures-pure _ tt))

  pub update_rrset-Ensures :
      IsWrite Q token
      → (zone_id : String) (fields : Fields)
      → Ensures Q Any (update_rrset web endpoint token zone_id fields)
  unfolding update_rrset
  update_rrset-Ensures write zone_id fields = Ensures-bind _ _ (Ensures-or_uncaught _) (λ _ _.
      Ensures-bind _ _ (Ensures-or_uncaught _) (λ _ _.
        Ensures-bind _ _ (records_payload-Ensures fields) (λ payload _.
          Ensures-bind _ _ (request_json-Ensures web _ (write _ payload))
            (λ _ _. Ensures-pure _ tt))))

  pub delete_rrset-Ensures :
      IsRemoval Q token
      → (zone_id rrset_id : String)
      → Ensures Q Any (delete_rrset web endpoint token zone_id rrset_id)
  unfolding delete_rrset
  delete_rrset-Ensures remove zone_id rrset_id =
      Ensures-bind _ _ (request_json-Ensures web _ (remove _)) (λ _ _. Ensures-pure _ tt)
