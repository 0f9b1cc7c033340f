-- ===== src/Dns/Pages.antt =====
-- The loop over the pages of scripts/apply-hetzner-dns-plan.py, for a provider that names its last
-- page.
use rfc_codex_gentoo_stage.Prelude.{
  ℕ, zero, suc, ◌≤◌, ◌<◌, pos, ltb_ℤ, String, false, Option, none, some, List, [], ◌∷◌, ◌++◌,
  append_assoc, ◌+◌, ◌≡◌, refl, sym, ap, ◌∙◌, arith, subst,
}
use rfc_codex_gentoo_stage.Value.{Value, null, int, dict, Fields, get, as_dict}
use rfc_codex_gentoo_stage.Dns.Provider.{
  Request, http_get, body, Web, Result, ok, Dns, pure, continue, ◌>>=◌, text, request_json, send,
  judge, pagination_payload, next_page_number, page_after, as_int, digits_as_int, fetch_pages,
  fetch_paginated_payloads,
}

-- the request for a page
abbrev pub page_request : Web → String → String → ℕ → Request
page_request web url token page = record {
  method = http_get;
  url = web.page_url url (text web (int (pos page)));
  token = token;
  payload = none;
}

-- Whatever was asked before, the request for a page is answered with its payload, a mapping that names the page behind it
-- as the next one; the last page names none, and itself as the last one.
pub record IsPaged (web : Web) (url token : String) (last : ℕ) (payload : ℕ → Fields) : Type 0 where
  pub answers :
      (past : List Request) (page : ℕ)
      → 1 ≤ page
      → page ≤ last
      → web.respond past (page_request web url token page) ≡ body (dict (payload page))
  pub next :
      (page : ℕ)
      → 1 ≤ page
      → page < last
      → get (pagination_payload (payload page)) "next_page" ≡ int (pos (suc page))
  pub no_next : get (pagination_payload (payload last)) "next_page" ≡ null
  pub last_page : get (pagination_payload (payload last)) "last_page" ≡ int (pos last)

-- what holds of so many pages from one on, in order
abbrev pub pages_from : {A : Type 0} → (ℕ → A) → ℕ → ℕ → List A
pages_from of page zero = []
pages_from of page (suc n) = of page ∷ pages_from of (suc page) n

next-named :
    (pagination : Fields) (current : Value) (n : ℕ)
    → get pagination "next_page" ≡ int (pos n)
    → next_page_number pagination current ≡ some (int (pos n))
unfolding next_page_number digits_as_int as_int
next-named pagination current n h =
    ap
      (λ next. elim (as_int (digits_as_int next)) [
        | none ↦ page_after (as_int current) (as_int (digits_as_int (get pagination "last_page")))
        | some _ ↦ some (digits_as_int next)
      ])
      h

not_before_itself : (n : ℕ) → ltb_ℤ (pos n) (pos n) ≡ false
not_before_itself n = ground arith

next-last :
    (pagination : Fields) (last : ℕ)
    → get pagination "next_page" ≡ null
    → get pagination "last_page" ≡ int (pos last)
    → next_page_number pagination (int (pos last)) ≡ none
unfolding next_page_number digits_as_int as_int
next-last pagination last n l = rw (next_page_number, n, l, not_before_itself last) refl

bind-ok :
    {A B : Type 0} (m : Dns A) (f : A → Dns B) (s t : List Request) (a : A)
    → m s ≡ (ok a, t)
    → (m >>= f) s ≡ f a t
unfolding ◌>>=◌
bind-ok m f s t a e = ap (λ r. continue r.0 f r.1) e

-- What a page is followed by.
abbrev follow : Web → ℕ → String → String → Fields → Option Value → Dns (List Fields)
follow web fuel url token payload none = pure (payload ∷ [])
follow web fuel url token payload (some next) =
    fetch_pages web fuel url token next >>= λ payloads. pure (payload ∷ payloads)

-- on from the last page of so many there is none
before_last : (page n last : ℕ) → page + suc (suc n) ≡ suc last → page < last
before_last page n last e = omega (arith, e)

at_last : (page last : ℕ) → page + 1 ≡ suc last → page ≡ last
at_last page last e = omega (arith, e)

within : (page n last : ℕ) → page + suc n ≡ suc last → page ≤ last
within page n last e = omega (arith, e)

rest_of : (page n last : ℕ) → page + suc (suc n) ≡ suc last → suc page + suc n ≡ suc last
rest_of page n last e = omega (arith, e)

smaller : (m n : ℕ) → suc m ≤ suc n → m ≤ n
smaller m n h = omega (arith, h)

module _ (web : Web) (url token : String) (last : ℕ) (payload : ℕ → Fields)
    (paged : IsPaged web url token last payload) where
  request_json-page :
      (page : ℕ) (s : List Request)
      → 1 ≤ page
      → page ≤ last
      → request_json web (page_request web url token page) s
        ≡ (ok (dict (payload page)), s ++ (page_request web url token page ∷ []))
  unfolding request_json send judge ◌>>=◌
  request_json-page page s first le = rw (paged.answers s page first le)

  followed :
      (fuel : ℕ) (fields : Fields) (o : Option Value)
      → (elim o [
        | none ↦ pure (fields ∷ [])
        | some next ↦ fetch_pages web fuel url token next >>= λ payloads. pure (fields ∷ payloads)
      ])
        ≡ follow web fuel url token fields o
  followed fuel fields none = refl
  followed fuel fields (some next) = refl

  fetch_pages-follow :
      (fuel page : ℕ) (s : List Request)
      → 1 ≤ page
      → page ≤ last
      → fetch_pages web (suc fuel) url token (int (pos page)) s
        ≡ follow web fuel url token
            (payload page)
            (next_page_number (pagination_payload (payload page)) (int (pos page)))
            (s ++ (page_request web url token page ∷ []))
  unfolding fetch_pages as_dict ◌>>=◌
  fetch_pages-follow fuel page s first le =
      bind-ok (request_json web (page_request web url token page)) _ s _ _
        (request_json-page page s first le)
      ∙ ap (λ m. m (s ++ (page_request web url token page ∷ [])))
          (followed fuel (payload page)
            (next_page_number (pagination_payload (payload page)) (int (pos page))))

  -- the pages from one on, and the requests for them
  abbrev Fetched : ℕ → ℕ → List Request → Result (List Fields) × List Request
  Fetched page n s =
      (ok (pages_from payload page n), s ++ pages_from (page_request web url token) page n)

  fetch_pages-Fetched :
      (fuel page n : ℕ) (s : List Request)
      → 1 ≤ page
      → page + suc n ≡ suc last
      → suc n ≤ fuel
      → fetch_pages web fuel url token (int (pos page)) s ≡ Fetched page (suc n) s
  fetch_pages-Fetched zero page n s first e le = absurd (omega (arith, le))
  fetch_pages-Fetched (suc fuel) page zero s first e le =
      let here = at_last page last e in
      fetch_pages-follow fuel page s first (within page 0 last e)
      ∙ ap
          (λ o.
            follow web fuel url token (payload page) o
              (s ++ (page_request web url token page ∷ [])))
          (subst (λ p. next_page_number (pagination_payload (payload p)) (int (pos p)) ≡ none)
            (sym here)
            (next-last (pagination_payload (payload last)) last paged.no_next paged.last_page))
  fetch_pages-Fetched (suc fuel) page (suc n) s first e le =
      fetch_pages-follow fuel page s first (within page (suc n) last e)
      ∙ ap
          (λ o.
            follow web fuel url token (payload page) o
              (s ++ (page_request web url token page ∷ [])))
          (next-named (pagination_payload (payload page)) (int (pos page)) (suc page)
            (paged.next page first (before_last page n last e)))
      ∙ bind-ok (fetch_pages web fuel url token (int (pos (suc page))))
          (λ ps. pure (payload page ∷ ps)) _ _ _
          (fetch_pages-Fetched fuel (suc page) n (s ++ (page_request web url token page ∷ []))
            (omega arith) (rest_of page n last e) (smaller (suc n) fuel le))
      ∙ ap (λ t. (ok (pages_from payload page (suc (suc n))), t))
          (append_assoc s (page_request web url token page ∷ [])
            (pages_from (page_request web url token) (suc page) (suc n)))

-- If the provider answers the request for each page, whatever was asked before, with a page that names the next one, and
-- with null for it on the last page, which names itself as the last, then the loop over the pages gives the payloads of
-- all pages, from the first to the last, in order, and sends the requests for just these pages, in order, for a number of
-- pages to follow that is as large as the last page.
pub fetch_paginated_payloads-Returns :
    (web : Web) (url token : String) (last : ℕ) (payload : ℕ → Fields)
    (paged : IsPaged web url token (suc last) payload) (fuel : ℕ) (s : List Request)
    → suc last ≤ fuel
    → fetch_paginated_payloads web fuel url token s ≡ (
      ok (pages_from payload 1 (suc last)),
      s ++ pages_from (page_request web url token) 1 (suc last),
    )
unfolding fetch_paginated_payloads
fetch_paginated_payloads-Returns web url token last payload paged fuel s enough =
    fetch_pages-Fetched web url token (suc last) payload paged fuel 1 last s (omega arith)
      (omega arith) enough
