-- ===== src/Dns/Provider.antt =====
-- The HTTP requests of scripts/apply-hetzner-dns-plan.py, their pagination and their errors.
use rfc_codex_gentoo_stage.Prelude.{
  ℕ, zero, suc, ℤ, pos, ◌+ℤ◌, ltb_ℤ, String, Bool, true, false, not, ◌&&◌, ◌||◌, leb, nat_eq,
  Option, none, some, List, [], ◌∷◌, ◌++◌, if◌then◌else◌,
}
use rfc_codex_gentoo_stage.Text.{concat, all_chars, is_empty}
use rfc_codex_gentoo_stage.Value.{Value, bool, int, str, dict, Fields, end, get, as_dict, read_int}

pub data Method : Type 0 where
  http_get http_post http_delete : Method

pub record Request : Type 0 where
  pub method : Method
  pub url : String
  pub token : String
  pub payload : Option Value

-- What `urlopen` gives: a body, which `json.loads` reads; no body; an `HTTPError` with its code and
-- its body; `broken` is any other exception.
pub data Response : Type 0 where
  body : Value → Response
  no_body : Response
  http_error : String → String → Response
  broken : Response

-- The provider, whose answer may depend on all requests before; `str` of a value that is no text;
-- `urllib.parse.quote(s, safe="")`, `urlencode({"zone_id": s})`, and `append_query` with a page.
pub record Web : Type 0 where
  pub respond : List Request → Request → Response
  pub str_of : Value → String
  pub quote : String → String
  pub zone_query : String → String
  pub page_url : String → String → String

pub data Failure : Type 0 where
  runtime_error : String → Failure
  -- an exception that no handler of the script catches
  uncaught : Failure
  -- more pages than the model follows
  too_many_pages : Failure

pub data Result {ℓ} (A : Type ℓ) : Type ℓ where
  ok : A → Result A
  err : Failure → Result A

-- a computation that adds to the requests sent so far
abbrev pub Dns : Type 0 → Type 0
Dns A = List Request → Result A × List Request

abbrev pub pure : {A : Type 0} → A → Dns A
pure a s = (ok a, s)

abbrev pub raise : {A : Type 0} → Failure → Dns A
raise e s = (err e, s)

abbrev pub or_uncaught : {A : Type 0} → Option A → Dns A
or_uncaught none = raise uncaught
or_uncaught (some a) = pure a

abbrev pub continue : {A B : Type 0} → Result A → (A → Dns B) → Dns B
continue (ok a) f s = f a s
continue (err e) f s = (err e, s)

abbrev pub handle : {A : Type 0} → Result A → (String → Dns A) → Dns A
handle (ok a) handler s = (ok a, s)
handle (err (runtime_error message)) handler s = handler message s
handle (err uncaught) handler s = (err uncaught, s)
handle (err too_many_pages) handler s = (err too_many_pages, s)

infixl 5 ◌>>=◌ ◌>>◌
unfoldable pub ◌>>=◌ : {A B : Type 0} → Dns A → (A → Dns B) → Dns B
◌>>=◌ m f s = let (r, t) = m s in continue r f t

abbrev pub ◌>>◌ : {B : Type 0} → Dns (Unit {0}) → Dns B → Dns B
m >> n = m >>= λ _. n

-- `try: m except RuntimeError as exc: handler(str(exc))`
unfoldable pub try_except : {A : Type 0} → Dns A → (String → Dns A) → Dns A
try_except m handler s = let (r, t) = m s in handle r handler t

-- `str(v)`
abbrev pub text : Web → Value → String
text web (str s) = s
text web v = web.str_of v

abbrev pub method_name : Method → String
method_name http_get = "GET"
method_name http_post = "POST"
method_name http_delete = "DELETE"

unfoldable pub judge : Request → Response → Dns Value
unfolding concat
judge r (body v) = pure v
judge r no_body = pure (dict end)
judge r (http_error status detail) = raise (
    runtime_error (
      concat (
        "Hetzner DNS "
        ∷ method_name r.method
        ∷ " "
        ∷ r.url
        ∷ " failed: HTTP "
        ∷ status
        ∷ ": "
        ∷ detail
        ∷ [])))
judge r broken = raise uncaught

unfoldable pub send : Web → Request → Dns Response
send web r s = (ok (web.respond s r), s ++ (r ∷ []))

unfoldable pub request_json : Web → Request → Dns Value
unfolding send judge
request_json web r = do response ← send web r; judge r response

abbrev nested_pagination : Value → Fields
nested_pagination (dict fs) = elim (as_dict (get fs "pagination")) [ none ↦ end | some p ↦ p ]
nested_pagination _ = end

unfoldable pub pagination_payload : Fields → Fields
unfolding get as_dict
pagination_payload payload = elim (as_dict (get payload "pagination")) [
  | none ↦ nested_pagination (get payload "meta")
  | some p ↦ p
]

-- `s.isdigit()`, for ASCII digits
unfoldable pub is_digits : String → Bool
unfolding all_chars
is_digits s = not (is_empty s) && all_chars (λ c. leb b'0' c && leb c b'9') s

-- `isinstance(v, int)`, with the number: a Boolean is one
unfoldable pub as_int : Value → Option ℤ
as_int (int n) = some n
as_int (bool true) = some (pos 1)
as_int (bool false) = some (pos 0)
as_int _ = none

-- a text of digits as its number; any other value stays
unfoldable pub digits_as_int : Value → Value
unfolding is_digits read_int
digits_as_int (str s) =
    if is_digits s then elim (read_int s) [ none ↦ str s | some n ↦ int n ] else str s
digits_as_int v = v

abbrev pub page_after : Option ℤ → Option ℤ → Option Value
page_after (some current) (some last) =
    if ltb_ℤ current last then some (int (current +ℤ pos 1)) else none
page_after _ _ = none

unfoldable pub next_page_number : Fields → Value → Option Value
unfolding get digits_as_int as_int
next_page_number pagination current =
    let next = digits_as_int (get pagination "next_page") in
    elim (as_int next) [
      | none ↦ page_after (as_int current) (as_int (digits_as_int (get pagination "last_page")))
      | some _ ↦ some next
    ]

-- The loop over the pages, for at most as many pages as the fuel.
unfoldable pub fetch_pages : Web → ℕ → String → String → Value → Dns (List Fields)
unfolding request_json pagination_payload next_page_number as_dict
fetch_pages web zero url token page = raise too_many_pages
fetch_pages web (suc fuel) url token page = do
  reply ← request_json web (record {
    method = http_get;
    url = web.page_url url (text web page);
    token = token;
    payload = none;
  })
  payload ← or_uncaught (as_dict reply)
  elim (next_page_number (pagination_payload payload) page) [
    | none ↦ pure (payload ∷ [])
    | some next ↦ do payloads ← fetch_pages web fuel url token next; pure (payload ∷ payloads)
  ]

unfoldable pub fetch_paginated_payloads : Web → ℕ → String → String → Dns (List Fields)
unfolding fetch_pages
fetch_paginated_payloads web fuel url token = fetch_pages web fuel url token (int (pos 1))

-- `[A-Za-z0-9._~+/=-]`
unfoldable pub is_token_char : ℕ → Bool
is_token_char c =
    (leb b'A' c && leb c b'Z')
    || (leb b'a' c && leb c b'z')
    || (leb b'0' c && leb c b'9')
    || nat_eq c b'.'
    || nat_eq c b'_'
    || nat_eq c b'~'
    || nat_eq c b'+'
    || nat_eq c b'/'
    || nat_eq c b'='
    || nat_eq c b'-'
