-- ===== src/Dns/Tests.antt =====
-- Runs of `apply_dns_plan` of scripts/apply-hetzner-dns-plan.py on a small plan.
use rfc_codex_gentoo_stage.Dns.Pages.{
  IsPaged, page_request, pages_from, fetch_paginated_payloads-Returns,
}
use rfc_codex_gentoo_stage.Prelude.{
  String, true, Option, none, some, List, [], ◌∷◌, ◌≡◌, refl, All, if◌then◌else◌, ◌≤◌, arith, pos,
  ℕ, ◌<◌, zero, suc, nat_eq,
}
use rfc_codex_gentoo_stage.Text.{has_text, concat}
use rfc_codex_gentoo_stage.Value.{
  Value, str, list, nil, cons, dict, Fields, field, end, int, get, null,
}
use rfc_codex_gentoo_stage.Dns.Provider.{
  Method, http_get, http_post, http_delete, Response, body, no_body, Web, ok, Result,
  pagination_payload, fetch_paginated_payloads, Request,
}
use rfc_codex_gentoo_stage.Dns.Groups.{TokenGroup}
use rfc_codex_gentoo_stage.Dns.Lookup.{Options}
use rfc_codex_gentoo_stage.Dns.Apply.{Report, Summary, apply_dns_plan, is_live}
use rfc_codex_gentoo_stage.Dns.Counts.{IsCounted, IsAnswered}
use rfc_codex_gentoo_stage.Dns.Safety.{
  IsPermitted, apply_dns_plan-IsPermitted, apply_dns_plan-IsCounted,
}

abbrev one_zone : Value
one_zone = dict (
    field "zones"
      (list (cons (dict (field "id" (str "7") (field "name" (str "Example.com.") end))) nil)) end)

abbrev rrset : String → String → Value
rrset name value = dict (
    field "id" (str name) (
      field "name" (str name)
        (field "type" (str "a") (field "records" (list (cons (str value) nil)) end))))

abbrev two_rrsets : Value
two_rrsets =
    dict
      (field "rrsets" (list (cons (rrset "old" "1.1.1.1") (cons (rrset "www" "2.2.2.2") nil))) end)

abbrev answer : Method → String → Response
answer http_get url = if has_text "/rrsets" url then body two_rrsets else body one_zone
answer http_post url = no_body
answer http_delete url = no_body

abbrev small_web : Web
small_web = record {
  respond = λ past r. answer r.method r.url;
  str_of = λ v. "1";
  quote = λ s. s;
  zone_query = λ s. s;
  page_url = λ url page. url;
}

abbrev groups : List TokenGroup
groups =
    record { name = "main"; token_name = "t"; api_token = "s3cret"; zones = "example.com" ∷ [] }
    ∷ []

abbrev planned : String → String → String → Value
planned action name value = dict (
    field "token_group" (str "main") (
      field "zone" (str "example.com") (
        field "relative_name" (str name) (
          field "type" (str "A")
            (field "action" (str action) (field "values" (list (cons (str value) nil)) end))))))

abbrev small_plan : Fields
small_plan =
    field "records"
      (list (
        cons (planned "delete" "old" "") (
          cons (planned "ensure" "www" "3.3.3.3") (
            cons (planned "ensure" "new" "4.4.4.4")
              (cons (str "no mapping") (cons (planned "ensure" "www" "2.2.2.2") nil))))))
      end

abbrev live_options : Options
live_options = record {
  endpoint = "https://api.test/";
  apply = true;
  allow_delete = true;
  fixture = none;
  fuel = 3;
}

abbrev summary_of : Result Report → Option Summary
summary_of (ok report) = some report.summary
summary_of _ = none

live_run :
    summary_of (apply_dns_plan small_web live_options small_plan groups []).0
    ≡ some
        (record { planned = 0; created = 1; updated = 1; deleted = 1; unchanged = 1; errors = 0 })
unfolding apply_dns_plan rfc_codex_gentoo_stage.Dns.Provider.◌>>=◌
live_run = refl

apply_dns_plan-IsPermitted_example :
    All
      (IsPermitted live_options groups)
      (apply_dns_plan small_web live_options small_plan groups []).1
apply_dns_plan-IsPermitted_example =
    apply_dns_plan-IsPermitted small_web live_options small_plan groups

abbrev report_of : Result Report → Report
report_of (ok report) = report
report_of _ = record {
  actions = [];
  summary = record {
    planned = 0;
    created = 0;
    updated = 0;
    deleted = 0;
    unchanged = 0;
    errors = 0;
  };
}

abbrev live_report : Report
live_report = report_of (apply_dns_plan small_web live_options small_plan groups []).0

live_returns : (apply_dns_plan small_web live_options small_plan groups []).0 ≡ ok live_report
unfolding apply_dns_plan rfc_codex_gentoo_stage.Dns.Provider.◌>>=◌
live_returns = refl

apply_dns_plan-IsCounted_example :
    IsCounted (is_live live_options) live_report × IsAnswered small_web small_plan live_report
apply_dns_plan-IsCounted_example =
    apply_dns_plan-IsCounted small_web live_options small_plan groups live_report live_returns

-- Two pages, the first of which names the second.
abbrev pagination : Value → Fields
pagination next =
    field "meta"
      (dict (
        field "pagination" (dict (field "next_page" next (field "last_page" (int (pos 2)) end)))
          end))
      end

abbrev page_payload : ℕ → Fields
page_payload page = pagination (if nat_eq page 1 then int (pos 2) else null)

abbrev page_text : Value → String
page_text (int (pos (suc zero))) = "1"
page_text v = "2"

abbrev paged_web : Web
paged_web = record {
  respond =
      λ past r. body (dict (if has_text "page=1" r.url then page_payload 1 else page_payload 2));
  str_of = page_text;
  quote = λ s. s;
  zone_query = λ s. s;
  page_url = λ url page. concat (url ∷ "?page=" ∷ page ∷ []);
}

abbrev zones_url : String
zones_url = "https://api.test/zones"

page_answers :
    (past : List Request) (page : ℕ)
    → 1 ≤ page
    → page ≤ 2
    → Web.respond paged_web past (page_request paged_web zones_url "s3cret" page)
      ≡ body (dict (page_payload page))
unfolding has_text concat
page_answers past zero first le = absurd (omega (arith, first))
page_answers past (suc zero) first le = refl
page_answers past (suc (suc zero)) first le = refl
page_answers past (suc (suc (suc n))) first le = absurd (omega (arith, le))

names_next :
    (page : ℕ)
    → 1 ≤ page
    → page < 2
    → get (pagination_payload (page_payload page)) "next_page" ≡ int (pos (suc page))
unfolding pagination_payload get
names_next zero first lt = absurd (omega (arith, first))
names_next (suc zero) first lt = refl
names_next (suc (suc n)) first lt = absurd (omega (arith, lt))

paged_web-IsPaged : IsPaged paged_web zones_url "s3cret" 2 page_payload
unfolding pagination_payload get
paged_web-IsPaged = record {
  answers = page_answers;
  next = names_next;
  no_next = refl;
  last_page = refl;
}

two_le_three : 2 ≤ 3
two_le_three = omega arith

fetch_paginated_payloads-Returns_example :
    fetch_paginated_payloads paged_web 3 zones_url "s3cret" []
    ≡ (ok (pages_from page_payload 1 2), pages_from (page_request paged_web zones_url "s3cret") 1 2)
fetch_paginated_payloads-Returns_example =
    fetch_paginated_payloads-Returns paged_web zones_url "s3cret" 1 page_payload paged_web-IsPaged 3
      [] two_le_three
