-- ===== src/Dns/Safety.antt =====
-- What a run of `apply_dns_plan` of scripts/apply-hetzner-dns-plan.py may send to the provider.
use rfc_codex_gentoo_stage.Value.{Fields}
use rfc_codex_gentoo_stage.Dns.Groups.{TokenGroup}
use rfc_codex_gentoo_stage.Dns.Lookup.{Options}
use rfc_codex_gentoo_stage.Dns.Runs.{Permits, live-fixture, apply_dns_plan-Ensures}
use rfc_codex_gentoo_stage.Dns.Tokens.{GoodGroup}
use rfc_codex_gentoo_stage.Dns.Counts.{IsCounted, IsAnswered}
use rfc_codex_gentoo_stage.Dns.Ensures.{OnOk}
use rfc_codex_gentoo_stage.Prelude.{
  subst, String, Bool, true, false, none, List, [], ◌∷◌, All, All-map, ◌≡◌, ◌≢◌, refl, sym, ◌∙◌,
  false≢true, ◌⊎◌, inl, inr, ap,
}
use rfc_codex_gentoo_stage.Dns.Provider.{ok, Method, Request, http_get, http_post, http_delete, Web}
use rfc_codex_gentoo_stage.Dns.Apply.{Report, is_live, apply_dns_plan}

-- The token is that of a group.
abbrev pub IsTokenOf : List TokenGroup → String → Type 0
IsTokenOf [] token = ⊥
IsTokenOf (group ∷ groups) token = (token ≡ group.api_token) ⊎ IsTokenOf groups token

-- The request has the token of one of the groups and comes without a fixture; it is a read unless
-- the run is live, and no removal unless the run may delete.
pub record IsPermitted (options : Options) (groups : List TokenGroup) (r : Request) : Type 0 where
  pub own_token : IsTokenOf groups r.token
  pub no_fixture : options.fixture ≡ none
  pub reads_only : is_live options ≡ false → r.method ≡ http_get
  pub no_removal : options.allow_delete ≡ false → r.method ≢ http_delete

abbrev deletes : Method → Bool
deletes http_delete = true
deletes _ = false

get≢delete : http_get ≢ http_delete
get≢delete e = false≢true (ap deletes e)

post≢delete : http_post ≢ http_delete
post≢delete e = false≢true (ap deletes e)

permitted :
    (options : Options) (groups : List TokenGroup)
    → Permits options (IsTokenOf groups) (IsPermitted options groups)
permitted options groups = record {
  reads = λ fixture token own url. record {
    own_token = own;
    no_fixture = fixture;
    reads_only = λ _. refl;
    no_removal = λ _. get≢delete;
  };
  writes = λ live token own url payload. record {
    own_token = own;
    no_fixture = live-fixture options live;
    reads_only = λ dry. absurd (false≢true (sym dry ∙ live));
    no_removal = λ _. post≢delete;
  };
  removals = λ live allowed token own url. record {
    own_token = own;
    no_fixture = live-fixture options live;
    reads_only = λ dry. absurd (false≢true (sym dry ∙ live));
    no_removal = λ refused. absurd (false≢true (sym refused ∙ allowed));
  };
}

own_tokens : (groups : List TokenGroup) → All (GoodGroup (IsTokenOf groups)) groups
own_tokens [] = tt
own_tokens (group ∷ groups) = (inl refl, All-map _ _ groups (λ g own. inr own) (own_tokens groups))

-- Every request of a run, whether it returns or raises, carries the token of one of the token
-- groups and is sent without a fixture only; a run that is not live sends no request but reads, and
-- a run that may not delete sends no removal.
pub apply_dns_plan-IsPermitted :
    (web : Web) (options : Options) (plan : Fields) (groups : List TokenGroup)
    → All (IsPermitted options groups) (apply_dns_plan web options plan groups []).1
apply_dns_plan-IsPermitted web options plan groups =
    ((apply_dns_plan-Ensures web options (permitted options groups) plan groups
        (own_tokens groups)).at
      [] tt).0

-- The report of a run that returns has one action for each record of the plan, in order, and each of
-- its counters is the number of the actions that it stands for: a change counts as made only in a
-- live run, and as planned in any other.
pub apply_dns_plan-IsCounted :
    (web : Web) (options : Options) (plan : Fields) (groups : List TokenGroup) (report : Report)
    → (apply_dns_plan web options plan groups []).0 ≡ ok report
    → IsCounted (is_live options) report × IsAnswered web plan report
apply_dns_plan-IsCounted web options plan groups report e =
    subst (OnOk (λ r. IsCounted (is_live options) r × IsAnswered web plan r)) e
      ((apply_dns_plan-Ensures web options (permitted options groups) plan groups
          (own_tokens groups)).at
        [] tt).1
