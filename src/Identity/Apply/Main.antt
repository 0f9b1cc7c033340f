-- ===== src/Identity/Apply/Main.antt =====
-- The gates, the summary and `apply_identity_sync_plan` of scripts/apply_identity_sync_plan.py.
use rfc_codex_gentoo_stage.Prelude.{
  ℕ, String, Bool, true, false, not, Option, none, some, List, [], ◌∷◌, ◌++◌, length, map, ◌==◌,
  if◌then◌else◌,
}
use rfc_codex_gentoo_stage.Sorted.{sorted_set}
use rfc_codex_gentoo_stage.Value.{Value, Fields, as_str, iterate, is_truthy}
use rfc_codex_gentoo_stage.Identity.Check.{Check}
use rfc_codex_gentoo_stage.Identity.Source.{Counts, validate_identity_source}
use rfc_codex_gentoo_stage.Identity.Clean.{read_all}
use rfc_codex_gentoo_stage.Identity.Plan.{
  Plan, PlanUser, PlanHost, PlanClient, PlanServiceAccount, render_identity_sync_plan,
}
use rfc_codex_gentoo_stage.Identity.Apply.Run.{
  Machine, Options, Provider, freeipa, freeradius, Apply, plan_event, apply_start, apply_complete,
  gate_required, invalid_source, uncaught, pure, raise, or_raise, ◌>>=◌, audit_event, ◌>>◌,
}
use rfc_codex_gentoo_stage.Identity.Apply.Freeipa.{apply_freeipa}
use rfc_codex_gentoo_stage.Identity.Apply.Freeradius.{apply_freeradius}

-- `"freeipa" in selected_providers(provider)`
abbrev pub selects_freeipa : Provider → Bool
selects_freeipa freeradius = false
selects_freeipa _ = true

-- `"freeradius" in selected_providers(provider)`
abbrev pub selects_freeradius : Provider → Bool
selects_freeradius freeipa = false
selects_freeradius _ = true

abbrev is_one : Option String → Bool
is_one none = false
is_one (some s) = s == "1"

unfoldable pub gate_enabled : Machine → String → Bool
gate_enabled machine name = is_one (machine.environ name)

-- raises unless the gate is enabled, if it is asked for
unfoldable pub require_gate : Machine → Bool → String → Apply (Unit {0})
unfolding gate_enabled
require_gate machine false name = pure tt
require_gate machine true name =
    if gate_enabled machine name then pure tt else raise (gate_required name)

unfoldable pub require_apply_gates : Machine → Provider → Apply (Unit {0})
unfolding require_gate
require_apply_gates machine provider = do
  require_gate machine true "IDENTITY_SYNC_APPLY"
  require_gate machine (selects_freeipa provider) "IDENTITY_SYNC_APPLY_FREEIPA"
  require_gate machine (selects_freeradius provider) "IDENTITY_SYNC_APPLY_FREERADIUS"

abbrev texts : Option (List Value) → Option (List String)
texts none = none
texts (some vs) = read_all as_str vs

abbrev join_texts : Option (List String) → Option (List String) → Option (List String)
join_texts (some xs) (some ys) = some (xs ++ ys)
join_texts _ _ = none

unfoldable pub user_vars : List PlanUser → Option (List String)
unfolding iterate as_str
user_vars [] = some []
user_vars (u ∷ us) = join_texts (texts (iterate u.ssh_public_key_vars)) (user_vars us)

unfoldable pub host_vars : List PlanHost → Option (List String)
unfolding is_truthy as_str
host_vars [] = some []
host_vars (h ∷ hs) =
    let rest = host_vars hs in
    if is_truthy h.enrollment_secret_var
    then join_texts (texts (some (h.enrollment_secret_var ∷ []))) rest
    else rest

unfoldable pub client_vars : List PlanClient → Option (List String)
unfolding as_str
client_vars clients = read_all (λ (c : PlanClient). as_str c.shared_secret_var) clients

abbrev only_if : Bool → Option (List String) → Option (List String)
only_if true names = names
only_if false names = some []

abbrev sorted_vars : Option (List String) → Option (List String)
sorted_vars none = none
sorted_vars (some names) = some (sorted_set names)

-- the names of the variables that the providers need; `none` where one is no text. The source fails to sort names of
-- more than one type; integers alone, which it sorts, are not modelled.
unfoldable pub build_required_vars : Plan → Provider → Option (List String)
unfolding user_vars host_vars client_vars sorted_set
build_required_vars plan provider = sorted_vars (
    join_texts
      (only_if (selects_freeipa provider)
        (join_texts (user_vars plan.freeipa_users) (host_vars plan.freeipa_host_enrollments)))
      (only_if (selects_freeradius provider) (client_vars plan.freeradius_clients)))

pub record Summary : Type 0 where
  pub applied : Bool
  pub dry_run : Bool
  pub provider : Provider
  pub realm : Value
  pub domain : Value
  pub requires_vars : List String
  pub local_idranges : List Value
  pub groups : ℕ
  pub users : ℕ
  pub service_accounts : ℕ
  pub host_enrollments : ℕ
  pub manual_actions : List Value
  pub commands_run : Option ℕ
  pub clients : ℕ
  pub rendered : Bool

unfoldable pub build_summary : Plan → Options → List String → Summary
build_summary plan options vars = record {
  applied = false;
  dry_run = not options.live;
  provider = options.provider;
  realm = plan.realm;
  domain = plan.domain;
  requires_vars = vars;
  local_idranges = plan.freeipa_local_idranges;
  groups = length plan.freeipa_groups;
  users = length plan.freeipa_users;
  service_accounts = length plan.freeipa_service_accounts;
  host_enrollments = length plan.freeipa_host_enrollments;
  manual_actions = map (λ (a : PlanServiceAccount). a.name) plan.freeipa_service_accounts;
  commands_run = none;
  clients = length plan.freeradius_clients;
  rendered = false;
}

-- `raise` if the validation found errors
unfoldable pub require_valid : Check Counts → Apply (Unit {0})
require_valid none = raise uncaught
require_valid (some (counts, [])) = pure tt
require_valid (some (counts, e ∷ es)) = raise (invalid_source (e ∷ es))

module _ (machine : Machine) (options : Options) where
  unfoldable pub apply_selected_freeipa : Bool → Plan → Apply (Option ℕ)
  apply_selected_freeipa false plan = pure none
  apply_selected_freeipa true plan = do
    commands ← apply_freeipa machine options plan
    pure (some commands)

  unfoldable pub apply_selected_freeradius : Bool → Plan → Apply Bool
  apply_selected_freeradius false plan = pure false
  apply_selected_freeradius true plan = do apply_freeradius machine options plan; pure true

  unfoldable pub apply_plan : Plan → Summary → Apply Summary
  unfolding require_apply_gates apply_selected_freeipa apply_selected_freeradius
  apply_plan plan summary = do
    require_apply_gates machine options.provider
    audit_event options (apply_start options.provider)
    commands ← apply_selected_freeipa (selects_freeipa options.provider) plan
    rendered ← apply_selected_freeradius (selects_freeradius options.provider) plan
    audit_event options (apply_complete options.provider)
    pure (record summary {
      applied = true;
      dry_run = false;
      commands_run = commands;
      rendered = rendered;
    })

  unfoldable pub apply_identity_sync_plan : Fields → Apply Summary
  unfolding require_valid build_required_vars build_summary apply_plan
  apply_identity_sync_plan source = do
    require_valid (validate_identity_source source)
    plan ← or_raise (render_identity_sync_plan source) uncaught
    vars ← or_raise (build_required_vars plan options.provider) uncaught
    audit_event options (plan_event options.provider options.live)
    if options.live
        then apply_plan plan (build_summary plan options vars)
        else pure (build_summary plan options vars)
