-- ===== src/Identity/Apply/Freeradius.antt =====
-- `render_freeradius_clients` and `apply_freeradius` of scripts/apply_identity_sync_plan.py.
use rfc_codex_gentoo_stage.Prelude.{String, true, List, [], ◌∷◌, ◌++◌}
use rfc_codex_gentoo_stage.Text.{concat, join}
use rfc_codex_gentoo_stage.Value.{as_str}
use rfc_codex_gentoo_stage.Identity.Plan.{Plan, PlanClient}
use rfc_codex_gentoo_stage.Identity.Apply.Run.{
  Machine, Options, Apply, ok, uncaught, write_event, pure, or_raise, ◌>>=◌, audit_event, ◌>>◌,
}
use rfc_codex_gentoo_stage.Identity.Apply.Env.{show, resolve_env_var}

module _ (machine : Machine) where
  unfoldable pub client_lines : PlanClient → String → List String
  unfolding concat
  client_lines client secret =
      concat ("client " ∷ show machine client.shortname ∷ " {" ∷ [])
      ∷ concat ("    ipaddr = " ∷ show machine client.ipaddr ∷ [])
      ∷ concat ("    secret = " ∷ secret ∷ [])
      ∷ concat ("    shortname = " ∷ show machine client.shortname ∷ [])
      ∷ concat ("    nastype = " ∷ show machine client.nastype ∷ [])
      ∷ "}"
      ∷ ""
      ∷ []

  unfoldable pub all_client_lines : List PlanClient → Apply (List String)
  unfolding resolve_env_var client_lines as_str
  all_client_lines [] = pure []
  all_client_lines (client ∷ clients) = do
    var ← or_raise (as_str client.shared_secret_var) uncaught
    secret ← resolve_env_var machine var true
    rest ← all_client_lines clients
    pure (client_lines client secret ++ rest)

  unfoldable pub render_freeradius_clients : Plan → Apply String
  unfolding all_client_lines join
  render_freeradius_clients plan = do
    lines ← all_client_lines plan.freeradius_clients
    pure (
        join "\n" (
          "# Generated by scripts/apply_identity_sync_plan.py"
          ∷ "# Do not edit by hand; update identity-source-definitions instead." ∷ "" ∷ lines))

-- A temporary file of the whole content is moved to the path.
unfoldable pub replace_file : String → String → Apply (Unit {0})
replace_file path content s = (ok tt, record s { files = s.files ++ ((path, content) ∷ []) })

unfoldable pub apply_freeradius : Machine → Options → Plan → Apply (Unit {0})
unfolding render_freeradius_clients
apply_freeradius machine options plan = do
  content ← render_freeradius_clients machine plan
  replace_file options.freeradius_output content
  audit_event options (write_event options.freeradius_output)
