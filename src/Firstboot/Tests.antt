-- ===== src/Firstboot/Tests.antt =====
-- A bundle that is staged, and one with a keytab.
use rfc_codex_gentoo_stage.Prelude.{
  pos, String, true, false, List, [], ◌∷◌, Option, none, some, ◌≡◌, ◌≢◌, ◌⊎◌, refl, ◌==◌,
  if◌then◌else◌,
}
use rfc_codex_gentoo_stage.Value.{str, dict, Fields, field, end}
use rfc_codex_gentoo_stage.Spool.Check.{at_key}
use rfc_codex_gentoo_stage.Firstboot.Bundle.{forbidden_field, Moment, instant, validate_bundle}
use rfc_codex_gentoo_stage.Firstboot.Accepted.{IsBundle, validate_bundle-IsBundle}
use rfc_codex_gentoo_stage.Firstboot.Stage.{Arguments, World, Staging, main, is_within}
use rfc_codex_gentoo_stage.Firstboot.Staged.{HasBundle, main-HasBundle}

abbrev fromisoformat : String → Option Moment
fromisoformat text = if text == "2026-01-02T00:00:00+00:00" then some (instant (pos 100)) else none

abbrev enrollment : Fields
enrollment = field "otp" (str "once") (field "otp_source" (str "freeipa-host-random") end)

abbrev bundle : Fields
bundle = field "schema" (str "rfc99.secure-firstboot-enrollment.v1") (
    field "method" (str "freeipa-otp") (
      field "fqdn" (str " a.example ") (
        field "realm" (str "R") (
          field "domain" (str "d") (
            field "ipa_server" (str "i") (
              field "expires_at" (str "2026-01-02T00:00:00Z")
                (field "enrollment" (dict enrollment) end)))))))

abbrev with_keytab : Fields
with_keytab = field "extra" (dict (field "keytab" (str "x") end)) bundle

is_valid : validate_bundle fromisoformat bundle (some "a.example") (pos 9) ≡ []
unfolding validate_bundle
is_valid = refl

keytab_found :
    validate_bundle fromisoformat with_keytab (some "a.example") (pos 9)
    ≡ forbidden_field (at_key "extra" ∷ at_key "keytab" ∷ []) ∷ []
unfolding validate_bundle
keytab_found = refl

validate_bundle-IsBundle_example : IsBundle fromisoformat bundle (some "a.example") (pos 9)
validate_bundle-IsBundle_example =
    validate_bundle-IsBundle fromisoformat bundle (some "a.example") (pos 9) is_valid

abbrev small_world : World
small_world = record {
  resolve = λ path. path;
  repo_root = "/repo";
  loads = λ path. if path == "/b.json" then some (dict bundle) else none;
  now = pos 9;
  fromisoformat = fromisoformat;
  succeeds = λ command. true;
}

abbrev arguments : Arguments
arguments = record {
  bundle = "/b.json";
  expected_fqdn = "a.example";
  recipient = "age1";
  output = "/out.age";
  age_bin = "age";
  apply = true;
  dry_run = false;
  allow_repo_output = false;
}

filled : {A : Type 0} (x : A) (xs : List A) → x ∷ xs ≢ []
filled x xs h = cc

acts : Staging.actions (main small_world arguments) ≢ []
unfolding main
acts = filled _ _

main-HasBundle_example :
    (true ≡ true)
    × (false ≡ false)
    × ((is_within small_world "/out.age" "/repo" ≡ false) ⊎ (false ≡ true))
    × HasBundle small_world arguments
main-HasBundle_example = main-HasBundle small_world arguments acts
