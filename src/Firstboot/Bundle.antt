-- ===== src/Firstboot/Bundle.antt =====
-- scripts/validate_secure_firstboot_bundle.py: the problems of a bundle. A problem is data in place of its message.
use rfc_codex_gentoo_stage.Prelude.{
  ℕ, suc, ℤ, leb_ℤ, String, Bool, true, false, not, ◌&&◌, List, [], ◌∷◌, ◌++◌, Option, none, some,
  ◌==◌, if◌then◌else◌,
}
use rfc_codex_gentoo_stage.Text.{strip, concat, is_empty}
use rfc_codex_gentoo_stage.Text.Ends.{ends_with, without_end}
use rfc_codex_gentoo_stage.Value.{
  Value, str, list, dict, Items, nil, cons, Fields, end, field, get, get_or, as_dict, as_str,
  is_truthy, empty_dict,
}
use rfc_codex_gentoo_stage.Dns.Records.{contains}
use rfc_codex_gentoo_stage.Spool.Check.{Step, at_key, at_index, steps}

pub data Problem : Type 0 where
  forbidden_field : List Step → Problem
  wrong_schema wrong_method : Problem
  missing_string : String → Problem
  wrong_fqdn : String → String → Problem
  no_timestamp no_timezone expired : Problem
  no_enrollment no_otp wrong_otp_source : Problem
  no_crypto_mapping wrong_transport : Problem

-- What `datetime.fromisoformat` gives: a time without a zone, or an instant.
pub data Moment : Type 0 where
  naive : Moment
  instant : ℤ → Moment

abbrev pub forbidden_names : List String
forbidden_names =
    "keytab" ∷ "krb5_keytab" ∷ "krb5.keytab" ∷ "keytab_b64" ∷ "host_keytab" ∷ "private_key"
    ∷ "age_identity" ∷ []

abbrev pub problem_if : Bool → Problem → List Problem
problem_if true problem = problem ∷ []
problem_if false problem = []

unfoldable pub is_forbidden : String → Bool
unfolding contains
is_forbidden key = contains key forbidden_names

unfoldable mutual
  unfolding is_forbidden

  pub reject_forbidden_secret_fields : List Step → Value → List Problem
  reject_forbidden_secret_fields path (dict fs) = forbidden_in_fields path fs
  reject_forbidden_secret_fields path (list vs) = forbidden_in_items path 0 vs
  reject_forbidden_secret_fields path v = []

  pub forbidden_in_fields : List Step → Fields → List Problem
  forbidden_in_fields path end = []
  forbidden_in_fields path (field k v fs) =
      problem_if (is_forbidden k) (forbidden_field (steps path (at_key k)))
      ++ reject_forbidden_secret_fields (steps path (at_key k)) v
      ++ forbidden_in_fields path fs

  pub forbidden_in_items : List Step → ℕ → Items → List Problem
  forbidden_in_items path n nil = []
  forbidden_in_items path n (cons v vs) =
      reject_forbidden_secret_fields (steps path (at_index n)) v
      ++ forbidden_in_items path (suc n) vs

-- the text of a value without its outer blanks, or nothing for a value that is no text
unfoldable pub stripped_text : Value → String
unfolding as_str strip
stripped_text v = elim (as_str v) [ none ↦ "" | some s ↦ strip s ]

-- the text of a required field, which is empty if there is none, and the problem of that
unfoldable pub required_string : Fields → String → String × List Problem
unfolding stripped_text get
required_string payload key = (
  stripped_text (get payload key),
  problem_if (is_empty (stripped_text (get payload key))) (missing_string key),
)

-- the text that is read as a time
unfoldable pub timestamp_text : String → String
unfolding strip ends_with without_end concat
timestamp_text value =
    if ends_with (strip value) "Z"
    then concat (without_end (strip value) "Z" ∷ "+00:00" ∷ [])
    else strip value

-- `v == wanted`
unfoldable pub text_is : Value → String → Bool
unfolding as_str
text_is v wanted = elim (as_str v) [ none ↦ false | some s ↦ s == wanted ]

abbrev pub crypto_by : Value → Option Fields → List Problem
crypto_by crypto none = problem_if (is_truthy crypto) no_crypto_mapping
crypto_by crypto (some fields) =
    problem_if (not (text_is (get_or fields "transport" (str "age")) "age")) wrong_transport

unfoldable pub crypto_problems : Fields → List Problem
unfolding get_or as_dict is_truthy text_is
crypto_problems payload =
    crypto_by (get_or payload "crypto" empty_dict) (as_dict (get_or payload "crypto" empty_dict))

abbrev pub enrollment_by : Option Fields → List Problem
enrollment_by none = no_enrollment ∷ []
enrollment_by (some enrollment) =
    problem_if (is_empty (stripped_text (get enrollment "otp"))) no_otp
    ++ problem_if (not (text_is (get enrollment "otp_source") "freeipa-host-random"))
        wrong_otp_source

unfoldable pub enrollment_problems : Fields → List Problem
unfolding get as_dict stripped_text text_is
enrollment_problems payload = enrollment_by (as_dict (get payload "enrollment"))

-- `if expected_fqdn and fqdn and fqdn != expected_fqdn`
abbrev pub fqdn_problems : Option String → String → List Problem
fqdn_problems none fqdn = []
fqdn_problems (some expected) fqdn =
    problem_if (not (is_empty expected) && not (is_empty fqdn) && not (fqdn == expected))
      (wrong_fqdn expected fqdn)

-- `datetime.fromisoformat`, where `none` is a `ValueError`
module _ (fromisoformat : String → Option Moment) where
  abbrev pub expiry_by : ℤ → Option Moment → List Problem
  expiry_by now none = no_timestamp ∷ []
  expiry_by now (some naive) = no_timezone ∷ []
  expiry_by now (some (instant time)) = problem_if (leb_ℤ time now) expired

  unfoldable pub expiry_problems : ℤ → String → List Problem
  unfolding timestamp_text
  expiry_problems now text =
      if is_empty text then [] else expiry_by now (fromisoformat (timestamp_text text))

  -- the problems in the order in which they are found
  unfoldable pub validate_bundle : Fields → Option String → ℤ → List Problem
  unfolding reject_forbidden_secret_fields text_is get required_string expiry_problems
      enrollment_problems crypto_problems
  validate_bundle payload expected_fqdn now =
      let (fqdn, no_fqdn) = required_string payload "fqdn" in
      let (realm, no_realm) = required_string payload "realm" in
      let (domain, no_domain) = required_string payload "domain" in
      let (ipa_server, no_server) = required_string payload "ipa_server" in
      let (expires_at, no_expiry) = required_string payload "expires_at" in
      reject_forbidden_secret_fields [] (dict payload)
      ++ problem_if (not (text_is (get payload "schema") "rfc99.secure-firstboot-enrollment.v1"))
          wrong_schema
      ++ problem_if (not (text_is (get payload "method") "freeipa-otp")) wrong_method
      ++ no_fqdn
      ++ no_realm
      ++ no_domain
      ++ no_server
      ++ no_expiry
      ++ fqdn_problems expected_fqdn fqdn
      ++ expiry_problems now expires_at
      ++ enrollment_problems payload
      ++ crypto_problems payload
