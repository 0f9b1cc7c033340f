-- ===== src/Firstboot/Accepted.antt =====
-- What a bundle is that scripts/validate_secure_firstboot_bundle.py finds no problem with.
use rfc_codex_gentoo_stage.Prelude.{
  none_left, ℕ, suc, ℤ, leb_ℤ, String, Bool, true, false, not, List, [], All, All-append, Option,
  none, some, ◌≡◌, ◌⊎◌, inl, inr, refl, Bool-cases, eq_iff,
}
use rfc_codex_gentoo_stage.Text.{is_empty}
use rfc_codex_gentoo_stage.Value.{
  Value, null, bool, int, str, list, dict, Items, nil, cons, Fields, end, field, get, get_or,
  as_dict, is_truthy, empty_dict,
}
use rfc_codex_gentoo_stage.Spool.Check.{Step, at_key, at_index, steps}
use rfc_codex_gentoo_stage.Spool.Keys.{all_keys, field_keys, item_keys}
use rfc_codex_gentoo_stage.NtfyHook.Approvals.{is_text}
use rfc_codex_gentoo_stage.Firstboot.Bundle.{
  Problem, expired, wrong_method, no_crypto_mapping, Moment, naive, instant, problem_if,
  is_forbidden, reject_forbidden_secret_fields, forbidden_in_fields, forbidden_in_items,
  stripped_text, required_string, timestamp_text, text_is, crypto_by, crypto_problems,
  enrollment_by, enrollment_problems, fqdn_problems, expiry_by, expiry_problems, validate_bundle,
}

-- The field is a text that is not blank.
abbrev pub HasText : Fields → String → Type 0
HasText payload key = is_empty (stripped_text (get payload key)) ≡ false

-- A time that lies behind now, for what is read of the text of the field.
abbrev pub IsLater : ℤ → Option Moment → Type 0
IsLater now none = ⊥
IsLater now (some naive) = ⊥
IsLater now (some (instant time)) = leb_ℤ time now ≡ false

abbrev pub IsOtpEnrollment : Value → Type 0
IsOtpEnrollment v =
    (enrollment : Fields) × (v ≡ dict enrollment)
    × HasText enrollment "otp"
    × (get enrollment "otp_source" ≡ str "freeipa-host-random")

-- The field is left out, or is no mapping and counts as false, or is a mapping for `age`.
abbrev pub IsAgeCrypto : Value → Type 0
IsAgeCrypto (dict fields) = get_or fields "transport" (str "age") ≡ str "age"
IsAgeCrypto v = is_truthy v ≡ false

-- The bundle is for the host that is expected, if one is.
abbrev pub IsFor : Option String → Fields → Type 0
IsFor none payload = Unit
IsFor (some expected) payload =
    (is_empty expected ≡ true) ⊎ (stripped_text (get payload "fqdn") ≡ expected)

problem_if-nil : (b : Bool) (problem : Problem) → problem_if b problem ≡ [] → b ≡ false
problem_if-nil true problem h = cc
problem_if-nil false problem h = refl

true_if_not : (b : Bool) → not b ≡ false → b ≡ true
true_if_not true h = refl
true_if_not false h = cc

text_is-str :
    (v : Value) (wanted : String) (problem : Problem)
    → problem_if (not (text_is v wanted)) problem ≡ []
    → v ≡ str wanted
unfolding text_is
text_is-str v wanted problem h = is_text v wanted (true_if_not _ (problem_if-nil _ problem h))

mutual
  unfolding reject_forbidden_secret_fields all_keys

  value_allowed :
      (path : List Step) (v : Value)
      → reject_forbidden_secret_fields path v ≡ []
      → All (λ k. is_forbidden k ≡ false) (all_keys v)
  value_allowed path null h = tt
  value_allowed path (bool b) h = tt
  value_allowed path (int n) h = tt
  value_allowed path (str s) h = tt
  value_allowed path (list vs) h = items_allowed path 0 vs h
  value_allowed path (dict fs) h = fields_allowed path fs h

  fields_allowed :
      (path : List Step) (fs : Fields)
      → forbidden_in_fields path fs ≡ []
      → All (λ k. is_forbidden k ≡ false) (field_keys fs)
  fields_allowed path end h = tt
  fields_allowed path (field k v fs) h =
      let parts = none_left _ (forbidden_in_fields path fs) h in
      let here = none_left _ (reject_forbidden_secret_fields (steps path (at_key k)) v) parts.0 in
      (
        problem_if-nil (is_forbidden k) _ here.0,
        All-append (λ k. is_forbidden k ≡ false) (all_keys v) (field_keys fs)
            (value_allowed (steps path (at_key k)) v here.1) (fields_allowed path fs parts.1),
      )

  items_allowed :
      (path : List Step) (n : ℕ) (vs : Items)
      → forbidden_in_items path n vs ≡ []
      → All (λ k. is_forbidden k ≡ false) (item_keys vs)
  items_allowed path n nil h = tt
  items_allowed path n (cons v vs) h =
      let parts =
        none_left (reject_forbidden_secret_fields (steps path (at_index n)) v)
          (forbidden_in_items path (suc n) vs) h in
      All-append (λ k. is_forbidden k ≡ false) (all_keys v) (item_keys vs)
        (value_allowed (steps path (at_index n)) v parts.0) (items_allowed path (suc n) vs parts.1)

crypto_problems-IsAgeCrypto :
    (crypto : Value) → crypto_by crypto (as_dict crypto) ≡ [] → IsAgeCrypto crypto
unfolding as_dict is_truthy
crypto_problems-IsAgeCrypto (dict fields) h = text_is-str _ "age" _ h
crypto_problems-IsAgeCrypto null h = problem_if-nil _ no_crypto_mapping h
crypto_problems-IsAgeCrypto (bool b) h = problem_if-nil _ no_crypto_mapping h
crypto_problems-IsAgeCrypto (int n) h = problem_if-nil _ no_crypto_mapping h
crypto_problems-IsAgeCrypto (str s) h = problem_if-nil _ no_crypto_mapping h
crypto_problems-IsAgeCrypto (list vs) h = problem_if-nil _ no_crypto_mapping h

enrollment_problems-IsOtpEnrollment :
    (v : Value) → enrollment_by (as_dict v) ≡ [] → IsOtpEnrollment v
unfolding as_dict
enrollment_problems-IsOtpEnrollment (dict fields) h =
    let parts = none_left (problem_if (is_empty (stripped_text (get fields "otp"))) _) _ h in
    (
      fields,
      refl,
      problem_if-nil _ _ parts.0,
      text_is-str (get fields "otp_source") "freeipa-host-random" _ parts.1,
    )
enrollment_problems-IsOtpEnrollment null h = cc
enrollment_problems-IsOtpEnrollment (bool b) h = cc
enrollment_problems-IsOtpEnrollment (int n) h = cc
enrollment_problems-IsOtpEnrollment (str s) h = cc
enrollment_problems-IsOtpEnrollment (list vs) h = cc

expiry_by-IsLater :
    (fromisoformat : String → Option Moment) (now : ℤ) (moment : Option Moment)
    → expiry_by fromisoformat now moment ≡ []
    → IsLater now moment
expiry_by-IsLater fromisoformat now none h = cc
expiry_by-IsLater fromisoformat now (some naive) h = cc
expiry_by-IsLater fromisoformat now (some (instant time)) h =
    problem_if-nil (leb_ℤ time now) expired h

fqdn_problems-IsFor :
    (expected : Option String) (payload : Fields)
    → HasText payload "fqdn"
    → fqdn_problems expected (stripped_text (get payload "fqdn")) ≡ []
    → IsFor expected payload
fqdn_problems-IsFor none payload h e = tt
fqdn_problems-IsFor (some expected) payload h e = elim (Bool-cases (is_empty expected)) [
  | inl g ↦ inl g
  | inr g ↦ inr ((eq_iff _ expected).0 (true_if_not _ (problem_if-nil _ _ (rw (g, h) at e))))
]

module _ (fromisoformat : String → Option Moment) (payload : Fields) (expected : Option String)
    (now : ℤ) where
  -- What the bundle has to be.
  abbrev pub IsBundle : Type 0
  IsBundle =
      All (λ k. is_forbidden k ≡ false) (all_keys (dict payload))
      × (get payload "schema" ≡ str "rfc99.secure-firstboot-enrollment.v1")
      × (get payload "method" ≡ str "freeipa-otp")
      × HasText payload "fqdn"
      × HasText payload "realm"
      × HasText payload "domain"
      × HasText payload "ipa_server"
      × HasText payload "expires_at"
      × IsFor expected payload
      × IsLater now (fromisoformat (timestamp_text (stripped_text (get payload "expires_at"))))
      × IsOtpEnrollment (get payload "enrollment")
      × IsAgeCrypto (get_or payload "crypto" empty_dict)

  -- If no problem is found, then no key at any depth is forbidden, the schema, the method, the enrollment and the crypto
  -- are those that are wanted, the required texts are there, the bundle is for the expected host, if one is named, and
  -- it has a time of expiry that is later than now.
  pub validate_bundle-IsBundle : validate_bundle fromisoformat payload expected now ≡ [] → IsBundle
  unfolding validate_bundle required_string enrollment_problems crypto_problems expiry_problems
  validate_bundle-IsBundle h =
      let crypto = none_left _ (crypto_problems payload) h in
      let enrollment = none_left _ (enrollment_problems payload) crypto.0 in
      let expiry =
        none_left _ (expiry_problems fromisoformat now (stripped_text (get payload "expires_at")))
          enrollment.0 in
      let host =
        none_left _ (fqdn_problems expected (stripped_text (get payload "fqdn"))) expiry.0 in
      let expires = none_left _ (required_string payload "expires_at").1 host.0 in
      let server = none_left _ (required_string payload "ipa_server").1 expires.0 in
      let domain = none_left _ (required_string payload "domain").1 server.0 in
      let realm = none_left _ (required_string payload "realm").1 domain.0 in
      let fqdn = none_left _ (required_string payload "fqdn").1 realm.0 in
      let method =
        none_left _ (problem_if (not (text_is (get payload "method") "freeipa-otp")) wrong_method)
          fqdn.0 in
      let schema = none_left (reject_forbidden_secret_fields [] (dict payload)) _ method.0 in
      let dated = problem_if-nil _ _ expires.1 in
      let named = problem_if-nil _ _ fqdn.1 in
      (
        value_allowed [] (dict payload) schema.0,
        text_is-str _ _ _ schema.1,
        text_is-str _ _ _ method.1,
        named,
        problem_if-nil _ _ realm.1,
        problem_if-nil _ _ domain.1,
        problem_if-nil _ _ server.1,
        dated,
        fqdn_problems-IsFor expected payload named host.1,
        expiry_by-IsLater fromisoformat now _ (rw (expiry_problems, dated) at expiry.1),
        enrollment_problems-IsOtpEnrollment _ enrollment.1,
        crypto_problems-IsAgeCrypto _ crypto.1,
      )
