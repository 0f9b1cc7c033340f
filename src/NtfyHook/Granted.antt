-- ===== src/NtfyHook/Granted.antt =====
-- Which kinds of reply drive the state under scripts/codex_ntfy_policy.py.
use rfc_codex_gentoo_stage.Prelude.{
  String, false, Option, none, some, ◌==◌, ◌≡◌, ◌≢◌, ◌⊎◌, inl, inr, refl, sym, ap, ◌∙◌, Bool-cases,
  Option-cases, eq_iff,
}
use rfc_codex_gentoo_stage.Value.{
  Value, null, bool, int, str, list, dict, Fields, end, field, get_or, empty_dict,
}
use rfc_codex_gentoo_stage.NtfyHook.Policy.{
  PolicyFile, absent, unreadable, json, state_driven, advisory, Policy, load_policy, mode_in,
  allowed_mode, default_mode, mode_for_kind, is_mapping, default_policy,
}
use rfc_codex_gentoo_stage.NtfyHook.Overlay.{
  latest, latest_mode, mode_for_kind-allowed_mode, by_default,
}
use rfc_codex_gentoo_stage.NtfyHook.Approvals.{none≢some}

-- An entry of the fields has the key and the value.
unfoldable pub Holds : Fields → String → Value → Type 0
Holds end key v = ⊥
Holds (field k w fs) key v = ((k ≡ key) × (w ≡ v)) ⊎ Holds fs key v

-- An entry for the kind asks that its replies drive the state.
abbrev pub IsRaised : Fields → String → Type 0
IsRaised given kind =
    (config : Fields) × Holds given kind (dict config) × Holds config "mode" (str "state-driven")

-- The kinds that drive the state without a policy file.
abbrev pub IsBuiltIn : String → Type 0
IsBuiltIn kind = (kind ≡ "permission_reply") ⊎ (kind ≡ "question_reply")

latest-Holds :
    (fs : Fields) (key : String) (held v : Value)
    → latest fs key held ≡ v
    → Holds fs key v ⊎ (held ≡ v)
unfolding latest Holds
latest-Holds end key held v h = inr h
latest-Holds (field k w fs) key held v h = elim (latest-Holds fs key _ v h) [
  | inl g ↦ inl (inr g)
  | inr g ↦ elim (Bool-cases (k == key)) [
    | inl e ↦ inl (inl ((eq_iff k key).0 e, (rw e at g)))
    | inr e ↦ inr (rw e at g)
  ]
]

raised_later :
    (name : String) (v : Value) (rest : Fields) (kind : String)
    → IsRaised rest kind
    → IsRaised (field name v rest) kind
unfolding Holds
raised_later name v rest kind (config, h, m) = (config, inr h, m)

later :
    (name : String) (v : Value) (rest : Fields) (kind : String) (held : Value)
    → IsRaised rest kind ⊎ (held ≡ str "state-driven")
    → IsRaised (field name v rest) kind ⊎ (held ≡ str "state-driven")
later name v rest kind held (inl g) = inl (raised_later name v rest kind g)
later name v rest kind held (inr g) = inr g

latest_mode-IsRaised :
    (given : Fields) (kind : String) (held : Value)
    → latest_mode given kind held ≡ str "state-driven"
    → IsRaised given kind ⊎ (held ≡ str "state-driven")
unfolding latest_mode Holds
latest_mode-IsRaised end kind held h = inr h
latest_mode-IsRaised (field name (dict config) rest) kind held h =
    elim (latest_mode-IsRaised rest kind _ h) [
      | inl g ↦ inl (raised_later name (dict config) rest kind g)
      | inr g ↦ elim (Bool-cases (name == kind)) [
        | inl e ↦ elim (latest-Holds config "mode" held _ (rw e at g)) [
          | inl m ↦ inl (config, inl ((eq_iff name kind).0 e, refl), m)
          | inr d ↦ inr d
        ]
        | inr e ↦ inr (rw e at g)
      ]
    ]
latest_mode-IsRaised (field name null rest) kind held h =
    later name null rest kind held (latest_mode-IsRaised rest kind held h)
latest_mode-IsRaised (field name (bool b) rest) kind held h =
    later name (bool b) rest kind held (latest_mode-IsRaised rest kind held h)
latest_mode-IsRaised (field name (int n) rest) kind held h =
    later name (int n) rest kind held (latest_mode-IsRaised rest kind held h)
latest_mode-IsRaised (field name (str s) rest) kind held h =
    later name (str s) rest kind held (latest_mode-IsRaised rest kind held h)
latest_mode-IsRaised (field name (list vs) rest) kind held h =
    later name (list vs) rest kind held (latest_mode-IsRaised rest kind held h)

allowed_mode-state_driven :
    (v : Value) → allowed_mode v ≡ some state_driven → v ≡ str "state-driven"
unfolding allowed_mode
allowed_mode-state_driven (str s) h = elim (Bool-cases (s == "state-driven")) [
  | inl e ↦ ap str ((eq_iff s "state-driven").0 e)
  | inr e ↦ absurd (advisory_is_other (rw e at h))
]
  where
    advisory_is_other : some advisory ≢ some state_driven
    advisory_is_other g = cc
allowed_mode-state_driven null h = cc
allowed_mode-state_driven (bool b) h = cc
allowed_mode-state_driven (int n) h = cc
allowed_mode-state_driven (list vs) h = cc
allowed_mode-state_driven (dict fs) h = cc

default_mode-IsBuiltIn : (kind : String) → default_mode kind ≡ str "state-driven" → IsBuiltIn kind
unfolding default_mode get_or
default_mode-IsBuiltIn kind h = elim (Bool-cases ("permission_reply" == kind)) [
  | inl e ↦ inl (sym ((eq_iff "permission_reply" kind).0 e))
  | inr e ↦ elim (Bool-cases ("question_reply" == kind)) [
    | inl g ↦ inr (sym ((eq_iff "question_reply" kind).0 g))
    | inr g ↦ elim (Bool-cases ("status_request" == kind)) [
      | inl i ↦ absurd (advisory_is_other (rw (e, g, i) at h))
      | inr i ↦ elim (Bool-cases ("unrecognized_reply" == kind)) [
        | inl j ↦ absurd (advisory_is_other (rw (e, g, i, j) at h))
        | inr j ↦ absurd (advisory_is_other (rw (e, g, i, j) at h))
      ]
    ]
  ]
]
  where
    advisory_is_other : str "advisory" ≢ str "state-driven"
    advisory_is_other g = cc

-- The policy file is a mapping whose kinds raise the kind.
unfoldable pub IsGranted : PolicyFile → String → Type 0
unfolding get_or
IsGranted (json (dict candidate)) kind =
    (given : Fields) × (get_or candidate "replyKinds" empty_dict ≡ dict given) × IsRaised given kind
IsGranted file kind = ⊥

dict_cases : (v : Value) → ((given : Fields) × (v ≡ dict given)) ⊎ (is_mapping v ≡ false)
dict_cases null = inr refl
dict_cases (bool b) = inr refl
dict_cases (int n) = inr refl
dict_cases (str s) = inr refl
dict_cases (list vs) = inr refl
dict_cases (dict fs) = inl (fs, refl)

without_mapping :
    (candidate : Fields) (kind : String)
    → is_mapping (get_or candidate "replyKinds" empty_dict) ≡ false
    → mode_for_kind (json (dict candidate)) kind ≡ none
unfolding mode_for_kind load_policy
without_mapping candidate kind e = rw (mode_for_kind, load_policy, e) refl

without_policy :
    (file : PolicyFile) (kind : String) → load_policy file ≡ none → mode_for_kind file kind ≡ none
unfolding mode_for_kind
without_policy file kind e = ap (mode_in kind) e

module _ (kind : String) where
  built_in :
      (policy : Option Policy)
      → policy ≡ some default_policy
      → mode_in kind policy ≡ some state_driven
      → IsBuiltIn kind
  built_in policy e h =
      default_mode-IsBuiltIn kind
        (sym (by_default kind) ∙ allowed_mode-state_driven _ (sym (ap (mode_in kind) e) ∙ h))

  by_file :
      (candidate given : Fields) (policy : Policy)
      → get_or candidate "replyKinds" empty_dict ≡ dict given
      → load_policy (json (dict candidate)) ≡ some policy
      → mode_for_kind (json (dict candidate)) kind ≡ some state_driven
      → IsBuiltIn kind ⊎ IsGranted (json (dict candidate)) kind
  unfolding IsGranted
  by_file candidate given policy g p h =
      elim (latest_mode-IsRaised given kind (default_mode kind) (
        allowed_mode-state_driven _
          (sym (mode_for_kind-allowed_mode candidate given kind policy g p) ∙ h))) [
            | inl raised ↦ inr (given, g, raised)
            | inr d ↦ inl (default_mode-IsBuiltIn kind d)
          ]

  by_candidate :
      (candidate : Fields)
      → mode_for_kind (json (dict candidate)) kind ≡ some state_driven
      → IsBuiltIn kind ⊎ IsGranted (json (dict candidate)) kind
  by_candidate candidate h = elim (dict_cases (get_or candidate "replyKinds" empty_dict)) [
    | inr e ↦ absurd (none≢some (sym (without_mapping candidate kind e) ∙ h))
    | inl (given, g) ↦ elim (Option-cases (load_policy (json (dict candidate)))) [
      | inl e ↦ absurd (none≢some (sym (without_policy (json (dict candidate)) kind e) ∙ h))
      | inr (policy, p) ↦ by_file candidate given policy g p h
    ]
  ]

-- A reply drives the state only if its kind is `permission_reply` or `question_reply`, or if the policy file is a
-- mapping whose `replyKinds` have an entry for the kind that gives the mode `state-driven`.
pub mode_for_kind-IsGranted :
    (file : PolicyFile) (kind : String)
    → mode_for_kind file kind ≡ some state_driven
    → IsBuiltIn kind ⊎ IsGranted file kind
unfolding mode_for_kind load_policy
mode_for_kind-IsGranted absent kind h = inl (built_in kind _ refl h)
mode_for_kind-IsGranted unreadable kind h = inl (built_in kind _ refl h)
mode_for_kind-IsGranted (json (dict candidate)) kind h = by_candidate kind candidate h
mode_for_kind-IsGranted (json null) kind h = inl (built_in kind _ refl h)
mode_for_kind-IsGranted (json (bool b)) kind h = inl (built_in kind _ refl h)
mode_for_kind-IsGranted (json (int n)) kind h = inl (built_in kind _ refl h)
mode_for_kind-IsGranted (json (str s)) kind h = inl (built_in kind _ refl h)
mode_for_kind-IsGranted (json (list vs)) kind h = inl (built_in kind _ refl h)
