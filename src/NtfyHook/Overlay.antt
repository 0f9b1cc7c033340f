-- ===== src/NtfyHook/Overlay.antt =====
-- The mode of a kind in scripts/codex_ntfy_policy.py, from the policy file and the defaults.
use rfc_codex_gentoo_stage.Prelude.{
  String, true, false, Option, none, some, ◌==◌, ◌≡◌, inl, inr, refl, sym, ap, subst, ◌∙◌,
  Bool-cases, eq_iff, false≢true, if◌then◌else◌, ◌⊎◌, ◌≢◌,
}
use rfc_codex_gentoo_stage.Value.{
  Value, null, bool, int, str, list, dict, Fields, end, field, get_or, empty_dict,
}
use rfc_codex_gentoo_stage.Spool.Events.{set_field}
use rfc_codex_gentoo_stage.NtfyHook.Policy.{
  json, Policy, update, config_of, merge_kinds, merge_config, merged, mode_in, load_policy,
  allowed_mode, default_mode, default_kinds, mode_for_kind, Mode, state_driven, advisory,
}

-- the last value of a key, or what is held so far
unfoldable pub latest : Fields → String → Value → Value
latest end key held = held
latest (field k v fs) key held = latest fs key (if k == key then v else held)

-- the mode that the given kinds leave a kind with, entry by entry: an entry that is no mapping, or without a mode,
-- changes nothing
unfoldable pub latest_mode : Fields → String → Value → Value
unfolding latest
latest_mode end kind held = held
latest_mode (field name (dict config) rest) kind held =
    latest_mode rest kind (if name == kind then latest config "mode" held else held)
latest_mode (field name v rest) kind held = latest_mode rest kind held

differs : (a b c : String) → (a == b) ≡ true → (b == c) ≡ false → (a == c) ≡ false
differs a b c e h = subst (λ x. (x == c) ≡ false) (sym ((eq_iff a b).0 e)) h

-- an entry that is set is the one that is read
get_or-set_field :
    (fs : Fields) (name : String) (v : Value) (key : String) (default : Value)
    → get_or (set_field fs name v) key default ≡ (if name == key then v else get_or fs key default)
unfolding get_or set_field
get_or-set_field end name v key default = refl
get_or-set_field (field k w fs) name v key default = elim (Bool-cases (k == name)) [
  | inl e ↦ elim (Bool-cases (name == key)) [
    | inl h ↦ rw e (rw (ap (λ x. x == key) ((eq_iff k name).0 e)) (rw h refl))
    | inr h ↦ rw e (rw (differs k name key e h) (rw h refl))
  ]
  | inr e ↦ elim (Bool-cases (k == key)) [
    | inl h ↦ rw e (rw h (rw (other e h) refl))
    | inr h ↦ rw e (rw h (get_or-set_field fs name v key default))
  ]
]
  where
    other : (k == name) ≡ false → (k == key) ≡ true → (name == key) ≡ false
    other e h = elim (Bool-cases (name == key)) [
      | inl g ↦ absurd (
          false≢true (sym e ∙ (eq_iff k name).1 ((eq_iff k key).0 h ∙ sym ((eq_iff name key).0 g))))
      | inr g ↦ g
    ]

get_or-update :
    (others fs : Fields) (key : String) (default : Value)
    → get_or (update fs others) key default ≡ latest others key (get_or fs key default)
unfolding update latest
get_or-update end fs key default = refl
get_or-update (field k v others) fs key default =
    get_or-update others (set_field fs k v) key default
    ∙ ap (latest others key) (get_or-set_field fs k v key default)

abbrev mode_of : Fields → String → Value → Value
mode_of kinds kind default = get_or (config_of (get_or kinds kind empty_dict)) "mode" default

mode_of-merge_config :
    (kinds : Fields) (name : String) (config : Fields) (kind : String) (default : Value)
    → mode_of (merge_config kinds name (dict config)) kind default ≡ (
        if name == kind
        then latest config "mode" (mode_of kinds kind default)
        else mode_of kinds kind default)
mode_of-merge_config kinds name config kind default =
    ap (λ v. get_or (config_of v) "mode" default) (get_or-set_field kinds name _ kind empty_dict)
    ∙ by_name
  where
    by_name :
        get_or
          (config_of (
            if name == kind
            then dict (update (config_of (get_or kinds name empty_dict)) config)
            else get_or kinds kind empty_dict))
          "mode"
          default
        ≡ (if name == kind
            then latest config "mode" (mode_of kinds kind default)
            else mode_of kinds kind default)
    by_name = elim (Bool-cases (name == kind)) [
      | inl e ↦ rw e (
          get_or-update config (config_of (get_or kinds name empty_dict)) "mode" default
          ∙ ap (λ n. latest config "mode" (mode_of kinds n default)) ((eq_iff name kind).0 e))
      | inr e ↦ rw e refl
    ]

mode_of-merge_kinds :
    (given kinds : Fields) (kind : String) (default : Value)
    → mode_of (merge_kinds kinds given) kind default
      ≡ latest_mode given kind (mode_of kinds kind default)
unfolding merge_kinds latest_mode
mode_of-merge_kinds end kinds kind default = refl
mode_of-merge_kinds (field name (dict config) rest) kinds kind default =
    mode_of-merge_kinds rest (merge_config kinds name (dict config)) kind default
    ∙ ap (latest_mode rest kind) (mode_of-merge_config kinds name config kind default)
mode_of-merge_kinds (field name null rest) kinds kind default =
    mode_of-merge_kinds rest kinds kind default
mode_of-merge_kinds (field name (bool b) rest) kinds kind default =
    mode_of-merge_kinds rest kinds kind default
mode_of-merge_kinds (field name (int n) rest) kinds kind default =
    mode_of-merge_kinds rest kinds kind default
mode_of-merge_kinds (field name (str s) rest) kinds kind default =
    mode_of-merge_kinds rest kinds kind default
mode_of-merge_kinds (field name (list vs) rest) kinds kind default =
    mode_of-merge_kinds rest kinds kind default

get_or_again :
    (fs : Fields) (key : String) (default : Value)
    → get_or fs key (get_or fs key default) ≡ get_or fs key default
unfolding get_or
get_or_again end key default = refl
get_or_again (field k v fs) key default = elim (Bool-cases (k == key)) [
  | inl e ↦ rw e refl
  | inr e ↦ rw e (get_or_again fs key default)
]

pub by_default :
    (kind : String) → mode_of default_kinds kind (default_mode kind) ≡ default_mode kind
unfolding default_mode
by_default kind =
    get_or_again (config_of (get_or default_kinds kind empty_dict)) "mode" (str "advisory")

merged_mode :
    (candidate given : Fields) (kind : String) (policy : Policy) (metadata : Option Fields)
    → get_or candidate "replyKinds" empty_dict ≡ dict given
    → merged candidate metadata ≡ some policy
    → mode_in kind (merged candidate metadata)
      ≡ allowed_mode (latest_mode given kind (default_mode kind))
merged_mode candidate given kind policy none g h = cc
merged_mode candidate given kind policy (some metadata) g h =
    ap
      (λ v.
        allowed_mode (mode_of (merge_kinds default_kinds (config_of v)) kind (default_mode kind)))
      g
    ∙ ap allowed_mode (
        mode_of-merge_kinds given default_kinds kind (default_mode kind)
        ∙ ap (latest_mode given kind) (by_default kind))

-- the mode of a kind by what the file leaves it with
pub mode_for_kind-allowed_mode :
    (candidate given : Fields) (kind : String) (policy : Policy)
    → get_or candidate "replyKinds" empty_dict ≡ dict given
    → load_policy (json (dict candidate)) ≡ some policy
    → mode_for_kind (json (dict candidate)) kind
      ≡ allowed_mode (latest_mode given kind (default_mode kind))
unfolding mode_for_kind load_policy
mode_for_kind-allowed_mode candidate given kind policy g h =
    rw (mode_for_kind, load_policy, g) (merged_mode candidate given kind policy _ g (rw g at h))

-- What a value means as a mode: `state-driven` itself; `advisory` for every other text, number, truth value or null; and
-- an exception for a list or a mapping.
abbrev pub IsModeOf : Value → Option Mode → Type 0
IsModeOf (str s) mode =
    ((s ≡ "state-driven") × (mode ≡ some state_driven))
    ⊎ ((s ≢ "state-driven") × (mode ≡ some advisory))
IsModeOf (list vs) mode = mode ≡ none
IsModeOf (dict fs) mode = mode ≡ none
IsModeOf v mode = mode ≡ some advisory

allowed_mode-IsModeOf : (v : Value) → IsModeOf v (allowed_mode v)
unfolding allowed_mode
allowed_mode-IsModeOf null = refl
allowed_mode-IsModeOf (bool b) = refl
allowed_mode-IsModeOf (int n) = refl
allowed_mode-IsModeOf (list vs) = refl
allowed_mode-IsModeOf (dict fs) = refl
allowed_mode-IsModeOf (str s) = elim (Bool-cases (s == "state-driven")) [
  | inl e ↦ rw e (inl ((eq_iff s "state-driven").0 e, refl))
  | inr e ↦ rw e (inr (λ same. false≢true (sym e ∙ (eq_iff s "state-driven").1 same), refl))
]

-- If the policy file is a mapping whose `replyKinds` are a mapping, and it is accepted, then the mode of a kind is what
-- the last mode that the file gives the kind in an entry that is a mapping, or else the default mode of the kind, means:
-- `state-driven` for that text, `advisory` for another text, a number, a truth value or null, and an exception for a list
-- or a mapping.
pub mode_for_kind-latest_mode :
    (candidate given : Fields) (kind : String) (policy : Policy)
    → get_or candidate "replyKinds" empty_dict ≡ dict given
    → load_policy (json (dict candidate)) ≡ some policy
    → IsModeOf
        (latest_mode given kind (default_mode kind))
        (mode_for_kind (json (dict candidate)) kind)
mode_for_kind-latest_mode candidate given kind policy g h =
    subst (IsModeOf (latest_mode given kind (default_mode kind)))
      (sym (mode_for_kind-allowed_mode candidate given kind policy g h))
      (allowed_mode-IsModeOf (latest_mode given kind (default_mode kind)))
