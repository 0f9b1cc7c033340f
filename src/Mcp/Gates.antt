-- ===== src/Mcp/Gates.antt =====
-- scripts/mcp_servers/rfc1918_mcp_common/gates.py and settings.py.
use rfc_codex_gentoo_stage.Text.Laws.{strip_by-filled, strip_by-blank}
use rfc_codex_gentoo_stage.Prelude.{
  String, Bool, true, false, not, Option, none, some, List, [], ◌∷◌, ◌==◌, ◌≡◌, ◌↔◌, arith,
  if◌then◌else◌, ◌||◌, inr, ◌⊎◌, eq_iff, inl, subst, Bool-cases, refl, sym, ◌∙◌,
}
use rfc_codex_gentoo_stage.Text.{strip, lower, is_empty, all_chars, is_space}

-- an environment, as a function from names
abbrev pub Env : Type 0
Env = String → Option String

-- `env.get(name, default)`
unfoldable pub get_env : Env → String → String → String
get_env env name default = elim (env name) [ none ↦ default | some v ↦ v ]

pub record MutationGate : Type 0 where
  pub allow_mutations : Bool

unfoldable pub is_enabled : String → Bool
is_enabled value = value == "1" || value == "true" || value == "yes" || value == "on"

unfoldable pub gate_from_env : Env → MutationGate
unfolding get_env strip lower is_enabled
gate_from_env env = record {
  allow_mutations = is_enabled (lower (strip (get_env env "MCP_ALLOW_MUTATIONS" "")));
}

pub data MutationRejected : Type 0 where
  mutations_disabled idempotency_key_required audit_comment_required : String → MutationRejected

unfoldable pub is_blank_text : String → Bool
unfolding strip
is_blank_text s = is_empty s || is_empty (strip s)

-- `none` is a return, anything else the exception raised
unfoldable pub require : MutationGate → String → String → String → Option MutationRejected
unfolding is_blank_text
require gate operation idempotency_key audit_comment =
    if not gate.allow_mutations
    then some (mutations_disabled operation)
    else if is_blank_text idempotency_key
    then some (idempotency_key_required operation)
    else if is_blank_text audit_comment
    then some (audit_comment_required operation)
    else none

pub record ServiceSettings : Type 0 where
  pub service_name : String
  pub backend_url : String
  pub token_file : Option String
  pub audit_dir : String

abbrev pub unless_empty : String → Option String
unless_empty s = if is_empty s then none else some s

unfoldable pub settings_from_env : Env → String → String → String → ServiceSettings
unfolding get_env strip
settings_from_env env service_default backend_url_var token_file_var =
    let name = strip (get_env env "MCP_SERVICE_NAME" service_default) in
    let audit_dir = strip (get_env env "MCP_AUDIT_DIR" "") in
    record {
      service_name = if is_empty name then service_default else name;
      backend_url = strip (get_env env backend_url_var "");
      token_file = unless_empty (strip (get_env env token_file_var ""));
      audit_dir = if is_empty audit_dir then "/var/log/rfc1918-mcp/audit" else audit_dir;
    }

unfoldable pub to_safe_dict : ServiceSettings → List (String × String)
to_safe_dict settings =
    ("service_name", settings.service_name)
    ∷ ("backend_url", settings.backend_url)
    ∷ ("audit_dir", settings.audit_dir)
    ∷ elim settings.token_file [ none ↦ [] | some path ↦ ("token_file", path) ∷ [] ]

-- A text is blank if it has spaces only.
is_blank_text-spaces : (s : String) → is_blank_text s ≡ all_chars is_space s
unfolding is_blank_text strip all_chars
is_blank_text-spaces String.[] = refl
is_blank_text-spaces (String.◌∷◌ c s) = elim (Bool-cases (all_chars is_space (String.◌∷◌ c s))) [
  | inl e ↦ strip_by-blank is_space (String.◌∷◌ c s) e ∙ sym e
  | inr e ↦ strip_by-filled is_space (String.◌∷◌ c s) e ∙ sym e
]

-- The word is one of the four that open the gate.
abbrev pub Opens : String → Type 0
Opens word = (word ≡ "1") ⊎ (word ≡ "true") ⊎ (word ≡ "yes") ⊎ (word ≡ "on")

or_cases : (a b : Bool) → (a || b) ≡ true → (a ≡ true) ⊎ (b ≡ true)
or_cases true b h = inl refl
or_cases false b h = inr h

is_enabled-Opens : (word : String) → is_enabled word ≡ true → Opens word
unfolding is_enabled
is_enabled-Opens word h = elim (or_cases _ (word == "on") h) [
  | inr d ↦ inr (inr (inr ((eq_iff word "on").0 d)))
  | inl g ↦ elim (or_cases _ (word == "yes") g) [
    | inr c ↦ inr (inr (inl ((eq_iff word "yes").0 c)))
    | inl f ↦ elim (or_cases (word == "1") (word == "true") f) [
      | inl a ↦ inl ((eq_iff word "1").0 a)
      | inr b ↦ inr (inl ((eq_iff word "true").0 b))
    ]
  ]
]

Opens-is_enabled : (word : String) → Opens word → is_enabled word ≡ true
unfolding is_enabled
Opens-is_enabled word (inr (inr (inr d))) = subst (λ w. is_enabled w ≡ true) (sym d) refl
Opens-is_enabled word (inr (inr (inl c))) = subst (λ w. is_enabled w ≡ true) (sym c) refl
Opens-is_enabled word (inr (inl b)) = subst (λ w. is_enabled w ≡ true) (sym b) refl
Opens-is_enabled word (inl a) = subst (λ w. is_enabled w ≡ true) (sym a) refl

require_cases :
    (env : Env) (operation idempotency_key audit_comment : String)
    → (require (gate_from_env env) operation idempotency_key audit_comment ≡ none) ↔ (
        (is_enabled (lower (strip (get_env env "MCP_ALLOW_MUTATIONS" ""))) ≡ true)
        × (is_blank_text idempotency_key ≡ false)
        × (is_blank_text audit_comment ≡ false))
unfolding require gate_from_env
require_cases env operation idempotency_key audit_comment = ground arith

-- A mutation passes the gate that an environment gives if the variable has one of the four values `1`, `true`, `yes` and
-- `on`, in any case and among spaces, and the key and the comment each have a character that is no space, and in no
-- other case.
pub require-passes :
    (env : Env) (operation idempotency_key audit_comment : String)
    → (require (gate_from_env env) operation idempotency_key audit_comment ≡ none) ↔ (
        Opens (lower (strip (get_env env "MCP_ALLOW_MUTATIONS" "")))
        × (all_chars is_space idempotency_key ≡ false)
        × (all_chars is_space audit_comment ≡ false))
require-passes env operation key comment =
    let passes = require_cases env operation key comment in
    (
      λ e.
          let h = passes.0 e in
          (
            is_enabled-Opens _ h.0,
            sym (is_blank_text-spaces key) ∙ h.1,
            sym (is_blank_text-spaces comment) ∙ h.2,
          ),
      λ h. passes.1 (
        Opens-is_enabled _ h.0,
        is_blank_text-spaces key ∙ h.1,
        is_blank_text-spaces comment ∙ h.2,
      ),
    )
