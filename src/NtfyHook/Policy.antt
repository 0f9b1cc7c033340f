-- ===== src/NtfyHook/Policy.antt =====
-- scripts/codex_ntfy_policy.py: the policy file over the defaults, and the mode of a kind of reply.
use rfc_codex_gentoo_stage.Prelude.{
  String, Bool, true, false, Option, none, some, ◌==◌, if◌then◌else◌,
}
use rfc_codex_gentoo_stage.Value.{
  Value, str, list, dict, nil, Fields, end, field, get_or, empty_dict,
}
use rfc_codex_gentoo_stage.Spool.Events.{set_field}

-- The policy file: absent, not readable as JSON, or with a JSON value.
pub data PolicyFile : Type 0 where
  absent unreadable : PolicyFile
  json : Value → PolicyFile

pub record Policy : Type 0 where
  pub api_version : Value
  pub kind : Value
  pub metadata : Fields
  pub reply_kinds : Fields

abbrev with_mode : String → Value
with_mode mode = dict (field "mode" (str mode) end)

abbrev pub default_kinds : Fields
default_kinds = field "permission_reply" (with_mode "state-driven") (
    field "question_reply" (with_mode "state-driven") (
      field "status_request" (with_mode "advisory")
        (field "unrecognized_reply" (with_mode "advisory") end)))

abbrev pub default_policy : Policy
default_policy = record {
  api_version = str "rfc-codex/v1alpha1";
  kind = str "CodexNtfyPolicy";
  metadata =
      field "name" (str "builtin-default-codex-ntfy-policy")
        (field "description" (str "Built-in fallback policy for Codex ntfy replies.") end);
  reply_kinds = default_kinds;
}

-- `fields.update(others)`
unfoldable pub update : Fields → Fields → Fields
unfolding set_field
update fields end = fields
update fields (field k v others) = update (set_field fields k v) others

-- `fields.update(v)`; `none` is the exception for a value that is neither a mapping nor empty. A list of pairs is
-- not modelled.
unfoldable pub update_with : Fields → Value → Option Fields
unfolding update
update_with fields (dict others) = some (update fields others)
update_with fields (list nil) = some fields
update_with fields (str s) = if s == "" then some fields else none
update_with fields v = none

abbrev pub config_of : Value → Fields
config_of (dict fields) = fields
config_of v = end

abbrev pub merge_config : Fields → String → Value → Fields
merge_config kinds name (dict config) =
    set_field kinds name (dict (update (config_of (get_or kinds name empty_dict)) config))
merge_config kinds name v = kinds

-- the loop over `candidate.get("replyKinds", {}).items()`
unfoldable pub merge_kinds : Fields → Fields → Fields
unfolding set_field update get_or
merge_kinds kinds end = kinds
merge_kinds kinds (field name v rest) = merge_kinds (merge_config kinds name v) rest

abbrev pub merged : Fields → Option Fields → Option Policy
merged candidate none = none
merged candidate (some metadata) = some (record {
  api_version = get_or candidate "apiVersion" default_policy.api_version;
  kind = get_or candidate "kind" default_policy.kind;
  metadata = metadata;
  reply_kinds = merge_kinds default_kinds (config_of (get_or candidate "replyKinds" empty_dict));
})

abbrev pub is_mapping : Value → Bool
is_mapping (dict fields) = true
is_mapping v = false

-- `none` is an exception: kinds that are no mapping have no `items`.
unfoldable pub load_policy : PolicyFile → Option Policy
unfolding merge_kinds update_with get_or
load_policy absent = some default_policy
load_policy unreadable = some default_policy
load_policy (json (dict candidate)) =
    if is_mapping (get_or candidate "replyKinds" empty_dict)
    then merged candidate
        (update_with default_policy.metadata (get_or candidate "metadata" empty_dict))
    else none
load_policy (json v) = some default_policy

pub data Mode : Type 0 where
  state_driven advisory : Mode

-- `mode if mode in ALLOWED_MODES else "advisory"`; a list or a mapping is no key of a set.
unfoldable pub allowed_mode : Value → Option Mode
allowed_mode (str s) = if s == "state-driven" then some state_driven else some advisory
allowed_mode (list vs) = none
allowed_mode (dict fields) = none
allowed_mode v = some advisory

-- the mode that a kind has by default
unfoldable pub default_mode : String → Value
unfolding get_or
default_mode kind =
    get_or (config_of (get_or default_kinds kind empty_dict)) "mode" (str "advisory")

abbrev pub mode_in : String → Option Policy → Option Mode
mode_in kind none = none
mode_in kind (some policy) =
    allowed_mode
      (get_or (config_of (get_or policy.reply_kinds kind empty_dict)) "mode" (default_mode kind))

unfoldable pub mode_for_kind : PolicyFile → String → Option Mode
unfolding load_policy allowed_mode default_mode get_or
mode_for_kind file kind = mode_in kind (load_policy file)
