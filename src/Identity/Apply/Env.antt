-- ===== src/Identity/Apply/Env.antt =====
-- Environment variables and ID ranges in scripts/apply_identity_sync_plan.py.
use rfc_codex_gentoo_stage.Prelude.{
  ℕ, ℤ, ◌+◌, ◌+ℤ◌, ltb_ℤ, leb_ℤ, String, Bool, ◌&&◌, Option, none, some, List, [], ◌∷◌, ◌++◌, any,
  starts_with, ◌==◌, if◌then◌else◌,
}
use rfc_codex_gentoo_stage.Text.{
  strip, upper, lower, lines_of, concat, is_empty, has_text, after_text, before_text,
}
use rfc_codex_gentoo_stage.Value.{
  Value, str, list, elements, get_or, item, as_str, as_dict, to_int, is_truthy,
}
use rfc_codex_gentoo_stage.Identity.Clean.{read_all}
use rfc_codex_gentoo_stage.Identity.Plan.{Plan, PlanGroup, PlanUser, PlanServiceAccount}
use rfc_codex_gentoo_stage.Identity.Apply.Run.{
  Machine, Options, Completed, completed, not_started, Apply, Result, ok, err, missing_variable,
  bad_list, no_idrange, outside_idranges, incompatible_idrange, uncaught, pure, raise, or_raise,
  ◌>>=◌, run_command, succeeded, strict, unchecked,
}

-- the value if there is one, and else what follows
abbrev pub value_or : Option String → Apply String → Apply String
value_or none m = m
value_or (some value) m = pure value

unfoldable pub resolve_env_var : Machine → String → Bool → Apply String
unfolding upper
resolve_env_var machine name required = value_or (machine.environ name) (
    value_or (machine.environ (upper name))
      (if required then raise (missing_variable name) else pure ""))

-- `[x.strip() for x in texts if x.strip()]`
unfoldable pub nonblank : List String → List String
unfolding strip
nonblank [] = []
nonblank (s ∷ ss) = let rest = nonblank ss in if strip s == "" then rest else strip s ∷ rest

abbrev pub texts_of : Option Value → Option (List String)
texts_of (some (list items)) = read_all as_str (elements items)
texts_of _ = none

unfoldable pub parsed_list : String → Option (List String) → Apply (List String)
unfolding nonblank
parsed_list name none = raise (bad_list name)
parsed_list name (some texts) = pure (nonblank texts)

unfoldable pub resolve_list_var : Machine → String → Bool → Apply (List String)
unfolding resolve_env_var ◌>>=◌ parsed_list lines_of nonblank strip
resolve_list_var machine name required = do
  value ← resolve_env_var machine name required
  if is_empty value
      then pure []
      else if starts_with (strip value) "["
      then parsed_list name (texts_of (machine.json_loads (strip value)))
      else pure (nonblank (lines_of value))

-- the attributes of a listing, lower case; a later line wins
unfoldable pub parse_ipa_raw_attrs : List String → List (String × String) → List (String × String)
unfolding strip lower has_text after_text before_text
parse_ipa_raw_attrs [] attrs = attrs
parse_ipa_raw_attrs (line ∷ lines) attrs = parse_ipa_raw_attrs lines (
    if has_text ": " (strip line)
    then (lower (before_text ": " (strip line)), strip (after_text ": " (strip line))) ∷ attrs
    else attrs)

unfoldable pub lookup : String → List (String × String) → Option String
lookup key [] = none
lookup key ((k, v) ∷ attrs) = if k == key then some v else lookup key attrs

-- the ranges of the plan, or the single one of an older plan
unfoldable pub idranges_of : Plan → List Value
unfolding is_truthy
idranges_of plan = elim plan.freeipa_local_idranges [
  | [] ↦ if is_truthy plan.freeipa_local_idrange then plan.freeipa_local_idrange ∷ [] else []
  | v ∷ vs ↦ v ∷ vs
]

abbrev pub int_item : Option Value → Option ℤ
int_item none = none
int_item (some v) = to_int v

abbrev pub bounds : Option Value → Option ℤ → Option ℤ → Option (ℤ × ℤ)
bounds (some name) (some base) (some size) = some (base, base +ℤ size)
bounds _ _ _ = none

-- the first ID of a range and the first one past it
unfoldable pub parse_idrange : Value → Option (ℤ × ℤ)
unfolding item to_int
parse_idrange v =
    bounds (item v "name") (int_item (item v "base_id")) (int_item (item v "range_size"))

-- kind, name and ID of a row
abbrev pub Target : Type 0
Target = String × Value × ℤ

abbrev pub target : String → Value → Option ℤ → Option Target
target kind name none = none
target kind name (some id) = some (kind, name, id)

unfoldable pub group_target : PlanGroup → Option Target
unfolding to_int
group_target g = target "group" g.name (to_int g.gid)

unfoldable pub user_target : PlanUser → Option Target
unfolding to_int
user_target u = target "user" u.name (to_int u.uid)

unfoldable pub service_account_target : PlanServiceAccount → Option Target
unfolding to_int
service_account_target a = target "service_account" a.name (to_int a.uid)

unfoldable pub is_inside : ℤ → ℤ × ℤ → Bool
is_inside id (base, limit) = leb_ℤ base id && ltb_ℤ id limit

unfoldable pub check_targets : List (ℤ × ℤ) → List Target → Result (Unit {0})
unfolding is_inside
check_targets ranges [] = ok tt
check_targets ranges ((kind, name, id) ∷ targets) =
    let rest = check_targets ranges targets in
    if any (is_inside id) ranges then rest else err (outside_idranges kind name id)

abbrev pub all_targets :
    Option (List Target) → Option (List Target) → Option (List Target) → Option (List Target)
all_targets (some gs) (some us) (some ss) = some (gs ++ (us ++ ss))
all_targets _ _ _ = none

abbrev pub check_all : Option (List (ℤ × ℤ)) → Option (List Target) → Result (Unit {0})
check_all (some ranges) (some targets) = check_targets ranges targets
check_all _ _ = err uncaught

unfoldable pub require_ids_within_local_idrange : Plan → Result (Unit {0})
unfolding idranges_of parse_idrange group_target user_target service_account_target check_targets
require_ids_within_local_idrange plan = elim (idranges_of plan) [
  | [] ↦ err no_idrange
  | v ∷ vs ↦ check_all (read_all parse_idrange (v ∷ vs)) (
      all_targets (read_all group_target plan.freeipa_groups)
        (read_all user_target plan.freeipa_users)
        (read_all service_account_target plan.freeipa_service_accounts))
]

-- `attrs.get(key) != value`
unfoldable pub mismatches : List (String × String) → List (String × Option String) → List String
unfolding lookup
mismatches attrs [] = []
mismatches attrs ((key, value) ∷ expected) =
    let rest = mismatches attrs expected in
    elim (lookup key attrs) [
      | none ↦ key ∷ rest
      | some found ↦ elim value [
        | none ↦ key ∷ rest
        | some wanted ↦ if found == wanted then rest else key ∷ rest
      ]
    ]

abbrev pub show : Machine → Value → String
show machine (str s) = s
show machine v = machine.str_of v

abbrev pub output_of : Completed → String
output_of (completed _ out _) = out
output_of not_started = ""

unfoldable pub compare_idrange : Value → List String → Apply ℕ
compare_idrange name [] = pure 0
compare_idrange name (key ∷ keys) = raise (incompatible_idrange name (key ∷ keys))

-- The settings that a range has to have: its name, four numbers and its type.
pub record IdRangeSettings : Type 0 where
  pub name : Value
  pub base_id : Value
  pub range_size : Value
  pub rid_base : Value
  pub secondary_rid_base : Value
  pub type_value : Value

unfoldable pub settings_of : Value → Apply IdRangeSettings
unfolding item as_dict
settings_of idrange = do
  fields ← or_raise (as_dict idrange) uncaught
  name ← or_raise (item idrange "name") uncaught
  base ← or_raise (item idrange "base_id") uncaught
  size ← or_raise (item idrange "range_size") uncaught
  rid ← or_raise (item idrange "rid_base") uncaught
  secondary ← or_raise (item idrange "secondary_rid_base") uncaught
  pure (record {
    name = name;
    base_id = base;
    range_size = size;
    rid_base = rid;
    secondary_rid_base = secondary;
    type_value = get_or fields "type" (str "ipa-local");
  })

module _ (machine : Machine) (options : Options) where
  abbrev pub flag : String → Value → String
  flag prefix v = concat (prefix ∷ show machine v ∷ [])

  abbrev pub expected_attrs : IdRangeSettings → List (String × Option String)
  expected_attrs r =
      ("ipabaseid", some (show machine r.base_id))
      ∷ ("ipaidrangesize", some (show machine r.range_size))
      ∷ ("ipabaserid", some (show machine r.rid_base))
      ∷ ("ipasecondarybaserid", some (show machine r.secondary_rid_base))
      ∷ ("iparangetype", as_str r.type_value)
      ∷ []

  unfoldable pub add_idrange : IdRangeSettings → Apply ℕ
  unfolding concat
  add_idrange r = do
    _ ←
        run_command machine options
          (options.ipa_command
            ∷ "idrange-add"
            ∷ show machine r.name
            ∷ flag "--base-id=" r.base_id
            ∷ flag "--range-size=" r.range_size
            ∷ flag "--rid-base=" r.rid_base
            ∷ flag "--secondary-rid-base=" r.secondary_rid_base
            ∷ flag "--type=" r.type_value
            ∷ [])
          strict
    pure 1

  unfoldable pub ensure_one_freeipa_local_idrange : Value → Apply ℕ
  unfolding settings_of add_idrange compare_idrange mismatches parse_ipa_raw_attrs lines_of
  ensure_one_freeipa_local_idrange idrange = do
    r ← settings_of idrange
    result ←
        run_command machine options
          (options.ipa_command ∷ "idrange-show" ∷ show machine r.name ∷ "--all" ∷ "--raw" ∷ [])
          unchecked
    if succeeded result
        then compare_idrange r.name
            (mismatches (parse_ipa_raw_attrs (lines_of (output_of result)) []) (expected_attrs r))
        else add_idrange r

  unfoldable pub ensure_each : List Value → Apply ℕ
  unfolding ensure_one_freeipa_local_idrange
  ensure_each [] = pure 0
  ensure_each (v ∷ vs) = do
    n ← ensure_one_freeipa_local_idrange v
    rest ← ensure_each vs
    pure (n + rest)

  unfoldable pub ensure_freeipa_local_idranges : Plan → Apply ℕ
  unfolding ensure_each idranges_of
  ensure_freeipa_local_idranges plan = ensure_each (idranges_of plan)
