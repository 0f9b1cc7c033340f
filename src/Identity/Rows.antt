-- ===== src/Identity/Rows.antt =====
-- The loops of `validate_identity_source` over groups, accounts, hosts and RADIUS clients.
use rfc_codex_gentoo_stage.Prelude.{
  ℕ, String, Bool, true, false, not, ◌&&◌, Option, none, some, List, [], ◌∷◌, ◌++◌, ◌==◌, nat_eq,
  starts_with, if◌then◌else◌,
}
use rfc_codex_gentoo_stage.Ip.{is_ip_address}
use rfc_codex_gentoo_stage.Value.{
  Value, null, str, list, dict, Fields, end, field, get, get_or, has_key, as_dict, as_str, iterate,
  ◌or_value◌, empty_list,
}
use rfc_codex_gentoo_stage.Identity.Check.{
  Label, place, row, inside, not_mapping, missing_string, not_absolute, mount_mismatch,
  invalid_address, duplicate_group, duplicate_account, duplicate_id, unknown_group, unknown_role,
  shared_secret_used, not_vault, Check, pure, report, report_if, ◌>>=◌, ◌>>◌,
}
use rfc_codex_gentoo_stage.Identity.Fields.{
  is_blank, required_string, validate_uid_gid, reject_secret_values, validate_group_refs, contains,
  validate_string_list, is_vault, check_vault,
}
use rfc_codex_gentoo_stage.Identity.Ranges.{IdRange, validate_id_in_freeipa_ranges}

-- Who holds an ID: `name or label`.
abbrev pub owner : String → Label → Label
owner name label = if name == "" then label else place name

-- `seen_gids` and `seen_uids`
abbrev pub SeenIds : Type 0
SeenIds = List (ℕ × Label)

unfoldable pub lookup : ℕ → SeenIds → Option Label
lookup id [] = none
lookup id ((n, who) ∷ seen) = if nat_eq n id then some who else lookup id seen

unfoldable pub report_duplicate : Option Label → Label → String → ℕ → Check (Unit {0})
report_duplicate none label key id = pure tt
report_duplicate (some who) label key id = report label (duplicate_id key id who)

unfoldable pub note_id : List IdRange → String → Label → Label → Option ℕ → SeenIds → Check SeenIds
unfolding lookup report_duplicate
note_id ranges key label who none seen = pure seen
note_id ranges key label who (some id) seen = do
  report_duplicate (lookup id seen) label key id
  validate_id_in_freeipa_ranges id key label ranges
  pure ((id, who) ∷ seen)

pub record Seen : Type 0 where
  pub known : List String
  pub ids : SeenIds

-- what a group with a name adds to the names and IDs seen
unfoldable pub add_group : List IdRange → Label → String → Option ℕ → Seen → Check Seen
unfolding note_id
add_group ranges label name gid s = if name == "" then pure s else do
  report_if (contains s.known name) label (duplicate_group name)
  ids ← note_id ranges "gid" label (place name) gid s.ids
  pure (record { known = name ∷ s.known; ids = ids })

unfoldable pub check_group_fields : List IdRange → Label → Fields → Seen → Check Seen
unfolding add_group
check_group_fields ranges label fields s = do
  name ← required_string fields "name" label
  gid ← validate_uid_gid (get fields "gid") "gid" label
  reject_secret_values fields label
  add_group ranges label name gid s

unfoldable pub check_group : List IdRange → ℕ → Value → Seen → Check Seen
unfolding as_dict check_group_fields
check_group ranges index group s = elim (as_dict group) [
  | none ↦ do report (row "groups" index) not_mapping; pure s
  | some fields ↦ check_group_fields ranges (row "groups" index) fields s
]

-- `isinstance(v, str) and v.startswith("/")`
unfoldable pub is_absolute : Value → Bool
unfolding as_str
is_absolute v = elim (as_str v) [ none ↦ false | some s ↦ starts_with s "/" ]

is_null : Value → Bool
is_null null = true
is_null _ = false

required_strings : List String → Fields → Label → Check (Unit {0})
required_strings [] fields label = pure tt
required_strings (key ∷ rest) fields label = do
  _ ← required_string fields key label
  required_strings rest fields label

abbrev floating_home_keys : List String
floating_home_keys =
    "provider" ∷ "site" ∷ "server" ∷ "export_path" ∷ "mount_path" ∷ "protocol" ∷ "status" ∷ []

check_server_ip : Option String → Label → Check (Unit {0})
check_server_ip none label = report label (missing_string "server_ip")
check_server_ip (some s) label =
    if is_blank (str s)
    then report label (missing_string "server_ip")
    else report_if (not (is_ip_address s)) label (invalid_address "server_ip" s)

check_mount_path : Fields → Label → String → Check (Unit {0})
unfolding as_str
check_mount_path home label key = elim (as_str (get home key)) [
  | none ↦ pure tt
  | some s ↦ report_if (not (s == "") && not (starts_with s "/")) label (not_absolute key)
]

mounts_differ : Option String → Option String → Bool
mounts_differ (some directory) (some mount) = not (mount == directory)
mounts_differ _ _ = false

check_floating_home : Value → Label → Fields → Check (Unit {0})
unfolding required_strings check_server_ip check_mount_path mounts_differ as_str
check_floating_home directory label home = do
  reject_secret_values home label
  required_strings floating_home_keys home label
  check_server_ip (as_str (get home "server_ip")) label
  check_mount_path home label "export_path"
  check_mount_path home label "mount_path"
  report_if (mounts_differ (as_str directory) (as_str (get home "mount_path"))) label mount_mismatch
  if has_key home "nfs_options"
      then validate_string_list (get home "nfs_options") "nfs_options" label
      else pure tt

unfoldable pub validate_floating_home : Fields → Label → Check (Unit {0})
unfolding is_null is_absolute check_floating_home as_dict
validate_floating_home account label = do
  report_if
      (not (is_null (get account "home_directory"))
        && not (is_absolute (get account "home_directory")))
      label (not_absolute "home_directory")
  if is_null (get account "floating_home")
      then pure tt
      else elim (as_dict (get account "floating_home")) [
        | none ↦ report (inside label "floating_home") not_mapping
        | some home ↦
            check_floating_home (get account "home_directory") (inside label "floating_home") home
      ]

-- `for ... in v`, where a `TypeError` ends the run
unfoldable pub each : Value → Check (List Value)
unfolding iterate
each v = elim (iterate v) [ none ↦ none | some items ↦ pure items ]

unfoldable pub note_name : String → Label → List String → Check (List String)
note_name name label known =
    if name == ""
    then pure known
    else do report_if (contains known name) label (duplicate_account name); pure (name ∷ known)

-- what follows the name and the ID in the account loop
unfoldable pub check_account_refs : List String → Label → String → Fields → Check (Unit {0})
unfolding each
check_account_refs groups label primary_group account = do
  report_if (not (primary_group == "") && not (contains groups primary_group)) label
      (unknown_group "primary_group" primary_group)
  refs ← each (get_or account "groups" empty_list or_value empty_list)
  validate_group_refs refs groups "groups" label
  validate_floating_home account label
  check_vault account "password_var" label
  check_vault account "bind_password_var" label

unfoldable pub check_account_fields :
    List IdRange → List String → Label → Fields → Seen → Check Seen
unfolding note_name note_id check_account_refs
check_account_fields ranges groups label fields s = do
  name ← required_string fields "name" label
  uid ← validate_uid_gid (get fields "uid") "uid" label
  primary_group ← required_string fields "primary_group" label
  reject_secret_values fields label
  known ← note_name name label s.known
  ids ← note_id ranges "uid" label (owner name label) uid s.ids
  check_account_refs groups label primary_group fields
  pure (record { known = known; ids = ids })

unfoldable pub check_account : List IdRange → List String → String → ℕ → Value → Seen → Check Seen
unfolding as_dict check_account_fields
check_account ranges groups collection index account s = elim (as_dict account) [
  | none ↦ do report (row collection index) not_mapping; pure s
  | some fields ↦ check_account_fields ranges groups (row collection index) fields s
]

abbrev pub builtin_hostgroups : List String
builtin_hostgroups =
    "linux-workstations" ∷ "linux-servers" ∷ "aaa-first-linux-client" ∷ "automation-admin" ∷ []

unfoldable pub check_host : List String → ℕ → Value → Unit {0} → Check (Unit {0})
unfolding as_dict each
check_host groups index host _ = elim (as_dict host) [
  | none ↦ report (row "host_enrollments" index) not_mapping
  | some fields ↦ do
    _ ← required_string fields "name" (row "host_enrollments" index)
    _ ← required_string fields "fqdn" (row "host_enrollments" index)
    _ ← required_string fields "netbox_device" (row "host_enrollments" index)
    refs ← each (get_or fields "hostgroups" empty_list or_value empty_list)
    validate_group_refs refs (groups ++ builtin_hostgroups) "hostgroups"
        (row "host_enrollments" index)
    check_vault fields "enrollment_secret_var" (row "host_enrollments" index)
    reject_secret_values fields (row "host_enrollments" index)
]

-- `role is not None and role not in known_groups`; a list or a mapping cannot be looked up in a set
unfoldable pub check_role : List String → Label → String → Value → Check (Unit {0})
check_role groups label key null = pure tt
check_role groups label key (str s) =
    report_if (not (contains groups s)) label (unknown_role key (str s))
check_role groups label key (list _) = none
check_role groups label key (dict _) = none
check_role groups label key v = report label (unknown_role key v)

-- `{k: v for k, v in row.items() if k != key}`
unfoldable pub without : String → Fields → Fields
without key end = end
without key (field k v fs) = let rest = without key fs in if k == key then rest else field k v rest

unfoldable pub check_client : List String → ℕ → Value → Unit {0} → Check (Unit {0})
unfolding as_dict check_role without is_vault
check_client groups index client _ = elim (as_dict client) [
  | none ↦ report (row "radius_clients" index) not_mapping
  | some fields ↦ do
    _ ← required_string fields "name" (row "radius_clients" index)
    _ ← required_string fields "netbox_device" (row "radius_clients" index)
    ipaddr ← required_string fields "ipaddr" (row "radius_clients" index)
    report_if (not (ipaddr == "") && not (is_ip_address ipaddr)) (row "radius_clients" index)
        (invalid_address "ipaddr" ipaddr)
    report_if (has_key fields "shared_secret") (row "radius_clients" index) shared_secret_used
    report_if (not (is_vault (get fields "shared_secret_var"))) (row "radius_clients" index)
        (not_vault "shared_secret_var")
    check_role groups (row "radius_clients" index) "access_role" (get fields "access_role")
    check_role groups (row "radius_clients" index) "readonly_role" (get fields "readonly_role")
    reject_secret_values (without "shared_secret" fields) (row "radius_clients" index)
]
