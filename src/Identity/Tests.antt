-- ===== src/Identity/Tests.antt =====
-- Documents that the validation accepts and refuses, and the theorems at one of them.
use rfc_codex_gentoo_stage.Identity.Accepted.Secrets.{IsWithoutSecrets, accepted-IsWithoutSecrets}
use rfc_codex_gentoo_stage.Prelude.{pos, ℕ, some, [], ◌∷◌, ◌≡◌, refl, String}
use rfc_codex_gentoo_stage.Value.{
  get, has_key, ◌or_value◌, Value, int, str, list, dict, Items, nil, cons, Fields, end, field,
}
use rfc_codex_gentoo_stage.Ip.{is_ip_address}
use rfc_codex_gentoo_stage.Identity.Fields.{
  required_string, validate_uid_gid, reject_secret_values, contains, validate_group_refs,
  check_vault,
}
use rfc_codex_gentoo_stage.Identity.Ranges.{
  collect_freeipa_local_idranges, validate_freeipa_local_idrange, validate_id_in_freeipa_ranges,
}
use rfc_codex_gentoo_stage.Identity.Rows.{
  check_group, check_account, validate_floating_home, check_client, check_host,
}
use rfc_codex_gentoo_stage.Identity.Check.{
  row, place, duplicate_id, duplicate_group, plaintext_secret, unknown_group,
}
use rfc_codex_gentoo_stage.Identity.Source.{Accepts, validate_identity_source}
use rfc_codex_gentoo_stage.Identity.Directory.{Directory, read_directory, IsConsistent}
use rfc_codex_gentoo_stage.Identity.Accepted.Consistent.{accepted-IsConsistent}

abbrev pub num : ℕ → Value
num n = int (pos n)

abbrev pub group : String → ℕ → Value
group name gid = dict (field "name" (str name) (field "gid" (num gid) end))

abbrev pub account : String → ℕ → String → Value
account name uid primary = dict (
    field "name" (str name) (
      field "uid" (num uid) (
        field "primary_group" (str primary) (field "groups" (list (cons (str "admins") nil)) end))))

abbrev pub client : Value
client = dict (
    field "name" (str "switch") (
      field "netbox_device" (str "sw1")
        (field "ipaddr" (str "10.99.0.2") (field "shared_secret_var" (str "vault_sw1") end))))

abbrev pub idrange : Value
idrange = dict (
    field "name" (str "local") (
      field "base_id" (num 1000) (
        field "range_size" (num 500)
          (field "rid_base" (num 1) (field "secondary_rid_base" (num 100) end)))))

abbrev pub source_with : Items → Items → Fields
source_with groups users = field "version" (num 1) (
    field "realm" (str "RFC1918.HOST") (
      field "domain" (str "rfc1918.host") (
        field "uid_gid_policy" (dict (field "freeipa_local_idrange" idrange end)) (
          field "groups" (list groups) (
            field "users" (list users) (
              field "service_accounts" (list (cons (account "svc" 1003 "admins") nil))
                (field "radius_clients" (list (cons client nil)) end)))))))

abbrev pub small_source : Fields
small_source =
    source_with (cons (group "admins" 1001) (cons (group "ops" 1002) nil))
      (cons (account "eva" 1001 "ops") nil)

-- What a test by evaluation unfolds.
unfoldable pub running : Unit {0}
unfolding validate_identity_source get required_string ◌or_value◌ collect_freeipa_local_idranges
    validate_freeipa_local_idrange validate_uid_gid check_group reject_secret_values has_key
    contains validate_id_in_freeipa_ranges check_account validate_group_refs validate_floating_home
    check_vault check_client is_ip_address check_host
running = tt

pub small_source_accepted : Accepts small_source
unfolding running
small_source_accepted = (
  record {
    groups = 2;
    users = 1;
    service_accounts = 1;
    host_enrollments = 0;
    radius_clients = 1;
    rollout_gates = 0;
  },
  refl,
)

accepted-IsConsistent_example :
    (d : Directory) × (read_directory small_source ≡ some d) × IsConsistent d
accepted-IsConsistent_example = accepted-IsConsistent small_source small_source_accepted

-- Two groups with one name and one GID, and an account with a plaintext password in an unknown group.
refused_source_findings :
    validate_identity_source (
      source_with (cons (group "admins" 1001) (cons (group " admins " 1001) nil)) (
        cons
          (dict (
            field "name" (str "eva") (
              field "uid"
                (num 1001)
                (field "primary_group" (str "ops") (field "password" (str "x") end)))))
          nil))
    ≡ some (
      record {
        groups = 2;
        users = 1;
        service_accounts = 1;
        host_enrollments = 0;
        radius_clients = 1;
        rollout_gates = 0;
      },
      (row "groups" 1, duplicate_group "admins")
          ∷ (row "groups" 1, duplicate_id "gid" 1001 (place "admins"))
          ∷ (row "users" 0, plaintext_secret "password")
          ∷ (row "users" 0, unknown_group "primary_group" "ops")
          ∷ [],
    )
unfolding running
refused_source_findings = refl

accepted-IsWithoutSecrets_example : IsWithoutSecrets small_source
accepted-IsWithoutSecrets_example = accepted-IsWithoutSecrets small_source small_source_accepted
