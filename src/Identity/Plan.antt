-- ===== src/Identity/Plan.antt =====
-- scripts/render_identity_sync_plan.py: the plan that a source document renders to.
use rfc_codex_gentoo_stage.Prelude.{Option, none, some, List, [], ◌∷◌, ◌++◌, if◌then◌else◌}
use rfc_codex_gentoo_stage.Value.{
  Value, str, Fields, get_or, get_elem?, as_dict, as_list, iterate, is_truthy, ◌or_value◌,
  empty_list, empty_dict,
}
use rfc_codex_gentoo_stage.Identity.Source.{collection}
use rfc_codex_gentoo_stage.Identity.Clean.{read_all}

-- A chain of subscripts, calls and loops; `none` is the exception that one of them raises.
infixl 5 ◌>>=◌
abbrev ◌>>=◌ {ℓ κ} : {A : Type ℓ} {B : Type κ} → Option A → (A → Option B) → Option B
none >>= f = none
some a >>= f = f a

pub record PlanGroup : Type 0 where
  pub name : Value
  pub gid : Value
  pub description : Value

pub record PlanUser : Type 0 where
  pub name : Value
  pub uid : Value
  pub primary_group : Value
  pub groups : Value
  pub shell : Value
  pub home_directory : Value
  pub floating_home : Value
  pub ssh_public_key_vars : Value
  pub password_var : Value
  pub description : Value

pub record PlanServiceAccount : Type 0 where
  pub name : Value
  pub uid : Value
  pub primary_group : Value
  pub shell : Value
  pub bind_dn : Value
  pub bind_password_var : Value
  pub description : Value

pub record PlanHost : Type 0 where
  pub name : Value
  pub fqdn : Value
  pub netbox_device : Value
  pub hostgroups : Value
  pub enrollment_secret_var : Value
  pub status : Value

pub record PlanClient : Type 0 where
  pub name : Value
  pub shortname : Value
  pub ipaddr : Value
  pub netbox_device : Value
  pub device_group : Value
  pub access_role : Value
  pub readonly_role : Value
  pub nastype : Value
  pub shared_secret_var : Value
  pub break_glass_secret_ref : Value
  pub status : Value

pub record Plan : Type 0 where
  pub realm : Value
  pub domain : Value
  pub freeipa_local_idrange : Value
  pub freeipa_local_idranges : List Value
  pub freeipa_groups : List PlanGroup
  pub freeipa_users : List PlanUser
  pub freeipa_service_accounts : List PlanServiceAccount
  pub freeipa_host_enrollments : List PlanHost
  pub freeradius_clients : List PlanClient
  pub rollout_gates : Value

unfoldable pub group_fields : Fields → Option PlanGroup
unfolding get_elem?
group_fields group = do
  name ← get_elem? group "name"
  gid ← get_elem? group "gid"
  some (record { name = name; gid = gid; description = get_or group "description" (str "") })

unfoldable pub user_fields : Fields → Option PlanUser
unfolding get_elem?
user_fields user = do
  name ← get_elem? user "name"
  uid ← get_elem? user "uid"
  primary_group ← get_elem? user "primary_group"
  some (record {
    name = name;
    uid = uid;
    primary_group = primary_group;
    groups = get_or user "groups" empty_list or_value empty_list;
    shell = get_or user "shell" (str "/bin/bash");
    home_directory = get_or user "home_directory" (str "");
    floating_home = get_or user "floating_home" empty_dict or_value empty_dict;
    ssh_public_key_vars = get_or user "ssh_public_key_vars" empty_list or_value empty_list;
    password_var = get_or user "password_var" (str "");
    description = get_or user "description" (str "");
  })

unfoldable pub service_account_fields : Fields → Option PlanServiceAccount
unfolding get_elem?
service_account_fields account = do
  name ← get_elem? account "name"
  uid ← get_elem? account "uid"
  primary_group ← get_elem? account "primary_group"
  some (record {
    name = name;
    uid = uid;
    primary_group = primary_group;
    shell = get_or account "shell" (str "/sbin/nologin");
    bind_dn = get_or account "bind_dn" (str "");
    bind_password_var = get_or account "bind_password_var" (str "");
    description = get_or account "description" (str "");
  })

unfoldable pub host_fields : Fields → Option PlanHost
unfolding get_elem?
host_fields host = do
  name ← get_elem? host "name"
  fqdn ← get_elem? host "fqdn"
  netbox_device ← get_elem? host "netbox_device"
  some (record {
    name = name;
    fqdn = fqdn;
    netbox_device = netbox_device;
    hostgroups = get_or host "hostgroups" empty_list or_value empty_list;
    enrollment_secret_var = get_or host "enrollment_secret_var" (str "");
    status = get_or host "status" (str "planned");
  })

unfoldable pub client_fields : Fields → Option PlanClient
unfolding get_elem?
client_fields client = do
  name ← get_elem? client "name"
  ipaddr ← get_elem? client "ipaddr"
  netbox_device ← get_elem? client "netbox_device"
  shared_secret_var ← get_elem? client "shared_secret_var"
  some (record {
    name = name;
    shortname = get_or client "shortname" name;
    ipaddr = ipaddr;
    netbox_device = netbox_device;
    device_group = get_or client "device_group" (str "");
    access_role = get_or client "access_role" (str "");
    readonly_role = get_or client "readonly_role" (str "");
    nastype = get_or client "nastype" (str "other");
    shared_secret_var = shared_secret_var;
    break_glass_secret_ref = get_or client "break_glass_secret_ref" (str "");
    status = get_or client "status" (str "planned");
  })

-- a row of a collection, which has to be a mapping to be subscripted
module _ {X : Type 0} (fields : Fields → Option X) where
  abbrev pub row : Value → Option X
  row v = as_dict v >>= fields

  unfoldable pub each_row : Value → Option (List X)
  each_row collection = iterate collection >>= read_all row

unfoldable pub primary_of : Value → List Value
unfolding is_truthy
primary_of idrange = if is_truthy idrange then idrange ∷ [] else []

-- the list that stands behind the primary range; adding anything else to a list is a `TypeError`
unfoldable pub local_idranges : Fields → Option (List Value)
unfolding primary_of as_list
local_idranges policy = do
  additional ←
      as_list (get_or policy "additional_freeipa_local_idranges" empty_list or_value empty_list)
  some (
      primary_of (get_or policy "freeipa_local_idrange" empty_dict or_value empty_dict)
      ++ additional)

unfoldable pub render_identity_sync_plan : Fields → Option Plan
unfolding local_idranges each_row collection get_elem? as_dict
render_identity_sync_plan source = do
  policy ← as_dict (get_or source "uid_gid_policy" empty_dict or_value empty_dict)
  idranges ← local_idranges policy
  realm ← get_elem? source "realm"
  domain ← get_elem? source "domain"
  groups ← each_row group_fields (collection source "groups")
  users ← each_row user_fields (collection source "users")
  accounts ← each_row service_account_fields (collection source "service_accounts")
  hosts ← each_row host_fields (collection source "host_enrollments")
  clients ← each_row client_fields (collection source "radius_clients")
  some (record {
    realm = realm;
    domain = domain;
    freeipa_local_idrange = get_or policy "freeipa_local_idrange" empty_dict or_value empty_dict;
    freeipa_local_idranges = idranges;
    freeipa_groups = groups;
    freeipa_users = users;
    freeipa_service_accounts = accounts;
    freeipa_host_enrollments = hosts;
    freeradius_clients = clients;
    rollout_gates = get_or source "rollout_gates" empty_list or_value empty_list;
  })
