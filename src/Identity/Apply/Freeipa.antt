-- ===== src/Identity/Apply/Freeipa.antt =====
-- `apply_freeipa` of scripts/apply_identity_sync_plan.py.
use rfc_codex_gentoo_stage.Prelude.{
  ℕ, ℤ, ◌+◌, String, Bool, true, false, Option, none, some, List, [], ◌∷◌, ◌++◌, map, ◌==◌, eq_ℤ,
  if◌then◌else◌,
}
use rfc_codex_gentoo_stage.Text.{concat}
use rfc_codex_gentoo_stage.Value.{Value, null, bool, int, str, to_int, as_str, iterate, is_truthy}
use rfc_codex_gentoo_stage.Identity.Plan.{Plan, PlanGroup, PlanUser, PlanHost}
use rfc_codex_gentoo_stage.Identity.Apply.Run.{
  Machine, Options, Apply, Result, ok, err, uncaught, pure, raise, or_raise, ◌>>=◌, run_command,
  succeeded, strict, unchecked, members_allowed, modifications_optional, ◌>>◌,
}
use rfc_codex_gentoo_stage.Identity.Apply.Env.{
  show, resolve_list_var, require_ids_within_local_idrange, ensure_freeipa_local_idranges,
}

-- `for x in v`; what cannot be iterated raises
abbrev pub each : Value → Apply (List Value)
each v = or_raise (iterate v) uncaught

abbrev pub lift : {A : Type 0} → Result A → Apply A
lift (ok a) = pure a
lift (err e) = raise e

abbrev pub int_eq : Option ℤ → Option ℤ → Bool
int_eq (some a) (some b) = eq_ℤ a b
int_eq _ _ = false

-- Are the two values one key of a `dict`? A list or a mapping cannot be a key at all.
unfoldable pub same_key : Value → Value → Bool
unfolding to_int
same_key (str a) (str b) = a == b
same_key null null = true
same_key (int a) (int b) = eq_ℤ a b
same_key (int a) (bool b) = int_eq (some a) (to_int (bool b))
same_key (bool a) (bool b) = int_eq (to_int (bool a)) (to_int (bool b))
same_key (bool a) (int b) = int_eq (to_int (bool a)) (some b)
same_key _ _ = false

-- `group_gids[name]`; of two groups with one name the later counts
unfoldable pub gid_of : Value → List PlanGroup → Option Value
unfolding same_key
gid_of name [] = none
gid_of name (g ∷ gs) = elim (gid_of name gs) [
  | some gid ↦ some gid
  | none ↦ if same_key g.name name then some g.gid else none
]

module _ (machine : Machine) (options : Options) where
  abbrev pub flag : String → Value → String
  flag prefix v = concat (prefix ∷ show machine v ∷ [])

  -- one command of the `ipa` program
  abbrev pub ipa : List String → List String
  ipa args = options.ipa_command ∷ args

  unfoldable pub ipa_exists : String → Value → Apply Bool
  unfolding concat
  ipa_exists kind name = do
    result ←
        run_command machine options (ipa (concat (kind ∷ "-show" ∷ []) ∷ show machine name ∷ []))
          unchecked
    pure (succeeded result)

  -- the command that changes what exists, or the one that adds it
  unfoldable pub change_or_add : Bool → List String → List String → Apply (Unit {0})
  change_or_add true change add = do
    _ ← run_command machine options (ipa change) modifications_optional
    pure tt
  change_or_add false change add = do _ ← run_command machine options (ipa add) strict; pure tt

  unfoldable pub apply_group : PlanGroup → Apply ℕ
  unfolding ipa_exists change_or_add
  apply_group g = do
    exists ← ipa_exists "group" g.name
    let args = show machine g.name ∷ flag "--gid=" g.gid ∷ flag "--desc=" g.description ∷ []
    change_or_add exists ("group-mod" ∷ args) ("group-add" ∷ args)
    pure 1

  unfoldable pub apply_groups : List PlanGroup → Apply ℕ
  unfolding apply_group
  apply_groups [] = pure 0
  apply_groups (g ∷ gs) = do n ← apply_group g; rest ← apply_groups gs; pure (n + rest)

  abbrev pub build_user_home_args : PlanUser → List String
  build_user_home_args user =
      if is_truthy user.home_directory then flag "--homedir=" user.home_directory ∷ [] else []

  unfoldable pub collect_keys : List Value → Apply (List String)
  unfolding resolve_list_var as_str
  collect_keys [] = pure []
  collect_keys (var ∷ vars) = do
    name ← or_raise (as_str var) uncaught
    keys ← resolve_list_var machine name true
    rest ← collect_keys vars
    pure (keys ++ rest)

  unfoldable pub add_keys : PlanUser → List String → Apply ℕ
  unfolding concat
  add_keys user [] = pure 0
  add_keys user (key ∷ keys) = do
    _ ←
        run_command machine options
          (ipa (
            "user-mod"
            ∷ show machine user.name
            ∷ map (λ k. concat ("--sshpubkey=" ∷ k ∷ [])) (key ∷ keys)))
          modifications_optional
    pure 1

  unfoldable pub join_groups : PlanUser → List Value → Apply ℕ
  join_groups user [] = pure 0
  join_groups user (group ∷ groups) = do
    _ ←
        run_command machine options
          (ipa ("group-add-member" ∷ show machine group ∷ flag "--users=" user.name ∷ []))
          members_allowed
    rest ← join_groups user groups
    pure (1 + rest)

  unfoldable pub apply_user : List PlanGroup → PlanUser → Apply ℕ
  unfolding gid_of ipa_exists change_or_add collect_keys add_keys join_groups iterate is_truthy
  apply_user all_groups user = do
    gid ← or_raise (gid_of user.primary_group all_groups) uncaught
    exists ← ipa_exists "user" user.name
    let ids =
        flag "--uid=" user.uid
        ∷ flag "--gidnumber=" gid
        ∷ flag "--shell=" user.shell
        ∷ build_user_home_args user
    change_or_add exists ("user-mod" ∷ show machine user.name ∷ ids) (
        "user-add"
        ∷ show machine user.name
        ∷ flag "--first=" user.name
        ∷ "--last=RFC1918"
        ∷ "--noprivate"
        ∷ ids)
    vars ← each user.ssh_public_key_vars
    keys ← collect_keys vars
    with_keys ← add_keys user keys
    groups ← each user.groups
    joined ← join_groups user groups
    pure (1 + with_keys + joined)

  unfoldable pub apply_users : List PlanGroup → List PlanUser → Apply ℕ
  unfolding apply_user
  apply_users all_groups [] = pure 0
  apply_users all_groups (u ∷ us) = do
    n ← apply_user all_groups u
    rest ← apply_users all_groups us
    pure (n + rest)

  unfoldable pub ensure_hostgroup : Bool → Value → Apply ℕ
  ensure_hostgroup true hostgroup = pure 0
  ensure_hostgroup false hostgroup = do
    _ ← run_command machine options (ipa ("hostgroup-add" ∷ show machine hostgroup ∷ [])) strict
    pure 1

  unfoldable pub join_hostgroups : PlanHost → List Value → Apply ℕ
  unfolding ipa_exists ensure_hostgroup
  join_hostgroups host [] = pure 0
  join_hostgroups host (hostgroup ∷ hostgroups) = do
    exists ← ipa_exists "hostgroup" hostgroup
    added ← ensure_hostgroup exists hostgroup
    _ ←
        run_command machine options
          (ipa ("hostgroup-add-member" ∷ show machine hostgroup ∷ flag "--hosts=" host.fqdn ∷ []))
          members_allowed
    rest ← join_hostgroups host hostgroups
    pure (added + 1 + rest)

  unfoldable pub apply_host : PlanHost → Apply ℕ
  unfolding ipa_exists change_or_add join_hostgroups iterate
  apply_host host = do
    exists ← ipa_exists "host" host.fqdn
    change_or_add exists ("host-mod" ∷ show machine host.fqdn ∷ flag "--desc=" host.name ∷ [])
        ("host-add" ∷ show machine host.fqdn ∷ "--force" ∷ flag "--desc=" host.name ∷ [])
    hostgroups ← each host.hostgroups
    joined ← join_hostgroups host hostgroups
    pure (1 + joined)

  unfoldable pub apply_hosts : List PlanHost → Apply ℕ
  unfolding apply_host
  apply_hosts [] = pure 0
  apply_hosts (h ∷ hs) = do n ← apply_host h; rest ← apply_hosts hs; pure (n + rest)

  unfoldable pub apply_freeipa : Plan → Apply ℕ
  unfolding require_ids_within_local_idrange ensure_freeipa_local_idranges apply_groups apply_users
      apply_hosts
  apply_freeipa plan = do
    lift (require_ids_within_local_idrange plan)
    ranges ← ensure_freeipa_local_idranges machine options plan
    groups ← apply_groups plan.freeipa_groups
    users ← apply_users plan.freeipa_groups plan.freeipa_users
    hosts ← apply_hosts plan.freeipa_host_enrollments
    pure (ranges + groups + users + hosts)
