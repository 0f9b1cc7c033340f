-- ===== src/Identity/Apply/Invariant.antt =====
-- Invariants along the whole application of a plan in scripts/apply_identity_sync_plan.py.
use rfc_codex_gentoo_stage.Prelude.{String, Bool, true, false, Option, none, some, List, [], ◌∷◌}
use rfc_codex_gentoo_stage.Value.{Value}
use rfc_codex_gentoo_stage.Identity.Plan.{Plan, PlanGroup, PlanUser, PlanHost, PlanClient}
use rfc_codex_gentoo_stage.Identity.Apply.Run.{
  Machine, Options, Argv, Run, Event, plan_event, apply_start, write_event, apply_complete, Apply,
  Tolerance, run_command, audit_event,
}
use rfc_codex_gentoo_stage.Identity.Apply.Env.{
  value_or, IdRangeSettings, resolve_env_var, resolve_list_var, parsed_list, settings_of,
  add_idrange, compare_idrange, ensure_one_freeipa_local_idrange, ensure_each,
  ensure_freeipa_local_idranges,
}
use rfc_codex_gentoo_stage.Identity.Apply.Freeipa.{
  ipa_exists, change_or_add, apply_group, apply_groups, collect_keys, add_keys, join_groups,
  apply_user, apply_users, ensure_hostgroup, join_hostgroups, apply_host, apply_hosts,
  apply_freeipa,
}
use rfc_codex_gentoo_stage.Identity.Apply.Freeradius.{
  all_client_lines, render_freeradius_clients, replace_file, apply_freeradius,
}
use rfc_codex_gentoo_stage.Identity.Apply.Keeps.{
  Keeps, Keeps-pure, Keeps-bind, Keeps-or_raise, keeps_rules,
}

-- An event that records no command.
abbrev pub IsPlain : Event → Type 0
IsPlain (plan_event _ _) = Unit
IsPlain (apply_start _) = Unit
IsPlain (write_event _) = Unit
IsPlain (apply_complete _) = Unit
IsPlain _ = ⊥

pub record Kept (machine : Machine) (options : Options) (P : Run → Type 0) : Type 0 where
  pub command : (argv : Argv) (t : Tolerance) → Keeps P (run_command machine options argv t)
  pub event : (e : Event) → IsPlain e → Keeps P (audit_event options e)
  pub file : (path content : String) → Keeps P (replace_file path content)

module _ (machine : Machine) (options : Options) (P : Run → Type 0)
    (kept : Kept machine options P) where
  value_or-Keeps : (o : Option String) (m : Apply String) → Keeps P m → Keeps P (value_or o m)
  value_or-Keeps none m k = k
  value_or-Keeps (some v) m k = Keeps-pure v

  resolve_env_var-Keeps :
      (name : String) (required : Bool) → Keeps P (resolve_env_var machine name required)
  unfolding resolve_env_var
  resolve_env_var-Keeps name required = search (keeps_rules, value_or-Keeps)

  parsed_list-Keeps : (name : String) (o : Option (List String)) → Keeps P (parsed_list name o)
  unfolding parsed_list
  parsed_list-Keeps name none = search keeps_rules
  parsed_list-Keeps name (some texts) = search keeps_rules

  resolve_list_var-Keeps :
      (name : String) (required : Bool) → Keeps P (resolve_list_var machine name required)
  unfolding resolve_list_var
  resolve_list_var-Keeps name required =
      search (keeps_rules, resolve_env_var-Keeps, parsed_list-Keeps)

  settings_of-Keeps : (v : Value) → Keeps P (settings_of v)
  unfolding settings_of
  settings_of-Keeps v = search keeps_rules depth 14

  compare_idrange-Keeps : (name : Value) (ks : List String) → Keeps P (compare_idrange name ks)
  unfolding compare_idrange
  compare_idrange-Keeps name [] = search keeps_rules
  compare_idrange-Keeps name (k ∷ ks) = search keeps_rules

  add_idrange-Keeps : (r : IdRangeSettings) → Keeps P (add_idrange machine options r)
  unfolding add_idrange
  add_idrange-Keeps r = search (keeps_rules, kept.command)

  ensure_one-Keeps : (v : Value) → Keeps P (ensure_one_freeipa_local_idrange machine options v)
  unfolding ensure_one_freeipa_local_idrange
  ensure_one-Keeps v =
      search
        (keeps_rules, kept.command, settings_of-Keeps, compare_idrange-Keeps, add_idrange-Keeps)
        depth 8

  ensure_each-Keeps : (vs : List Value) → Keeps P (ensure_each machine options vs)
  unfolding ensure_each
  ensure_each-Keeps [] = search keeps_rules
  ensure_each-Keeps (v ∷ vs) =
      Keeps-bind _ _ (ensure_one-Keeps v)
        λ n. Keeps-bind _ _ (ensure_each-Keeps vs) λ rest. Keeps-pure _

  ipa_exists-Keeps : (kind : String) (name : Value) → Keeps P (ipa_exists machine options kind name)
  unfolding ipa_exists
  ipa_exists-Keeps kind name = search (keeps_rules, kept.command)

  change_or_add-Keeps :
      (exists : Bool) (change add : List String)
      → Keeps P (change_or_add machine options exists change add)
  unfolding change_or_add
  change_or_add-Keeps true change add = search (keeps_rules, kept.command)
  change_or_add-Keeps false change add = search (keeps_rules, kept.command)

  apply_group-Keeps : (g : PlanGroup) → Keeps P (apply_group machine options g)
  unfolding apply_group
  apply_group-Keeps g = search (keeps_rules, ipa_exists-Keeps, change_or_add-Keeps)

  apply_groups-Keeps : (gs : List PlanGroup) → Keeps P (apply_groups machine options gs)
  unfolding apply_groups
  apply_groups-Keeps [] = search keeps_rules
  apply_groups-Keeps (g ∷ gs) =
      Keeps-bind _ _ (apply_group-Keeps g)
        λ n. Keeps-bind _ _ (apply_groups-Keeps gs) λ rest. Keeps-pure _

  collect_keys-Keeps : (vars : List Value) → Keeps P (collect_keys machine options vars)
  unfolding collect_keys
  collect_keys-Keeps [] = search keeps_rules
  collect_keys-Keeps (v ∷ vs) = Keeps-bind _ _ (Keeps-or_raise _ _) λ name.
      Keeps-bind _ _ (resolve_list_var-Keeps name true)
        λ keys. Keeps-bind _ _ (collect_keys-Keeps vs) λ rest. Keeps-pure _

  add_keys-Keeps : (u : PlanUser) (ks : List String) → Keeps P (add_keys machine options u ks)
  unfolding add_keys
  add_keys-Keeps u [] = search keeps_rules
  add_keys-Keeps u (k ∷ ks) = search (keeps_rules, kept.command)

  join_groups-Keeps : (u : PlanUser) (vs : List Value) → Keeps P (join_groups machine options u vs)
  unfolding join_groups
  join_groups-Keeps u [] = search keeps_rules
  join_groups-Keeps u (v ∷ vs) =
      Keeps-bind _ _ (kept.command _ _)
        λ r. Keeps-bind _ _ (join_groups-Keeps u vs) λ rest. Keeps-pure _

  apply_user-Keeps :
      (gs : List PlanGroup) (u : PlanUser) → Keeps P (apply_user machine options gs u)
  unfolding apply_user
  apply_user-Keeps gs u =
      search
        (
          keeps_rules, ipa_exists-Keeps, change_or_add-Keeps, collect_keys-Keeps, add_keys-Keeps,
          join_groups-Keeps,
        )
        depth 20

  apply_users-Keeps :
      (gs : List PlanGroup) (us : List PlanUser) → Keeps P (apply_users machine options gs us)
  unfolding apply_users
  apply_users-Keeps gs [] = search keeps_rules
  apply_users-Keeps gs (u ∷ us) =
      Keeps-bind _ _ (apply_user-Keeps gs u)
        λ n. Keeps-bind _ _ (apply_users-Keeps gs us) λ rest. Keeps-pure _

  ensure_hostgroup-Keeps :
      (exists : Bool) (v : Value) → Keeps P (ensure_hostgroup machine options exists v)
  unfolding ensure_hostgroup
  ensure_hostgroup-Keeps true v = search keeps_rules
  ensure_hostgroup-Keeps false v = search (keeps_rules, kept.command)

  join_hostgroups-Keeps :
      (h : PlanHost) (vs : List Value) → Keeps P (join_hostgroups machine options h vs)
  unfolding join_hostgroups
  join_hostgroups-Keeps h [] = search keeps_rules
  join_hostgroups-Keeps h (v ∷ vs) = Keeps-bind _ _ (ipa_exists-Keeps "hostgroup" v) λ exists.
      Keeps-bind _ _ (ensure_hostgroup-Keeps exists v) λ added.
        Keeps-bind _ _ (kept.command _ _)
          λ r. Keeps-bind _ _ (join_hostgroups-Keeps h vs) λ rest. Keeps-pure _

  apply_host-Keeps : (h : PlanHost) → Keeps P (apply_host machine options h)
  unfolding apply_host
  apply_host-Keeps h =
      search (keeps_rules, ipa_exists-Keeps, change_or_add-Keeps, join_hostgroups-Keeps) depth 10

  apply_hosts-Keeps : (hs : List PlanHost) → Keeps P (apply_hosts machine options hs)
  unfolding apply_hosts
  apply_hosts-Keeps [] = search keeps_rules
  apply_hosts-Keeps (h ∷ hs) =
      Keeps-bind _ _ (apply_host-Keeps h)
        λ n. Keeps-bind _ _ (apply_hosts-Keeps hs) λ rest. Keeps-pure _

  pub apply_freeipa-Keeps : (plan : Plan) → Keeps P (apply_freeipa machine options plan)
  unfolding apply_freeipa ensure_freeipa_local_idranges
  apply_freeipa-Keeps plan =
      search
        (keeps_rules, ensure_each-Keeps, apply_groups-Keeps, apply_users-Keeps, apply_hosts-Keeps)
        depth 10

  all_client_lines-Keeps : (cs : List PlanClient) → Keeps P (all_client_lines machine cs)
  unfolding all_client_lines
  all_client_lines-Keeps [] = search keeps_rules
  all_client_lines-Keeps (c ∷ cs) = Keeps-bind _ _ (Keeps-or_raise _ _) λ var.
      Keeps-bind _ _ (resolve_env_var-Keeps var true)
        λ secret. Keeps-bind _ _ (all_client_lines-Keeps cs) λ rest. Keeps-pure _

  pub apply_freeradius-Keeps : (plan : Plan) → Keeps P (apply_freeradius machine options plan)
  unfolding apply_freeradius render_freeradius_clients
  apply_freeradius-Keeps plan =
      Keeps-bind _ _
        (Keeps-bind _ _ (all_client_lines-Keeps plan.freeradius_clients) λ lines. Keeps-pure _)
        λ content.
          Keeps-bind _ _ (kept.file _ _) λ _. kept.event (write_event options.freeradius_output) tt
