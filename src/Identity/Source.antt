-- ===== src/Identity/Source.antt =====
-- `validate_identity_source` of scripts/validate_identity_source.py as a whole.
use rfc_codex_gentoo_stage.Prelude.{
  pos, ℕ, zero, suc, String, Bool, true, false, not, Option, none, some, List, [], length, ◌≡◌,
}
use rfc_codex_gentoo_stage.Value.{
  Value, bool, int, Fields, end, get, get_or, as_dict, ◌or_value◌, empty_list, empty_dict,
}
use rfc_codex_gentoo_stage.Identity.Check.{
  Label, place, not_mapping, bad_version, Check, pure, report, report_if, scan, ◌>>=◌, ◌>>◌,
}
use rfc_codex_gentoo_stage.Identity.Fields.{required_string}
use rfc_codex_gentoo_stage.Identity.Ranges.{IdRange, collect_freeipa_local_idranges}
use rfc_codex_gentoo_stage.Identity.Rows.{
  Seen, each, check_group, check_account, check_host, check_client,
}

pub record Counts : Type 0 where
  pub groups : ℕ
  pub users : ℕ
  pub service_accounts : ℕ
  pub host_enrollments : ℕ
  pub radius_clients : ℕ
  pub rollout_gates : ℕ

-- `source.get("version") == 1`; `True == 1` in Python
unfoldable pub is_version_one : Value → Bool
is_version_one (int (pos (suc zero))) = true
is_version_one (bool b) = b
is_version_one _ = false

unfoldable pub policy_of : Option Fields → Check Fields
policy_of none = do report (place "identity_source_definition.uid_gid_policy") not_mapping; pure end
policy_of (some policy) = pure policy

-- `source.get(key, []) or []`
unfoldable pub collection : Fields → String → Value
collection source key = get_or source key empty_list or_value empty_list

abbrev pub nothing_seen : Seen
nothing_seen = record { known = []; ids = [] }

abbrev root : Label
root = place "identity_source_definition"

unfoldable pub check_header : Fields → Check (List IdRange)
unfolding is_version_one policy_of as_dict
check_header source = do
  report_if (not (is_version_one (get source "version"))) root bad_version
  _ ← required_string source "realm" root
  _ ← required_string source "domain" root
  policy ← policy_of (as_dict (get_or source "uid_gid_policy" empty_dict or_value empty_dict))
  collect_freeipa_local_idranges policy

unfoldable pub check_rows :
    List IdRange → List Value → List Value → List Value → List Value → List Value → Check (Unit {0})
unfolding scan
check_rows ranges groups users accounts hosts clients = do
  s ← scan (check_group ranges) 0 groups nothing_seen
  u ← scan (check_account ranges s.known "users") 0 users nothing_seen
  _ ← scan (check_account ranges s.known "service_accounts") 0 accounts u
  scan (check_host s.known) 0 hosts tt
  scan (check_client s.known) 0 clients tt

unfoldable pub validate_identity_source : Fields → Check Counts
unfolding check_header check_rows collection each
validate_identity_source source = do
  ranges ← check_header source
  groups ← each (collection source "groups")
  users ← each (collection source "users")
  accounts ← each (collection source "service_accounts")
  hosts ← each (collection source "host_enrollments")
  clients ← each (collection source "radius_clients")
  gates ← each (collection source "rollout_gates")
  check_rows ranges groups users accounts hosts clients
  pure (record {
    groups = length groups;
    users = length users;
    service_accounts = length accounts;
    host_enrollments = length hosts;
    radius_clients = length clients;
    rollout_gates = length gates;
  })

-- `result.ok`, for a run that no exception ends
abbrev pub Accepts : Fields → Type 0
Accepts source = (counts : Counts) × (validate_identity_source source ≡ some (counts, []))
