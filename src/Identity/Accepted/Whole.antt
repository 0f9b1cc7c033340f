-- ===== src/Identity/Accepted/Whole.antt =====
-- The whole validation: an accepted document reads as a consistent directory.
use rfc_codex_gentoo_stage.Prelude.{
  String, true, not, Option, none, some, List, [], ◌∷◌, ◌++◌, ◌≡◌, ap, arith, All, Unique,
}
use rfc_codex_gentoo_stage.Value.{
  Value, Fields, get, get_or, as_dict, iterate, ◌or_value◌, empty_dict,
}
use rfc_codex_gentoo_stage.Identity.Check.{place, report_if, scan, bad_version}
use rfc_codex_gentoo_stage.Identity.Fields.{required_string, contains}
use rfc_codex_gentoo_stage.Identity.Ranges.{IdRange}
use rfc_codex_gentoo_stage.Identity.Rows.{Seen, each, check_group, check_account}
use rfc_codex_gentoo_stage.Identity.Source.{
  is_version_one, policy_of, nothing_seen, check_header, check_rows,
}
use rfc_codex_gentoo_stage.Identity.Clean.{
  Clean, Chain, Chain-append, read_all, >>=-Clean, pure-Clean, scan-Clean,
}
use rfc_codex_gentoo_stage.Identity.Directory.{
  Group, Account, read_policy, read_group, read_account, Apart,
}
use rfc_codex_gentoo_stage.Identity.Accepted.Rows.{
  GroupJoins, AccountJoins, JoinsWithGroup, check_group-Clean, check_account-Clean,
}
use rfc_codex_gentoo_stage.Identity.Accepted.Ranges.{range_names}
use rfc_codex_gentoo_stage.Identity.Accepted.Collect.{collect-Clean}

policy_of-Clean : (o : Option Fields) (p : Fields) → Clean (policy_of o) p → o ≡ some p
unfolding policy_of
policy_of-Clean none p h = cc
policy_of-Clean (some q) p h = ap some (pure-Clean q p h)

pub each-Clean : (v : Value) (vs : List Value) → Clean (each v) vs → iterate v ≡ some vs
unfolding each
each-Clean v vs h = ground arith

pub header-Clean :
    (source : Fields) (ranges : List IdRange)
    → Clean (check_header source) ranges
    → (read_policy (as_dict (get_or source "uid_gid_policy" empty_dict or_value empty_dict))
        ≡ some ranges)
      × Unique (range_names ranges)
      × Apart ranges
unfolding check_header
header-Clean source ranges h =
    let root = place "identity_source_definition" in
    let (_, _, h1) =
      >>=-Clean (report_if (not (is_version_one (get source "version"))) root bad_version) _ h in
    let (_, _, h2) = >>=-Clean (required_string source "realm" root) _ h1 in
    let (_, _, h3) = >>=-Clean (required_string source "domain" root) _ h2 in
    let (policy, found, h4) =
      >>=-Clean
        (policy_of (as_dict (get_or source "uid_gid_policy" empty_dict or_value empty_dict))) _
        h3 in
    let (read, unique, apart) = collect-Clean policy ranges h4 in
    (rw (policy_of-Clean _ policy found) read, unique, apart)

module _ (ranges : List IdRange) (groups : List String) where
  -- the accounts' chain without the primary groups, and the primary groups alone
  pub accounts-Chain :
      (xs : List Account) (s t : Seen)
      → Chain (JoinsWithGroup ranges groups) xs s t
      → Chain (AccountJoins ranges) xs s t × All (λ a. contains groups a.primary_group ≡ true) xs
  accounts-Chain [] s t c = (c, tt)
  accounts-Chain (x ∷ xs) s t (u, j, c) =
      let (chain, grouped) = accounts-Chain xs u t c in ((u, j.joins, chain), (j.grouped, grouped))

-- What the rows of the five collections read as.
pub record RowsRead (ranges : List IdRange) (groups users services : List Value) : Type 0 where
  pub read_groups : List Group
  pub read_users : List Account
  pub read_services : List Account
  pub groups_read : read_all read_group groups ≡ some read_groups
  pub users_read : read_all read_account users ≡ some read_users
  pub services_read : read_all read_account services ≡ some read_services
  pub known : Seen
  pub groups_chain : Chain (GroupJoins ranges) read_groups nothing_seen known
  pub last : Seen
  pub account_chain :
      Chain (JoinsWithGroup ranges known.known) (read_users ++ read_services) nothing_seen last

pub rows-Clean :
    (ranges : List IdRange) (groups users services hosts clients : List Value) (u : Unit {0})
    → Clean (check_rows ranges groups users services hosts clients) u
    → RowsRead ranges groups users services
unfolding check_rows
rows-Clean ranges groups users services hosts clients u h =
    let (s, first, h1) = >>=-Clean (scan (check_group ranges) 0 groups nothing_seen) _ h in
    let (v, second, h2) =
      >>=-Clean (scan (check_account ranges s.known "users") 0 users nothing_seen) _ h1 in
    let (w, third, h3) =
      >>=-Clean (scan (check_account ranges s.known "service_accounts") 0 services v) _ h2 in
    let (gs, rg, cg) =
      scan-Clean (GroupJoins ranges) read_group (check_group ranges) (check_group-Clean ranges) 0
        groups nothing_seen s first in
    let (us, ru, cu) =
      scan-Clean (JoinsWithGroup ranges s.known) read_account (check_account ranges s.known "users")
        (check_account-Clean ranges s.known "users") 0 users nothing_seen v second in
    let (ss, rs, cs) =
      scan-Clean (JoinsWithGroup ranges s.known) read_account
        (check_account ranges s.known "service_accounts")
        (check_account-Clean ranges s.known "service_accounts") 0 services v w third in
    record {
      read_groups = gs;
      read_users = us;
      read_services = ss;
      groups_read = rg;
      users_read = ru;
      services_read = rs;
      known = s;
      groups_chain = cg;
      last = w;
      account_chain = Chain-append _ us ss nothing_seen v w cu cs;
    }
