-- ===== src/Identity/Accepted/Consistent.antt =====
-- The accepted documents of scripts/validate_identity_source.py as directories.
use rfc_codex_gentoo_stage.Prelude.{
  Bool, true, false, ◌||◌, Option, some, List, ◌++◌, ◌≡◌, refl, sym, ◌∙◌, All-map, map, Unique,
}
use rfc_codex_gentoo_stage.Value.{Value, Fields}
use rfc_codex_gentoo_stage.Identity.Fields.{contains}
use rfc_codex_gentoo_stage.Identity.Ranges.{IdRange}
use rfc_codex_gentoo_stage.Identity.Rows.{each}
use rfc_codex_gentoo_stage.Identity.Source.{
  Accepts, collection, nothing_seen, check_header, check_rows, validate_identity_source,
}
use rfc_codex_gentoo_stage.Identity.Clean.{>>=-Clean}
use rfc_codex_gentoo_stage.Identity.Directory.{
  Group, Account, Directory, rows, read_rows, read_group, read_account, read_directory,
  directory_of, IsConsistent, Apart,
}
use rfc_codex_gentoo_stage.Identity.Accepted.Entries.{
  names_unique, ids_unique, All-IsCovered, Chain-known,
}
use rfc_codex_gentoo_stage.Identity.Accepted.Ranges.{range_names}
use rfc_codex_gentoo_stage.Identity.Accepted.Whole.{
  RowsRead, rows-Clean, header-Clean, each-Clean, accounts-Chain,
}

or_false : (a : Bool) → (a || false) ≡ a
or_false true = refl
or_false false = refl

module _ (ranges : List IdRange) (groups users services : List Value) where
  abbrev directory : RowsRead ranges groups users services → Directory
  directory r = record {
    ranges = ranges;
    groups = r.read_groups;
    users = r.read_users;
    service_accounts = r.read_services;
  }

  directory_read :
      (r : RowsRead ranges groups users services) (p : Option (List IdRange))
      (a b c : Option (List Value))
      → p ≡ some ranges
      → a ≡ some groups
      → b ≡ some users
      → c ≡ some services
      → directory_of p
          (read_rows read_group a)
          (read_rows read_account b)
          (read_rows read_account c)
        ≡ some (directory r)
  directory_read r p a b c ep ea eb ec =
      rw (ep, ea, eb, ec, r.groups_read, r.users_read, r.services_read)

  directory-IsConsistent :
      (r : RowsRead ranges groups users services)
      → Unique (range_names ranges)
      → Apart ranges
      → IsConsistent (directory r)
  unfolding contains
  directory-IsConsistent r unique apart =
      let xs = r.read_users ++ r.read_services in
      let (chain, grouped) =
        accounts-Chain ranges r.known.known xs nothing_seen r.last r.account_chain in
      record {
        range_names = unique;
        ranges_apart = apart;
        group_names_unique = names_unique _ _ ranges r.read_groups _ _ r.groups_chain;
        gids_unique = ids_unique _ _ ranges r.read_groups _ _ r.groups_chain;
        gids_covered = All-IsCovered _ _ ranges r.read_groups _ _ r.groups_chain;
        account_names_unique = names_unique _ _ ranges xs _ _ chain;
        uids_unique = ids_unique _ _ ranges xs _ _ chain;
        uids_covered = All-IsCovered _ _ ranges xs _ _ chain;
        primary_groups =
            All-map (λ (a : Account). contains r.known.known a.primary_group ≡ true)
              (λ (a : Account).
                contains (map (λ (g : Group). g.name) r.read_groups) a.primary_group ≡ true)
              xs
              (λ a h.
                sym (or_false _)
                ∙ sym (
                    Chain-known _ _ ranges r.read_groups nothing_seen r.known a.primary_group
                      r.groups_chain)
                ∙ h)
              grouped;
      }

-- A document that the validation accepts reads as a directory, row by row, and the directory is
-- consistent: range, group and account names are unique, GIDs are unique, UIDs are unique over users
-- and service accounts, no ID lies in two ranges, every GID and UID lies in a range if there are
-- any, and every primary group is a group of the document.
pub accepted-IsConsistent :
    (source : Fields)
    → Accepts source
    → (d : Directory) × (read_directory source ≡ some d) × IsConsistent d
unfolding validate_identity_source collection read_directory rows
accepted-IsConsistent source (counts, h) =
    let (ranges, header, h1) = >>=-Clean (check_header source) _ h in
    let (groups, e1, h2) = >>=-Clean (each (collection source "groups")) _ h1 in
    let (users, e2, h3) = >>=-Clean (each (collection source "users")) _ h2 in
    let (services, e3, h4) = >>=-Clean (each (collection source "service_accounts")) _ h3 in
    let (hosts, e4, h5) = >>=-Clean (each (collection source "host_enrollments")) _ h4 in
    let (clients, e5, h6) = >>=-Clean (each (collection source "radius_clients")) _ h5 in
    let (gates, e6, h7) = >>=-Clean (each (collection source "rollout_gates")) _ h6 in
    let (u, checked, last) =
      >>=-Clean (check_rows ranges groups users services hosts clients) _ h7 in
    let r = rows-Clean ranges groups users services hosts clients u checked in
    let (read, unique, apart) = header-Clean source ranges header in
    (
      directory ranges groups users services r,
      directory_read ranges groups users services r _ _ _ _ read (each-Clean _ groups e1)
          (each-Clean _ users e2) (each-Clean _ services e3),
      directory-IsConsistent ranges groups users services r unique apart,
    )
