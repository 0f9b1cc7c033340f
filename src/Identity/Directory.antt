-- ===== src/Identity/Directory.antt =====
-- What an identity source document says, read without any check: the specification that the
-- validation is held against.
use rfc_codex_gentoo_stage.Prelude.{
  ℕ, String, true, false, Option, none, some, List, [], ◌∷◌, ◌++◌, ◌≡◌, map, ◌==◌, if◌then◌else◌,
  ◌+◌, All, Unique,
}
use rfc_codex_gentoo_stage.Text.{strip}
use rfc_codex_gentoo_stage.Value.{
  Value, Fields, get, get_or, as_str, as_dict, as_list, iterate, is_truthy, has_key, ◌or_value◌,
  empty_list, empty_dict,
}
use rfc_codex_gentoo_stage.Identity.Fields.{positive_int, forbidden, contains}
use rfc_codex_gentoo_stage.Identity.Ranges.{IdRange, is_within, in_ranges}
use rfc_codex_gentoo_stage.Identity.Clean.{read_all}

pub record Group : Type 0 where
  pub name : String
  pub gid : ℕ

pub record Account : Type 0 where
  pub name : String
  pub uid : ℕ
  pub primary_group : String

-- A text that is not blank, without the spaces around it.
unfoldable pub read_text : Fields → String → Option String
unfolding as_str strip
read_text fields key = elim (as_str (get fields key)) [
  | none ↦ none
  | some s ↦ if strip s == "" then none else some (strip s)
]

abbrev pub group_of : Option String → Option ℕ → Option Group
group_of (some name) (some gid) = some (record { name = name; gid = gid })
group_of _ _ = none

unfoldable pub read_group : Value → Option Group
unfolding as_dict
read_group v = elim (as_dict v) [
  | none ↦ none
  | some row ↦ group_of (read_text row "name") (positive_int (get row "gid"))
]

abbrev pub account_of : Option String → Option ℕ → Option String → Option Account
account_of (some name) (some uid) (some group) =
    some (record { name = name; uid = uid; primary_group = group })
account_of _ _ _ = none

unfoldable pub read_account : Value → Option Account
unfolding as_dict
read_account v = elim (as_dict v) [
  | none ↦ none
  | some row ↦
      account_of (read_text row "name") (positive_int (get row "uid"))
        (read_text row "primary_group")
]

abbrev pub idrange_of : Option String → Option ℕ → Option ℕ → Option IdRange
idrange_of (some name) (some base) (some size) =
    some (record { name = name; base = base; limit = base + size })
idrange_of _ _ _ = none

unfoldable pub read_idrange : Value → Option IdRange
unfolding as_dict
read_idrange v = elim (as_dict v) [
  | none ↦ none
  | some row ↦
      idrange_of (read_text row "name") (positive_int (get row "base_id"))
        (positive_int (get row "range_size"))
]

abbrev pub one : Option IdRange → Option (List IdRange)
one none = none
one (some r) = some (r ∷ [])

-- The range of `freeipa_local_idrange`, if there is one.
unfoldable pub read_primary : Value → Option (List IdRange)
unfolding is_truthy
read_primary v = if is_truthy v then one (read_idrange v) else some []

abbrev pub read_items : Option (List Value) → Option (List IdRange)
read_items none = none
read_items (some items) = read_all read_idrange items

abbrev pub join : Option (List IdRange) → Option (List IdRange) → Option (List IdRange)
join (some xs) (some ys) = some (xs ++ ys)
join _ _ = none

-- All configured ranges.
unfoldable pub read_ranges : Fields → Option (List IdRange)
unfolding read_primary as_list
read_ranges policy =
    join (read_primary (get_or policy "freeipa_local_idrange" empty_dict or_value empty_dict)) (
      read_items (
        as_list (get_or policy "additional_freeipa_local_idranges" empty_list or_value empty_list)))

-- A row with none of the keys under which a plaintext secret would stand.
abbrev pub HasNoSecret : Value → Type 0
HasNoSecret v = (row : Fields) → as_dict v ≡ some row → All (λ k. has_key row k ≡ false) forbidden

-- With ranges configured, the ID lies in one of them.
abbrev pub IsCovered : List IdRange → ℕ → Type 0
IsCovered [] id = Unit
IsCovered (r ∷ rs) id = in_ranges id (r ∷ rs) ≡ true

-- The document, read.
pub record Directory : Type 0 where
  pub ranges : List IdRange
  pub groups : List Group
  pub users : List Account
  pub service_accounts : List Account

abbrev pub group_names : Directory → List String
group_names d = map (λ g. g.name) d.groups

abbrev pub accounts : Directory → List Account
accounts d = d.users ++ d.service_accounts

module _ {X : Type 0} (read : Value → Option X) where
  abbrev pub read_rows : Option (List Value) → Option (List X)
  read_rows none = none
  read_rows (some rows) = read_all read rows

-- The rows of a collection of the document.
unfoldable pub rows : Fields → String → Option (List Value)
unfolding iterate
rows source key = iterate (get_or source key empty_list or_value empty_list)

abbrev pub read_policy : Option Fields → Option (List IdRange)
read_policy none = none
read_policy (some policy) = read_ranges policy

abbrev pub directory_of :
    Option (List IdRange)
    → Option (List Group)
    → Option (List Account)
    → Option (List Account)
    → Option Directory
directory_of (some ranges) (some groups) (some users) (some accounts) =
    some (record { ranges = ranges; groups = groups; users = users; service_accounts = accounts })
directory_of _ _ _ _ = none

unfoldable pub read_directory : Fields → Option Directory
unfolding as_dict rows
read_directory source =
    directory_of
      (read_policy (as_dict (get_or source "uid_gid_policy" empty_dict or_value empty_dict)))
      (read_rows read_group (rows source "groups")) (read_rows read_account (rows source "users"))
      (read_rows read_account (rows source "service_accounts"))

-- No ID lies in two of the ranges.
abbrev pub Apart : List IdRange → Type 0
Apart [] = Unit
Apart (r ∷ rs) = All (λ o. (id : ℕ) → is_within id r ≡ true → is_within id o ≡ false) rs × Apart rs

pub record IsConsistent (d : Directory) : Type 0 where
  pub range_names : Unique (map (λ r. r.name) d.ranges)
  pub ranges_apart : Apart d.ranges
  pub group_names_unique : Unique (group_names d)
  pub gids_unique : Unique (map (λ g. g.gid) d.groups)
  pub gids_covered : All (λ g. IsCovered d.ranges g.gid) d.groups
  pub account_names_unique : Unique (map (λ a. a.name) (accounts d))
  pub uids_unique : Unique (map (λ a. a.uid) (accounts d))
  pub uids_covered : All (λ a. IsCovered d.ranges a.uid) (accounts d)
  pub primary_groups : All (λ a. contains (group_names d) a.primary_group ≡ true) (accounts d)
