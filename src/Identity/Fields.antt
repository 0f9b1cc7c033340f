-- ===== src/Identity/Fields.antt =====
-- The field checks of scripts/validate_identity_source.py.
use rfc_codex_gentoo_stage.Prelude.{
  pos, ℕ, suc, String, Bool, true, false, not, ◌&&◌, Option, none, some, List, [], ◌∷◌, ◌==◌,
  starts_with, if◌then◌else◌,
}
use rfc_codex_gentoo_stage.Text.{strip}
use rfc_codex_gentoo_stage.Value.{Value, bool, int, Fields, get, has_key, as_list, as_str}
use rfc_codex_gentoo_stage.Identity.Check.{
  Label, missing_string, not_positive, plaintext_secret, not_list, not_string, unknown_group,
  not_vault, Check, pure, report, report_if, scan, ◌>>◌,
}

-- `not isinstance(v, str) or not v.strip()`
unfoldable pub is_blank : Value → Bool
unfolding strip as_str
is_blank v = elim (as_str v) [ none ↦ true | some s ↦ strip s == "" ]

unfoldable pub required_string : Fields → String → Label → Check String
unfolding strip as_str
required_string row key label = elim (as_str (get row key)) [
  | none ↦ do report label (missing_string key); pure ""
  | some s ↦
      if strip s == "" then (do report label (missing_string key); pure "") else pure (strip s)
]

-- A Python `bool` is an `int`: `True` passes as 1.
unfoldable pub positive_int : Value → Option ℕ
positive_int (int (pos (suc n))) = some (suc n)
positive_int (bool true) = some 1
positive_int _ = none

unfoldable pub validate_uid_gid : Value → String → Label → Check (Option ℕ)
unfolding positive_int
validate_uid_gid value key label = elim (positive_int value) [
  | none ↦ do report label (not_positive key); pure none
  | some n ↦ pure (some n)
]

-- `sorted(forbidden)`
abbrev pub forbidden : List String
forbidden =
    "api_token" ∷ "bind_password" ∷ "password" ∷ "password_hash" ∷ "secret" ∷ "shared_secret"
    ∷ "token" ∷ []

unfoldable pub reject_keys : List String → Fields → Label → Check (Unit {0})
reject_keys [] row label = pure tt
reject_keys (key ∷ rest) row label = do
  report_if (has_key row key) label (plaintext_secret key)
  reject_keys rest row label

unfoldable pub reject_secret_values : Fields → Label → Check (Unit {0})
unfolding reject_keys
reject_secret_values row label = reject_keys forbidden row label

-- `x in names`, for a set of names
unfoldable pub contains : List String → String → Bool
contains [] x = false
contains (y ∷ ys) x = if y == x then true else contains ys x

unfoldable pub check_group_ref :
    List String → String → Label → ℕ → Value → Unit {0} → Check (Unit {0})
unfolding contains is_blank strip as_str
check_group_ref known key label index group _ = elim (as_str group) [
  | none ↦ report label (not_string key index)
  | some name ↦
      if strip name == ""
      then report label (not_string key index)
      else report_if (not (contains known name)) label (unknown_group key name)
]

unfoldable pub validate_group_refs : List Value → List String → String → Label → Check (Unit {0})
unfolding scan check_group_ref
validate_group_refs refs known key label = scan (check_group_ref known key label) 0 refs tt

check_string_item : String → Label → ℕ → Value → Unit {0} → Check (Unit {0})
unfolding is_blank
check_string_item key label index item _ = report_if (is_blank item) label (not_string key index)

unfoldable pub validate_string_list : Value → String → Label → Check (Unit {0})
unfolding scan as_list check_string_item
validate_string_list value key label = elim (as_list value) [
  | none ↦ report label (not_list key)
  | some items ↦ scan (check_string_item key label) 0 items tt
]

-- `isinstance(v, str) and v.startswith("vault_")`
unfoldable pub is_vault : Value → Bool
unfolding as_str
is_vault v = elim (as_str v) [ none ↦ false | some s ↦ starts_with s "vault_" ]

-- `if key in row and (not a vault_* reference): errors.append(...)`
unfoldable pub check_vault : Fields → String → Label → Check (Unit {0})
unfolding is_vault
check_vault row key label =
    report_if (has_key row key && not (is_vault (get row key))) label (not_vault key)
