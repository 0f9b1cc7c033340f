-- ===== src/Identity/Ranges.antt =====
-- The FreeIPA ID ranges of scripts/validate_identity_source.py.
use rfc_codex_gentoo_stage.Prelude.{
  ℕ, ◌+◌, String, Bool, false, not, ◌&&◌, ◌||◌, Option, none, some, List, [], ◌∷◌, ◌++◌, ◌==◌, leb,
  ltb, if◌then◌else◌,
}
use rfc_codex_gentoo_stage.Value.{
  Value, str, Fields, get, get_or, as_dict, as_list, ◌or_value◌, is_truthy, empty_dict, empty_list,
}
use rfc_codex_gentoo_stage.Identity.Check.{
  Label, place, row, inside, not_mapping, bad_range_type, not_list, duplicate_range,
  overlapping_range, outside_ranges, Check, pure, report, report_if, scan, ◌>>=◌, ◌>>◌,
}
use rfc_codex_gentoo_stage.Identity.Fields.{required_string, validate_uid_gid, contains}

-- The tuple (name, base_id, base_id + range_size).
pub record IdRange : Type 0 where
  pub name : String
  pub base : ℕ
  pub limit : ℕ

-- `idrange.get("type", "ipa-local") == "ipa-local"`
unfoldable pub is_ipa_local : Value → Bool
is_ipa_local (str s) = s == "ipa-local"
is_ipa_local _ = false

-- the result is there if the name and the first two numbers are
unfoldable pub range_of : String → Option ℕ → Option ℕ → Option IdRange
range_of name (some base) (some size) =
    if name == "" then none else some (record { name = name; base = base; limit = base + size })
range_of _ _ _ = none

unfoldable pub check_idrange_fields : Fields → Label → Check (Option IdRange)
unfolding is_ipa_local range_of
check_idrange_fields idrange label = do
  name ← required_string idrange "name" label
  base ← validate_uid_gid (get idrange "base_id") "base_id" label
  size ← validate_uid_gid (get idrange "range_size") "range_size" label
  _ ← validate_uid_gid (get idrange "rid_base") "rid_base" label
  _ ← validate_uid_gid (get idrange "secondary_rid_base") "secondary_rid_base" label
  report_if (not (is_ipa_local (get_or idrange "type" (str "ipa-local")))) (inside label "type")
      bad_range_type
  pure (range_of name base size)

unfoldable pub validate_freeipa_local_idrange : Value → Label → Check (Option IdRange)
unfolding check_idrange_fields as_dict
validate_freeipa_local_idrange idrange label = elim (as_dict idrange) [
  | none ↦ do report label not_mapping; pure none
  | some fields ↦ check_idrange_fields fields label
]

-- The names seen and the ranges accepted so far.
pub record Ranges : Type 0 where
  pub seen_names : List String
  pub ranges : List IdRange

unfoldable pub overlaps : IdRange → IdRange → Bool
overlaps a b = ltb a.base b.limit && ltb b.base a.limit

unfoldable pub report_overlaps : Label → IdRange → List IdRange → Check (Unit {0})
unfolding overlaps
report_overlaps label new [] = pure tt
report_overlaps label new (other ∷ others) = do
  report_if (overlaps new other) label (overlapping_range other.name other.base other.limit)
  report_overlaps label new others

unfoldable pub add_idrange : Label → Option IdRange → Ranges → Check Ranges
unfolding report_overlaps
add_idrange label none s = pure s
add_idrange label (some new) s = do
  report_if (contains s.seen_names new.name) label (duplicate_range new.name)
  report_overlaps label new s.ranges
  pure (record { seen_names = new.name ∷ s.seen_names; ranges = s.ranges ++ (new ∷ []) })

abbrev pub additional_key : String
additional_key = "additional_freeipa_local_idranges"

abbrev additional_label : String
additional_label = "uid_gid_policy.additional_freeipa_local_idranges"

unfoldable pub check_additional : ℕ → Value → Ranges → Check Ranges
unfolding add_idrange
check_additional index idrange s = do
  parsed ← validate_freeipa_local_idrange idrange (row additional_label index)
  add_idrange (row additional_label index) parsed s

abbrev pub first_ranges : Option IdRange → Ranges
first_ranges none = record { seen_names = []; ranges = [] }
first_ranges (some r) = record { seen_names = r.name ∷ []; ranges = r ∷ [] }

unfoldable pub check_primary : Value → Check (Option IdRange)
unfolding is_truthy
check_primary idrange =
    let parsed =
      validate_freeipa_local_idrange idrange (place "uid_gid_policy.freeipa_local_idrange") in
    if is_truthy idrange then parsed else pure none

unfoldable pub collect_additional : Option (List Value) → Ranges → Check Ranges
unfolding scan check_additional
collect_additional none s = do report (place "uid_gid_policy") (not_list additional_key); pure s
collect_additional (some items) s = scan check_additional 0 items s

unfoldable pub collect_freeipa_local_idranges : Fields → Check (List IdRange)
unfolding check_primary collect_additional as_list
collect_freeipa_local_idranges policy = do
  first ← check_primary (get_or policy "freeipa_local_idrange" empty_dict or_value empty_dict)
  s ←
      collect_additional (as_list (get_or policy additional_key empty_list or_value empty_list))
        (first_ranges first)
  pure s.ranges

-- `base <= value < limit`
unfoldable pub is_within : ℕ → IdRange → Bool
is_within value r = leb r.base value && ltb value r.limit

unfoldable pub in_ranges : ℕ → List IdRange → Bool
unfolding is_within
in_ranges value [] = false
in_ranges value (r ∷ rs) = is_within value r || in_ranges value rs

unfoldable pub validate_id_in_freeipa_ranges : ℕ → String → Label → List IdRange → Check (Unit {0})
unfolding in_ranges
validate_id_in_freeipa_ranges value key label [] = pure tt
validate_id_in_freeipa_ranges value key label (r ∷ rs) =
    report_if (not (in_ranges value (r ∷ rs))) label (outside_ranges key value)
