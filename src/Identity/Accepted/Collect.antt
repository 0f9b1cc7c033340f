-- ===== src/Identity/Accepted/Collect.antt =====
-- The ranges of a clean run are those of the document.
use rfc_codex_gentoo_stage.Prelude.{
  Option, none, some, List, ◌≡◌, sym, Unique, inl, inr, Bool-cases, subst, eq_refl,
}
use rfc_codex_gentoo_stage.Value.{
  Value, Fields, get_or, as_list, is_truthy, ◌or_value◌, empty_dict, empty_list,
}
use rfc_codex_gentoo_stage.Identity.Fields.{contains}
use rfc_codex_gentoo_stage.Identity.Ranges.{
  IdRange, Ranges, first_ranges, check_primary, check_additional, collect_additional,
  collect_freeipa_local_idranges,
}
use rfc_codex_gentoo_stage.Identity.Clean.{Clean, Chain, >>=-Clean, pure-Clean, scan-Clean}
use rfc_codex_gentoo_stage.Identity.Directory.{
  Apart, read_idrange, read_primary, read_items, read_ranges,
}
use rfc_codex_gentoo_stage.Identity.Accepted.Ranges.{
  IsGood, RangeJoins, range_names, Chain-IsGood, Chain-ranges, check_additional-Clean,
  validate_freeipa_local_idrange-Clean,
}

check_primary-Clean :
    (v : Value) (o : Option IdRange)
    → Clean (check_primary v) o
    → read_primary v ≡ some (first_ranges o).ranges
unfolding check_primary read_primary
check_primary-Clean v o h = elim (Bool-cases (is_truthy v)) [
  | inl e ↦
      let (r, er, read) = validate_freeipa_local_idrange-Clean v _ o (rw (e, check_primary) at h) in
      rw (e, read_primary, read, er)
  | inr e ↦ rw (e, read_primary, sym (pure-Clean _ _ (rw (e, check_primary) at h)))
]

first_ranges-IsGood : (o : Option IdRange) → IsGood (first_ranges o)
unfolding contains
first_ranges-IsGood none = record { apart = tt; unique = tt; seen = tt }
first_ranges-IsGood (some r) = record {
  apart = (tt, tt);
  unique = (tt, tt);
  seen = (rw eq_refl, tt);
}

collect_additional-Clean :
    (items : Option (List Value)) (s t : Ranges)
    → Clean (collect_additional items s) t
    → (rs : List IdRange) × (read_items items ≡ some rs) × Chain RangeJoins rs s t
unfolding collect_additional
collect_additional-Clean none s t h = cc
collect_additional-Clean (some items) s t h =
    scan-Clean RangeJoins read_idrange check_additional check_additional-Clean 0 items s t h

-- The accepted ranges are all that the document has, with distinct names, and apart.
pub collect-Clean :
    (policy : Fields) (ranges : List IdRange)
    → Clean (collect_freeipa_local_idranges policy) ranges
    → (read_ranges policy ≡ some ranges) × Unique (range_names ranges) × Apart ranges
unfolding collect_freeipa_local_idranges read_ranges
collect-Clean policy ranges h =
    let (o, first, rest) =
      >>=-Clean
        (check_primary (get_or policy "freeipa_local_idrange" empty_dict or_value empty_dict)) _
        h in
    let items =
      as_list (get_or policy "additional_freeipa_local_idranges" empty_list or_value empty_list) in
    let (t, second, last) = >>=-Clean (collect_additional items (first_ranges o)) _ rest in
    let (rs, read, chain) = collect_additional-Clean items (first_ranges o) t second in
    let good = Chain-IsGood rs (first_ranges o) t chain (first_ranges-IsGood o) in
    let e = pure-Clean t.ranges ranges last in
    (
      rw (check_primary-Clean _ o first, read, sym (Chain-ranges rs (first_ranges o) t chain), e),
      subst (λ u. Unique (range_names u)) e good.unique,
      subst Apart e good.apart,
    )
