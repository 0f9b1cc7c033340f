-- ===== src/DnsPlan/Whole.antt =====
-- Nothing of the inventories is missing from the plan that `generate_dns_plan` of
-- scripts/plan-hetzner-dns-from-inventory.py returns.
use rfc_codex_gentoo_stage.Prelude.{
  ℕ, String, Bool, true, false, Option, none, some, List, [], ◌∷◌, ◌≡◌, refl, ap, ◌∙◌, ◌⊎◌, inl,
  inr, All, All-map, Any, length, map,
}
use rfc_codex_gentoo_stage.Text.{is_empty}
use rfc_codex_gentoo_stage.Value.{Value, Fields}
use rfc_codex_gentoo_stage.Dns.Records.{find}
use rfc_codex_gentoo_stage.Sorted.{sorted_set, sort_by}
use rfc_codex_gentoo_stage.Sorted.Kept.{Any-sort_by, All-sort_by}
use rfc_codex_gentoo_stage.DnsPlan.Add.{
  Key, same_key, Planned, Planning, nothing_planned, Setting, Wish, Address, Source, normal_wish,
  key_of, address_wish, or_none,
}
use rfc_codex_gentoo_stage.DnsPlan.Plan.{
  alias_wish, add_sources, generate_dns_plan, plan_of, plan_records, with_values, compare_planned,
  DnsPlan, all_sources,
}
use rfc_codex_gentoo_stage.DnsPlan.Accounts.{IsAbout, IsReported, IsAccounted}
use rfc_codex_gentoo_stage.DnsPlan.Invariant.{IsPlaced}
use rfc_codex_gentoo_stage.DnsPlan.Sound.{add_sources-IsSoundPlanning}
use rfc_codex_gentoo_stage.DnsPlan.Result.{record_key, record_key-with_values}
use rfc_codex_gentoo_stage.DnsPlan.Complete.{RowFate, AddressFate, add_sources-Serves}

-- An error or a skipped row of the plan is about the wish.
abbrev pub IsReportedIn : DnsPlan → Wish → Type 0
IsReportedIn plan wish = Any (IsAbout wish) plan.errors ⊎ Any (IsAbout wish) plan.skipped

-- The plan has a record set of this name and type with those values, or it reports the wish.
abbrev pub IsAccountedIn : DnsPlan → Wish → Type 0
IsAccountedIn plan wish =
    Any (λ r. (record_key r ≡ key_of wish) × (r.values ≡ wish.values)) plan.records
    ⊎ IsReportedIn plan wish

module _ (setting : Setting) (grouped : List (Key × List String)) where
  planned_record :
      (key : Key) (values : List String) (es : List (Key × Planned))
      → sorted_set values ≡ values
      → find same_key key grouped ≡ some values
      → All (IsPlaced setting) es
      → Any (λ e. e.0 ≡ key) es
      → Any (λ r. (record_key r ≡ key) × (r.values ≡ values)) (map (with_values grouped) es)
  unfolding with_values
  planned_record key values [] sorted found placed h = elim h [ ]
  planned_record key values (e ∷ es) sorted found placed (inl p) = inl (
    record_key-with_values setting grouped e placed.0 ∙ p,
    ap (λ k. sorted_set (or_none (find same_key k grouped))) p
        ∙ ap (λ o. sorted_set (or_none o)) found
        ∙ sorted,
  )
  planned_record key values (e ∷ es) sorted found placed (inr h) =
      inr (planned_record key values es sorted found placed.1 h)

module _ (setting : Setting) (input_files : ℕ) (apply allow_delete : Bool) (planning : Planning)
    (placed : All (IsPlaced setting) planning.rrsets) where
  accounted_in :
      (wish : Wish)
      → sorted_set wish.values ≡ wish.values
      → IsAccounted wish planning
      → IsAccountedIn (plan_of setting input_files apply allow_delete planning) wish
  unfolding plan_of plan_records
  accounted_in wish sorted (inl (there, found)) = inl (
      planned_record setting planning.grouped_values (key_of wish) wish.values
        (sort_by compare_planned planning.rrsets) sorted found
        (All-sort_by compare_planned (IsPlaced setting) planning.rrsets placed)
        (Any-sort_by compare_planned (λ e. e.0 ≡ key_of wish) planning.rrsets there))
  accounted_in wish sorted (inr h) = inr h

  fate_in :
      (row : Source) (b : Bool) (a : Option Address)
      → AddressFate (λ w. IsAccounted w planning) (λ w. IsReported w planning) row b a
      → AddressFate
          (IsAccountedIn (plan_of setting input_files apply allow_delete planning))
          (IsReportedIn (plan_of setting input_files apply allow_delete planning))
          row
          b
          a
  unfolding plan_of normal_wish address_wish
  fate_in row true a h = h
  fate_in row false none h = h
  fate_in row false (some a) h = accounted_in (normal_wish (address_wish row a)) refl h

  row_in :
      (ip_interface : String → Option Address) (row : Source)
      → RowFate ip_interface (λ w. IsAccounted w planning) (λ w. IsReported w planning) row
      → RowFate ip_interface
          (IsAccountedIn (plan_of setting input_files apply allow_delete planning))
          (IsReportedIn (plan_of setting input_files apply allow_delete planning))
          row
  unfolding normal_wish alias_wish sorted_set
  row_in ip_interface row h = (
    fate_in row (is_empty row.address) (ip_interface row.address) h.0,
    All-map _ _ row.aliases (λ alias k. accounted_in (normal_wish (alias_wish row alias)) refl k)
        h.1,
  )

-- If the rows of the inventories can be read, then a plan is made, and it accounts for each row: for a
-- usable address it has an address record of the row's name with this address as its value, and for each alias a CNAME to the
-- name, unless one of its errors or skipped rows has the name, the type and the source; and for an address that is missing or cannot
-- be read it has such an error or skipped row.
pub generate_dns_plan-Accounts :
    (str_of : Value → String) (ip_interface : String → Option Address) (setting : Setting)
    (default_domain : String) (payloads : List Fields) (apply allow_delete : Bool)
    (rows : List Source)
    → all_sources str_of default_domain payloads ≡ some rows
    → (plan : DnsPlan) × (generate_dns_plan str_of ip_interface setting default_domain payloads
          apply allow_delete
        ≡ some plan)
      × All (RowFate ip_interface (IsAccountedIn plan) (IsReportedIn plan)) rows
unfolding generate_dns_plan
generate_dns_plan-Accounts str_of ip_interface setting default_domain payloads apply allow_delete
      rows h =
    let planning = add_sources ip_interface setting rows nothing_planned in
    let placed =
      (add_sources-IsSoundPlanning setting ip_interface rows nothing_planned (tt, tt, tt, tt)).0 in
    (
      plan_of setting (length payloads) apply allow_delete planning,
      rw (generate_dns_plan, h) refl,
      All-map _ _ rows
          (λ row k.
            row_in setting (length payloads) apply allow_delete planning placed ip_interface row k)
          (add_sources-Serves ip_interface setting rows nothing_planned).1,
    )
