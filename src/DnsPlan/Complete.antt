-- ===== src/DnsPlan/Complete.antt =====
-- No name of the inventories is lost: the whole run of `generate_dns_plan` of
-- scripts/plan-hetzner-dns-from-inventory.py.
use rfc_codex_gentoo_stage.Prelude.{
  String, Bool, true, false, Option, none, some, List, [], ◌∷◌, refl, inl, inr, All, All-map,
  Any-right, Bool-cases, Option-cases,
}
use rfc_codex_gentoo_stage.Text.{is_empty}
use rfc_codex_gentoo_stage.DnsPlan.Add.{
  Planned, Planning, Setting, Wish, Address, Source, missing_address, invalid_address, normal_wish,
  key_of, add_record, add_error, add_address_record, address_wish, RowReason,
}
use rfc_codex_gentoo_stage.DnsPlan.Plan.{alias_wish, add_aliases, add_source, add_sources}
use rfc_codex_gentoo_stage.DnsPlan.Accounts.{IsAbout, IsReported, IsAccounted}
use rfc_codex_gentoo_stage.DnsPlan.Keeps.{
  Kept, Kept_refl, Kept_trans, add_record-Serves, add_error-Kept,
}

-- A row without a usable address, as the wish that its error is about.
abbrev pub no_address : Source → Wish
no_address row = record { fqdn = row.fqdn; record_type = "A"; values = []; source = row.source }

IsAccounted-later :
    (wish : Wish) (p q : Planning) → Kept p q → IsAccounted wish p → IsAccounted wish q
IsAccounted-later wish p q kept (inl h) = inl (kept.0 (key_of wish) wish.values h)
IsAccounted-later wish p q kept (inr h) = inr (kept.1 wish h)

-- What is planned for the address of a row, or reported of it.
abbrev pub AddressFate : (Wish → Type 0) → (Wish → Type 0) → Source → Bool → Option Address → Type 0
AddressFate Planned Reported row true address = Reported (no_address row)
AddressFate Planned Reported row false none = Reported (no_address row)
AddressFate Planned Reported row false (some address) =
    Planned (normal_wish (address_wish row address))

module _ (ip_interface : String → Option Address) where
  abbrev pub RowFate : (Wish → Type 0) → (Wish → Type 0) → Source → Type 0
  RowFate Accounted Reported row =
      AddressFate Accounted Reported row (is_empty row.address) (ip_interface row.address)
      × All (λ alias. Accounted (normal_wish (alias_wish row alias))) row.aliases

  fate_later :
      (p q : Planning)
      → Kept p q
      → (row : Source) (b : Bool) (a : Option Address)
      → AddressFate (λ w. IsAccounted w p) (λ w. IsReported w p) row b a
      → AddressFate (λ w. IsAccounted w q) (λ w. IsReported w q) row b a
  fate_later p q kept row true a h = kept.1 (no_address row) h
  fate_later p q kept row false none h = kept.1 (no_address row) h
  fate_later p q kept row false (some a) h = IsAccounted-later _ p q kept h

  row_later :
      (p q : Planning)
      → Kept p q
      → (row : Source) → RowFate (λ w. IsAccounted w p) (λ w. IsReported w p) row
      → RowFate (λ w. IsAccounted w q) (λ w. IsReported w q) row
  row_later p q kept row h = (
    fate_later p q kept row (is_empty row.address) (ip_interface row.address) h.0,
    All-map _ _ row.aliases (λ alias k. IsAccounted-later _ p q kept k) h.1,
  )

  module _ (setting : Setting) where
    add_aliases-Serves :
        (row : Source) (aliases : List String) (p : Planning)
        → Kept p (add_aliases setting row aliases p)
          × All
              (λ alias.
                IsAccounted
                  (normal_wish (alias_wish row alias))
                  (add_aliases setting row aliases p))
              aliases
    unfolding add_aliases alias_wish
    add_aliases-Serves row [] p = (Kept_refl p, tt)
    add_aliases-Serves row (alias ∷ aliases) p =
        let q = add_record setting (alias_wish row alias) p in
        let first = add_record-Serves setting (alias_wish row alias) p refl in
        let rest = add_aliases-Serves row aliases q in
        (Kept_trans p q _ first.0 rest.0, (IsAccounted-later _ q _ rest.0 first.1, rest.1))

    refused_row :
        (row : Source) (reason : RowReason) (p : Planning)
        → Kept p (
            add_error
              (record { fqdn = row.fqdn; record_type = "A"; source = row.source; reason = reason })
              p)
          × IsReported (no_address row) (
              add_error
                (record {
                  fqdn = row.fqdn;
                  record_type = "A";
                  source = row.source;
                  reason = reason;
                })
                p)
    unfolding add_error
    refused_row row reason p = (
      add_error-Kept _ p,
      inl (Any-right (IsAbout (no_address row)) p.errors _ (inl (refl, refl, refl))),
    )

    add_address_record-Serves :
        (row : Source) (p : Planning)
        → Kept p (add_address_record ip_interface setting row p)
          × AddressFate
              (λ w. IsAccounted w (add_address_record ip_interface setting row p))
              (λ w. IsReported w (add_address_record ip_interface setting row p))
              row
              (is_empty row.address)
              (ip_interface row.address)
    unfolding add_address_record address_wish
    add_address_record-Serves row p = elim (Bool-cases (is_empty row.address)) [
      | inl e ↦ rw e (refused_row row missing_address p)
      | inr e ↦ elim (Option-cases (ip_interface row.address)) [
        | inl d ↦ rw (e, d) (refused_row row invalid_address p)
        | inr (address, d) ↦ rw (e, d) (add_record-Serves setting (address_wish row address) p refl)
      ]
    ]

    add_source-Serves :
        (row : Source) (p : Planning)
        → Kept p (add_source ip_interface setting row p)
          × RowFate
              (λ w. IsAccounted w (add_source ip_interface setting row p))
              (λ w. IsReported w (add_source ip_interface setting row p))
              row
    unfolding add_source
    add_source-Serves row p =
        let q = add_address_record ip_interface setting row p in
        let first = add_address_record-Serves row p in
        let rest = add_aliases-Serves row row.aliases q in
        (
          Kept_trans p q _ first.0 rest.0,
          (
            fate_later q _ rest.0 row (is_empty row.address) (ip_interface row.address) first.1,
            rest.1,
          ),
        )

    pub add_sources-Serves :
        (rows : List Source) (p : Planning)
        → Kept p (add_sources ip_interface setting rows p)
          × All
              (RowFate
                (λ w. IsAccounted w (add_sources ip_interface setting rows p))
                (λ w. IsReported w (add_sources ip_interface setting rows p)))
              rows
    unfolding add_sources
    add_sources-Serves [] p = (Kept_refl p, tt)
    add_sources-Serves (row ∷ rows) p =
        let q = add_source ip_interface setting row p in
        let first = add_source-Serves row p in
        let rest = add_sources-Serves rows q in
        (Kept_trans p q _ first.0 rest.0, (row_later q _ rest.0 row first.1, rest.1))
