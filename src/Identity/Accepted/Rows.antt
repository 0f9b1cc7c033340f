-- ===== src/Identity/Accepted/Rows.antt =====
-- One row of a clean run: it was read, and it joins the names and IDs seen so far.
use rfc_codex_gentoo_stage.Prelude.{
  ℕ, String, true, false, not, ◌&&◌, Option, none, some, List, ◌∷◌, ◌≡◌, refl, sym, ap, ◌∙◌, arith,
  All, inl, inr, Option-cases, ◌==◌,
}
use rfc_codex_gentoo_stage.Value.{Value, Fields, get, as_dict, has_key}
use rfc_codex_gentoo_stage.Identity.Check.{
  Label, row, place, report_if, duplicate_group, duplicate_account, unknown_group,
}
use rfc_codex_gentoo_stage.Identity.Fields.{
  required_string, validate_uid_gid, reject_secret_values, positive_int, contains, forbidden,
}
use rfc_codex_gentoo_stage.Identity.Ranges.{IdRange, validate_id_in_freeipa_ranges}
use rfc_codex_gentoo_stage.Identity.Rows.{
  Seen, SeenIds, lookup, owner, report_duplicate, note_id, note_name, check_group, check_account,
  check_account_refs, add_group, check_group_fields, check_account_fields,
}
use rfc_codex_gentoo_stage.Identity.Clean.{Clean, >>=-Clean, pure-Clean, report_if-Clean}
use rfc_codex_gentoo_stage.Identity.Directory.{
  Group, Account, read_text, group_of, read_group, read_account, account_of, IsCovered, HasNoSecret,
}
use rfc_codex_gentoo_stage.Identity.Accepted.Primitives.{
  required_string-Clean, validate_uid_gid-Clean, reject_secret_values-Clean,
  validate_id_in_freeipa_ranges-Clean,
}
use rfc_codex_gentoo_stage.Identity.Accepted.Entries.{Joins}

report_duplicate-Clean :
    (o : Option Label) (label : Label) (key : String) (id : ℕ) (u : Unit {0})
    → Clean (report_duplicate o label key id) u
    → o ≡ none
unfolding report_duplicate
report_duplicate-Clean none label key id u h = refl
report_duplicate-Clean (some who) label key id u h = cc

note_id-Clean :
    (ranges : List IdRange) (key : String) (label who : Label) (id : ℕ) (seen ids : SeenIds)
    → Clean (note_id ranges key label who (some id) seen) ids
    → (lookup id seen ≡ none) × IsCovered ranges id × (ids ≡ (id, who) ∷ seen)
unfolding note_id
note_id-Clean ranges key label who id seen ids h =
    let (_, first, rest) = >>=-Clean (report_duplicate (lookup id seen) label key id) _ h in
    let (_, second, last) = >>=-Clean (validate_id_in_freeipa_ranges id key label ranges) _ rest in
    (
      report_duplicate-Clean _ _ _ _ _ first,
      validate_id_in_freeipa_ranges-Clean _ _ _ _ _ second,
      cc,
    )

-- The same for an ID known to be there by an equation.
note_known_id-Clean :
    (ranges : List IdRange) (key : String) (label who : Label) (o : Option ℕ) (id : ℕ)
    (seen ids : SeenIds)
    → o ≡ some id
    → Clean (note_id ranges key label who o seen) ids
    → (lookup id seen ≡ none) × IsCovered ranges id × (ids ≡ (id, who) ∷ seen)
note_known_id-Clean ranges key label who o id seen ids e h =
    note_id-Clean ranges key label who id seen ids (rw e at h)

module _ (ranges : List IdRange) where
  abbrev pub GroupJoins : Group → Seen → Seen → Type 0
  GroupJoins = Joins (λ g. g.name) (λ g. g.gid) ranges

  add_group-Clean :
      (label : Label) (name : String) (gid : ℕ) (s t : Seen)
      → (name == "") ≡ false
      → Clean (add_group ranges label name (some gid) s) t
      → GroupJoins (record { name = name; gid = gid }) s t
  unfolding add_group
  add_group-Clean label name gid s t named h =
      let body = rw named at h in
      let (_, first, rest) =
        >>=-Clean (report_if (contains s.known name) label (duplicate_group name)) _ body in
      let (ids, second, last) =
        >>=-Clean (note_id ranges "gid" label (place name) (some gid) s.ids) _ rest in
      let (fresh, covered, e) = note_id-Clean _ _ _ _ _ _ _ second in
      record {
        new_name = report_if-Clean _ _ _ _ first;
        new_id = fresh;
        covered = covered;
        known = sym (ap (λ (u : Seen). u.known) (pure-Clean _ _ last));
        who = place name;
        ids = sym (ap (λ (u : Seen). u.ids) (pure-Clean _ _ last)) ∙ e;
      }

  check_group_fields-Clean :
      (label : Label) (fields : Fields) (s t : Seen)
      → Clean (check_group_fields ranges label fields s) t
      → (g : Group) × (group_of (read_text fields "name") (positive_int (get fields "gid"))
          ≡ some g)
        × GroupJoins g s t
        × All (λ k. has_key fields k ≡ false) forbidden
  unfolding check_group_fields
  check_group_fields-Clean label fields s t h =
      let (name, first, h1) = >>=-Clean (required_string fields "name" label) _ h in
      let (gid, second, h2) = >>=-Clean (validate_uid_gid (get fields "gid") "gid" label) _ h1 in
      let (u, third, h3) = >>=-Clean (reject_secret_values fields label) _ h2 in
      let (read, named) = required_string-Clean _ _ _ _ first in
      let (n, e, numbered) = validate_uid_gid-Clean _ _ _ _ second in
      (
        record { name = name; gid = n },
        rw (read, numbered),
        add_group-Clean label name n s t named (rw e at h3),
        reject_secret_values-Clean _ _ _ third,
      )

  pub check_group-Clean :
      (i : ℕ) (v : Value) (s t : Seen)
      → Clean (check_group ranges i v s) t
      → (g : Group) × (read_group v ≡ some g) × GroupJoins g s t
  unfolding check_group read_group
  check_group-Clean i v s t h = elim (Option-cases (as_dict v)) [
    | inl e ↦ cc (h, e)
    | inr (fields, e) ↦
        let (g, read, joins, clear) =
          check_group_fields-Clean (row "groups" i) fields s t (rw (e, check_group) at h) in
        (g, rw (e, read_group) read, joins)
  ]

  pub check_group-clear :
      (i : ℕ) (v : Value) (s t : Seen) → Clean (check_group ranges i v s) t → HasNoSecret v
  unfolding check_group
  check_group-clear i v s t h fields e =
      let (g, read, joins, clear) =
        check_group_fields-Clean (row "groups" i) fields s t (rw (e, check_group) at h) in
      clear

  abbrev pub AccountJoins : Account → Seen → Seen → Type 0
  AccountJoins = Joins (λ a. a.name) (λ a. a.uid) ranges

  note_name-Clean :
      (name : String) (label : Label) (known out : List String)
      → (name == "") ≡ false
      → Clean (note_name name label known) out
      → (contains known name ≡ false) × (out ≡ name ∷ known)
  unfolding note_name
  note_name-Clean name label known out named h =
      let (_, first, rest) =
        >>=-Clean (report_if (contains known name) label (duplicate_account name)) _
          (rw named at h) in
      (report_if-Clean _ _ _ _ first, sym (pure-Clean _ _ rest))

  primary_group-Clean :
      (groups : List String) (label : Label) (primary : String) (fields : Fields) (u : Unit {0})
      → (primary == "") ≡ false
      → Clean (check_account_refs groups label primary fields) u
      → contains groups primary ≡ true
  unfolding check_account_refs
  primary_group-Clean groups label primary fields u named h =
      let (_, first, rest) =
        >>=-Clean
          (report_if (not (primary == "") && not (contains groups primary)) label
            (unknown_group "primary_group" primary))
          _ h in
      let known = report_if-Clean _ _ _ _ first in ground (arith, known)

  check_account_fields-Clean :
      (groups : List String) (label : Label) (fields : Fields) (s t : Seen)
      → Clean (check_account_fields ranges groups label fields s) t
      → (a : Account) × (account_of
            (read_text fields "name")
            (positive_int (get fields "uid"))
            (read_text fields "primary_group")
          ≡ some a)
        × AccountJoins a s t
        × (contains groups a.primary_group ≡ true)
        × All (λ k. has_key fields k ≡ false) forbidden
  unfolding check_account_fields
  check_account_fields-Clean groups label fields s t h =
      let (name, first, h1) = >>=-Clean (required_string fields "name" label) _ h in
      let (uid, second, h2) = >>=-Clean (validate_uid_gid (get fields "uid") "uid" label) _ h1 in
      let (primary, third, h3) = >>=-Clean (required_string fields "primary_group" label) _ h2 in
      let (u, fourth, h4) = >>=-Clean (reject_secret_values fields label) _ h3 in
      let (known, fifth, h5) = >>=-Clean (note_name name label s.known) _ h4 in
      let (ids, sixth, h6) =
        >>=-Clean (note_id ranges "uid" label (owner name label) uid s.ids) _ h5 in
      let (w, seventh, last) = >>=-Clean (check_account_refs groups label primary fields) _ h6 in
      let (read, named) = required_string-Clean _ _ _ _ first in
      let (n, e, numbered) = validate_uid_gid-Clean _ _ _ _ second in
      let (grouped, has_group) = required_string-Clean _ _ _ _ third in
      let (new_name, es) = note_name-Clean _ _ _ _ named fifth in
      let (new_id, covered, ei) = note_known_id-Clean _ _ _ _ _ _ _ _ e sixth in
      (
        record { name = name; uid = n; primary_group = primary },
        rw (read, numbered, grouped),
        record {
          new_name = new_name;
          new_id = new_id;
          covered = covered;
          known = sym (ap (λ (u : Seen). u.known) (pure-Clean _ _ last)) ∙ es;
          who = owner name label;
          ids = sym (ap (λ (u : Seen). u.ids) (pure-Clean _ _ last)) ∙ ei;
        },
        primary_group-Clean _ _ _ _ _ has_group seventh,
        reject_secret_values-Clean _ _ _ fourth,
      )

  -- An account joins the accounts before it, and its primary group is one of the groups.
  pub record JoinsWithGroup (groups : List String) (a : Account) (s t : Seen) : Type 0 where
    pub joins : AccountJoins a s t
    pub grouped : contains groups a.primary_group ≡ true

  module _ (groups : List String) (collection : String) where
    pub check_account-Clean :
        (i : ℕ) (v : Value) (s t : Seen)
        → Clean (check_account ranges groups collection i v s) t
        → (a : Account) × (read_account v ≡ some a) × JoinsWithGroup groups a s t
    unfolding check_account read_account
    check_account-Clean i v s t h = elim (Option-cases (as_dict v)) [
      | inl e ↦ cc (h, e)
      | inr (fields, e) ↦
          let (a, read, joins, grouped, clear) =
            check_account_fields-Clean groups (row collection i) fields s t
              (rw (e, check_account) at h) in
          (a, rw (e, read_account) read, record { joins = joins; grouped = grouped })
    ]

    pub check_account-clear :
        (i : ℕ) (v : Value) (s t : Seen)
        → Clean (check_account ranges groups collection i v s) t
        → HasNoSecret v
    unfolding check_account
    check_account-clear i v s t h fields e =
        let (a, read, joins, grouped, clear) =
          check_account_fields-Clean groups (row collection i) fields s t
            (rw (e, check_account) at h) in
        clear
