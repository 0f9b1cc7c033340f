-- ===== src/Identity/Accepted/Ranges.antt =====
-- The ID ranges of a clean run: they were read, no two share a name and no ID lies in two of them.
use rfc_codex_gentoo_stage.Prelude.{
  ℕ, ◌+◌, String, true, false, not, Option, some, List, [], ◌∷◌, ◌++◌, ◌≡◌, ◌≢◌, sym, ap, ◌∙◌,
  arith, All, All-append, All-map, Unique, inl, inr, Option-cases, map, eq_refl, ◌==◌, append_assoc,
  append-nil, subst,
}
use rfc_codex_gentoo_stage.Value.{Value, Fields, get, get_or, str, as_dict}
use rfc_codex_gentoo_stage.Identity.Check.{
  Label, row, inside, report_if, bad_range_type, duplicate_range, overlapping_range,
}
use rfc_codex_gentoo_stage.Identity.Fields.{
  required_string, validate_uid_gid, positive_int, contains,
}
use rfc_codex_gentoo_stage.Identity.Ranges.{
  IdRange, Ranges, overlaps, is_within, report_overlaps, range_of, add_idrange, check_additional,
  is_ipa_local, check_idrange_fields, validate_freeipa_local_idrange,
}
use rfc_codex_gentoo_stage.Identity.Clean.{Clean, Chain, >>=-Clean, pure-Clean, report_if-Clean}
use rfc_codex_gentoo_stage.Identity.Directory.{read_text, idrange_of, read_idrange, Apart}
use rfc_codex_gentoo_stage.Identity.Accepted.Primitives.{
  required_string-Clean, validate_uid_gid-Clean,
}

report_overlaps-Clean :
    (label : Label) (new : IdRange) (others : List IdRange) (u : Unit {0})
    → Clean (report_overlaps label new others) u
    → All (λ o. overlaps new o ≡ false) others
unfolding report_overlaps
report_overlaps-Clean label new [] u h = tt
report_overlaps-Clean label new (o ∷ os) u h =
    let (_, first, rest) =
      >>=-Clean (report_if (overlaps new o) label (overlapping_range o.name o.base o.limit)) _ h in
    (report_if-Clean _ _ _ _ first, report_overlaps-Clean label new os u rest)

-- Ranges that do not overlap share no ID.
disjoint_of_overlaps :
    (new o : IdRange)
    → overlaps new o ≡ false
    → (id : ℕ) → is_within id o ≡ true
    → is_within id new ≡ false
unfolding overlaps is_within
disjoint_of_overlaps new o h id w = ground arith

Apart-snoc :
    (rs : List IdRange) (new : IdRange)
    → Apart rs
    → All (λ o. overlaps new o ≡ false) rs
    → Apart (rs ++ (new ∷ []))
Apart-snoc [] new a h = (tt, tt)
Apart-snoc (r ∷ rs) new a h = (
  All-append (λ o. (id : ℕ) → is_within id r ≡ true → is_within id o ≡ false) rs (new ∷ []) a.0
      (disjoint_of_overlaps new r h.0, tt),
  Apart-snoc rs new a.1 h.1,
)

abbrev pub range_names : List IdRange → List String
range_names = map (λ r. r.name)

All-snoc :
    (n m : String) (rs : List IdRange) (new : IdRange)
    → All (λ o. n ≢ o) (range_names rs)
    → n ≢ new.name
    → All (λ o. n ≢ o) (range_names (rs ++ (new ∷ [])))
All-snoc n m [] new h e = (e, tt)
All-snoc n m (r ∷ rs) new h e = (h.0, All-snoc n m rs new h.1 e)

Unique-snoc :
    (rs : List IdRange) (new : IdRange)
    → Unique (range_names rs)
    → All (λ r. r.name ≢ new.name) rs
    → Unique (range_names (rs ++ (new ∷ [])))
Unique-snoc [] new u h = (tt, tt)
Unique-snoc (r ∷ rs) new u h = (All-snoc r.name r.name rs new u.0 h.0, Unique-snoc rs new u.1 h.1)

-- The ranges accepted so far, and that their names are among the names seen.
pub record IsGood (s : Ranges) : Type 0 where
  pub apart : Apart s.ranges
  pub unique : Unique (range_names s.ranges)
  pub seen : All (λ r. contains s.seen_names r.name ≡ true) s.ranges

pub record RangeJoins (new : IdRange) (s t : Ranges) : Type 0 where
  pub new_name : contains s.seen_names new.name ≡ false
  pub no_overlap : All (λ o. overlaps new o ≡ false) s.ranges
  pub result : record { seen_names = new.name ∷ s.seen_names; ranges = s.ranges ++ (new ∷ []) } ≡ t

RangeJoins-IsGood : (new : IdRange) (s t : Ranges) → RangeJoins new s t → IsGood s → IsGood t
unfolding contains
RangeJoins-IsGood new s t j g = subst IsGood j.result (record {
  apart = Apart-snoc s.ranges new g.apart j.no_overlap;
  unique = Unique-snoc s.ranges new g.unique (
      All-map (λ r. contains s.seen_names r.name ≡ true) (λ r. r.name ≢ new.name) s.ranges
        (λ r h e. cc (j.new_name)) g.seen);
  seen =
      All-append _ s.ranges (new ∷ [])
        (All-map (λ r. contains s.seen_names r.name ≡ true)
          (λ r. contains (new.name ∷ s.seen_names) r.name ≡ true) s.ranges (λ r h. ground arith)
          g.seen)
        (rw eq_refl, tt);
})

pub Chain-IsGood :
    (rs : List IdRange) (s t : Ranges) → Chain RangeJoins rs s t → IsGood s → IsGood t
Chain-IsGood [] s t c g = subst IsGood c g
Chain-IsGood (r ∷ rs) s t (u, j, c) g = Chain-IsGood rs u t c (RangeJoins-IsGood r s u j g)

pub Chain-ranges :
    (rs : List IdRange) (s t : Ranges) → Chain RangeJoins rs s t → t.ranges ≡ s.ranges ++ rs
Chain-ranges [] s t c = ap (λ (u : Ranges). u.ranges) (sym c) ∙ sym (append-nil s.ranges)
Chain-ranges (r ∷ rs) s t (u, j, c) =
    Chain-ranges rs u t c
    ∙ ap (λ (w : Ranges). w.ranges ++ rs) (sym j.result)
    ∙ append_assoc s.ranges (r ∷ []) rs

range_of_read :
    (name : String) (o1 o2 : Option ℕ) (base size : ℕ)
    → o1 ≡ some base
    → o2 ≡ some size
    → (name == "") ≡ false
    → range_of name o1 o2 ≡ some (record { name = name; base = base; limit = base + size })
unfolding range_of
range_of_read name o1 o2 base size e1 e2 h = rw (e1, e2, h)

check_idrange_fields-Clean :
    (fields : Fields) (label : Label) (o : Option IdRange)
    → Clean (check_idrange_fields fields label) o
    → (r : IdRange) × (o ≡ some r)
      × (idrange_of
            (read_text fields "name")
            (positive_int (get fields "base_id"))
            (positive_int (get fields "range_size"))
          ≡ some r)
unfolding check_idrange_fields
check_idrange_fields-Clean fields label o h =
    let (name, first, h1) = >>=-Clean (required_string fields "name" label) _ h in
    let (base, second, h2) =
      >>=-Clean (validate_uid_gid (get fields "base_id") "base_id" label) _ h1 in
    let (size, third, h3) =
      >>=-Clean (validate_uid_gid (get fields "range_size") "range_size" label) _ h2 in
    let (_, _, h4) = >>=-Clean (validate_uid_gid (get fields "rid_base") "rid_base" label) _ h3 in
    let (_, _, h5) =
      >>=-Clean (validate_uid_gid (get fields "secondary_rid_base") "secondary_rid_base" label) _
        h4 in
    let (_, _, last) =
      >>=-Clean
        (report_if (not (is_ipa_local (get_or fields "type" (str "ipa-local"))))
          (inside label "type") bad_range_type)
        _ h5 in
    let (read, named) = required_string-Clean _ _ _ _ first in
    let (b, eb, rb) = validate_uid_gid-Clean _ _ _ _ second in
    let (n, en, rn) = validate_uid_gid-Clean _ _ _ _ third in
    (
      record { name = name; base = b; limit = b + n },
      sym (pure-Clean _ _ last) ∙ range_of_read name base size b n eb en named,
      rw (read, rb, rn),
    )

pub validate_freeipa_local_idrange-Clean :
    (v : Value) (label : Label) (o : Option IdRange)
    → Clean (validate_freeipa_local_idrange v label) o
    → (r : IdRange) × (o ≡ some r) × (read_idrange v ≡ some r)
unfolding validate_freeipa_local_idrange read_idrange
validate_freeipa_local_idrange-Clean v label o h = elim (Option-cases (as_dict v)) [
  | inl e ↦ cc (h, e)
  | inr (fields, e) ↦
      let (r, er, read) =
        check_idrange_fields-Clean fields label o (rw (e, validate_freeipa_local_idrange) at h) in
      (r, er, rw (e, read_idrange) read)
]

add_idrange-Clean :
    (label : Label) (o : Option IdRange) (new : IdRange) (s t : Ranges)
    → o ≡ some new
    → Clean (add_idrange label o s) t
    → RangeJoins new s t
unfolding add_idrange
add_idrange-Clean label o new s t e h =
    let (_, first, rest) =
      >>=-Clean (report_if (contains s.seen_names new.name) label (duplicate_range new.name)) _
        (rw (e, add_idrange) at h) in
    let (u, second, last) = >>=-Clean (report_overlaps label new s.ranges) _ rest in
    record {
      new_name = report_if-Clean (contains s.seen_names new.name) _ _ _ first;
      no_overlap = report_overlaps-Clean label new s.ranges _ second;
      result = pure-Clean _ _ last;
    }

pub check_additional-Clean :
    (i : ℕ) (v : Value) (s t : Ranges)
    → Clean (check_additional i v s) t
    → (r : IdRange) × (read_idrange v ≡ some r) × RangeJoins r s t
unfolding check_additional
check_additional-Clean i v s t h =
    let label = row "uid_gid_policy.additional_freeipa_local_idranges" i in
    let (o, first, rest) = >>=-Clean (validate_freeipa_local_idrange v label) _ h in
    let (r, e, read) = validate_freeipa_local_idrange-Clean v label o first in
    (r, read, add_idrange-Clean label o r s t e rest)
