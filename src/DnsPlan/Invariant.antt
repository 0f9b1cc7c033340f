-- ===== src/DnsPlan/Invariant.antt =====
-- What every call of `add_record` keeps true of the record sets planned so far, in
-- scripts/plan-hetzner-dns-from-inventory.py.
use text.Mathlib.TextPositions.{compare_refl}
use rfc_codex_gentoo_stage.Prelude.{
  String, true, false, Option, none, some, List, [], ◌∷◌, ◌++◌, ◌≡◌, ◌≢◌, refl, sym, subst, ap, ◌∙◌,
  inl, inr, All, All-map, Unique, map, Bool-cases, Option-cases, length, eq_iff, eq_refl, arith,
  false≢true,
}
use rfc_codex_gentoo_stage.Dns.Records.{put, find}
use rfc_codex_gentoo_stage.Dns.Apply.{same_texts}
use rfc_codex_gentoo_stage.Sorted.{sorted_set, insert_sorted}
use rfc_codex_gentoo_stage.DnsPlan.Names.{Match, zone_for_name, relative_record_name}
use rfc_codex_gentoo_stage.DnsPlan.Add.{
  Key, same_key, Planned, Planning, Setting, Wish, or_none, is_planned, differs, incompatible_type,
  planned_of, plan_record, key_of, is_outside,
}
use rfc_codex_gentoo_stage.DnsPlan.Dicts

pub same_key_sound : (a b : Key) → same_key a b ≡ true → a ≡ b
unfolding same_key
same_key_sound a b h = ground (arith, eq_iff a.fqdn b.fqdn, eq_iff a.record_type b.record_type)

pub same_key_refl : (a : Key) → same_key a a ≡ true
unfolding same_key
same_key_refl a = rw (eq_refl a.fqdn, eq_refl a.record_type) refl

-- The record set is the one that its key says, in the zone that is chosen for its name, and within the
-- managed domains.
abbrev pub IsPlaced : Setting → Key × Planned → Type 0
IsPlaced setting (key, p) =
    (p.fqdn ≡ key.fqdn)
    × (p.record_type ≡ key.record_type)
    × (is_outside p.fqdn setting.managed_domains ≡ false)
    × (zone_for_name p.fqdn setting.zone_groups
        ≡ some (record { group_name = p.token_group; zone = p.zone }))
    × (p.relative_name ≡ relative_record_name p.fqdn p.zone)

-- The two are not a CNAME and an address of version 4 under one name.
abbrev pub Apart : Key → Key → Type 0
Apart a b = ¬ ((a.fqdn ≡ b.fqdn) × (a.record_type ≡ "CNAME") × (b.record_type ≡ "A"))

abbrev pub values_of : Key → List (Key × List String) → List String
values_of key grouped = or_none (find same_key key grouped)

abbrev pub HasOneValue : List (Key × List String) → Key → Type 0
HasOneValue grouped key = length (values_of key grouped) ≡ 1

abbrev pub KeysApart : List (Key × Planned) → Type 0
KeysApart rrsets = All (λ a. All (λ b. Apart a.0 b.0) rrsets) rrsets

abbrev pub IsSoundPlanning : Setting → Planning → Type 0
IsSoundPlanning setting planning =
    All (IsPlaced setting) planning.rrsets
    × Unique (map (λ e. e.0) planning.rrsets)
    × KeysApart planning.rrsets
    × All (λ e. HasOneValue planning.grouped_values e.0) planning.rrsets

key≢ :
    (key : Key) (rrsets : List (Key × Planned))
    → is_planned key rrsets ≡ false
    → All (λ e. e.0 ≢ key) rrsets
key≢ key rrsets h = elim (Option-cases (find same_key key rrsets)) [
  | inl e ↦ Dicts.find-none same_key same_key_sound key rrsets same_key_refl e
  | inr (p, e) ↦ absurd (false≢true (sym (rw (is_planned, e) at h)))
]

pub key_eq : (a b : Key) → a.fqdn ≡ b.fqdn → a.record_type ≡ b.record_type → a ≡ b
key_eq a b p q = cc

-- The record type that `add_record` looks for keeps a CNAME and an address of version 4 apart.
Apart-left :
    (key other : Key)
    → other ≢ record { fqdn = key.fqdn; record_type = incompatible_type key.record_type }
    → Apart key other
unfolding incompatible_type
Apart-left key other h (p, q, r) =
    h (key_eq other _ (sym p) (r ∙ sym (ap (λ t. incompatible_type t) q)))

Apart-right :
    (key other : Key)
    → other ≢ record { fqdn = key.fqdn; record_type = incompatible_type key.record_type }
    → Apart other key
unfolding incompatible_type
Apart-right key other h (p, q, r) = h (key_eq other _ p (q ∙ sym (ap (λ t. incompatible_type t) r)))

Apart-self : (key : Key) → Apart key key
Apart-self key (p, q, r) = false≢true ((eq_iff "CNAME" "A").1 (sym q ∙ r))

same_texts_sound : (ss ts : List String) → same_texts ss ts ≡ true → ss ≡ ts
unfolding same_texts
same_texts_sound [] [] h = refl
same_texts_sound [] (t ∷ ts) h = cc
same_texts_sound (s ∷ ss) [] h = cc
same_texts_sound (s ∷ ss) (t ∷ ts) h = ground (arith, eq_iff s t, same_texts_sound ss ts)

-- A single value that is added to nothing or to itself stays single.
one_value_again :
    (values : List String) → length values ≡ 1 → sorted_set (values ++ values) ≡ values
unfolding sorted_set insert_sorted
one_value_again [] h = absurd (omega arith)
one_value_again (v ∷ []) h = rw (sorted_set, insert_sorted, compare_refl v) refl
one_value_again (v ∷ w ∷ values) h = absurd (omega arith)

pub one_value : (values : List String) → length values ≡ 1 → sorted_set values ≡ values
unfolding sorted_set insert_sorted
one_value [] h = absurd (omega arith)
one_value (v ∷ []) h = refl
one_value (v ∷ w ∷ values) h = absurd (omega arith)

pub differs_sound :
    (existing values : List String) → differs (some existing) values ≡ false → existing ≡ values
unfolding differs
differs_sound existing values d = elim (Bool-cases (same_texts existing values)) [
  | inl e ↦ same_texts_sound existing values e
  | inr e ↦ absurd (false≢true (sym (rw e at d)))
]

-- The values under a key, after they have been put together with new ones that are no others.
pub added_values :
    (existing : Option (List String)) (values : List String)
    → length values ≡ 1
    → differs existing values ≡ false
    → sorted_set (or_none existing ++ values) ≡ values
unfolding differs
added_values none values h d = one_value values h
added_values (some existing) values h d =
    rw (differs_sound existing values d) (one_value_again values h)

module _ (setting : Setting) where
  put_values :
      (key : Key) (values : List String) (grouped : List (Key × List String)) (other : Key)
      → length values ≡ 1
      → HasOneValue grouped other
      → HasOneValue (put same_key key values grouped) other
  put_values key values grouped other h g = elim (Bool-cases (same_key other key)) [
    | inl e ↦
        rw
          (
            same_key_sound other key e,
            Dicts.find-put_same same_key same_key_sound key values grouped (same_key_refl key),
          )
          h
    | inr e ↦
        rw
          (Dicts.find-put_other same_key same_key_sound other key values grouped (λ p.
            false≢true (sym e ∙ subst (λ k. same_key other k ≡ true) p (same_key_refl other))))
          g
  ]

  keys_apart :
      (key : Key) (p : Planned) (rrsets : List (Key × Planned))
      → All
          (λ e. e.0 ≢ record { fqdn = key.fqdn; record_type = incompatible_type key.record_type })
          rrsets
      → KeysApart rrsets
      → KeysApart (put same_key key p rrsets)
  keys_apart key p rrsets free apart =
      Dicts.All-put same_key same_key_sound
        (λ a. All (λ b. Apart a.0 b.0) (put same_key key p rrsets)) key p rrsets
        (Dicts.All-put same_key same_key_sound (λ b. Apart key b.0) key p rrsets (Apart-self key)
          (All-map _ (λ b. Apart key b.0) rrsets (λ b h. Apart-left key b.0 h) free))
        (each rrsets free apart)
    where
      each :
          (es : List (Key × Planned))
          → All
              (λ e.
                e.0 ≢ record { fqdn = key.fqdn; record_type = incompatible_type key.record_type })
              es
          → All (λ a. All (λ b. Apart a.0 b.0) rrsets) es
          → All (λ a. All (λ b. Apart a.0 b.0) (put same_key key p rrsets)) es
      each [] f h = tt
      each (e ∷ es) f h = (
        Dicts.All-put same_key same_key_sound (λ b. Apart e.0 b.0) key p rrsets
            (Apart-right key e.0 f.0) h.0,
        each es f.1 h.1,
      )

  pub plan_record-IsSoundPlanning :
      (wish : Wish) (match : Match) (values : List String) (planning : Planning)
      → is_outside wish.fqdn setting.managed_domains ≡ false
      → zone_for_name wish.fqdn setting.zone_groups ≡ some match
      → length values ≡ 1
      → differs (find same_key (key_of wish) planning.grouped_values) values ≡ false
      → is_planned
          (record { fqdn = wish.fqdn; record_type = incompatible_type wish.record_type })
          planning.rrsets
        ≡ false
      → IsSoundPlanning setting planning
      → IsSoundPlanning setting (plan_record setting wish match values planning)
  unfolding plan_record planned_of key_of
  plan_record-IsSoundPlanning wish match values planning managed zone single same free
        (placed, unique, apart, valued) =
      let key = key_of wish in
      let planned = planned_of setting wish match in
      let all_values = sorted_set (or_none (find same_key key planning.grouped_values) ++ values) in
      let is_single =
        ap length (added_values (find same_key key planning.grouped_values) values single same)
        ∙ single in
      (
        Dicts.All-put same_key same_key_sound (IsPlaced setting) key planned planning.rrsets
            (refl, refl, managed, zone, refl) placed,
        Dicts.Unique-put same_key same_key_sound key planned planning.rrsets same_key_refl unique,
        keys_apart key planned planning.rrsets (key≢ _ planning.rrsets free) apart,
        Dicts.All-put same_key same_key_sound
            (λ e. HasOneValue (put same_key key all_values planning.grouped_values) e.0) key planned
            planning.rrsets
            (rw
              (Dicts.find-put_same same_key same_key_sound key all_values planning.grouped_values
                (same_key_refl key))
              is_single)
            (All-map _ _ planning.rrsets
              (λ e h. put_values key all_values planning.grouped_values e.0 is_single h) valued),
      )
