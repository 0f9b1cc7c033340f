-- ===== src/Backup/Covered.antt =====
-- What a policy covers that scripts/validate-hasslehoff-backup-policy.py finds no error in.
use Prim.Native.String.{compare}
use Prim.Native.Nat.{Ordering}
use rfc_codex_gentoo_stage.Prelude.{
  ℕ, suc, String, Bool, true, false, List, [], ◌∷◌, ◌++◌, All, none_left, Option, none, some, ◌≡◌,
  ◌≢◌, refl, ap, subst, Bool-cases, inl, inr,
}
use rfc_codex_gentoo_stage.Text.{is_empty}
use rfc_codex_gentoo_stage.Value.{
  Value, null, bool, int, str, list, dict, Items, nil, cons, Fields, get, as_dict, as_str,
}
use rfc_codex_gentoo_stage.Sorted.{sorted_set, insert_sorted}
use rfc_codex_gentoo_stage.Dns.Records.{contains}
use rfc_codex_gentoo_stage.NtfyHook.Approvals.{none≢some, some_inj}
use rfc_codex_gentoo_stage.Backup.Policy.{
  Place, in_entry, Error, duplicate_class, no_text, restore_missing, missing_services,
  unexpected_services, required_service_classes, required_validations, error_if, error_of, without,
  texts_in, validate_restore_validation, filled_text, text_errors, entry_errors, class_errors,
  observe, validate_entries, service_errors, Validation, coverage_errors, validate_policy,
}

IsFilled : Value → Type 0
IsFilled v = (s : String) × (v ≡ str s) × (is_empty s ≡ false)

-- a list with every validation that is required
IsRestored : Value → Type 0
IsRestored v =
    (vs : Items) × (v ≡ list vs) × All (λ r. contains r (texts_in vs) ≡ true) required_validations

-- The entries from here on, for the classes of those before: each is a mapping of a class that none before has, with a
-- method, a cadence and the validations of a restore; and in the end the classes are just those that are required.
unfoldable pub Covers : List String → Items → Type 0
unfolding IsFilled IsRestored
Covers before nil =
    All (λ name. contains name before ≡ true) required_service_classes
    × All (λ name. contains name required_service_classes ≡ true) before
Covers before (cons v vs) =
    (entry : Fields) × (name : String) × (v ≡ dict entry)
    × (get entry "service_class" ≡ str name)
    × (contains name before ≡ false)
    × IsFilled (get entry "backup_method")
    × IsFilled (get entry "cadence")
    × IsRestored (get entry "restore_validation")
    × Covers (name ∷ before) vs

error_of-nil :
    (error : List String → Error) (names : List String) → error_of error names ≡ [] → names ≡ []
error_of-nil error [] h = refl
error_of-nil error (name ∷ names) h = cc

error_if-nil : (b : Bool) (error : Error) → error_if b error ≡ [] → b ≡ false
error_if-nil true error h = cc
error_if-nil false error h = refl

insert_is_filled :
    (name other : String) (others rest : List String) (o : Ordering)
    → (elim o [
      | Ordering.lt ↦ name ∷ other ∷ others
      | Ordering.eq ↦ other ∷ others
      | Ordering.gt ↦ other ∷ rest
    ])
      ≢ []
insert_is_filled name other others rest Ordering.lt h = cc
insert_is_filled name other others rest Ordering.eq h = cc
insert_is_filled name other others rest Ordering.gt h = cc

insert_sorted-filled : (name : String) (names : List String) → insert_sorted name names ≢ []
unfolding insert_sorted
insert_sorted-filled name [] h = cc
insert_sorted-filled name (other ∷ others) h =
    insert_is_filled name other others _ (compare name other) h

sorted_set-nil : (names : List String) → sorted_set names ≡ [] → names ≡ []
unfolding sorted_set
sorted_set-nil [] h = refl
sorted_set-nil (name ∷ names) h = absurd (insert_sorted-filled name (sorted_set names) h)

without-nil : (xs ys : List String) → without xs ys ≡ [] → All (λ x. contains x ys ≡ true) xs
unfolding without
without-nil [] ys h = tt
without-nil (x ∷ xs) ys h = elim (Bool-cases (contains x ys)) [
  | inl e ↦ (e, without-nil xs ys (rw e at h))
  | inr e ↦ absurd (filled (rw e at h))
]
  where
    filled : x ∷ without xs ys ≢ []
    filled g = cc

-- no error of the names that one list has beyond another
no_difference :
    (error : List String → Error) (xs ys : List String)
    → error_of error (sorted_set (without xs ys)) ≡ []
    → All (λ x. contains x ys ≡ true) xs
no_difference error xs ys h = without-nil xs ys (sorted_set-nil _ (error_of-nil error _ h))

service_errors-nil : (observed : List String) → service_errors observed ≡ [] → Covers observed nil
unfolding service_errors Covers
service_errors-nil observed h =
    let parts =
      none_left (error_of missing_services (sorted_set (without required_service_classes observed)))
        _ h in
    (
      no_difference missing_services required_service_classes observed parts.0,
      no_difference unexpected_services observed required_service_classes parts.1,
    )

filled_text-IsFilled :
    (v : Value) (s : String) → filled_text v ≡ some s → (v ≡ str s) × (is_empty s ≡ false)
unfolding filled_text as_str
filled_text-IsFilled (str t) s h = elim (Bool-cases (is_empty t)) [
  | inl e ↦ absurd (none≢some (rw e at h))
  | inr e ↦ let same = some_inj (rw e at h) in (ap str same, subst (λ x. is_empty x ≡ false) same e)
]
filled_text-IsFilled null s h = cc
filled_text-IsFilled (bool b) s h = cc
filled_text-IsFilled (int n) s h = cc
filled_text-IsFilled (list vs) s h = cc
filled_text-IsFilled (dict fs) s h = cc

text_errors-IsFilled :
    (index : ℕ) (entry : Fields) (key : String)
    → text_errors index entry key ≡ []
    → IsFilled (get entry key)
unfolding text_errors IsFilled
text_errors-IsFilled index entry key h = by_text (filled_text (get entry key)) refl h
  where
    by_text :
        (text : Option String)
        → filled_text (get entry key) ≡ text
        → error_if (elim text [ none ↦ true | some s ↦ false ]) (no_text index key) ≡ []
        → IsFilled (get entry key)
    by_text none e g = cc
    by_text (some s) e g =
        let filled = filled_text-IsFilled (get entry key) s e in (s, filled.0, filled.1)

validate_restore_validation-IsRestored :
    (v : Value) (place : Place) → validate_restore_validation v place ≡ [] → IsRestored v
unfolding validate_restore_validation IsRestored
validate_restore_validation-IsRestored (list vs) place h =
    (vs, refl, no_difference (restore_missing place) required_validations (texts_in vs) h)
validate_restore_validation-IsRestored null place h = cc
validate_restore_validation-IsRestored (bool b) place h = cc
validate_restore_validation-IsRestored (int n) place h = cc
validate_restore_validation-IsRestored (str s) place h = cc
validate_restore_validation-IsRestored (dict fs) place h = cc

-- An entry without errors, and what is known of those behind it.
by_class :
    (index : ℕ) (entry : Fields) (vs : Items) (before : List String) (class : Option String)
    → filled_text (get entry "service_class") ≡ class
    → class_errors index entry before class ≡ []
    → Covers (observe class before) vs
    → Covers before (cons (dict entry) vs)
unfolding Covers entry_errors
by_class index entry vs before none e c later = cc
by_class index entry vs before (some name) e c later =
    let parts =
      none_left (error_if (contains name before) (duplicate_class name)) (entry_errors index entry)
        c in
    let restore =
      none_left (text_errors index entry "backup_method" ++ text_errors index entry "cadence") _
        parts.1 in
    let texts = none_left (text_errors index entry "backup_method") _ restore.0 in
    let fresh = error_if-nil _ _ parts.0 in
    (
      entry,
      name,
      refl,
      (filled_text-IsFilled (get entry "service_class") name e).0,
      fresh,
      text_errors-IsFilled index entry "backup_method" texts.0,
      text_errors-IsFilled index entry "cadence" texts.1,
      validate_restore_validation-IsRestored (get entry "restore_validation") (in_entry index)
          restore.1,
      (rw fresh at later),
    )

none_filled : (error : Error) (errors : List Error) → error ∷ [] ++ errors ≢ []
none_filled error errors h = cc

validate_entries-Covers :
    (index : ℕ) (vs : Items) (before : List String)
    → (validate_entries index vs before).0 ≡ []
    → service_errors (validate_entries index vs before).1 ≡ []
    → Covers before vs
unfolding validate_entries as_dict
validate_entries-Covers index nil before h g = service_errors-nil before g
validate_entries-Covers index (cons (dict entry) vs) before h g =
    let class = filled_text (get entry "service_class") in
    let parts =
      none_left (class_errors index entry before class)
        (validate_entries (suc index) vs (observe class before)).0 h in
    by_class index entry vs before class refl parts.0
      (validate_entries-Covers (suc index) vs (observe class before) parts.1 g)
validate_entries-Covers index (cons null vs) before h g = absurd (none_filled _ _ h)
validate_entries-Covers index (cons (bool b) vs) before h g = absurd (none_filled _ _ h)
validate_entries-Covers index (cons (int n) vs) before h g = absurd (none_filled _ _ h)
validate_entries-Covers index (cons (str s) vs) before h g = absurd (none_filled _ _ h)
validate_entries-Covers index (cons (list us) vs) before h g = absurd (none_filled _ _ h)

coverage_errors-Covers :
    (v : Value) → (coverage_errors v).0 ≡ [] → (vs : Items) × (v ≡ list vs) × Covers [] vs
unfolding coverage_errors
coverage_errors-Covers (list vs) h =
    let parts =
      none_left (validate_entries 0 vs []).0 (service_errors (validate_entries 0 vs []).1) h in
    (vs, refl, validate_entries-Covers 0 vs [] parts.0 parts.1)
coverage_errors-Covers null h = cc
coverage_errors-Covers (bool b) h = cc
coverage_errors-Covers (int n) h = cc
coverage_errors-Covers (str s) h = cc
coverage_errors-Covers (dict fs) h = cc

-- If the policy has no error, then its coverage is a list in which each entry is a mapping of a class of services that no
-- entry before it has, with a method, a cadence and all the validations of a restore that are required; and the classes
-- are just those that are required.
pub validate_policy-Covers :
    (str_of : Value → String) (policy : Fields)
    → Validation.errors (validate_policy str_of policy) ≡ []
    → (vs : Items) × (get policy "vm_lxc_coverage" ≡ list vs) × Covers [] vs
unfolding validate_policy
validate_policy-Covers str_of policy h =
    coverage_errors-Covers _ (none_left _ (coverage_errors (get policy "vm_lxc_coverage")).0 h).1
