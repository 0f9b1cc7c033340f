-- ===== src/Identity/Check.antt =====
-- How scripts/validate_identity_source.py reports: `result.errors.append(...)`, in order, and the
-- `TypeError` that a document of an unforeseen shape raises. A message is kept as data: the label in
-- front of it and what it says.
use rfc_codex_gentoo_stage.Prelude.{
  ℕ, suc, String, Bool, true, false, Option, none, some, List, [], ◌∷◌, ◌++◌,
}
use rfc_codex_gentoo_stage.Value.{Value}

-- `place "a"` is "a", `row "groups" 3` is "groups[3]", and `inside l "a"` is "{l}.a".
pub data Label : Type 0 where
  place : String → Label
  row : String → ℕ → Label
  inside : Label → String → Label

-- One constructor for each message of the script.
pub data Problem : Type 0 where
  missing_string not_positive not_list plaintext_secret not_absolute not_vault : String → Problem
  not_mapping bad_version bad_range_type mount_mismatch shared_secret_used : Problem
  not_string : String → ℕ → Problem
  unknown_group : String → String → Problem
  unknown_role : String → Value → Problem
  invalid_address : String → String → Problem
  duplicate_range duplicate_group duplicate_account : String → Problem
  overlapping_range : String → ℕ → ℕ → Problem
  outside_ranges : String → ℕ → Problem
  duplicate_id : String → ℕ → Label → Problem

abbrev pub Finding : Type 0
Finding = Label × Problem

-- A check returns its value beside what it has reported; `none` is a `TypeError`.
abbrev pub Check {ℓ} : Type ℓ → Type ℓ
Check A = Option (A × List Finding)

module _ {ℓ} {A : Type ℓ} where
  abbrev pub pure : A → Check A
  pure a = some (a, [])

  abbrev pub after : List Finding → Check A → Check A
  after ps none = none
  after ps (some (a, qs)) = some (a, ps ++ qs)

infixl 5 ◌>>=◌ ◌>>◌
abbrev pub ◌>>=◌ {ℓ κ} : {A : Type ℓ} {B : Type κ} → Check A → (A → Check B) → Check B
none >>= f = none
some (a, ps) >>= f = after ps (f a)

abbrev pub ◌>>◌ {ℓ} : {B : Type ℓ} → Check (Unit {0}) → Check B → Check B
m >> n = m >>= λ _. n

abbrev pub report : Label → Problem → Check (Unit {0})
report label problem = some (tt, (label, problem) ∷ [])

abbrev pub report_if : Bool → Label → Problem → Check (Unit {0})
report_if true label problem = report label problem
report_if false label problem = pure tt

module _ {ℓ κ} {A : Type ℓ} {S : Type κ} where
  -- `for index, item in enumerate(items)`, from the given index
  unfoldable pub scan : (ℕ → A → S → Check S) → ℕ → List A → S → Check S
  scan step index [] s = pure s
  scan step index (item ∷ items) s = step index item s >>= scan step (suc index) items
