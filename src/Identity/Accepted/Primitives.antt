-- ===== src/Identity/Accepted/Primitives.antt =====
-- The field checks of a clean run: what each of them has read.
use rfc_codex_gentoo_stage.Prelude.{
  ℕ, String, false, Option, some, List, [], ◌∷◌, ◌≡◌, arith, All, ◌==◌, not,
}
use rfc_codex_gentoo_stage.Value.{Value, Fields, has_key}
use rfc_codex_gentoo_stage.Identity.Check.{Label, report_if, plaintext_secret, outside_ranges}
use rfc_codex_gentoo_stage.Identity.Fields.{
  required_string, validate_uid_gid, positive_int, reject_keys, reject_secret_values, forbidden,
}
use rfc_codex_gentoo_stage.Identity.Ranges.{IdRange, in_ranges, validate_id_in_freeipa_ranges}
use rfc_codex_gentoo_stage.Identity.Clean.{Clean, >>=-Clean, report_if-Clean}
use rfc_codex_gentoo_stage.Identity.Directory.{read_text, IsCovered}

pub required_string-Clean :
    (row : Fields) (key : String) (label : Label) (s : String)
    → Clean (required_string row key label) s
    → (read_text row key ≡ some s) × ((s == "") ≡ false)
unfolding required_string read_text
required_string-Clean row key label s h = ground arith

pub validate_uid_gid-Clean :
    (v : Value) (key : String) (label : Label) (id : Option ℕ)
    → Clean (validate_uid_gid v key label) id
    → (n : ℕ) × (id ≡ some n) × (positive_int v ≡ some n)
unfolding validate_uid_gid
validate_uid_gid-Clean v key label id h = ground arith

reject_keys-Clean :
    (ks : List String) (row : Fields) (label : Label) (u : Unit {0})
    → Clean (reject_keys ks row label) u
    → All (λ k. has_key row k ≡ false) ks
unfolding reject_keys
reject_keys-Clean [] row label u h = tt
reject_keys-Clean (k ∷ ks) row label u h =
    let (u', first, rest) =
      >>=-Clean (report_if (has_key row k) label (plaintext_secret k))
        (λ _. reject_keys ks row label) h in
    (report_if-Clean _ _ _ _ first, reject_keys-Clean ks row label u rest)

pub reject_secret_values-Clean :
    (row : Fields) (label : Label) (u : Unit {0})
    → Clean (reject_secret_values row label) u
    → All (λ k. has_key row k ≡ false) forbidden
unfolding reject_secret_values
reject_secret_values-Clean row label u h = reject_keys-Clean forbidden row label u h

pub validate_id_in_freeipa_ranges-Clean :
    (id : ℕ) (key : String) (label : Label) (ranges : List IdRange) (u : Unit {0})
    → Clean (validate_id_in_freeipa_ranges id key label ranges) u
    → IsCovered ranges id
unfolding validate_id_in_freeipa_ranges
validate_id_in_freeipa_ranges-Clean id key label [] u h = tt
validate_id_in_freeipa_ranges-Clean id key label (r ∷ rs) u h =
    ground (arith, report_if-Clean (not (in_ranges id (r ∷ rs))) label (outside_ranges key id) u)
