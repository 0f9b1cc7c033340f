-- ===== src/Spool/Check.antt =====
-- The checks of scripts/forge_memory_spool.py on names, prefixes, buckets and keys.
use Prim.Native.String.{[], ◌∷◌, char_at}
use rfc_codex_gentoo_stage.Prelude.{
  ℕ, suc, code, Char, String, Bool, true, false, not, ◌&&◌, ◌||◌, nat_eq, List, ◌++◌, Option, none,
  some, ◌==◌, if◌then◌else◌, ◌⊎◌, inl, inr, ◌≡◌, refl,
}
use rfc_codex_gentoo_stage.Text.{is_empty, split, strip_by, lower, has_text, join}
use rfc_codex_gentoo_stage.Value.{Value, list, dict, Items, nil, cons, Fields, end, field}
use rfc_codex_gentoo_stage.Ntfy.Message.{is_id_char}

-- a step of the path to a value: a key of an object, or an index of an array
pub data Step : Type 0 where
  at_key : String → Step
  at_index : ℕ → Step

-- What the messages of `SpoolError` say.
pub data SpoolError : Type 0 where
  unsafe_id : String → SpoolError
  empty_prefix unsafe_prefix unsafe_bucket : SpoolError
  -- the path to the object that has the key, and the key
  secret_key : List Step → String → SpoolError
  invalid_event event_not_object : String → SpoolError
  extra_invalid extra_not_object : SpoolError
  json_missing json_invalid items_not_list json_not_object : String → SpoolError
  key_file_missing key_file_empty : String → SpoolError
  object_exists : String → SpoolError
  event_log_missing : String → SpoolError
  manifest_missing : String → SpoolError
  store_root_missing : SpoolError
  upload_failed : String → SpoolError
  limit_too_small : SpoolError
  git_failed repo_missing : String → SpoolError

-- `^[A-Za-z0-9._:-]+$` matched at the beginning, where `$` stands at the end or in front of a last
-- newline
unfoldable pub is_safe_id : String → Bool
unfolding is_id_char
is_safe_id [] = false
is_safe_id (c ∷ []) = is_id_char (code c)
is_safe_id (c ∷ (d ∷ [])) = is_id_char (code c) && (is_id_char (code d) || nat_eq (code d) 10)
is_safe_id (c ∷ (d ∷ (e ∷ s))) = is_id_char (code c) && is_safe_id (d ∷ (e ∷ s))

unfoldable pub require_safe_id : String → String → SpoolError ⊎ String
unfolding is_safe_id
require_safe_id value field_name =
    if is_safe_id value then inr value else inl (unsafe_id field_name)

unfoldable pub is_unsafe_part : String → Bool
is_unsafe_part part = is_empty part || part == "." || part == ".."

unfoldable pub all_safe : List String → Bool
unfolding is_unsafe_part
all_safe List.[] = true
all_safe (List.◌∷◌ part parts) = not (is_unsafe_part part) && all_safe parts

-- the prefix without the slashes around it
unfoldable pub stripped_prefix : String → String
unfolding strip_by
stripped_prefix raw_prefix = strip_by (λ c. nat_eq c b'/') raw_prefix

unfoldable pub normalized_prefix : String → SpoolError ⊎ String
unfolding stripped_prefix split all_safe
normalized_prefix raw_prefix =
    let prefix = stripped_prefix raw_prefix in
    if is_empty prefix
    then inl empty_prefix
    else if all_safe (split b'/' prefix)
    then inr prefix
    else inl unsafe_prefix

unfoldable pub require_s3_bucket : String → SpoolError ⊎ String
unfolding has_text
require_s3_bucket bucket =
    if is_empty bucket || has_text "/" bucket || bucket == "." || bucket == ".."
    then inl unsafe_bucket
    else inr bucket

-- A letter as IGNORECASE compares it: four letters beyond ASCII stand for `i`, `s` and `k`.
fold_letter : Char → Char
fold_letter c =
    if nat_eq (code c) 304 || nat_eq (code c) 305
    then char_at "i" 0
    else if nat_eq (code c) 383
    then char_at "s" 0
    else if nat_eq (code c) 8490
    then char_at "k" 0
    else c

unfoldable pub folded : String → String
unfolding fold_letter
folded [] = []
folded (c ∷ s) = fold_letter c ∷ folded s

-- `left[_-]?right`
unfoldable pub has_joined : String → String → String → Bool
unfolding has_text join
has_joined left right s =
    has_text (join "" (List.◌∷◌ left (List.◌∷◌ right List.[]))) s
    || has_text (join "_" (List.◌∷◌ left (List.◌∷◌ right List.[]))) s
    || has_text (join "-" (List.◌∷◌ left (List.◌∷◌ right List.[]))) s

-- `SECRET_KEY.search(key)`
unfoldable pub is_secret_key : String → Bool
unfolding folded lower has_joined has_text
is_secret_key text =
    let s = lower (folded text) in
    has_joined "api" "key" s
    || has_joined "api" "token" s
    || has_joined "auth" "token" s
    || has_text "bearer" s
    || has_joined "client" "secret" s
    || has_text "keytab" s
    || has_text "password" s
    || has_joined "private" "key" s
    || has_text "secret" s
    || has_text "token" s

-- the error that is raised, if any, with the path from the outermost value
abbrev pub or_else : Option SpoolError → Option SpoolError → Option SpoolError
or_else none rest = rest
or_else (some e) rest = some e

abbrev pub steps : List Step → Step → List Step
steps path step = path ++ List.◌∷◌ step List.[]

unfoldable mutual
  unfolding is_secret_key

  pub reject_secret_keys : List Step → Value → Option SpoolError
  reject_secret_keys path (dict fs) = reject_fields path fs
  reject_secret_keys path (list vs) = reject_items path 0 vs
  reject_secret_keys path v = none

  pub reject_fields : List Step → Fields → Option SpoolError
  reject_fields path end = none
  reject_fields path (field k v fs) =
      let nested = reject_secret_keys (steps path (at_key k)) v in
      let rest = reject_fields path fs in
      if is_secret_key k then some (secret_key path k) else or_else nested rest

  pub reject_items : List Step → ℕ → Items → Option SpoolError
  reject_items path n nil = none
  reject_items path n (cons v vs) =
      let nested = reject_secret_keys (steps path (at_index n)) v in
      let rest = reject_items path (suc n) vs in or_else nested rest

secret_names :
    (is_secret_key "X-Api-Key" ≡ true)
    × (is_secret_key "client_SECRET" ≡ true)
    × (is_secret_key "note" ≡ false)
    × (is_secret_key "event_sha256" ≡ false)
unfolding is_secret_key
secret_names = (refl, refl, refl, refl)
