-- ===== src/Text.antt =====
-- The operations of Python's `str` that the scripts call: `strip`, `lower`, `split`, `splitlines`.
pub mod Laws
pub mod Ends
use Prim.Native.String.{[], ◌∷◌, ◌++◌, char_at}
use mathlib.Core.List
use mathlib.Core.List.{List}
use rfc_codex_gentoo_stage.Prelude.{
  ℕ, String, code, Bool, true, false, ◌&&◌, ◌||◌, leb, nat_eq, if◌then◌else◌, Char, Option, ◌==◌,
  none, starts_with, ◌-◌, ◌≡◌, some, refl,
}

-- The characters for which `str.isspace` holds, all of Unicode.
unfoldable pub is_space : ℕ → Bool
is_space c =
    (leb 9 c && leb c 13)
    || (leb 28 c && leb c 32)
    || nat_eq c 133
    || nat_eq c 160
    || nat_eq c 5760
    || (leb 8192 c && leb c 8202)
    || nat_eq c 8232
    || nat_eq c 8233
    || nat_eq c 8239
    || nat_eq c 8287
    || nat_eq c 12288

-- `not s`
abbrev pub is_empty : String → Bool
is_empty [] = true
is_empty (_ ∷ _) = false

-- `s.lstrip()` for the characters that `test` holds of
unfoldable pub lstrip_by : (ℕ → Bool) → String → String
lstrip_by test [] = []
lstrip_by test (c ∷ s) = if test (code c) then lstrip_by test s else c ∷ s

-- `s.rstrip()` for the characters that `test` holds of
unfoldable pub rstrip_by : (ℕ → Bool) → String → String
rstrip_by test [] = []
rstrip_by test (c ∷ s) =
    let rest = rstrip_by test s in if test (code c) && is_empty rest then [] else c ∷ rest

unfoldable pub strip_by : (ℕ → Bool) → String → String
unfolding lstrip_by rstrip_by
strip_by test s = rstrip_by test (lstrip_by test s)

unfoldable pub strip : String → String
unfolding strip_by is_space
strip s = strip_by is_space s

-- Every character passes the test.
unfoldable pub all_chars : (ℕ → Bool) → String → Bool
all_chars test [] = true
all_chars test (c ∷ s) = test (code c) && all_chars test s

-- `"".join(parts)`, or an f-string of the parts
unfoldable pub concat : List String → String
concat List.[] = []
concat (List.◌∷◌ s ss) = s ++ concat ss

-- `sep.join(parts)`
unfoldable pub join : String → List String → String
join sep List.[] = []
join sep (List.◌∷◌ s List.[]) = s
join sep (List.◌∷◌ s (List.◌∷◌ t ts)) = s ++ sep ++ join sep (List.◌∷◌ t ts)

-- `needle in s`
unfoldable pub has_text : String → String → Bool
has_text needle [] = needle == []
has_text needle (c ∷ s) = starts_with (c ∷ s) needle || has_text needle s

to_upper : Char → Char
to_upper c =
    if leb b'a' (code c) && leb (code c) b'z'
    then char_at "ABCDEFGHIJKLMNOPQRSTUVWXYZ" (code c - b'a')
    else c

to_lower : Char → Char
to_lower c =
    if leb b'A' (code c) && leb (code c) b'Z'
    then char_at "abcdefghijklmnopqrstuvwxyz" (code c - b'A')
    else c

-- `s.upper()`, for the ASCII letters; any other character stays.
unfoldable pub upper : String → String
unfolding to_upper
upper [] = []
upper (c ∷ s) = to_upper c ∷ upper s

-- `s.lower()`, for the ASCII letters; any other character stays.
unfoldable pub lower : String → String
unfolding to_lower
lower [] = []
lower (c ∷ s) = to_lower c ∷ lower s

is_line_break : ℕ → Bool
is_line_break c =
    (leb 10 c && leb c 13)
    || (leb 28 c && leb c 30)
    || nat_eq c 133
    || nat_eq c 8232
    || nat_eq c 8233

-- `s.split(...)` at every character that passes the test
unfoldable pub split_at : (ℕ → Bool) → String → List String
split_at test [] = List.◌∷◌ [] List.[]
split_at test (c ∷ s) =
    let rest = split_at test s in
    if test (code c)
    then List.◌∷◌ [] rest
    else elim rest [ List.[] ↦ List.[] | List.◌∷◌ w ws ↦ List.◌∷◌ (c ∷ w) ws ]

-- `s.splitlines()`, but for the empty line that stands for the "\n" of a "\r\n", and one behind the
-- last line break; the callers skip empty lines.
unfoldable pub lines_of : String → List String
unfolding split_at is_line_break
lines_of s = split_at is_line_break s

-- The text in front of the first separator of one character, and what stands behind it.
unfoldable pub partition : ℕ → String → String × Option String
partition sep [] = ([], none)
partition sep (c ∷ s) =
    let rest = partition sep s in if nat_eq (code c) sep then ([], some s) else (c ∷ rest.0, rest.1)

lower_upper : (lower "Vault_KEY-Ä" == "vault_key-Ä") ≡ true
unfolding lower
lower_upper = refl

-- `s.split(sep)` for a separator of one character
unfoldable pub split : ℕ → String → List String
unfolding split_at
split sep s = split_at (λ c. nat_eq c sep) s

unfoldable pub drop_prefix : String → String → String
drop_prefix [] s = s
drop_prefix (_ ∷ p) [] = []
drop_prefix (_ ∷ p) (_ ∷ s) = drop_prefix p s

-- `s.split(needle, 1)[0]`
unfoldable pub before_text : String → String → String
before_text needle [] = []
before_text needle (c ∷ s) =
    let rest = before_text needle s in if starts_with (c ∷ s) needle then [] else c ∷ rest

-- `s.split(needle, 1)[1]`, for a text that holds the needle
unfoldable pub after_text : String → String → String
unfolding drop_prefix
after_text needle [] = []
after_text needle (c ∷ s) =
    let rest = after_text needle s in
    if starts_with (c ∷ s) needle then drop_prefix needle (c ∷ s) else rest

-- `s + t`
abbrev pub append : String → String → String
append s t = s ++ t
