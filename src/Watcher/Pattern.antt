-- ===== src/Watcher/Pattern.antt =====
-- The regular expressions of scripts/codex_approval_watcher.py: sequences of characters and of greedy repetitions, with
-- the search of `re` by backtracking. A text without characters beyond ASCII is assumed.
use Prim.Native.String.{String, [], ◌∷◌}
use mathlib.Core.List.{List}
use rfc_codex_gentoo_stage.Prelude.{
  ℕ, zero, suc, code, Bool, not, ◌&&◌, ◌||◌, leb, nat_eq, Option, none, some, if◌then◌else◌,
}
use rfc_codex_gentoo_stage.Text.{is_space, concat}

-- One character of a class, or as many as there are.
pub data Item : Type 0 where
  one many : (ℕ → Bool) → Item

-- the texts that the items take, one for each
abbrev Taken : Type 0
Taken = Option (List String)

abbrev taking : String → Taken → Taken
taking s none = none
taking s (some texts) = some (List.◌∷◌ s texts)

abbrev with_first : (String → String) → Taken → Taken
with_first f none = none
with_first f (some List.[]) = none
with_first f (some (List.◌∷◌ s texts)) = some (List.◌∷◌ (f s) texts)

abbrev or_else : Taken → Taken → Taken
or_else none other = other
or_else (some texts) other = some texts

-- The longest repetition comes first.
unfoldable pub repeat : (ℕ → Bool) → (String → Taken) → String → Taken
repeat test rest [] = taking [] (rest [])
repeat test rest (c ∷ s) =
    let longer = repeat test rest s in
    let stopped = taking [] (rest (c ∷ s)) in
    if test (code c) then or_else (with_first (λ t. c ∷ t) longer) stopped else stopped

abbrev take_one : (ℕ → Bool) → (String → Taken) → String → Taken
take_one test rest [] = none
take_one test rest (c ∷ s) = if test (code c) then taking (c ∷ []) (rest s) else none

unfoldable pub match_items : List Item → String → Taken
unfolding repeat
match_items List.[] s = some List.[]
match_items (List.◌∷◌ (one test) items) s = take_one test (match_items items) s
match_items (List.◌∷◌ (many test) items) s = repeat test (match_items items) s

-- `pattern.search(line)`: the leftmost place where the pattern matches
unfoldable pub search : List Item → String → Taken
unfolding match_items
search items [] = match_items items []
search items (c ∷ s) = let later = search items s in or_else (match_items items (c ∷ s)) later

abbrev pub literal : String → List Item → List Item
literal [] items = items
literal (c ∷ s) items = List.◌∷◌ (one (λ d. nat_eq (code c) d)) (literal s items)

-- `.`
abbrev pub any_char : ℕ → Bool
any_char c = not (nat_eq c 10)

unfoldable pub not_space : ℕ → Bool
unfolding is_space
not_space c = not (is_space c)

abbrev pub not_quote : ℕ → Bool
not_quote c = not (nat_eq c 34)

-- a group of the match: the texts of `count` items behind the first `from`
unfoldable pub group_of : ℕ → ℕ → List String → String
unfolding concat
group_of from zero texts = []
group_of zero (suc count) List.[] = []
group_of zero (suc count) (List.◌∷◌ s texts) =
    concat (List.◌∷◌ s (List.◌∷◌ (group_of zero count texts) List.[]))
group_of (suc from) (suc count) List.[] = []
group_of (suc from) (suc count) (List.◌∷◌ s texts) = group_of from (suc count) texts

-- `ToolCall: exec_command (\{.*\}) thread_id=(\S+)`
abbrev pub exec_call : List Item
exec_call = literal "ToolCall: exec_command {" (
    List.◌∷◌ (many any_char)
      (literal "} thread_id=" (List.◌∷◌ (one not_space) (List.◌∷◌ (many not_space) List.[]))))

-- `ToolCall: apply_patch\b`: the end of the text, or no character of a word
abbrev pub is_word : ℕ → Bool
is_word c =
    (leb 48 c && leb c 57) || (leb 65 c && leb c 90) || nat_eq c 95 || (leb 97 c && leb c 122)

abbrev pub patch_call : List Item
patch_call = literal "ToolCall: apply_patch" (List.◌∷◌ (one (λ c. not (is_word c))) List.[])

abbrev pub patch_call_at_end : String
patch_call_at_end = "ToolCall: apply_patch"

-- `op.dispatch\.exec_approval".*submission.id="([^"]+)"`, and the same for a patch
abbrev pub approval : String → List Item
approval name = literal "op" (
    List.◌∷◌ (one any_char) (
      literal "dispatch." (
        literal name (
          literal "_approval\"" (
            List.◌∷◌ (many any_char) (
              literal "submission" (
                List.◌∷◌ (one any_char) (
                  literal "id=\"" (
                    List.◌∷◌ (one not_quote)
                      (List.◌∷◌ (many not_quote) (literal "\"" List.[])))))))))))

abbrev pub is_digit : ℕ → Bool
is_digit c = leb 48 c && leb c 57

abbrev digits : ℕ → List Item → List Item
digits zero items = items
digits (suc n) items = List.◌∷◌ (one is_digit) (digits n items)

-- `^(\d{4}-\d{2}-\d{2}T[^\s]+)`
abbrev pub timestamp_pattern : List Item
timestamp_pattern = digits 4 (
    literal "-" (
      digits 2 (
        literal "-"
          (digits 2 (literal "T" (List.◌∷◌ (one not_space) (List.◌∷◌ (many not_space) List.[])))))))
