-- ===== src/Ntfy/Message.antt =====
-- `normalize_reply_message` of scripts/codex_ntfy_reply_queue.py, with its regular expressions as
-- functions: `\s` is `str.isspace`, and letters are those of ASCII.
use rfc_codex_gentoo_stage.Prelude.{
  ℕ, ℤ, code, Bool, not, ◌&&◌, ◌||◌, leb, nat_eq, Option, none, some, starts_with, ◌==◌,
  if◌then◌else◌, Char,
}
use Prim.Native.String.{String, [], ◌∷◌, char_at}
use rfc_codex_gentoo_stage.Text.{strip, lstrip_by, is_space, is_empty, all_chars, lower}
use rfc_codex_gentoo_stage.Value.{int, str, Fields, field, end}

pub data Decision : Type 0 where
  allow deny : Decision

-- what a reply says: its kind, with the fields that only this kind has
pub data Content : Type 0 where
  permission_reply : String → Decision → Content
  question_reply : String → String → Content
  status_request : String → Content
  unrecognized_reply : Content

pub record Reply : Type 0 where
  pub content : Content
  pub message_id : String
  pub timestamp : ℤ
  pub topic : String
  pub raw_message : String

-- `[A-Za-z0-9._:-]`
unfoldable pub is_id_char : ℕ → Bool
is_id_char c =
    (leb b'A' c && leb c b'Z')
    || (leb b'a' c && leb c b'z')
    || (leb b'0' c && leb c b'9')
    || nat_eq c b'.'
    || nat_eq c b'_'
    || nat_eq c b':'
    || nat_eq c b'-'

-- With IGNORECASE, `[A-Z]` and `[a-z]` match four letters beyond ASCII as well.
unfoldable pub is_folded_letter : ℕ → Bool
is_folded_letter c = nat_eq c 304 || nat_eq c 305 || nat_eq c 383 || nat_eq c 8490

-- `[A-Za-z0-9._:-]+` as a whole text, with IGNORECASE
unfoldable pub is_id : String → Bool
unfolding all_chars is_id_char is_folded_letter
is_id s = not (is_empty s) && all_chars (λ c. is_id_char c || is_folded_letter c) s

-- U+017F, which IGNORECASE takes for an `s`, as an `s`
unfoldable pub with_plain_s : String → String
with_plain_s [] = []
with_plain_s (c ∷ s) = (if nat_eq (code c) 383 then char_at "s" 0 else c) ∷ with_plain_s s

-- the text as IGNORECASE compares it with a word
unfoldable pub fold : String → String
unfolding lower with_plain_s
fold s = lower (with_plain_s s)

-- the text behind the first characters of another one
unfoldable pub drop_like : String → String → String
drop_like [] s = s
drop_like (_ ∷ p) [] = []
drop_like (_ ∷ p) (_ ∷ s) = drop_like p s

-- the text behind at least one space
unfoldable pub after_spaces : String → Option String
unfolding lstrip_by is_space
after_spaces [] = none
after_spaces (c ∷ s) = if is_space (code c) then some (lstrip_by is_space s) else none

abbrev id_only : Option String → Option String
id_only none = none
id_only (some s) = if is_id s then some s else none

-- `^word\s+([A-Za-z0-9._:-]+)\s*$` without regard to case, on a text that is stripped
unfoldable pub match_word : String → String → Option String
unfolding fold drop_like after_spaces is_id
match_word word s =
    if starts_with (fold s) word then id_only (after_spaces (drop_like word s)) else none

-- `^status(?:\s+([A-Za-z0-9._:-]+))?\s*$`, with the empty text for no group
unfoldable pub match_status : String → Option String
unfolding fold match_word
match_status s = if fold s == "status" then some [] else match_word "status" s

-- `\s*:\s*(.+)$`, where the group is not empty
unfoldable pub after_colon : String → Option String
unfolding lstrip_by is_space
after_colon s = elim (lstrip_by is_space s) [
  | [] ↦ none
  | c ∷ t ↦
      if nat_eq (code c) b':' && not (is_empty (lstrip_by is_space t))
      then some (lstrip_by is_space t)
      else none
]

abbrev extend : Char → Option (String × String) → Option String → Option (String × String)
extend c (some (id, answer)) here = some (c ∷ id, answer)
extend c none (some answer) = some (c ∷ [], answer)
extend c none none = none

-- `^([A-Za-z0-9._:-]+)\s*:\s*(.+)$`: the longest group that a colon follows
unfoldable pub match_answer : String → Option (String × String)
unfolding is_id_char after_colon
match_answer [] = none
match_answer (c ∷ s) =
    let longer = match_answer s in
    if is_id_char (code c) then extend c longer (after_colon s) else none

-- the text up to the next `"`, and whether there is one
unfoldable pub quoted_text : String → Option String
quoted_text [] = none
quoted_text (c ∷ s) =
    let rest = quoted_text s in
    if nat_eq (code c) b'"' then some [] else elim rest [ none ↦ none | some t ↦ some (c ∷ t) ]

abbrev quoted_here : Option String → Option String → Option String
quoted_here none later = later
quoted_here (some []) later = later
quoted_here (some (c ∷ s)) later = some (c ∷ s)

-- `message="([^"]+)"`, at the first place where it matches
unfoldable pub search_message : String → Option String
unfolding quoted_text drop_like
search_message [] = none
search_message (c ∷ s) =
    let later = search_message s in
    if starts_with (c ∷ s) "message=\""
    then quoted_here (quoted_text (drop_like "message=\"" (c ∷ s))) later
    else later

unfoldable pub message_text : String → String
unfolding search_message strip
message_text message = elim (search_message (strip message)) [
  | none ↦ strip message
  | some s ↦ strip s
]

-- the first of the patterns that matches
unfoldable pub content_of : String → Content
unfolding match_word match_answer match_status strip
content_of s = elim (match_word "allow" s) [
  | some id ↦ permission_reply id allow
  | none ↦ elim (match_word "deny" s) [
    | some id ↦ permission_reply id deny
    | none ↦ elim (match_answer s) [
      | some (id, answer) ↦ question_reply id (strip answer)
      | none ↦ elim (match_status s) [
        | some id ↦ status_request (strip id)
        | none ↦ unrecognized_reply
      ]
    ]
  ]
]

unfoldable pub normalize_reply_message : String → String → ℤ → String → Option Reply
unfolding message_text content_of
normalize_reply_message message message_id timestamp topic =
    if is_empty (message_text message)
    then none
    else some (record {
      content = content_of (message_text message);
      message_id = message_id;
      timestamp = timestamp;
      topic = topic;
      raw_message = message_text message;
    })

unfoldable pub kind_of : Content → String
kind_of (permission_reply _ _) = "permission_reply"
kind_of (question_reply _ _) = "question_reply"
kind_of (status_request _) = "status_request"
kind_of unrecognized_reply = "unrecognized_reply"

unfoldable pub request_id_of : Content → String
request_id_of (permission_reply id _) = id
request_id_of (question_reply id _) = id
request_id_of (status_request id) = id
request_id_of unrecognized_reply = []

abbrev decision_text : Decision → String
decision_text allow = "allow"
decision_text deny = "deny"

abbrev with_content : Content → Fields → Fields
with_content (permission_reply _ d) fs = field "decision" (str (decision_text d)) fs
with_content (question_reply _ answer) fs = field "answer" (str answer) fs
with_content (status_request _) fs = fs
with_content unrecognized_reply fs = fs

-- the mapping that is written to the queue
unfoldable pub payload_of : Reply → Fields
unfolding kind_of request_id_of
payload_of reply = field "kind" (str (kind_of reply.content)) (
    field "request_id" (str (request_id_of reply.content)) (
      with_content reply.content (
        field "message_id" (str reply.message_id) (
          field "timestamp" (int reply.timestamp)
            (field "topic" (str reply.topic) (field "raw_message" (str reply.raw_message) end))))))
