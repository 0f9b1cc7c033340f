-- ===== src/Spool/Files.antt =====
-- The files of scripts/forge_memory_spool.py, its paths, and the reading of logs and JSON files.
use rfc_codex_gentoo_stage.Prelude.{
  ℕ, String, Bool, true, false, ◌||◌, nat_eq, List, [], ◌∷◌, Option, none, some, ◌==◌,
  if◌then◌else◌, ◌⊎◌, inl, inr, starts_with, length,
}
use Prim.Native.String.{len}
use rfc_codex_gentoo_stage.Text.{strip, split_at, concat, is_empty}
use rfc_codex_gentoo_stage.Value.{
  Value, str, list, dict, Fields, end, field, get_or, as_dict, as_list, empty_list,
}
use rfc_codex_gentoo_stage.Dns.Records.{put, find}
use rfc_codex_gentoo_stage.Spool.Check.{
  SpoolError, invalid_event, event_not_object, extra_invalid, extra_not_object, json_missing,
  json_invalid, items_not_list, json_not_object, reject_secret_keys,
}

-- The texts of the files, by their paths.
abbrev pub Files : Type 0
Files = List (String × String)

abbrev pub same_path : String → String → Bool
same_path p q = p == q

-- What the script takes from its surroundings: `json.dumps(v, sort_keys=True, separators=(",", ":"))`, with `indent=2`
-- and plain; `json.loads`, where `none` is a `JSONDecodeError`; the two digests, `str` of a value that is no text, the
-- time, the name of the host, and whether the upload of a file to a URI succeeds after the uploads before.
pub record World : Type 0 where
  pub canonical : Value → String
  pub pretty : Value → String
  pub plain : Value → String
  pub loads : String → Option Value
  pub sha256 : String → String
  pub hmac : String → String → String
  pub str_of : Value → String
  pub utc_now : String
  pub host : String
  pub uploads_well : List (String × String) → String × String → Bool

-- The files, and the uploads made so far.
pub record State : Type 0 where
  pub files : Files
  pub uploads : List (String × String)

pub data Failure : Type 0 where
  spool_error : SpoolError → Failure
  -- an exception that `main` does not catch
  uncaught : Failure

pub data Result {ℓ} (A : Type ℓ) : Type ℓ where
  ok : A → Result A
  err : Failure → Result A

abbrev pub Spool : Type 0 → Type 0
Spool A = State → Result A × State

abbrev pub pure : {A : Type 0} → A → Spool A
pure a s = (ok a, s)

abbrev pub raise : {A : Type 0} → SpoolError → Spool A
raise e s = (err (spool_error e), s)

abbrev pub continue : {A B : Type 0} → Result A → (A → Spool B) → Spool B
continue (ok a) f s = f a s
continue (err e) f s = (err e, s)

infixl 5 ◌>>=◌ ◌>>◌
unfoldable pub ◌>>=◌ : {A B : Type 0} → Spool A → (A → Spool B) → Spool B
◌>>=◌ m f s = let (r, t) = m s in continue r f t

abbrev pub ◌>>◌ : {B : Type 0} → Spool (Unit {0}) → Spool B → Spool B
m >> n = m >>= λ _. n

abbrev pub checked : {A : Type 0} → SpoolError ⊎ A → Spool A
checked (inl e) = raise e
checked (inr a) = pure a

-- raises the error, if there is one
abbrev pub reject : Option SpoolError → Spool (Unit {0})
reject none = pure tt
reject (some e) = raise e

-- the text of the file, if it exists
unfoldable pub read_file : String → Spool (Option String)
unfolding find
read_file path s = (ok (find same_path path s.files), s)

unfoldable pub write_file : String → String → Spool (Unit {0})
unfolding put
write_file path text s = (ok tt, record s { files = put same_path path text s.files })

-- `directory / part`, for a directory other than `.` and `/` and a part without slashes: `.` is left out
unfoldable pub ◌/path◌ : String → String → String
unfolding concat
◌/path◌ directory part = if part == "." then directory else concat (directory ∷ "/" ∷ part ∷ [])

infixl 60 ◌/path◌
unfoldable pub session_dir : String → String → String → String
unfolding ◌/path◌
session_dir spool_root agent_id session_id =
    spool_root /path "agents" /path agent_id /path "sessions" /path session_id

unfoldable pub event_file_for : String → String → String → String
unfolding ◌/path◌ session_dir
event_file_for spool_root agent_id session_id =
    session_dir spool_root agent_id session_id /path "events.jsonl"

-- The lines of a text file; the line behind the last line break and those that a "\r\n" makes are blank, and
-- the callers skip blank lines.
unfoldable pub lines : String → List String
unfolding split_at
lines text = split_at (λ c. nat_eq c 10 || nat_eq c 13) text

unfoldable pub is_blank : String → Bool
unfolding strip
is_blank line = is_empty (strip line)

unfoldable pub without_blank : List String → List String
unfolding is_blank
without_blank [] = []
without_blank (line ∷ rest) =
    let others = without_blank rest in if is_blank line then others else line ∷ others

unfoldable pub count_jsonl_lines : Option String → ℕ
unfolding without_blank lines
count_jsonl_lines none = 0
count_jsonl_lines (some text) = length (without_blank (lines text))

-- `len(text.encode("utf-8"))`
unfoldable pub size_of : String → ℕ
size_of text = len text

module _ (world : World) where
  abbrev pub event_of : String → Option Value → Spool Fields
  event_of path none = raise (invalid_event path)
  event_of path (some v) = elim (as_dict v) [
    | none ↦ raise (event_not_object path)
    | some fs ↦ pure fs
  ]

  unfoldable pub events_of : String → List String → Spool (List Fields)
  unfolding as_dict
  events_of path [] = pure []
  events_of path (line ∷ rest) = do
    event ← event_of path (world.loads line)
    events ← events_of path rest
    pure (event ∷ events)

  abbrev events_in : String → Option String → Spool (List Fields)
  events_in path none = pure []
  events_in path (some text) = events_of path (without_blank (lines text))

  -- The numbers of the lines in the messages are left out.
  unfoldable pub read_jsonl_events : String → Spool (List Fields)
  unfolding events_of without_blank lines read_file
  read_jsonl_events path = do text ← read_file path; events_in path text

  abbrev extra_of : Option Value → Spool Fields
  extra_of none = raise extra_invalid
  extra_of (some v) = elim (as_dict v) [
    | none ↦ raise extra_not_object
    | some fs ↦ do reject (reject_secret_keys [] v); pure fs
  ]

  -- `none` stands for the `None` of an argument that is not given.
  unfoldable pub parse_extra_json : Option String → Spool Fields
  unfolding as_dict reject_secret_keys
  parse_extra_json none = pure end
  parse_extra_json (some raw) = if is_empty raw then pure end else extra_of (world.loads raw)

  abbrev items_value : Value → Value
  items_value (dict fs) = get_or fs "items" (get_or fs "issues" (get_or fs "blockers" empty_list))
  items_value v = v

  abbrev is_array_or_object : Value → Bool
  is_array_or_object (list vs) = true
  is_array_or_object (dict fs) = true
  is_array_or_object v = false

  abbrev pub file_items : String → Value → Fields
  file_items path items = field "path" (str path) (field "items" items end)

  -- the part behind the reading of the JSON text
  unfoldable pub items_of : String → String → Value → Spool Fields
  unfolding as_list reject_secret_keys get_or
  items_of label path v =
      if is_array_or_object v
      then elim (as_list (items_value v)) [
        | none ↦ raise (items_not_list label)
        | some vs ↦ do
          reject (reject_secret_keys [] (items_value v))
          pure (file_items path (items_value v))
      ]
      else raise (json_not_object label)

  abbrev json_of : String → String → Option Value → Spool Fields
  json_of label path none = raise (json_invalid label)
  json_of label path (some v) = items_of label path v

  abbrev json_in : String → String → Option String → Spool Fields
  json_in label path none = raise (json_missing label)
  json_in label path (some text) = json_of label path (world.loads text)

  -- `path_text`, under the base path if it is relative; an absolute path starts with a slash
  unfoldable pub resolved_path : String → String → String
  unfolding concat
  resolved_path base path_text =
      if starts_with path_text "/" then path_text else concat (base ∷ "/" ∷ path_text ∷ [])

  unfoldable pub load_json_file : Option String → String → String → Spool Fields
  unfolding resolved_path items_of read_file
  load_json_file none label base = pure (file_items "" empty_list)
  load_json_file (some path_text) label base =
      if is_empty path_text then pure (file_items "" empty_list) else do
        text ← read_file (resolved_path base path_text)
        json_in label (resolved_path base path_text) text
