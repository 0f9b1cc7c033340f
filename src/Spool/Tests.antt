-- ===== src/Spool/Tests.antt =====
-- Runs of scripts/forge_memory_spool.py on a small spool.
use rfc_codex_gentoo_stage.Prelude.{
  String, true, false, [], ◌∷◌, Option, none, some, subst, sym, ◌∙◌, ◌≡◌, ◌≢◌, refl, ◌==◌,
  if◌then◌else◌,
}
use rfc_codex_gentoo_stage.Text.{concat, all_chars}
use rfc_codex_gentoo_stage.Value.{
  Value, null, str, list, nil, cons, Items, dict, Fields, field, end, get,
}
use rfc_codex_gentoo_stage.Dns.Records.{find}
use rfc_codex_gentoo_stage.Spool.Check.{
  object_exists, secret_key, at_key, at_index, is_safe_id, reject_secret_keys,
}
use rfc_codex_gentoo_stage.Spool.Keys.{all_keys, IsVerdict, reject_secret_keys-IsVerdict}
use rfc_codex_gentoo_stage.Spool.Files.{
  ◌>>=◌, is_blank, World, State, ok, err, spool_error, lines, without_blank, same_path,
  event_file_for, read_jsonl_events, parse_extra_json,
}
use rfc_codex_gentoo_stage.Spool.Events.{AppendArguments, append_event, event_fields}
use rfc_codex_gentoo_stage.Spool.Publish.{PublishArguments, Session, find_session, publish_session}
use rfc_codex_gentoo_stage.Spool.Appends.{HoldsLog, IsOneLine, append_event-Appends}
use rfc_codex_gentoo_stage.Spool.Lines.{ends_line}
use rfc_codex_gentoo_stage.Spool.Stored.{sort_keys, sort_fields}
use rfc_codex_gentoo_stage.Spool.Safety.{published_files_stay}
use rfc_codex_gentoo_stage.Spool.Paths.{IsKeyed, find_session-IsKeyed}

-- an object that has an array with an object in it
abbrev nested : Value
nested =
    dict (field "notes" (list (cons (str "x") (cons (dict (field "Api-Key" null end)) nil))) end)

finds_secret :
    reject_secret_keys [] nested ≡ some (secret_key (at_key "notes" ∷ at_index 1 ∷ []) "Api-Key")
unfolding reject_secret_keys
finds_secret = refl

reject_secret_keys-IsVerdict_example : IsVerdict (all_keys nested) (reject_secret_keys [] nested)
reject_secret_keys-IsVerdict_example = reject_secret_keys-IsVerdict [] nested

-- A name that leaves the directory of the sessions is accepted.
dots_are_safe :
    (is_safe_id ".." ≡ true)
    × (event_file_for "/spool" "forge" ".." ≡ "/spool/agents/forge/sessions/../events.jsonl")
unfolding is_safe_id event_file_for
dots_are_safe = (refl, refl)

-- So is a name with a line break at its end.
newline_is_safe : is_safe_id "s1\n" ≡ true
unfolding is_safe_id
newline_is_safe = refl

abbrev agent : String
agent = "forge"

abbrev session : String
session = "s1"

agent_safe : is_safe_id agent ≡ true
unfolding is_safe_id
agent_safe = refl

session_safe : is_safe_id session ≡ true
unfolding is_safe_id
session_safe = refl

abbrev arguments : AppendArguments
arguments = record {
  spool_root = "/spool";
  agent_id = agent;
  session_id = session;
  repo = "r";
  branch = "main";
  commit = "c";
  event_type = "note";
  intent = "i";
  actions = "a" ∷ [];
  artifacts = [];
  notes = [];
  extra_json = none;
}

abbrev old_event : Fields
old_event = field "schema" (str "old") end

-- JSON texts of values whose texts need no escapes
mutual
  unfolding concat

  write_json : Value → String
  write_json (str s) = concat ("\"" ∷ s ∷ "\"" ∷ [])
  write_json (list vs) = concat ("[" ∷ write_items vs ∷ "]" ∷ [])
  write_json (dict fs) = concat ("{" ∷ write_fields fs ∷ "}" ∷ [])
  write_json v = "null"

  write_items : Items → String
  write_items nil = ""
  write_items (cons v nil) = write_json v
  write_items (cons v vs) = concat (write_json v ∷ "," ∷ write_items vs ∷ [])

  write_fields : Fields → String
  write_fields end = ""
  write_fields (field k v end) = concat ("\"" ∷ k ∷ "\":" ∷ write_json v ∷ [])
  write_fields (field k v fs) =
      concat ("\"" ∷ k ∷ "\":" ∷ write_json v ∷ "," ∷ write_fields fs ∷ [])

abbrev sorted_json : Value → String
sorted_json v = write_json (sort_keys v)

abbrev base_world : (String → Option Value) → World
base_world loads = record {
  canonical = sorted_json;
  pretty = sorted_json;
  plain = write_json;
  loads = loads;
  sha256 = λ s. concat ("sha:" ∷ s ∷ []);
  hmac = λ k s. s;
  str_of = λ v. "";
  utc_now = "2026-05-01T00:00:00Z";
  host = "h";
  uploads_well = λ sent upload. true;
}

abbrev world : World
world = base_world (λ s.
    if s == "{\"schema\":\"old\"}"
    then some (dict old_event)
    else if s
        == "{\"actions\":[\"a\"],\"agent_id\":\"forge\",\"artifacts\":[],\"branch\":\"main\",\"commit\":\"c\",\"event_type\":\"note\",\"host\":\"h\",\"intent\":\"i\",\"notes\":[],\"repo\":\"r\",\"schema\":\"rfc-codex.forge-memory-event.v1\",\"session_id\":\"s1\",\"timestamp_utc\":\"2026-05-01T00:00:00Z\"}"
    then some (sort_keys (dict (event_fields (base_world (λ s. none)) arguments agent session end)))
    else none)

abbrev log_file : String
log_file = "/spool/agents/forge/sessions/s1/events.jsonl"

abbrev spool : State
spool = record {
  files = (log_file, "{\"schema\":\"old\"}\n") ∷ ("/spool/manifests/2026/05/01/s1.json", "m") ∷ [];
  uploads = [];
}

no_extra : parse_extra_json world none spool ≡ (ok end, spool)
unfolding parse_extra_json
no_extra = refl

no_secret : reject_secret_keys [] (dict (event_fields world arguments agent session end)) ≡ none
unfolding reject_secret_keys event_fields
no_secret = refl

one_line : IsOneLine world (event_fields world arguments agent session end)
unfolding event_fields all_chars is_blank sort_keys write_json
one_line = (refl, refl, refl)

abbrev expected : Fields
expected = sort_fields (event_fields world arguments agent session end)

HoldsLog-spool : HoldsLog world spool log_file (old_event ∷ [])
unfolding find lines without_blank is_blank ends_line
HoldsLog-spool = (refl, (refl, tt))

log_path : event_file_for "/spool" agent session ≡ log_file
unfolding event_file_for
log_path = refl

HoldsLog-at : HoldsLog world spool (event_file_for "/spool" agent session) (old_event ∷ [])
HoldsLog-at = subst (λ p. HoldsLog world spool p (old_event ∷ [])) (sym log_path) HoldsLog-spool

abbrev manifest_file : String
manifest_file = "/spool/manifests/2026/05/01/s1.json"

other_file : manifest_file ≢ log_file
other_file h = cc

other_file_at : manifest_file ≢ event_file_for "/spool" agent session
other_file_at h = other_file (h ∙ log_path)

append_event-Appends_example :
    (t : State) × (append_event world arguments spool ≡ (
      ok (record {
        event_file = event_file_for "/spool" agent session;
        event_count = 2;
        session_id = session;
        agent_id = agent;
      }),
      t,
    ))
    × HoldsLog world t (event_file_for "/spool" agent session) (old_event ∷ expected ∷ [])
    × (read_jsonl_events world (event_file_for "/spool" agent session) t
        ≡ (ok (old_event ∷ expected ∷ []), t))
    × (find same_path manifest_file t.files ≡ find same_path manifest_file spool.files)
    × ((name : String)
        → get expected name ≡ sort_keys (get (event_fields world arguments agent session end) name))
append_event-Appends_example =
    append_event-Appends world arguments spool (old_event ∷ []) end manifest_file agent_safe
      session_safe no_extra no_secret one_line HoldsLog-at other_file_at

abbrev publish_arguments : PublishArguments
publish_arguments = record {
  spool_root = "/spool";
  is_filesystem = true;
  object_store_root = "/store";
  s3_bucket = "";
  s3_prefix = "p";
  session_id = session;
  agent_id = agent;
  prefix = "p";
  overwrite = false;
}

abbrev found_session : Session
found_session = record {
  agent_id = agent;
  session_id = session;
  prefix = "p";
  event_path = log_file;
  closeout_manifest = manifest_file;
  event_key = "p/agents/forge/sessions/s1/events.jsonl";
  manifest_key = "p/manifests/2026/05/01/s1.json";
  publish_manifest_key = "p/publish-manifests/forge/s1.json";
}

is_found : find_session world publish_arguments spool ≡ (ok found_session, spool)
unfolding find_session ◌>>=◌
is_found = refl

find_session-IsKeyed_example : IsKeyed publish_arguments found_session
find_session-IsKeyed_example =
    find_session-IsKeyed world publish_arguments spool spool found_session is_found

abbrev object_file : String
object_file = "/store/p/manifests/2026/05/01/s1.json"

abbrev stored : State
stored = record { files = (object_file, "older") ∷ spool.files; uploads = [] }

-- The event log is copied before the manifest is found to be taken.
publish_raises : publish_session world publish_arguments stored ≡ (
  err (spool_error (object_exists object_file)),
  record {
    files =
        (object_file, "older")
        ∷ (log_file, "{\"schema\":\"old\"}\n")
        ∷ (manifest_file, "m")
        ∷ ("/store/p/agents/forge/sessions/s1/events.jsonl", "{\"schema\":\"old\"}\n")
        ∷ [];
    uploads = [];
  },
)
unfolding publish_session ◌>>=◌
publish_raises = refl

is_stored : find same_path object_file stored.files ≡ some "older"
unfolding find
is_stored = refl

published_files_stay_example :
    find same_path object_file (publish_session world publish_arguments stored).1.files
    ≡ some "older"
published_files_stay_example =
    published_files_stay world publish_arguments stored object_file "older" refl refl is_stored
