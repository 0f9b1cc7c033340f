-- ===== src/Spool/Events.antt =====
-- `append_event`, `sign_manifest` and `closeout` of scripts/forge_memory_spool.py.
use rfc_codex_gentoo_stage.Prelude.{
  ℕ, zero, suc, pos, String, ◌||◌, leb, nat_eq, List, [], ◌∷◌, map, Option, none, some, ◌==◌,
  if◌then◌else◌, ◌&&◌,
}
use rfc_codex_gentoo_stage.Text.{split, strip_by, concat, is_empty}
use rfc_codex_gentoo_stage.Value.{
  Value, null, str, int, list, dict, Items, nil, cons, Fields, end, field,
}
use rfc_codex_gentoo_stage.Spool.Check.{
  key_file_missing, key_file_empty, require_safe_id, reject_secret_keys,
}
use rfc_codex_gentoo_stage.Spool.Files.{
  World, Spool, pure, raise, checked, reject, uncaught, err, ◌>>=◌, ◌>>◌, read_file, write_file,
  ◌/path◌, event_file_for, count_jsonl_lines, parse_extra_json,
}

abbrev pub object : List (String × Value) → Fields
object [] = end
object ((k, v) ∷ entries) = field k v (object entries)

abbrev pub items : List Value → Items
items [] = nil
items (v ∷ vs) = cons v (items vs)

abbrev pub texts : List String → Value
texts ss = list (items (map str ss))

-- `fields[key] = value`
unfoldable pub set_field : Fields → String → Value → Fields
set_field end key value = field key value end
set_field (field k v fs) key value =
    let rest = set_field fs key value in if k == key then field k value fs else field k v rest

pub record AppendArguments : Type 0 where
  pub spool_root : String
  pub agent_id : String
  pub session_id : String
  pub repo : String
  pub branch : String
  pub commit : String
  pub event_type : String
  pub intent : String
  pub actions : List String
  pub artifacts : List String
  pub notes : List String
  pub extra_json : Option String

pub record CloseArguments : Type 0 where
  pub spool_root : String
  pub agent_id : String
  pub session_id : String
  pub summary : String
  pub signing_key_file : Option String
  pub signing_key_id : String

-- What an appended event is reported with.
pub record Appended : Type 0 where
  pub event_file : String
  pub event_count : ℕ
  pub session_id : String
  pub agent_id : String

-- the first characters of a text
unfoldable pub take_chars : ℕ → String → String
take_chars zero s = String.[]
take_chars (suc n) String.[] = String.[]
take_chars (suc n) (String.◌∷◌ c s) = String.◌∷◌ c (take_chars n s)

-- `s.strip()` of bytes
unfoldable pub strip_bytes : String → String
unfolding strip_by
strip_bytes s = strip_by (λ c. (leb 9 c && leb c 13) || nat_eq c 32) s

abbrev with_extra : Fields → Fields → Fields
with_extra event end = event
with_extra event (field k v fs) = set_field event "extra" (dict (field k v fs))

abbrev pub or_empty : Option String → String
or_empty none = ""
or_empty (some text) = text

module _ (world : World) where
  unfoldable pub event_fields : AppendArguments → String → String → Fields → Fields
  unfolding set_field
  event_fields args agent_id session_id extra =
      with_extra
        (object (
          ("schema", str "rfc-codex.forge-memory-event.v1")
          ∷ ("timestamp_utc", str world.utc_now)
          ∷ ("session_id", str session_id)
          ∷ ("agent_id", str agent_id)
          ∷ ("host", str world.host)
          ∷ ("repo", str args.repo)
          ∷ ("branch", str args.branch)
          ∷ ("commit", str args.commit)
          ∷ ("event_type", str args.event_type)
          ∷ ("intent", str args.intent)
          ∷ ("actions", texts args.actions)
          ∷ ("artifacts", texts args.artifacts)
          ∷ ("notes", texts args.notes)
          ∷ []))
        extra

  -- the text of the log with one more line
  unfoldable pub with_event : Option String → Fields → String
  unfolding concat
  with_event old event = concat (or_empty old ∷ world.canonical (dict event) ∷ "\n" ∷ [])

  -- the part behind the checks of the names and of the extra fields
  unfoldable pub append_to : String → String → String → Fields → Spool Appended
  unfolding reject_secret_keys read_file write_file with_event count_jsonl_lines
  append_to path agent_id session_id event = do
    reject (reject_secret_keys [] (dict event))
    old ← read_file path
    write_file path (with_event old event)
    text ← read_file path
    pure (record {
      event_file = path;
      event_count = count_jsonl_lines text;
      session_id = session_id;
      agent_id = agent_id;
    })

  unfoldable pub append_event : AppendArguments → Spool Appended
  unfolding require_safe_id parse_extra_json event_file_for append_to event_fields
  append_event args = do
    agent_id ← checked (require_safe_id args.agent_id "agent-id")
    session_id ← checked (require_safe_id args.session_id "session-id")
    extra ← parse_extra_json world args.extra_json
    append_to (event_file_for args.spool_root agent_id session_id) agent_id session_id
        (event_fields args agent_id session_id extra)

  abbrev signature : String → List (String × Value) → Value
  signature key_id more =
      dict (object (("algorithm", str "hmac-sha256") ∷ ("key_id", str key_id) ∷ more))

  -- the text that is signed
  unfoldable pub signed_payload : Fields → String → String
  unfolding set_field
  signed_payload manifest key_id = world.canonical (
      dict (
        set_field (set_field manifest "signature_state" (str "signed")) "signature"
          (signature key_id [])))

  unfoldable pub with_signature : Fields → String → String → Fields
  unfolding set_field signed_payload
  with_signature manifest key_id signing_key =
      let payload = signed_payload manifest key_id in
      set_field
        (set_field
          (set_field (set_field manifest "signature_state" (str "signed")) "signature_payload"
            (str payload))
          "signature_payload_sha256" (str (world.sha256 payload)))
        "signature" (signature key_id (("value", str (world.hmac signing_key payload)) ∷ []))

  abbrev signed_with : Fields → String → String → Option String → Spool Fields
  signed_with manifest key_id path none = raise (key_file_missing path)
  signed_with manifest key_id path (some text) =
      if is_empty (strip_bytes text)
      then raise (key_file_empty path)
      else pure (with_signature manifest key_id (strip_bytes text))

  unfoldable pub sign_manifest : Fields → String → String → Spool Fields
  unfolding require_safe_id read_file strip_bytes with_signature
  sign_manifest manifest signing_key_file signing_key_id = do
    key_id ← checked (require_safe_id signing_key_id "signing-key-id")
    text ← read_file signing_key_file
    signed_with manifest key_id signing_key_file text

  unfoldable pub manifest_fields :
      CloseArguments → String → String → String → Option String → Fields
  unfolding count_jsonl_lines
  manifest_fields args agent_id session_id event_path log = object (
      ("schema", str "rfc-codex.forge-memory-manifest.v1")
      ∷ ("closed_at_utc", str world.utc_now)
      ∷ ("session_id", str session_id)
      ∷ ("agent_id", str agent_id)
      ∷ ("host", str world.host)
      ∷ ("summary", str args.summary)
      ∷ ("event_file", str event_path)
      ∷ ("event_count", int (pos (count_jsonl_lines log)))
      ∷ ("event_sha256", str (world.sha256 (or_empty log)))
      ∷ ("signature_state", str "unsigned")
      ∷ ("signature", null)
      ∷ [])

  abbrev signed_if : CloseArguments → Fields → Option String → Spool Fields
  signed_if args manifest none = pure manifest
  signed_if args manifest (some path) =
      if is_empty path then pure manifest else sign_manifest manifest path args.signing_key_id

  -- `spool_root / "manifests" / year / month / day / f"{session_id}.json"`; `none` is the `IndexError`
  -- of a time with fewer parts.
  unfoldable pub manifest_path : String → String → Option String
  unfolding split take_chars ◌/path◌ concat
  manifest_path spool_root session_id = elim (split b'-' (take_chars 10 world.utc_now)) [
    | year ∷ (month ∷ (day ∷ rest)) ↦ some (
        spool_root
        /path "manifests"
        /path year
        /path month
        /path day
        /path concat (session_id ∷ ".json" ∷ []))
    | _ ↦ none
  ]

  abbrev or_uncaught : Option String → Spool String
  or_uncaught none s = (err uncaught, s)
  or_uncaught (some path) s = pure path s

  unfoldable pub closeout : CloseArguments → Spool Appended
  unfolding require_safe_id event_file_for read_file manifest_path manifest_fields sign_manifest
      reject_secret_keys write_file count_jsonl_lines concat
  closeout args = do
    agent_id ← checked (require_safe_id args.agent_id "agent-id")
    session_id ← checked (require_safe_id args.session_id "session-id")
    log ← read_file (event_file_for args.spool_root agent_id session_id)
    path ← or_uncaught (manifest_path args.spool_root session_id)
    manifest ←
        signed_if args
          (manifest_fields args agent_id session_id
            (event_file_for args.spool_root agent_id session_id) log)
          args.signing_key_file
    reject (reject_secret_keys [] (dict manifest))
    write_file path (concat (world.pretty (dict manifest) ∷ "\n" ∷ []))
    pure (record {
      event_file = path;
      event_count = count_jsonl_lines log;
      session_id = session_id;
      agent_id = agent_id;
    })
