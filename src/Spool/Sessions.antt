-- ===== src/Spool/Sessions.antt =====
-- `list_sessions` and `bootstrap_session` of scripts/forge_memory_spool.py.
use Prim.Native.String.{compare}
use Prim.Native.Nat.{Ordering}
use rfc_codex_gentoo_stage.Prelude.{
  ℕ, zero, suc, ℤ, pos, ltb_ℤ, String, Bool, true, false, List, [], ◌∷◌, length, Option, none, some,
  ◌==◌, if◌then◌else◌,
}
use rfc_codex_gentoo_stage.Text.{split}
use rfc_codex_gentoo_stage.Sorted.{sort_by, then_by}
use rfc_codex_gentoo_stage.Value.{str, Fields, get_or, text_by}
use rfc_codex_gentoo_stage.Spool.Check.{limit_too_small, require_safe_id}
use rfc_codex_gentoo_stage.Spool.Files.{
  Files, World, Spool, pure, raise, checked, ok, ◌>>=◌, ◌>>◌, read_file, ◌/path◌, read_jsonl_events,
}
use rfc_codex_gentoo_stage.Spool.Events.{or_empty}
use rfc_codex_gentoo_stage.Spool.Publish.{within_dir, list_manifests}

pub record SessionSummary : Type 0 where
  pub session_id : String
  pub event_file : String
  pub event_count : ℕ
  pub event_sha256 : String
  pub first_timestamp_utc : String
  pub last_timestamp_utc : String
  pub last_event_type : String
  pub last_intent : String
  pub manifest_files : List String

-- `bool(manifest_files)`
abbrev pub is_closed : SessionSummary → Bool
is_closed summary = elim summary.manifest_files [ [] ↦ false | _ ∷ _ ↦ true ]

pub record Listing : Type 0 where
  pub agent_id : String
  pub session_count : ℕ
  pub total_session_count : ℕ
  pub sessions : List SessionSummary

-- the name in the middle of `name/events.jsonl`
abbrev session_in : List String → Option String
session_in (name ∷ (file ∷ [])) = if file == "events.jsonl" then some name else none
session_in _ = none

abbrev session_of : Option String → Option String
session_of none = none
session_of (some rest) = session_in (split b'/' rest)

-- the names of `sessions_root.glob("*/events.jsonl")`
unfoldable pub session_names : String → Files → List String
unfolding within_dir split
session_names sessions_root [] = []
session_names sessions_root ((path, text) ∷ files) =
    let rest = session_names sessions_root files in
    elim (session_of (within_dir sessions_root path)) [ none ↦ rest | some name ↦ name ∷ rest ]

abbrev last_event : Fields → List Fields → Fields
last_event e [] = e
last_event e (f ∷ fs) = last_event f fs

unfoldable pub sorted_sessions : String → Spool (List String)
unfolding session_names sort_by
sorted_sessions sessions_root s = (ok (sort_by compare (session_names sessions_root s.files)), s)

-- the order of `(last_timestamp_utc, session_id)`, the other way round
unfoldable pub compare_sessions : SessionSummary → SessionSummary → Ordering
compare_sessions a b =
    then_by (compare b.last_timestamp_utc a.last_timestamp_utc) (compare b.session_id a.session_id)

-- `xs[:n]`
unfoldable pub take_first : {A : Type 0} → ℕ → List A → List A
take_first zero xs = []
take_first (suc n) [] = []
take_first (suc n) (x ∷ xs) = x ∷ take_first n xs

abbrev magnitude : ℤ → ℕ
magnitude (pos n) = n
magnitude n = 0

module _ (world : World) where
  -- `str(event.get(key, ""))`
  unfoldable pub text_field : Fields → String → String
  unfolding text_by get_or
  text_field event name = text_by world.str_of (get_or event name (str ""))

  -- the texts of the first and the last event, or empty ones
  abbrev pub first_field : List Fields → String → String
  first_field [] name = ""
  first_field (e ∷ es) name = text_field e name

  abbrev pub last_field : List Fields → String → String
  last_field [] name = ""
  last_field (e ∷ es) name = text_field (last_event e es) name

  unfoldable pub summary_of :
      String → String → List Fields → Option String → List String → SessionSummary
  unfolding text_field
  summary_of session_id path events log manifest_files = record {
    session_id = session_id;
    event_file = path;
    event_count = length events;
    event_sha256 = world.sha256 (or_empty log);
    first_timestamp_utc = first_field events "timestamp_utc";
    last_timestamp_utc = last_field events "timestamp_utc";
    last_event_type = last_field events "event_type";
    last_intent = last_field events "intent";
    manifest_files = manifest_files;
  }

  unfoldable pub summarize_sessions : String → String → List String → Spool (List SessionSummary)
  unfolding read_jsonl_events read_file list_manifests summary_of ◌/path◌
  summarize_sessions spool_root sessions_root [] = pure []
  summarize_sessions spool_root sessions_root (session_id ∷ rest) = do
    let path = sessions_root /path session_id /path "events.jsonl"
    events ← read_jsonl_events world path
    log ← read_file path
    manifest_files ← list_manifests spool_root session_id
    others ← summarize_sessions spool_root sessions_root rest
    pure (summary_of session_id path events log manifest_files ∷ others)

  unfoldable pub listing_of : String → ℕ → List SessionSummary → Listing
  unfolding sort_by compare_sessions take_first
  listing_of agent_id limit summaries =
      let limited = take_first limit (sort_by compare_sessions summaries) in
      record {
        agent_id = agent_id;
        session_count = length limited;
        total_session_count = length summaries;
        sessions = limited;
      }

  abbrev require_limit : ℤ → Spool (Unit {0})
  require_limit limit = if ltb_ℤ limit (pos 1) then raise limit_too_small else pure tt

  unfoldable pub list_sessions : String → String → ℤ → Spool Listing
  unfolding require_safe_id sorted_sessions summarize_sessions listing_of ◌/path◌
  list_sessions spool_root agent limit = do
    agent_id ← checked (require_safe_id agent "agent-id")
    require_limit limit
    let sessions_root = spool_root /path "agents" /path agent_id /path "sessions"
    session_ids ← sorted_sessions sessions_root
    summaries ← summarize_sessions spool_root sessions_root session_ids
    pure (listing_of agent_id (magnitude limit) summaries)
