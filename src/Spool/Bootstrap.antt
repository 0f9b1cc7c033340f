-- ===== src/Spool/Bootstrap.antt =====
-- `summarize_repo` and `bootstrap_session` of scripts/forge_memory_spool.py; the documents that
-- `latest_documents` finds by their times are given.
use rfc_codex_gentoo_stage.Prelude.{
  ℤ, pos, String, Bool, true, false, List, [], ◌∷◌, map, Option, none, some, if◌then◌else◌,
}
use rfc_codex_gentoo_stage.Text.{strip, lines_of, is_empty}
use rfc_codex_gentoo_stage.Value.{Value, bool, str, int, list, dict, Fields}
use rfc_codex_gentoo_stage.Spool.Check.{
  git_failed, repo_missing, require_safe_id, reject_secret_keys,
}
use rfc_codex_gentoo_stage.Spool.Files.{
  World, Spool, pure, raise, checked, reject, ◌>>=◌, ◌>>◌, load_json_file,
}
use rfc_codex_gentoo_stage.Spool.Events.{
  object, items, texts, AppendArguments, Appended, append_event,
}
use rfc_codex_gentoo_stage.Spool.Sessions.{
  SessionSummary, Listing, is_closed, take_first, list_sessions,
}

-- A working copy, if it exists: its path and name, and what `git` prints for its arguments, where `none` is a failure.
pub record Repo : Type 0 where
  pub path : String
  pub name : String
  pub exists : Bool
  pub git : List String → Option String
  -- what `latest_documents` finds
  pub documents : List Fields

pub record BootstrapArguments : Type 0 where
  pub spool_root : String
  pub agent_id : String
  pub session_id : String
  pub intent : String
  pub issue_state_file : Option String
  pub blocker_state_file : Option String
  pub memory_notes : List String
  pub notes : List String
  pub session_limit : ℤ
  pub object_store_state : String
  pub mcp_state : String

pub record RepoSummary : Type 0 where
  pub branch : String
  pub commit : String
  pub fields : Fields

abbrev printed : String → Option String → Spool String
printed command none = raise (git_failed command)
printed command (some text) = pure (strip text)

-- `run_git`; the messages leave out the rest of the command
unfoldable pub run_git : Repo → String → List String → Spool String
unfolding strip
run_git repo command arguments = printed command (repo.git (command ∷ arguments))

unfoldable pub filled_lines : List String → List String
filled_lines [] = []
filled_lines (line ∷ rest) =
    let others = filled_lines rest in if is_empty line then others else line ∷ others

abbrev is_dirty : List String → Bool
is_dirty [] = false
is_dirty (line ∷ rest) = true

abbrev require_repo : Repo → Spool (Unit {0})
require_repo repo = if repo.exists then pure tt else raise (repo_missing repo.path)

unfoldable pub summary_fields : Repo → String → String → List String → Fields
unfolding take_first
summary_fields repo branch commit status_lines = object (
    ("path", str repo.path)
    ∷ ("branch", str branch)
    ∷ ("commit", str commit)
    ∷ ("dirty", bool (is_dirty status_lines))
    ∷ ("status_short", texts (take_first 50 status_lines))
    ∷ [])

-- No line of the status is empty.
unfoldable pub summarize_repo : Repo → Spool RepoSummary
unfolding run_git lines_of filled_lines summary_fields reject_secret_keys
summarize_repo repo = do
  require_repo repo
  branch ← run_git repo "branch" ("--show-current" ∷ [])
  commit ← run_git repo "rev-parse" ("HEAD" ∷ [])
  status ← run_git repo "status" ("--short" ∷ [])
  let fields = summary_fields repo branch commit (filled_lines (lines_of status))
  reject (reject_secret_keys [] (dict fields))
  pure (record { branch = branch; commit = commit; fields = fields })

unfoldable pub session_value : SessionSummary → Value
session_value s = dict (
    object (
      ("session_id", str s.session_id)
      ∷ ("event_file", str s.event_file)
      ∷ ("event_count", int (pos s.event_count))
      ∷ ("event_sha256", str s.event_sha256)
      ∷ ("first_timestamp_utc", str s.first_timestamp_utc)
      ∷ ("last_timestamp_utc", str s.last_timestamp_utc)
      ∷ ("last_event_type", str s.last_event_type)
      ∷ ("last_intent", str s.last_intent)
      ∷ ("closed", bool (is_closed s))
      ∷ ("manifest_files", texts s.manifest_files)
      ∷ []))

unfoldable pub listing_value : Listing → Value
unfolding session_value
listing_value listing = dict (
    object (
      ("agent_id", str listing.agent_id)
      ∷ ("session_count", int (pos listing.session_count))
      ∷ ("total_session_count", int (pos listing.total_session_count))
      ∷ ("sessions", list (items (map session_value listing.sessions)))
      ∷ []))

module _ (world : World) where
  unfoldable pub bootstrap_summary :
      BootstrapArguments → Repo → RepoSummary → Listing → Fields → Fields → Fields
  unfolding listing_value
  bootstrap_summary args repo summary listing issue_state blocker_state = object (
      ("bootstrap_schema", str "rfc-codex.forge-bootstrap-summary.v1")
      ∷ ("repo", dict summary.fields)
      ∷ ("latest_documents", list (items (map dict repo.documents)))
      ∷ ("recent_sessions", listing_value listing)
      ∷ ("issue_state", dict issue_state)
      ∷ ("blocker_state", dict blocker_state)
      ∷ ("latest_memory_notes", texts args.memory_notes)
      ∷ ("object_store_state", str args.object_store_state)
      ∷ ("mcp_state", str args.mcp_state)
      ∷ [])

  unfoldable pub start_event :
      BootstrapArguments → Repo → RepoSummary → String → String → Fields → AppendArguments
  start_event args repo summary agent_id session_id fields = record {
    spool_root = args.spool_root;
    agent_id = agent_id;
    session_id = session_id;
    repo = repo.name;
    branch = summary.branch;
    commit = summary.commit;
    event_type = "session-start";
    intent = args.intent;
    actions = "continuity-bootstrap" ∷ [];
    artifacts = "repo-state" ∷ "memory-state" ∷ "issue-state" ∷ "blocker-state" ∷ [];
    notes = args.notes;
    extra_json = some (world.plain (dict fields));
  }

  -- the result of the appended event, with the summary
  unfoldable pub bootstrap_session : BootstrapArguments → Repo → Spool (Appended × Fields)
  unfolding require_safe_id summarize_repo list_sessions load_json_file bootstrap_summary
      reject_secret_keys start_event append_event
  bootstrap_session args repo = do
    agent_id ← checked (require_safe_id args.agent_id "agent-id")
    session_id ← checked (require_safe_id args.session_id "session-id")
    summary ← summarize_repo repo
    listing ← list_sessions world args.spool_root agent_id args.session_limit
    issue_state ← load_json_file world args.issue_state_file "issue-state" repo.path
    blocker_state ← load_json_file world args.blocker_state_file "blocker-state" repo.path
    let fields = bootstrap_summary args repo summary listing issue_state blocker_state
    reject (reject_secret_keys [] (dict fields))
    result ← append_event world (start_event args repo summary agent_id session_id fields)
    pure (result, fields)
