-- ===== src/NtfyHook/Hook.antt =====
-- The handlers and `main` of scripts/codex_ntfy_hook.py.
use rfc_codex_gentoo_stage.Prelude.{
  ℤ, String, Bool, false, ◌||◌, nat_eq, List, [], ◌∷◌, ◌++◌, Option, none, some, ◌==◌,
  if◌then◌else◌,
}
use rfc_codex_gentoo_stage.Text.{strip, rstrip_by, concat, join, lines_of, is_empty}
use rfc_codex_gentoo_stage.Value.{
  Value, str, dict, Fields, end, field, get, get_or, as_dict, as_str, text_by, read_int, ◌or_value◌,
  empty_dict,
}
use rfc_codex_gentoo_stage.Ntfy.Message.{
  Decision, allow, deny, Content, permission_reply, Reply, normalize_reply_message, kind_of,
  payload_of,
}
use rfc_codex_gentoo_stage.Ntfy.Queue.{Queue}
use rfc_codex_gentoo_stage.NtfyHook.Policy.{PolicyFile, Mode, state_driven, advisory, mode_for_kind}
use rfc_codex_gentoo_stage.NtfyHook.Replies.{
  Yield, yields, raises, filled, poll_topic, Queued, queued, nothing, failed, poll_queue_reply,
}

-- What the hook does: a call of `publish_message`, which sends a message (or prints it, in a dry run, and does nothing
-- without a topic or a URL), with its state, title, text, tags and priority; and a decision that is printed for Codex.
pub data Output : Type 0 where
  published : Bool → String → String → String → List String → String → Output
  printed : Fields → Output

-- What the hook takes from its surroundings: the environment, the identifier that is drawn, the times, the policy file,
-- whether the queue exists, what happens to it between the looks, the polls of the topic, and the parameters of reading.
pub record World : Type 0 where
  pub getenv : String → Option String
  pub drawn_id : String
  pub message_id : String
  pub started : ℤ
  pub now : ℤ
  pub policy : PolicyFile
  pub queue_available : Bool
  pub changes : List (Queue → Queue)
  pub polls : List (ℤ → Option String)
  pub loads : String → Option Value
  pub str_of : Value → String

pub data Ending : Type 0 where
  returns crashes : Ending

-- how a run ended, what it did, and the queue that it left
pub record Run : Type 0 where
  pub ending : Ending
  pub outputs : List Output
  pub queue : Queue

abbrev pub done : List Output → Queue → Run
done outputs q = record { ending = returns; outputs = outputs; queue = q }

abbrev pub crash : List Output → Queue → Run
crash outputs q = record { ending = crashes; outputs = outputs; queue = q }

-- with what was done before
abbrev pub after_outputs : List Output → Run → Run
after_outputs outputs run = record run { outputs = outputs ++ run.outputs }

abbrev pub behavior : List (String × Value) → Fields
behavior [] = end
behavior ((k, v) ∷ rest) = field k v (behavior rest)

abbrev pub decision_output : List (String × Value) → Fields
decision_output entries =
    field "hookSpecificOutput"
      (dict (
        field "hookEventName" (str "PermissionRequest")
          (field "decision" (dict (behavior entries)) end)))
      end

abbrev pub allow_output : Fields
allow_output = decision_output (("behavior", str "allow") ∷ [])

abbrev pub deny_output : Fields
deny_output =
    decision_output (("behavior", str "deny") ∷ ("message", str "Denied via ntfy reply") ∷ [])

abbrev pub block_output : Value → Fields
block_output answer = field "decision" (str "block") (field "reason" answer end)

-- `payload.get(key) == wanted`
unfoldable pub has_text_value : Fields → String → String → Bool
unfolding as_str get
has_text_value fields key wanted = elim (as_str (get fields key)) [
  | none ↦ false
  | some s ↦ s == wanted
]

abbrev mode_text : Mode → String
mode_text state_driven = "state-driven"
mode_text advisory = "advisory"

module _ (world : World) where
  unfoldable pub env_or : String → String → String
  env_or name default = elim (world.getenv name) [ none ↦ default | some text ↦ text ]

  unfoldable pub ntfy_base_url : String
  unfolding env_or rstrip_by
  ntfy_base_url =
      rstrip_by (λ c. nat_eq c b'/')
        (env_or "CODEX_NTFY_URL" (env_or "NTFY_URL" (env_or "NTFY_SERVER" "")))

  abbrev or_text : String → String → String
  or_text s t = if is_empty s then t else s

  unfoldable pub ntfy_alert_topic : String
  unfolding env_or
  ntfy_alert_topic = or_text (env_or "CODEX_NTFY_ALERT_TOPIC" "") (
      or_text (env_or "CODEX_NTFY_TOPIC_ACTION_REQUIRED" "") (
        or_text (env_or "CODEX_NTFY_TOPIC" "")
          (or_text (env_or "NTFY_ALERT_TOPIC" "") (env_or "NTFY_TOPIC" ""))))

  unfoldable pub ntfy_reply_topic : String
  unfolding env_or
  ntfy_reply_topic = env_or "CODEX_NTFY_REPLY_TOPIC" (env_or "NTFY_REPLY_TOPIC" "")

  -- `none` is the `ValueError` of a text that is no number.
  unfoldable pub wait_secs : Option ℤ
  unfolding env_or read_int strip
  wait_secs = read_int (strip (env_or "CODEX_NTFY_WAIT_SECS" (env_or "NTFY_WAIT_SECS" "300")))

  unfoldable pub request_id : String
  unfolding env_or
  request_id = env_or "CODEX_NTFY_TEST_REQUEST_ID" world.drawn_id

  unfoldable pub poll_replies : List Yield
  unfolding env_or lines_of strip ntfy_reply_topic ntfy_base_url poll_topic
  poll_replies =
      if is_empty (env_or "CODEX_NTFY_TEST_REPLIES" "")
      then (if is_empty ntfy_reply_topic || is_empty ntfy_base_url
          then []
          else poll_topic world.loads world.str_of world.polls
              (record { newest = world.started; ids = [] }))
      else filled (lines_of (env_or "CODEX_NTFY_TEST_REPLIES" ""))

  -- `str(payload.get(key, ""))`
  unfoldable pub shown : Fields → String → String
  unfolding text_by get_or
  shown payload key = text_by world.str_of (get_or payload key (str ""))

  unfoldable pub advisory_message : Fields → Mode → String → String
  unfolding shown join concat strip
  advisory_message payload mode context = join "\n" (
      concat ("context=" ∷ context ∷ [])
      ∷ concat ("request_id=" ∷ shown payload "request_id" ∷ [])
      ∷ concat ("kind=" ∷ shown payload "kind" ∷ [])
      ∷ concat ("mode=" ∷ mode_text mode ∷ [])
      ∷ ""
      ∷ "reply:"
      ∷ strip (shown payload "raw_message")
      ∷ ""
      ∷ "Policy marked this reply as advisory. No automatic state change was applied."
      ∷ [])

  -- the notice of a reply that is advisory
  unfoldable pub publish_advisory : Fields → String → Bool → Output
  unfolding advisory_message concat
  publish_advisory payload context dry_run =
      published dry_run "notice" (concat ("Codex advisory reply received: " ∷ context ∷ []))
        (advisory_message payload advisory context) ("codex" ∷ "reply" ∷ "advisory" ∷ []) "3"

  -- `tool_input.get(key) or payload.get("tool_input." + key) or ""`, without the first part if the input is no mapping
  unfoldable pub tool_text : Fields → String → String
  unfolding text_by get as_dict ◌or_value◌ concat
  tool_text payload key =
      let outer = get payload (concat ("tool_input." ∷ key ∷ [])) or_value str "" in
      text_by world.str_of (elim (as_dict (get payload "tool_input" or_value empty_dict)) [
        | none ↦ outer
        | some tool_input ↦ get tool_input key or_value outer
      ])

  unfoldable pub permission_command : Fields → String
  unfolding tool_text
  permission_command payload = tool_text payload "command"

  unfoldable pub permission_description : Fields → String
  unfolding tool_text
  permission_description payload = tool_text payload "description"

  unfoldable pub permission_body : Fields → String
  unfolding join concat permission_description permission_command ntfy_reply_topic request_id
  permission_body payload = join "\n" (
      concat ("id: " ∷ request_id ∷ [])
      ∷ concat ("description: " ∷ permission_description payload ∷ [])
      ∷ "command:"
      ∷ permission_command payload
      ∷ ""
      ∷ concat ("reply_topic: " ∷ ntfy_reply_topic ∷ [])
      ∷ concat ("allow " ∷ request_id ∷ [])
      ∷ concat ("deny " ∷ request_id ∷ [])
      ∷ [])

  abbrev pub decide : Decision → Output
  decide allow = printed allow_output
  decide deny = printed deny_output

  abbrev pub permission_content : Content → Option Decision
  permission_content (permission_reply id decision) =
      if id == request_id then some decision else none
  permission_content content = none

  -- one message of the topic; `none` means that the loop goes on
  abbrev pub with_mode : Reply → Bool → Queue → Option Mode → Option Run
  with_mode reply dry_run q none = some (crash [] q)
  with_mode reply dry_run q (some advisory) =
      some (done (publish_advisory (payload_of reply) "PermissionRequest" dry_run ∷ []) q)
  with_mode reply dry_run q (some state_driven) = elim (permission_content reply.content) [
    | none ↦ none
    | some decision ↦ some (done (decide decision ∷ []) q)
  ]

  unfoldable pub permission_message : String → Bool → Queue → Option Run
  unfolding normalize_reply_message mode_for_kind kind_of publish_advisory payload_of
      ntfy_reply_topic request_id
  permission_message message dry_run q =
      elim (normalize_reply_message message world.message_id world.now ntfy_reply_topic) [
        | none ↦ none
        | some reply ↦
            with_mode reply dry_run q (mode_for_kind world.policy (kind_of reply.content))
      ]

  unfoldable pub permission_loop : List Yield → Bool → Queue → Run
  unfolding permission_message
  permission_loop [] dry_run q = done [] q
  permission_loop (raises ∷ rest) dry_run q = crash [] q
  permission_loop (yields message ∷ rest) dry_run q =
      let later = permission_loop rest dry_run q in
      elim (permission_message message dry_run q) [ none ↦ later | some run ↦ run ]

  abbrev pub permission_topic : Option ℤ → Bool → Queue → Run
  permission_topic none dry_run q = crash [] q
  permission_topic (some wait) dry_run q = permission_loop poll_replies dry_run q

  abbrev pub permission_queued : Bool → Queued × Queue → Run
  permission_queued dry_run (failed, q) = crash [] q
  permission_queued dry_run (nothing, q) = permission_topic wait_secs dry_run q
  permission_queued dry_run (queued payload advisory, q) =
      done (publish_advisory payload "PermissionRequest" dry_run ∷ []) q
  permission_queued dry_run (queued payload state_driven, q) =
      if has_text_value payload "decision" "allow"
      then done (printed allow_output ∷ []) q
      else if has_text_value payload "decision" "deny"
      then done (printed deny_output ∷ []) q
      else permission_topic wait_secs dry_run q

  -- the part behind the publication of the request
  unfoldable pub wait_permission : Bool → Queue → Run
  unfolding poll_queue_reply publish_advisory has_text_value wait_secs permission_loop poll_replies
      request_id
  wait_permission dry_run q =
      if world.queue_available
      then elim wait_secs [
        | none ↦ crash [] q
        | some wait ↦ permission_queued dry_run (
            poll_queue_reply world.str_of world.policy request_id "permission_reply" world.changes
              q)
      ]
      else permission_topic wait_secs dry_run q

  unfoldable pub handle_permission_request : Fields → Bool → Queue → Run
  unfolding permission_body ntfy_reply_topic wait_permission
  handle_permission_request payload dry_run q =
      after_outputs
        (published dry_run "action-required" "Codex approval needed" (permission_body payload)
            ("codex" ∷ "approval" ∷ []) "5"
          ∷ [])
        (if dry_run || is_empty ntfy_reply_topic then done [] q else wait_permission dry_run q)
