-- ===== src/NtfyHook/Stop.antt =====
-- `handle_stop` and `main` of scripts/codex_ntfy_hook.py.
use rfc_codex_gentoo_stage.Prelude.{
  ℤ, String, Bool, not, ◌&&◌, ◌||◌, List, [], ◌∷◌, Option, none, some, ◌==◌, if◌then◌else◌,
}
use rfc_codex_gentoo_stage.Text.{strip, concat, join, is_empty, has_text}
use rfc_codex_gentoo_stage.Value.{Value, str, Fields, get, as_dict, is_truthy, text_by, ◌or_value◌}
use rfc_codex_gentoo_stage.Ntfy.Message.{
  Content, question_reply, Reply, normalize_reply_message, kind_of, payload_of,
}
use rfc_codex_gentoo_stage.Ntfy.Queue.{Queue}
use rfc_codex_gentoo_stage.NtfyHook.Policy.{Mode, state_driven, advisory, mode_for_kind}
use rfc_codex_gentoo_stage.NtfyHook.Replies.{
  Yield, yields, raises, Queued, queued, nothing, failed, poll_queue_reply,
}
use rfc_codex_gentoo_stage.NtfyHook.Hook.{
  World, Run, published, printed, done, crash, after_outputs, block_output, has_text_value,
  publish_advisory, ntfy_reply_topic, ntfy_alert_topic, ntfy_base_url, request_id, wait_secs,
  poll_replies, handle_permission_request,
}

module _ (world : World) where
  unfoldable pub last_message_of : Fields → String
  unfolding strip text_by get ◌or_value◌
  last_message_of payload = strip (
      text_by world.str_of (
        get payload "last_assistant_message"
        or_value (get payload "last-assistant-message" or_value str "")))

  unfoldable pub question_body : String → String
  unfolding join concat ntfy_reply_topic request_id
  question_body last_message = join "\n" (
      concat ("id: " ∷ request_id world ∷ [])
      ∷ ""
      ∷ last_message
      ∷ ""
      ∷ concat ("reply_topic: " ∷ ntfy_reply_topic world ∷ [])
      ∷ concat (request_id world ∷ ": <your answer>" ∷ [])
      ∷ [])

  -- an answer to the request that is not empty
  abbrev pub question_content : Content → Option String
  question_content (question_reply id answer) =
      if id == request_id world && not (is_empty answer) then some answer else none
  question_content content = none

  abbrev with_mode : Reply → Bool → Queue → Option Mode → Option Run
  with_mode reply dry_run q none = some (crash [] q)
  with_mode reply dry_run q (some advisory) =
      some (done (publish_advisory world (payload_of reply) "Stop" dry_run ∷ []) q)
  with_mode reply dry_run q (some state_driven) = elim (question_content reply.content) [
    | none ↦ none
    | some answer ↦ some (done (printed (block_output (str answer)) ∷ []) q)
  ]

  unfoldable pub stop_message : String → Bool → Queue → Option Run
  unfolding normalize_reply_message mode_for_kind kind_of publish_advisory payload_of
      ntfy_reply_topic request_id
  stop_message message dry_run q =
      elim (normalize_reply_message message world.message_id world.now (ntfy_reply_topic world)) [
        | none ↦ none
        | some reply ↦
            with_mode reply dry_run q (mode_for_kind world.policy (kind_of reply.content))
      ]

  unfoldable pub stop_loop : List Yield → Bool → Queue → Run
  unfolding stop_message
  stop_loop [] dry_run q = done [] q
  stop_loop (raises ∷ rest) dry_run q = crash [] q
  stop_loop (yields message ∷ rest) dry_run q =
      let later = stop_loop rest dry_run q in
      elim (stop_message message dry_run q) [ none ↦ later | some run ↦ run ]

  abbrev stop_topic : Option ℤ → Bool → Queue → Run
  stop_topic none dry_run q = crash [] q
  stop_topic (some wait) dry_run q = stop_loop (poll_replies world) dry_run q

  abbrev stop_queued : Bool → Queued × Queue → Run
  stop_queued dry_run (failed, q) = crash [] q
  stop_queued dry_run (nothing, q) = stop_topic (wait_secs world) dry_run q
  stop_queued dry_run (queued payload advisory, q) =
      done (publish_advisory world payload "Stop" dry_run ∷ []) q
  stop_queued dry_run (queued payload state_driven, q) =
      if is_truthy (get payload "answer")
      then done (printed (block_output (get payload "answer")) ∷ []) q
      else stop_topic (wait_secs world) dry_run q

  -- the part behind the publication of the question
  unfoldable pub wait_answer : Bool → Queue → Run
  unfolding poll_queue_reply publish_advisory is_truthy get wait_secs stop_loop poll_replies
      request_id
  wait_answer dry_run q =
      if world.queue_available
      then elim (wait_secs world) [
        | none ↦ crash [] q
        | some wait ↦ stop_queued dry_run (
            poll_queue_reply world.str_of world.policy (request_id world) "question_reply"
              world.changes q)
      ]
      else stop_topic (wait_secs world) dry_run q

  abbrev ask : String → Bool → Queue → Run
  ask last_message dry_run q =
      after_outputs
        (published dry_run "action-required" "Codex is asking for input"
            (question_body last_message) ("codex" ∷ "question" ∷ []) "4"
          ∷ [])
        (if dry_run || is_empty (ntfy_reply_topic world) then done [] q else wait_answer dry_run q)

  unfoldable pub handle_stop : Fields → Bool → Queue → Run
  unfolding last_message_of question_body has_text ntfy_reply_topic wait_answer is_truthy get
  handle_stop payload dry_run q =
      if is_truthy (get payload "stop_hook_active")
      then done [] q
      else if is_empty (last_message_of payload) || not (has_text "?" (last_message_of payload))
      then done [] q
      else ask (last_message_of payload) dry_run q

  unfoldable pub is_configured : Bool
  unfolding ntfy_base_url ntfy_alert_topic ntfy_reply_topic
  is_configured =
      (not (is_empty (ntfy_base_url world))
        && (not (is_empty (ntfy_alert_topic world)) || not (is_empty (ntfy_reply_topic world))))
      || world.queue_available

  unfoldable pub handle_event : Fields → Bool → Queue → Run
  unfolding has_text_value handle_permission_request handle_stop
  handle_event payload dry_run q =
      if has_text_value payload "hook_event_name" "PermissionRequest"
      then handle_permission_request world payload dry_run q
      else if has_text_value payload "hook_event_name" "Stop"
      then handle_stop payload dry_run q
      else done [] q

  abbrev main_on : Option Fields → Bool → Queue → Run
  main_on none dry_run q = crash [] q
  main_on (some payload) dry_run q =
      if is_configured then handle_event payload dry_run q else done [] q

  -- `main`, for the JSON value on the standard input, or none if it is no JSON
  unfoldable pub main : Option Value → Bool → Queue → Run
  unfolding as_dict is_configured handle_event
  main none dry_run q = done [] q
  main (some v) dry_run q = main_on (as_dict v) dry_run q
