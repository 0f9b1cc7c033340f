-- ===== src/NtfyHook/Tests.antt =====
-- A request that is approved through the queue, one that is denied over the topic, and a policy file.
use rfc_codex_gentoo_stage.Prelude.{
  ◌⊎◌, Any, pos, String, true, false, Option, none, some, [], ◌∷◌, ◌≡◌, refl, inl, inr, ◌==◌,
  if◌then◌else◌,
}
use rfc_codex_gentoo_stage.Value.{str, dict, Fields, field, end, get_or, empty_dict}
use rfc_codex_gentoo_stage.Text.{is_empty}
use rfc_codex_gentoo_stage.Ntfy.Queue.{Queue}
use rfc_codex_gentoo_stage.NtfyHook.Policy.{
  absent, json, state_driven, advisory, Policy, default_policy, default_kinds, merge_kinds,
  load_policy, mode_for_kind, default_mode,
}
use rfc_codex_gentoo_stage.NtfyHook.Overlay.{IsModeOf, latest_mode, mode_for_kind-latest_mode}
use rfc_codex_gentoo_stage.NtfyHook.Granted.{IsBuiltIn, IsGranted, mode_for_kind-IsGranted}
use rfc_codex_gentoo_stage.NtfyHook.Hook.{
  World, Run, printed, deny_output, handle_permission_request, ntfy_reply_topic,
}
use rfc_codex_gentoo_stage.NtfyHook.Approvals.{IsApproved, Allows}
use rfc_codex_gentoo_stage.NtfyHook.Allowed.{handle_permission_request-IsApproved}

abbrev environment : String → Option String
environment name =
    if name == "CODEX_NTFY_REPLY_TOPIC"
    then some "replies"
    else if name == "CODEX_NTFY_TEST_REQUEST_ID"
    then some "r1"
    else if name == "CODEX_NTFY_TEST_REPLIES"
    then some "allow r2\nDENY r1\n"
    else none

abbrev small_world : World
small_world = record {
  getenv = environment;
  drawn_id = "drawn";
  message_id = "m";
  started = pos 5;
  now = pos 9;
  policy = absent;
  queue_available = true;
  changes = (λ q. q) ∷ [];
  polls = [];
  loads = λ s. none;
  str_of = λ v. "?";
}

abbrev reply : Fields
reply =
    field "kind" (str "permission_reply")
      (field "request_id" (str "r1") (field "decision" (str "allow") end))

abbrev approved_queue : Queue
approved_queue = record {
  pending = record { name = "1-a.json"; content = some (dict reply) } ∷ [];
  processed = [];
}

abbrev command : Fields
command = field "tool_input" (dict (field "command" (str "ls") end)) end

is_allowed : Allows small_world (handle_permission_request small_world command false approved_queue)
unfolding handle_permission_request
is_allowed = inr (inl refl)

is_denied_over_topic :
    Any
      (λ o. o ≡ printed deny_output)
      (Run.outputs (
        handle_permission_request
          (record small_world { queue_available = false })
          command
          false
          approved_queue))
unfolding handle_permission_request
is_denied_over_topic = inr (inl refl)

handle_permission_request-IsApproved_example :
    (false ≡ false)
    × (is_empty (ntfy_reply_topic small_world) ≡ false)
    × IsApproved small_world approved_queue
handle_permission_request-IsApproved_example =
    handle_permission_request-IsApproved small_world command false approved_queue is_allowed

abbrev given_kinds : Fields
given_kinds =
    field "status_request" (dict (field "mode" (str "state-driven") end))
      (field "question_reply" (dict (field "mode" (str "by-hand") end)) end)

abbrev candidate : Fields
candidate = field "replyKinds" (dict given_kinds) end

abbrev small_policy : Policy
small_policy = record default_policy { reply_kinds = merge_kinds default_kinds given_kinds }

is_accepted : load_policy (json (dict candidate)) ≡ some small_policy
unfolding load_policy
is_accepted = refl

is_lowered : mode_for_kind (json (dict candidate)) "question_reply" ≡ some advisory
unfolding mode_for_kind
is_lowered = refl

is_raised : mode_for_kind (json (dict candidate)) "status_request" ≡ some state_driven
unfolding mode_for_kind
is_raised = refl

has_kinds : get_or candidate "replyKinds" empty_dict ≡ dict given_kinds
unfolding get_or
has_kinds = refl

mode_for_kind-latest_mode_example :
    IsModeOf
      (latest_mode given_kinds "question_reply" (default_mode "question_reply"))
      (mode_for_kind (json (dict candidate)) "question_reply")
mode_for_kind-latest_mode_example =
    mode_for_kind-latest_mode candidate given_kinds "question_reply" small_policy has_kinds
      is_accepted

mode_for_kind-IsGranted_example :
    IsBuiltIn "status_request" ⊎ IsGranted (json (dict candidate)) "status_request"
mode_for_kind-IsGranted_example =
    mode_for_kind-IsGranted (json (dict candidate)) "status_request" is_raised
