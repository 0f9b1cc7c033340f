-- ===== src/NtfyHook/Allowed.antt =====
-- A command is allowed by scripts/codex_ntfy_hook.py only after a reply that allows the request.
use rfc_codex_gentoo_stage.Prelude.{
  ℤ, String, Bool, true, false, List, [], ◌∷◌, Option, none, some, ◌≡◌, ◌≢◌, refl, sym, ap, subst,
  ◌∙◌, inl, inr, Any, Bool-cases, Option-cases,
}
use rfc_codex_gentoo_stage.Text.{is_empty}
use rfc_codex_gentoo_stage.Value.{Fields}
use rfc_codex_gentoo_stage.Ntfy.Message.{
  permission_reply, Reply, normalize_reply_message, content_of, message_text, kind_of,
}
use rfc_codex_gentoo_stage.Ntfy.Queue.{Queue}
use rfc_codex_gentoo_stage.NtfyHook.Policy.{Mode, state_driven, advisory, mode_for_kind}
use rfc_codex_gentoo_stage.NtfyHook.Replies.{
  Yield, yields, raises, Queued, queued, nothing, failed, poll_queue_reply,
}
use rfc_codex_gentoo_stage.NtfyHook.Hook.{
  World, Run, crash, returns, published, printed, has_text_value, request_id, wait_secs,
  poll_replies, with_mode, permission_content, permission_topic, permission_queued,
  permission_message, permission_loop, wait_permission, handle_permission_request, ntfy_reply_topic,
  publish_advisory, deny_output,
}
use rfc_codex_gentoo_stage.NtfyHook.Approvals.{
  is_wanted_reply-get, has_text_value-get, deny≢allow, none≢some, some_inj, looks, WhenQueued,
  poll_queue_reply-WhenQueued, IsAllowing, IsApproved, Allows, from_decision, content_decides,
}

normalized_content :
    (message message_id : String) (timestamp : ℤ) (topic : String) (reply : Reply)
    → normalize_reply_message message message_id timestamp topic ≡ some reply
    → content_of (message_text message) ≡ reply.content
unfolding normalize_reply_message
normalized_content message message_id timestamp topic reply h =
    elim (Bool-cases (is_empty (message_text message))) [
      | inl e ↦ absurd (none≢some (rw e at h))
      | inr e ↦ ap (λ r. r.content) (some_inj (rw e at h))
    ]

published≢printed :
    {dry_run : Bool} {state title message : String} {tags : List String} {priority : String}
    {fields : Fields}
    → published dry_run state title message tags priority ≢ printed fields
published≢printed h = cc

module _ (world : World) where
  deny_does_not_allow :
      (q : Queue)
      → Allows world (record { ending = returns; outputs = printed deny_output ∷ []; queue = q })
      → ⊥
  deny_does_not_allow q (inl e) = deny≢allow e
  deny_does_not_allow q (inr e) = e

  -- What it takes for one message of the topic.
  abbrev Approving : String → Type 0
  Approving message =
      (mode_for_kind world.policy "permission_reply" ≡ some state_driven)
      × IsAllowing world (yields message)

  reply_approves :
      (message : String) (reply : Reply) (dry_run : Bool) (q : Queue) (mode : Option Mode)
      (run : Run)
      → content_of (message_text message) ≡ reply.content
      → mode_for_kind world.policy (kind_of reply.content) ≡ mode
      → with_mode world reply dry_run q mode ≡ some run
      → Allows world run
      → Approving message
  unfolding kind_of publish_advisory
  reply_approves message reply dry_run q none run c m h a =
      elim (subst (Allows world) (sym (some_inj h)) a) [ ]
  reply_approves message reply dry_run q (some advisory) run c m h a =
      elim (subst (Allows world) (sym (some_inj h)) a) [
        | inl e ↦ absurd (published≢printed e)
        | inr e ↦ elim e [ ]
      ]
  reply_approves message reply dry_run q (some state_driven) run c m h a =
      elim (Option-cases (permission_content world reply.content)) [
        | inl e ↦ absurd (none≢some (rw (with_mode, e) at h))
        | inr (d, e) ↦
            let content = content_decides world reply.content d e in
            let allowed =
              from_decision world d q
                (subst (Allows world) (sym (some_inj (rw (with_mode, e) at h))) a) in
            (
              subst (λ k. mode_for_kind world.policy k ≡ some state_driven) (ap kind_of content) m,
              c ∙ content ∙ ap (permission_reply (request_id world)) allowed,
            )
      ]

  message_approves :
      (message : String) (dry_run : Bool) (q : Queue) (run : Run)
      → permission_message world message dry_run q ≡ some run
      → Allows world run
      → Approving message
  unfolding permission_message
  message_approves message dry_run q run h a =
      elim (Option-cases
        (normalize_reply_message message world.message_id world.now (ntfy_reply_topic world))) [
          | inl e ↦ absurd (none≢some (rw (permission_message, e) at h))
          | inr (reply, e) ↦
              reply_approves message reply dry_run q _ run
                (normalized_content message _ _ _ reply e) refl (rw (permission_message, e) at h) a
        ]

  Topic : List Yield → Type 0
  Topic replies =
      (mode_for_kind world.policy "permission_reply" ≡ some state_driven)
      × Any (IsAllowing world) replies

  loop_approves :
      (replies : List Yield) (dry_run : Bool) (q : Queue)
      → Allows world (permission_loop world replies dry_run q)
      → Topic replies
  unfolding permission_loop Topic
  loop_approves [] dry_run q a = elim a [ ]
  loop_approves (raises ∷ rest) dry_run q a = elim a [ ]
  loop_approves (yields message ∷ rest) dry_run q a =
      elim (Option-cases (permission_message world message dry_run q)) [
        | inl e ↦
            let later = loop_approves rest dry_run q (rw (permission_loop, e) at a) in
            (later.0, inr later.1)
        | inr (run, e) ↦
            let here = message_approves message dry_run q run e (rw (permission_loop, e) at a) in
            (here.0, inl here.1)
      ]

  topic_approves :
      (wait : Option ℤ) (dry_run : Bool) (q queue : Queue)
      → Allows world (permission_topic world wait dry_run q)
      → IsApproved world queue
  unfolding Topic
  topic_approves none dry_run q queue a = elim a [ ]
  topic_approves (some wait) dry_run q queue a =
      let topic = loop_approves (poll_replies world) dry_run q a in (topic.0, inr topic.1)

  queued_approves :
      (dry_run : Bool) (reply : Queued) (q queue : Queue)
      → WhenQueued world (request_id world) "permission_reply" (looks world.changes queue) reply
      → Allows world (permission_queued world dry_run (reply, q))
      → IsApproved world queue
  unfolding WhenQueued publish_advisory
  queued_approves dry_run failed q queue h a = elim a [ ]
  queued_approves dry_run nothing q queue h a = topic_approves (wait_secs world) dry_run q queue a
  queued_approves dry_run (queued payload advisory) q queue h a = elim a [
    | inl e ↦ absurd (published≢printed e)
    | inr e ↦ elim e [ ]
  ]
  queued_approves dry_run (queued payload state_driven) q queue h a =
      elim (Bool-cases (has_text_value payload "decision" "allow")) [
        | inl e ↦
            let wanted = is_wanted_reply-get (request_id world) "permission_reply" payload h.0.1 in
            (
              h.1,
              inl (
                payload,
                h.0.0,
                wanted.0,
                wanted.1,
                has_text_value-get payload "decision" "allow" e,
              ),
            )
        | inr e ↦ elim (Bool-cases (has_text_value payload "decision" "deny")) [
          | inl d ↦ absurd (deny_does_not_allow q (rw (e, d) at a))
          | inr d ↦ topic_approves (wait_secs world) dry_run q queue (rw (e, d) at a)
        ]
      ]

  pair_approves :
      (dry_run : Bool) (reply : Queued × Queue) (queue : Queue)
      → WhenQueued world (request_id world) "permission_reply" (looks world.changes queue) reply.0
      → Allows world (permission_queued world dry_run reply)
      → IsApproved world queue
  pair_approves dry_run (reply, q) queue h a = queued_approves dry_run reply q queue h a

  with_wait :
      (wait : Option ℤ) (dry_run : Bool) (q : Queue)
      → Allows world (elim wait [
        | none ↦ crash [] q
        | some _ ↦ permission_queued world dry_run (
            poll_queue_reply world.str_of world.policy
              (request_id world)
              "permission_reply"
              world.changes
              q)
      ])
      → IsApproved world q
  with_wait none dry_run q a = elim a [ ]
  with_wait (some wait) dry_run q a =
      pair_approves dry_run _ q
        (poll_queue_reply-WhenQueued world (request_id world) "permission_reply" world.changes q) a

  wait_approves :
      (dry_run : Bool) (q : Queue)
      → Allows world (wait_permission world dry_run q)
      → IsApproved world q
  unfolding wait_permission
  wait_approves dry_run q a = elim (Bool-cases world.queue_available) [
    | inl e ↦ with_wait (wait_secs world) dry_run q (rw (wait_permission, e) at a)
    | inr e ↦ topic_approves (wait_secs world) dry_run q q (rw (wait_permission, e) at a)
  ]

  -- A command is printed as allowed only if the run is no dry run, there is a reply topic, the policy makes a permission
  -- reply drive the state, and a reply that allows this very request was a pending file of the queue at one of the looks
  -- or is one that `poll_replies` gives: a message of the topic, or a line of CODEX_NTFY_TEST_REPLIES where that variable
  -- is set.
  pub handle_permission_request-IsApproved :
      (payload : Fields) (dry_run : Bool) (q : Queue)
      → Allows world (handle_permission_request world payload dry_run q)
      → (dry_run ≡ false) × (is_empty (ntfy_reply_topic world) ≡ false) × IsApproved world q
  unfolding handle_permission_request
  handle_permission_request-IsApproved payload dry_run q (inl h) = absurd (published≢printed h)
  handle_permission_request-IsApproved payload true q (inr h) = elim h [ ]
  handle_permission_request-IsApproved payload false q (inr h) =
      elim (Bool-cases (is_empty (ntfy_reply_topic world))) [
        | inl e ↦ elim (rw e at h) [ ]
        | inr e ↦ (refl, e, wait_approves false q (rw e at h))
      ]
