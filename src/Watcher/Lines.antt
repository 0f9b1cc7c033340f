-- ===== src/Watcher/Lines.antt =====
-- `process_line` of scripts/codex_approval_watcher.py: what a line of the log does to the calls that wait, and what it
-- tells.
use rfc_codex_gentoo_stage.Prelude.{
  ℕ, ltb, leb, length, String, Bool, true, List, [], ◌∷◌, ◌++◌, Option, none, some, if◌then◌else◌,
  ◌-◌,
}
use rfc_codex_gentoo_stage.Text.{strip, concat, join, is_empty}
use rfc_codex_gentoo_stage.Text.Ends.{ends_with}
use rfc_codex_gentoo_stage.Value.{Value, str, Fields, get_or, text_by, as_dict}
use rfc_codex_gentoo_stage.Spool.Events.{take_chars}
use rfc_codex_gentoo_stage.Ntfy.Queue.{has_value}
use rfc_codex_gentoo_stage.Watcher.Pattern.{
  match_items, search, group_of, exec_call, patch_call, patch_call_at_end, approval,
  timestamp_pattern, not_space,
}
use Prim.Native.String.{count}

-- a command that was called for with more rights
pub record Call : Type 0 where
  pub timestamp : String
  pub thread_id : String
  pub cmd : String
  pub justification : String

-- a call of `notify`
pub record Notice : Type 0 where
  pub title : String
  pub message : String
  pub tags : List String

-- the two queues, and what was told so far
pub record Watch : Type 0 where
  pub pending_exec : List Call
  pub pending_patch : List String
  pub notices : List Notice

unfoldable pub line_timestamp : String → String
unfolding not_space match_items group_of
line_timestamp line = elim (match_items timestamp_pattern line) [
  | none ↦ ""
  | some texts ↦ group_of 0 13 texts
]

unfoldable pub trim_command : String → ℕ → String
unfolding strip concat take_chars
trim_command command limit =
    if leb (count (strip command)) limit
    then strip command
    else concat (take_chars (limit - 3) (strip command) ∷ "..." ∷ [])

abbrev justified : String → List String
justified text = if is_empty text then [] else concat ("justification=" ∷ text ∷ []) ∷ []

unfoldable pub render_exec_message : Call → String → String
unfolding join concat strip trim_command
render_exec_message call submission_id = join "\n" (
    concat ("submission=" ∷ submission_id ∷ [])
      ∷ concat ("thread=" ∷ call.thread_id ∷ [])
      ∷ concat ("time=" ∷ call.timestamp ∷ [])
      ∷ justified (strip call.justification)
    ++ ""
      ∷ "command:"
      ∷ trim_command call.cmd 1200
      ∷ ""
      ∷ "Approve this request in the Codex UI."
      ∷ "Remote ntfy replies are not wired into sandbox approval dialogs in this runtime."
      ∷ [])

unfoldable pub render_patch_message : String → String → String
unfolding join concat
render_patch_message timestamp submission_id = join "\n" (
    concat ("submission=" ∷ submission_id ∷ [])
    ∷ concat ("time=" ∷ timestamp ∷ [])
    ∷ ""
    ∷ "A patch approval dialog is waiting in the Codex UI."
    ∷ "Approve or deny it locally in the active session."
    ∷ [])

-- `while len(queue) > MAX_QUEUE: queue.popleft()`
unfoldable pub drop_oldest : {A : Type 0} → List A → List A
drop_oldest [] = []
drop_oldest (x ∷ xs) =
    let rest = drop_oldest xs in if ltb 32 (length (x ∷ xs)) then rest else x ∷ xs

abbrev tell : Notice → Watch → Watch
tell notice watch = record watch { notices = watch.notices ++ notice ∷ [] }

abbrev pub exec_notice : String → Notice
exec_notice message = record {
  title = "Codex exec approval needed";
  message = message;
  tags = "codex" ∷ "approval" ∷ "exec-command" ∷ [];
}

abbrev pub patch_notice : String → Notice
patch_notice message = record {
  title = "Codex patch approval needed";
  message = message;
  tags = "codex" ∷ "approval" ∷ "apply-patch" ∷ [];
}

-- a submission that waits for the approval of a command, or of a patch, with the first call that waits
abbrev pub exec_from : String → String → Watch → List Call → Watch
exec_from timestamp submission watch [] =
    tell (exec_notice (render_patch_message timestamp submission)) watch
exec_from timestamp submission watch (call ∷ calls) =
    tell (exec_notice (render_exec_message call submission)) (record watch { pending_exec = calls })

unfoldable pub tell_exec : String → String → Watch → Watch
unfolding render_exec_message render_patch_message
tell_exec timestamp submission watch = exec_from timestamp submission watch watch.pending_exec

abbrev pub patch_from : String → String → Watch → List String → Watch
patch_from timestamp submission watch [] =
    tell (patch_notice (render_patch_message timestamp submission)) watch
patch_from timestamp submission watch (called ∷ patches) =
    tell (patch_notice (render_patch_message called submission))
      (record watch { pending_patch = patches })

unfoldable pub tell_patch : String → String → Watch → Watch
unfolding render_patch_message
tell_patch timestamp submission watch = patch_from timestamp submission watch watch.pending_patch

abbrev pub fields_of : Option Value → Option Fields
fields_of none = none
fields_of (some v) = as_dict v

abbrev pub is_patch_call : String → Bool
is_patch_call line = elim (search patch_call line) [
  | some texts ↦ true
  | none ↦ ends_with line patch_call_at_end
]

unfoldable pub note_patch : String → Watch → Watch
unfolding drop_oldest
note_patch timestamp watch = record watch {
  pending_patch = drop_oldest (watch.pending_patch ++ timestamp ∷ []);
}

abbrev pub on_approval : String → String → Watch → Watch
on_approval line timestamp watch = elim (search (approval "exec") line) [
  | some texts ↦ tell_exec timestamp (group_of 42 2 texts) watch
  | none ↦ elim (search (approval "patch") line) [
    | some texts ↦ tell_patch timestamp (group_of 43 2 texts) watch
    | none ↦ watch
  ]
]

-- `json.loads`, where `none` is a `JSONDecodeError`, and `str` of a value that is no text
module _ (loads : String → Option Value) (str_of : Value → String) where
  abbrev call_of : String → String → Fields → Call
  call_of timestamp thread_id payload = record {
    timestamp = timestamp;
    thread_id = thread_id;
    cmd = text_by str_of (get_or payload "cmd" (str ""));
    justification = text_by str_of (get_or payload "justification" (str ""));
  }

  abbrev pub note_payload : String → String → Option Fields → Watch → Option Watch
  note_payload timestamp thread_id none watch = none
  note_payload timestamp thread_id (some payload) watch =
      if has_value payload "sandbox_permissions" "require_escalated"
      then some (record watch {
        pending_exec = drop_oldest (watch.pending_exec ++ call_of timestamp thread_id payload ∷ []);
      })
      else some watch

  -- a call of a command; `none` is an exception
  unfoldable pub note_call : String → List String → Watch → Option Watch
  unfolding group_of drop_oldest has_value text_by get_or as_dict
  note_call timestamp texts watch =
      note_payload timestamp (group_of 37 2 texts) (fields_of (loads (group_of 23 3 texts))) watch

  unfoldable pub process_line : String → Watch → Option Watch
  unfolding not_space line_timestamp search ends_with note_call note_patch tell_exec tell_patch
      group_of
  process_line line watch = elim (search exec_call line) [
    | some texts ↦ note_call (line_timestamp line) texts watch
    | none ↦
        if is_patch_call line
        then some (note_patch (line_timestamp line) watch)
        else some (on_approval line (line_timestamp line) watch)
  ]
