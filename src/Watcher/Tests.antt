-- ===== src/Watcher/Tests.antt =====
-- A log with two calls and two approvals on which the watcher runs.
use rfc_codex_gentoo_stage.Prelude.{
  ◌+◌, ◌≤◌, length, String, true, false, List, [], ◌∷◌, map, Option, none, some, ◌≡◌, ◌≢◌, refl,
  ◌==◌, if◌then◌else◌, pos, arith,
}
use rfc_codex_gentoo_stage.Value.{Value, int, str, dict, Fields, field, end}
use rfc_codex_gentoo_stage.Watcher.Lines.{Watch, line_timestamp}
use rfc_codex_gentoo_stage.Watcher.Main.{
  Stat, Read, line_read, at_end, Watched, finished, raised, run_reads, start_offset,
}
use rfc_codex_gentoo_stage.Watcher.Bounds.{IsBounded, run_reads-IsBounded, start_offset-InLog}
use rfc_codex_gentoo_stage.Watcher.Told.{approvals, run_reads-told}

abbrev escalated : Fields
escalated =
    field "cmd" (str "make install") (field "sandbox_permissions" (str "require_escalated") end)

abbrev loads : String → Option Value
loads text = if text == "{\"cmd\": 1}" then some (dict escalated) else none

abbrev str_of : Value → String
str_of v = "?"

abbrev log : List Read
log =
    line_read "2026-01-02T03:04:05Z ToolCall: exec_command {\"cmd\": 1} thread_id=t-1\n" 70
    ∷ line_read "2026-01-02T03:04:06Z ToolCall: apply_patch" 111
    ∷ line_read "op.dispatch.exec_approval\" submission.id=\"s-1\"\n" 160
    ∷ line_read "nothing\n" 168
    ∷ line_read "op.dispatch.patch_approval\" x submission.id=\"s-2\"\n" 220
    ∷ at_end
    ∷ []

abbrev fresh : Watch
fresh = record { pending_exec = []; pending_patch = []; notices = [] }

abbrev run : Watched
run = run_reads loads str_of true log fresh 0

timestamp_found : line_timestamp "2026-01-02T03:04:05Z ToolCall" ≡ "2026-01-02T03:04:05Z"
unfolding line_timestamp
timestamp_found = refl

messages_told :
    map (λ n. n.message) (Watch.notices (Watched.watch run))
    ≡ "submission=s-1\nthread=t-1\ntime=2026-01-02T03:04:05Z\n\ncommand:\nmake install\n\nApprove this request in the Codex UI.\nRemote ntfy replies are not wired into sandbox approval dialogs in this runtime."
      ∷ "submission=s-2\ntime=2026-01-02T03:04:06Z\n\nA patch approval dialog is waiting in the Codex UI.\nApprove or deny it locally in the active session."
      ∷ []
unfolding run_reads
messages_told = refl

not_raised : finished ≢ raised
not_raised e = cc

run_is_finished : Watched.ending run ≢ raised
unfolding run_reads
run_is_finished = not_raised

run_reads-told_example :
    length (Watch.notices (Watched.watch run)) ≡ length (Watch.notices fresh) + approvals true log
run_reads-told_example = run_reads-told loads str_of true log fresh 0 run_is_finished

fresh-IsBounded : IsBounded fresh
fresh-IsBounded = (omega arith, omega arith)

run_reads-IsBounded_example : IsBounded (Watched.watch run)
run_reads-IsBounded_example = run_reads-IsBounded loads str_of true log fresh 0 fresh-IsBounded

abbrev log_stat : Stat
log_stat = record { inode = 7; dev = 1; size = 220 }

abbrev saved_state : Value
saved_state =
    dict
      (field "inode" (int (pos 7)) (field "dev" (int (pos 1)) (field "offset" (int (pos 168)) end)))

starts_behind : start_offset false saved_state log_stat ≡ some 168
unfolding start_offset
starts_behind = refl

start_offset-InLog_example : 168 ≤ 220
start_offset-InLog_example = start_offset-InLog false saved_state log_stat 168 starts_behind
