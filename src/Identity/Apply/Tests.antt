-- ===== src/Identity/Apply/Tests.antt =====
-- Runs of the application at a small document, and its theorems there.
use rfc_codex_gentoo_stage.Prelude.{
  pos, true, false, none, some, [], ◌≡◌, ◌≢◌, refl, ◌==◌, if◌then◌else◌,
}
use rfc_codex_gentoo_stage.Value.{str}
use rfc_codex_gentoo_stage.Identity.Tests.{small_source}
use rfc_codex_gentoo_stage.Identity.Apply.Run.{
  Machine, Options, Run, completed, freeipa, ok, redacted_arg,
}
use rfc_codex_gentoo_stage.Identity.Apply.Main.{Summary, gate_enabled, apply_identity_sync_plan}
use rfc_codex_gentoo_stage.Identity.Apply.Safety.{
  IsUnchanged, IsLogged, gates_open, refused_run_changes_nothing, closed_gates_raise,
  audit_log_holds_commands,
}
use rfc_codex_gentoo_stage.Identity.Apply.Redaction.{redacted_arg-hides}

-- A host with the FreeIPA gate alone, where nothing exists yet.
abbrev machine : Machine
machine = record {
  environ = λ name. if name == "IDENTITY_SYNC_APPLY" then some "1" else none;
  answer = λ before argv. completed (pos 0) "" "";
  str_of = λ v. "?";
  json_loads = λ s. none;
}

abbrev live_options : Options
live_options = record {
  live = true;
  provider = freeipa;
  ipa_command = "ipa";
  freeradius_output = "/etc/raddb/clients.conf";
  audited = true;
}

abbrev fresh : Run
fresh = record { commands = []; audit = []; files = [] }

closed_here : gates_open machine freeipa ≡ false
unfolding gates_open gate_enabled
closed_here = refl

refused_run_changes_nothing_example :
    IsUnchanged live_options fresh
      (apply_identity_sync_plan machine live_options small_source fresh).1
refused_run_changes_nothing_example =
    refused_run_changes_nothing machine live_options small_source fresh (λ live. closed_here)

abbrev summary : Summary
summary = record {
  applied = true;
  dry_run = false;
  provider = freeipa;
  realm = str "RFC1918.HOST";
  domain = str "rfc1918.host";
  requires_vars = [];
  local_idranges = [];
  groups = 2;
  users = 1;
  service_accounts = 1;
  host_enrollments = 0;
  manual_actions = [];
  commands_run = some 5;
  clients = 1;
  rendered = false;
}

closed_gates_raise_example :
    (apply_identity_sync_plan machine live_options small_source fresh).0 ≢ ok summary
closed_gates_raise_example =
    closed_gates_raise machine live_options small_source fresh refl closed_here summary

-- The same host with all gates enabled.
abbrev open_machine : Machine
open_machine = record machine { environ = λ name. some "1" }

audit_log_holds_commands_example :
    IsLogged (apply_identity_sync_plan open_machine live_options small_source fresh).1
audit_log_holds_commands_example =
    audit_log_holds_commands open_machine live_options small_source fresh refl refl

redacted_arg-hides_example :
    redacted_arg "--sshpubkey=ssh-ed25519 AAAA" ≡ redacted_arg "--sshpubkey=x"
redacted_arg-hides_example = redacted_arg-hides "--sshpubkey=" "ssh-ed25519 AAAA" "x" refl
