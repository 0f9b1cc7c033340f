-- ===== src/Lib.antt =====
-- A model of the operations scripts of this repository, with theorems about what a run of
-- them does.
--
-- The identity scripts turn a YAML document of groups, accounts, hosts and RADIUS clients
-- into FreeIPA and FreeRADIUS changes. scripts/validate_identity_source.py checks the
-- document, scripts/render_identity_sync_plan.py turns it into a plan, and
-- scripts/apply_identity_sync_plan.py validates, renders and, behind gates in the
-- environment, applies the plan by running the `ipa` command and writing a file, with an
-- audit log.
--
-- - Value.antt: the values that YAML and JSON give, with `get`, `str`, `int` and truth as
--   Python has them. A computation that raises a TypeError is `none`.
-- - Text.antt: `strip`, `split`, `partition`, `splitlines`, `lower` and `upper` on texts.
-- - Ip.antt: what the standard library's `ipaddress.ip_address` accepts.
-- - Identity/Check.antt: the result of the validation as a computation that collects
--   findings; a finding is data in place of a formatted message.
-- - Identity/Fields.antt, Identity/Ranges.antt, Identity/Rows.antt and Identity/Source.antt:
--   `validate_identity_source` and its helpers, under the names of the source. The loops over
--   the rows are `scan`, which passes on the names and IDs seen.
-- - Identity/Directory.antt: what an accepted document promises, stated without the
--   validation: rows read as groups and accounts, and when such a directory is consistent.
--   Identity/Accepted relates the two, row by row, and has what the validation says of
--   secrets.
-- - Identity/Plan.antt: `render_identity_sync_plan`.
-- - Identity/Apply/Run.antt: the state of an apply run, which holds the commands run, the
--   audit log and the files written, and `run_command`. The environment, the answers of the
--   commands (which may depend on all that ran before), `json.loads` and `str` on values that
--   are no text are fields of the parameter `Machine`.
-- - Identity/Apply/Env.antt, Identity/Apply/Freeipa.antt, Identity/Apply/Freeradius.antt and
--   Identity/Apply/Main.antt: the rest of `apply_identity_sync_plan` in the order of the
--   source. Identity/Apply/Keeps.antt composes the preservation of a predicate of the state
--   along a run.
-- - Sorted.antt: `sorted(set(names))`, and Sorted/Kept.antt what it keeps.
--
-- scripts/apply-hetzner-dns-plan.py brings the zones of Hetzner DNS to a plan of records: it
-- reads the zones and record sets of each token group, decides on each record of the plan,
-- and creates, updates and deletes behind two flags, or works on a fixture in place of the
-- provider.
--
-- - Dns/Provider.antt: requests as values and a computation that adds to the requests sent so
--   far; the provider (`Web`) is a parameter whose answer may depend on all of them.
--   `fetch_pages` follows at most `fuel` pages, because the loop of the source ends only if
--   the provider ends it; a run that meets more pages fails with `too_many_pages`, where the
--   source would go on.
-- - Dns/Records.antt and Dns/Groups.antt: record sets in replies, token groups and fixtures.
-- - Dns/Errors.antt: `sanitize_provider_error`, as a scan with the place in the pattern.
-- - Dns/Requests.antt and Dns/Lookup.antt: the requests and the lookups of zones and record
--   sets.
-- - Dns/Apply.antt: `apply_dns_plan`, one function per branch; results, reasons and counters
--   are data.
-- - Dns/Counts.antt: what a report promises. Dns/Ensures.antt: a logic for what a computation
--   sends and returns, with one rule for each way to build it; Dns/Tokens.antt,
--   Dns/Sends.antt, Dns/Runs.antt and Dns/Safety.antt apply it. Dns/Pages.antt is about the
--   loop over the pages.
--
-- scripts/codex_ntfy_reply_listener.py takes messages from an ntfy topic, normalizes them and
-- puts each as a file into the queue of scripts/codex_ntfy_reply_queue.py, from which the
-- hooks consume the reply that answers a request.
--
-- - Ntfy/Message.antt: `normalize_reply_message`; the regular expressions are functions on a
--   text that is stripped, with `\s` as `str.isspace`. IGNORECASE is that of Unicode.
-- - Ntfy/Queue.antt: the files of the two directories in the order of their names, and
--   `enqueue_reply`, `find_reply`, `mark_processed` and `consume_reply`.
-- - Ntfy/Listener.antt: `process_messages`; the time, the topic, drawn identifiers and the
--   padding of a timestamp are fields of the parameter `World`.
-- - Ntfy/Laws.antt, Ntfy/Moves.antt and Ntfy/Runs.antt: what the listener enqueues, how a
--   consumed reply moves, and any sequence of operations on the queue. Ntfy/Order.antt: the
--   order of texts.
--
-- scripts/plan-hetzner-dns-from-inventory.py plans the records of the zones of Hetzner DNS
-- from the NetBox inventory, hosts entries and settings.
--
-- - DnsPlan/Names.antt, DnsPlan/Zones.antt, DnsPlan/Add.antt, DnsPlan/Sources.antt,
--   DnsPlan/Plan.antt and DnsPlan/Main.antt: the functions of the script in its order, up to
--   `generate_dns_plan`, `write_outputs` and `main`; the state of the loops is the record
--   `Planning`, with the maps of desired records and types and the list of what was skipped.
--   DnsPlan/Hosts.antt: `generate_hosts_entries`. What `ipaddress.ip_interface` and
--   `ip_address` say of a text is a parameter.
-- - DnsPlan/Dicts.antt: laws of maps as lists of entries. DnsPlan/Invariant.antt,
--   DnsPlan/Sound.antt and DnsPlan/Result.antt carry an invariant through the loops to the
--   plan; DnsPlan/Accounts.antt, DnsPlan/Keeps.antt, DnsPlan/Complete.antt and
--   DnsPlan/Whole.antt follow each wished record to its place in the result;
--   DnsPlan/Roundtrip.antt joins a relative name and its zone again; DnsPlan/Writes.antt is
--   about the documents that are written.
-- - DnsReport/Names.antt: `record_fqdn` of scripts/report-hetzner-dns-inventory.py, of which
--   no more is modelled.
--
-- scripts/forge_memory_spool.py keeps the event logs of agent sessions and publishes closed
-- sessions.
--
-- - Spool/Check.antt: a computation that returns or raises a `SpoolError`. Spool/Keys.antt:
--   the checks of names, prefixes and secret keys.
-- - Spool/Files.antt: files as a map from paths to texts. Spool/Events.antt: `append_event`,
--   `closeout` and `sign_manifest`. Spool/Publish.antt: `publish_session` to a directory and
--   to an S3 store, where each upload is recorded and may fail. Spool/Sessions.antt and
--   Spool/Bootstrap.antt: `list_sessions` and `bootstrap_session`.
-- - The JSON texts, the digests, the signature, the time, the host, git and the outcome of an
--   upload are parameters. Paths are joined for roots other than `.` and `/`, and numbers of
--   lines are left out of messages.
-- - Spool/Stored.antt: a value with the keys of each object in their order, as `json.dumps`
--   writes it for `sort_keys`. Spool/Lines.antt and Spool/Appends.antt are about the lines of
--   a log; Spool/Guarded.antt and Spool/Safety.antt carry the preservation of files through a
--   publication; Spool/Paths.antt is about the keys.
--
-- scripts/codex_ntfy_hook.py asks for the approval of a command, or for an answer, over ntfy,
-- and waits for a reply in the queue and then on the topic; scripts/codex_ntfy_policy.py says
-- which kinds of reply drive the state.
--
-- - NtfyHook/Policy.antt: the policy file over the defaults, and `mode_for_kind`.
-- - NtfyHook/Replies.antt: `poll_replies` and `poll_queue_reply`. The polls and looks that
--   are made before the time is over are given as sequences, so that a run is structural
--   recursion; the answer to a poll may depend on the time it asks for, and the listener may
--   change the queue between two looks.
-- - NtfyHook/Hook.antt and NtfyHook/Stop.antt: `handle_permission_request`, `handle_stop` and
--   `main`. A run gives what was published and printed in order, and the queue it leaves;
--   `crashes` is an exception. The message that `publish_message` builds and sends, and the
--   sending, are not modelled.
-- - NtfyHook/Overlay.antt and NtfyHook/Granted.antt: the mode of a kind, entry by entry of
--   the policy file. NtfyHook/Approvals.antt and NtfyHook/Allowed.antt: what stands behind an
--   output that allows a command.
--
-- scripts/codex_approval_watcher.py reads the log of a session and tells over ntfy which
-- approvals it waits for.
--
-- - Watcher/Pattern.antt: its regular expressions as sequences of items, with `search` by
--   backtracking. Watcher/Lines.antt: `process_line`, which gives the notices that it tells;
--   Watcher/Main.antt: `open_at_saved_offset` and the loop of `main`, over a given sequence
--   of what `readline` gives.
-- - Watcher/Bounds.antt is about the queues and the offset, Watcher/Told.antt about the
--   notices.
--
-- scripts/validate_secure_firstboot_bundle.py checks the bundle with which a host enrolls at
-- its first boot, and scripts/stage_secure_firstboot_bundle.py encrypts a bundle that is
-- accepted.
--
-- - Firstboot/Bundle.antt: `validate_bundle`; the reading of a timestamp is a parameter.
--   Firstboot/Stage.antt: `is_within` and `main` of the staging script, which gives what it
--   changes; `resolve` of a path is a parameter.
-- - Firstboot/Accepted.antt and Firstboot/Staged.antt: what an accepted bundle is, and when
--   one is written.
--
-- scripts/validate-hasslehoff-backup-policy.py checks the policy of backups:
-- Backup/Policy.antt has `validate_policy`, and Backup/Covered.antt what an accepted policy
-- covers.
--
-- The MCP services share scripts/mcp_servers/rfc1918_mcp_common: Mcp/Gates.antt has the
-- mutation gate and the settings (gates.py, settings.py), Mcp/Audit.antt the names of audit
-- artifacts (audit.py).
--
-- But for the pages, every loop is structural recursion. The names of required variables are
-- texts: integers, which the source would sort, are not modelled. Texts are byte strings:
-- `upper`, `lower` and `int` are those of ASCII texts. `lines_of` leaves out the empty lines,
-- which its callers skip. Not modelled: floats, dates and keys that are no text in the YAML
-- document, the failures of file operations, the parsing of the command line, printing, and
-- the reading of YAML and JSON files.
pub mod Prelude
pub mod Text
pub mod Value
pub mod Ip
pub mod Sorted
pub mod Identity
pub mod Dns
pub mod DnsPlan
pub mod DnsReport
pub mod Ntfy
pub mod NtfyHook
pub mod Watcher
pub mod Firstboot
pub mod Backup
pub mod Spool
pub mod Mcp
