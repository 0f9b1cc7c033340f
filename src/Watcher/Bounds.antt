-- ===== src/Watcher/Bounds.antt =====
-- The queues of scripts/codex_approval_watcher.py stay short, and reading starts within the log.
use rfc_codex_gentoo_stage.Prelude.{
  ℕ, ℤ, pos, negsuc, ltb, leb_ℤ, length, ◌≤◌, String, Bool, true, false, List, [], ◌∷◌, ◌++◌,
  Option, none, some, ◌≡◌, subst, Bool-cases, Option-cases, inl, inr, if◌then◌else◌, arith,
}
use rfc_codex_gentoo_stage.Value.{Value, null, bool, int, str, list, dict, Fields}
use rfc_codex_gentoo_stage.NtfyHook.Approvals.{none≢some, some_inj}
use rfc_codex_gentoo_stage.Ntfy.Queue.{has_value}
use rfc_codex_gentoo_stage.Watcher.Pattern.{search, exec_call, approval, group_of}
use rfc_codex_gentoo_stage.Watcher.Lines.{
  Call, Watch, drop_oldest, tell_exec, tell_patch, exec_from, patch_from, note_payload, note_call,
  note_patch, is_patch_call, on_approval, line_timestamp, process_line, fields_of,
}
use rfc_codex_gentoo_stage.Watcher.Main.{
  Stat, Read, line_read, at_end, Watched, run_reads, start_offset, start_from, usable_offset,
  saved_offset, seek,
}

-- No queue holds more than `MAX_QUEUE` entries.
abbrev pub IsBounded : Watch → Type 0
IsBounded watch = (length watch.pending_exec ≤ 32) × (length watch.pending_patch ≤ 32)

drop_oldest-bounded : {A : Type 0} (xs : List A) → length (drop_oldest xs) ≤ 32
unfolding drop_oldest
drop_oldest-bounded [] = omega arith
drop_oldest-bounded (x ∷ xs) = elim (Bool-cases (ltb 32 (length (x ∷ xs)))) [
  | inl e ↦ rw e (drop_oldest-bounded xs)
  | inr e ↦ rw e (fits (length (x ∷ xs)) e)
]
  where
    fits : (n : ℕ) → ltb 32 n ≡ false → n ≤ 32
    fits n e = ground arith

exec_from-IsBounded :
    (timestamp submission : String) (watch : Watch) (calls : List Call)
    → length calls ≤ 32
    → IsBounded watch
    → IsBounded (exec_from timestamp submission watch calls)
exec_from-IsBounded timestamp submission watch [] n h = h
exec_from-IsBounded timestamp submission watch (call ∷ calls) n h = (omega (arith, n), h.1)

patch_from-IsBounded :
    (timestamp submission : String) (watch : Watch) (patches : List String)
    → length patches ≤ 32
    → IsBounded watch
    → IsBounded (patch_from timestamp submission watch patches)
patch_from-IsBounded timestamp submission watch [] n h = h
patch_from-IsBounded timestamp submission watch (called ∷ patches) n h = (h.0, omega (arith, n))

on_approval-IsBounded :
    (line timestamp : String) (watch : Watch)
    → IsBounded watch
    → IsBounded (on_approval line timestamp watch)
unfolding tell_exec tell_patch
on_approval-IsBounded line timestamp watch h = elim (Option-cases (search (approval "exec") line)) [
  | inr (texts, e) ↦
      rw (on_approval, e)
        (exec_from-IsBounded timestamp (group_of 42 2 texts) watch watch.pending_exec h.0 h)
  | inl e ↦ elim (Option-cases (search (approval "patch") line)) [
    | inr (texts, p) ↦
        rw (on_approval, e, p)
          (patch_from-IsBounded timestamp (group_of 43 2 texts) watch watch.pending_patch h.1 h)
    | inl p ↦ rw (on_approval, e, p) h
  ]
]

module _ (loads : String → Option Value) (str_of : Value → String) where
  note_payload-IsBounded :
      (timestamp thread_id : String) (fields : Option Fields) (watch next : Watch)
      → IsBounded watch
      → note_payload loads str_of timestamp thread_id fields watch ≡ some next
      → IsBounded next
  note_payload-IsBounded timestamp thread_id none watch next h e = absurd (none≢some e)
  note_payload-IsBounded timestamp thread_id (some payload) watch next h e =
      elim (Bool-cases (has_value payload "sandbox_permissions" "require_escalated")) [
        | inl g ↦
            subst IsBounded (some_inj (rw g at e))
              (drop_oldest-bounded (watch.pending_exec ++ _), h.1)
        | inr g ↦ subst IsBounded (some_inj (rw g at e)) h
      ]

  process_line-IsBounded :
      (line : String) (watch next : Watch)
      → IsBounded watch
      → process_line loads str_of line watch ≡ some next
      → IsBounded next
  unfolding process_line note_call note_patch
  process_line-IsBounded line watch next h e = elim (Option-cases (search exec_call line)) [
    | inr (texts, g) ↦
        note_payload-IsBounded (line_timestamp line) (group_of 37 2 texts)
          (fields_of (loads (group_of 23 3 texts))) watch next h (rw (process_line, g) at e)
    | inl g ↦ elim (Bool-cases (is_patch_call line)) [
      | inl p ↦
          subst IsBounded (some_inj (rw (process_line, g, p) at e))
            (h.0, drop_oldest-bounded (watch.pending_patch ++ _))
      | inr p ↦
          subst IsBounded (some_inj (rw (process_line, g, p) at e))
            (on_approval-IsBounded line (line_timestamp line) watch h)
    ]
  ]

  -- However many lines are read, and however the run ends, neither queue of pending calls ever holds more than 32
  -- entries, if this is so at its start.
  pub run_reads-IsBounded :
      (once : Bool) (reads : List Read) (watch : Watch) (offset : ℕ)
      → IsBounded watch
      → IsBounded (Watched.watch (run_reads loads str_of once reads watch offset))
  unfolding run_reads
  run_reads-IsBounded once [] watch offset h = h
  run_reads-IsBounded true (at_end ∷ reads) watch offset h = h
  run_reads-IsBounded false (at_end ∷ reads) watch offset h =
      run_reads-IsBounded false reads watch offset h
  run_reads-IsBounded once (line_read line behind ∷ reads) watch offset h =
      elim (Option-cases (process_line loads str_of line watch)) [
        | inl e ↦ rw (run_reads, e) h
        | inr (next, e) ↦
            rw (run_reads, e)
              (run_reads-IsBounded once reads next behind
                (process_line-IsBounded line watch next h e))
      ]

seek-InLog :
    (saved : ℤ) (size offset : ℕ)
    → leb_ℤ saved (pos size) ≡ true
    → seek saved ≡ some offset
    → offset ≤ size
seek-InLog (pos n) size offset g h = subst (λ o. o ≤ size) (some_inj h) (fits n size g)
  where
    fits : (n size : ℕ) → leb_ℤ (pos n) (pos size) ≡ true → n ≤ size
    fits n size g = ground arith
seek-InLog (negsuc n) size offset g h = absurd (none≢some h)

saved_offset-InLog :
    (size offset : ℕ) (saved : Option ℤ)
    → start_from size (saved_offset size saved) ≡ some offset
    → offset ≤ size
saved_offset-InLog size offset none h = subst (λ o. o ≤ size) (some_inj h) (omega arith)
saved_offset-InLog size offset (some saved) h = elim (Bool-cases (leb_ℤ saved (pos size))) [
  | inl e ↦ seek-InLog saved size offset e (rw e at h)
  | inr e ↦ subst (λ o. o ≤ size) (some_inj (rw e at h)) (omega arith)
]

if_usable :
    (usable : Bool) (size offset : ℕ) (saved : Option ℤ)
    → start_from size (if usable then saved_offset size saved else none) ≡ some offset
    → offset ≤ size
if_usable true size offset saved h = saved_offset-InLog size offset saved h
if_usable false size offset saved h = saved_offset-InLog size offset none h

-- Whatever state was saved, if reading starts at all, then it starts within the log.
pub start_offset-InLog :
    (from_start : Bool) (saved : Value) (stat : Stat) (offset : ℕ)
    → start_offset from_start saved stat ≡ some offset
    → offset ≤ stat.size
unfolding start_offset usable_offset
start_offset-InLog true (dict saved) stat offset h =
    subst (λ o. o ≤ stat.size) (some_inj h) (omega arith)
start_offset-InLog false (dict saved) stat offset h = if_usable _ stat.size offset _ h
start_offset-InLog true null stat offset h = absurd (none≢some h)
start_offset-InLog true (bool b) stat offset h = absurd (none≢some h)
start_offset-InLog true (int n) stat offset h = absurd (none≢some h)
start_offset-InLog true (str s) stat offset h = absurd (none≢some h)
start_offset-InLog true (list vs) stat offset h = absurd (none≢some h)
start_offset-InLog false null stat offset h = absurd (none≢some h)
start_offset-InLog false (bool b) stat offset h = absurd (none≢some h)
start_offset-InLog false (int n) stat offset h = absurd (none≢some h)
start_offset-InLog false (str s) stat offset h = absurd (none≢some h)
start_offset-InLog false (list vs) stat offset h = absurd (none≢some h)
