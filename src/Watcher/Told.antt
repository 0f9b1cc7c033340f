-- ===== src/Watcher/Told.antt =====
-- Each approval that the log of scripts/codex_approval_watcher.py asks for is told once.
use rfc_codex_gentoo_stage.Prelude.{
  ℕ, ◌+◌, length, length-append, String, Bool, true, false, not, ◌&&◌, ◌||◌, List, [], ◌∷◌, ◌++◌,
  Option, none, some, ◌≡◌, ◌≢◌, refl, ap, subst, sym, ◌∙◌, Bool-cases, Option-cases, inl, inr,
  if◌then◌else◌, arith,
}
use rfc_codex_gentoo_stage.Value.{Value, Fields}
use rfc_codex_gentoo_stage.NtfyHook.Approvals.{none≢some, some_inj}
use rfc_codex_gentoo_stage.Ntfy.Queue.{has_value}
use rfc_codex_gentoo_stage.Watcher.Pattern.{search, exec_call, approval, group_of}
use rfc_codex_gentoo_stage.Watcher.Lines.{
  Call, Watch, Notice, tell_exec, tell_patch, exec_from, patch_from, note_payload, note_call,
  note_patch, is_patch_call, on_approval, line_timestamp, process_line, fields_of,
}
use rfc_codex_gentoo_stage.Watcher.Main.{Read, line_read, at_end, Watched, raised, run_reads}

abbrev is_found : Option (List String) → Bool
is_found none = false
is_found (some texts) = true

-- The line is no call, and says that the approval of a command or of a patch is waited for.
unfoldable pub is_approval : String → Bool
unfolding search
is_approval line =
    not (is_found (search exec_call line))
    && not (is_patch_call line)
    && (is_found (search (approval "exec") line) || is_found (search (approval "patch") line))

abbrev one_if : Bool → ℕ
one_if true = 1
one_if false = 0

-- the number of approvals that are waited for in what is read
unfoldable pub approvals : Bool → List Read → ℕ
approvals once [] = 0
approvals once (at_end ∷ reads) = let later = approvals once reads in if once then 0 else later
approvals once (line_read line behind ∷ reads) = one_if (is_approval line) + approvals once reads

abbrev told : Watch → ℕ
told watch = length watch.notices

one_more :
    (notices : List Notice) (notice : Notice) → length (notices ++ notice ∷ []) ≡ length notices + 1
one_more notices notice = length-append notices (notice ∷ [])

exec_from-told :
    (timestamp submission : String) (watch : Watch) (calls : List Call)
    → told (exec_from timestamp submission watch calls) ≡ told watch + 1
exec_from-told timestamp submission watch [] = one_more watch.notices _
exec_from-told timestamp submission watch (call ∷ calls) = one_more watch.notices _

patch_from-told :
    (timestamp submission : String) (watch : Watch) (patches : List String)
    → told (patch_from timestamp submission watch patches) ≡ told watch + 1
patch_from-told timestamp submission watch [] = one_more watch.notices _
patch_from-told timestamp submission watch (called ∷ patches) = one_more watch.notices _

no_more : (n : ℕ) → n ≡ n + 0
no_more n = omega arith

on_approval-told :
    (line timestamp : String) (watch : Watch)
    → told (on_approval line timestamp watch)
      ≡ told watch
        + one_if
            (is_found (search (approval "exec") line) || is_found (search (approval "patch") line))
unfolding tell_exec tell_patch
on_approval-told line timestamp watch = elim (Option-cases (search (approval "exec") line)) [
  | inr (texts, e) ↦
      rw (on_approval, e) (exec_from-told timestamp (group_of 42 2 texts) watch watch.pending_exec)
  | inl e ↦ elim (Option-cases (search (approval "patch") line)) [
    | inr (texts, p) ↦
        rw (on_approval, e, p)
          (patch_from-told timestamp (group_of 43 2 texts) watch watch.pending_patch)
    | inl p ↦ rw (on_approval, e, p) (no_more (told watch))
  ]
]

module _ (loads : String → Option Value) (str_of : Value → String) where
  note_payload-told :
      (timestamp thread_id : String) (fields : Option Fields) (watch next : Watch)
      → note_payload loads str_of timestamp thread_id fields watch ≡ some next
      → told next ≡ told watch + 0
  note_payload-told timestamp thread_id none watch next e = absurd (none≢some e)
  note_payload-told timestamp thread_id (some payload) watch next e =
      elim (Bool-cases (has_value payload "sandbox_permissions" "require_escalated")) [
        | inl g ↦ subst (λ w. told w ≡ told watch + 0) (some_inj (rw g at e)) (no_more (told watch))
        | inr g ↦ subst (λ w. told w ≡ told watch + 0) (some_inj (rw g at e)) (no_more (told watch))
      ]

  process_line-told :
      (line : String) (watch next : Watch)
      → process_line loads str_of line watch ≡ some next
      → told next ≡ told watch + one_if (is_approval line)
  unfolding process_line note_call note_patch is_approval
  process_line-told line watch next e = elim (Option-cases (search exec_call line)) [
    | inr (texts, g) ↦
        rw (is_approval, g)
          (note_payload-told (line_timestamp line) (group_of 37 2 texts)
            (fields_of (loads (group_of 23 3 texts))) watch next (rw (process_line, g) at e))
    | inl g ↦ elim (Bool-cases (is_patch_call line)) [
      | inl p ↦
          rw (is_approval, g, p)
            (subst (λ w. told w ≡ told watch + 0) (some_inj (rw (process_line, g, p) at e))
              (no_more (told watch)))
      | inr p ↦
          rw (is_approval, g, p)
            (ap told (sym (some_inj (rw (process_line, g, p) at e)))
              ∙ on_approval-told line (line_timestamp line) watch)
    ]
  ]

  add_later : (a b c m n : ℕ) → b ≡ a + m → c ≡ b + n → c ≡ a + (m + n)
  add_later a b c m n h g = omega (arith, h, g)

  -- If no exception ends the run, then there is one notice for each line that says that an approval is waited for, up
  -- to the end of what is read.
  pub run_reads-told :
      (once : Bool) (reads : List Read) (watch : Watch) (offset : ℕ)
      → Watched.ending (run_reads loads str_of once reads watch offset) ≢ raised
      → length (Watch.notices (Watched.watch (run_reads loads str_of once reads watch offset)))
        ≡ length watch.notices + approvals once reads
  unfolding run_reads approvals
  run_reads-told once [] watch offset h = no_more (told watch)
  run_reads-told true (at_end ∷ reads) watch offset h = no_more (told watch)
  run_reads-told false (at_end ∷ reads) watch offset h = run_reads-told false reads watch offset h
  run_reads-told once (line_read line behind ∷ reads) watch offset h =
      elim (Option-cases (process_line loads str_of line watch)) [
        | inl e ↦ absurd ((rw (run_reads, e) at h) refl)
        | inr (next, e) ↦
            rw (run_reads, e)
              (add_later (told watch) (told next) _ (one_if (is_approval line))
                (approvals once reads) (process_line-told line watch next e)
                (run_reads-told once reads next behind (rw (run_reads, e) at h)))
      ]
