-- ===== src/Identity/Apply/Safety.antt =====
-- Dry runs, gates and the audit log of scripts/apply_identity_sync_plan.py.
use rfc_codex_gentoo_stage.Prelude.{
  false≢true, String, Bool, true, false, not, ◌&&◌, ◌||◌, none, some, List, [], ◌∷◌, ◌++◌, ◌≡◌, ◌≢◌,
  refl, ap, arith, subst, sym, ◌⊎◌, map, append-nil, Bool-cases, inl, inr, if◌then◌else◌,
}
use mathlib.Core.List.{map-append}
use rfc_codex_gentoo_stage.Value.{Fields}
use rfc_codex_gentoo_stage.Identity.Check.{Check}
use rfc_codex_gentoo_stage.Identity.Source.{Counts}
use rfc_codex_gentoo_stage.Identity.Plan.{Plan}
use rfc_codex_gentoo_stage.Identity.Apply.Run.{
  Machine, Options, Argv, Run, Event, run_event, plan_event, apply_start, write_event,
  apply_complete, pure, Apply, Result, ok, err, Tolerance, Completed, completed, not_started,
  run_command, audit_event, execute, judge, redacted_argv, Provider, ◌>>=◌, continue,
}
use rfc_codex_gentoo_stage.Identity.Apply.Freeradius.{replace_file}
use rfc_codex_gentoo_stage.Identity.Apply.Main.{
  Summary, build_summary, require_valid, require_gate, require_apply_gates, gate_enabled,
  selects_freeipa, selects_freeradius, apply_selected_freeipa, apply_selected_freeradius,
  apply_plan, apply_identity_sync_plan,
}
use rfc_codex_gentoo_stage.Identity.Apply.Keeps.{
  Keeps, Keeps-pure, Keeps-bind, Keeps-or_raise, keeps_rules, Keeps-if, Leads, Leads-bind,
  Leads-first,
}
use rfc_codex_gentoo_stage.Identity.Apply.Invariant.{
  IsPlain, Kept, apply_freeipa-Keeps, apply_freeradius-Keeps,
}

-- The commands that the audit log records.
abbrev pub audited_commands : List Event → List Argv
audited_commands [] = []
audited_commands (run_event argv ∷ es) = argv ∷ audited_commands es
audited_commands (_ ∷ es) = audited_commands es

-- The audit log records all commands run, in order, each with its secrets redacted.
abbrev pub IsLogged : Run → Type 0
IsLogged s = audited_commands s.audit ≡ map redacted_argv s.commands

audited_commands-append :
    (es fs : List Event) → audited_commands (es ++ fs) ≡ audited_commands es ++ audited_commands fs
audited_commands-append [] fs = refl
audited_commands-append (run_event argv ∷ es) fs =
    ap (λ rest. argv ∷ rest) (audited_commands-append es fs)
audited_commands-append (plan_event _ _ ∷ es) fs = audited_commands-append es fs
audited_commands-append (apply_start _ ∷ es) fs = audited_commands-append es fs
audited_commands-append (write_event _ ∷ es) fs = audited_commands-append es fs
audited_commands-append (apply_complete _ ∷ es) fs = audited_commands-append es fs

plain_records_nothing : (e : Event) → IsPlain e → audited_commands (e ∷ []) ≡ []
plain_records_nothing (run_event argv) p = absurd p
plain_records_nothing (plan_event _ _) p = refl
plain_records_nothing (apply_start _) p = refl
plain_records_nothing (write_event _) p = refl
plain_records_nothing (apply_complete _) p = refl

judge_state : (t : Tolerance) (argv : Argv) (c : Completed) (s : Run) → (judge t argv c s).1 ≡ s
unfolding judge
judge_state t argv not_started s = refl
judge_state t argv (completed code out error) s = ground arith

module _ (machine : Machine) (options : Options) where
  -- A command is recorded as run, and its redacted form as audited if there is a log.
  run_command_state :
      (argv : Argv) (t : Tolerance) (s : Run)
      → (run_command machine options argv t s).1 ≡ record s {
        commands = s.commands ++ (argv ∷ []);
        audit =
            if options.audited then s.audit ++ (run_event (redacted_argv argv) ∷ []) else s.audit;
      }
  unfolding run_command audit_event execute ◌>>=◌
  run_command_state argv t s =
      rw judge_state (elim (Bool-cases options.audited) [ inl e ↦ rw e | inr e ↦ rw e ])

  module _ (audited : options.audited ≡ true) where
    IsLogged-kept : Kept machine options IsLogged
    unfolding audit_event replace_file
    IsLogged-kept = record {
      command = λ argv t. record {
        at = λ s h. rw (run_command_state, audited, audited_commands-append, map-append, h);
      };
      event = λ e p. record {
        at = λ s h. rw (audited, audited_commands-append, plain_records_nothing e p, append-nil, h);
      };
      file = λ path content. record { at = λ s h. h };
    }

-- From `s` to `t`, no command was run and no file written, and the audit log, if there is one, got the event of the plan
-- at most.
pub record IsUnchanged (options : Options) (s t : Run) : Type 0 where
  pub commands : t.commands ≡ s.commands
  pub files : t.files ≡ s.files
  pub audit :
      (t.audit ≡ s.audit)
      ⊎ ((options.audited ≡ true)
          × (t.audit ≡ s.audit ++ plan_event options.provider options.live ∷ []))

-- Whatever the state, no result is returned.
abbrev Fails : {A : Type 0} → Apply A → Type 0
Fails {A} m = (s : Run) (x : A) → (m s).0 ≢ ok x

continue-Fails :
    {A B : Type 0} (r : Result A) (f : A → Apply B) (s : Run) (x : B)
    → ((a : A) → Fails (f a))
    → (continue r f s).0 ≢ ok x
continue-Fails (ok a) f s x h = h a s x
continue-Fails (err e) f s x h = λ e. cc

bind-Fails :
    {A B : Type 0} (m : Apply A) (f : A → Apply B) → ((a : A) → Fails (f a)) → Fails (m >>= f)
unfolding ◌>>=◌
bind-Fails m f h s x = continue-Fails (m s).0 f (m s).1 x h

stops :
    {A B : Type 0} (r : Result A) (f : A → Apply B) (s : Run)
    → ((a : A) → r ≢ ok a)
    → ((x : B) → (continue r f s).0 ≢ ok x) × ((continue r f s).1 ≡ s)
stops (ok a) f s h = absurd (h a refl)
stops (err e) f s h = (λ x q. cc, refl)

bind-Fails_first : {A B : Type 0} (m : Apply A) (f : A → Apply B) → Fails m → Fails (m >>= f)
unfolding ◌>>=◌
bind-Fails_first m f h s x = (stops (m s).0 f (m s).1 (h s)).0 x

if-Fails : {A : Type 0} (b : Bool) (m n : Apply A) → b ≡ true → Fails m → Fails (if b then m else n)
if-Fails true m n e h = h
if-Fails false m n e h = absurd (false≢true e)

-- Every gate that the providers ask for is enabled.
unfoldable pub gates_open : Machine → Provider → Bool
gates_open machine provider =
    gate_enabled machine "IDENTITY_SYNC_APPLY"
    && (not (selects_freeipa provider) || gate_enabled machine "IDENTITY_SYNC_APPLY_FREEIPA")
    && (not (selects_freeradius provider) || gate_enabled machine "IDENTITY_SYNC_APPLY_FREERADIUS")

>>=-eq-ok :
    {A B : Type 0} (m : Apply A) (f : A → Apply B) (s : Run) (x : B)
    → ((m >>= f) s).0 ≡ ok x
    → (a : A) × ((m s).0 ≡ ok a) × ((f a (m s).1).0 ≡ ok x)
unfolding ◌>>=◌
>>=-eq-ok {A} m f s x h = go (m s).0 h
  where
    go :
        (r : Result A)
        → (continue r f (m s).1).0 ≡ ok x
        → (a : A) × (r ≡ ok a) × ((f a (m s).1).0 ≡ ok x)
    go (ok a) h = (a, refl, h)
    go (err e) h = cc

require_valid-Keeps : (P : Run → Type 0) (r : Check Counts) → Keeps P (require_valid r)
unfolding require_valid
require_valid-Keeps P none = search keeps_rules
require_valid-Keeps P (some (counts, [])) = search keeps_rules
require_valid-Keeps P (some (counts, e ∷ es)) = search keeps_rules

require_gate-Keeps :
    (machine : Machine) (P : Run → Type 0) (asked : Bool) (name : String)
    → Keeps P (require_gate machine asked name)
unfolding require_gate
require_gate-Keeps machine P true name = search keeps_rules
require_gate-Keeps machine P false name = search keeps_rules

require_gate-opened :
    (machine : Machine) (asked : Bool) (name : String) (s : Run) (x : Unit {0})
    → (require_gate machine asked name s).0 ≡ ok x
    → (not asked || gate_enabled machine name) ≡ true
unfolding require_gate
require_gate-opened machine true name s x h = elim (Bool-cases (gate_enabled machine name)) [
  | inl e ↦ e
  | inr e ↦ cc (e, h)
]
require_gate-opened machine false name s x h = refl

module _ (machine : Machine) (options : Options) where
  gates_keep : (s : Run) → (require_apply_gates machine options.provider s).1 ≡ s
  unfolding require_apply_gates
  gates_keep s =
      (Keeps-bind _ _ (require_gate-Keeps machine (λ t. t ≡ s) true _) λ _.
          Keeps-bind _ _
            (require_gate-Keeps machine (λ t. t ≡ s) (selects_freeipa options.provider) _)
            λ _. require_gate-Keeps machine (λ t. t ≡ s) (selects_freeradius options.provider) _).at
        s refl

  gates_closed-Fails :
      gates_open machine options.provider ≡ false
      → Fails (require_apply_gates machine options.provider)
  unfolding gates_open require_apply_gates
  gates_closed-Fails closed s x h =
      let (_, first, rest) = >>=-eq-ok (require_gate machine true "IDENTITY_SYNC_APPLY") _ s x h in
      let (_, second, third) =
        >>=-eq-ok
          (require_gate machine (selects_freeipa options.provider) "IDENTITY_SYNC_APPLY_FREEIPA") _
          _ x rest in
      let a = require_gate-opened machine true _ s _ first in
      let b = require_gate-opened machine (selects_freeipa options.provider) _ _ _ second in
      let c = require_gate-opened machine (selects_freeradius options.provider) _ _ _ third in
      ground (arith, a, b, c)

  apply_plan-Fails :
      (plan : Plan) (summary : Summary)
      → gates_open machine options.provider ≡ false
      → Fails (apply_plan machine options plan summary)
  unfolding apply_plan
  apply_plan-Fails plan summary closed = bind-Fails_first _ _ (gates_closed-Fails closed)

  module _ (s₀ : Run) where
    -- nothing has changed yet
    abbrev Stays : Run → Type 0
    Stays t = t ≡ s₀

    Stays-IsUnchanged : (t : Run) → Stays t → IsUnchanged options s₀ t
    Stays-IsUnchanged t h = record {
      commands = ap (λ r. r.commands) h;
      files = ap (λ r. r.files) h;
      audit = inl (ap (λ r. r.audit) h);
    }

    plan_event-IsUnchanged :
        IsUnchanged options s₀ (audit_event options (plan_event options.provider options.live) s₀).1
    unfolding audit_event
    plan_event-IsUnchanged = elim (Bool-cases options.audited) [
      | inl e ↦ rw e (record { commands = refl; files = refl; audit = inr (refl, refl) })
      | inr e ↦ rw e (record { commands = refl; files = refl; audit = inl refl })
    ]

    plan_event-Leads :
        Leads Stays
          (IsUnchanged options s₀)
          (audit_event options (plan_event options.provider options.live))
    plan_event-Leads = record {
      at = λ t h.
          subst
            (λ u.
              IsUnchanged options s₀
                (audit_event options (plan_event options.provider options.live) u).1)
            (sym h) plan_event-IsUnchanged;
    }

    gates_closed-Keeps :
        (plan : Plan) (summary : Summary)
        → gates_open machine options.provider ≡ false
        → Keeps (IsUnchanged options s₀) (apply_plan machine options plan summary)
    unfolding apply_plan
    gates_closed-Keeps plan summary closed = record {
      at = λ s h.
          unfold ◌>>=◌ in
          rw
            (
              (stops (require_apply_gates machine options.provider s).0 _ _
                  (gates_closed-Fails closed s)).1,
              gates_keep,
            )
            h;
    }

    refused-Leads :
        (source : Fields)
        → (options.live ≡ true → gates_open machine options.provider ≡ false)
        → Leads Stays (IsUnchanged options s₀) (apply_identity_sync_plan machine options source)
    unfolding apply_identity_sync_plan
    refused-Leads source closed =
        Leads-bind _ _ Stays-IsUnchanged (require_valid-Keeps Stays _) λ _.
          Leads-bind _ _ Stays-IsUnchanged (Keeps-or_raise _ _) λ plan.
            Leads-bind _ _ Stays-IsUnchanged (Keeps-or_raise _ _) λ vars.
              Leads-first _ _ plan_event-Leads λ _.
                Keeps-if _ _ _
                  (λ live. gates_closed-Keeps plan (build_summary plan options vars) (closed live))
                  (λ dry. Keeps-pure _)

module _ (machine : Machine) (options : Options) (P : Run → Type 0)
    (kept : Kept machine options P) where
  selected_freeipa-Keeps :
      (selected : Bool) (plan : Plan)
      → Keeps P (apply_selected_freeipa machine options selected plan)
  unfolding apply_selected_freeipa
  selected_freeipa-Keeps true plan =
      Keeps-bind _ _ (apply_freeipa-Keeps machine options P kept plan) λ n. Keeps-pure _
  selected_freeipa-Keeps false plan = Keeps-pure _

  selected_freeradius-Keeps :
      (selected : Bool) (plan : Plan)
      → Keeps P (apply_selected_freeradius machine options selected plan)
  unfolding apply_selected_freeradius
  selected_freeradius-Keeps true plan =
      Keeps-bind _ _ (apply_freeradius-Keeps machine options P kept plan) λ n. Keeps-pure _
  selected_freeradius-Keeps false plan = Keeps-pure _

  apply_plan-Keeps :
      (plan : Plan) (summary : Summary) → Keeps P (apply_plan machine options plan summary)
  unfolding apply_plan require_apply_gates
  apply_plan-Keeps plan summary =
      Keeps-bind _ _
        (Keeps-bind _ _ (require_gate-Keeps machine P true _) λ _.
          Keeps-bind _ _ (require_gate-Keeps machine P (selects_freeipa options.provider) _)
            λ _. require_gate-Keeps machine P (selects_freeradius options.provider) _)
        λ _. Keeps-bind _ _ (kept.event (apply_start options.provider) tt) λ _.
          Keeps-bind _ _ (selected_freeipa-Keeps (selects_freeipa options.provider) plan)
            λ commands.
              Keeps-bind _ _ (selected_freeradius-Keeps (selects_freeradius options.provider) plan)
                λ rendered.
                  Keeps-bind _ _ (kept.event (apply_complete options.provider) tt) λ _. Keeps-pure _

  -- What each command, event and file keeps is kept by the whole run.
  apply_identity_sync_plan-Keeps :
      (source : Fields) → Keeps P (apply_identity_sync_plan machine options source)
  unfolding apply_identity_sync_plan
  apply_identity_sync_plan-Keeps source = Keeps-bind _ _ (require_valid-Keeps P _) λ _.
      Keeps-bind _ _ (Keeps-or_raise _ _) λ plan. Keeps-bind _ _ (Keeps-or_raise _ _) λ vars.
        Keeps-bind _ _ (kept.event (plan_event options.provider options.live) tt) λ _.
          Keeps-if options.live _ (pure (build_summary plan options vars))
            (λ live. apply_plan-Keeps plan (build_summary plan options vars)) (λ dry. Keeps-pure _)

module _ (machine : Machine) (options : Options) (source : Fields) (s : Run) where
  -- A dry run, and a live run for which one of its gates is not enabled, run no command and write no FreeRADIUS file,
  -- whether they return or raise; the audit log gets the event of the plan at most, and only if it is asked for.
  pub refused_run_changes_nothing :
      (options.live ≡ true → gates_open machine options.provider ≡ false)
      → IsUnchanged options s (apply_identity_sync_plan machine options source s).1
  refused_run_changes_nothing closed = (refused-Leads machine options s source closed).at s refl

  -- A live run for which one of its gates is not enabled raises.
  pub closed_gates_raise :
      options.live ≡ true
      → gates_open machine options.provider ≡ false
      → (summary : Summary) → (apply_identity_sync_plan machine options source s).0 ≢ ok summary
  unfolding apply_identity_sync_plan
  closed_gates_raise live closed summary =
      bind-Fails _ _
        (λ _. bind-Fails _ _ (λ plan. bind-Fails _ _ (λ vars. bind-Fails _ _ (λ _.
          if-Fails options.live _ _ live
            (apply_plan-Fails machine options plan (build_summary plan options vars) closed)))))
        s summary

  -- With an audit log, a log that holds every command run so far, in order and with its secrets
  -- redacted, does so after the run too, whether it returns or raises.
  pub audit_log_holds_commands :
      options.audited ≡ true
      → IsLogged s
      → IsLogged (apply_identity_sync_plan machine options source s).1
  audit_log_holds_commands audited logged =
      (apply_identity_sync_plan-Keeps machine options IsLogged
          (IsLogged-kept machine options audited) source).at
        s logged
