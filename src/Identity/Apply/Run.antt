-- ===== src/Identity/Apply/Run.antt =====
-- The state of a run of scripts/apply_identity_sync_plan.py, its audit log, and `run_command`.
use rfc_codex_gentoo_stage.Prelude.{
  ℤ, pos, String, Bool, true, false, not, ◌&&◌, ◌||◌, Option, none, some, List, [], ◌∷◌, ◌++◌, map,
  any, starts_with, eq_ℤ, if◌then◌else◌,
}
use rfc_codex_gentoo_stage.Text.{concat, has_text, partition}
use rfc_codex_gentoo_stage.Value.{Value}
use rfc_codex_gentoo_stage.Identity.Check.{Finding}

pub data Provider : Type 0 where
  all freeipa freeradius : Provider

abbrev pub Argv : Type 0
Argv = List String

-- What `subprocess.run` gives; `not_started` is an `OSError`.
pub data Completed : Type 0 where
  completed : ℤ → String → String → Completed
  not_started : Completed

-- What the script finds outside itself: environment variables, the commands that it runs, whose
-- answer may depend on all that ran before, the text that `str` gives for a value that is no text,
-- and `json.loads`, with `none` for text that is no JSON.
pub record Machine : Type 0 where
  pub environ : String → Option String
  pub answer : List Argv → Argv → Completed
  pub str_of : Value → String
  pub json_loads : String → Option Value

-- The arguments of the command line; `audited` says that `--audit-log` is given.
pub record Options : Type 0 where
  pub live : Bool
  pub provider : Provider
  pub ipa_command : String
  pub freeradius_output : String
  pub audited : Bool

pub data Event : Type 0 where
  plan_event : Provider → Bool → Event
  apply_start : Provider → Event
  run_event : Argv → Event
  write_event : String → Event
  apply_complete : Provider → Event

-- The commands run, the audit log and the files written, each in order.
pub record Run : Type 0 where
  pub commands : List Argv
  pub audit : List Event
  pub files : List (String × String)

pub data Failure : Type 0 where
  gate_required missing_variable bad_list : String → Failure
  command_failed : Argv → ℤ → Failure
  no_idrange : Failure
  outside_idranges : String → Value → ℤ → Failure
  incompatible_idrange : Value → List String → Failure
  invalid_source : List Finding → Failure
  -- an exception that `main` does not catch, such as a `KeyError`
  uncaught : Failure

pub data Result {ℓ} (A : Type ℓ) : Type ℓ where
  ok : A → Result A
  err : Failure → Result A

abbrev pub Apply : Type 0 → Type 0
Apply A = Run → Result A × Run

abbrev pub pure : {A : Type 0} → A → Apply A
pure a s = (ok a, s)

abbrev pub raise : {A : Type 0} → Failure → Apply A
raise e s = (err e, s)

abbrev pub or_raise : {A : Type 0} → Option A → Failure → Apply A
or_raise none e = raise e
or_raise (some a) e = pure a

abbrev pub continue : {A B : Type 0} → Result A → (A → Apply B) → Apply B
continue (ok a) f s = f a s
continue (err e) f s = (err e, s)

infixl 5 ◌>>=◌ ◌>>◌
unfoldable pub ◌>>=◌ : {A B : Type 0} → Apply A → (A → Apply B) → Apply B
◌>>=◌ m f s = let (r, t) = m s in continue r f t

abbrev pub ◌>>◌ : {B : Type 0} → Apply (Unit {0}) → Apply B → Apply B
m >> n = m >>= λ _. n

abbrev pub sensitive_arg_prefixes : List String
sensitive_arg_prefixes =
    "--sshpubkey=" ∷ "--setattr=userPassword=" ∷ "--password=" ∷ "--secret=" ∷ []

unfoldable pub is_sensitive : String → Bool
is_sensitive arg = any (starts_with arg) sensitive_arg_prefixes

-- `f"{arg.split('=', 1)[0]}=<redacted>"` for a sensitive argument
unfoldable pub redacted_arg : String → String
unfolding is_sensitive concat partition
redacted_arg arg =
    if is_sensitive arg then concat ((partition b'=' arg).0 ∷ "=<redacted>" ∷ []) else arg

unfoldable pub redacted_argv : Argv → Argv
unfolding redacted_arg
redacted_argv argv = map redacted_arg argv

unfoldable pub audit_event : Options → Event → Apply (Unit {0})
audit_event options event s =
    (ok tt, if options.audited then record s { audit = s.audit ++ (event ∷ []) } else s)

-- `subprocess.run(argv)`
unfoldable pub execute : Machine → Argv → Apply Completed
execute machine argv s =
    (ok (machine.answer s.commands argv), record s { commands = s.commands ++ (argv ∷ []) })

-- the answers of the program that `run_command` may be told to accept
pub record Tolerance : Type 0 where
  pub check : Bool
  pub already_member : Bool
  pub no_modifications : Bool

abbrev pub strict : Tolerance
strict = record { check = true; already_member = false; no_modifications = false }

abbrev pub unchecked : Tolerance
unchecked = record { check = false; already_member = false; no_modifications = false }

abbrev pub members_allowed : Tolerance
members_allowed = record { check = true; already_member = true; no_modifications = false }

abbrev pub modifications_optional : Tolerance
modifications_optional = record { check = true; already_member = false; no_modifications = true }

unfoldable pub is_tolerated : Tolerance → String → Bool
unfolding has_text
is_tolerated t combined =
    (t.already_member && has_text "already a member" combined)
    || (t.no_modifications && has_text "no modifications to be performed" combined)

unfoldable pub judge : Tolerance → Argv → Completed → Apply Completed
unfolding is_tolerated redacted_argv concat
judge t argv not_started = raise uncaught
judge t argv (completed code out error) =
    if t.check && not (eq_ℤ code (pos 0)) && not (is_tolerated t (concat (out ∷ "\n" ∷ error ∷ [])))
    then raise (command_failed (redacted_argv argv) code)
    else pure (completed code out error)

module _ (machine : Machine) (options : Options) where
  unfoldable pub run_command : Argv → Tolerance → Apply Completed
  unfolding audit_event execute judge redacted_argv
  run_command argv tolerance = do
    audit_event options (run_event (redacted_argv argv))
    result ← execute machine argv
    judge tolerance argv result

abbrev pub succeeded : Completed → Bool
succeeded (completed code _ _) = eq_ℤ code (pos 0)
succeeded not_started = false
