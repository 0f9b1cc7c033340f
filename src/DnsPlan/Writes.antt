-- ===== src/DnsPlan/Writes.antt =====
-- When `main` of scripts/plan-hetzner-dns-from-inventory.py writes anything.
use rfc_codex_gentoo_stage.Prelude.{
  String, Option, none, some, List, [], ◌∷◌, map, ◌⊎◌, inl, inr, ◌≡◌, ◌≢◌, All, refl, subst, arith,
}
use rfc_codex_gentoo_stage.Value.{Value, Fields}
use rfc_codex_gentoo_stage.DnsPlan.Add.{Left, Address}
use rfc_codex_gentoo_stage.DnsPlan.Plan.{DnsPlan}
use rfc_codex_gentoo_stage.DnsPlan.Main.{
  Effect, print_error, print, write_file, end_with, Arguments, Run, error_line, finish, plan_for,
  main,
}

none≢some : {A : Type 0} {a : A} → none ≢ some a
none≢some h = cc

some_inj : {A : Type 0} {a b : A} → some a ≡ some b → a ≡ b
some_inj h = cc

-- a message on the standard error output
abbrev IsMessage : Effect → Type 0
IsMessage (print_error text) = Unit
IsMessage (print text) = ⊥
IsMessage (write_file path text) = ⊥

-- The run ends well, with a plan without errors; or it ends with another code and only messages.
abbrev pub IsCleanRun : Option DnsPlan → Run → Type 0
IsCleanRun plan run =
    ((run.exit_code ≡ 0) × (p : DnsPlan) × (plan ≡ some p) × (p.errors ≡ []))
    ⊎ ((run.exit_code ≢ 0) × All IsMessage run.effects)

error_lines : (errors : List Left) → All IsMessage (map error_line errors)
unfolding error_line
error_lines [] = tt
error_lines (e ∷ es) = (tt, error_lines es)

module _ (str_of : Value → String) (dumps : DnsPlan → String) where
  end_with-IsClean :
      (args : Arguments) (plan : DnsPlan) (errors : List Left)
      → plan.errors ≡ errors
      → IsCleanRun (some plan) (end_with str_of dumps args plan errors)
  end_with-IsClean args plan [] h = inl (refl, plan, refl, h)
  end_with-IsClean args plan (e ∷ es) h = inr (omega arith, error_lines (e ∷ es))

  finish-IsClean :
      (args : Arguments) (plan : DnsPlan) → IsCleanRun (some plan) (finish str_of dumps args plan)
  unfolding finish
  finish-IsClean args plan = end_with-IsClean args plan plan.errors refl

  module _ (ip_interface : String → Option Address) where
    main_of :
        (args : Arguments) (payload : Fields) (payloads : List Fields)
        → args.payloads ≡ payload ∷ payloads
        → (plan : Option DnsPlan) → plan_for str_of dumps ip_interface args ≡ plan
        → (run : Run) → main str_of dumps ip_interface args ≡ some run
        → IsCleanRun plan run
    unfolding main
    main_of args payload payloads given none h run e = absurd (none≢some (rw (main, given, h) at e))
    main_of args payload payloads given (some plan) h run e =
        subst (IsCleanRun (some plan)) (some_inj (rw (main, given, h) at e))
          (finish-IsClean args plan)

    main_without :
        (args : Arguments)
        → args.payloads ≡ []
        → (run : Run) → main str_of dumps ip_interface args ≡ some run
        → IsCleanRun (plan_for str_of dumps ip_interface args) run
    unfolding main
    main_without args given run e =
        subst (IsCleanRun (plan_for str_of dumps ip_interface args))
          (some_inj (rw (main, given) at e)) (inr (omega arith, (tt, tt)))

    payloads_split :
        (args : Arguments) (ps : List Fields)
        → args.payloads ≡ ps
        → (run : Run) → main str_of dumps ip_interface args ≡ some run
        → IsCleanRun (plan_for str_of dumps ip_interface args) run
    payloads_split args [] given run e = main_without args given run e
    payloads_split args (p ∷ ps) given run e =
        main_of args p ps given (plan_for str_of dumps ip_interface args) refl run e

    -- A run that returns has the exit code 0 and made a plan without errors; or it has another exit code,
    -- prints nothing but messages on the standard error output, and writes no file.
    pub main-IsClean :
        (args : Arguments) (run : Run)
        → main str_of dumps ip_interface args ≡ some run
        → IsCleanRun (plan_for str_of dumps ip_interface args) run
    main-IsClean args run e = payloads_split args args.payloads refl run e
