-- ===== src/Firstboot/Staged.antt =====
-- When scripts/stage_secure_firstboot_bundle.py writes a bundle.
use rfc_codex_gentoo_stage.Prelude.{
  Bool, true, false, not, ◌&&◌, List, [], ◌∷◌, Option, none, some, ◌≡◌, ◌≢◌, ◌⊎◌, inl, inr, refl,
  Bool-cases, false≢true,
}
use rfc_codex_gentoo_stage.Value.{Fields}
use rfc_codex_gentoo_stage.Firstboot.Bundle.{Problem, validate_bundle}
use rfc_codex_gentoo_stage.Firstboot.Accepted.{IsBundle, validate_bundle-IsBundle}
use rfc_codex_gentoo_stage.Firstboot.Stage.{
  Arguments, World, Staging, is_within, is_applied, load_bundle, stage_valid, stage_loaded, main,
}

applied : (apply dry_run : Bool) → apply && not dry_run ≡ true → (apply ≡ true) × (dry_run ≡ false)
applied true false h = (refl, refl)
applied true true h = absurd (false≢true h)
applied false dry_run h = absurd (false≢true h)

allowed : (inside allow : Bool) → inside && not allow ≡ false → (inside ≡ false) ⊎ (allow ≡ true)
allowed false allow h = inl refl
allowed true true h = inr refl
allowed true false h = cc

module _ (world : World) (args : Arguments) where
  -- A bundle that is accepted for the expected host at this time.
  abbrev pub HasBundle : Type 0
  HasBundle =
      (bundle : Fields) × (load_bundle world args.bundle ≡ some bundle)
      × IsBundle world.fromisoformat bundle (some args.expected_fqdn) world.now

  by_problems :
      (problems : List Problem)
      → Staging.actions (stage_valid world args problems) ≢ []
      → (problems ≡ []) × (is_applied args ≡ true)
  by_problems (problem ∷ problems) h = absurd (h refl)
  by_problems [] h = elim (Bool-cases (is_applied args)) [
    | inl e ↦ (refl, e)
    | inr e ↦ absurd ((rw e at h) refl)
  ]

  by_bundle :
      (bundle : Option Fields)
      → load_bundle world args.bundle ≡ bundle
      → Staging.actions (stage_loaded world args bundle) ≢ []
      → HasBundle × (is_applied args ≡ true)
  by_bundle none e h = absurd (h refl)
  by_bundle (some bundle) e h =
      let valid =
        by_problems (validate_bundle world.fromisoformat bundle (some args.expected_fqdn) world.now)
          h in
      (
        (
          bundle,
          e,
          validate_bundle-IsBundle world.fromisoformat bundle (some args.expected_fqdn) world.now
              valid.0,
        ),
        valid.1,
      )

  -- If the script makes a directory, runs a command or sets a mode, then it was told to apply and is no dry run, its
  -- output is outside of the repository or is allowed there, and the bundle can be read and is what a bundle has to be,
  -- for the expected host and at this time.
  pub main-HasBundle :
      Staging.actions (main world args) ≢ []
      → (args.apply ≡ true)
        × (args.dry_run ≡ false)
        × ((is_within world args.output world.repo_root ≡ false) ⊎ (args.allow_repo_output ≡ true))
        × HasBundle
  unfolding main is_applied
  main-HasBundle h =
      elim (Bool-cases
        (is_within world args.output world.repo_root && not args.allow_repo_output)) [
          | inl e ↦ absurd ((rw (main, e) at h) refl)
          | inr e ↦
              let loaded = by_bundle (load_bundle world args.bundle) refl (rw (main, e) at h) in
              let flags = applied args.apply args.dry_run loaded.1 in
              (flags.0, flags.1, allowed _ _ e, loaded.0)
        ]
