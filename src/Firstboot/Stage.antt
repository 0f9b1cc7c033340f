-- ===== src/Firstboot/Stage.antt =====
-- `main` of scripts/stage_secure_firstboot_bundle.py.
use rfc_codex_gentoo_stage.Text.{concat}
use rfc_codex_gentoo_stage.Prelude.{
  ◌||◌, ◌==◌, starts_with, ℕ, ℤ, String, Bool, not, ◌&&◌, List, [], ◌∷◌, Option, none, some,
  if◌then◌else◌,
}
use rfc_codex_gentoo_stage.Value.{Value, Fields, as_dict}
use rfc_codex_gentoo_stage.Firstboot.Bundle.{Problem, Moment, validate_bundle}

pub record Arguments : Type 0 where
  pub bundle : String
  pub expected_fqdn : String
  pub recipient : String
  pub output : String
  pub age_bin : String
  pub apply : Bool
  pub dry_run : Bool
  pub allow_repo_output : Bool

-- What changes something: a directory that is made, a command that is run, and a mode that is set to 0600.
pub data Action : Type 0 where
  make_parent : String → Action
  run : List String → Action
  restrict : String → Action

-- The surroundings: what `resolve` gives for a path, the root of the repository, the JSON value of a bundle (none for a file that cannot be read
-- or is no JSON), the time, how a text is read as a time, and whether a command succeeds.
pub record World : Type 0 where
  pub resolve : String → String
  pub repo_root : String
  pub loads : String → Option Value
  pub now : ℤ
  pub fromisoformat : String → Option Moment
  pub succeeds : List String → Bool

-- the exit status (none for an exception), and what was done
pub record Staging : Type 0 where
  pub status : Option ℕ
  pub actions : List Action

abbrev pub nothing_done : ℕ → Staging
nothing_done status = record { status = some status; actions = [] }

unfoldable pub is_applied : Arguments → Bool
is_applied args = args.apply && not args.dry_run

unfoldable pub encrypt_command : Arguments → List String
encrypt_command args =
    args.age_bin ∷ "--encrypt" ∷ "--recipient" ∷ args.recipient ∷ "--output" ∷ args.output
    ∷ args.bundle ∷ []

module _ (world : World) where
  -- `path.resolve().relative_to(parent.resolve())`, for a parent other than `/`
  unfoldable pub is_within : String → String → Bool
  unfolding concat
  is_within path parent =
      let inner = world.resolve path in
      let outer = world.resolve parent in
      inner == outer || starts_with inner (concat (outer ∷ "/" ∷ []))

  -- `load_bundle`; a value that is no mapping is a `ValueError`
  unfoldable pub load_bundle : String → Option Fields
  unfolding as_dict
  load_bundle path = elim (world.loads path) [ none ↦ none | some v ↦ as_dict v ]

  abbrev pub encrypt : Arguments → Staging
  encrypt args =
      if world.succeeds (encrypt_command args)
      then record {
        status = some 0;
        actions = make_parent args.output ∷ run (encrypt_command args) ∷ restrict args.output ∷ [];
      }
      else record {
        status = none;
        actions = make_parent args.output ∷ run (encrypt_command args) ∷ [];
      }

  abbrev pub stage_valid : Arguments → List Problem → Staging
  stage_valid args (problem ∷ problems) = nothing_done 1
  stage_valid args [] = if is_applied args then encrypt args else nothing_done 0

  abbrev pub stage_loaded : Arguments → Option Fields → Staging
  stage_loaded args none = nothing_done 1
  stage_loaded args (some bundle) =
      stage_valid args
        (validate_bundle world.fromisoformat bundle (some args.expected_fqdn) world.now)

  unfoldable pub main : Arguments → Staging
  unfolding is_within load_bundle validate_bundle is_applied encrypt_command
  main args =
      if is_within args.output world.repo_root && not args.allow_repo_output
      then nothing_done 2
      else stage_loaded args (load_bundle args.bundle)
