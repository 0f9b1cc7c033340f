-- ===== src/Identity/Accepted/Entries.antt =====
-- The loops over groups and accounts: distinct names, distinct IDs, IDs in range.
use rfc_codex_gentoo_stage.Prelude.{
  ℕ, String, true, false, ◌||◌, none, List, [], ◌∷◌, ◌≡◌, ◌≢◌, arith, All, Unique, map, eq_refl,
}
use rfc_codex_gentoo_stage.Identity.Check.{Label}
use rfc_codex_gentoo_stage.Identity.Fields.{contains}
use rfc_codex_gentoo_stage.Identity.Ranges.{IdRange}
use rfc_codex_gentoo_stage.Identity.Rows.{Seen, lookup}
use rfc_codex_gentoo_stage.Identity.Clean.{Chain}
use rfc_codex_gentoo_stage.Identity.Directory.{IsCovered}

module _ {X : Type 0} (name : X → String) (id : X → ℕ) (ranges : List IdRange) where
  pub record Joins (x : X) (s t : Seen) : Type 0 where
    pub new_name : contains s.known (name x) ≡ false
    pub new_id : lookup (id x) s.ids ≡ none
    pub covered : IsCovered ranges (id x)
    pub known : t.known ≡ name x ∷ s.known
    pub who : Label
    pub ids : t.ids ≡ (id x, who) ∷ s.ids

  -- A name that is known at the start is no name of the chain.
  names_new :
      (xs : List X) (s t : Seen) (n : String)
      → Chain Joins xs s t
      → contains s.known n ≡ true
      → All (λ m. n ≢ m) (map name xs)
  unfolding contains
  names_new [] s t n c h = tt
  names_new (x ∷ xs) s t n (u, j, c) h =
      (λ e. cc (j.new_name), names_new xs u t n c (rw j.known (ground (arith, h))))

  ids_new :
      (xs : List X) (s t : Seen) (n : ℕ)
      → Chain Joins xs s t
      → lookup n s.ids ≢ none
      → All (λ m. n ≢ m) (map id xs)
  unfolding lookup
  ids_new [] s t n c h = tt
  ids_new (x ∷ xs) s t n (u, j, c) h =
      (λ e. h (cc (j.new_id)), ids_new xs u t n c (rw j.ids (ground (arith, h))))

  pub names_unique : (xs : List X) (s t : Seen) → Chain Joins xs s t → Unique (map name xs)
  unfolding contains
  names_unique [] s t c = tt
  names_unique (x ∷ xs) s t (u, j, c) =
      (names_new xs u t (name x) c (rw (j.known, eq_refl)), names_unique xs u t c)

  pub ids_unique : (xs : List X) (s t : Seen) → Chain Joins xs s t → Unique (map id xs)
  unfolding lookup
  ids_unique [] s t c = tt
  ids_unique (x ∷ xs) s t (u, j, c) =
      (ids_new xs u t (id x) c (rw j.ids (ground arith)), ids_unique xs u t c)

  pub All-IsCovered :
      (xs : List X) (s t : Seen) → Chain Joins xs s t → All (λ x. IsCovered ranges (id x)) xs
  All-IsCovered [] s t c = tt
  All-IsCovered (x ∷ xs) s t (u, j, c) = (j.covered, All-IsCovered xs u t c)

  -- After the loop the known names are those of the items and those known before.
  pub Chain-known :
      (xs : List X) (s t : Seen) (n : String)
      → Chain Joins xs s t
      → contains t.known n ≡ (contains (map name xs) n || contains s.known n)
  unfolding contains
  Chain-known [] s t n c = cc
  Chain-known (x ∷ xs) s t n (u, j, c) = rw (Chain-known xs u t n c, j.known) (ground arith)
