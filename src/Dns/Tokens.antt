-- ===== src/Dns/Tokens.antt =====
-- Whose tokens the zones and groups of scripts/apply-hetzner-dns-plan.py hold.
use rfc_codex_gentoo_stage.Prelude.{
  String, Bool, true, false, Option, none, some, List, [], ◌∷◌, All, ◌==◌, if◌then◌else◌,
}
use rfc_codex_gentoo_stage.Value.{Fields}
use rfc_codex_gentoo_stage.Dns.Provider.{Web}
use rfc_codex_gentoo_stage.Dns.Records.{put, find}
use rfc_codex_gentoo_stage.Dns.Groups.{TokenGroup}
use rfc_codex_gentoo_stage.Dns.Lookup.{
  Options, ZoneKey, same_zone, Zone, Zones, is_wanted, note_zones, last_group,
}

All-if :
    {A : Type 0} (P : A → Type 0) (test : Bool) (xs ys : List A)
    → All P xs
    → All P ys
    → All P (if test then xs else ys)
All-if P true xs ys h k = h
All-if P false xs ys h k = k

-- The value, if there is one, has `P`.
abbrev pub OnSome : {A : Type 0} → (A → Type 0) → Option A → Type 0
OnSome P none = Unit
OnSome P (some a) = P a

abbrev pub HasGood : (String → Type 0) → ZoneKey × Zone → Type 0
HasGood Good entry = Good (entry.1).api_token

abbrev pub GoodGroup : (String → Type 0) → TokenGroup → Type 0
GoodGroup Good group = Good group.api_token

module _ (Good : String → Type 0) where
  put-All :
      (key : ZoneKey) (zone : Zone) (zones : Zones)
      → Good zone.api_token
      → All (HasGood Good) zones
      → All (HasGood Good) (put same_zone key zone zones)
  unfolding put
  put-All key zone [] g h = (g, tt)
  put-All key zone ((k, z) ∷ zones) g h =
      elim (same_zone k key)
        as (λ b.
          All (HasGood Good)
            (if b then (k, zone) ∷ zones else (k, z) ∷ put same_zone key zone zones)) [
              | true ↦ (g, h.1)
              | false ↦ (h.0, put-All key zone zones g h.1)
            ]

  pub find-OnSome :
      (key : ZoneKey) (zones : Zones)
      → All (HasGood Good) zones
      → OnSome (λ (zone : Zone). Good zone.api_token) (find same_zone key zones)
  unfolding find
  find-OnSome key [] h = tt
  find-OnSome key ((k, z) ∷ zones) h =
      elim (same_zone k key)
        as (λ b.
          OnSome (λ (zone : Zone). Good zone.api_token)
            (if b then some z else find same_zone key zones)) [
              | true ↦ h.0
              | false ↦ find-OnSome key zones h.1
            ]

  later_group-OnSome :
      (name : String) (g : TokenGroup) (later : Option TokenGroup)
      → GoodGroup Good g
      → OnSome (GoodGroup Good) later
      → OnSome
          (GoodGroup Good)
          (elim later [ some l ↦ some l | none ↦ if g.name == name then some g else none ])
  later_group-OnSome name g (some l) h k = k
  later_group-OnSome name g none h k =
      elim (g.name == name) as (λ b. OnSome (GoodGroup Good) (if b then some g else none)) [
        | true ↦ h
        | false ↦ tt
      ]

  pub last_group-OnSome :
      (name : String) (groups : List TokenGroup)
      → All (GoodGroup Good) groups
      → OnSome (GoodGroup Good) (last_group name groups)
  unfolding last_group
  last_group-OnSome name [] h = tt
  last_group-OnSome name (g ∷ gs) h =
      later_group-OnSome name g (last_group name gs) h.0 (last_group-OnSome name gs h.1)

  module _ (web : Web) (options : Options) where
    pub note_zones-All :
        (group : TokenGroup) (found : List Fields) (zones : Zones)
        → GoodGroup Good group
        → All (HasGood Good) zones
        → All (HasGood Good) (note_zones web options group found zones)
    unfolding note_zones
    note_zones-All group [] zones g h = h
    note_zones-All group (zone ∷ more) zones g h =
        note_zones-All group more _ g
          (All-if _ (is_wanted web options group zone) _ _ (put-All _ _ zones g h) h)
