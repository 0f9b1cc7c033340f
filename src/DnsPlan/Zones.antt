-- ===== src/DnsPlan/Zones.antt =====
-- The zone that a name is put in, and the name relative to it: `zone_for_name` and
-- `relative_record_name` of scripts/plan-hetzner-dns-from-inventory.py.
use Prim.Native.String.{count}
use Prim.Native.Nat.{Ordering}
use rfc_codex_gentoo_stage.Prelude.{
  String, List, [], ◌∷◌, ◌⊎◌, inl, inr, ◌≡◌, ◌≢◌, true, false, refl, Option, none, some, All, Any,
  ◌≤◌, arith, All-map, All-left, All-right, Bool-cases, Any-append, subst, ap,
}
use rfc_codex_gentoo_stage.DnsPlan.Names.{
  ZoneGroup, Match, is_within, compare_matches, group_matches, zone_matches, greatest,
  zone_for_name, greater,
}

-- No zone of the groups that holds the name is longer than the zone of the match.
abbrev NoneLonger : String → Match → ZoneGroup → Type 0
NoneLonger fqdn m group =
    All (λ zone. (is_within fqdn zone ≡ false) ⊎ (count zone ≤ count m.zone)) group.zones

abbrev Offers : Match → ZoneGroup → Type 0
Offers m group = (group.name ≡ m.group_name) × Any (λ zone. zone ≡ m.zone) group.zones

abbrev pub Chosen : String → List ZoneGroup → Option Match → Type 0
Chosen fqdn groups none =
    All (λ group. All (λ zone. is_within fqdn zone ≡ false) group.zones) groups
Chosen fqdn groups (some m) =
    (is_within fqdn m.zone ≡ true) × Any (Offers m) groups × All (NoneLonger fqdn m) groups

abbrev Shorter : Match → Match → Type 0
Shorter m o = count o.zone ≤ count m.zone

not_longer : (a b : Match) → compare_matches a b ≡ Ordering.lt → Shorter b a
unfolding compare_matches
not_longer a b h = ground arith

not-Shorter : (a b : Match) → compare_matches a b ≢ Ordering.lt → Shorter a b
unfolding compare_matches
not-Shorter a b h = ground arith

abbrev Greatest : List Match → Option Match → Type 0
Greatest ms none = All (λ o. ⊥) ms
Greatest ms (some m) = Any (λ o. o ≡ m) ms × All (Shorter m) ms

kept :
    (a b : Match) (ms : List Match) → Shorter a b → All (Shorter b) ms → Greatest (a ∷ ms) (some a)
kept a b ms h all =
    (inl refl, (omega arith, All-map (Shorter b) (Shorter a) ms (λ o k. omega arith) all))

picked :
    (a b : Match) (ms : List Match) (o : Ordering)
    → compare_matches a b ≡ o
    → Greatest ms (some b)
    → Greatest
        (a ∷ ms)
        (elim o [ Ordering.lt ↦ some b | Ordering.eq ↦ some a | Ordering.gt ↦ some a ])
picked a b ms Ordering.lt h g = (inr g.0, (not_longer a b h, g.1))
picked a b ms Ordering.eq h g = kept a b ms (not-Shorter a b (cc)) g.1
picked a b ms Ordering.gt h g = kept a b ms (not-Shorter a b (cc)) g.1

greatest-IsGreatest : (ms : List Match) → Greatest ms (greatest ms)
unfolding greatest
greatest-IsGreatest [] = tt
greatest-IsGreatest (m ∷ ms) = greater-IsGreatest (greatest ms) (greatest-IsGreatest ms)
  where
    greater-IsGreatest : (o : Option Match) → Greatest ms o → Greatest (m ∷ ms) (greater m o)
    greater-IsGreatest none h =
        (inl refl, (omega arith, All-map (λ o. ⊥) (Shorter m) ms (λ o k. absurd k) h))
    greater-IsGreatest (some b) h = picked m b ms (compare_matches m b) refl h

module _ (fqdn : String) where
  unmatched :
      (n : String) (zs : List String)
      → All (λ o. ⊥) (group_matches fqdn n zs)
      → All (λ zone. is_within fqdn zone ≡ false) zs
  unfolding group_matches
  unmatched n [] h = tt
  unmatched n (z ∷ zs) h = elim (Bool-cases (is_within fqdn z)) [
    | inl e ↦ absurd ((rw e at h).0)
    | inr e ↦ (e, unmatched n zs (rw e at h))
  ]

  none_longer :
      (m : Match) (n : String) (zs : List String)
      → All (Shorter m) (group_matches fqdn n zs)
      → All (λ zone. (is_within fqdn zone ≡ false) ⊎ (count zone ≤ count m.zone)) zs
  unfolding group_matches
  none_longer m n [] h = tt
  none_longer m n (z ∷ zs) h = elim (Bool-cases (is_within fqdn z)) [
    | inl e ↦ (inr ((rw e at h).0), none_longer m n zs ((rw e at h).1))
    | inr e ↦ (inl e, none_longer m n zs (rw e at h))
  ]

  offered :
      (m : Match) (n : String) (zs : List String)
      → Any (λ o. o ≡ m) (group_matches fqdn n zs)
      → (is_within fqdn m.zone ≡ true) × (n ≡ m.group_name) × Any (λ zone. zone ≡ m.zone) zs
  unfolding group_matches
  offered m n [] h = elim h [ ]
  offered m n (z ∷ zs) h = elim (Bool-cases (is_within fqdn z)) [
    | inl e ↦ elim (rw e at h) [
      | inl k ↦ (
        subst (λ o. is_within fqdn o.zone ≡ true) k e,
        ap (λ o. o.group_name) k,
        inl (ap (λ o. o.zone) k),
      )
      | inr k ↦ let found = offered m n zs k in (found.0, found.1, inr found.2)
    ]
    | inr e ↦ let found = offered m n zs (rw e at h) in (found.0, found.1, inr found.2)
  ]

  none-Chosen :
      (groups : List ZoneGroup) → All (λ o. ⊥) (zone_matches fqdn groups) → Chosen fqdn groups none
  unfolding zone_matches
  none-Chosen [] h = tt
  none-Chosen (g ∷ gs) h = (
    unmatched g.name g.zones (All-left (λ o. ⊥) (group_matches fqdn g.name g.zones) _ h),
    none-Chosen gs (All-right (λ o. ⊥) (group_matches fqdn g.name g.zones) _ h),
  )

  all-Shorter :
      (m : Match) (groups : List ZoneGroup)
      → All (Shorter m) (zone_matches fqdn groups)
      → All (NoneLonger fqdn m) groups
  unfolding zone_matches
  all-Shorter m [] h = tt
  all-Shorter m (g ∷ gs) h = (
    none_longer m g.name g.zones (All-left (Shorter m) (group_matches fqdn g.name g.zones) _ h),
    all-Shorter m gs (All-right (Shorter m) (group_matches fqdn g.name g.zones) _ h),
  )

  some-Offers :
      (m : Match) (groups : List ZoneGroup)
      → Any (λ o. o ≡ m) (zone_matches fqdn groups)
      → (is_within fqdn m.zone ≡ true) × Any (Offers m) groups
  unfolding zone_matches
  some-Offers m [] h = elim h [ ]
  some-Offers m (g ∷ gs) h =
      elim (Any-append (λ o. o ≡ m) (group_matches fqdn g.name g.zones) _ h) [
        | inl k ↦ let found = offered m g.name g.zones k in (found.0, inl (found.1, found.2))
        | inr k ↦ let found = some-Offers m gs k in (found.0, inr found.1)
      ]

  greatest-Chosen :
      (groups : List ZoneGroup) (o : Option Match)
      → Greatest (zone_matches fqdn groups) o
      → Chosen fqdn groups o
  greatest-Chosen groups none h = none-Chosen groups h
  greatest-Chosen groups (some m) h =
      let found = some-Offers m groups h.0 in (found.0, found.1, all-Shorter m groups h.1)

-- If a zone of the token groups holds the name, then the zone that is chosen for it does, belongs to the
-- token group that is chosen with it, and none of the zones that hold the name is longer; if no zone is
-- chosen, none holds the name.
pub zone_for_name-Chosen :
    (fqdn : String) (zone_groups : List ZoneGroup)
    → Chosen fqdn zone_groups (zone_for_name fqdn zone_groups)
unfolding zone_for_name
zone_for_name-Chosen fqdn zone_groups =
    greatest-Chosen fqdn zone_groups (greatest (zone_matches fqdn zone_groups))
      (greatest-IsGreatest (zone_matches fqdn zone_groups))
