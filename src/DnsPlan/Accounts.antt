-- ===== src/DnsPlan/Accounts.antt =====
-- What becomes of each name of the inventory in scripts/plan-hetzner-dns-from-inventory.py: it is
-- planned, skipped or an error, and stays so.
use rfc_codex_gentoo_stage.Prelude.{
  String, true, false, some, List, [], ◌∷◌, ◌++◌, ◌≡◌, refl, sym, subst, ap, ◌∙◌, ◌⊎◌, inl, inr,
  Any, Bool-cases, length, false≢true,
}
use rfc_codex_gentoo_stage.Dns.Records.{put, find}
use rfc_codex_gentoo_stage.Sorted.{sorted_set}
use rfc_codex_gentoo_stage.DnsPlan.Names.{Match}
use rfc_codex_gentoo_stage.DnsPlan.Add.{
  Key, same_key, Planned, Planning, Setting, Wish, Left, differs, plan_record, key_of, or_none,
}
use rfc_codex_gentoo_stage.DnsPlan.Dicts
use rfc_codex_gentoo_stage.DnsPlan.Invariant.{
  same_key_sound, same_key_refl, added_values, differs_sound,
}

-- A row of the reports that names a wish.
abbrev pub IsAbout : Wish → Left → Type 0
IsAbout wish row =
    (row.fqdn ≡ wish.fqdn) × (row.record_type ≡ wish.record_type) × (row.source ≡ wish.source)

abbrev pub IsReported : Wish → Planning → Type 0
IsReported wish planning = Any (IsAbout wish) planning.errors ⊎ Any (IsAbout wish) planning.skipped

-- A record set of this name and type is planned, and its values are those.
abbrev pub IsPlanned : Key → List String → Planning → Type 0
IsPlanned key values planning =
    Any (λ e. e.0 ≡ key) planning.rrsets × (find same_key key planning.grouped_values ≡ some values)

-- What `add_record` does with a wish whose name and type are in normal form.
abbrev pub IsAccounted : Wish → Planning → Type 0
IsAccounted wish planning = IsPlanned (key_of wish) wish.values planning ⊎ IsReported wish planning

module _ (setting : Setting) where
  put_entry :
      (key : Key) (p : Planned) (rrsets : List (Key × Planned))
      → Any (λ e. e.0 ≡ key) (put same_key key p rrsets)
  unfolding put
  put_entry key p [] = inl refl
  put_entry key p ((k, q) ∷ rrsets) = elim (Bool-cases (same_key k key)) [
    | inl e ↦ rw e (inl (same_key_sound k key e))
    | inr e ↦ rw e (inr (put_entry key p rrsets))
  ]

  -- putting another record leaves what is planned as it is
  pub plan_record_keeps :
      (key : Key) (kept : List String) (wish : Wish) (match : Match) (values : List String)
      (planning : Planning)
      → length values ≡ 1
      → differs (find same_key (key_of wish) planning.grouped_values) values ≡ false
      → IsPlanned key kept planning
      → IsPlanned key kept (plan_record setting wish match values planning)
  unfolding plan_record
  plan_record_keeps key kept wish match values planning single same (planned, found) = (
    Dicts.Any-put same_key same_key_sound (λ k. k ≡ key) (key_of wish) _ planning.rrsets planned,
    values_kept (Bool-cases (same_key key (key_of wish))),
  )
    where
      all_values : List String
      all_values =
          sorted_set (or_none (find same_key (key_of wish) planning.grouped_values) ++ values)

      values_kept :
          (same_key key (key_of wish) ≡ true) ⊎ (same_key key (key_of wish) ≡ false)
          → find same_key key (put same_key (key_of wish) all_values planning.grouped_values)
            ≡ some kept
      values_kept (inl e) =
          let p = same_key_sound key (key_of wish) e in
          let there = subst (λ k. find same_key k planning.grouped_values ≡ some kept) p found in
          subst
            (λ k.
              find same_key k (put same_key (key_of wish) all_values planning.grouped_values)
              ≡ some kept)
            (sym p)
            (Dicts.find-put_same same_key same_key_sound (key_of wish) all_values
                planning.grouped_values (same_key_refl (key_of wish))
              ∙ ap (λ vs. some vs)
                  (added_values _ values single same
                    ∙ sym (
                        differs_sound kept values
                          (subst (λ o. differs o values ≡ false) there same))))
      values_kept (inr e) =
          Dicts.find-put_other same_key same_key_sound key (key_of wish) all_values
            planning.grouped_values
            (λ p. false≢true (sym e ∙ subst (λ k. same_key key k ≡ true) p (same_key_refl key)))
          ∙ found

  pub plan_record_plans :
      (wish : Wish) (match : Match) (values : List String) (planning : Planning)
      → length values ≡ 1
      → differs (find same_key (key_of wish) planning.grouped_values) values ≡ false
      → IsPlanned (key_of wish) values (plan_record setting wish match values planning)
  unfolding plan_record
  plan_record_plans wish match values planning single same = (
    put_entry (key_of wish) _ planning.rrsets,
    Dicts.find-put_same same_key same_key_sound (key_of wish) _ planning.grouped_values
          (same_key_refl (key_of wish))
        ∙ ap (λ vs. some vs) (added_values _ values single same),
  )
