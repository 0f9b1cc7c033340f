-- ===== src/DnsPlan/Dicts.antt =====
-- What `put` keeps of a dictionary whose keys `same` compares, and what `find` gives afterwards.
use rfc_codex_gentoo_stage.Prelude.{
  Bool, true, none, some, List, [], ◌∷◌, ◌≡◌, ◌≢◌, refl, sym, subst, ap, inl, inr, All, Any, Unique,
  map, Bool-cases, if◌then◌else◌, ◌∙◌, false≢true,
}
use rfc_codex_gentoo_stage.Dns.Records.{put, find}

some≢none : {V : Type 0} {v : V} → some v ≢ none
some≢none h = cc

module _ {K V : Type 0} (same : K → K → Bool)
    (same_sound : (a b : K) → same a b ≡ true → a ≡ b) where
  pub All-put :
      (P : K × V → Type 0) (key : K) (value : V) (entries : List (K × V))
      → P (key, value)
      → All P entries
      → All P (put same key value entries)
  unfolding put
  All-put P key value [] h all = (h, tt)
  All-put P key value ((k, v) ∷ entries) h all = elim (Bool-cases (same k key)) [
    | inl e ↦ rw e (subst (λ x. P (x, value)) (sym (same_sound k key e)) h, all.1)
    | inr e ↦ rw e (all.0, All-put P key value entries h all.1)
  ]

  -- an entry that is there stays, if its key is not put again
  pub Any-put :
      (P : K → Type 0) (key : K) (value : V) (entries : List (K × V))
      → Any (λ e. P e.0) entries
      → Any (λ e. P e.0) (put same key value entries)
  unfolding put
  Any-put P key value [] h = elim h [ ]
  Any-put P key value ((k, v) ∷ entries) (inl h) = elim (Bool-cases (same k key)) [
    | inl e ↦ rw e (inl h)
    | inr e ↦ rw e (inl h)
  ]
  Any-put P key value ((k, v) ∷ entries) (inr h) = elim (Bool-cases (same k key)) [
    | inl e ↦ rw e (inr h)
    | inr e ↦ rw e (inr (Any-put P key value entries h))
  ]

  pub Unique-put :
      (key : K) (value : V) (entries : List (K × V))
      → (same_refl : (a : K) → same a a ≡ true) → Unique (map (λ e. e.0) entries)
      → Unique (map (λ e. e.0) (put same key value entries))
  unfolding put
  Unique-put key value [] same_refl h = (tt, tt)
  Unique-put key value ((k, v) ∷ entries) same_refl h = elim (Bool-cases (same k key)) [
    | inl e ↦ rw e h
    | inr e ↦ rw e (
      others entries k h.0 (λ p. false≢true (sym e ∙ subst (λ x. same k x ≡ true) p (same_refl k))),
      Unique-put key value entries same_refl h.1,
    )
  ]
    where
      others :
          (es : List (K × V)) (k : K)
          → All (λ x. k ≢ x) (map (λ e. e.0) es)
          → k ≢ key
          → All (λ x. k ≢ x) (map (λ e. e.0) (put same key value es))
      others [] k all h = (h, tt)
      others ((l, w) ∷ es) k all h = elim (Bool-cases (same l key)) [
        | inl e ↦ rw e all
        | inr e ↦ rw e (all.0, others es k all.1 h)
      ]

  pub find-put_same :
      (key : K) (value : V) (entries : List (K × V))
      → same key key ≡ true
      → find same key (put same key value entries) ≡ some value
  unfolding put find
  find-put_same key value [] h = rw h refl
  find-put_same key value ((k, v) ∷ entries) h = elim (Bool-cases (same k key)) [
    | inl e ↦ rw e (rw e refl)
    | inr e ↦ rw e (rw e (find-put_same key value entries h))
  ]

  pub find-put_other :
      (other key : K) (value : V) (entries : List (K × V))
      → other ≢ key
      → find same other (put same key value entries) ≡ find same other entries
  unfolding put find
  find-put_other other key value [] h = elim (Bool-cases (same key other)) [
    | inl e ↦ absurd (h (sym (same_sound key other e)))
    | inr e ↦ rw e refl
  ]
  find-put_other other key value ((k, v) ∷ entries) h = elim (Bool-cases (same k key)) [
    | inl e ↦ elim (Bool-cases (same k other)) [
      | inl d ↦ absurd (h (sym (same_sound k other d) ∙ same_sound k key e))
      | inr d ↦ rw e (rw d refl)
    ]
    | inr e ↦ rw e (
        ap (λ rest. if same k other then some v else rest)
          (find-put_other other key value entries h))
  ]

  -- a key that is not found is the key of no entry
  pub find-none :
      (key : K) (entries : List (K × V)) (same_refl : (a : K) → same a a ≡ true)
      → find same key entries ≡ none
      → All (λ e. e.0 ≢ key) entries
  unfolding find
  find-none key [] same_refl h = tt
  find-none key ((k, v) ∷ entries) same_refl h = elim (Bool-cases (same k key)) [
    | inl e ↦ absurd (some≢none (rw e at h))
    | inr e ↦ (
      (λ p. false≢true (sym e ∙ subst (λ x. same k x ≡ true) p (same_refl k))),
      find-none key entries same_refl (rw e at h),
    )
  ]
