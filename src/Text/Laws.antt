-- ===== src/Text/Laws.antt =====
-- What stripping leaves: no character of the stripped kind at either end. The test of two texts.
use Prim.Native.String.{[], ◌∷◌}
use rfc_codex_gentoo_stage.Prelude.{
  ℕ, String, code, Bool, ◌≡◌, ◌≢◌, ◌==◌, refl, false, arith, Bool-cases, inl, inr, eq_iff, Char,
  true, false≢true, sym,
}
use rfc_codex_gentoo_stage.Text.{
  is_space, lstrip_by, rstrip_by, strip_by, strip, all_chars, is_empty,
}

abbrev leads : (ℕ → Bool) → String → Bool
leads test [] = false
leads test (c ∷ s) = test (code c)

module _ (test : ℕ → Bool) where
  leads-lstrip_by : (s : String) → leads test (lstrip_by test s) ≡ false
  unfolding lstrip_by
  leads-lstrip_by [] = refl
  leads-lstrip_by (c ∷ s) = ground (arith, leads-lstrip_by s)

  leads-rstrip_by : (s : String) → leads test s ≡ false → leads test (rstrip_by test s) ≡ false
  unfolding rstrip_by
  leads-rstrip_by [] h = refl
  leads-rstrip_by (c ∷ s) h = ground arith

  lstrip_by_fixed : (s : String) → leads test s ≡ false → lstrip_by test s ≡ s
  unfolding lstrip_by
  lstrip_by_fixed [] h = refl
  lstrip_by_fixed (c ∷ s) h = ground arith

  rstrip_by-rstrip_by : (s : String) → rstrip_by test (rstrip_by test s) ≡ rstrip_by test s
  unfolding rstrip_by
  rstrip_by-rstrip_by [] = refl
  rstrip_by-rstrip_by (c ∷ s) = ground (arith, rstrip_by-rstrip_by s)

  pub strip_by-strip_by : (s : String) → strip_by test (strip_by test s) ≡ strip_by test s
  unfolding strip_by
  strip_by-strip_by s =
      simp (lstrip_by_fixed _ (leads-rstrip_by _ (leads-lstrip_by s)), rstrip_by-rstrip_by)

pub strip-strip : (s : String) → strip (strip s) ≡ strip s
unfolding strip
strip-strip s = strip_by-strip_by is_space s

-- different texts, as the Boolean test says it
pub differ : (s t : String) → s ≢ t → (s == t) ≡ false
differ s t h = elim (Bool-cases (s == t)) [ inl e ↦ absurd (h ((eq_iff s t).0 e)) | inr e ↦ e ]

lstrip_by-nil : (test : ℕ → Bool) (s : String) → all_chars test s ≡ true → lstrip_by test s ≡ []
unfolding lstrip_by all_chars
lstrip_by-nil test [] h = refl
lstrip_by-nil test (c ∷ s) h = elim (Bool-cases (test (code c))) [
  | inl e ↦ rw e (lstrip_by-nil test s (rw e at h))
  | inr e ↦ absurd (false≢true (rw e at h))
]

rstrip_by-filled :
    (test : ℕ → Bool) (c : Char) (s : String)
    → test (code c) ≡ false
    → is_empty (rstrip_by test (c ∷ s)) ≡ false
unfolding rstrip_by
rstrip_by-filled test c s e = rw (rstrip_by, e) refl

-- what is left of a text that has another character
pub strip_by-filled :
    (test : ℕ → Bool) (s : String) → all_chars test s ≡ false → is_empty (strip_by test s) ≡ false
unfolding strip_by lstrip_by all_chars
strip_by-filled test [] h = absurd (false≢true (sym h))
strip_by-filled test (c ∷ s) h = elim (Bool-cases (test (code c))) [
  | inl e ↦ rw (strip_by, e) (strip_by-filled test s (rw e at h))
  | inr e ↦ rw (strip_by, e) (rstrip_by-filled test c s e)
]

pub strip_by-blank :
    (test : ℕ → Bool) (s : String) → all_chars test s ≡ true → is_empty (strip_by test s) ≡ true
unfolding strip_by rstrip_by
strip_by-blank test s h = rw (strip_by, lstrip_by-nil test s h) refl
