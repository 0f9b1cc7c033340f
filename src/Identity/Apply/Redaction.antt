-- ===== src/Identity/Apply/Redaction.antt =====
-- The redaction of sensitive arguments.
use Prim.Native.String.{[], ◌∷◌, ◌++◌}
use Prim.Native.String.append
use rfc_codex_gentoo_stage.Prelude.{
  ℕ, String, Bool, true, some, List, ◌≡◌, refl, ap, sym, subst, All, false≢true, arith, any, code,
  nat_eq, starts_with, ◌==◌, eq_iff, Bool-cases, inl, inr,
}
use text.Mathlib.TextPositions.{starts_with-append}
use rfc_codex_gentoo_stage.Text.{partition}
use rfc_codex_gentoo_stage.Identity.Apply.Run.{redacted_arg, is_sensitive, sensitive_arg_prefixes}

-- The text before a separator that stands in the prefix is the same whatever follows the prefix.
partition-append :
    (sep : ℕ) (p s : String) (rest : String)
    → (partition sep p).1 ≡ some rest
    → (partition sep (p ++ s)).0 ≡ (partition sep p).0
unfolding partition
partition-append sep [] s rest h = cc
partition-append sep (c ∷ p) s rest h = elim (Bool-cases (nat_eq (code c) sep)) [
  | inl e ↦ rw (append.cons c p s, e)
  | inr e ↦ rw (append.cons c p s, e) (ap (λ w. c ∷ w) (partition-append sep p s rest (rw e at h)))
]

any-of_eq :
    (test : String → Bool) (p : String) (ps : List String)
    → test p ≡ true
    → any (λ q. p == q) ps ≡ true
    → any test ps ≡ true
any-of_eq test p List.[] h m = cc
any-of_eq test p (List.◌∷◌ q qs) h m = elim (Bool-cases (p == q)) [
  | inl e ↦ rw (subst (λ w. test w ≡ true) ((eq_iff p q).0 e) h)
  | inr e ↦ ground (arith, any-of_eq test p qs h (rw e at m))
]

All-of_eq :
    (P : String → Type 0) (p : String) (ps : List String)
    → All P ps
    → any (λ q. p == q) ps ≡ true
    → P p
All-of_eq P p List.[] a m = absurd (false≢true m)
All-of_eq P p (List.◌∷◌ q qs) a m = elim (Bool-cases (p == q)) [
  | inl e ↦ subst P (sym ((eq_iff p q).0 e)) a.0
  | inr e ↦ All-of_eq P p qs a.1 (rw e at m)
]

prefix-is_sensitive :
    (p s : String) → any (λ q. p == q) sensitive_arg_prefixes ≡ true → is_sensitive (p ++ s) ≡ true
unfolding is_sensitive
prefix-is_sensitive p s h =
    any-of_eq (starts_with (p ++ s)) p sensitive_arg_prefixes (starts_with-append p s) h

has_separator :
    (p : String)
    → any (λ q. p == q) sensitive_arg_prefixes ≡ true
    → (rest : String) × ((partition b'=' p).1 ≡ some rest)
unfolding partition
has_separator p h =
    All-of_eq (λ q. (rest : String) × ((partition b'=' q).1 ≡ some rest)) p sensitive_arg_prefixes
      (("", refl), (("userPassword=", refl), (("", refl), (("", refl), tt)))) h

-- For each sensitive prefix, what is logged is the same whatever value follows it.
pub redacted_arg-hides :
    (p s t : String)
    → any (λ q. p == q) sensitive_arg_prefixes ≡ true
    → redacted_arg (p ++ s) ≡ redacted_arg (p ++ t)
unfolding redacted_arg
redacted_arg-hides p s t h =
    let (rest, e) = has_separator p h in
    rw (
      prefix-is_sensitive p s h,
      prefix-is_sensitive p t h,
      partition-append b'=' p s rest e,
      partition-append b'=' p t rest e,
    )
