-- ===== src/Text/Ends.antt =====
-- `s.endswith(end)` and `s[:-len(end)]`, and what cutting the end off leaves.
use Prim.Native.String.{count, [], ◌∷◌, ◌++◌}
use text.Mathlib.TextLemmas.{nil-append, cons-append, length-append, append_cancel_right}
use rfc_codex_gentoo_stage.Prelude.{
  String, Bool, true, false, ◌||◌, ◌==◌, if◌then◌else◌, ◌≡◌, refl, ap, sym, eq_iff, Bool-cases, inl,
  inr, eq_refl, subst, ◌≤◌, arith,
}

-- `s.endswith(end)`
unfoldable pub ends_with : String → String → Bool
ends_with [] end = [] == end
ends_with (c ∷ s) end = c ∷ s == end || ends_with s end

-- `s[:-len(end)]`, for a text that ends so
unfoldable pub without_end : String → String → String
without_end [] end = []
without_end (c ∷ s) end = let rest = without_end s end in if c ∷ s == end then [] else c ∷ rest

pub append-without_end : (s end : String) → ends_with s end ≡ true → without_end s end ++ end ≡ s
unfolding ends_with without_end
append-without_end [] end h = rw (nil-append end) (sym ((eq_iff [] end).0 h))
append-without_end (c ∷ s) end h = elim (Bool-cases (c ∷ s == end)) [
  | inl e ↦ rw (e, nil-append end) (sym ((eq_iff (c ∷ s) end).0 e))
  | inr e ↦
      rw (e, cons-append c (without_end s end) end)
        (ap (λ t. c ∷ t) (append-without_end s end (rw e at h)))
]

ends_with_refl : (s : String) → ends_with s s ≡ true
unfolding ends_with
ends_with_refl [] = eq_refl []
ends_with_refl (c ∷ s) = rw (eq_refl (c ∷ s)) refl

true_after : (a b : Bool) → b ≡ true → (a || b) ≡ true
true_after true b h = refl
true_after false b h = h

pub ends_with-append : (s end : String) → ends_with (s ++ end) end ≡ true
unfolding ends_with
ends_with-append [] end = rw (nil-append end) (ends_with_refl end)
ends_with-append (c ∷ s) end =
    rw (cons-append c s end) (true_after (c ∷ (s ++ end) == end) _ (ends_with-append s end))

-- A text that ends in `end` is of at least the length.
pub count-ends_with : (s end : String) → ends_with s end ≡ true → count end ≤ count s
count-ends_with s end h =
    subst (λ t. count end ≤ count t) (append-without_end s end h)
      (rw (length-append (without_end s end) end) (omega arith))

pub without_end-append : (s end : String) → without_end (s ++ end) end ≡ s
without_end-append s end =
    append_cancel_right (without_end (s ++ end) end) s end
      (append-without_end (s ++ end) end (ends_with-append s end))

-- `f".{s}"`
abbrev pub dotted : String → String
dotted s = "." ++ s
