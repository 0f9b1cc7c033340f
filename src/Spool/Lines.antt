-- ===== src/Spool/Lines.antt =====
-- The lines of a log to which a line is added, in scripts/forge_memory_spool.py.
use text.Mathlib.TextLemmas.{nil-append, cons-append, append_assoc}
use rfc_codex_gentoo_stage.Prelude.{
  ℕ, code, Char, String, Bool, true, false, not, ◌||◌, nat_eq, List, [], ◌∷◌, ◌++◌, ◌≡◌, refl, sym,
  ap, subst, ◌∙◌, inl, inr, Bool-cases, if◌then◌else◌, false≢true, append-nil,
}
use rfc_codex_gentoo_stage.Text.{split_at, all_chars, is_empty, append, strip}
use rfc_codex_gentoo_stage.Spool.Files.{lines, is_blank, without_blank}

-- The text is empty or ends with a line break.
unfoldable pub ends_line : (ℕ → Bool) → String → Bool
ends_line test String.[] = true
ends_line test (String.◌∷◌ c s) =
    let rest = ends_line test s in if is_empty s then test (code c) else rest

without_blank_append :
    (xs ys : List String) → without_blank (xs ++ ys) ≡ without_blank xs ++ without_blank ys
unfolding without_blank
without_blank_append [] ys = refl
without_blank_append (x ∷ xs) ys = elim (Bool-cases (is_blank x)) [
  | inl e ↦ rw e (without_blank_append xs ys)
  | inr e ↦ rw e (ap (λ rest. x ∷ rest) (without_blank_append xs ys))
]

module _ (test : ℕ → Bool) where
  -- the lines of a text that ends with a line break, and of what is added to it
  abbrev Complete : String → List String → Type 0
  Complete s xs =
      (split_at test s ≡ xs ++ "" ∷ [])
      × ((t : String) → split_at test (append s t) ≡ xs ++ split_at test t)

  longer : (c : Char) → List String → List String
  longer c [] = []
  longer c (w ∷ ws) = String.◌∷◌ c w ∷ ws

  split_break :
      (c : Char) (s : String)
      → test (code c) ≡ true
      → split_at test (String.◌∷◌ c s) ≡ "" ∷ split_at test s
  unfolding split_at
  split_break c s h = rw h refl

  split_char :
      (c : Char) (s : String) (w : String) (ws : List String)
      → test (code c) ≡ false
      → split_at test s ≡ w ∷ ws
      → split_at test (String.◌∷◌ c s) ≡ String.◌∷◌ c w ∷ ws
  unfolding split_at
  split_char c s w ws h e = rw (split_at, h, e) refl

  complete :
      (c : Char) (s : String)
      → ends_line test (String.◌∷◌ c s) ≡ true
      → (w : String) × (ws : List String) × Complete (String.◌∷◌ c s) (w ∷ ws)
  unfolding ends_line split_at
  complete c String.[] h =
      ("", [], (split_break c "" h, λ t. rw (cons-append c "" t, nil-append t) (split_break c t h)))
  complete c (String.◌∷◌ d s) h =
      let (w, ws, (here, more)) = complete d s h in
      elim (Bool-cases (test (code c))) [
        | inl e ↦ (
          "",
          w ∷ ws,
          (
            split_break c (String.◌∷◌ d s) e ∙ ap (λ rest. "" ∷ rest) here,
            λ t.
                rw (cons-append c (String.◌∷◌ d s) t)
                  (split_break c _ e ∙ ap (λ rest. "" ∷ rest) (more t)),
          ),
        )
        | inr e ↦ (
          String.◌∷◌ c w,
          ws,
          (
            split_char c (String.◌∷◌ d s) w _ e here,
            λ t. rw (cons-append c (String.◌∷◌ d s) t) (split_char c _ w _ e (more t)),
          ),
        )
      ]

  split_line :
      (line : String) (c : Char)
      → all_chars (λ n. not (test n)) line ≡ true
      → test (code c) ≡ true
      → split_at test (append line (String.◌∷◌ c "")) ≡ line ∷ "" ∷ []
  unfolding all_chars split_at
  split_line String.[] c h e = rw (nil-append (String.◌∷◌ c "")) (split_break c "" e)
  split_line (String.◌∷◌ d s) c h e = elim (Bool-cases (test (code d))) [
    | inl k ↦ absurd (false≢true (rw k at h))
    | inr k ↦
        rw (cons-append d s (String.◌∷◌ c ""))
          (split_char d _ s ("" ∷ []) k (split_line s c (rw k at h) e))
  ]

  ends_line-append :
      (s : String) (c : Char)
      → test (code c) ≡ true
      → ends_line test (append s (String.◌∷◌ c "")) ≡ true
  unfolding ends_line
  ends_line-append String.[] c e = rw (nil-append (String.◌∷◌ c "")) e
  ends_line-append (String.◌∷◌ d s) c e =
      rw (cons-append d s (String.◌∷◌ c "")) (not_last s (ends_line-append s c e))
    where
      not_last :
          (s : String)
          → ends_line test (append s (String.◌∷◌ c "")) ≡ true
          → (if is_empty (append s (String.◌∷◌ c ""))
              then test (code d)
              else ends_line test (append s (String.◌∷◌ c "")))
            ≡ true
      not_last String.[] h =
          rw (nil-append (String.◌∷◌ c "")) (rw (nil-append (String.◌∷◌ c "")) at h)
      not_last (String.◌∷◌ x s) h =
          rw (cons-append x s (String.◌∷◌ c "")) (rw (cons-append x s (String.◌∷◌ c "")) at h)

abbrev pub is_break : ℕ → Bool
is_break c = nat_eq c 10 || nat_eq c 13

lines_added :
    (old added : String)
    → ends_line is_break old ≡ true
    → without_blank (split_at is_break (append old added))
      ≡ without_blank (split_at is_break old) ++ without_blank (split_at is_break added)
unfolding split_at without_blank is_blank strip
lines_added String.[] added h = rw (nil-append added) refl
lines_added (String.◌∷◌ c s) added h =
    let (w, ws, (here, more)) = complete is_break c s h in
    ap without_blank (more added)
    ∙ without_blank_append (w ∷ ws) (split_at is_break added)
    ∙ ap (λ xs. xs ++ without_blank (split_at is_break added))
        (sym (append-nil _)
          ∙ sym (without_blank_append (w ∷ ws) ("" ∷ []))
          ∙ ap without_blank (sym here))

-- A line that is no blank one and has no line break, added with a line break behind a text that ends with one, is one
-- more line of the text.
pub lines-line_added :
    (old line : String)
    → ends_line is_break old ≡ true
    → all_chars (λ n. not (is_break n)) line ≡ true
    → is_blank line ≡ false
    → without_blank (lines (append old (append line "\n"))) ≡ without_blank (lines old) ++ line ∷ []
unfolding lines without_blank is_blank strip
lines-line_added old line h g k =
    lines_added old (append line "\n") h
    ∙ ap (λ xs. without_blank (lines old) ++ xs)
        (ap without_blank (split_line is_break line "\n" g refl) ∙ rw k refl)

pub ends_line-line_added :
    (old line : String) → ends_line is_break (append old (append line "\n")) ≡ true
ends_line-line_added old line =
    subst (λ s. ends_line is_break s ≡ true) (append_assoc old line "\n")
      (ends_line-append is_break (append old line) "\n" refl)
