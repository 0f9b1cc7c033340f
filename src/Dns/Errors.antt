-- ===== src/Dns/Errors.antt =====
-- `sanitize_provider_error` of scripts/apply-hetzner-dns-plan.py.
use rfc_codex_gentoo_stage.Prelude.{
  ℕ, zero, suc, code, Bool, true, false, ◌&&◌, starts_with, ◌≡◌, refl,
}
use Prim.Native.String.{String, [], ◌∷◌, ◌++◌}
use rfc_codex_gentoo_stage.Dns.Provider.{is_token_char}

-- where a text is being read: outside of a match of the pattern, in its keyword with some
-- characters left, or in its token
pub data Place : Type 0 where
  outside : Place
  in_keyword : ℕ → Place
  in_token : Place

-- the text behind the keyword starts with a character of a token
unfoldable pub begins_token : String → String → Bool
begins_token [] [] = false
begins_token [] (c ∷ s) = is_token_char (code c)
begins_token (_ ∷ keyword) [] = false
begins_token (_ ∷ keyword) (_ ∷ s) = begins_token keyword s

-- `re.sub(keyword + r"[A-Za-z0-9._~+/=-]+", keyword + "REDACTED", message)`, for a keyword of one
-- character and as many more as the number says
unfoldable pub redact : String → ℕ → Place → String → String
unfolding begins_token is_token_char
redact keyword more place [] = []
redact keyword more outside (c ∷ s) =
    elim (starts_with (c ∷ s) keyword && begins_token keyword (c ∷ s)) [
      | true ↦ keyword ++ "REDACTED" ++ redact keyword more (in_keyword more) s
      | false ↦ c ∷ redact keyword more outside s
    ]
redact keyword more (in_keyword (suc n)) (c ∷ s) = redact keyword more (in_keyword n) s
redact keyword more (in_keyword zero) (c ∷ s) = redact keyword more in_token s
redact keyword more in_token (c ∷ s) = elim (is_token_char (code c)) [
  | true ↦ redact keyword more in_token s
  | false ↦ c ∷ redact keyword more outside s
]

unfoldable pub sanitize_provider_error : String → String
unfolding redact
sanitize_provider_error message = redact "Bearer " 6 outside (redact "Token " 5 outside message)

sanitized :
    sanitize_provider_error "HTTP 401: Token abc.1/2= and Bearer  x, Bearer q-9"
    ≡ "HTTP 401: Token REDACTED and Bearer  x, Bearer REDACTED"
unfolding sanitize_provider_error
sanitized = refl
