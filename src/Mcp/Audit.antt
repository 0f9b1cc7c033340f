-- ===== src/Mcp/Audit.antt =====
-- The names of the artifacts of scripts/mcp_servers/rfc1918_mcp_common/audit.py.
use rfc_codex_gentoo_stage.Prelude.{
  ℕ, zero, suc, ◌≤◌, code, Bool, true, false, ◌&&◌, ◌||◌, leb, nat_eq, ◌≡◌, refl, arith, Bool-cases,
  inl, inr, if◌then◌else◌,
}
use Prim.Native.String.{String, [], ◌∷◌, ◌++◌, char_at}
use Prim.Native.String.append
use rfc_codex_gentoo_stage.Text.{strip, is_empty, all_chars}

-- `[A-Za-z0-9_.-]`
unfoldable pub is_safe_char : ℕ → Bool
is_safe_char c =
    (leb b'A' c && leb c b'Z')
    || (leb b'a' c && leb c b'z')
    || (leb b'0' c && leb c b'9')
    || nat_eq c b'_'
    || nat_eq c b'.'
    || nat_eq c b'-'

-- `re.sub(r"[^A-Za-z0-9_.-]+", "_", s)`; the flag says that a run of other characters goes on.
unfoldable pub sub_unsafe : Bool → String → String
unfolding is_safe_char
sub_unsafe in_run [] = []
sub_unsafe in_run (c ∷ s) = elim (is_safe_char (code c)) [
  | true ↦ c ∷ sub_unsafe false s
  | false ↦ if in_run then sub_unsafe true s else char_at "_" 0 ∷ sub_unsafe true s
]

-- `s[:n]`
unfoldable pub take : ℕ → String → String
take zero s = []
take (suc n) [] = []
take (suc n) (c ∷ s) = c ∷ take n s

abbrev or_unset : String → String
or_unset s = if is_empty s then "unset" else s

unfoldable pub safe_fragment : String → String
unfolding strip sub_unsafe take
safe_fragment value = or_unset (take 96 (sub_unsafe false (strip value)))

-- the name of the artifact, for the text of the time
unfoldable pub artifact_name : String → String → String → String → String
unfolding safe_fragment
artifact_name time service operation idempotency_key =
    time
    ++ "-"
    ++ safe_fragment service
    ++ "-"
    ++ safe_fragment operation
    ++ "-"
    ++ safe_fragment idempotency_key
    ++ ".json"

-- how many characters
unfoldable pub size : String → ℕ
size [] = 0
size (_ ∷ s) = suc (size s)

abbrev pub IsSafe : String → Type 0
IsSafe s = all_chars is_safe_char s ≡ true

both_true : (a b : Bool) → (a && b) ≡ true → (a ≡ true) × (b ≡ true)
both_true a b h = ground arith

and_true : (a b : Bool) → a ≡ true → b ≡ true → (a && b) ≡ true
and_true a b h k = ground arith

if-IsSafe : (test : Bool) (s t : String) → IsSafe s → IsSafe t → IsSafe (if test then s else t)
if-IsSafe true s t h k = h
if-IsSafe false s t h k = k

sub_unsafe-IsSafe : (in_run : Bool) (s : String) → IsSafe (sub_unsafe in_run s)
unfolding sub_unsafe all_chars
sub_unsafe-IsSafe in_run [] = refl
sub_unsafe-IsSafe in_run (c ∷ s) = elim (Bool-cases (is_safe_char (code c))) [
  | inl e ↦ rw (sub_unsafe, e) (and_true _ _ e (sub_unsafe-IsSafe false s))
  | inr e ↦
      rw (sub_unsafe, e)
        (if-IsSafe in_run _ _ (sub_unsafe-IsSafe true s) (sub_unsafe-IsSafe true s))
]

append-IsSafe : (s t : String) → IsSafe s → IsSafe t → IsSafe (s ++ t)
unfolding all_chars
append-IsSafe [] t h k = rw (append.nil t) k
append-IsSafe (c ∷ s) t h k =
    let (safe, rest) = both_true _ _ h in
    rw (append.cons c s t) (and_true _ _ safe (append-IsSafe s t rest k))

take-IsSafe : (n : ℕ) (s : String) → IsSafe s → IsSafe (take n s)
unfolding take all_chars
take-IsSafe zero s h = refl
take-IsSafe (suc n) [] h = refl
take-IsSafe (suc n) (c ∷ s) h =
    let (safe, rest) = both_true _ _ h in and_true _ _ safe (take-IsSafe n s rest)

size-take : (n : ℕ) (s : String) → size (take n s) ≤ n
unfolding size take
size-take zero s = omega arith
size-take (suc n) [] = omega arith
size-take (suc n) (c ∷ s) = omega (arith, size-take n s)

or_unset-bounds : (s : String) → size s ≤ 96 → (1 ≤ size (or_unset s)) × (size (or_unset s) ≤ 96)
unfolding size
or_unset-bounds [] h = (omega arith, omega arith)
or_unset-bounds (c ∷ s) h = (omega arith, h)

or_unset-IsSafe : (s : String) → IsSafe s → IsSafe (or_unset s)
unfolding all_chars is_safe_char
or_unset-IsSafe [] h = refl
or_unset-IsSafe (c ∷ s) h = h

safe_fragment-IsSafe : (value : String) → IsSafe (safe_fragment value)
unfolding safe_fragment
safe_fragment-IsSafe value =
    or_unset-IsSafe _ (take-IsSafe 96 _ (sub_unsafe-IsSafe false (strip value)))

dash-IsSafe : IsSafe "-"
unfolding all_chars is_safe_char
dash-IsSafe = refl

suffix-IsSafe : IsSafe ".json"
unfolding all_chars is_safe_char
suffix-IsSafe = refl

safe_fragment-bounds :
    (value : String) → (1 ≤ size (safe_fragment value)) × (size (safe_fragment value) ≤ 96)
unfolding safe_fragment
safe_fragment-bounds value = or_unset-bounds _ (size-take 96 (sub_unsafe false (strip value)))

-- A fragment of the name of an artifact has 1 to 96 characters, and whatever the service, the
-- operation and the key are, the name has no character but letters, digits, `_`, `.` and `-`, if
-- the text of the time has none.
pub artifact_name-IsSafe :
    (time service operation idempotency_key : String)
    → IsSafe time
    → IsSafe (artifact_name time service operation idempotency_key)
      × ((value : String) → (1 ≤ size (safe_fragment value)) × (size (safe_fragment value) ≤ 96))
unfolding artifact_name
artifact_name-IsSafe time service operation idempotency_key h = (
  append-IsSafe time _ h (
      append-IsSafe "-" _ dash-IsSafe (
        append-IsSafe (safe_fragment service) _ (safe_fragment-IsSafe service) (
          append-IsSafe "-" _ dash-IsSafe (
            append-IsSafe (safe_fragment operation) _ (safe_fragment-IsSafe operation) (
              append-IsSafe "-" _ dash-IsSafe (
                append-IsSafe (safe_fragment idempotency_key) ".json"
                  (safe_fragment-IsSafe idempotency_key) suffix-IsSafe)))))),
  λ value. safe_fragment-bounds value,
)
