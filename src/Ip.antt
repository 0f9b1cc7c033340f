-- ===== src/Ip.antt =====
-- `ipaddress.ip_address` of Python's standard library, as a test: does the text name an IPv4 or an
-- IPv6 address?
use mathlib.Core.List.{reverse}
use Prim.Native.String.{count}
use rfc_codex_gentoo_stage.Prelude.{
  ℕ, zero, suc, ◌+◌, ◌-◌, ◌*◌, ◌≡◌, refl, String, code, Bool, true, false, not, ◌&&◌, ◌||◌, Option,
  none, some, List, [], ◌∷◌, length, leb, ltb, nat_eq, if◌then◌else◌,
}
use rfc_codex_gentoo_stage.Text.{is_empty, all_chars, split}

is_digit : ℕ → Bool
is_digit c = leb b'0' c && leb c b'9'

is_hex : ℕ → Bool
unfolding is_digit
is_hex c = is_digit c || (leb b'a' c && leb c b'f') || (leb b'A' c && leb c b'F')

decimal : ℕ → String → ℕ
decimal acc String.[] = acc
decimal acc (String.◌∷◌ c s) = decimal (acc * 10 + (code c - b'0')) s

leads_with_zero : String → Bool
leads_with_zero (String.◌∷◌ c (String.◌∷◌ _ _)) = nat_eq (code c) b'0'
leads_with_zero _ = false

-- one to three digits, no leading zero, at most 255
is_octet : String → Bool
unfolding all_chars is_digit leads_with_zero decimal
is_octet s =
    not (is_empty s)
    && all_chars is_digit s
    && leb (count s) 3
    && not (leads_with_zero s)
    && leb (decimal 0 s) 255

all_texts : (String → Bool) → List String → Bool
all_texts test [] = true
all_texts test (s ∷ ss) = test s && all_texts test ss

unfoldable pub is_ipv4 : String → Bool
unfolding is_octet all_texts split
is_ipv4 s = let parts = split b'.' s in nat_eq (length parts) 4 && all_texts is_octet parts

is_hextet : String → Bool
unfolding is_hex all_chars
is_hextet s = not (is_empty s) && all_chars is_hex s && leb (count s) 4

contains_char : ℕ → String → Bool
contains_char n String.[] = false
contains_char n (String.◌∷◌ c s) = nat_eq (code c) n || contains_char n s

-- An address in dotted form at the end stands for two groups.
expand_tail : List String → Option (List String)
unfolding is_ipv4 contains_char
expand_tail parts = elim (reverse parts) [
  | [] ↦ some parts
  | last ∷ front ↦
      if contains_char b'.' last
      then if is_ipv4 last then some (reverse ("0" ∷ "0" ∷ front)) else none
      else some parts
]

count_empty : List String → ℕ
count_empty [] = 0
count_empty (s ∷ ss) = if is_empty s then suc (count_empty ss) else count_empty ss

-- the parts but the first and the last
inner : List String → List String
inner [] = []
inner (_ ∷ rest) = elim (reverse rest) [ [] ↦ [] | _ ∷ front ↦ reverse front ]

at : ℕ → List String → String
at n [] = ""
at zero (s ∷ _) = s
at (suc n) (_ ∷ ss) = at n ss

last_of : List String → String
unfolding at
last_of parts = at 0 (reverse parts)

group_or_empty : String → Bool
unfolding is_hextet
group_or_empty s = is_empty s || is_hextet s

-- With one `::`: an empty end has to touch it, and at least one group is left out.
is_compressed : List String → Bool
unfolding inner at last_of all_texts group_or_empty count_empty
is_compressed parts =
    let second = at 1 parts in
    let next_to_last = at 1 (reverse parts) in
    all_texts group_or_empty parts
    && (not (is_empty (at 0 parts)) || is_empty second)
    && (not (is_empty (last_of parts)) || is_empty next_to_last)
    && ltb (length parts - count_empty parts) 8

is_groups : List String → Bool
unfolding is_compressed inner count_empty all_texts is_hextet
is_groups parts =
    let gaps = count_empty (inner parts) in
    leb (length parts) 9
    && (if nat_eq gaps 0
        then nat_eq (length parts) 8 && all_texts is_hextet parts
        else nat_eq gaps 1 && is_compressed parts)

-- the part before the first `%`, with the scope after it
scope_parts : String → List String
unfolding split
scope_parts s = split b'%' s

has_valid_scope : List String → Bool
has_valid_scope (_ ∷ []) = true
has_valid_scope (_ ∷ scope ∷ []) = not (is_empty scope)
has_valid_scope _ = false

unfoldable pub is_ipv6 : String → Bool
unfolding is_groups expand_tail scope_parts has_valid_scope at split contains_char
is_ipv6 s =
    let parts = split b':' (at 0 (scope_parts s)) in
    has_valid_scope (scope_parts s)
    && not (contains_char b'/' s)
    && leb 3 (length parts)
    && elim (expand_tail parts) [ none ↦ false | some groups ↦ is_groups groups ]

unfoldable pub is_ip_address : String → Bool
unfolding is_ipv4 is_ipv6
is_ip_address s = is_ipv4 s || is_ipv6 s

accepts_addresses :
    (is_ip_address "10.99.0.1" ≡ true)
    × (is_ip_address "fe80::1%eth0" ≡ true)
    × (is_ip_address "::" ≡ true)
    × (is_ip_address "::ffff:10.0.0.1" ≡ true)
    × (is_ip_address "1:2:3:4:5:6:7:8" ≡ true)
    × (is_ip_address "1::" ≡ true)
unfolding is_ip_address
accepts_addresses = (refl, refl, refl, refl, refl, refl)

refuses_other_texts :
    (is_ip_address "10.99.0.256" ≡ false)
    × (is_ip_address "10.99.0" ≡ false)
    × (is_ip_address "10.99.0.01" ≡ false)
    × (is_ip_address "1::2::3" ≡ false)
    × (is_ip_address ":1:2:3:4:5:6:7" ≡ false)
    × (is_ip_address "1:2:3:4:5:6:7::8" ≡ false)
    × (is_ip_address "host" ≡ false)
unfolding is_ip_address
refuses_other_texts = (refl, refl, refl, refl, refl, refl, refl)
