-- ===== src/Value.antt =====
-- The values that `yaml.safe_load` and `json.load` give, with what Python does to them: truth,
-- `isinstance`, `dict.get`, iteration and `len`. Floating-point numbers and dates are not modelled.
use rfc_codex_gentoo_stage.Text.{strip}
use rfc_codex_gentoo_stage.Prelude.{
  ℕ, suc, ◌+◌, ◌*◌, ◌-◌, code, ◌&&◌, leb, nat_eq, ℤ, pos, negsuc, zero, String, Bool, true, false,
  not, Option, none, some, List, [], ◌∷◌, ◌==◌, if◌then◌else◌,
}

mutual
  pub data Value : Type 0 where
    null : Value
    bool : Bool → Value
    int : ℤ → Value
    str : String → Value
    list : Items → Value
    dict : Fields → Value

  pub data Items : Type 0 where
    nil : Items
    cons : Value → Items → Items

  pub data Fields : Type 0 where
    end : Fields
    field : String → Value → Fields → Fields

unfoldable pub elements : Items → List Value
elements nil = []
elements (cons v vs) = v ∷ elements vs

unfoldable pub keys : Fields → List String
keys end = []
keys (field k _ fs) = k ∷ keys fs

-- `row.get(key, default)`
unfoldable pub get_or : Fields → String → Value → Value
get_or end key default = default
get_or (field k v fs) key default = if k == key then v else get_or fs key default

-- `row.get(key)`
unfoldable pub get : Fields → String → Value
unfolding get_or
get row key = get_or row key null

-- `row[key]`; `none` is a `KeyError`.
unfoldable pub get_elem? : Fields → String → Option Value
get_elem? end key = none
get_elem? (field k v fs) key = if k == key then some v else get_elem? fs key

-- `key in row`
unfoldable pub has_key : Fields → String → Bool
has_key end key = false
has_key (field k v fs) key = if k == key then true else has_key fs key

-- `bool(v)`
unfoldable pub is_truthy : Value → Bool
is_truthy null = false
is_truthy (bool b) = b
is_truthy (int (pos zero)) = false
is_truthy (int _) = true
is_truthy (str s) = not (s == "")
is_truthy (list nil) = false
is_truthy (list (cons _ _)) = true
is_truthy (dict end) = false
is_truthy (dict (field _ _ _)) = true

infixl 20 ◌or_value◌
-- `v or default`
unfoldable pub ◌or_value◌ : Value → Value → Value
unfolding is_truthy
◌or_value◌ v default = if is_truthy v then v else default

abbrev pub empty_list : Value
empty_list = list nil

abbrev pub empty_dict : Value
empty_dict = dict end

-- `isinstance(v, str)`, with the text
unfoldable pub as_str : Value → Option String
as_str (str s) = some s
as_str _ = none

-- `isinstance(v, dict)`, with the mapping
unfoldable pub as_dict : Value → Option Fields
as_dict (dict fs) = some fs
as_dict _ = none

-- `isinstance(v, list)`, with its elements
unfoldable pub as_list : Value → Option (List Value)
unfolding elements
as_list (list vs) = some (elements vs)
as_list _ = none

characters : String → List Value
characters String.[] = []
characters (String.◌∷◌ c s) = str (String.◌∷◌ c String.[]) ∷ characters s

names : List String → List Value
names [] = []
names (k ∷ ks) = str k ∷ names ks

-- `iter(v)`: a mapping gives its keys, a text its characters; `none` is a `TypeError`.
unfoldable pub iterate : Value → Option (List Value)
unfolding elements keys characters names
iterate (list vs) = some (elements vs)
iterate (dict fs) = some (names (keys fs))
iterate (str s) = some (characters s)
iterate _ = none

-- The digits of a decimal numeral, with single underscores between them; `none` if there are others.
read_digits : Bool → ℕ → String → Option ℕ
read_digits digit_before acc String.[] = if digit_before then some acc else none
read_digits digit_before acc (String.◌∷◌ c s) =
    let n = code c in
    let more = read_digits true (acc * 10 + (n - b'0')) s in
    let after_underscore = read_digits false acc s in
    if leb b'0' n && leb n b'9'
    then more
    else if nat_eq n b'_' && digit_before
    then after_underscore
    else none

negate : Option ℕ → Option ℤ
negate none = none
negate (some zero) = some (pos zero)
negate (some (suc n)) = some (negsuc n)

positive : Option ℕ → Option ℤ
positive none = none
positive (some n) = some (pos n)

unfoldable pub read_int : String → Option ℤ
unfolding read_digits negate positive
read_int String.[] = none
read_int (String.◌∷◌ c s) =
    if nat_eq (code c) b'-'
    then negate (read_digits false 0 s)
    else if nat_eq (code c) b'+'
    then positive (read_digits false 0 s)
    else positive (read_digits false 0 (String.◌∷◌ c s))

-- `int(v)`, for ASCII digits; `none` is a `ValueError` or a `TypeError`.
unfoldable pub to_int : Value → Option ℤ
unfolding read_int strip
to_int (int n) = some n
to_int (bool true) = some (pos 1)
to_int (bool false) = some (pos 0)
to_int (str s) = read_int (strip s)
to_int _ = none

-- `v[key]` where `v` should be a mapping; `none` is a `KeyError` or a `TypeError`.
unfoldable pub item : Value → String → Option Value
unfolding get_elem?
item (dict fs) key = get_elem? fs key
item _ key = none

-- `str(v)`, with the text of a value that is no text given
unfoldable pub text_by : (Value → String) → Value → String
text_by str_of (str s) = s
text_by str_of v = str_of v
