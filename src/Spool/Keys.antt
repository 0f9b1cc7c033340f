-- ===== src/Spool/Keys.antt =====
-- The keys of a value at any depth, and what `reject_secret_keys` of
-- scripts/forge_memory_spool.py says of them.
use rfc_codex_gentoo_stage.Prelude.{
  ℕ, suc, String, true, false, Option, none, some, List, [], ◌∷◌, ◌++◌, ◌≡◌, refl, inl, inr, All,
  Any, All-append, Any-left, Any-right, Bool-cases, if◌then◌else◌,
}
use rfc_codex_gentoo_stage.Value.{
  Value, null, bool, int, str, list, dict, Items, nil, cons, Fields, end, field,
}
use rfc_codex_gentoo_stage.Spool.Check.{
  SpoolError, secret_key, Step, is_secret_key, reject_secret_keys, reject_fields, reject_items,
  or_else, steps, at_key, at_index,
}

unfoldable mutual
  -- every key of every object in the value
  pub all_keys : Value → List String
  all_keys null = []
  all_keys (bool b) = []
  all_keys (int n) = []
  all_keys (str s) = []
  all_keys (list vs) = item_keys vs
  all_keys (dict fs) = field_keys fs

  pub field_keys : Fields → List String
  field_keys end = []
  field_keys (field k v fs) = k ∷ (all_keys v ++ field_keys fs)

  pub item_keys : Items → List String
  item_keys nil = []
  item_keys (cons v vs) = all_keys v ++ item_keys vs

-- What the answer of `reject_secret_keys` says of the keys of a value.
abbrev pub IsVerdict : List String → Option SpoolError → Type 0
IsVerdict ks none = All (λ k. is_secret_key k ≡ false) ks
IsVerdict ks (some e) =
    Any (λ k. (is_secret_key k ≡ true) × (path : List Step) × (e ≡ secret_key path k)) ks

IsVerdict-append :
    (ks ls : List String) (a b : Option SpoolError)
    → IsVerdict ks a
    → IsVerdict ls b
    → IsVerdict (ks ++ ls) (or_else a b)
IsVerdict-append ks ls none none h k = All-append (λ k. is_secret_key k ≡ false) ks ls h k
IsVerdict-append ks ls none (some e) h k = Any-right _ ks ls k
IsVerdict-append ks ls (some e) b h k = Any-left _ ks ls h

IsVerdict-key :
    (path : List Step) (k : String) (ks : List String) (rest : Option SpoolError)
    → IsVerdict ks rest
    → IsVerdict (k ∷ ks) (if is_secret_key k then some (secret_key path k) else rest)
IsVerdict-key path k ks rest h = elim (Bool-cases (is_secret_key k)) [
  | inl e ↦ rw e (inl (e, path, refl))
  | inr e ↦ rw e (not_secret rest h e)
]
  where
    not_secret :
        (rest : Option SpoolError)
        → IsVerdict ks rest
        → is_secret_key k ≡ false
        → IsVerdict (k ∷ ks) rest
    not_secret none h e = (e, h)
    not_secret (some x) h e = inr h

mutual
  unfolding reject_secret_keys all_keys

  value-IsVerdict :
      (path : List Step) (v : Value) → IsVerdict (all_keys v) (reject_secret_keys path v)
  value-IsVerdict path null = tt
  value-IsVerdict path (bool b) = tt
  value-IsVerdict path (int n) = tt
  value-IsVerdict path (str s) = tt
  value-IsVerdict path (list vs) = items-IsVerdict path 0 vs
  value-IsVerdict path (dict fs) = fields-IsVerdict path fs

  fields-IsVerdict :
      (path : List Step) (fs : Fields) → IsVerdict (field_keys fs) (reject_fields path fs)
  fields-IsVerdict path end = tt
  fields-IsVerdict path (field k v fs) = IsVerdict-key path k (all_keys v ++ field_keys fs) _ (
      IsVerdict-append (all_keys v) (field_keys fs) _ _ (value-IsVerdict (steps path (at_key k)) v)
        (fields-IsVerdict path fs))

  items-IsVerdict :
      (path : List Step) (n : ℕ) (vs : Items) → IsVerdict (item_keys vs) (reject_items path n vs)
  items-IsVerdict path n nil = tt
  items-IsVerdict path n (cons v vs) =
      IsVerdict-append (all_keys v) (item_keys vs) _ _ (value-IsVerdict (steps path (at_index n)) v)
        (items-IsVerdict path (suc n) vs)

-- `reject_secret_keys` accepts a value just when no object in it, at any depth, has a key that looks like a secret's; and
-- if it rejects the value, then its error names such a key of the value.
pub reject_secret_keys-IsVerdict :
    (path : List Step) (v : Value) → IsVerdict (all_keys v) (reject_secret_keys path v)
reject_secret_keys-IsVerdict path v = value-IsVerdict path v
