-- ===== src/Spool/Stored.antt =====
-- What `json.dumps(value, sort_keys=True)` writes of a value in scripts/forge_memory_spool.py: the keys of each object in
-- their order.
use Prim.Native.String.{compare}
use Prim.Native.Nat.{Ordering}
use rfc_codex_gentoo_stage.Prelude.{
  String, Bool, true, false, ◌==◌, ◌≡◌, refl, sym, ap, ◌∙◌, subst, Bool-cases, inl, inr, eq_iff,
  false≢true, if◌then◌else◌,
}
use rfc_codex_gentoo_stage.Ntfy.Order.{compare_flip, compare_irrefl}
use rfc_codex_gentoo_stage.Value.{Value, list, dict, Items, nil, cons, Fields, end, field, get_or}

-- a field among fields that stand in the order of their keys
unfoldable pub insert_field : String → Value → Fields → Fields
insert_field key value end = field key value end
insert_field key value (field k v fs) =
    let rest = insert_field key value fs in
    elim (compare key k) [
      | Ordering.lt ↦ field key value (field k v fs)
      | Ordering.eq ↦ field key value (field k v fs)
      | Ordering.gt ↦ field k v rest
    ]

unfoldable mutual
  unfolding insert_field

  pub sort_keys : Value → Value
  sort_keys (list vs) = list (sort_items vs)
  sort_keys (dict fs) = dict (sort_fields fs)
  sort_keys v = v

  pub sort_items : Items → Items
  sort_items nil = nil
  sort_items (cons v vs) = cons (sort_keys v) (sort_items vs)

  pub sort_fields : Fields → Fields
  sort_fields end = end
  sort_fields (field k v fs) = insert_field k (sort_keys v) (sort_fields fs)

-- a field that comes later in the order has another key
apart : (key k : String) → compare key k ≡ Ordering.gt → (key == k) ≡ false
apart key k h = elim (Bool-cases (key == k)) [
  | inl e ↦ absurd (
      compare_irrefl key (
        subst (λ x. compare x key ≡ Ordering.lt) (sym ((eq_iff key k).0 e)) (compare_flip key k h)))
  | inr e ↦ e
]

passed :
    (key k name : String) (v value rest : Value)
    → (key == k) ≡ false
    → (if k == name then v else (if key == name then value else rest))
      ≡ (if key == name then value else (if k == name then v else rest))
passed key k name v value rest h = elim (Bool-cases (key == name)) [
  | inr e ↦ rw e refl
  | inl e ↦ elim (Bool-cases (k == name)) [
    | inr g ↦ rw (e, g) refl
    | inl g ↦
        absurd (
          false≢true (sym h ∙ (eq_iff key k).1 ((eq_iff key name).0 e ∙ sym ((eq_iff k name).0 g))))
  ]
]

placed :
    (key : String) (value : Value) (k : String) (v : Value) (fs : Fields) (name : String)
    (default : Value) (o : Ordering)
    → compare key k ≡ o
    → get_or (insert_field key value fs) name default
      ≡ (if key == name then value else get_or fs name default)
    → get_or
        (elim o [
          | Ordering.lt ↦ field key value (field k v fs)
          | Ordering.eq ↦ field key value (field k v fs)
          | Ordering.gt ↦ field k v (insert_field key value fs)
        ])
        name
        default
      ≡ (if key == name then value else (if k == name then v else get_or fs name default))
unfolding get_or
placed key value k v fs name default Ordering.lt h rest = refl
placed key value k v fs name default Ordering.eq h rest = refl
placed key value k v fs name default Ordering.gt h rest =
    ap (λ w. if k == name then v else w) rest
    ∙ passed key k name v value (get_or fs name default) (apart key k h)

-- a field that is inserted is the one that is read, and hides no other
get_or-insert_field :
    (key : String) (value : Value) (fs : Fields) (name : String) (default : Value)
    → get_or (insert_field key value fs) name default
      ≡ (if key == name then value else get_or fs name default)
unfolding get_or insert_field
get_or-insert_field key value end name default = refl
get_or-insert_field key value (field k v fs) name default =
    placed key value k v fs name default (compare key k) refl
      (get_or-insert_field key value fs name default)

pick :
    (b : Bool) (v w : Value)
    → sort_keys (if b then v else w) ≡ (if b then sort_keys v else sort_keys w)
pick true v w = refl
pick false v w = refl

-- each key has its value, with the keys within that in their order
pub get_or-sort_fields :
    (fs : Fields) (name : String) (default : Value)
    → get_or (sort_fields fs) name (sort_keys default) ≡ sort_keys (get_or fs name default)
unfolding get_or sort_keys
get_or-sort_fields end name default = refl
get_or-sort_fields (field k v fs) name default =
    get_or-insert_field k (sort_keys v) (sort_fields fs) name (sort_keys default)
    ∙ ap (λ rest. if k == name then sort_keys v else rest) (get_or-sort_fields fs name default)
    ∙ sym (pick (k == name) v (get_or fs name default))
