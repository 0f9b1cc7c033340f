-- ===== src/Sorted.antt =====
-- `sorted(set(names))`, which the scripts use to compare and to print texts.
pub mod Kept
use Prim.Native.String.{compare}
use Prim.Native.Nat.{Ordering}
use rfc_codex_gentoo_stage.Prelude.{String, List, [], ◌∷◌}

-- adding a name to a sorted list without duplicates
unfoldable pub insert_sorted : String → List String → List String
insert_sorted name [] = name ∷ []
insert_sorted name (other ∷ others) =
    let rest = insert_sorted name others in
    elim (compare name other) [
      | Ordering.lt ↦ name ∷ other ∷ others
      | Ordering.eq ↦ other ∷ others
      | Ordering.gt ↦ other ∷ rest
    ]

-- `sorted(set(names))`
unfoldable pub sorted_set : List String → List String
unfolding insert_sorted
sorted_set [] = []
sorted_set (name ∷ names) = insert_sorted name (sorted_set names)

-- `sorted(items, key=...)`, with the order of the keys given; equal items keep their order.
module _ {A : Type 0} (order : A → A → Ordering) where
  unfoldable pub insert_by : A → List A → List A
  insert_by x [] = x ∷ []
  insert_by x (y ∷ ys) =
      let rest = insert_by x ys in
      elim (order x y) [
        | Ordering.lt ↦ x ∷ y ∷ ys
        | Ordering.eq ↦ x ∷ y ∷ ys
        | Ordering.gt ↦ y ∷ rest
      ]

  unfoldable pub sort_by : List A → List A
  unfolding insert_by
  sort_by [] = []
  sort_by (x ∷ xs) = insert_by x (sort_by xs)

-- the order of tuples, from the orders of their parts
abbrev pub then_by : Ordering → Ordering → Ordering
then_by Ordering.lt o = Ordering.lt
then_by Ordering.eq o = o
then_by Ordering.gt o = Ordering.gt
