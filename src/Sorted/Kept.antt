-- ===== src/Sorted/Kept.antt =====
-- What sorting keeps of a list: what is true of all elements or of one, and that no two are the same.
use Prim.Native.Nat.{Ordering}
use rfc_codex_gentoo_stage.Prelude.{List, [], ◌∷◌, ◌≢◌, ◌⊎◌, sym, inl, inr, All, Any, Unique, map}
use rfc_codex_gentoo_stage.Sorted.{insert_by, sort_by}

module _ {A : Type 0} (order : A → A → Ordering) where
  pub All-insert_by :
      (P : A → Type 0) (x : A) (ys : List A) → P x → All P ys → All P (insert_by order x ys)
  unfolding insert_by
  All-insert_by P x [] h all = (h, tt)
  All-insert_by P x (y ∷ ys) h all = go (order x y) (All-insert_by P x ys h all.1)
    where
      go :
          (o : Ordering)
          → All P (insert_by order x ys)
          → All P (elim o [
            | Ordering.lt ↦ x ∷ y ∷ ys
            | Ordering.eq ↦ x ∷ y ∷ ys
            | Ordering.gt ↦ y ∷ insert_by order x ys
          ])
      go Ordering.lt rest = (h, all)
      go Ordering.eq rest = (h, all)
      go Ordering.gt rest = (all.0, rest)

  pub All-sort_by : (P : A → Type 0) (xs : List A) → All P xs → All P (sort_by order xs)
  unfolding sort_by
  All-sort_by P [] all = tt
  All-sort_by P (x ∷ xs) all = All-insert_by P x (sort_by order xs) all.0 (All-sort_by P xs all.1)

  module _ {B : Type 0} (f : A → B) where
    to_map :
        (P : A → Type 0) (xs : List A) (Q : B → Type 0)
        → ((x : A) → P x → Q (f x))
        → All P xs
        → All Q (map f xs)
    to_map P [] Q g all = tt
    to_map P (x ∷ xs) Q g all = (g x all.0, to_map P xs Q g all.1)

    of_map : (Q : B → Type 0) (xs : List A) → All Q (map f xs) → All (λ x. Q (f x)) xs
    of_map Q [] all = tt
    of_map Q (x ∷ xs) all = (all.0, of_map Q xs all.1)

    Unique-insert_by :
        (x : A) (ys : List A)
        → All (λ b. f x ≢ b) (map f ys)
        → Unique (map f ys)
        → Unique (map f (insert_by order x ys))
    unfolding insert_by
    Unique-insert_by x [] h u = (tt, tt)
    Unique-insert_by x (y ∷ ys) h u = go (order x y) (Unique-insert_by x ys h.1 u.1)
      where
        go :
            (o : Ordering)
            → Unique (map f (insert_by order x ys))
            → Unique (
                map f (elim o [
                  | Ordering.lt ↦ x ∷ y ∷ ys
                  | Ordering.eq ↦ x ∷ y ∷ ys
                  | Ordering.gt ↦ y ∷ insert_by order x ys
                ]))
        go Ordering.lt rest = (h, u)
        go Ordering.eq rest = (h, u)
        go Ordering.gt rest = (
          to_map (λ z. f y ≢ f z) (insert_by order x ys) (λ b. f y ≢ b) (λ z k. k)
              (All-insert_by (λ z. f y ≢ f z) x ys (λ p. h.0 (sym p))
                (of_map (λ b. f y ≢ b) ys u.0)),
          rest,
        )

    pub Unique-sort_by : (xs : List A) → Unique (map f xs) → Unique (map f (sort_by order xs))
    unfolding sort_by
    Unique-sort_by [] u = tt
    Unique-sort_by (x ∷ xs) u =
        Unique-insert_by x (sort_by order xs)
          (to_map (λ z. f x ≢ f z) (sort_by order xs) (λ b. f x ≢ b) (λ z k. k)
            (All-sort_by (λ z. f x ≢ f z) xs (of_map (λ b. f x ≢ b) xs u.0)))
          (Unique-sort_by xs u.1)

  pub Any-insert_by :
      (P : A → Type 0) (x : A) (ys : List A) → P x ⊎ Any P ys → Any P (insert_by order x ys)
  unfolding insert_by
  Any-insert_by P x [] h = h
  Any-insert_by P x (y ∷ ys) h = go (order x y) h (λ k. Any-insert_by P x ys k)
    where
      go :
          (o : Ordering)
          → P x ⊎ (P y ⊎ Any P ys)
          → (P x ⊎ Any P ys → Any P (insert_by order x ys))
          → Any P (elim o [
            | Ordering.lt ↦ x ∷ y ∷ ys
            | Ordering.eq ↦ x ∷ y ∷ ys
            | Ordering.gt ↦ y ∷ insert_by order x ys
          ])
      go Ordering.lt k rest = k
      go Ordering.eq k rest = k
      go Ordering.gt (inl k) rest = inr (rest (inl k))
      go Ordering.gt (inr (inl k)) rest = inl k
      go Ordering.gt (inr (inr k)) rest = inr (rest (inr k))

  pub Any-sort_by : (P : A → Type 0) (xs : List A) → Any P xs → Any P (sort_by order xs)
  unfolding sort_by
  Any-sort_by P [] h = elim h [ ]
  Any-sort_by P (x ∷ xs) (inl h) = Any-insert_by P x (sort_by order xs) (inl h)
  Any-sort_by P (x ∷ xs) (inr h) = Any-insert_by P x (sort_by order xs) (inr (Any-sort_by P xs h))
