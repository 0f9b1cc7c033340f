-- ===== src/Ntfy/Order.antt =====
-- The order of texts, in which the names of a queue directory of
-- scripts/codex_ntfy_reply_queue.py stand.
use Prim.Native.String.{compare, then, [], ◌∷◌}
use Prim.Native.String.compare as order
use Prim.Native.Nat.{Ordering, compare as compare_ℕ}
use rfc_codex_gentoo_stage.Prelude.{String, ℕ, ◌≡◌, ◌≢◌, ap, refl, sym, arith, code, ◌<◌}

number-lt : (m n : ℕ) → compare_ℕ m n ≡ Ordering.lt → m < n
number-lt m n h = ground arith

lt-number : (m n : ℕ) → m < n → compare_ℕ m n ≡ Ordering.lt
lt-number m n h = ground arith

number-eq : (m n : ℕ) → compare_ℕ m n ≡ Ordering.eq → m ≡ n
number-eq m n h = ground arith

number-gt : (m n : ℕ) → compare_ℕ m n ≡ Ordering.gt → compare_ℕ n m ≡ Ordering.lt
number-gt m n h = ground arith

number-eq_flip : (m n : ℕ) → compare_ℕ m n ≡ Ordering.eq → compare_ℕ n m ≡ Ordering.eq
number-eq_flip m n h = ground arith

number_trans :
    (m n k : ℕ)
    → compare_ℕ m n ≡ Ordering.lt
    → compare_ℕ n k ≡ Ordering.lt
    → compare_ℕ m k ≡ Ordering.lt
number_trans m n k h g = ground arith

then_flip :
    (a b o p : Ordering)
    → (a ≡ Ordering.gt → b ≡ Ordering.lt)
    → (a ≡ Ordering.eq → b ≡ Ordering.eq)
    → (o ≡ Ordering.gt → p ≡ Ordering.lt)
    → then a o ≡ Ordering.gt
    → then b p ≡ Ordering.lt
then_flip Ordering.lt b o p f g h e = ground arith
then_flip Ordering.eq b o p f g h e = ground (arith, g refl, h e)
then_flip Ordering.gt b o p f g h e = ground (arith, f refl)

pub compare_flip : (s t : String) → compare s t ≡ Ordering.gt → compare t s ≡ Ordering.lt
compare_flip [] [] h = ground (arith, order.nil-nil)
compare_flip [] (d ∷ t) h = ground (arith, order.nil-cons d t)
compare_flip (c ∷ s) [] h = order.nil-cons c s
compare_flip (c ∷ s) (d ∷ t) h = rw (order.cons-cons d c t s) (
    then_flip (compare_ℕ (code c) (code d)) (compare_ℕ (code d) (code c)) (compare s t)
      (compare t s) (number-gt (code c) (code d)) (number-eq_flip (code c) (code d))
      (compare_flip s t) (rw (order.cons-cons c d s t) at h))

then_trans :
    (a b c o p q : Ordering)
    → (a ≡ Ordering.lt → b ≡ Ordering.lt → c ≡ Ordering.lt)
    → (a ≡ Ordering.eq → b ≡ c)
    → (b ≡ Ordering.eq → a ≡ c)
    → (o ≡ Ordering.lt → p ≡ Ordering.lt → q ≡ Ordering.lt)
    → then a o ≡ Ordering.lt
    → then b p ≡ Ordering.lt
    → then c q ≡ Ordering.lt
then_trans Ordering.lt Ordering.lt c o p q f g k h e i = ground (arith, f refl refl)
then_trans Ordering.lt Ordering.eq c o p q f g k h e i = ground (arith, k refl)
then_trans Ordering.lt Ordering.gt c o p q f g k h e i = ground arith
then_trans Ordering.eq Ordering.lt c o p q f g k h e i = ground (arith, g refl)
then_trans Ordering.eq Ordering.eq c o p q f g k h e i = ground (arith, g refl, h e i)
then_trans Ordering.eq Ordering.gt c o p q f g k h e i = ground arith
then_trans Ordering.gt b c o p q f g k h e i = ground arith

number-eq_left : (m n k : ℕ) → compare_ℕ m n ≡ Ordering.eq → compare_ℕ n k ≡ compare_ℕ m k
number-eq_left m n k h = ap (λ x. compare_ℕ x k) (sym (number-eq m n h))

number-eq_right : (m n k : ℕ) → compare_ℕ n k ≡ Ordering.eq → compare_ℕ m n ≡ compare_ℕ m k
number-eq_right m n k h = ap (λ x. compare_ℕ m x) (number-eq n k h)

pub compare_trans :
    (s t u : String)
    → compare s t ≡ Ordering.lt
    → compare t u ≡ Ordering.lt
    → compare s u ≡ Ordering.lt
compare_trans [] [] u h g = ground (arith, order.nil-nil)
compare_trans [] (d ∷ t) [] h g = ground (arith, order.cons-nil d t)
compare_trans [] (d ∷ t) (e ∷ u) h g = order.nil-cons e u
compare_trans (c ∷ s) [] u h g = ground (arith, order.cons-nil c s)
compare_trans (c ∷ s) (d ∷ t) [] h g = ground (arith, order.cons-nil d t)
compare_trans (c ∷ s) (d ∷ t) (e ∷ u) h g = rw (order.cons-cons c e s u) (
    then_trans (compare_ℕ (code c) (code d)) (compare_ℕ (code d) (code e))
      (compare_ℕ (code c) (code e)) (compare s t) (compare t u) (compare s u)
      (number_trans (code c) (code d) (code e)) (number-eq_left (code c) (code d) (code e))
      (number-eq_right (code c) (code d) (code e)) (compare_trans s t u)
      (rw (order.cons-cons c d s t) at h) (rw (order.cons-cons d e t u) at g))

pub compare_irrefl : (s : String) → compare s s ≢ Ordering.lt
compare_irrefl [] h = ground (arith, order.nil-nil)
compare_irrefl (c ∷ s) h = compare_irrefl s (ground (arith, order.cons-cons c c s s))
