-- ===== src/Identity/Clean.antt =====
-- Runs that report nothing: what such a run of a composed check says of its parts.
use rfc_codex_gentoo_stage.Prelude.{
  ℕ, suc, Bool, true, false, Option, none, some, List, [], ◌∷◌, ◌++◌, ◌≡◌, refl, sym, subst, All,
}
use rfc_codex_gentoo_stage.Identity.Check.{
  Label, Problem, Finding, Check, after, pure, report_if, scan, ◌>>=◌,
}

abbrev pub Clean {ℓ} : {A : Type ℓ} → Check A → A → Type ℓ
Clean m a = m ≡ some (a, [])

module _ {ℓ} {A : Type ℓ} where
  append-eq-nil : (xs ys : List A) → xs ++ ys ≡ [] → (xs ≡ []) × (ys ≡ [])
  append-eq-nil [] ys h = (refl, h)
  append-eq-nil (x ∷ xs) ys h = cc

module _ {ℓ} {A : Type ℓ} where
  after-Clean :
      (ps : List Finding) (m : Check A) (a : A) → Clean (after ps m) a → (ps ≡ []) × Clean m a
  after-Clean ps none a h = cc
  after-Clean ps (some (b, qs)) a h = let (e, e2) = append-eq-nil ps qs (cc) in (e, cc)

-- The parts of a composed run that is clean are clean.
pub >>=-Clean {ℓ κ} :
    {A : Type ℓ} {B : Type κ} (m : Check A) (f : A → Check B) {b : B}
    → Clean (m >>= f) b
    → (a : A) × Clean m a × Clean (f a) b
>>=-Clean none f h = cc
>>=-Clean (some (a, ps)) f {b} h = let (e, rest) = after-Clean ps (f a) b h in (a, cc, rest)

pub pure-Clean {ℓ} : {A : Type ℓ} (a b : A) → Clean (pure a) b → a ≡ b
pure-Clean a b h = cc

pub report_if-Clean :
    (test : Bool) (label : Label) (problem : Problem) (u : Unit {0})
    → Clean (report_if test label problem) u
    → test ≡ false
report_if-Clean true label problem u h = cc
report_if-Clean false label problem u h = refl

module _ {S X : Type 0} (Joins : X → S → S → Type 0) where
  -- A run over the items, each joining the state that the items before it left.
  abbrev pub Chain : List X → S → S → Type 0
  Chain [] s t = s ≡ t
  Chain (x ∷ xs) s t = (u : S) × Joins x s u × Chain xs u t

module _ {X V : Type 0} (read : V → Option X) where
  abbrev put_front : Option X → Option (List X) → Option (List X)
  put_front (some x) (some xs) = some (x ∷ xs)
  put_front _ _ = none

  -- The readings of all items, if each has one.
  abbrev pub read_all : List V → Option (List X)
  read_all [] = some []
  read_all (v ∷ vs) = put_front (read v) (read_all vs)

module _ {S X V : Type 0} (Joins : X → S → S → Type 0) (read : V → Option X)
    (step : ℕ → V → S → Check S)
    (step-Clean : (i : ℕ) (v : V) (s t : S)
      → Clean (step i v s) t
      → (x : X) × (read v ≡ some x) × Joins x s t) where
  -- A clean loop has read every item, and its states form a chain.
  pub scan-Clean :
      (i : ℕ) (vs : List V) (s t : S)
      → Clean (scan step i vs s) t
      → (xs : List X) × (read_all read vs ≡ some xs) × Chain Joins xs s t
  unfolding scan
  scan-Clean i [] s t h = ([], refl, cc)
  scan-Clean i (v ∷ vs) s t h =
      let (u, first, rest) = >>=-Clean (step i v s) (scan step (suc i) vs) h in
      let (x, e, joins) = step-Clean i v s u first in
      let (xs, es, chain) = scan-Clean (suc i) vs u t rest in
      (x ∷ xs, rw (e, es) refl, (u, joins, chain))

module _ {S V : Type 0} (P : V → Type 0) (step : ℕ → V → S → Check S)
    (step-Clean : (i : ℕ) (v : V) (s t : S) → Clean (step i v s) t → P v) where
  -- What a clean step says of its item holds of every item of a clean loop.
  pub scan-All : (i : ℕ) (vs : List V) (s t : S) → Clean (scan step i vs s) t → All P vs
  unfolding scan
  scan-All i [] s t h = tt
  scan-All i (v ∷ vs) s t h =
      let (u, first, rest) = >>=-Clean (step i v s) (scan step (suc i) vs) h in
      (step-Clean i v s u first, scan-All (suc i) vs u t rest)

module _ {S X : Type 0} (Joins : X → S → S → Type 0) where
  pub Chain-append :
      (xs ys : List X) (s u t : S)
      → Chain Joins xs s u
      → Chain Joins ys u t
      → Chain Joins (xs ++ ys) s t
  Chain-append [] ys s u t c d = subst (λ w. Chain Joins ys w t) (sym c) d
  Chain-append (x ∷ xs) ys s u t (w, j, c) d = (w, j, Chain-append xs ys w u t c d)
