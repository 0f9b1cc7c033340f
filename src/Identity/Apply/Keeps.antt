-- ===== src/Identity/Apply/Keeps.antt =====
-- Invariants of the state of a run, whether it returns or raises.
use rfc_codex_gentoo_stage.Prelude.{Bool, true, false, Option, none, some, ◌≡◌, refl, if◌then◌else◌}
use rfc_codex_gentoo_stage.Identity.Apply.Run.{
  Run, Result, ok, err, Failure, Apply, pure, raise, or_raise, continue, ◌>>=◌,
}
use rfc_codex_gentoo_stage.Identity.Apply.Freeipa.{lift}

-- `m` keeps `P`.
pub record Keeps (P : Run → Type 0) {A : Type 0} (m : Apply A) : Type 0 where
  pub at : (s : Run) → P s → P (m s).1

module _ {P : Run → Type 0} {A : Type 0} where
  pub Keeps-pure : (a : A) → Keeps P (pure a)
  Keeps-pure a = record { at = λ s h. h }

  pub Keeps-raise : (e : Failure) → Keeps P (raise {A = A} e)
  Keeps-raise e = record { at = λ s h. h }

  pub Keeps-or_raise : (o : Option A) (e : Failure) → Keeps P (or_raise o e)
  Keeps-or_raise none e = record { at = λ s h. h }
  Keeps-or_raise (some a) e = record { at = λ s h. h }

  pub Keeps-lift : (r : Result A) → Keeps P (lift r)
  Keeps-lift (ok a) = record { at = λ s h. h }
  Keeps-lift (err e) = record { at = λ s h. h }

  pub Keeps-if :
      (test : Bool) (left right : Apply A)
      → (test ≡ true → Keeps P left)
      → (test ≡ false → Keeps P right)
      → Keeps P (if test then left else right)
  Keeps-if false left right ky kn = kn refl
  Keeps-if true left right ky kn = ky refl

module _ {P : Run → Type 0} {A B : Type 0} where
  continue-Keeps :
      (r : Result A) (f : A → Apply B) → ((a : A) → Keeps P (f a)) → Keeps P (continue r f)
  continue-Keeps (ok a) f kf = kf a
  continue-Keeps (err e) f kf = Keeps-raise e

  pub Keeps-bind :
      (first : Apply A) (rest : A → Apply B)
      → Keeps P first
      → ((a : A) → Keeps P (rest a))
      → Keeps P (first >>= rest)
  unfolding ◌>>=◌
  Keeps-bind first rest k ks = record {
    at = λ s h. let (result, t) = first s in (continue-Keeps result rest ks).at t (k.at s h);
  }

-- From a state that is `P`, `m` leads to one that is `Q`, whether it returns or raises.
pub record Leads (P Q : Run → Type 0) {A : Type 0} (m : Apply A) : Type 0 where
  pub at : (s : Run) → P s → Q (m s).1

module _ {P Q : Run → Type 0} {A B : Type 0} where
  continue-Leads :
      (r : Result A) (f : A → Apply B)
      → ((s : Run) → P s → Q s)
      → ((a : A) → Leads P Q (f a))
      → Leads P Q (continue r f)
  continue-Leads (ok a) f weaker kf = kf a
  continue-Leads (err e) f weaker kf = record { at = λ s h. weaker s h }

  -- after a part that keeps `P`
  pub Leads-bind :
      (first : Apply A) (rest : A → Apply B)
      → ((s : Run) → P s → Q s)
      → Keeps P first
      → ((a : A) → Leads P Q (rest a))
      → Leads P Q (first >>= rest)
  unfolding ◌>>=◌
  Leads-bind first rest weaker k ks = record {
    at = λ s h. let (result, t) = first s in (continue-Leads result rest weaker ks).at t (k.at s h);
  }

module _ {P Q : Run → Type 0} {A B : Type 0} where
  -- in front of a part that keeps `Q`
  pub Leads-first :
      (first : Apply A) (rest : A → Apply B)
      → Leads P Q first
      → ((a : A) → Keeps Q (rest a))
      → Leads P Q (first >>= rest)
  unfolding ◌>>=◌
  Leads-first first rest k ks = record {
    at = λ s h. let (result, t) = first s in (continue-Keeps result rest ks).at t (k.at s h);
  }

pub ruleset keeps_rules =
    (Keeps-pure, Keeps-raise, Keeps-or_raise, Keeps-lift, Keeps-if, Keeps-bind)
