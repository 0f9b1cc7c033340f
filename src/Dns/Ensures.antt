-- ===== src/Dns/Ensures.antt =====
-- What a computation keeps of the requests sent, and what holds of its result.
use rfc_codex_gentoo_stage.Prelude.{
  String, Bool, true, false, Option, none, some, List, [], ◌∷◌, All, All-append, ◌≡◌, refl,
  if◌then◌else◌,
}
use rfc_codex_gentoo_stage.Dns.Provider.{
  Request, Response, body, no_body, http_error, broken, Web, Failure, runtime_error, uncaught,
  too_many_pages, Result, ok, err, Dns, pure, raise, or_uncaught, continue, handle, ◌>>=◌,
  try_except, judge, send, request_json,
}
use rfc_codex_gentoo_stage.Dns.Requests.{lift}

abbrev pub OnOk : {A : Type 0} → (A → Type 0) → Result A → Type 0
OnOk R (ok a) = R a
OnOk R (err e) = Unit

abbrev pub Any : {A : Type 0} → A → Type 0
Any a = Unit

-- All requests that `m` sends have `Q`, and what `m` returns has `R`.
pub record Ensures (Q : Request → Type 0) {A : Type 0} (R : A → Type 0) (m : Dns A) : Type 0 where
  pub at : (s : List Request) → All Q s → All Q (m s).1 × OnOk R (m s).0

weaken :
    {A : Type 0} {R T : A → Type 0} (r : Result A) → ((a : A) → R a → T a) → OnOk R r → OnOk T r
weaken (ok a) f h = f a h
weaken (err e) f h = tt

module _ {Q : Request → Type 0} {A : Type 0} {R : A → Type 0} where
  pub Ensures-pure : (a : A) → R a → Ensures Q R (pure a)
  Ensures-pure a r = record { at = λ s q. (q, r) }

  pub Ensures-raise : (e : Failure) → Ensures Q R (raise e)
  Ensures-raise e = record { at = λ s q. (q, tt) }

  pub Ensures-lift : (r : Result A) → OnOk R r → Ensures Q R (lift r)
  Ensures-lift r h = record { at = λ s q. (q, h) }

  pub Ensures-if :
      (test : Bool) (left right : Dns A)
      → (test ≡ true → Ensures Q R left)
      → (test ≡ false → Ensures Q R right)
      → Ensures Q R (if test then left else right)
  Ensures-if true left right l r = l refl
  Ensures-if false left right l r = r refl

  pub Ensures-weaken :
      {T : A → Type 0} (m : Dns A) → ((a : A) → R a → T a) → Ensures Q R m → Ensures Q T m
  Ensures-weaken m f k = record {
    at = λ s q. let (sent, result) = k.at s q in (sent, weaken (m s).0 f result);
  }

  handle-Ensures :
      (r : Result A) (handler : String → Dns A)
      → OnOk R r
      → ((message : String) → Ensures Q R (handler message))
      → Ensures Q R (handle r handler)
  handle-Ensures (ok a) handler h k = Ensures-pure a h
  handle-Ensures (err (runtime_error message)) handler h k = k message
  handle-Ensures (err uncaught) handler h k = Ensures-raise uncaught
  handle-Ensures (err too_many_pages) handler h k = Ensures-raise too_many_pages

  pub Ensures-try :
      (m : Dns A) (handler : String → Dns A)
      → Ensures Q R m
      → ((message : String) → Ensures Q R (handler message))
      → Ensures Q R (try_except m handler)
  unfolding try_except
  Ensures-try m handler km kh = record {
    at = λ s q.
        let (r, t) = m s in
        let (sent, result) = km.at s q in (handle-Ensures r handler result kh).at t sent;
  }

module _ {Q : Request → Type 0} {A : Type 0} where
  pub Ensures-or_uncaught : (o : Option A) → Ensures Q Any (or_uncaught o)
  Ensures-or_uncaught none = Ensures-raise uncaught
  Ensures-or_uncaught (some a) = Ensures-pure a tt

  pub Ensures-read : (o : Option A) → Ensures Q (λ a. o ≡ some a) (or_uncaught o)
  Ensures-read none = Ensures-raise uncaught
  Ensures-read (some a) = Ensures-pure a refl

  pub Ensures-lift-Any : (r : Result A) → Ensures Q Any (lift r)
  Ensures-lift-Any (ok a) = Ensures-lift (ok a) tt
  Ensures-lift-Any (err e) = Ensures-lift (err e) tt

module _ {Q : Request → Type 0} {A : Type 0} {R : A → Type 0} {X : Type 0} where
  pub Ensures-option :
      (o : Option X) (m : Dns A) (f : X → Dns A)
      → (o ≡ none → Ensures Q R m)
      → ((x : X) → o ≡ some x → Ensures Q R (f x))
      → Ensures Q R (elim o [ none ↦ m | some x ↦ f x ])
  Ensures-option none m f km kf = km refl
  Ensures-option (some x) m f km kf = kf x refl

module _ {Q : Request → Type 0} {A B : Type 0} {R : A → Type 0} {T : B → Type 0} where
  continue-Ensures :
      (r : Result A) (f : A → Dns B)
      → OnOk R r
      → ((a : A) → R a → Ensures Q T (f a))
      → Ensures Q T (continue r f)
  continue-Ensures (ok a) f h k = k a h
  continue-Ensures (err e) f h k = Ensures-raise e

  pub Ensures-bind :
      (m : Dns A) (f : A → Dns B)
      → Ensures Q R m
      → ((a : A) → R a → Ensures Q T (f a))
      → Ensures Q T (m >>= f)
  unfolding ◌>>=◌
  Ensures-bind m f km kf = record {
    at = λ s q.
        let (r, t) = m s in
        let (sent, result) = km.at s q in (continue-Ensures r f result kf).at t sent;
  }

module _ {Q : Request → Type 0} (web : Web) where
  judge-Ensures : (r : Request) (response : Response) → Ensures Q Any (judge r response)
  unfolding judge
  judge-Ensures r (body v) = Ensures-pure _ tt
  judge-Ensures r no_body = Ensures-pure _ tt
  judge-Ensures r (http_error status detail) = Ensures-raise _
  judge-Ensures r broken = Ensures-raise _

  send-Ensures : (r : Request) → Q r → Ensures Q Any (send web r)
  unfolding send
  send-Ensures r h = record { at = λ s q. (All-append Q s (r ∷ []) q (h, tt), tt) }

  pub request_json-Ensures : (r : Request) → Q r → Ensures Q Any (request_json web r)
  unfolding request_json
  request_json-Ensures r h =
      Ensures-bind _ _ (send-Ensures r h) (λ response _. judge-Ensures r response)
