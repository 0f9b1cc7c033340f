-- ===== src/Spool/Guarded.antt =====
-- What the operations of scripts/forge_memory_spool.py keep of a file that exists: one rule for each
-- way to build a computation.
use rfc_codex_gentoo_stage.Prelude.{
  String, false, Option, none, some, ◌≡◌, ◌≢◌, refl, sym, subst, ◌∙◌, ◌⊎◌, inl, inr, Option-cases,
  eq_iff,
}
use rfc_codex_gentoo_stage.Dns.Records.{put, find}
use rfc_codex_gentoo_stage.DnsPlan.Dicts
use rfc_codex_gentoo_stage.Spool.Check.{SpoolError}
use rfc_codex_gentoo_stage.Spool.Files.{
  State, Spool, Result, ok, err, pure, checked, reject, continue, ◌>>=◌, read_file, write_file,
  same_path,
}
use rfc_codex_gentoo_stage.Spool.Publish.{require_free}

none≢some : {V : Type 0} {v : V} → none ≢ some v
none≢some h = cc

-- The computation changes nothing.
pub record Reads {A : Type 0} (m : Spool A) : Type 0 where
  pub same : (s : State) → (m s).1 ≡ s

after_Reads :
    {A B : Type 0} (f : A → Spool B) (s : State) (r : Result A × State)
    → r.1 ≡ s
    → ((a : A) → Reads (f a))
    → (continue r.0 f r.1).1 ≡ s
after_Reads f s (ok a, t) e g = (g a).same t ∙ e
after_Reads f s (err x, t) e g = e

pub Reads-bind :
    {A B : Type 0} (m : Spool A) (f : A → Spool B)
    → Reads m
    → ((a : A) → Reads (f a))
    → Reads (m >>= f)
unfolding ◌>>=◌
Reads-bind m f h g = record { same = λ s. after_Reads f s (m s) (h.same s) g }

pub checked-Reads : {A : Type 0} (r : SpoolError ⊎ A) → Reads (checked r)
checked-Reads (inl e) = record { same = λ s. refl }
checked-Reads (inr a) = record { same = λ s. refl }

pub reject-Reads : (e : Option SpoolError) → Reads (reject e)
reject-Reads none = record { same = λ s. refl }
reject-Reads (some e) = record { same = λ s. refl }

pub read_file-Reads : (path : String) → Reads (read_file path)
unfolding read_file
read_file-Reads path = record { same = λ s. refl }

module _ (path text : String) where
  abbrev pub Has : State → Type 0
  Has s = find same_path path s.files ≡ some text

  -- If the file has the text before, it has it afterwards, whether the computation returns or raises.
  pub record Keeps {A : Type 0} (m : Spool A) : Type 0 where
    pub kept : (s : State) → Has s → Has (m s).1

  -- The same, in a state in which another file does not exist.
  pub record KeepsFree (target : String) {A : Type 0} (m : Spool A) : Type 0 where
    pub kept : (s : State) → find same_path target s.files ≡ none → Has s → Has (m s).1

  pub Reads-Keeps : {A : Type 0} (m : Spool A) → Reads m → Keeps m
  Reads-Keeps m h = record { kept = λ s e. subst Has (sym (h.same s)) e }

  after_Keeps :
      {A B : Type 0} (f : A → Spool B) (r : Result A × State)
      → Has r.1
      → ((a : A) → Keeps (f a))
      → Has (continue r.0 f r.1).1
  after_Keeps f (ok a, t) k g = (g a).kept t k
  after_Keeps f (err x, t) k g = k

  pub Keeps-bind :
      {A B : Type 0} (m : Spool A) (f : A → Spool B)
      → Keeps m
      → ((a : A) → Keeps (f a))
      → Keeps (m >>= f)
  unfolding ◌>>=◌
  Keeps-bind m f h g = record { kept = λ s e. after_Keeps f (m s) (h.kept s e) g }

  after_KeepsFree :
      {A B : Type 0} (target : String) (f : A → Spool B) (s : State) (r : Result A × State)
      → r.1 ≡ s
      → find same_path target s.files ≡ none
      → Has s
      → ((a : A) → KeepsFree target (f a))
      → Has (continue r.0 f r.1).1
  after_KeepsFree target f s (ok a, t) k free e g =
      (g a).kept t (subst (λ u. find same_path target u.files ≡ none) (sym k) free)
        (subst Has (sym k) e)
  after_KeepsFree target f s (err x, t) k free e g = subst Has (sym k) e

  pub KeepsFree-bind :
      {A B : Type 0} (target : String) (m : Spool A) (f : A → Spool B)
      → Reads m
      → ((a : A) → KeepsFree target (f a))
      → KeepsFree target (m >>= f)
  unfolding ◌>>=◌
  KeepsFree-bind target m f h g = record {
    kept = λ s free e. after_KeepsFree target f s (m s) (h.same s) free e g;
  }

  write_kept :
      (target new : String) (s : State)
      → find same_path target s.files ≡ none
      → Has s
      → find same_path path (put same_path target new s.files) ≡ some text
  write_kept target new s free e =
      Dicts.find-put_other same_path (λ p q. (eq_iff p q).0) path target new s.files
        (λ p. none≢some (sym free ∙ subst (λ q. find same_path q s.files ≡ some text) p e))
      ∙ e

  pub write_file-KeepsFree : (target new : String) → KeepsFree target (write_file target new)
  unfolding write_file
  write_file-KeepsFree target new = record { kept = λ s free e. write_kept target new s free e }

  pub write_then-KeepsFree :
      {A : Type 0} (target new : String) (a : A)
      → KeepsFree target (write_file target new >>= λ u. pure a)
  unfolding write_file ◌>>=◌
  write_then-KeepsFree target new a = record { kept = λ s free e. write_kept target new s free e }

  free_cases :
      {A : Type 0} (target : String) (f : Unit {0} → Spool A)
      → KeepsFree target (f tt)
      → (s : State) → Has s
      → Has ((require_free target false >>= f) s).1
  unfolding require_free ◌>>=◌
  free_cases target f h s e = elim (Option-cases (find same_path target s.files)) [
    | inl free ↦ rw free (h.kept s free e)
    | inr (old, there) ↦ rw there e
  ]

  -- writing behind the test that the file does not exist
  pub require_free-Keeps :
      {A : Type 0} (target : String) (f : Unit {0} → Spool A)
      → KeepsFree target (f tt)
      → Keeps (require_free target false >>= f)
  require_free-Keeps target f h = record { kept = λ s e. free_cases target f h s e }
