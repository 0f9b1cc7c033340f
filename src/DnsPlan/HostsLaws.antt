-- ===== src/DnsPlan/HostsLaws.antt =====
-- What the entries of `generate_hosts_entries` of scripts/plan-hetzner-dns-from-inventory.py hold.
use rfc_codex_gentoo_stage.Prelude.{
  String, true, false, ◌||◌, ◌==◌, List, [], ◌∷◌, ◌++◌, ◌≡◌, ◌≢◌, ◌⊎◌, refl, sym, subst, ◌∙◌, inl,
  inr, All, All-append, Any, Any-left, Any-right, Unique, Bool-cases, eq_iff, false≢true,
}
use rfc_codex_gentoo_stage.Text.{is_empty, before_text}
use rfc_codex_gentoo_stage.Sorted.{sorted_set}
use rfc_codex_gentoo_stage.Dns.Records.{contains}
use rfc_codex_gentoo_stage.DnsPlan.Hosts.{
  Names, add_candidate, append_hostname, append_hostnames, hostnames_of, aliases_to, from_keys,
}

abbrev pub Holds : String → List String → Type 0
Holds name names = Any (λ n. n ≡ name) names

contains-Holds :
    (name : String) (names : List String) → contains name names ≡ true → Holds name names
unfolding contains
contains-Holds name [] h = absurd (false≢true h)
contains-Holds name (n ∷ names) h = elim (Bool-cases (name == n)) [
  | inl e ↦ inl (sym ((eq_iff name n).0 e))
  | inr e ↦ inr (contains-Holds name names (rw e at h))
]

Holds-contains :
    (name : String) (names : List String) → contains name names ≡ false → All (λ n. n ≢ name) names
unfolding contains
Holds-contains name [] h = tt
Holds-contains name (n ∷ names) h = elim (Bool-cases (name == n)) [
  | inl e ↦ absurd (false≢true (sym (rw e at h)))
  | inr e ↦
      ((λ p. false≢true (sym e ∙ (eq_iff name n).1 (sym p))), Holds-contains name names (rw e at h))
]

-- adding a candidate keeps the names that are there, and has the candidate afterwards unless it is empty
add_candidate_keeps :
    (candidate name : String) (names : List String)
    → Holds name names
    → Holds name (add_candidate candidate names)
unfolding add_candidate
add_candidate_keeps candidate name names h =
    elim (Bool-cases (is_empty candidate || contains candidate names)) [
      | inl e ↦ rw e h
      | inr e ↦ rw e (Any-left (λ n. n ≡ name) names _ h)
    ]

add_candidate_adds :
    (candidate : String) (names : List String)
    → is_empty candidate ≡ false
    → Holds candidate (add_candidate candidate names)
unfolding add_candidate
add_candidate_adds candidate names h = elim (Bool-cases (contains candidate names)) [
  | inl e ↦ rw (h, e) (contains-Holds candidate names e)
  | inr e ↦ rw (h, e) (Any-right (λ n. n ≡ candidate) names _ (inl refl))
]

append_hostname_keeps :
    (fqdn name : String) (names : List String)
    → Holds name names
    → Holds name (append_hostname fqdn names)
unfolding append_hostname
append_hostname_keeps fqdn name names h =
    add_candidate_keeps (before_text "." fqdn) name _ (add_candidate_keeps fqdn name names h)

append_hostnames_keeps :
    (fqdns : List String) (name : String) (names : List String)
    → Holds name names
    → Holds name (append_hostnames fqdns names)
unfolding append_hostnames
append_hostnames_keeps [] name names h = h
append_hostnames_keeps (fqdn ∷ fqdns) name names h =
    append_hostnames_keeps fqdns name _ (append_hostname_keeps fqdn name names h)

module _ (targets : List (String × String)) where
  hostnames_of_keeps :
      (all : Names) (name : String) (names : List String)
      → Holds name names
      → Holds name (hostnames_of targets all names)
  unfolding hostnames_of
  hostnames_of_keeps [] name names h = h
  hostnames_of_keeps ((fqdn, _) ∷ all) name names h = hostnames_of_keeps all name _ (
      append_hostnames_keeps (sorted_set (aliases_to fqdn targets)) name _
        (append_hostname_keeps fqdn name names h))

  pub hostnames_of_has :
      (all : Names) (name : String) (names : List String)
      → is_empty name ≡ false
      → Any (λ n. n.0 ≡ name) all
      → Holds name (hostnames_of targets all names)
  unfolding hostnames_of append_hostname
  hostnames_of_has [] name names filled h = elim h [ ]
  hostnames_of_has ((fqdn, _) ∷ all) name names filled (inl p) = hostnames_of_keeps all name _ (
      append_hostnames_keeps (sorted_set (aliases_to fqdn targets)) name _ (
        subst (λ n. Holds name (add_candidate (before_text "." n) (add_candidate n names))) (sym p)
          (add_candidate_keeps (before_text "." name) name _
            (add_candidate_adds name names filled))))
  hostnames_of_has ((fqdn, _) ∷ all) name names filled (inr h) =
      hostnames_of_has all name _ filled h

pub from_keys_keeps :
    (names seen : List String) (name : String)
    → Holds name seen ⊎ Holds name names
    → Holds name (from_keys names seen)
unfolding from_keys
from_keys_keeps [] seen name (inl h) = h
from_keys_keeps [] seen name (inr h) = elim h [ ]
from_keys_keeps (n ∷ names) seen name h = elim (Bool-cases (contains n seen)) [
  | inl e ↦ rw e (
      from_keys_keeps names seen name (elim h [
        | inl k ↦ inl k
        | inr k ↦ elim k [
          | inl p ↦ inl (subst (λ x. Holds x seen) p (contains-Holds n seen e))
          | inr k ↦ inr k
        ]
      ]))
  | inr e ↦ rw e (
      from_keys_keeps names (seen ++ n ∷ []) name (elim h [
        | inl k ↦ inl (Any-left (λ x. x ≡ name) seen _ k)
        | inr k ↦ elim k [ inl p ↦ inl (Any-right (λ x. x ≡ name) seen _ (inl p)) | inr k ↦ inr k ]
      ]))
]

Unique-append_one :
    (xs : List String) (x : String) → All (λ y. y ≢ x) xs → Unique xs → Unique (xs ++ x ∷ [])
Unique-append_one [] x h u = (tt, tt)
Unique-append_one (y ∷ xs) x h u =
    (All-append (λ z. y ≢ z) xs (x ∷ []) u.0 (h.0, tt), Unique-append_one xs x h.1 u.1)

pub from_keys-Unique : (names seen : List String) → Unique seen → Unique (from_keys names seen)
unfolding from_keys
from_keys-Unique [] seen u = u
from_keys-Unique (n ∷ names) seen u = elim (Bool-cases (contains n seen)) [
  | inl e ↦ rw e (from_keys-Unique names seen u)
  | inr e ↦ rw e (
      from_keys-Unique names (seen ++ n ∷ [])
        (Unique-append_one seen n (Holds-contains n seen e) u))
]
