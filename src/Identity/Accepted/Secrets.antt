-- ===== src/Identity/Accepted/Secrets.antt =====
-- Keys for plaintext secrets in the documents that scripts/validate_identity_source.py accepts.
use rfc_codex_gentoo_stage.Prelude.{
  ℕ, String, false, not, ◌&&◌, some, List, ◌++◌, ◌≡◌, refl, ap, sym, ◌∙◌, subst, All, ◌==◌,
  Bool-cases, inl, inr, false≢true,
}
use rfc_codex_gentoo_stage.Ip.{is_ip_address}
use rfc_codex_gentoo_stage.Value.{
  Value, Fields, field, end, get, get_or, has_key, empty_list, ◌or_value◌,
}
use rfc_codex_gentoo_stage.Identity.Check.{
  row, report_if, scan, shared_secret_used, not_vault, invalid_address,
}
use rfc_codex_gentoo_stage.Identity.Clean.{Clean, >>=-Clean, report_if-Clean, scan-All}
use rfc_codex_gentoo_stage.Identity.Fields.{
  required_string, validate_group_refs, check_vault, is_vault, forbidden,
}
use rfc_codex_gentoo_stage.Identity.Rows.{
  each, check_group, check_account, check_host, check_client, check_role, without,
  builtin_hostgroups,
}
use rfc_codex_gentoo_stage.Identity.Source.{
  Accepts, validate_identity_source, check_header, check_rows, collection, nothing_seen,
}
use rfc_codex_gentoo_stage.Identity.Directory.{HasNoSecret, rows}
use rfc_codex_gentoo_stage.Identity.Accepted.Primitives.{reject_secret_values-Clean}
use rfc_codex_gentoo_stage.Identity.Accepted.Whole.{each-Clean}
use rfc_codex_gentoo_stage.Identity.Accepted.Rows.{check_group-clear, check_account-clear}

without-absent :
    (key : String) (fields : Fields) → has_key fields key ≡ false → without key fields ≡ fields
unfolding without has_key
without-absent key end h = refl
without-absent key (field k v fs) h = elim (Bool-cases (k == key)) [
  | inl e ↦ absurd (false≢true (sym h ∙ rw (has_key, e) refl))
  | inr e ↦ rw (without, e) (ap (field k v) (without-absent key fs (rw (has_key, e) at h)))
]

check_host-HasNoSecret :
    (groups : List String) (i : ℕ) (v : Value) (s t : Unit {0})
    → Clean (check_host groups i v s) t
    → HasNoSecret v
unfolding check_host
check_host-HasNoSecret groups i v s t h fields e =
    let (_, _, h1) =
      >>=-Clean (required_string fields "name" (row "host_enrollments" i)) _
        (rw (e, check_host) at h) in
    let (_, _, h2) = >>=-Clean (required_string fields "fqdn" (row "host_enrollments" i)) _ h1 in
    let (_, _, h3) =
      >>=-Clean (required_string fields "netbox_device" (row "host_enrollments" i)) _ h2 in
    let (refs, _, h4) =
      >>=-Clean (each (get_or fields "hostgroups" empty_list or_value empty_list)) _ h3 in
    let (_, _, h5) =
      >>=-Clean
        (validate_group_refs refs (groups ++ builtin_hostgroups) "hostgroups"
          (row "host_enrollments" i))
        _ h4 in
    let (_, _, h6) =
      >>=-Clean (check_vault fields "enrollment_secret_var" (row "host_enrollments" i)) _ h5 in
    reject_secret_values-Clean fields (row "host_enrollments" i) t h6

check_client-HasNoSecret :
    (groups : List String) (i : ℕ) (v : Value) (s t : Unit {0})
    → Clean (check_client groups i v s) t
    → HasNoSecret v
unfolding check_client
check_client-HasNoSecret groups i v s t h fields e =
    let label = row "radius_clients" i in
    let (_, _, h1) =
      >>=-Clean (required_string fields "name" label) _ (rw (e, check_client) at h) in
    let (_, _, h2) = >>=-Clean (required_string fields "netbox_device" label) _ h1 in
    let (ipaddr, _, h3) = >>=-Clean (required_string fields "ipaddr" label) _ h2 in
    let (_, _, h4) =
      >>=-Clean
        (report_if (not (ipaddr == "") && not (is_ip_address ipaddr)) label
          (invalid_address "ipaddr" ipaddr))
        _ h3 in
    let (_, shared, h5) =
      >>=-Clean (report_if (has_key fields "shared_secret") label shared_secret_used) _ h4 in
    let (_, _, h6) =
      >>=-Clean
        (report_if (not (is_vault (get fields "shared_secret_var"))) label
          (not_vault "shared_secret_var"))
        _ h5 in
    let (_, _, h7) =
      >>=-Clean (check_role groups label "access_role" (get fields "access_role")) _ h6 in
    let (_, _, h8) =
      >>=-Clean (check_role groups label "readonly_role" (get fields "readonly_role")) _ h7 in
    subst (λ fs. All (λ k. has_key fs k ≡ false) forbidden)
      (without-absent "shared_secret" fields (report_if-Clean _ _ _ _ shared))
      (reject_secret_values-Clean (without "shared_secret" fields) label t h8)

-- The rows of the collection exist, and none has a key for a secret.
abbrev pub HoldsNoSecret : Fields → String → Type 0
HoldsNoSecret source key = (vs : List Value) × (rows source key ≡ some vs) × All HasNoSecret vs

pub record IsWithoutSecrets (source : Fields) : Type 0 where
  pub groups : HoldsNoSecret source "groups"
  pub users : HoldsNoSecret source "users"
  pub service_accounts : HoldsNoSecret source "service_accounts"
  pub host_enrollments : HoldsNoSecret source "host_enrollments"
  pub radius_clients : HoldsNoSecret source "radius_clients"

-- In a document that the validation accepts, no group, user, service account, host enrollment or
-- RADIUS client has one of the keys under which a plaintext secret would stand.
pub accepted-IsWithoutSecrets : (source : Fields) → Accepts source → IsWithoutSecrets source
unfolding validate_identity_source collection rows check_rows
accepted-IsWithoutSecrets source (counts, h) =
    let (ranges, header, h1) = >>=-Clean (check_header source) _ h in
    let (groups, e1, h2) = >>=-Clean (each (collection source "groups")) _ h1 in
    let (users, e2, h3) = >>=-Clean (each (collection source "users")) _ h2 in
    let (services, e3, h4) = >>=-Clean (each (collection source "service_accounts")) _ h3 in
    let (hosts, e4, h5) = >>=-Clean (each (collection source "host_enrollments")) _ h4 in
    let (clients, e5, h6) = >>=-Clean (each (collection source "radius_clients")) _ h5 in
    let (gates, e6, h7) = >>=-Clean (each (collection source "rollout_gates")) _ h6 in
    let (u, checked, last) =
      >>=-Clean (check_rows ranges groups users services hosts clients) _ h7 in
    let (s, k1, r1) = >>=-Clean (scan (check_group ranges) 0 groups nothing_seen) _ checked in
    let (v, k2, r2) =
      >>=-Clean (scan (check_account ranges s.known "users") 0 users nothing_seen) _ r1 in
    let (w, k3, r3) =
      >>=-Clean (scan (check_account ranges s.known "service_accounts") 0 services v) _ r2 in
    let (x, k4, r4) = >>=-Clean (scan (check_host s.known) 0 hosts tt) _ r3 in
    record {
      groups = (
        groups,
        each-Clean _ groups e1,
        scan-All HasNoSecret (check_group ranges) (check_group-clear ranges) 0 groups nothing_seen s
            k1,
      );
      users = (
        users,
        each-Clean _ users e2,
        scan-All HasNoSecret (check_account ranges s.known "users")
            (check_account-clear ranges s.known "users") 0 users nothing_seen v k2,
      );
      service_accounts = (
        services,
        each-Clean _ services e3,
        scan-All HasNoSecret (check_account ranges s.known "service_accounts")
            (check_account-clear ranges s.known "service_accounts") 0 services v w k3,
      );
      host_enrollments = (
        hosts,
        each-Clean _ hosts e4,
        scan-All HasNoSecret (check_host s.known) (check_host-HasNoSecret s.known) 0 hosts tt x k4,
      );
      radius_clients = (
        clients,
        each-Clean _ clients e5,
        scan-All HasNoSecret (check_client s.known) (check_client-HasNoSecret s.known) 0 clients tt
            u r4,
      );
    }
