-- ===== src/DnsPlan/Keeps.antt =====
-- Every call of `add_record` in scripts/plan-hetzner-dns-from-inventory.py keeps what was planned,
-- skipped or refused before, and adds what it was called for.
use rfc_codex_gentoo_stage.Prelude.{
  String, false, not, ◌&&◌, ◌==◌, List, [], ◌∷◌, ◌≡◌, refl, inl, inr, Any-left, Any-right,
  Bool-cases, Option-cases, length, nat_eq,
}
use rfc_codex_gentoo_stage.Dns.Records.{find}
use rfc_codex_gentoo_stage.DnsPlan.Names.{Match, zone_for_name, required_domain_match}
use rfc_codex_gentoo_stage.DnsPlan.Add.{
  Key, same_key, Planning, Setting, Wish, Left, RowReason, cname_requires_single_target,
  conflicting_rrset_values, cname_address_type_conflict, no_matching_zone, outside_managed_domain,
  is_planned, differs, incompatible_type, plan_record, add_in_zone, add_without_zone, add_normal,
  add_record, normal_wish, key_of, is_outside, add_error, add_skipped, left_for,
}
use rfc_codex_gentoo_stage.DnsPlan.Invariant.{one_value}
use rfc_codex_gentoo_stage.DnsPlan.Accounts.{
  IsAbout, IsReported, IsPlanned, IsAccounted, plan_record_keeps, plan_record_plans,
}

-- What is planned or reported in the first state still is in the second.
abbrev pub Kept : Planning → Planning → Type 0
Kept p q =
    ((key : Key) (kept : List String) → IsPlanned key kept p → IsPlanned key kept q)
    × ((wish : Wish) → IsReported wish p → IsReported wish q)

pub Kept_refl : (p : Planning) → Kept p p
Kept_refl p = ((λ key kept h. h), (λ wish h. h))

pub Kept_trans : (p q r : Planning) → Kept p q → Kept q r → Kept p r
Kept_trans p q r h k =
    ((λ key kept x. k.0 key kept (h.0 key kept x)), (λ wish x. k.1 wish (h.1 wish x)))

pub add_error-Kept : (row : Left) (p : Planning) → Kept p (add_error row p)
unfolding add_error
add_error-Kept row p = (
  (λ key kept h. h),
  (λ wish h. elim h [
    | inl k ↦ inl (Any-left (IsAbout wish) p.errors (row ∷ []) k)
    | inr k ↦ inr k
  ]),
)

pub add_skipped-Kept : (row : Left) (p : Planning) → Kept p (add_skipped row p)
unfolding add_skipped
add_skipped-Kept row p = (
  (λ key kept h. h),
  (λ wish h. elim h [
    | inl k ↦ inl k
    | inr k ↦ inr (Any-left (IsAbout wish) p.skipped (row ∷ []) k)
  ]),
)

add_error-IsReported :
    (reason : RowReason) (wish : Wish) (p : Planning)
    → IsReported wish (add_error (left_for reason wish) p)
unfolding add_error left_for
add_error-IsReported reason wish p =
    inl (Any-right (IsAbout wish) p.errors _ (inl (refl, refl, refl)))

add_skipped-IsReported :
    (reason : RowReason) (wish : Wish) (p : Planning)
    → IsReported wish (add_skipped (left_for reason wish) p)
unfolding add_skipped left_for
add_skipped-IsReported reason wish p =
    inr (Any-right (IsAbout wish) p.skipped _ (inl (refl, refl, refl)))

-- After the step, the wish is accounted for, and what was is kept.
abbrev pub Serves : Wish → Planning → Planning → Type 0
Serves wish p q = Kept p q × IsAccounted wish q

refused :
    (reason : RowReason) (wish : Wish) (p : Planning)
    → Serves wish p (add_error (left_for reason wish) p)
refused reason wish p =
    (add_error-Kept (left_for reason wish) p, inr (add_error-IsReported reason wish p))

passed_over :
    (reason : RowReason) (wish : Wish) (p : Planning)
    → Serves wish p (add_skipped (left_for reason wish) p)
passed_over reason wish p =
    (add_skipped-Kept (left_for reason wish) p, inr (add_skipped-IsReported reason wish p))

module _ (setting : Setting) where
  plan_record_unchanged :
      (wish : Wish) (match : Match) (p : Planning) (other : Wish)
      → IsReported other p
      → IsReported other (plan_record setting wish match wish.values p)
  unfolding plan_record
  plan_record_unchanged wish match p other h = h

  plan_record-Serves :
      (wish : Wish) (match : Match) (p : Planning)
      → length wish.values ≡ 1
      → differs (find same_key (key_of wish) p.grouped_values) wish.values ≡ false
      → Serves wish p (plan_record setting wish match wish.values p)
  plan_record-Serves wish match p single same = (
    (
      (λ key kept h. plan_record_keeps setting key kept wish match wish.values p single same h),
      (λ other h. plan_record_unchanged wish match p other h),
    ),
    inl (plan_record_plans setting wish match wish.values p single same),
  )

  add_in_zone-Serves :
      (wish : Wish) (match : Match) (p : Planning)
      → length wish.values ≡ 1
      → Serves wish p (add_in_zone setting wish match wish.values p)
  unfolding add_in_zone
  add_in_zone-Serves wish match p single =
      elim (Bool-cases (wish.record_type == "CNAME" && not (nat_eq (length wish.values) 1))) [
        | inl e ↦ rw e (refused cname_requires_single_target wish p)
        | inr e ↦
            elim (Bool-cases (differs (find same_key (key_of wish) p.grouped_values) wish.values)) [
              | inl d ↦ rw (e, d) (refused conflicting_rrset_values wish p)
              | inr d ↦
                  elim (Bool-cases (
                    is_planned
                      (record {
                        fqdn = wish.fqdn;
                        record_type = incompatible_type wish.record_type;
                      })
                      p.rrsets)) [
                        | inl f ↦ rw (e, d, f) (refused cname_address_type_conflict wish p)
                        | inr f ↦ rw (e, d, f) (plan_record-Serves wish match p single d)
                      ]
            ]
      ]

  add_without_zone-Serves :
      (wish : Wish) (p : Planning) → Serves wish p (add_without_zone setting wish p)
  unfolding add_without_zone
  add_without_zone-Serves wish p =
      elim (Bool-cases (required_domain_match wish.fqdn setting.required_domains)) [
        | inl e ↦ rw e (refused no_matching_zone wish p)
        | inr e ↦ rw e (passed_over no_matching_zone wish p)
      ]

  add_normal-Serves :
      (wish : Wish) (p : Planning)
      → length wish.values ≡ 1
      → Serves wish p (add_normal setting wish p)
  unfolding add_normal
  add_normal-Serves wish p single =
      elim (Bool-cases (is_outside wish.fqdn setting.managed_domains)) [
        | inl e ↦ rw e (passed_over outside_managed_domain wish p)
        | inr e ↦ elim (Option-cases (zone_for_name wish.fqdn setting.zone_groups)) [
          | inl z ↦ rw (e, z) (add_without_zone-Serves wish p)
          | inr (match, z) ↦
              rw (e, z, one_value wish.values single) (add_in_zone-Serves wish match p single)
        ]
      ]

  pub add_record-Serves :
      (wish : Wish) (p : Planning)
      → length wish.values ≡ 1
      → Serves (normal_wish wish) p (add_record setting wish p)
  unfolding add_record normal_wish
  add_record-Serves wish p single = add_normal-Serves (normal_wish wish) p single
