-- ===== src/DnsPlan/HostsEntries.antt =====
-- The hosts entries of scripts/plan-hetzner-dns-from-inventory.py against the records of the plan.
use rfc_codex_gentoo_stage.Prelude.{
  String, Bool, true, false, Option, some, List, [], ◌∷◌, ◌≡◌, ◌⊎◌, refl, sym, ap, subst, ◌∙◌, inl,
  inr, All, All-map, Any, Unique, Bool-cases, map, eq_iff, eq_refl, false≢true, if◌then◌else◌,
}
use rfc_codex_gentoo_stage.Text.{is_empty}
use rfc_codex_gentoo_stage.Sorted.{sort_by}
use rfc_codex_gentoo_stage.Sorted.Kept.{Any-sort_by, Unique-sort_by}
use rfc_codex_gentoo_stage.Dns.Records.{put, find}
use rfc_codex_gentoo_stage.DnsPlan.Dicts
use rfc_codex_gentoo_stage.DnsPlan.Hosts.{
  PlanRecord, Names, AddressRecords, HostsEntry, same_text, or_no_names, add_name, add_names,
  is_address_type, address_records_of, cname_targets_of, compare_names, hostnames_of, hosts_entry,
  compare_addresses, generate_hosts_entries,
}
use rfc_codex_gentoo_stage.DnsPlan.HostsLaws.{
  Holds, from_keys_keeps, from_keys-Unique, hostnames_of_has,
}

same_text_sound : (s t : String) → same_text s t ≡ true → s ≡ t
same_text_sound s t h = (eq_iff s t).0 h

same_text_refl : (s : String) → same_text s s ≡ true
same_text_refl s = eq_refl s

-- The address has the name in the records.
abbrev Named : String → String → AddressRecords → Type 0
Named value fqdn records = Any (λ n. n.0 ≡ fqdn) (or_no_names (find same_text value records))

put_adds :
    {V : Type 0} (key : String) (value : V) (entries : List (String × V))
    → Any (λ e. e.0 ≡ key) (put same_text key value entries)
unfolding put
put_adds key value [] = inl refl
put_adds key value ((k, v) ∷ entries) = elim (Bool-cases (same_text k key)) [
  | inl e ↦ rw e (inl (same_text_sound k key e))
  | inr e ↦ rw e (inr (put_adds key value entries))
]

put_other :
    {V : Type 0} (key other : String) (value : V) (entries : List (String × V))
    → Any (λ e. e.0 ≡ other) entries
    → Any (λ e. e.0 ≡ other) (put same_text key value entries)
put_other key other value entries h =
    Dicts.Any-put same_text same_text_sound (λ k. k ≡ other) key value entries h

added : AddressRecords → String → String → String → Names
added records value fqdn source =
    put same_text fqdn source (or_no_names (find same_text value records))

Named-by :
    (value fqdn : String) (records : AddressRecords) (o : Option Names)
    → find same_text value records ≡ o
    → Any (λ n. n.0 ≡ fqdn) (or_no_names o)
    → Named value fqdn records
Named-by value fqdn records o p h = subst (λ x. Any (λ n. n.0 ≡ fqdn) (or_no_names x)) (sym p) h

add_name_adds :
    (value fqdn source : String) (records : AddressRecords)
    → Named value fqdn (add_name value fqdn source records)
unfolding add_name
add_name_adds value fqdn source records =
    let names = put same_text fqdn source (or_no_names (find same_text value records)) in
    Named-by value fqdn (put same_text value names records) (some names)
      (Dicts.find-put_same same_text same_text_sound value names records (same_text_refl value))
      (put_adds fqdn source (or_no_names (find same_text value records)))

-- a name that an address has, it keeps
add_name_keeps :
    (value fqdn source other name : String) (records : AddressRecords)
    → Named other name records
    → Named other name (add_name value fqdn source records)
unfolding add_name
add_name_keeps value fqdn source other name records h =
    let names = put same_text fqdn source (or_no_names (find same_text value records)) in
    elim (Bool-cases (same_text other value)) [
      | inl e ↦
          let p = same_text_sound other value e in
          subst (λ v. Named v name (put same_text value names records)) (sym p)
            (Named-by value name (put same_text value names records) (some names)
              (Dicts.find-put_same same_text same_text_sound value names records
                (same_text_refl value))
              (put_other fqdn name source (or_no_names (find same_text value records))
                (subst (λ v. Named v name records) p h)))
      | inr e ↦
          Named-by other name (put same_text value names records) (find same_text other records)
            (Dicts.find-put_other same_text same_text_sound other value names records
              (λ p. false≢true (sym e ∙ (eq_iff other value).1 p)))
            h
    ]

add_names_keeps :
    (values : List String) (fqdn source other name : String) (records : AddressRecords)
    → Named other name records
    → Named other name (add_names values fqdn source records)
unfolding add_names
add_names_keeps [] fqdn source other name records h = h
add_names_keeps (value ∷ values) fqdn source other name records h =
    add_names_keeps values fqdn source other name _
      (add_name_keeps value fqdn source other name records h)

add_names_adds :
    (values : List String) (fqdn source : String) (records : AddressRecords)
    → All (λ value. Named value fqdn (add_names values fqdn source records)) values
unfolding add_names
add_names_adds [] fqdn source records = tt
add_names_adds (value ∷ values) fqdn source records = (
  add_names_keeps values fqdn source value fqdn _ (add_name_adds value fqdn source records),
  add_names_adds values fqdn source (add_name value fqdn source records),
)

address_records_keeps :
    (rs : List PlanRecord) (other name : String) (records : AddressRecords)
    → Named other name records
    → Named other name (address_records_of rs records)
unfolding address_records_of
address_records_keeps [] other name records h = h
address_records_keeps (r ∷ rs) other name records h =
    elim (Bool-cases (is_address_type r.planned.record_type)) [
      | inl e ↦ rw e (
          address_records_keeps rs other name _
            (add_names_keeps r.values r.planned.fqdn r.planned.source other name records h))
      | inr e ↦ rw e (address_records_keeps rs other name records h)
    ]

-- Of an address record, each value has the name.
abbrev IsNamedIn : AddressRecords → PlanRecord → Type 0
IsNamedIn records r =
    (is_address_type r.planned.record_type ≡ false)
    ⊎ All (λ value. Named value r.planned.fqdn records) r.values

next_records :
    (r : PlanRecord) (rs : List PlanRecord) (records next : AddressRecords)
    → address_records_of (r ∷ rs) records ≡ address_records_of rs next
    → IsNamedIn (address_records_of rs next) r
    → All (IsNamedIn (address_records_of rs next)) rs
    → All (IsNamedIn (address_records_of (r ∷ rs) records)) (r ∷ rs)
next_records r rs records next p h hs =
    subst (λ recs. All (IsNamedIn recs) (r ∷ rs)) (sym p) (h, hs)

address_step :
    (r : PlanRecord) (rs : List PlanRecord) (records : AddressRecords) (b : Bool)
    → is_address_type r.planned.record_type ≡ b
    → address_records_of (r ∷ rs) records ≡ (
        if b
        then address_records_of rs (add_names r.values r.planned.fqdn r.planned.source records)
        else address_records_of rs records)
unfolding address_records_of
address_step r rs records b h = rw h refl

address_records_named :
    (rs : List PlanRecord) (records : AddressRecords)
    → All (IsNamedIn (address_records_of rs records)) rs
address_records_named [] records = tt
address_records_named (r ∷ rs) records = elim (Bool-cases (is_address_type r.planned.record_type)) [
  | inl e ↦
      let next = add_names r.values r.planned.fqdn r.planned.source records in
      next_records r rs records next (address_step r rs records true e)
        (inr (
          All-map _ _ r.values (λ value h. address_records_keeps rs value r.planned.fqdn next h)
            (add_names_adds r.values r.planned.fqdn r.planned.source records)))
        (address_records_named rs next)
  | inr e ↦
      next_records r rs records records (address_step r rs records false e) (inl e)
        (address_records_named rs records)
]

-- An entry of the hosts file gives the name to the address.
abbrev pub Resolves : List HostsEntry → String → String → Type 0
Resolves entries value fqdn = Any (λ e. (e.address ≡ value) × Holds fqdn e.names) entries

found_entry :
    (value : String) (fqdn : String) (records : AddressRecords)
    → Named value fqdn records
    → Any (λ e. (e.0 ≡ value) × Any (λ n. n.0 ≡ fqdn) e.1) records
unfolding find
found_entry value fqdn [] h = elim h [ ]
found_entry value fqdn ((k, v) ∷ records) h = elim (Bool-cases (same_text k value)) [
  | inl e ↦ inl (same_text_sound k value e, rw e at h)
  | inr e ↦ inr (found_entry value fqdn records (rw e at h))
]

entry-Holds :
    (targets : List (String × String)) (e : String × Names) (fqdn : String)
    → is_empty fqdn ≡ false
    → Any (λ n. n.0 ≡ fqdn) e.1
    → Holds fqdn (hosts_entry targets e).names
unfolding hosts_entry
entry-Holds targets (address, names) fqdn filled h =
    from_keys_keeps (hostnames_of targets (sort_by compare_names names) []) [] fqdn (
      inr (
        hostnames_of_has targets (sort_by compare_names names) fqdn [] filled
          (Any-sort_by compare_names (λ n. n.0 ≡ fqdn) names h)))

entries_resolve :
    (targets : List (String × String)) (value fqdn : String) (es : AddressRecords)
    → is_empty fqdn ≡ false
    → Any (λ e. (e.0 ≡ value) × Any (λ n. n.0 ≡ fqdn) e.1) es
    → Resolves (map (hosts_entry targets) es) value fqdn
unfolding hosts_entry
entries_resolve targets value fqdn [] filled h = elim h [ ]
entries_resolve targets value fqdn (e ∷ es) filled (inl h) =
    inl (h.0, entry-Holds targets e fqdn filled h.1)
entries_resolve targets value fqdn (e ∷ es) filled (inr h) =
    inr (entries_resolve targets value fqdn es filled h)

abbrev pub IsResolved : List HostsEntry → PlanRecord → Type 0
IsResolved entries r =
    (is_address_type r.planned.record_type ≡ false)
    ⊎ ((is_empty r.planned.fqdn ≡ true)
        ⊎ All (λ value. Resolves entries value r.planned.fqdn) r.values)

resolved :
    (records : List PlanRecord) (r : PlanRecord)
    → IsNamedIn (address_records_of records []) r
    → IsResolved (generate_hosts_entries records) r
unfolding generate_hosts_entries
resolved records r (inl h) = inl h
resolved records r (inr h) = inr (elim (Bool-cases (is_empty r.planned.fqdn)) [
  | inl e ↦ inl e
  | inr e ↦ inr (
      All-map _ _ r.values
        (λ value k.
          entries_resolve (cname_targets_of records []) value r.planned.fqdn
            (sort_by compare_addresses (address_records_of records [])) e
            (Any-sort_by compare_addresses _ (address_records_of records [])
              (found_entry value r.planned.fqdn (address_records_of records []) k)))
        h)
])

names_unique :
    (targets : List (String × String)) (es : AddressRecords)
    → All (λ e. Unique e.names) (map (hosts_entry targets) es)
unfolding hosts_entry
names_unique targets [] = tt
names_unique targets ((address, names) ∷ es) = (
  from_keys-Unique (hostnames_of targets (sort_by compare_names names) []) [] tt,
  names_unique targets es,
)

add_names-Unique :
    (values : List String) (fqdn source : String) (records : AddressRecords)
    → Unique (map (λ e. e.0) records)
    → Unique (map (λ e. e.0) (add_names values fqdn source records))
unfolding add_names add_name
add_names-Unique [] fqdn source records u = u
add_names-Unique (value ∷ values) fqdn source records u =
    add_names-Unique values fqdn source _
      (Dicts.Unique-put same_text same_text_sound value _ records same_text_refl u)

addresses-Unique :
    (rs : List PlanRecord) (records : AddressRecords)
    → Unique (map (λ e. e.0) records)
    → Unique (map (λ e. e.0) (address_records_of rs records))
unfolding address_records_of
addresses-Unique [] records u = u
addresses-Unique (r ∷ rs) records u = elim (Bool-cases (is_address_type r.planned.record_type)) [
  | inl e ↦
      rw e (
        addresses-Unique rs _ (add_names-Unique r.values r.planned.fqdn r.planned.source records u))
  | inr e ↦ rw e (addresses-Unique rs records u)
]

entry_addresses :
    (targets : List (String × String)) (es : AddressRecords)
    → map (λ e. e.address) (map (hosts_entry targets) es) ≡ map (λ e. e.0) es
unfolding hosts_entry
entry_addresses targets [] = refl
entry_addresses targets (e ∷ es) = ap (λ others. e.0 ∷ others) (entry_addresses targets es)

-- Each address stands in one of the hosts entries at most, each name once at most in an entry; and of every
-- record of type A or AAAA that has a name, each value has an entry with this name.
pub generate_hosts_entries-Resolves :
    (records : List PlanRecord)
    → Unique (map (λ e. e.address) (generate_hosts_entries records))
      × All (λ e. Unique e.names) (generate_hosts_entries records)
      × All (IsResolved (generate_hosts_entries records)) records
unfolding generate_hosts_entries
generate_hosts_entries-Resolves records =
    let targets = cname_targets_of records [] in
    let es = sort_by compare_addresses (address_records_of records []) in
    (
      subst Unique (sym (entry_addresses targets es)) (
          Unique-sort_by compare_addresses (λ e. e.0) (address_records_of records [])
            (addresses-Unique records [] tt)),
      names_unique targets es,
      All-map _ _ records (λ r h. resolved records r h) (address_records_named records []),
    )
