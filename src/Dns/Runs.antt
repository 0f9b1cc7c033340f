-- ===== src/Dns/Runs.antt =====
-- Runs of `apply_dns_plan` of scripts/apply-hetzner-dns-plan.py, for any property of the reads,
-- the writes and the removals with a good token.
use rfc_codex_gentoo_stage.Prelude.{
  String, Bool, true, false, Option, none, some, List, [], ◌∷◌, All, ◌≡◌, refl, sym, ap, ◌∙◌,
  append-nil, append_assoc, arith, ◌==◌, if◌then◌else◌, false≢true, ◌++◌,
}
use rfc_codex_gentoo_stage.Value.{Value, list, nil, Fields, as_dict, iterate, get_or}
use rfc_codex_gentoo_stage.Dns.Provider.{Request, Web, or_uncaught}
use rfc_codex_gentoo_stage.Dns.Records.{Row}
use rfc_codex_gentoo_stage.Dns.Requests.{update_rrset, is_already_exists_error}
use rfc_codex_gentoo_stage.Dns.Groups.{TokenGroup}
use rfc_codex_gentoo_stage.Dns.Lookup.{
  Options, Zone, Zones, Current, Records, note_zones, provider_zones, zones_from, zone_lookup,
  zone_rows_of, records_from, current_record_lookup, find_current_record, current_or_none, find_row,
}
use rfc_codex_gentoo_stage.Dns.Apply.{
  Outcome, deleted, updated, created, planned_delete, planned_update, planned_create, count_planned,
  not_made, Target, Report, is_live, delete_existing, apply_delete, update_existing,
  resolve_conflict, look_again, create_failed, create_missing, apply_ensure, apply_in_zone,
  apply_target, apply_fields, apply_records, apply_dns_plan, nothing_done, read_target, same_texts,
  has_type_conflict, current_types,
}
use rfc_codex_gentoo_stage.Dns.Ensures.{
  Ensures, Any, Ensures-pure, Ensures-raise, Ensures-lift-Any, Ensures-bind, Ensures-try,
  Ensures-option, Ensures-if, Ensures-weaken, Ensures-or_uncaught, Ensures-read,
}
use rfc_codex_gentoo_stage.Dns.Sends.{
  IsRead, IsWrite, IsRemoval, fetch_zones-Ensures, fetch_zone_records-Ensures, create_rrset-Ensures,
  update_rrset-Ensures, delete_rrset-Ensures,
}
use rfc_codex_gentoo_stage.Dns.Counts.{
  counter_of, IsHonest, IsCounted, add_action-IsCounted, targets_of, read_targets, targets-append,
  read_targets-skip, read_targets-read, Answers, IsAnswered, value_of, tally,
}
use rfc_codex_gentoo_stage.Dns.Tokens.{
  OnSome, HasGood, GoodGroup, find-OnSome, last_group-OnSome, note_zones-All,
}

-- What a run may send with a good token: reads without a fixture, writes if it is live, and
-- removals if it may delete as well.
pub record Permits (options : Options) (Good : String → Type 0) (Q : Request → Type 0)
    : Type 0 where
  pub reads : options.fixture ≡ none → (token : String) → Good token → IsRead Q token
  pub writes : is_live options ≡ true → (token : String) → Good token → IsWrite Q token
  pub removals :
      is_live options ≡ true
      → options.allow_delete ≡ true
      → (token : String) → Good token
      → IsRemoval Q token

live_without :
    (fixture : Option Fields) (apply : Bool)
    → elim fixture [ none ↦ apply | some _ ↦ false ] ≡ true
    → fixture ≡ none
live_without none apply h = refl
live_without (some f) apply h = absurd (false≢true h)

pub live-fixture : (options : Options) → is_live options ≡ true → options.fixture ≡ none
unfolding is_live
live-fixture options h = live_without options.fixture options.apply h

module _ (web : Web) (options : Options) {Good : String → Type 0} {Q : Request → Type 0}
    (permits : Permits options Good Q) where
  provider_zones-Ensures :
      (fixture : Option Fields) (group : TokenGroup)
      → options.fixture ≡ fixture
      → GoodGroup Good group
      → Ensures Q Any (provider_zones web options fixture group)
  unfolding provider_zones
  provider_zones-Ensures none group e g =
      fetch_zones-Ensures web group.api_token (permits.reads e group.api_token g) options.endpoint
        options.fuel
  provider_zones-Ensures (some fixture) group e g = Ensures-lift-Any _

  zones_from-Ensures :
      (groups : List TokenGroup) (zones : Zones)
      → All (GoodGroup Good) groups
      → All (HasGood Good) zones
      → Ensures Q (All (HasGood Good)) (zones_from web options groups zones)
  unfolding zones_from
  zones_from-Ensures [] zones gs h = Ensures-pure zones h
  zones_from-Ensures (group ∷ groups) zones gs h =
      Ensures-bind _ _ (provider_zones-Ensures options.fixture group refl gs.0) (λ found _.
        zones_from-Ensures groups (note_zones web options group found zones) gs.1
          (note_zones-All Good web options group found zones gs.0 h))

  zone_rows_of-Ensures :
      (fixture : Option Fields) (group : TokenGroup) (name zone_id : String)
      → options.fixture ≡ fixture
      → GoodGroup Good group
      → Ensures Q Any (zone_rows_of web options fixture group name zone_id)
  unfolding zone_rows_of
  zone_rows_of-Ensures none group name zone_id e g =
      fetch_zone_records-Ensures web group.api_token (permits.reads e group.api_token g)
        options.endpoint options.fuel zone_id
  zone_rows_of-Ensures (some fixture) group name zone_id e g = Ensures-lift-Any _

  group-Ensures :
      (o : Option TokenGroup)
      → OnSome (GoodGroup Good) o
      → Ensures Q (GoodGroup Good) (or_uncaught o)
  group-Ensures none h = Ensures-raise _
  group-Ensures (some g) h = Ensures-pure g h

  records_from-Ensures :
      (groups : List TokenGroup) (zones : Zones) (records : Records)
      → All (GoodGroup Good) groups
      → Ensures Q Any (records_from web options groups zones records)
  unfolding records_from
  records_from-Ensures groups [] records gs = Ensures-pure _ tt
  records_from-Ensures groups ((key, zone) ∷ zones) records gs =
      Ensures-bind _ _ (group-Ensures _ (last_group-OnSome Good key.token_group groups gs))
        (λ group g.
          Ensures-bind _ _
            (zone_rows_of-Ensures options.fixture group key.token_group zone.id refl g)
            (λ rows _.
              Ensures-bind _ _ (Ensures-or_uncaught _)
                (λ noted _. records_from-Ensures groups zones noted gs)))

  current_or_none-Ensures : (row : Option Row) → Ensures Q Any (current_or_none web options row)
  current_or_none-Ensures none = Ensures-pure _ tt
  current_or_none-Ensures (some row) =
      Ensures-bind _ _ (Ensures-or_uncaught _) (λ _ _. Ensures-pure _ tt)

  module _ (zone : Zone) (good : Good zone.api_token) (live : is_live options ≡ true) where
    find_current_record-Ensures :
        (name type_text : String)
        → Ensures Q Any (find_current_record web options zone.api_token zone.id name type_text)
    unfolding find_current_record
    find_current_record-Ensures name type_text =
        Ensures-bind _ _
          (fetch_zone_records-Ensures web zone.api_token
            (permits.reads (live-fixture options live) zone.api_token good) options.endpoint
            options.fuel zone.id)
          (λ rows _. current_or_none-Ensures (find_row web options name type_text rows))

    update-Ensures :
        (fields : Fields)
        → Ensures Q Any (update_rrset web options.endpoint zone.api_token zone.id fields)
    update-Ensures fields =
        update_rrset-Ensures web options.endpoint zone.api_token
          (permits.writes live zone.api_token good) zone.id fields

    resolve_conflict-Ensures :
        (target : Target) (message : String) (latest : Option Current)
        → Ensures Q (IsHonest true) (resolve_conflict web options zone target message latest)
    unfolding resolve_conflict
    resolve_conflict-Ensures target message none = Ensures-pure _ refl
    resolve_conflict-Ensures target message (some latest) =
        Ensures-if (same_texts latest.values target.desired_values) _ _ (λ _. Ensures-pure _ refl)
          (λ _.
            Ensures-try _ _
              (Ensures-bind _ _ (update-Ensures target.fields) (λ _ _. Ensures-pure _ refl))
              (λ _. Ensures-pure _ refl))

    create_failed-Ensures :
        (target : Target) (message : String)
        → Ensures Q (IsHonest true) (create_failed web options zone target message)
    unfolding create_failed look_again
    create_failed-Ensures target message =
        Ensures-if (is_already_exists_error message) _ _
          (λ _.
            Ensures-bind _ _ (find_current_record-Ensures target.relative_name target.record_type)
              (λ latest _. resolve_conflict-Ensures target message latest))
          (λ _. Ensures-pure _ refl)

  not_made-Honest :
      (apply : Bool) (applied planned : Outcome)
      → counter_of false applied ≡ count_planned
      → counter_of false planned ≡ count_planned
      → count_planned ≡ counter_of false (if apply then applied else planned)
  not_made-Honest true applied planned h k = sym h
  not_made-Honest false applied planned h k = sym k

  not_made-Ensures :
      (applied planned : Outcome)
      → counter_of false applied ≡ count_planned
      → counter_of false planned ≡ count_planned
      → Ensures Q (IsHonest false) (not_made web options applied planned)
  not_made-Ensures applied planned h k =
      Ensures-pure _ (not_made-Honest options.apply applied planned h k)

  module _ (zone : Zone) (good : Good zone.api_token) where
    delete_existing-Ensures :
        (existing : Current) (live : Bool)
        → is_live options ≡ live
        → options.allow_delete ≡ true
        → Ensures Q (IsHonest live) (delete_existing web options zone existing live)
    unfolding delete_existing
    delete_existing-Ensures existing false e allowed =
        not_made-Ensures deleted planned_delete refl refl
    delete_existing-Ensures existing true e allowed =
        Ensures-try _ _
          (Ensures-bind _ _
            (delete_rrset-Ensures web options.endpoint zone.api_token
              (permits.removals e allowed zone.api_token good) zone.id existing.id)
            (λ _ _. Ensures-pure _ refl))
          (λ _. Ensures-pure _ refl)

    apply_delete-Ensures :
        (allowed : Bool) (existing : Option Current)
        → options.allow_delete ≡ allowed
        → Ensures Q (IsHonest (is_live options)) (apply_delete web options allowed zone existing)
    unfolding apply_delete
    apply_delete-Ensures false existing e = Ensures-pure _ refl
    apply_delete-Ensures true none e = Ensures-pure _ refl
    apply_delete-Ensures true (some existing) e =
        delete_existing-Ensures existing (is_live options) refl e

    update_existing-Ensures :
        (target : Target) (live : Bool)
        → is_live options ≡ live
        → Ensures Q (IsHonest live) (update_existing web options zone target live)
    unfolding update_existing
    update_existing-Ensures target false e = not_made-Ensures updated planned_update refl refl
    update_existing-Ensures target true e =
        Ensures-try _ _
          (Ensures-bind _ _ (update-Ensures zone good e target.fields) (λ _ _. Ensures-pure _ refl))
          (λ _. Ensures-pure _ refl)

    create_missing-Ensures :
        (target : Target) (live : Bool)
        → is_live options ≡ live
        → Ensures Q (IsHonest live) (create_missing web options zone target live)
    unfolding create_missing
    create_missing-Ensures target false e = not_made-Ensures created planned_create refl refl
    create_missing-Ensures target true e =
        Ensures-try _ _
          (Ensures-bind _ _
            (create_rrset-Ensures web options.endpoint zone.api_token
              (permits.writes e zone.api_token good) zone.id target.fields)
            (λ _ _. Ensures-pure _ refl))
          (create_failed-Ensures zone good e target)

    apply_ensure-Ensures :
        (target : Target) (existing : Option Current)
        → Ensures Q (IsHonest (is_live options)) (apply_ensure web options zone target existing)
    unfolding apply_ensure
    apply_ensure-Ensures target none = create_missing-Ensures target (is_live options) refl
    apply_ensure-Ensures target (some existing) =
        Ensures-if (same_texts existing.values target.desired_values) _ _ (λ _. Ensures-pure _ refl)
          (λ _. update_existing-Ensures target (is_live options) refl)

  apply_in_zone-Ensures :
      (target : Target) (current : Records) (zone : Option Zone)
      → OnSome (λ (z : Zone). Good z.api_token) zone
      → Ensures Q (IsHonest (is_live options)) (apply_in_zone web options target current zone)
  unfolding apply_in_zone
  apply_in_zone-Ensures target current none h = Ensures-pure _ refl
  apply_in_zone-Ensures target current (some zone) h =
      Ensures-if (has_type_conflict target (current_types target current)) _ _
        (λ _. Ensures-pure _ refl)
        (λ _.
          Ensures-if (target.action == "delete") _ _
            (λ _. apply_delete-Ensures zone h options.allow_delete _ refl)
            (λ _. apply_ensure-Ensures zone h target _))

  module _ (zones : Zones) (current : Records) (good : All (HasGood Good) zones) where
    apply_fields-Ensures :
        (fields : Fields) (report : Report)
        → IsCounted (is_live options) report
        → Ensures Q
            (λ next.
              IsCounted (is_live options) next
              × ((target : Target) × (read_target web fields ≡ some target)
                  × (targets_of next.actions ≡ targets_of report.actions ++ (target ∷ []))))
            (apply_fields web options zones current fields report)
    unfolding apply_fields apply_target
    apply_fields-Ensures fields report counted =
        Ensures-bind _ _ (Ensures-read (read_target web fields)) (λ target read.
          Ensures-bind _ _
            (apply_in_zone-Ensures target current _ (find-OnSome Good target.zone_key zones good))
            (λ verdict honest. Ensures-pure _ (
              add_action-IsCounted _ target verdict report honest counted,
              (target, read, targets-append report.actions target verdict),
            )))

    apply_records-Ensures :
        (records : List Value) (report : Report)
        → IsCounted (is_live options) report
        → Ensures Q
            (λ last. IsCounted (is_live options) last × Answers web records report last)
            (apply_records web options zones current records report)
    unfolding apply_records read_targets
    apply_records-Ensures [] report counted =
        Ensures-pure report (counted, ([], refl, sym (append-nil (targets_of report.actions))))
    apply_records-Ensures (v ∷ vs) report counted =
        Ensures-option (as_dict v) _ _
          (λ e.
            Ensures-weaken _
              (λ last (c, (targets, read, answered)).
                (c, (targets, read_targets-skip web v vs e ∙ read, answered)))
              (apply_records-Ensures vs report counted))
          (λ fields e.
            Ensures-bind _ _ (apply_fields-Ensures fields report counted)
              (λ next (c, (target, read, added)).
                Ensures-weaken _
                  (λ last (d, (targets, more, answered)). (
                    d,
                    (
                      target ∷ targets,
                      read_targets-read web v vs fields target targets e read more,
                      answered
                          ∙ ap (λ ts. ts ++ targets) added
                          ∙ append_assoc (targets_of report.actions) (target ∷ []) targets,
                    ),
                  ))
                  (apply_records-Ensures vs next c)))

  nothing_done-IsCounted : IsCounted (is_live options) nothing_done
  unfolding value_of tally
  nothing_done-IsCounted c = ground arith

  pub apply_dns_plan-Ensures :
      (plan : Fields) (groups : List TokenGroup)
      → All (GoodGroup Good) groups
      → Ensures Q
          (λ report. IsCounted (is_live options) report × IsAnswered web plan report)
          (apply_dns_plan web options plan groups)
  unfolding apply_dns_plan zone_lookup current_record_lookup
  apply_dns_plan-Ensures plan groups gs =
      Ensures-bind _ _ (zones_from-Ensures groups [] gs tt) (λ zones good.
        Ensures-bind _ _ (records_from-Ensures groups zones [] gs) (λ current _.
          Ensures-bind _ _ (Ensures-read (iterate (get_or plan "records" (list nil)))) (λ records e.
            Ensures-weaken _
              (λ report (c, (targets, read, answered)).
                (c, (records, e, read ∙ ap some (sym answered))))
              (apply_records-Ensures zones current good records nothing_done
                nothing_done-IsCounted))))
