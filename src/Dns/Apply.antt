-- ===== src/Dns/Apply.antt =====
-- `apply_dns_plan` of scripts/apply-hetzner-dns-plan.py.
use rfc_codex_gentoo_stage.Prelude.{
  ℕ, suc, String, Bool, true, false, not, ◌&&◌, ◌||◌, Option, none, some, List, [], ◌∷◌, ◌++◌, any,
  ◌==◌, if◌then◌else◌,
}
use rfc_codex_gentoo_stage.Text.{lower, strip}
use rfc_codex_gentoo_stage.Sorted.{sorted_set}
use rfc_codex_gentoo_stage.Value.{Value, str, list, nil, Fields, get_or, as_dict, iterate}
use rfc_codex_gentoo_stage.Dns.Provider.{Web, text, Dns, pure, or_uncaught, ◌>>=◌, ◌>>◌, try_except}
use rfc_codex_gentoo_stage.Dns.Records.{find, stripped, type_of, normalize_dns_name}
use rfc_codex_gentoo_stage.Dns.Groups.{TokenGroup}
use rfc_codex_gentoo_stage.Dns.Errors.{sanitize_provider_error}
use rfc_codex_gentoo_stage.Dns.Requests.{
  create_rrset, update_rrset, delete_rrset, is_already_exists_error,
}
use rfc_codex_gentoo_stage.Dns.Lookup.{
  Options, ZoneKey, same_zone, Zone, Zones, RecordKey, same_record, Current, Records, zone_lookup,
  current_record_lookup, find_current_record,
}

-- `result["result"]`
pub data Outcome : Type 0 where
  deleted updated created planned_delete planned_update planned_create unchanged error : Outcome

-- `result["reason"]`, with `result["detail"]` or `result["current_types"]` where the code sets it
pub data Reason : Type 0 where
  no_reason zone_not_found delete_not_allowed already_absent : Reason
  existing_rrset_type_conflict : List String → Reason
  provider_delete_failed provider_update_failed provider_create_failed : String → Reason
  provider_update_after_create_conflict_failed provider_create_conflict_unresolved : String → Reason
  already_exists_matches already_exists_updated : Reason

-- the counters of the summary
pub data Counter : Type 0 where
  count_planned count_created count_updated count_deleted count_unchanged count_errors : Counter

-- what the code decides on one record of the plan: its result, and the counter that goes up
pub record Verdict : Type 0 where
  pub outcome : Outcome
  pub reason : Reason
  pub counter : Counter

pub record Summary : Type 0 where
  pub planned : ℕ
  pub created : ℕ
  pub updated : ℕ
  pub deleted : ℕ
  pub unchanged : ℕ
  pub errors : ℕ

unfoldable pub count : Counter → Summary → Summary
count count_planned s = record s { planned = suc s.planned }
count count_created s = record s { created = suc s.created }
count count_updated s = record s { updated = suc s.updated }
count count_deleted s = record s { deleted = suc s.deleted }
count count_unchanged s = record s { unchanged = suc s.unchanged }
count count_errors s = record s { errors = suc s.errors }

abbrev pub failed : Reason → Verdict
failed reason = record { outcome = error; reason = reason; counter = count_errors }

abbrev pub as_is : Reason → Verdict
as_is reason = record { outcome = unchanged; reason = reason; counter = count_unchanged }

abbrev pub done : Outcome → Reason → Counter → Verdict
done outcome reason counter = record { outcome = outcome; reason = reason; counter = counter }

-- A record of the plan as the code reads it; `fields` is the record itself.
pub record Target : Type 0 where
  pub action : String
  pub zone_key : ZoneKey
  pub relative_name : String
  pub record_type : String
  pub desired_values : List String
  pub fields : Fields

unfoldable pub texts_of : Web → List Value → List String
texts_of web [] = []
texts_of web (v ∷ vs) = text web v ∷ texts_of web vs

unfoldable pub read_target : Web → Fields → Option Target
unfolding stripped type_of normalize_dns_name lower strip sorted_set texts_of iterate get_or
read_target web fields = elim (iterate (get_or fields "values" (list nil))) [
  | none ↦ none
  | some values ↦ some (record {
    action = lower (strip (text web (get_or fields "action" (str "ensure"))));
    zone_key = record {
      token_group = stripped web fields "token_group";
      zone = normalize_dns_name (text web (get_or fields "zone" (str "")));
    };
    relative_name = stripped web fields "relative_name";
    record_type = type_of web fields;
    desired_values = sorted_set (texts_of web values);
    fields = fields;
  })
]

unfoldable pub same_texts : List String → List String → Bool
same_texts [] [] = true
same_texts [] (_ ∷ _) = false
same_texts (_ ∷ _) [] = false
same_texts (s ∷ ss) (t ∷ ts) = s == t && same_texts ss ts

-- the types of the record sets that stand under a name of a zone
unfoldable pub current_types : Target → Records → List String
unfolding same_zone
current_types target [] = []
current_types target ((key, _) ∷ records) =
    let rest = current_types target records in
    if same_zone key.zone_key target.zone_key && key.relative_name == target.relative_name
    then key.record_type ∷ rest
    else rest

-- a CNAME beside another type
unfoldable pub conflicts : String → String → Bool
conflicts record_type current_type =
    (record_type == "CNAME" && not (current_type == "CNAME"))
    || (not (record_type == "CNAME") && current_type == "CNAME")

unfoldable pub has_type_conflict : Target → List String → Bool
unfolding conflicts
has_type_conflict target types =
    not (target.action == "delete") && any (conflicts target.record_type) types

abbrev pub key_of : Target → RecordKey
key_of target = record {
  zone_key = target.zone_key;
  relative_name = target.relative_name;
  record_type = target.record_type;
}

-- `apply and fixture is None`
unfoldable pub is_live : Options → Bool
is_live options = elim options.fixture [ none ↦ options.apply | some _ ↦ false ]

module _ (web : Web) (options : Options) where
  -- what is reported of a change that is not made
  abbrev pub not_made : Outcome → Outcome → Dns Verdict
  not_made applied planned =
      pure (done (if options.apply then applied else planned) no_reason count_planned)

  unfoldable pub delete_existing : Zone → Current → Bool → Dns Verdict
  unfolding delete_rrset try_except sanitize_provider_error
  delete_existing zone existing false = not_made deleted planned_delete
  delete_existing zone existing true =
      try_except
        (do
          delete_rrset web options.endpoint zone.api_token zone.id existing.id
          pure (done deleted no_reason count_deleted))
        (λ message. pure (failed (provider_delete_failed (sanitize_provider_error message))))

  unfoldable pub apply_delete : Bool → Zone → Option Current → Dns Verdict
  unfolding delete_existing is_live
  apply_delete false zone existing = pure (failed delete_not_allowed)
  apply_delete true zone none = pure (as_is already_absent)
  apply_delete true zone (some existing) = delete_existing zone existing (is_live options)

  unfoldable pub update_existing : Zone → Target → Bool → Dns Verdict
  unfolding update_rrset try_except sanitize_provider_error
  update_existing zone target false = not_made updated planned_update
  update_existing zone target true =
      try_except
        (do
          update_rrset web options.endpoint zone.api_token zone.id target.fields
          pure (done updated no_reason count_updated))
        (λ message. pure (failed (provider_update_failed (sanitize_provider_error message))))

  -- The provider says that the record set exists: what is there now is compared and updated.
  unfoldable pub resolve_conflict : Zone → Target → String → Option Current → Dns Verdict
  unfolding update_rrset try_except sanitize_provider_error same_texts
  resolve_conflict zone target message none =
      pure (failed (provider_create_conflict_unresolved (sanitize_provider_error message)))
  resolve_conflict zone target message (some latest) =
      if same_texts latest.values target.desired_values
      then pure (as_is already_exists_matches)
      else try_except
          (do
            update_rrset web options.endpoint zone.api_token zone.id target.fields
            pure (done updated already_exists_updated count_updated))
          (λ error_text. pure (
            failed
              (provider_update_after_create_conflict_failed (sanitize_provider_error error_text))))

  unfoldable pub look_again : Zone → Target → String → Dns Verdict
  unfolding find_current_record resolve_conflict
  look_again zone target message = do
    latest ←
        find_current_record web options zone.api_token zone.id target.relative_name
          target.record_type
    resolve_conflict zone target message latest

  unfoldable pub create_failed : Zone → Target → String → Dns Verdict
  unfolding is_already_exists_error look_again sanitize_provider_error
  create_failed zone target message =
      if is_already_exists_error message
      then look_again zone target message
      else pure (failed (provider_create_failed (sanitize_provider_error message)))

  unfoldable pub create_missing : Zone → Target → Bool → Dns Verdict
  unfolding create_rrset try_except create_failed
  create_missing zone target false = not_made created planned_create
  create_missing zone target true =
      try_except
        (do
          create_rrset web options.endpoint zone.api_token zone.id target.fields
          pure (done created no_reason count_created))
        (create_failed zone target)

  unfoldable pub apply_ensure : Zone → Target → Option Current → Dns Verdict
  unfolding same_texts update_existing create_missing is_live
  apply_ensure zone target none = create_missing zone target (is_live options)
  apply_ensure zone target (some existing) =
      if same_texts existing.values target.desired_values
      then pure (as_is no_reason)
      else update_existing zone target (is_live options)

  unfoldable pub apply_in_zone : Target → Records → Option Zone → Dns Verdict
  unfolding current_types has_type_conflict apply_delete apply_ensure find same_record sorted_set
  apply_in_zone target current none = pure (failed zone_not_found)
  apply_in_zone target current (some zone) =
      let types = current_types target current in
      let existing = find same_record (key_of target) current in
      if has_type_conflict target types
      then pure (failed (existing_rrset_type_conflict (sorted_set types)))
      else if target.action == "delete"
      then apply_delete options.allow_delete zone existing
      else apply_ensure zone target existing

  unfoldable pub apply_target : Zones → Records → Target → Dns Verdict
  unfolding apply_in_zone find same_zone
  apply_target zones current target =
      apply_in_zone target current (find same_zone target.zone_key zones)

-- The actions, each with the record that it is about, and the counters.
pub record Report : Type 0 where
  pub actions : List (Target × Verdict)
  pub summary : Summary

unfoldable pub add_action : Target → Verdict → Report → Report
unfolding count
add_action target verdict report = record {
  actions = report.actions ++ ((target, verdict) ∷ []);
  summary = count verdict.counter report.summary;
}

abbrev pub nothing_done : Report
nothing_done = record {
  actions = [];
  summary = record {
    planned = 0;
    created = 0;
    updated = 0;
    deleted = 0;
    unchanged = 0;
    errors = 0;
  };
}

module _ (web : Web) (options : Options) where
  unfoldable pub apply_fields : Zones → Records → Fields → Report → Dns Report
  unfolding read_target apply_target add_action
  apply_fields zones current fields report = do
    target ← or_uncaught (read_target web fields)
    verdict ← apply_target web options zones current target
    pure (add_action target verdict report)

  -- the loop over the records of the plan; what is no mapping is skipped
  unfoldable pub apply_records : Zones → Records → List Value → Report → Dns Report
  unfolding apply_fields as_dict
  apply_records zones current [] report = pure report
  apply_records zones current (v ∷ vs) report = elim (as_dict v) [
    | none ↦ apply_records zones current vs report
    | some fields ↦ do
      next ← apply_fields zones current fields report
      apply_records zones current vs next
  ]

  unfoldable pub apply_dns_plan : Fields → List TokenGroup → Dns Report
  unfolding zone_lookup current_record_lookup apply_records iterate get_or
  apply_dns_plan plan groups = do
    zones ← zone_lookup web options groups
    current ← current_record_lookup web options groups zones
    records ← or_uncaught (iterate (get_or plan "records" (list nil)))
    apply_records zones current records nothing_done
