-- ===== src/Backup/Policy.antt =====
-- `validate_policy` of scripts/validate-hasslehoff-backup-policy.py. An error is data in place of its message.
use rfc_codex_gentoo_stage.Prelude.{
  ℕ, suc, length, String, Bool, true, false, not, List, [], ◌∷◌, ◌++◌, Option, none, some, ◌==◌,
  if◌then◌else◌,
}
use rfc_codex_gentoo_stage.Text.{is_empty}
use rfc_codex_gentoo_stage.Value.{
  Value, bool, str, list, Items, nil, cons, Fields, end, get, get_or, as_dict, as_str, text_by,
}
use rfc_codex_gentoo_stage.Sorted.{sorted_set}
use rfc_codex_gentoo_stage.Dns.Records.{contains}
use rfc_codex_gentoo_stage.Firstboot.Bundle.{text_is}

-- where an error stands: the policy itself, or an entry of `vm_lxc_coverage`
pub data Place : Type 0 where
  in_policy : Place
  in_entry : ℕ → Place

pub data Error : Type 0 where
  wrong_policy_id wrong_target_id : Error
  no_target no_notification no_schedule no_config_state no_restore no_coverage : Error
  x12again_not_false wrong_topic wrong_class_id : Error
  restore_no_list : Place → Error
  restore_missing : Place → List String → Error
  entry_no_mapping no_service_class : ℕ → Error
  duplicate_class : String → Error
  no_text : ℕ → String → Error
  missing_services unexpected_services : List String → Error

-- in the order of their names
abbrev pub required_service_classes : List String
required_service_classes =
    "container-services" ∷ "freeipa" ∷ "netboot-publisher" ∷ "netbox" ∷ "observability"
    ∷ "syslog-search" ∷ "workstation-validation" ∷ []

abbrev pub required_validations : List String
required_validations = "disposable_restore" ∷ "offline_image_inspection" ∷ []

abbrev pub error_if : Bool → Error → List Error
error_if true error = error ∷ []
error_if false error = []

-- the error of names, if there are any
abbrev pub error_of : (List String → Error) → List String → List Error
error_of error [] = []
error_of error (name ∷ names) = error (name ∷ names) ∷ []

-- `xs - ys`
unfoldable pub without : List String → List String → List String
unfolding contains
without [] ys = []
without (x ∷ xs) ys = let rest = without xs ys in if contains x ys then rest else x ∷ rest

-- `xs & ys`
unfoldable pub common : List String → List String → List String
unfolding contains
common [] ys = []
common (x ∷ xs) ys = let rest = common xs ys in if contains x ys then x ∷ rest else rest

-- the texts among the values
unfoldable pub texts_in : Items → List String
unfolding as_str
texts_in nil = []
texts_in (cons v vs) = let rest = texts_in vs in elim (as_str v) [ none ↦ rest | some s ↦ s ∷ rest ]

unfoldable pub validate_restore_validation : Value → Place → List Error
unfolding texts_in without sorted_set
validate_restore_validation (list vs) place =
    error_of (restore_missing place) (sorted_set (without required_validations (texts_in vs)))
validate_restore_validation v place = restore_no_list place ∷ []

abbrev is_false : Value → Bool
is_false (bool false) = true
is_false v = false

unfoldable pub require_bool_false : Value → List Error
require_bool_false v = error_if (not (is_false v)) x12again_not_false

abbrev or_end : Option Fields → Fields
or_end none = end
or_end (some fields) = fields

abbrev pub is_none : Option Fields → Bool
is_none none = true
is_none (some fields) = false

unfoldable pub target_errors : Value → List Error
unfolding require_bool_false as_dict get
target_errors target =
    error_if (is_none (as_dict target)) no_target
    ++ require_bool_false (get (or_end (as_dict target)) "x12again_allowed")

abbrev pub notification_errors : Option Fields → List Error
notification_errors none = no_notification ∷ []
notification_errors (some notification) =
    error_if (not (text_is (get notification "ntfy_topic") "forge-ops")) wrong_topic

abbrev pub config_errors : Option Fields → List Error
config_errors none = no_config_state ∷ []
config_errors (some config) =
    error_if (not (text_is (get config "class_id") "hasslehoff-config-state")) wrong_class_id

abbrev pub schedule_errors : Option Fields → List Error
schedule_errors none = no_schedule ∷ []
schedule_errors (some schedule) = config_errors (as_dict (get schedule "config_state"))

abbrev pub restore_errors : Option Fields → List Error
restore_errors none = no_restore ∷ []
restore_errors (some restore) =
    validate_restore_validation (get restore "vm_lxc_required") in_policy

-- `isinstance(v, str) and v`: the text, if there is one
unfoldable pub filled_text : Value → Option String
unfolding as_str
filled_text v = elim (as_str v) [ none ↦ none | some s ↦ if is_empty s then none else some s ]

abbrev no_filled : Option String → Bool
no_filled none = true
no_filled (some s) = false

unfoldable pub text_errors : ℕ → Fields → String → List Error
unfolding filled_text get
text_errors index entry key = error_if (no_filled (filled_text (get entry key))) (no_text index key)

-- the errors of an entry with a class, behind those of its class
unfoldable pub entry_errors : ℕ → Fields → List Error
unfolding text_errors validate_restore_validation get
entry_errors index entry =
    text_errors index entry "backup_method"
    ++ text_errors index entry "cadence"
    ++ validate_restore_validation (get entry "restore_validation") (in_entry index)

abbrev pub with_class : String → List String → List String
with_class name observed = if contains name observed then observed else name ∷ observed

abbrev pub class_errors : ℕ → Fields → List String → Option String → List Error
class_errors index entry observed none = no_service_class index ∷ []
class_errors index entry observed (some name) =
    error_if (contains name observed) (duplicate_class name) ++ entry_errors index entry

abbrev pub observe : Option String → List String → List String
observe none observed = observed
observe (some name) observed = with_class name observed

abbrev pub entry_problems : ℕ → Option Fields → List String → List Error
entry_problems index none observed = entry_no_mapping index ∷ []
entry_problems index (some entry) observed =
    class_errors index entry observed (filled_text (get entry "service_class"))

abbrev pub observe_entry : Option Fields → List String → List String
observe_entry none observed = observed
observe_entry (some entry) observed = observe (filled_text (get entry "service_class")) observed

-- the loop over `vm_lxc_coverage`, with the classes that it has observed
unfoldable pub validate_entries : ℕ → Items → List String → List Error × List String
unfolding contains filled_text entry_errors as_dict get
validate_entries index nil observed = ([], observed)
validate_entries index (cons v vs) observed =
    let (errors, last) = validate_entries (suc index) vs (observe_entry (as_dict v) observed) in
    (entry_problems index (as_dict v) observed ++ errors, last)

-- the classes that are missing and those that are not wanted
unfoldable pub service_errors : List String → List Error
unfolding sorted_set without
service_errors observed =
    error_of missing_services (sorted_set (without required_service_classes observed))
    ++ error_of unexpected_services (sorted_set (without observed required_service_classes))

pub record Validation : Type 0 where
  pub policy_id : String
  pub external_target_id : String
  pub vm_lxc_services : ℕ
  pub errors : List Error

-- the part behind the check that the coverage is a list
unfoldable pub coverage_errors : Value → List Error × ℕ
unfolding validate_entries service_errors common
coverage_errors (list vs) =
    let (errors, observed) = validate_entries 0 vs [] in
    (errors ++ service_errors observed, length (common observed required_service_classes))
coverage_errors v = (no_coverage ∷ [], 0)

module _ (str_of : Value → String) where
  unfoldable pub validate_policy : Fields → Validation
  unfolding target_errors as_dict get get_or text_by text_is coverage_errors
      validate_restore_validation
  validate_policy policy =
      let policy_id = text_by str_of (get_or policy "policy_id" (str "")) in
      let target_id = text_by str_of (get_or policy "external_target_id" (str "")) in
      let (coverage, services) = coverage_errors (get policy "vm_lxc_coverage") in
      record {
        policy_id = policy_id;
        external_target_id = target_id;
        vm_lxc_services = services;
        errors =
            error_if (not (policy_id == "rfc1918.hasslehoff.backup-policy.v1")) wrong_policy_id
            ++ error_if (not (target_id == "nasa-m70-nfs-relay")) wrong_target_id
            ++ target_errors (get policy "external_target")
            ++ notification_errors (as_dict (get policy "notification"))
            ++ schedule_errors (as_dict (get policy "schedule_policy"))
            ++ restore_errors (as_dict (get policy "restore_validation"))
            ++ coverage;
      }
