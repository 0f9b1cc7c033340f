-- ===== src/Backup/Tests.antt =====
-- A policy that covers each class of services once, and one with a class twice.
use rfc_codex_gentoo_stage.Prelude.{String, false, List, [], ◌∷◌, ◌≡◌, refl}
use rfc_codex_gentoo_stage.Value.{
  Value, bool, str, list, dict, Items, nil, cons, Fields, field, end, get,
}
use rfc_codex_gentoo_stage.Backup.Policy.{
  Validation, validate_policy, duplicate_class, required_service_classes,
}
use rfc_codex_gentoo_stage.Backup.Covered.{Covers, validate_policy-Covers}

abbrev str_of : Value → String
str_of v = "?"

abbrev validations : Value
validations = list (cons (str "disposable_restore") (cons (str "offline_image_inspection") nil))

abbrev entry : String → Value
entry name = dict (
    field "service_class" (str name) (
      field "backup_method" (str "snapshot")
        (field "cadence" (str "daily") (field "restore_validation" validations end))))

abbrev entries : List String → Items
entries [] = nil
entries (name ∷ names) = cons (entry name) (entries names)

abbrev policy : List String → Fields
policy names = field "policy_id" (str "rfc1918.hasslehoff.backup-policy.v1") (
    field "external_target_id" (str "nasa-m70-nfs-relay") (
      field "external_target" (dict (field "x12again_allowed" (bool false) end)) (
        field "notification" (dict (field "ntfy_topic" (str "forge-ops") end)) (
          field "schedule_policy"
            (dict (
              field "config_state" (dict (field "class_id" (str "hasslehoff-config-state") end))
                end))
            (field "restore_validation" (dict (field "vm_lxc_required" validations end))
              (field "vm_lxc_coverage" (list (entries names)) end))))))

no_error : Validation.errors (validate_policy str_of (policy required_service_classes)) ≡ []
unfolding validate_policy
no_error = refl

seven_services :
    Validation.vm_lxc_services (validate_policy str_of (policy required_service_classes)) ≡ 7
unfolding validate_policy
seven_services = refl

twice_netbox :
    Validation.errors (validate_policy str_of (policy ("netbox" ∷ required_service_classes)))
    ≡ duplicate_class "netbox" ∷ []
unfolding validate_policy
twice_netbox = refl

validate_policy-Covers_example :
    (vs : Items) × (get (policy required_service_classes) "vm_lxc_coverage" ≡ list vs)
    × Covers [] vs
validate_policy-Covers_example =
    validate_policy-Covers str_of (policy required_service_classes) no_error
