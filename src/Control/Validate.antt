-- ===== src/Control/Validate.antt =====
-- pkg/controller/control/util.go
use kubeflow_controller.Common.{Bool, true, Option, none, some, str_eq, not, if◌then◌else◌}
use kubeflow_controller.Common.Outcome.{
  Outcome, ok, fail, errorf, controller_ref_nil, controller_ref_empty_api_version,
  controller_ref_empty_kind, controller_ref_not_controller, controller_ref_not_blocking,
}
use kubeflow_controller.Api.{OwnerReference}

-- p == nil || *p != true
abbrev pub is_unset : Option Bool → Bool
is_unset none = true
is_unset (some b) = not b

unfoldable pub validate_controller_ref : Option OwnerReference → Outcome (Unit {0})
validate_controller_ref none = fail (errorf controller_ref_nil)
validate_controller_ref (some ref) =
    if str_eq ref.api_version ""
    then fail (errorf controller_ref_empty_api_version)
    else if str_eq ref.kind ""
    then fail (errorf controller_ref_empty_kind)
    else if is_unset ref.controller
    then fail (errorf controller_ref_not_controller)
    else if is_unset ref.block_owner_deletion
    then fail (errorf controller_ref_not_blocking)
    else ok tt
