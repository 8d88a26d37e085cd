-- ===== src/Controller/Util.antt =====
-- pkg/controller/util.go
use kubeflow_controller.Common.{ℕ, suc, String, true, some, List, [], ◌∷◌, str_eq, if◌then◌else◌}
use kubeflow_controller.Common.Int.{ℤ, pos, int32}
use kubeflow_controller.Api.{OwnerReference, Pod, TfJob}

-- v1.PodSucceeded and v1.PodFailed
abbrev pub pod_succeeded : String
pod_succeeded = "Succeeded"

abbrev pub pod_failed : String
pod_failed = "Failed"

-- The number of pods in a phase.
unfoldable pub filter_pods : List Pod → String → ℕ
filter_pods [] phase = 0
filter_pods (pod ∷ pods) phase =
    let rest = filter_pods pods phase in if str_eq phase pod.phase then suc rest else rest

-- The succeeded and the failed pods, as int32.
unfoldable pub get_status : List Pod → ℤ × ℤ
unfolding filter_pods
get_status pods =
    (int32 (pos (filter_pods pods pod_succeeded)), int32 (pos (filter_pods pods pod_failed)))

-- groupVersionKind: its GroupVersion().String() and its Kind
abbrev pub group_version : String
group_version = "kubeflow.caicloud.io/v1alpha1"

abbrev pub group_kind : String
group_kind = "TFJob"

unfoldable pub new_controller_ref : TfJob → OwnerReference
new_controller_ref job = record {
  api_version = group_version;
  kind = group_kind;
  name = job.metadata.name;
  uid = job.metadata.uid;
  controller = some true;
  block_owner_deletion = some true;
}
