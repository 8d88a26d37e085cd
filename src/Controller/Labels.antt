-- ===== src/Controller/Labels.antt =====
-- pkg/controller/helper.go: the MatchLabels by which the pods and the services of a job are found,
-- the same in GetPodsForTFJob and GetServicesForTFJob.
pub mod Apart
use kubeflow_controller.Common.{String, [], ◌∷◌}
use kubeflow_controller.Common.Map.{Map}
use kubeflow_controller.Api.{TfJob}

unfoldable pub match_labels : TfJob → String → Map String
match_labels job typ =
    ("kubeflow.caicloud.io", "true")
    ∷ ("job_type", typ)
    ∷ ("runtime_id", job.spec.runtime_id)
    ∷ ("tf_job_name", job.metadata.name)
    ∷ []
