-- ===== src/Controller/Manage/Rounds.antt =====
-- One round of the loops of manageTFJob over pods: what it asks the API server for, and what a
-- refusal does to the expectations.
use kubeflow_controller.Common.{ℕ, String, Bool, none, some, List, [], ◌∷◌, ◌++◌, ◌≡◌, refl}
use kubeflow_controller.Common.Map.{Map}
use kubeflow_controller.Common.Outcome.{ok, fail, Err}
use kubeflow_controller.Api.{Container, PodTemplateSpec, TfJob}
use kubeflow_controller.Platform.{Platform, Sync}
use kubeflow_controller.Platform.Cluster.{Call, create_pod}
use kubeflow_controller.Controller.Util.{new_controller_ref}
use kubeflow_controller.Tensorflow.Distributed.Spec.{DistributedJob}
use kubeflow_controller.Tensorflow.Distributed.Compose.{IsDistributed}
use kubeflow_controller.Tensorflow.Distributed.Prepare.{
  type_of, template_of, retemplated, prepared, get_spec_lem,
}
use kubeflow_controller.Controller.Manage.{add_pod, observe}

-- A distributed job whose template of the type has labels and a container.
pub record IsReady (b w : Bool) (dj : DistributedJob) : Type 0 where
  pub distributed : IsDistributed b dj.tf_job
  pub labels : Map String
  pub container : Container
  pub containers : List Container
  pub labels_lem : (template_of b w distributed).labels ≡ some labels
  pub containers_lem : (template_of b w distributed).containers ≡ container ∷ containers

module _ (b w : Bool) (dj : DistributedJob) (h : IsReady b w dj) (i : ℕ) where
  -- The template of the i-th pod, and the job and the request that carry it.
  abbrev pub pod_template : PodTemplateSpec
  pod_template = prepared b w dj h.distributed h.labels h.container h.containers i

  abbrev pub pod_job : TfJob
  pod_job = retemplated b w dj.tf_job h.distributed pod_template

  abbrev pub pod_call : Call
  pod_call = create_pod dj.tf_job.metadata.namespace pod_template (new_controller_ref dj.tf_job)

module _ (p : Platform) where
  -- The session after a request.
  abbrev pub asked : Call → Sync p → Sync p
  asked call sy = record sy {
    session = record {
      world = (p.cluster.respond call sy.session.world).1;
      calls = sy.session.calls ++ call ∷ [];
    };
  }

  module _ (b w : Bool) (key : String) (i : ℕ) (dj : DistributedJob) (sy : Sync p) where
    pub add_pod-created :
        (h : IsReady b w dj)
        → (p.cluster.respond (pod_call b w dj h i) sy.session.world).0 ≡ none
        → add_pod p key (type_of w) i (dj, sy)
          ≡ (ok tt, (record dj { tf_job = pod_job b w dj h i }, asked (pod_call b w dj h i) sy))
    unfolding add_pod
    add_pod-created h e =
        let (spec, got, t) = get_spec_lem b w dj h.distributed i h.labels_lem h.containers_lem in
        rw (got, add_pod) (rw (t, add_pod) (rw (e, add_pod) refl))

    pub add_pod-refused :
        {x : Err} (h : IsReady b w dj)
        → (p.cluster.respond (pod_call b w dj h i) sy.session.world).0 ≡ some x
        → add_pod p key (type_of w) i (dj, sy) ≡ (
          fail x,
          (
            record dj { tf_job = pod_job b w dj h i },
            observe p key (asked (pod_call b w dj h i) sy),
          ),
        )
    unfolding add_pod
    add_pod-refused h e =
        let (spec, got, t) = get_spec_lem b w dj h.distributed i h.labels_lem h.containers_lem in
        rw (got, add_pod) (rw (t, add_pod) (rw (e, add_pod) refl))
