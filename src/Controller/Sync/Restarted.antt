-- ===== src/Controller/Sync/Restarted.antt =====
-- The sync of a local job whose pod has failed.
use kubeflow_controller.Common.{
  String, true, false, none, some, [], ◌∷◌, ◌++◌, ◌≡◌, ◌⊎◌, inl, inr, ap, ◌∙◌, str_eq, if_false,
}
use kubeflow_controller.Common.Int.{pos}
use kubeflow_controller.Common.Map.{insert}
use kubeflow_controller.Common.Outcome.{ok, fail, Err}
use kubeflow_controller.Api.{Pod, TfJob, set_phase, set_statuses}
use kubeflow_controller.Checker.{tf_replica_local, is_local_job}
use kubeflow_controller.Platform.{Platform, Sync}
use kubeflow_controller.Platform.Cluster.{Session, create_pod, update_job}
use kubeflow_controller.Platform.Expectations.{ExpectationsLaws}
use kubeflow_controller.Tensorflow.Local.Needs.{HasTemplate}
use kubeflow_controller.Controller.Util.{new_controller_ref, pod_succeeded}
use kubeflow_controller.Controller.Helper.{get_pods_for_tf_job}
use kubeflow_controller.Controller.Helper.Patches.{pod_patches}
use kubeflow_controller.Controller.Manage.Settled.{succeeded_one}
use kubeflow_controller.Controller.Manage.Started.{started, template_of}
use kubeflow_controller.Controller.Sync.{sync_job}
use kubeflow_controller.Controller.Sync.Asked.{HasNoActivePod, sync_job-Asked}
use kubeflow_controller.Controller.Sync.Settled.{update_one}
use kubeflow_controller.Updater.Distributed.{tf_job_running}

-- One pod is claimed for the job; it is not active, and it has not succeeded. Filtering no pods gives none.
pub record HasDeadPod (p : Platform) (job : TfJob) (s : Session p.cluster) (pod : Pod)
    : Type 0 where
  pub after : Session p.cluster
  pub listed : get_pods_for_tf_job p job tf_replica_local s ≡ (ok (pod ∷ []), after)
  pub inactive : p.machinery.filter_active_pods (pod ∷ []) ≡ []
  pub filter_none : p.machinery.filter_active_pods [] ≡ []
  pub unsuccessful : str_eq pod_succeeded pod.phase ≡ false

abbrev with_dead_pod :
    (p : Platform) (job : TfJob) (s : Session p.cluster) (pod : Pod)
    → HasDeadPod p job s pod
    → HasNoActivePod p job s
with_dead_pod p job s pod dead = record {
  pods = pod ∷ [];
  after = dead.after;
  listed = dead.listed;
  inactive = dead.inactive;
  filter_none = dead.filter_none;
  unfinished = succeeded_one pod ∙ if_false _ _ dead.unsuccessful;
}

-- The status of a local job whose pod is replaced: it runs, and the dead pod is counted.
abbrev pub replaced : Pod → TfJob → TfJob
replaced pod job =
    set_statuses
      (some (record {
        typ = some tf_replica_local;
        state = "";
        tf_replicas_states = insert pod.phase 1 [];
      })
        ∷ [])
      (set_phase tf_job_running job)

-- The sync of a local job whose only pod is dead, that is, neither active nor succeeded, while its
-- expectations are met and it is not being deleted, asks for exactly one pod in its place, whatever the
-- phase of the job was: under a new runtime ID, and with the
-- labels by which the job looks for its pods from then on. If the API server takes it, the
-- job is Running, its status counts the dead pod, which is sent as an update, and it waits for one creation.
-- If it refuses, its error is the result, the status is left, and the job waits for no creation, but it has
-- the new runtime ID. Beside the patches with which ClaimPods adopts and releases pods, which come
-- first, nothing else is sent. The job has a type and a template in its first spec, and a key.
pub sync_job-restarts :
    (p : Platform) (job : TfJob) (s : Sync p) (pod : Pod) {key : String} (h : HasTemplate job)
    (dead : HasDeadPod p job s.session pod)
    → ExpectationsLaws p.expectations
    → is_local_job job ≡ ok true
    → p.machinery.key_func job.metadata ≡ ok key
    → job.metadata.deletion_timestamp ≡ none
    → let id = (p.names.generate "" s.gen).0 in
      let asked =
        create_pod job.metadata.namespace (template_of p job h id) (new_controller_ref job) in
      let answer = (p.cluster.respond asked dead.after.world).0 in
      let composed = started p job h id in
      let update = update_job job.metadata.namespace (replaced pod composed) in
      let claims = pod_patches p job tf_replica_local s.session.world in
      let (r, (job', s')) = sync_job p true (job, s) in
      let left = p.expectations.pending key s'.store in
      (job'.spec.runtime_id ≡ id)
      × (((answer ≡ none)
            × (job' ≡ replaced pod composed)
            × (s'.session.calls ≡ s.session.calls ++ claims ++ asked ∷ (update ∷ []))
            × (left ≡ some (pos 1)))
          ⊎ ((e : Err) × (answer ≡ some e)
              × (r ≡ fail e)
              × (job' ≡ composed)
              × (s'.session.calls ≡ s.session.calls ++ claims ++ asked ∷ [])
              × (left ≡ some (pos 0))))
unfolding new_controller_ref
sync_job-restarts p job s pod h dead laws kind made alive =
    let id = (p.names.generate "" s.gen).0 in
    let course =
      sync_job-Asked p job s h kind made alive (with_dead_pod p job s.session pod dead) laws
        (update_one p (started p job h id) pod (pos 0)) in
    (
      elim course [
        | inl (_, same, _, _) ↦ ap (λ job. job.spec.runtime_id) same
        | inr (_, _, _, same, _, _) ↦ ap (λ job. job.spec.runtime_id) same
      ],
      course,
    )
