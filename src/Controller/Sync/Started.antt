-- ===== src/Controller/Sync/Started.antt =====
-- The sync of a local job that has no pod yet.
use kubeflow_controller.Common.{
  String, true, none, some, [], ◌∷◌, ◌++◌, ◌≡◌, ◌⊎◌, refl, not, str_eq, if◌then◌else◌,
}
use kubeflow_controller.Common.Int.{pos, int32}
use kubeflow_controller.Common.Outcome.{ok, fail, Err}
use kubeflow_controller.Api.{TfJob, set_phase}
use kubeflow_controller.Checker.{tf_replica_local, is_local_job}
use kubeflow_controller.Platform.{Platform, Sync}
use kubeflow_controller.Platform.Cluster.{Session, create_pod, update_job}
use kubeflow_controller.Platform.Expectations.{ExpectationsLaws}
use kubeflow_controller.Tensorflow.Local.Needs.{HasTemplate}
use kubeflow_controller.Controller.Util.{get_status, new_controller_ref}
use kubeflow_controller.Controller.Helper.{get_pods_for_tf_job}
use kubeflow_controller.Controller.Helper.Patches.{pod_patches}
use kubeflow_controller.Controller.Manage.Started.{started, template_of}
use kubeflow_controller.Controller.Sync.{sync_job}
use kubeflow_controller.Updater.Distributed.{tf_job_running}
use kubeflow_controller.Updater.Single.{update_local-none}
use kubeflow_controller.Controller.Sync.Asked.{HasNoActivePod, sync_job-Asked}

-- Nothing is there for the job: no pod is claimed, and filtering no pods gives none.
pub record HasNoPod (p : Platform) (job : TfJob) (s : Session p.cluster) : Type 0 where
  pub after : Session p.cluster
  pub listed : get_pods_for_tf_job p job tf_replica_local s ≡ (ok [], after)
  pub filter_none : p.machinery.filter_active_pods [] ≡ []

none_unfinished : (get_status []).0 ≡ pos 0
unfolding get_status int32
none_unfinished = refl

abbrev without_pods :
    (p : Platform) (job : TfJob) (s : Session p.cluster) → HasNoPod p job s → HasNoActivePod p job s
without_pods p job s nothing = record {
  pods = [];
  after = nothing.after;
  listed = nothing.listed;
  inactive = nothing.filter_none;
  filter_none = nothing.filter_none;
  unfinished = none_unfinished;
}

-- The sync of a local job that has no pod, while its expectations are met and it is not being deleted,
-- asks for exactly one pod: in its namespace, with its controllerRef, and with the labels by which the job,
-- under the runtime ID that was generated for it, looks for its pods. If the API server takes it, the
-- job is Running, which is sent as an update unless it was so before, and waits for one creation. If
-- it refuses, its error is the result, the job is not updated, and it waits for no creation.
-- Beside the patches with which ClaimPods adopts and releases pods, which come first, nothing else is
-- sent. The job has a type and a template in its first spec, and a key.
pub sync_job-starts :
    (p : Platform) (job : TfJob) (s : Sync p) {key : String} (h : HasTemplate job)
    (nothing : HasNoPod p job s.session)
    → ExpectationsLaws p.expectations
    → is_local_job job ≡ ok true
    → p.machinery.key_func job.metadata ≡ ok key
    → job.metadata.deletion_timestamp ≡ none
    → let id = (p.names.generate "" s.gen).0 in
      let pod =
        create_pod job.metadata.namespace (template_of p job h id) (new_controller_ref job) in
      let answer = (p.cluster.respond pod nothing.after.world).0 in
      let composed = started p job h id in
      let running = set_phase tf_job_running composed in
      let update = update_job job.metadata.namespace running in
      let claims = pod_patches p job tf_replica_local s.session.world in
      let (r, (job', s')) = sync_job p true (job, s) in
      let left = p.expectations.pending key s'.store in
      ((answer ≡ none)
        × (job' ≡ running)
        × (s'.session.calls
            ≡ s.session.calls
              ++ claims
              ++ pod ∷ (if not (str_eq job.status.phase tf_job_running) then update ∷ [] else []))
        × (left ≡ some (pos 1)))
      ⊎ ((e : Err) × (answer ≡ some e)
          × (r ≡ fail e)
          × (job' ≡ composed)
          × (s'.session.calls ≡ s.session.calls ++ claims ++ pod ∷ [])
          × (left ≡ some (pos 0)))
unfolding new_controller_ref
sync_job-starts p job s h nothing laws kind made alive =
    sync_job-Asked p job s h kind made alive (without_pods p job s.session nothing) laws
      (update_local-none (started p job h (p.names.generate "" s.gen).0) (pos 0))
