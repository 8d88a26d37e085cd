-- ===== src/Controller/Sync/Forgotten.antt =====
-- What the replacement of a worker makes of the services that the job has.
use kubeflow_controller.Common.{
  if◌then◌else◌, ◌<◌, length, String, Bool, true, false, some, none, List, [], ◌∷◌, ◌++◌, ◌≡◌, ◌≢◌,
  refl, ap, sym, ◌∙◌,
}
use mathlib.Core.List.{append_assoc}
use kubeflow_controller.Common.Int.{pos_part}
use kubeflow_controller.Common.Map.{Map}
use kubeflow_controller.Common.Outcome.{ok}
use kubeflow_controller.Api.{OwnerReference, Service, TfJob}
use kubeflow_controller.Platform.{Platform}
use kubeflow_controller.Platform.Cluster.{Session, Call, patch_service}
use kubeflow_controller.Platform.Machinery.{SelectorLaws}
use kubeflow_controller.Ref.Service.{label_set, delete_owner_ref_patch}
use kubeflow_controller.Ref.Spec.{sent-calls}
use kubeflow_controller.Ref.Verdict.{is_claimed, patches, releases}
use kubeflow_controller.Tensorflow.Distributed.{action, expected_workers}
use kubeflow_controller.Tensorflow.Distributed.Spec.{DistributedJob}
use kubeflow_controller.Tensorflow.Distributed.Compose.{IsDistributed, worker_replicas}
use kubeflow_controller.Tensorflow.Distributed.Requests.{action_composes}
use kubeflow_controller.Controller.Labels.{match_labels}
use kubeflow_controller.Controller.Labels.Apart.{other_id-not_found}
use kubeflow_controller.Controller.Helper.{get_services_for_tf_job}
use kubeflow_controller.Controller.Helper.Services.{
  IsOpen, IsOpen-same_meta, manager, claimed_by, patches_by, get_services-sent,
}
use kubeflow_controller.Controller.Helper.Contended.{verdict_by, released}

if-cons {ℓ} :
    {A : Type ℓ} (b : Bool) (x : A) (xs ys : List A)
    → (if b then x ∷ (xs ++ ys) else (xs ++ ys)) ≡ (if b then x ∷ xs else xs) ++ ys
if-cons true x xs ys = refl
if-cons false x xs ys = refl

module _ (p : Platform) where
  open p use {machinery, cluster, names}

  -- The job controls the service and finds it by this selector.
  pub record IsFound (job : TfJob) (selector : Map String → Bool) (service : Service) : Type 0 where
    pub ref : OwnerReference
    pub owned : machinery.get_controller_of service.metadata ≡ some ref
    pub same : ref.uid ≡ job.metadata.uid
    pub found : selector (label_set service.metadata.labels) ≡ true

  -- The request that takes the job's controllerRef off the service.
  abbrev pub release_of : TfJob → (Map String → Bool) → Service → Call
  release_of job selector service =
      patch_service service.metadata.namespace service.metadata.name
        (delete_owner_ref_patch machinery cluster (manager p job selector) service.metadata)

  module _ (job job' : TfJob) (laws : SelectorLaws machinery) (typ typ' : String)
      {selector selector' : Map String → Bool}
      (made : machinery.label_selector (match_labels job typ) ≡ ok selector)
      (made' : machinery.label_selector (match_labels job' typ') ≡ ok selector')
      (renamed : job.spec.runtime_id ≢ job'.spec.runtime_id)
      (same_job : job'.metadata ≡ job.metadata)
      (stays : job.metadata.deletion_timestamp ≡ none) where
    released_now :
        (service : Service)
        → IsFound job selector service
        → verdict_by p job' selector' service ≡ releases
    released_now service f =
        released p job' selector' service (ap (λ meta. meta.deletion_timestamp) same_job ∙ stays)
          f.owned (f.same ∙ sym (ap (λ meta. meta.uid) same_job))
          (other_id-not_found machinery laws job job' typ typ' made made'
            (label_set service.metadata.labels) f.found renamed)

    -- Among other services, it is not claimed.
    claimed_without :
        (before : List Service) (service : Service) (after : List Service)
        → IsFound job selector service
        → claimed_by p job' selector' (before ++ service ∷ after)
          ≡ claimed_by p job' selector' before ++ claimed_by p job' selector' after
    claimed_without [] service after f =
        ap
          (λ v.
            if is_claimed v
            then service ∷ claimed_by p job' selector' after
            else claimed_by p job' selector' after)
          (released_now service f)
    claimed_without (other ∷ before) service after f =
        let b = is_claimed (verdict_by p job' selector' other) in
        ap (λ services. if b then other ∷ services else services)
          (claimed_without before service after f)
        ∙ if-cons b other (claimed_by p job' selector' before) (claimed_by p job' selector' after)

    patched_among :
        (before : List Service) (service : Service) (after : List Service)
        → IsFound job selector service
        → patches_by p job' selector' (before ++ service ∷ after)
          ≡ patches_by p job' selector' before
            ++ release_of job' selector' service ∷ patches_by p job' selector' after
    patched_among [] service after f =
        ap
          (λ v.
            patches machinery cluster (manager p job' selector') service.metadata v
            ++ patches_by p job' selector' after)
          (released_now service f)
    patched_among (other ∷ before) service after f =
        let first =
          patches machinery cluster (manager p job' selector') other.metadata
            (verdict_by p job' selector' other) in
        ap (λ calls. first ++ calls) (patched_among before service after f)
        ∙ sym (
            append_assoc first (patches_by p job' selector' before)
              (release_of job' selector' service ∷ patches_by p job' selector' after))

  -- When Action finds fewer active workers than are expected, so that it asks for some, the job loses
  -- every service that it had: one that it controlled and found by its labels of some type is, whatever
  -- other services are listed with it, and for whichever type the services are claimed afterwards, not
  -- claimed but released by a patch, while the claims and the patches of the others are as they would
  -- be without it. The runtime ID that is generated must differ from the job's; the job is not being
  -- deleted and may adopt, and the API server takes every patch.
  pub action_forgets :
      (b : Bool) (dj : DistributedJob) (gen : names.Gen) (h : IsDistributed b dj.tf_job)
      (typ typ' : String) {selector selector' : Map String → Bool} (before : List Service)
      (service : Service) (after : List Service) (s : Session cluster)
      → let job = dj.tf_job in
        let job' = (action names (dj, gen)).1.0.tf_job in
        IsOpen p job
        → SelectorLaws machinery
        → length dj.active_worker_pods < pos_part (expected_workers dj (worker_replicas b h))
        → job.spec.runtime_id ≢ (names.generate "" gen).0
        → job.metadata.deletion_timestamp ≡ none
        → machinery.label_selector (match_labels job typ) ≡ ok selector
        → machinery.label_selector (match_labels job' typ') ≡ ok selector'
        → IsFound job selector service
        → cluster.list_services job'.metadata.namespace s.world ≡ ok (before ++ service ∷ after)
        → let (r, s') = get_services_for_tf_job p job' typ' s in
          (r ≡ ok (claimed_by p job' selector' before ++ claimed_by p job' selector' after))
          × (s'.calls
              ≡ s.calls
                ++ (patches_by p job' selector' before
                    ++ release_of job' selector' service ∷ patches_by p job' selector' after))
  action_forgets b dj gen h typ typ' {selector} {selector'} before service after s is_open laws few
        fresh stays made made' found listing =
      let job = dj.tf_job in
      let job' = (action names (dj, gen)).1.0.tf_job in
      let e = action_composes names b dj gen h few in
      let renamed : job.spec.runtime_id ≢ job'.spec.runtime_id =
        λ same. fresh (same ∙ ap (λ job. job.spec.runtime_id) e) in
      let same_job : job'.metadata ≡ job.metadata = ap (λ job. job.metadata) e in
      let ran =
        get_services-sent p job' (IsOpen-same_meta p job job' same_job is_open) typ' made' s
          (before ++ service ∷ after) listing in
      (
        ap (λ x. x.0) ran
            ∙ ap ok (
                claimed_without job job' laws typ typ' made made' renamed same_job stays before
                  service after found),
        ap (λ x. x.1.calls) ran
            ∙ sent-calls machinery cluster (patches_by p job' selector' (before ++ service ∷ after))
                s
            ∙ ap (λ calls. s.calls ++ calls)
                (patched_among job job' laws typ typ' made made' renamed same_job stays before
                  service after found),
      )
