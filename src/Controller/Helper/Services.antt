-- ===== src/Controller/Helper/Services.antt =====
-- GetServicesForTFJob, on an API server that takes every patch and while the job may adopt.
use kubeflow_controller.Common.{
  not, str_eq, if◌then◌else◌, String, Bool, List, [], ◌++◌, ◌≡◌, refl, ap, sym, ◌∙◌,
}
use mathlib.Core.List.{append-nil}
use kubeflow_controller.Common.Map.{Map}
use kubeflow_controller.Common.Outcome.{Outcome, ok, fail, panic, errorf, original_gone}
use kubeflow_controller.Api.{ObjectMeta, Service, TfJob}
use kubeflow_controller.Platform.{Platform}
use kubeflow_controller.Platform.Cluster.{Session, Call}
use kubeflow_controller.Platform.Machinery.{MachineryLaws}
use kubeflow_controller.Ref.Base.{RefManager}
use kubeflow_controller.Ref.Service.{new_service_controller_ref_manager}
use kubeflow_controller.Ref.Spec.{Accepts, Willing, sent, sent-calls, claimed_of, patches_of}
use kubeflow_controller.Ref.Claimed.{claim_services-sent}
use kubeflow_controller.Controller.Labels.{match_labels}
use kubeflow_controller.Controller.Util.{group_version, group_kind}
use kubeflow_controller.Controller.Helper.{
  same_job, claimed, can_adopt_func, claim_listed_services, get_services_for_tf_job,
}

-- The API server takes every request, and the live job is there and may adopt.
pub record IsOpen (p : Platform) (job : TfJob) : Type 0 where
  pub accepts : Accepts p.machinery p.cluster
  pub may_adopt : (w : p.cluster.World) → can_adopt_func p job w ≡ ok tt
  pub aggregates : MachineryLaws p.machinery

module _ (p : Platform) (job : TfJob) where
  open p use {machinery, cluster}

  same_job-meta :
      (job' : TfJob) (r : Outcome TfJob)
      → job'.metadata ≡ job.metadata
      → same_job job' r ≡ same_job job r
  unfolding same_job
  same_job-meta job' (ok fresh) e =
      ap
        (λ (meta : ObjectMeta).
          if not (str_eq fresh.metadata.uid meta.uid)
          then fail (errorf original_gone)
          else ok fresh.metadata)
        e
  same_job-meta job' (fail x) e = refl
  same_job-meta job' (panic f) e = refl

  -- What is asked about the job depends on its metadata only.
  pub IsOpen-same_meta :
      (job' : TfJob) → job'.metadata ≡ job.metadata → IsOpen p job → IsOpen p job'
  unfolding can_adopt_func
  IsOpen-same_meta job' e is_open = record {
    accepts = is_open.accepts;
    may_adopt = λ w.
        ap
          (λ (meta : ObjectMeta).
            machinery.recheck_deletion_timestamp
              (same_job job' (cluster.fresh_job meta.namespace meta.name w)))
          e
        ∙ ap machinery.recheck_deletion_timestamp
            (same_job-meta job' (cluster.fresh_job job.metadata.namespace job.metadata.name w) e)
        ∙ is_open.may_adopt w;
    aggregates = is_open.aggregates;
  }

  -- The manager that GetServicesForTFJob makes.
  abbrev pub manager : (Map String → Bool) → RefManager cluster
  manager selector =
      new_service_controller_ref_manager job.metadata selector group_version group_kind
        (can_adopt_func p job)

  abbrev pub claimed_by : (Map String → Bool) → List Service → List Service
  claimed_by selector = claimed_of machinery cluster (manager selector) []

  abbrev pub patches_by : (Map String → Bool) → List Service → List Call
  patches_by selector = patches_of machinery cluster (manager selector) []

  module _ (is_open : IsOpen p job) where
    willing : (selector : Map String → Bool) → Willing machinery cluster (manager selector)
    unfolding new_service_controller_ref_manager
    willing selector = (can_adopt_func p job, refl, refl, is_open.may_adopt)

    claim_listed-sent :
        (selector : Map String → Bool) (services : List Service) (s : Session cluster)
        → claim_listed_services p job selector (ok services) s ≡ (
          ok (claimed_by selector services),
          sent machinery cluster (patches_by selector services) s,
        )
    unfolding claim_listed_services
    claim_listed-sent selector services s =
        let (now, e) =
          claim_services-sent machinery cluster is_open.accepts (manager selector)
            (willing selector) is_open.aggregates [] services s in
        ap (λ x. (claimed p x.0, x.1.1)) e

    module _ (typ : String) {selector : Map String → Bool}
        (made : machinery.label_selector (match_labels job typ) ≡ ok selector)
        (s : Session cluster) where
      listed : Outcome (List Service)
      listed = cluster.list_services job.metadata.namespace s.world

      found-listed :
          get_services_for_tf_job p job typ s ≡ claim_listed_services p job selector listed s
      unfolding get_services_for_tf_job listed
      found-listed = rw (made, get_services_for_tf_job) refl

      -- It claims what the verdicts say, and sends the patches that they call for.
      pub get_services-sent :
          (services : List Service)
          → cluster.list_services job.metadata.namespace s.world ≡ ok services
          → get_services_for_tf_job p job typ s ≡ (
            ok (claimed_by selector services),
            sent machinery cluster (patches_by selector services) s,
          )
      unfolding listed
      get_services-sent services e =
          found-listed
          ∙ ap (λ r. claim_listed_services p job selector r s) e
          ∙ claim_listed-sent selector services s

      claim_listed-grows :
          (r : Outcome (List Service))
          → (new : List Call) × ((claim_listed_services p job selector r s).1.calls
              ≡ s.calls ++ new)
      unfolding claim_listed_services
      claim_listed-grows (ok services) = (
        patches_by selector services,
        ap (λ x. x.1.calls) (claim_listed-sent selector services s)
            ∙ sent-calls machinery cluster (patches_by selector services) s,
      )
      claim_listed-grows (fail e) = ([], sym (append-nil s.calls))
      claim_listed-grows (panic f) = ([], sym (append-nil s.calls))

      -- Requests are only added.
      pub get_services-grows :
          (new : List Call) × ((get_services_for_tf_job p job typ s).1.calls ≡ s.calls ++ new)
      get_services-grows =
          let (new, e) = claim_listed-grows listed in (new, ap (λ x. x.1.calls) found-listed ∙ e)
