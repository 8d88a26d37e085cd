-- ===== src/Tensorflow/Distributed/Nameless.antt =====
-- A sync in which the services exist already: their names are not known to the job.
use kubeflow_controller.Common.{
  ℕ, zero, suc, String, Bool, List, [], ◌∷◌, ◌≡◌, refl, arith, ap, ◌∙◌, All,
}
use kubeflow_controller.Common.Int.{ℤ}
use kubeflow_controller.Common.Map.{lookup}
use kubeflow_controller.Common.Text.{decimal}
use kubeflow_controller.Common.Outcome.{ok}
use kubeflow_controller.Api.{Pod, Service, TfJob}
use kubeflow_controller.Tensorflow.Types.{
  Event, should_add_ps_service, should_add_worker_service, NameGenerator,
}
use kubeflow_controller.Tensorflow.Distributed.Spec.{DistributedJob, host, hosts_from}
use kubeflow_controller.Tensorflow.Distributed.{new_distributed_job, action, expected_workers}
use kubeflow_controller.Tensorflow.Distributed.Compose.{IsDistributed, worker_replicas}
use kubeflow_controller.Tensorflow.Distributed.Requests.{
  requested, action_lem, after_workers, action_requests,
}

host-nameless :
    (dj : DistributedJob) (typ : String) (i : ℕ) → dj.service_names ≡ [] → host dj typ i ≡ ":2222"
unfolding host lookup decimal
host-nameless dj typ i h = rw h refl

hosts-nameless :
    (typ : String) (n i : ℕ) (dj : DistributedJob)
    → dj.service_names ≡ []
    → All (λ (h : String). h ≡ ":2222") (hosts_from dj typ i n)
unfolding hosts_from
hosts-nameless typ zero i dj h = tt
hosts-nameless typ (suc n) i dj h = (host-nameless dj typ i h, hosts-nameless typ n (suc i) dj h)

module _ (names : NameGenerator) where
  open names use {Gen}

  keeps_names :
      (b : Bool) (dj : DistributedJob) (h : IsDistributed b dj.tf_job) (gen : Gen) (z : ℤ)
      → (after_workers names b dj h gen z).0.service_names ≡ dj.service_names
  keeps_names b dj h gen z = ground arith

  -- When services of both types exist as a job with both specs is built, Action asks for no service, and every
  -- host that a pod could then be told of is a port without a name.
  pub hosts_without_names :
      (b : Bool) (job : TfJob) (workers ps : List Pod) (service service' : Service)
      (services services' : List Service) (succeeded : ℤ) (gen : Gen) (typ : String) (n : ℕ)
      → IsDistributed b job
      → let dj =
          new_distributed_job job workers ps
            (service ∷ services)
            (service' ∷ services')
            succeeded in
        let (r, (dj', _)) = action names (dj, gen) in
        (events : List Event) × (r ≡ ok events)
        × (requested should_add_worker_service events ≡ 0)
        × (requested should_add_ps_service events ≡ 0)
        × All (λ (h : String). h ≡ ":2222") (hosts_from dj' typ 0 n)
  unfolding new_distributed_job
  hosts_without_names b job workers ps service service' services services' succeeded gen typ n h =
      let dj : DistributedJob =
        new_distributed_job job workers ps (service ∷ services) (service' ∷ services') succeeded in
      let (events, r, _, _, w, p) = action_requests names b dj gen h in
      (
        events,
        r,
        ground (arith, w),
        ground (arith, p),
        hosts-nameless typ n 0 (action names (dj, gen)).1.0 (
            ap (λ r. r.1.0.service_names) (action_lem names b dj gen h)
            ∙ keeps_names b dj h gen (expected_workers dj (worker_replicas b h))),
      )
