-- ===== src/Controller/Manage/Named.antt =====
-- The two loops over services of a new job: after both, all hosts are known.
use kubeflow_controller.Common.{
  ℕ, suc, String, Bool, List, map, ◌≡◌, ◌≢◌, inl, inr, refl, sym, ap, ◌∙◌,
}
use mathlib.Core.Path.{ap₂, subst}
use kubeflow_controller.Common.Int.{pos, rounds}
use kubeflow_controller.Common.Text.{ne_of_str_eq}
use kubeflow_controller.Common.Outcome.{Outcome, ok}
use kubeflow_controller.Api.{TfJob}
use kubeflow_controller.Checker.{tf_replica_ps, tf_replica_worker}
use kubeflow_controller.Platform.{Platform, Sync}
use kubeflow_controller.Platform.Requests.{Added, Added-trans}
use kubeflow_controller.Tensorflow.Types.{should_add_ps_service, should_add_worker_service}
use kubeflow_controller.Tensorflow.Distributed.Spec.{DistributedJob, hosts_from, hosts_flag}
use kubeflow_controller.Tensorflow.Distributed.Compose.{worker_replicas, ps_replicas}
use kubeflow_controller.Controller.Manage.{Managed, manage_action, expect}
use kubeflow_controller.Controller.Manage.Hosts.{IsServiceCall, with_port}
use kubeflow_controller.Controller.Manage.Services.{
  generated, generated_gen, add_services-keeps, add_services-known, add_services-asks,
}
use kubeflow_controller.Controller.Manage.Told.{HasTemplates, Tells, hosts_from-same}

module _ (p : Platform) (key : String) (b : Bool) (n m : ℕ) where
  open p use {names}

  -- The flags of a job whose hosts are known.
  pub hosts-Tells :
      (dj : DistributedJob) (job : TfJob) (t : HasTemplates b job) (workers servers : List String)
      → dj.tf_job ≡ job
      → worker_replicas b t.distributed ≡ pos (suc n)
      → ps_replicas b t.distributed ≡ pos (suc m)
      → hosts_from dj tf_replica_worker 0 (suc n) ≡ workers
      → hosts_from dj tf_replica_ps 0 (suc m) ≡ servers
      → Tells b (hosts_flag "--worker_hosts=" workers) (hosts_flag "--ps_hosts=" servers) dj
  hosts-Tells dj job t workers servers same e e' hw hp =
      let (t', f, f') =
        subst
          (λ j.
            (t' : HasTemplates b j) × (worker_replicas b t'.distributed ≡ pos (suc n))
            × (ps_replicas b t'.distributed ≡ pos (suc m)))
          (sym same) (t, e, e') in
      record {
        templates = t';
        worker_flag_lem =
            ap (hosts_flag "--worker_hosts=")
              (ap (λ z. hosts_from dj tf_replica_worker 0 (rounds z)) f ∙ hw);
        ps_flag_lem =
            ap (hosts_flag "--ps_hosts=")
              (ap (λ z. hosts_from dj tf_replica_ps 0 (rounds z)) f' ∙ hp);
      }

  not_ps : tf_replica_ps ≢ tf_replica_worker
  not_ps = ne_of_str_eq refl

  -- Both loops over services, from a job and what it has to change.
  module _ (dj : DistributedJob) (sy : Sync p) where
    abbrev pub first_loop : Outcome (Unit {0}) × Managed p
    first_loop = manage_action p key should_add_worker_service (pos (suc n)) (dj, sy)

    abbrev pub second_loop : Outcome (Unit {0}) × Managed p
    second_loop = manage_action p key should_add_ps_service (pos (suc m)) first_loop.1

    abbrev pub worker_names : List String
    worker_names = generated p key dj.tf_job.metadata.name tf_replica_worker 0 (suc n) sy.gen

    abbrev pub server_names : List String
    server_names =
        generated p key dj.tf_job.metadata.name tf_replica_ps 0 (suc m)
          (generated_gen p key dj.tf_job.metadata.name tf_replica_worker 0 (suc n) sy.gen)

    pub first_ends :
        (first_loop.0 ≡ ok tt)
        × (first_loop.1.0.tf_job ≡ dj.tf_job)
        × (hosts_from first_loop.1.0 tf_replica_worker 0 (suc n) ≡ map with_port worker_names)
        × (first_loop.1.1.gen
            ≡ generated_gen p key dj.tf_job.metadata.name tf_replica_worker 0 (suc n) sy.gen)
        × Added IsServiceCall sy.session.calls first_loop.1.1.session.calls
    unfolding manage_action expect
    first_ends =
        let sy' = expect p key (pos (suc n)) sy in
        let (r, job, _) =
          add_services-keeps p key tf_replica_worker (suc n) 0 dj sy' tf_replica_ps 0 (inl refl)
            (inr refl) (inl (λ e. not_ps (sym e))) in
        let (_, hosts) = add_services-known p key tf_replica_worker (suc n) 0 dj sy' (inl refl) in
        let (gen, added) = add_services-asks p key tf_replica_worker (suc n) 0 dj sy' in
        (r, job, hosts, gen, added)

    pub second_ends :
        (second_loop.0 ≡ ok tt)
        × (second_loop.1.0.tf_job ≡ dj.tf_job)
        × (hosts_from second_loop.1.0 tf_replica_worker 0 (suc n) ≡ map with_port worker_names)
        × (hosts_from second_loop.1.0 tf_replica_ps 0 (suc m) ≡ map with_port server_names)
        × Added IsServiceCall sy.session.calls second_loop.1.1.session.calls
    unfolding manage_action expect
    second_ends =
        let (r, job, hosts, gen, added) = first_ends in
        let dj1 = first_loop.1.0 in
        let sy1 = expect p key (pos (suc m)) first_loop.1.1 in
        let keeps = λ (j : ℕ).
          add_services-keeps p key tf_replica_ps (suc m) 0 dj1 sy1 tf_replica_worker j (inr refl)
            (inl refl) (inl not_ps) in
        let (r', job', _) = keeps 0 in
        let (_, hosts') = add_services-known p key tf_replica_ps (suc m) 0 dj1 sy1 (inr refl) in
        let (_, added') = add_services-asks p key tf_replica_ps (suc m) 0 dj1 sy1 in
        (
          r',
          job' ∙ job,
          hosts_from-same tf_replica_worker (suc n) 0 dj1 second_loop.1.0 (λ j. (keeps j).2)
              ∙ hosts,
          hosts'
              ∙ ap₂ (λ name g. map with_port (generated p key name tf_replica_ps 0 (suc m) g))
                  (ap (λ j. j.metadata.name) job) gen,
          Added-trans IsServiceCall sy.session.calls first_loop.1.1.session.calls
              second_loop.1.1.session.calls added added',
        )
