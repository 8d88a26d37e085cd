-- ===== src/Controller/Manage/Fresh.antt =====
-- The management of a new distributed job.
use kubeflow_controller.Common.{
  ℕ, suc, ◌<◌, String, Bool, true, false, List, [], map, ◌≡◌, ◌⊎◌, inl, inr, refl, ap, ◌∙◌, ◌++◌,
  All,
}
use Prim.Native.Nat.{◌^◌}
use kubeflow_controller.Common.Int.{pos}
use kubeflow_controller.Common.Go.{Go, resume, ◌>>◌, pure}
use kubeflow_controller.Common.Outcome.{Outcome, ok, fail, Err}
use kubeflow_controller.Api.{TfJob}
use kubeflow_controller.Checker.{tf_replica_ps, tf_replica_worker}
use kubeflow_controller.Platform.{Platform, Sync}
use kubeflow_controller.Platform.Cluster.{
  Call, create_pod, create_service, create_replica_set, patch_pod, patch_service, patch_replica_set,
  update_job, eventf,
}
use kubeflow_controller.Platform.Requests.{Added-none, Added-trans, Added-map}
use kubeflow_controller.Tensorflow.Types.{
  should_add_ps, should_add_ps_service, should_add_worker, should_add_worker_service,
}
use kubeflow_controller.Tensorflow.Distributed.Spec.{DistributedJob, hosts_flag}
use kubeflow_controller.Tensorflow.Distributed.{new_distributed_job}
use kubeflow_controller.Tensorflow.Distributed.Compose.{
  IsDistributed, worker_replicas, ps_replicas, composed,
}
use kubeflow_controller.Controller.Manage.{
  Managed, manage_action, manage_events, manage_distributed, expect,
}
use kubeflow_controller.Controller.Manage.Hosts.{IsServiceCall, with_port}
use kubeflow_controller.Controller.Manage.Services.{generated, generated_gen}
use kubeflow_controller.Controller.Manage.Told.{
  IsTold, HasTemplates, Tells, Telling, add_pods-Telling,
}
use kubeflow_controller.Controller.Manage.Planned.{
  HasContainers, composed-IsDistributed, composed-IsFilled, fresh_of, fresh_events, fresh_action,
}
use kubeflow_controller.Controller.Manage.Named.{
  hosts-Tells, first_loop, second_loop, worker_names, server_names, first_ends, second_ends,
}

service-IsTold :
    (worker_hosts ps_hosts : String) (call : Call)
    → IsServiceCall call
    → IsTold worker_hosts ps_hosts call
service-IsTold w p (create_service namespace service) h = tt
service-IsTold w p (eventf typ reason) h = tt
service-IsTold w p (create_pod namespace template ref) h = absurd h
service-IsTold w p (create_replica_set namespace replica_set) h = absurd h
service-IsTold w p (patch_service namespace name patch) h = absurd h
service-IsTold w p (patch_pod namespace name patch) h = absurd h
service-IsTold w p (patch_replica_set namespace name patch) h = absurd h
service-IsTold w p (update_job namespace job) h = absurd h

-- What follows a method that ended well.
after_ok :
    {S : Type 0} (m : Go S (Unit {0})) (rest : Go S (Unit {0})) (s : S)
    → (m s).0 ≡ ok tt
    → (m >> rest) s ≡ rest (m s).1
after_ok m rest s e = ap (λ r. resume r (λ _. rest) (m s).1) e

module _ (p : Platform) (key : String) (b : Bool) (worker_hosts ps_hosts : String) where
  -- What follows a part that tells, on a job that goes on telling.
  Telling-then :
      (sy : Sync p) (m rest : Go (Managed p) (Unit {0})) (s : Managed p)
      → Telling p key b worker_hosts ps_hosts sy (m s)
      → ((dj : DistributedJob) (sy' : Sync p)
          → Tells b worker_hosts ps_hosts dj
          → Telling p key b worker_hosts ps_hosts sy' (rest (dj, sy')))
      → Telling p key b worker_hosts ps_hosts sy ((m >> rest) s)
  Telling-then sy m rest s (added, inl (e, t)) next =
      let (dj, sy') = (m s).1 in
      let (added', ends) = next (m s).1.0 (m s).1.1 t in
      rw (after_ok m rest s e) (
        Added-trans (IsTold worker_hosts ps_hosts) sy.session.calls (m s).1.1.session.calls
            (rest (m s).1).1.1.session.calls added added',
        ends,
      )
  Telling-then sy m rest s (added, inr (x, e)) next =
      let stuck : (m >> rest) s ≡ (fail x, (m s).1) = ap (λ r. resume r (λ _. rest) (m s).1) e in
      rw stuck (added, inr (x, refl))

  module _ (n m : ℕ) where
    -- The events for pods, on a job that tells.
    pods-Telling :
        (dj : DistributedJob) (sy : Sync p)
        → Tells b worker_hosts ps_hosts dj
        → Telling p key b worker_hosts ps_hosts sy (
            (manage_action p key should_add_worker (pos n)
                >> (manage_action p key should_add_ps (pos m) >> pure tt))
              (dj, sy))
    unfolding manage_action expect
    pods-Telling dj sy t =
        Telling-then sy (manage_action p key should_add_worker (pos n))
          (manage_action p key should_add_ps (pos m) >> pure tt) (dj, sy)
          (add_pods-Telling p key b worker_hosts ps_hosts true n 0 dj (expect p key (pos n) sy) t)
          (λ dj' sy' t'.
            Telling-then sy' (manage_action p key should_add_ps (pos m)) (pure tt) (dj', sy')
              (add_pods-Telling p key b worker_hosts ps_hosts false m 0 dj'
                (expect p key (pos m) sy') t')
              (λ dj'' sy'' t''.
                (Added-none (IsTold worker_hosts ps_hosts) sy''.session.calls, inl (refl, t''))))

  result :
      {r : Outcome (Unit {0})} {dj : DistributedJob}
      → ((r ≡ ok tt) × Tells b worker_hosts ps_hosts dj) ⊎ ((e : Err) × (r ≡ fail e))
      → (r ≡ ok tt) ⊎ ((e : Err) × (r ≡ fail e))
  result (inl (e, t)) = inl e
  result (inr e) = inr e

  module _ (n m : ℕ) (dj : DistributedJob) (sy : Sync p) where
    -- The events of a new job, from its two loops over services on.
    events_lem :
        manage_events p key (fresh_events p key b n m) (dj, sy)
        ≡ (manage_action p key should_add_worker (pos (suc n))
              >> (manage_action p key should_add_ps (pos (suc m)) >> pure tt))
            (second_loop p key b n m dj sy).1
    unfolding manage_events
    events_lem =
        let workers = manage_action p key should_add_worker_service (pos (suc n)) in
        let servers = manage_action p key should_add_ps_service (pos (suc m)) in
        let pods =
          manage_action p key should_add_worker (pos (suc n))
          >> (manage_action p key should_add_ps (pos (suc m)) >> pure tt) in
        after_ok workers (servers >> pods) (dj, sy) (first_ends p key b n m dj sy).0
        ∙ after_ok servers pods (first_loop p key b n m dj sy).1 (second_ends p key b n m dj sy).0

    events-Telling :
        Tells b worker_hosts ps_hosts (second_loop p key b n m dj sy).1.0
        → Telling p key b worker_hosts ps_hosts sy
            (manage_events p key (fresh_events p key b n m) (dj, sy))
    events-Telling t =
        let (dj2, sy2) = (second_loop p key b n m dj sy).1 in
        let (added, ends) = pods-Telling (suc n) (suc m) dj2 sy2 t in
        let (_, _, _, _, services) = second_ends p key b n m dj sy in
        let told = IsTold worker_hosts ps_hosts in
        rw events_lem (
          Added-trans told sy.session.calls sy2.session.calls _
              (Added-map IsServiceCall told sy.session.calls sy2.session.calls
                (service-IsTold worker_hosts ps_hosts) services)
              added,
          ends,
        )

module _ (p : Platform) (key : String) (b : Bool) (n m : ℕ) (job : TfJob) (sy : Sync p) where
  -- What Action plans for the job is managed on the job that it has composed.
  managed :
      (h : IsDistributed b job)
      → worker_replicas b h ≡ pos (suc n)
      → ps_replicas b h ≡ pos (suc m)
      → suc n < 2 ^ 31
      → let (id, gen) = p.names.generate "" sy.gen in
        manage_distributed p key (fresh_of job, sy)
        ≡ manage_events p key
            (fresh_events p key b n m)
            (fresh_of (composed b job h id), record sy { gen = gen })
  unfolding manage_distributed
  managed h e e' small =
      ap (λ x. resume x.0 (manage_events p key) (x.1.0, record sy { gen = x.1.1 }))
        (fresh_action p key b n m job sy.gen h e e' small)

-- The sync in which a new distributed job (no pods, no services, both kinds of replicas wanted) is
-- managed: it never panics, and whatever the API server refuses, each pod that it asks for has in its
-- first container the flags with the hosts of all workers and of all parameter servers, in their order,
-- where each host is the name generated in this sync for that replica's service, and the port. Beside
-- pods it asks for services only, and records events. Both templates must have a container, and there are fewer than
-- 2^31 workers.
pub fresh_pods_told :
    (p : Platform) (key : String) (b : Bool) (job : TfJob) (h : IsDistributed b job) (n m : ℕ)
    (sy : Sync p)
    → HasContainers b h
    → worker_replicas b h ≡ pos (suc n)
    → ps_replicas b h ≡ pos (suc m)
    → suc n < 2 ^ 31
    → let gen = (p.names.generate "" sy.gen).1 in
      let name = job.metadata.name in
      let workers = generated p key name tf_replica_worker 0 (suc n) gen in
      let after = generated_gen p key name tf_replica_worker 0 (suc n) gen in
      let servers = generated p key name tf_replica_ps 0 (suc m) after in
      let told =
        IsTold
          (hosts_flag "--worker_hosts=" (map with_port workers))
          (hosts_flag "--ps_hosts=" (map with_port servers)) in
      let (r, (_, sy')) =
        manage_distributed p key (new_distributed_job job [] [] [] [] (pos 0), sy) in
      ((r ≡ ok tt) ⊎ ((e : Err) × (r ≡ fail e)))
      × ((new : List Call) × (sy'.session.calls ≡ sy.session.calls ++ new) × All told new)
unfolding manage_distributed new_distributed_job
fresh_pods_told p key b job h n m sy containers e e' small =
    let (id, gen) = p.names.generate "" sy.gen in
    let dj = fresh_of (composed b job h id) in
    let sy1 : Sync p = record sy { gen = gen } in
    let (_, same, workers, servers, _) = second_ends p key b n m dj sy1 in
    let templates : HasTemplates b dj.tf_job = record {
      distributed = composed-IsDistributed b job h id;
      filled = λ w. composed-IsFilled b w job h id containers;
    } in
    let tells =
      hosts-Tells p key b n m (second_loop p key b n m dj sy1).1.0 dj.tf_job templates
        (map with_port (worker_names p key b n m dj sy1))
        (map with_port (server_names p key b n m dj sy1)) same e e' workers servers in
    let (added, ends) = events-Telling p key b _ _ n m dj sy1 tells in
    rw (managed p key b n m job sy h e e' small) (result p key b _ _ ends, added)
