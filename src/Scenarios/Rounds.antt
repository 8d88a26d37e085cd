-- ===== src/Scenarios/Rounds.antt =====
-- What managing the distributed job asks of the API server.
use kubeflow_controller.Common.{
  ℕ, ◌<◌, ◌++◌, inr, suc, true, none, some, List, [], ◌∷◌, ◌≡◌, ◌⊎◌, inl, refl,
}
use kubeflow_controller.Common.Int.{pos, ◌-ℤ◌}
use kubeflow_controller.Common.Text.{decimal}
use kubeflow_controller.Common.Outcome.{ok, fail, Err}
use kubeflow_controller.Checker.{tf_replica_ps, tf_replica_worker}
use kubeflow_controller.Tensorflow.Types.{
  Event, should_add_worker, should_add_worker_service, should_add_ps, should_add_ps_service,
}
use kubeflow_controller.Tensorflow.Distributed.Spec.{hosts_from, service_name}
use kubeflow_controller.Platform.Cluster.{Call}
use kubeflow_controller.Controller.Labels.{match_labels}
use kubeflow_controller.Controller.Util.{new_controller_ref}
use kubeflow_controller.Controller.Manage.{manage_action, manage_events, add_pods, add_services}
use kubeflow_controller.Controller.Manage.Pods.{
  Ends, PodsFrom, Taken, LastRefused, add_pods-creates,
}
use kubeflow_controller.Controller.Manage.Pending.{workers_pending}
use kubeflow_controller.Controller.Manage.Overwrite.{manage_events-overwrite}
use kubeflow_controller.Controller.Manage.Hosts.{made_service}
use kubeflow_controller.Controller.Manage.Services.{NamedFrom, add_services-hosts}
use kubeflow_controller.Controller.Manage.Hosts.{Creates}
use kubeflow_controller.Platform.Requests.{Added}
use kubeflow_controller.Control.Create.{create_services_with_controller_ref}
use kubeflow_controller.Control.Requests.{
  create_services-requests, new_controller_ref-valid, creation,
}
use kubeflow_controller.Platform.Cluster.{create_service}
use kubeflow_controller.Scenarios.Fixtures.{
  small_platform, small_machinery, scripted_cluster, counters-laws, fresh_sync, fresh_session,
  timed_out,
}
use kubeflow_controller.Scenarios.Jobs.{two_workers, distributed, ready}

-- The second of two pods is refused.
add_pods-creates_example :
    Ends small_platform "mnist" "default"
      (new_controller_ref two_workers)
      (match_labels two_workers tf_replica_worker)
      0
      2
      (fresh_sync (none ∷ some timed_out ∷ []))
      (add_pods small_platform "mnist" tf_replica_worker 0 2
        (distributed [] [], fresh_sync (none ∷ some timed_out ∷ [])))
unfolding match_labels
add_pods-creates_example =
    add_pods-creates small_platform "mnist" true true 2 0 (distributed [] [])
      (fresh_sync (none ∷ some timed_out ∷ [])) (ready [] []) (λ k v e. e)

workers_pending_example :
    let (r, s') =
      manage_action small_platform "mnist" should_add_worker
        (pos 2)
        (distributed [] [], fresh_sync (some timed_out ∷ [])) in
    let left = s'.1.store "mnist" in
    let Pods =
      PodsFrom "default"
        (new_controller_ref two_workers)
        (match_labels two_workers tf_replica_worker)
        0 in
    (created : List Call) × (s'.1.session.calls ≡ [] ++ created)
    × (((r ≡ ok tt)
          × Taken small_platform.cluster created (some timed_out ∷ [])
          × Pods 2 created
          × (left ≡ some (pos 2)))
        ⊎ ((e : Err) × (k : ℕ) × (r ≡ fail e)
            × LastRefused small_platform.cluster e created (some timed_out ∷ [])
            × (k < 2)
            × Pods (suc k) created
            × (left ≡ some (pos 1))))
unfolding match_labels ◌-ℤ◌
workers_pending_example =
    workers_pending small_platform counters-laws "mnist" true (pos 2) (distributed [] [])
      (fresh_sync (some timed_out ∷ [])) (ready [] []) (λ k v e. e)

abbrev first_events : List Event
first_events =
    record { action = should_add_worker_service; number = pos 2 }
    ∷ record { action = should_add_ps_service; number = pos 1 }
    ∷ record { action = should_add_worker; number = pos 2 }
    ∷ []

abbrev ps_event : Event
ps_event = record { action = should_add_ps; number = pos 1 }

-- Six creations are asked for, one is waited for.
manage_events-overwrite_example :
    let (r, (_, s)) =
      manage_events small_platform "mnist"
        (first_events ++ ps_event ∷ [])
        (distributed [] [], fresh_sync []) in
    s.store "mnist" ≡ some (pos 1)
unfolding manage_events
manage_events-overwrite_example =
    manage_events-overwrite small_platform counters-laws "mnist" first_events ps_event
      (distributed [] [], fresh_sync []) (inr refl) refl

-- The hosts of two workers, though the API server refuses the first service.
add_services-hosts_example :
    let (r, s') =
      add_services small_platform "mnist" tf_replica_worker 0 2
        (distributed [] [], fresh_sync (some timed_out ∷ [])) in
    (r ≡ ok tt)
    × (hosts_from s'.0 tf_replica_worker 0 2
        ≡ "mnist-worker-0-0:2222" ∷ "mnist-worker-1-1:2222" ∷ [])
    × Added
        (Creates
          (NamedFrom small_platform "mnist" 0 ("mnist-worker-0-0" ∷ "mnist-worker-1-1" ∷ [])))
        []
        s'.1.session.calls
unfolding service_name decimal
add_services-hosts_example =
    add_services-hosts small_platform "mnist" tf_replica_worker 2 0 (distributed [] [])
      (fresh_sync (some timed_out ∷ [])) (inl refl)

create_services-requests_example :
    let service = made_service (distributed [] []) tf_replica_ps 0 "ps" in
    create_services_with_controller_ref small_machinery scripted_cluster "default" service
      (some two_workers.metadata)
      (some (new_controller_ref two_workers))
      (fresh_session (some timed_out ∷ []))
    ≡ creation small_machinery scripted_cluster
        (create_service "default" service)
        (fresh_session (some timed_out ∷ []))
        (some timed_out)
create_services-requests_example =
    create_services-requests small_machinery scripted_cluster "default"
      (made_service (distributed [] []) tf_replica_ps 0 "ps") two_workers.metadata
      (new_controller_ref two_workers) (fresh_session (some timed_out ∷ []))
      (new_controller_ref-valid two_workers)
