-- ===== src/Controller/Wiring.antt =====
-- NewController of pkg/controller/controller.go: what it makes a controller of, and which handler it
-- registers for which event of the three informers.
pub mod Sessions
use kubeflow_controller.Common.{List, []}
use kubeflow_controller.Api.{Pod, Service, TfJob}
use kubeflow_controller.Platform.{Platform, Sync}
use kubeflow_controller.Platform.Cluster.{Session}
use kubeflow_controller.Controller.Sync.{Controller}
use kubeflow_controller.Controller.Handlers.{
  Watched, handle_object, update_tf_job, add_pod, update_pod, delete_pod, add_service,
  update_service, delete_service,
}

-- What an informer tells: an object was added, updated (from the old to the new) or deleted.
pub data Notification : Type 0 where
  job_added job_deleted : Watched → Notification
  job_updated : TfJob → TfJob → Notification
  pod_added pod_deleted : Pod → Notification
  pod_updated : Pod → Pod → Notification
  service_added service_deleted : Service → Notification
  service_updated : Service → Service → Notification

module _ (p : Platform) where
  open p use {cluster, expectations, names, cache, workqueue}

  -- A new controller expects nothing and has an empty queue.
  unfoldable pub new_controller : cluster.World → names.Gen → cache.Cache → Controller p
  new_controller world gen jobs = record {
    sync = record {
      session = record { world = world; calls = [] };
      gen = gen;
      store = expectations.new;
    };
    jobs = jobs;
    queue = workqueue.new;
  }

  -- The handlers that the informers were given.
  unfoldable pub dispatch : Notification → Controller p → Controller p
  unfolding handle_object update_tf_job add_pod update_pod delete_pod add_service update_service
      delete_service
  dispatch (job_added job) c = handle_object p job c
  dispatch (job_updated old new) c = update_tf_job p old new c
  dispatch (job_deleted job) c = handle_object p job c
  dispatch (pod_added pod) c = add_pod p pod c
  dispatch (pod_updated old cur) c = update_pod p old cur c
  dispatch (pod_deleted pod) c = delete_pod p pod c
  dispatch (service_added service) c = add_service p service c
  dispatch (service_updated old cur) c = update_service p old cur c
  dispatch (service_deleted service) c = delete_service p service c
