-- ===== src/Controller/Wiring/Sessions.antt =====
-- No handler makes a request.
use kubeflow_controller.Common.{◌≡◌, refl, arith, ap}
use kubeflow_controller.Api.{ObjectMeta, TfJob}
use kubeflow_controller.Platform.{Platform}
use kubeflow_controller.Controller.Sync.{Controller}
use kubeflow_controller.Controller.Handlers.{
  Watched, handle_object, update_tf_job, add_pod, update_pod, delete_pod, add_service,
  update_service, delete_service, observe_object, update_object, enqueue_tf_job,
}
use kubeflow_controller.Controller.Handlers.Enqueued.{update_object-enqueues}
use kubeflow_controller.Controller.Wiring.{
  Notification, dispatch, job_added, job_updated, job_deleted, pod_added, pod_updated, pod_deleted,
  service_added, service_updated, service_deleted,
}

module _ (p : Platform) where
  observe_object-session :
      (meta : ObjectMeta) (c : Controller p)
      → (observe_object p meta c).sync.session ≡ c.sync.session
  unfolding observe_object enqueue_tf_job
  observe_object-session meta c = ground arith

  update_object-session :
      (old cur : ObjectMeta) (c : Controller p)
      → (update_object p old cur c).sync.session ≡ c.sync.session
  update_object-session old cur c = ap (λ sync. sync.session) (update_object-enqueues p old cur c).1

  handle_object-session :
      (job : Watched) (c : Controller p) → (handle_object p job c).sync.session ≡ c.sync.session
  unfolding handle_object enqueue_tf_job
  handle_object-session job c = ground arith

  update_tf_job-session :
      (old new : TfJob) (c : Controller p)
      → (update_tf_job p old new c).sync.session ≡ c.sync.session
  unfolding update_tf_job handle_object enqueue_tf_job
  update_tf_job-session old new c = ground arith

  pub dispatch-session :
      (n : Notification) (c : Controller p) → (dispatch p n c).sync.session ≡ c.sync.session
  unfolding dispatch add_pod update_pod delete_pod add_service update_service delete_service
  dispatch-session (job_added job) c = handle_object-session job c
  dispatch-session (job_updated old new) c = update_tf_job-session old new c
  dispatch-session (job_deleted job) c = handle_object-session job c
  dispatch-session (pod_added pod) c = observe_object-session pod.metadata c
  dispatch-session (pod_updated old cur) c = update_object-session old.metadata cur.metadata c
  dispatch-session (pod_deleted pod) c = refl
  dispatch-session (service_added service) c = observe_object-session service.metadata c
  dispatch-session (service_updated old cur) c = update_object-session old.metadata cur.metadata c
  dispatch-session (service_deleted service) c = refl
