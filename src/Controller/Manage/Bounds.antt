-- ===== src/Controller/Manage/Bounds.antt =====
-- The int32 arithmetic between getStatus and Action: where nothing wraps around, and what it bounds.
use kubeflow_controller.Common.{
  ℕ, ◌+◌, ◌-◌, ◌≤◌, ◌<◌, String, Bool, List, [], ◌∷◌, ◌≡◌, ◌⊎◌, ap, ◌∙◌, arith, length,
  if◌then◌else◌, ◌==◌,
}
use Prim.Native.Nat.{◌^◌}
use kubeflow_controller.Common.Int.{pos, pos_part, int32, int32_id, IsInt32, ◌-ℤ◌}
use kubeflow_controller.Common.Outcome.{ok}
use kubeflow_controller.Api.{Pod, Service, TfJob}
use kubeflow_controller.Tensorflow.Types.{
  NameGenerator, Event, should_add_worker, should_add_worker_service,
}
use kubeflow_controller.Tensorflow.Distributed.{action, new_distributed_job, expected_workers}
use kubeflow_controller.Tensorflow.Distributed.Compose.{IsDistributed, worker_replicas}
use kubeflow_controller.Tensorflow.Distributed.Requests.{requested, action_requests}
use kubeflow_controller.Controller.Util.{filter_pods, get_status, pod_succeeded}

filter_pods-length : (pods : List Pod) (phase : String) → filter_pods pods phase ≤ length pods
unfolding filter_pods
filter_pods-length [] phase = omega arith
filter_pods-length (pod ∷ pods) phase = ground (arith, filter_pods-length pods phase)

get_status-exact :
    (pods : List Pod)
    → length pods < 2 ^ 31
    → (get_status pods).0 ≡ pos (filter_pods pods pod_succeeded)
unfolding get_status
get_status-exact pods h =
    int32_id (pos (filter_pods pods pod_succeeded))
      (omega (arith, h, filter_pods-length pods pod_succeeded), omega arith)

sub-IsInt32 : (n k : ℕ) → n < 2 ^ 31 → k < 2 ^ 31 → IsInt32 (pos n -ℤ pos k)
unfolding ◌-ℤ◌
sub-IsInt32 n k h h' = ground arith

sub-pos_part : (n k : ℕ) → pos_part (pos n -ℤ pos k) ≡ n - k
unfolding ◌-ℤ◌
sub-pos_part n k = ground arith

module _ (job : TfJob) (pods active ps : List Pod)
    (worker_services ps_services : List Service) where
  expected-exact :
      (n : ℕ)
      → n < 2 ^ 31
      → length pods < 2 ^ 31
      → expected_workers
          (new_distributed_job job active ps worker_services ps_services (get_status pods).0)
          (pos n)
        ≡ pos n -ℤ pos (filter_pods pods pod_succeeded)
  unfolding expected_workers new_distributed_job
  expected-exact n h few =
      let k = filter_pods pods pod_succeeded in
      ap (λ s. int32 (pos n -ℤ s)) (get_status-exact pods few)
      ∙ int32_id (pos n -ℤ pos k)
          (sub-IsInt32 n k h (omega (arith, few, filter_pods-length pods pod_succeeded)))

all_or_none : (n k active : ℕ) → (n - k - active ≡ 0) ⊎ (n - k - active + active + k ≡ n)
all_or_none n k active = ground arith

at_most : (count x n k : ℕ) → x ≡ n - k → (if count == 0 then x else 0) ≤ n
at_most count x n k h = ground arith

-- A job whose first two specs are those of the workers and of the parameter servers, in either order, each
-- with its number of replicas and its template, whose number of worker replicas is a count below 2^31, and
-- which has fewer than 2^31 worker pods:
-- the int32 arithmetic does not wrap around, so that the workers wanted are the replicas less the
-- succeeded pods. Action returns, and the workers that it asks for make, with the active and the
-- succeeded ones, exactly the number of replicas, or it asks for none. It asks for no more worker
-- services than there are replicas.
pub action_bounds :
    (names : NameGenerator) (b : Bool) (job : TfJob) (pods active ps : List Pod)
    (worker_services ps_services : List Service) (gen : names.Gen) (h : IsDistributed b job) (n : ℕ)
    → worker_replicas b h ≡ pos n
    → n < 2 ^ 31
    → length pods < 2 ^ 31
    → let succeeded = filter_pods pods pod_succeeded in
      let dj = new_distributed_job job active ps worker_services ps_services (get_status pods).0 in
      (expected_workers dj (pos n) ≡ pos n -ℤ pos succeeded)
      × ((events : List Event) × ((action names (dj, gen)).0 ≡ ok events)
          × ((requested should_add_worker events ≡ 0)
              ⊎ (requested should_add_worker events + length active + succeeded ≡ n))
          × (requested should_add_worker_service events ≤ n))
unfolding new_distributed_job
action_bounds names b job pods active ps worker_services ps_services gen h n count small few =
    let dj = new_distributed_job job active ps worker_services ps_services (get_status pods).0 in
    let succeeded = filter_pods pods pod_succeeded in
    let exact = expected-exact job pods active ps worker_services ps_services n small few in
    let wanted : pos_part (expected_workers dj (worker_replicas b h)) ≡ n - succeeded =
      ap (λ z. pos_part (expected_workers dj z)) count
      ∙ ap pos_part exact
      ∙ sub-pos_part n succeeded in
    let (events, e, workers, _, services, _) = action_requests names b dj gen h in
    let asked : requested should_add_worker events ≡ n - succeeded - length active =
      workers ∙ ap (λ k. k - length active) wanted in
    (
      exact,
      (
        events,
        e,
        rw asked (all_or_none n succeeded (length active)),
        rw services (
            at_most (length worker_services) (pos_part (expected_workers dj (worker_replicas b h)))
              n succeeded wanted),
      ),
    )
