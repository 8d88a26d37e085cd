-- ===== src/Scenarios/Contention.antt =====
-- Two services of the distributed job on an API server that takes every request, and selectors that
-- compare labels.
use kubeflow_controller.Common.{
  String, Bool, true, false, Option, none, some, List, [], ◌∷◌, ◌++◌, ◌≡◌, ◌≢◌, inl, inr, refl,
  arith, ap, ◌∙◌, ◌&&◌, str_eq, eq_iff, Bool-cases,
}
use kubeflow_controller.Common.Int.{int32, ◌-ℤ◌}
use kubeflow_controller.Common.Map.{Map, lookup}
use kubeflow_controller.Common.Text.{decimal}
use kubeflow_controller.Common.Outcome.{ok}
use kubeflow_controller.Api.{OwnerReference, Service, Pod}
use kubeflow_controller.Checker.{tf_replica_ps, tf_replica_worker, is_local_job}
use kubeflow_controller.Platform.{Platform, Sync}
use kubeflow_controller.Platform.Machinery.{Machinery, MachineryLaws, Selects, SelectorLaws}
use kubeflow_controller.Platform.Cluster.{Call, Session}
use kubeflow_controller.Platform.Requests.{HasPatch}
use kubeflow_controller.Tensorflow.Distributed.{action, expected_workers}
use kubeflow_controller.Controller.Labels.{match_labels}
use kubeflow_controller.Controller.Helper.{
  get_services_for_tf_job, get_pods_for_tf_job, claim_listed_pods, same_job, can_adopt_func,
}
use kubeflow_controller.Controller.Helper.Services.{IsOpen, claimed_by, patches_by}
use kubeflow_controller.Controller.Sync.{sync_job}
use kubeflow_controller.Controller.Sync.Restless.{HasListed, sync_job-restless}
use kubeflow_controller.Controller.Sync.Forgotten.{release_of, action_forgets}
use kubeflow_controller.Scenarios.Fixtures.{chosen, small_platform, small_machinery, numbered}
use kubeflow_controller.Scenarios.Jobs.{
  owner, two_workers, two_workers-IsDistributed, distributed, meta_of, pod_named,
}

-- A selector of labels, as a test.
abbrev is_value : String → Option String → Bool
is_value value none = false
is_value value (some other) = str_eq value other

abbrev holds : Map String → Map String → Bool
holds [] set = true
holds ((key, value) ∷ ls) set = is_value value (lookup key set) && holds ls set

is_value_sound : (value : String) (o : Option String) → is_value value o ≡ true → o ≡ some value
is_value_sound value none h = cc
is_value_sound value (some other) h = ap some (ground (arith, eq_iff value other))

&&-parts : (a b : Bool) → (a && b) ≡ true → (a ≡ true) × (b ≡ true)
&&-parts a b h = ground arith

holds_sound : (ls set : Map String) → holds ls set ≡ true → Selects ls set
unfolding lookup
holds_sound [] set h k v e = cc
holds_sound ((key, value) ∷ ls) set h k v e =
    let (first, others) = &&-parts (is_value value (lookup key set)) (holds ls set) h in
    elim (Bool-cases (str_eq key k)) [
      | inl same ↦
          let there = is_value_sound value (lookup key set) first in ground (arith, eq_iff key k)
      | inr differ ↦ holds_sound ls set others k v (ground arith)
    ]

abbrev selecting : Machinery
selecting = record small_machinery { label_selector = λ ls. ok (holds ls) }

selecting-laws : MachineryLaws selecting
selecting-laws = record { aggregate_none = refl; aggregate_some = λ e es h. ground arith }

selecting_sound : SelectorLaws selecting
selecting_sound = record {
  selector_sound = λ ls set made h. holds_sound ls set (ap (λ made. chosen made set) made ∙ h);
}

abbrev service_labelled : String → List OwnerReference → Service
service_labelled typ owners = record {
  metadata = record (meta_of typ owners) { labels = some (match_labels two_workers typ) };
  selector = none;
  ports = [];
}

-- The caches list these services, and no pods.
abbrev listing : List Service → Platform
listing services = record small_platform {
  machinery = selecting;
  cluster = record {
    World = Unit {0};
    respond = λ call w. (none, w);
    list_pods = λ namespace w. ok [];
    list_services = λ namespace w. ok services;
    fresh_job = λ namespace name w. ok two_workers;
    claim_pods = λ meta selector may pods w. (ok pods, ([], w));
  };
}

abbrev quiet : (services : List Service) → Session (listing services).cluster
quiet services = record { world = tt; calls = [] }

abbrev quiet_sync : (services : List Service) → Sync (listing services)
quiet_sync services = record { session = quiet services; gen = 0; store = λ key. none }

abbrev worker_service : Service
worker_service = service_labelled tf_replica_worker (owner ∷ [])

abbrev ps_service : Service
ps_service = service_labelled tf_replica_ps (owner ∷ [])

abbrev both : List Service
both = ps_service ∷ worker_service ∷ []

listing-IsOpen : (services : List Service) → IsOpen (listing services) two_workers
unfolding same_job can_adopt_func
listing-IsOpen services = record {
  accepts = λ call w. refl;
  may_adopt = λ w. refl;
  aggregates = selecting-laws;
}

both-HasListed : HasListed (listing both) two_workers (quiet both) both
unfolding get_pods_for_tf_job claim_listed_pods
both-HasListed = record {
  workers = [];
  ps = [];
  between = quiet both;
  after = quiet both;
  workers_lem = refl;
  ps_lem = refl;
  services_lem = refl;
}

-- Both services are the job's already, and yet the sync patches one.
sync_job-restless_example :
    let (_, (_, s)) = sync_job (listing both) false (two_workers, quiet_sync both) in
    (new : List Call) × (s.session.calls ≡ [] ++ new) × HasPatch new
unfolding match_labels lookup is_local_job
sync_job-restless_example =
    sync_job-restless (listing both) false two_workers (quiet_sync both) (ps_service ∷ [])
      worker_service [] (listing-IsOpen both) selecting_sound refl refl refl both-HasListed
      (record { job_stays = refl; service_stays = refl; ours = inr (owner, refl, refl) }) (inl refl)

abbrev running : Pod
running = pod_named "mnist-0" "Running" []

first_id : two_workers.spec.runtime_id ≢ (numbered.generate "" 0).0
unfolding decimal
first_id e = cc

-- With one of the two workers active, the service of the workers is lost, as the claim for the parameter
-- servers shows.
action_forgets_example :
    let job = (action (listing both).names (distributed (running ∷ []) [], 0)).1.0.tf_job in
    let selector = holds (match_labels job tf_replica_ps) in
    let (r, s) = get_services_for_tf_job (listing both) job tf_replica_ps (quiet both) in
    (r
      ≡ ok (
          claimed_by (listing both) job selector (ps_service ∷ [])
          ++ claimed_by (listing both) job selector []))
    × (s.calls
        ≡ []
          ++ (patches_by (listing both) job selector (ps_service ∷ [])
              ++ release_of (listing both) job selector worker_service
                ∷ patches_by (listing both) job selector []))
unfolding expected_workers int32 ◌-ℤ◌ match_labels lookup
action_forgets_example =
    action_forgets (listing both) true (distributed (running ∷ []) []) 0 two_workers-IsDistributed
      tf_replica_worker tf_replica_ps (ps_service ∷ []) worker_service [] (quiet both)
      (listing-IsOpen both) selecting_sound (omega arith) first_id refl refl refl
      (record { ref = owner; owned = refl; same = refl; found = refl }) refl
