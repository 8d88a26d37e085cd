-- ===== src/Scenarios/Courses.antt =====
-- A local job on a cluster that makes the pods that it is asked for, beside a pod of another job.
use kubeflow_controller.Common.{
  String, Bool, true, false, Option, none, some, List, [], ◌∷◌, ◌++◌, ◌≡◌, inl, inr, refl, sym, ap,
  ◌∙◌, arith, ◌&&◌, str_eq, eq_refl,
}
use kubeflow_controller.Common.Int.{pos, int32}
use kubeflow_controller.Common.Map.{Map, lookup}
use kubeflow_controller.Common.Text.{decimal}
use kubeflow_controller.Common.Outcome.{ok, fail, Err}
use kubeflow_controller.Api.{OwnerReference, PodTemplateSpec, Pod, TfJob}
use kubeflow_controller.Checker.{tf_replica_local, is_local_job}
use kubeflow_controller.Platform.{Platform, Sync}
use kubeflow_controller.Platform.Machinery.{Machinery}
use kubeflow_controller.Platform.Cluster.{Cluster, Call, create_pod, update_job}
use kubeflow_controller.Platform.Pods.{controlled, PodLaws}
use kubeflow_controller.Controller.Labels.{match_labels}
use kubeflow_controller.Controller.Manage.Started.{template_of}
use kubeflow_controller.Controller.Util.{new_controller_ref}
use kubeflow_controller.Controller.Helper.{get_pods_for_tf_job, claim_listed_pods}
use kubeflow_controller.Controller.Handlers.{add_pod}
use kubeflow_controller.Controller.Sync.{Controller, sync_job}
use kubeflow_controller.Controller.Sync.Started.{HasNoPod}
use kubeflow_controller.Controller.Sync.Settled.{settled}
use kubeflow_controller.Controller.Sync.Course.{HasAppeared, local_job-runs}
use kubeflow_controller.Scenarios.Fixtures.{
  chosen, small_platform, small_machinery, counters-laws, missing,
}
use kubeflow_controller.Scenarios.Jobs.{owner, local_job, local_job-HasTemplate, meta_of, pod_named}

-- Two sets of labels agree on these keys.
abbrev same_value : Option String → Option String → Bool
same_value none none = true
same_value none (some _) = false
same_value (some _) none = false
same_value (some a) (some b) = str_eq a b

abbrev agree : Map String → Map String → Map String → Bool
agree [] ls set = true
agree ((key, _) ∷ keys) ls set = same_value (lookup key ls) (lookup key set) && agree keys ls set

same_value_refl : (o : Option String) → same_value o o ≡ true
same_value_refl none = refl
same_value_refl (some a) = eq_refl a

agree_refl : (keys ls : Map String) → agree keys ls ls ≡ true
agree_refl [] ls = refl
agree_refl ((key, _) ∷ keys) ls =
    ground (arith, same_value_refl (lookup key ls), agree_refl keys ls)

abbrev comparing : Machinery
comparing = record small_machinery { label_selector = λ ls. ok (agree ls ls) }

-- The pods of the cluster are its world; what is created runs at once.
abbrev made_pod : PodTemplateSpec → OwnerReference → Pod
made_pod template ref = record {
  metadata = record (meta_of "mnist-0" (ref ∷ [])) { labels = template.labels };
  phase = "Running";
}

abbrev create : Call → List Pod → Option Err × List Pod
create (create_pod namespace template ref) pods = (none, made_pod template ref ∷ pods)
create call pods = (none, pods)

abbrev making : Cluster
making = record {
  World = List Pod;
  respond = create;
  list_pods = λ namespace pods. ok pods;
  list_services = λ namespace pods. ok [];
  fresh_job = λ namespace name pods. fail missing;
  claim_pods = λ meta selector may pods w. (ok (controlled comparing meta pods), ([], w));
}

making-PodLaws : PodLaws comparing making
making-PodLaws = record {
  selector_own = λ ls made. ap (λ r. chosen r ls) (sym made) ∙ agree_refl ls ls;
  claim_pods-quiet = λ meta selector may pods w quiet. refl;
}

abbrev growing : Platform
growing = record small_platform { machinery = comparing; cluster = making }

abbrev their_pod : Pod
their_pod = pod_named "theirs" "Running" (record owner { uid = "other" } ∷ [])

abbrev first : Sync growing
first = record {
  session = record { world = their_pod ∷ []; calls = [] };
  gen = 0;
  store = λ key. none;
}

no_pod : HasNoPod growing local_job first.session
unfolding get_pods_for_tf_job claim_listed_pods
no_pod = record { after = first.session; listed = refl; filter_none = refl }

abbrev after_first : TfJob × Sync growing
after_first = (sync_job growing true (local_job, first)).1

-- The controller after the first sync, before the event of the pod.
abbrev waiting : Controller growing
waiting = record { sync = after_first.1; jobs = some after_first.0; queue = ([], []) }

abbrev template : PodTemplateSpec
template = template_of growing local_job local_job-HasTemplate "0"

abbrev pod : Pod
pod = made_pod template (new_controller_ref local_job)

appeared : HasAppeared growing after_first.0 template.labels waiting pod
unfolding sync_job new_controller_ref match_labels int32 decimal
appeared = record {
  cached = refl;
  labels_lem = refl;
  near = refl;
  owner_lem = refl;
  selector =
      agree (match_labels after_first.0 tf_replica_local)
        (match_labels after_first.0 tf_replica_local);
  made = refl;
  before = [];
  after = their_pod ∷ [];
  listed = refl;
  foreign_before = tt;
  foreign_after = (inr (record owner { uid = "other" }, refl, refl), tt);
}

local_job-runs_example :
    let c' = add_pod growing pod waiting in
    let (_, (job'', s'')) = sync_job growing true (after_first.0, c'.sync) in
    (growing.expectations.satisfied_expectations "mnist" c'.sync.store ≡ true)
    × (job'' ≡ settled pod after_first.0)
    × (s''.session.calls
        ≡ after_first.1.session.calls ++ update_job "default" (settled pod after_first.0) ∷ [])
    × (s''.store "mnist" ≡ some (pos 0))
unfolding is_local_job decimal no_pod
local_job-runs_example =
    local_job-runs growing local_job first local_job-HasTemplate no_pod counters-laws making-PodLaws
      refl refl refl refl waiting pod refl appeared (inl refl)
