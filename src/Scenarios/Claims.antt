-- ===== src/Scenarios/Claims.antt =====
-- Services of the distributed job, of another job, and of nobody.
use kubeflow_controller.Common.{Bool, true, false, some, none, List, [], ◌∷◌, ◌≡◌, refl}
use kubeflow_controller.Common.Outcome.{ok, fail}
use kubeflow_controller.Api.{OwnerReference, Service}
use kubeflow_controller.Ref.Base.{RefManager, State}
use kubeflow_controller.Ref.Service.{claim_services, matches, add_controller_patch}
use kubeflow_controller.Ref.Claimed.{claim_services_lem}
use kubeflow_controller.Platform.Cluster.{Cluster, Session, patch_service}
use kubeflow_controller.Scenarios.Fixtures.{
  small_machinery, small_machinery-laws, scripted_cluster, fresh_session, missing,
}
use kubeflow_controller.Scenarios.Jobs.{owner, two_workers, meta_of}

abbrev theirs : OwnerReference
theirs = record owner { uid = "other" }

abbrev service_of : List OwnerReference → Service
service_of owners = record { metadata = meta_of "s" owners; selector = none; ports = [] }

abbrev manager : (ok_to_adopt : Bool) → RefManager scripted_cluster
manager ok_to_adopt = record {
  controller = two_workers.metadata;
  selector = λ _. true;
  can_adopt_err = none;
  can_adopt_once = false;
  can_adopt_func = some (λ _. elim ok_to_adopt [ true ↦ ok tt | false ↦ fail missing ]);
  controller_group_version = "v1";
  controller_kind = "TFJob";
}

abbrev start : State small_machinery scripted_cluster
start = (manager true, fresh_session [])

abbrev refusing : State small_machinery scripted_cluster
refusing = (manager false, fresh_session [])

-- An API server that takes every request.
abbrev open_cluster : Cluster
open_cluster = record scripted_cluster { respond = λ _ w. (none, w) }

abbrev willing : RefManager open_cluster
willing = record {
  controller = two_workers.metadata;
  selector = λ _. true;
  can_adopt_err = none;
  can_adopt_once = false;
  can_adopt_func = some (λ _. ok tt);
  controller_group_version = "v1";
  controller_kind = "TFJob";
}

abbrev fresh : Session open_cluster
fresh = record { world = []; calls = [] }

-- A service of nobody is adopted, one of another job is left alone, and the job's own is kept.
claim_services_lem_example :
    let (r, (_, s)) =
      claim_services small_machinery open_cluster
        (service_of [] ∷ service_of (theirs ∷ []) ∷ service_of (owner ∷ []) ∷ [])
        []
        (willing, fresh) in
    (r ≡ ok (service_of [] ∷ service_of (owner ∷ []) ∷ [], none))
    × (s.calls
        ≡ patch_service "default" "s"
            "{\"metadata\":{\"ownerReferences\":[{\"apiVersion\":\"v1\",\"kind\":\"TFJob\",\"name\":\"mnist\",\"uid\":\"mnist\",\"controller\":true,\"blockOwnerDeletion\":true}],\"uid\":\"s\"}}"
          ∷ [])
unfolding matches add_controller_patch
claim_services_lem_example =
    claim_services_lem small_machinery open_cluster (λ call w. refl) willing
      ((λ _. ok tt), refl, refl, (λ w. refl)) small_machinery-laws []
      (service_of [] ∷ service_of (theirs ∷ []) ∷ service_of (owner ∷ []) ∷ []) fresh

abbrev labelled : Service
labelled = record (service_of []) {
  metadata = record (meta_of "s" []) { labels = some (("app", "mnist") ∷ []) };
}
