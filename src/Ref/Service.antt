-- ===== src/Ref/Service.antt =====
-- pkg/controller/ref/service.go
use Prim.Native.String.{◌++◌}
use kubeflow_controller.Common.{
  String, Bool, true, false, Option, none, some, List, [], ◌∷◌, ◌++◌ as append, ◌&&◌, if◌then◌else◌,
}
use kubeflow_controller.Common.Map.{Map}
use kubeflow_controller.Common.Outcome.{Outcome, ok, fail, panic, Err, errorf, cannot_adopt}
use kubeflow_controller.Common.Go.{Go, lift, zoom, ◌>>=◌}
use kubeflow_controller.Api.{ObjectMeta, Service}
use kubeflow_controller.Platform.Machinery.{Machinery}
use kubeflow_controller.Platform.Cluster.{Cluster, Session}
use kubeflow_controller.Control.Create.{patch_the_service}
use kubeflow_controller.Ref.Base.{RefManager, State, can_adopt, claim_object}

unfoldable pub new_service_controller_ref_manager :
    {cluster : Cluster}
    → ObjectMeta
    → (Map String → Bool)
    → String
    → String
    → (cluster.World → Outcome (Unit {0}))
    → RefManager cluster
new_service_controller_ref_manager controller selector group_version kind can_adopt = record {
  controller = controller;
  selector = selector;
  can_adopt_err = none;
  can_adopt_once = false;
  can_adopt_func = some can_adopt;
  controller_group_version = group_version;
  controller_kind = kind;
}

-- labels.Set(labels): a nil map has no labels
abbrev pub label_set : Option (Map String) → Map String
label_set none = []
label_set (some ls) = ls

all_pass : List (Service → Bool) → Service → Bool
all_pass [] service = true
all_pass (filter ∷ filters) service = filter service && all_pass filters service

module _ (m : Machinery) (cluster : Cluster) where
  unfoldable pub add_controller_patch : RefManager cluster → ObjectMeta → String
  add_controller_patch rm meta =
      "{\"metadata\":{\"ownerReferences\":[{\"apiVersion\":\"" ++ rm.controller_group_version
      ++ "\",\"kind\":\"" ++ rm.controller_kind ++ "\",\"name\":\"" ++ rm.controller.name
      ++ "\",\"uid\":\"" ++ rm.controller.uid
      ++ "\",\"controller\":true,\"blockOwnerDeletion\":true}],\"uid\":\"" ++ meta.uid ++ "\"}}"

  unfoldable pub delete_owner_ref_patch : RefManager cluster → ObjectMeta → String
  delete_owner_ref_patch rm meta =
      "{\"metadata\":{\"ownerReferences\":[{\"$patch\":\"delete\",\"uid\":\"" ++ rm.controller.uid
      ++ "\"}],\"uid\":\"" ++ meta.uid ++ "\"}}"

  -- A request to the cluster, from a method of the manager.
  abbrev pub on_session : Go (Session cluster) (Unit {0}) → Go (State m cluster) (Unit {0})
  on_session = zoom (λ s. s.1) (λ session s. (s.0, session))

  unfoldable pub adopt_if :
      ObjectMeta → Outcome (Unit {0}) × State m cluster → Outcome (Unit {0}) × State m cluster
  unfolding patch_the_service add_controller_patch
  adopt_if meta (ok _, s) =
      on_session
        (patch_the_service m cluster meta.namespace meta.name (add_controller_patch s.0 meta)) s
  adopt_if meta (fail e, s) = (fail (errorf cannot_adopt), s)
  adopt_if meta (panic p, s) = (panic p, s)

  unfoldable pub adopt_service : ObjectMeta → Go (State m cluster) (Unit {0})
  unfolding can_adopt adopt_if
  adopt_service meta s = adopt_if meta (can_adopt m cluster s)

  -- Not-found and invalid errors are ignored.
  abbrev pub ignore_gone :
      Outcome (Unit {0}) × State m cluster → Outcome (Unit {0}) × State m cluster
  ignore_gone (ok _, s) = (ok tt, s)
  ignore_gone (fail e, s) =
      (if m.is_not_found e then ok tt else if m.is_invalid e then ok tt else fail e, s)
  ignore_gone (panic p, s) = (panic p, s)

  unfoldable pub release_service : ObjectMeta → Go (State m cluster) (Unit {0})
  unfolding patch_the_service delete_owner_ref_patch
  release_service meta s = ignore_gone (
      on_session
        (patch_the_service m cluster meta.namespace meta.name (delete_owner_ref_patch s.0 meta)) s)

  -- The closure `match` of ClaimServices.
  unfoldable pub matches : RefManager cluster → List (Service → Bool) → Service → Bool
  unfolding all_pass
  matches rm filters service =
      if rm.selector (label_set service.metadata.labels) then all_pass filters service else false

  unfoldable pub claim_one : List (Service → Bool) → Service → Go (State m cluster) Bool
  unfolding claim_object adopt_service release_service matches
  claim_one filters service s =
      claim_object m cluster service.metadata (λ _. matches s.0 filters service)
        (adopt_service service.metadata) (release_service service.metadata) s

  -- A round of the loop: an error is collected, and the loop goes on.
  abbrev pub collect :
      Service → List Service × List Err → Outcome Bool → Outcome (List Service × List Err)
  collect service (claimed, errs) (ok b) =
      ok (if b then append claimed (service ∷ []) else claimed, errs)
  collect service (claimed, errs) (fail e) = ok (claimed, append errs (e ∷ []))
  collect service acc (panic p) = panic p

  unfoldable pub claim_loop :
      List (Service → Bool)
      → List Service
      → List Service × List Err
      → Go (State m cluster) (List Service × List Err)
  unfolding claim_one
  claim_loop filters [] acc s = (ok acc, s)
  claim_loop filters (service ∷ services) acc s =
      let (r, s') = claim_one filters service s in
      (lift (collect service acc r) >>= claim_loop filters services) s'

  abbrev aggregate : Outcome (List Service × List Err) → Outcome (List Service × Option Err)
  aggregate (ok (claimed, errs)) = ok (claimed, m.new_aggregate errs)
  aggregate (fail e) = fail e
  aggregate (panic p) = panic p

  -- The services claimed, and the aggregate of the errors, which is nil if there were none.
  unfoldable pub claim_services :
      List Service → List (Service → Bool) → Go (State m cluster) (List Service × Option Err)
  unfolding claim_loop
  claim_services services filters s =
      let (r, s') = claim_loop filters services ([], []) s in (aggregate r, s')
