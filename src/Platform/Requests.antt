-- ===== src/Platform/Requests.antt =====
-- Requests that are made on behalf of one job.
use kubeflow_controller.Common.{
  String, Bool, some, true, List, [], ◌∷◌, ◌++◌, ◌≡◌, refl, sym, ap, ◌∙◌, All, All-append, All-map,
}
use mathlib.Core.List.{append-nil, append_assoc}
use mathlib.Core.Path.{subst}
use kubeflow_controller.Common.Go.Keeps.{Preorder}
use kubeflow_controller.Api.{ObjectMeta, Service}
use kubeflow_controller.Common.Map.{Map, lookup}
use kubeflow_controller.Platform.Patches.{IsOwnership}
use kubeflow_controller.Platform.Cluster.{
  Call, create_pod, create_service, create_replica_set, patch_pod, patch_service, patch_replica_set,
  update_job, eventf,
}

-- A service for the job with this metadata: it selects the pods that have its own labels, among which is
-- the job's name.
abbrev pub IsServiceFor : ObjectMeta → Service → Type 0
IsServiceFor meta service =
    (service.selector ≡ service.metadata.labels)
    × ((ls : Map String) × (service.metadata.labels ≡ some ls)
        × (lookup "tf_job_name" ls ≡ some meta.name))

-- A request for the job with this metadata: in its namespace; a pod is owned by the job, a service
-- is one for the job, a patch adopts an object for the job or releases it from the job, and an update
-- keeps the metadata. Pods and services are made only if `may` allows it for the job. Replica sets
-- are neither made nor patched.
abbrev pub IsFor : (ObjectMeta → Bool) → ObjectMeta → Call → Type 0
IsFor may meta (create_pod namespace template ref) =
    (may meta ≡ true)
    × (namespace ≡ meta.namespace)
    × (ref.kind ≡ "TFJob")
    × (ref.name ≡ meta.name)
    × (ref.uid ≡ meta.uid)
    × (ref.controller ≡ some true)
IsFor may meta (create_service namespace service) =
    (may meta ≡ true) × (namespace ≡ meta.namespace) × IsServiceFor meta service
IsFor may meta (patch_service namespace name patch) =
    (namespace ≡ meta.namespace) × IsOwnership meta patch
IsFor may meta (patch_pod namespace name patch) =
    (namespace ≡ meta.namespace) × IsOwnership meta patch
IsFor may meta (update_job namespace job) = (namespace ≡ meta.namespace) × (job.metadata ≡ meta)
IsFor may meta (eventf typ reason) = Unit
IsFor may meta (create_replica_set namespace replica_set) = ⊥
IsFor may meta (patch_replica_set namespace name patch) = ⊥

-- The later list of calls is the earlier one and such requests after it.
abbrev pub Added : (Call → Type 0) → List Call → List Call → Type 0
Added P before after = (new : List Call) × (after ≡ before ++ new) × All P new

module _ (P : Call → Type 0) where
  pub Added-none : (calls : List Call) → Added P calls calls
  Added-none calls = ([], sym (append-nil calls), tt)

  pub Added-trans :
      (before between after : List Call)
      → Added P before between
      → Added P between after
      → Added P before after
  Added-trans before between after (xs, e, hx) (ys, e', hy) = (
    xs ++ ys,
    e' ∙ ap (λ calls. calls ++ ys) e ∙ append_assoc before xs ys,
    All-append P xs ys hx hy,
  )

  pub Added-map :
      (Q : Call → Type 0) (before after : List Call)
      → ((call : Call) → P call → Q call)
      → Added P before after
      → Added Q before after
  Added-map Q before after f (new, e, h) = (new, e, All-map P Q f new h)

  -- If all requests before were such, then so are all after.
  pub Added-All : (before after : List Call) → Added P before after → All P before → All P after
  Added-All before after (new, e, h) k = subst (All P) (sym e) (All-append P before new k h)

-- Requests for the job were added.
abbrev pub Sent : (ObjectMeta → Bool) → ObjectMeta → List Call → List Call → Type 0
Sent may meta = Added (IsFor may meta)

module _ (may : ObjectMeta → Bool) (meta : ObjectMeta) where
  pub Sent-none : (calls : List Call) → Sent may meta calls calls
  Sent-none calls = Added-none (IsFor may meta) calls

  pub Sent-one :
      (calls : List Call) (call : Call)
      → IsFor may meta call
      → Sent may meta calls (calls ++ call ∷ [])
  Sent-one calls call h = (call ∷ [], refl, (h, tt))

  pub Sent-trans :
      (before between after : List Call)
      → Sent may meta before between
      → Sent may meta between after
      → Sent may meta before after
  Sent-trans before between after h k = Added-trans (IsFor may meta) before between after h k

module _ {S : Type 0} (may : ObjectMeta → Bool) where
  -- From a state to one in which the job has the same metadata, and requests for it were made.
  abbrev pub Within : (S → ObjectMeta) → (S → List Call) → Preorder S
  Within meta calls = record {
    Rel = λ s t. (meta t ≡ meta s) × Sent may (meta s) (calls s) (calls t);
    same = λ s. (refl, Sent-none may (meta s) (calls s));
    through = λ s t u h k. (
      k.0 ∙ h.0,
      Sent-trans may (meta s) (calls s) (calls t) (calls u) h.1
          (subst (λ x. Sent may x (calls t) (calls u)) h.0 k.1),
    );
  }

-- There is the patch of a service among the requests.
abbrev pub HasPatch : List Call → Type 0
HasPatch calls =
    (before : List Call) × (namespace : String) × (name : String) × (patch : String) × (after : List
      Call)
    × (calls ≡ before ++ (patch_service namespace name patch ∷ after))

pub HasPatch-left : (xs ys : List Call) → HasPatch xs → HasPatch (xs ++ ys)
HasPatch-left xs ys (before, namespace, name, patch, after, e) = (
  before,
  namespace,
  name,
  patch,
  after ++ ys,
  ap (λ calls. calls ++ ys) e ∙ append_assoc before (patch_service namespace name patch ∷ after) ys,
)

pub HasPatch-right : (xs ys : List Call) → HasPatch ys → HasPatch (xs ++ ys)
HasPatch-right xs ys (before, namespace, name, patch, after, e) = (
  xs ++ before,
  namespace,
  name,
  patch,
  after,
  ap (λ calls. xs ++ calls) e
      ∙ sym (append_assoc xs before (patch_service namespace name patch ∷ after)),
)
