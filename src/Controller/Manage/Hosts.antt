-- ===== src/Controller/Manage/Hosts.antt =====
-- The service of a replica: its name among those of the job, and the requests for it.
use Prim.Native.String.{◌++◌}
use kubeflow_controller.Common.{
  ℕ, suc, ◌<◌, String, none, some, List, [], ◌∷◌, ◌++◌ as append, ◌≡◌, ◌≢◌, ◌⊎◌, inl, inr, sym, ap,
  ◌∙◌, arith, eq_iff, eq_refl, str_eq, if◌then◌else◌, if_true, if_false, Bool-cases, ap,
}
use kubeflow_controller.Common.Map.{insert, lookup_or-insert}
use kubeflow_controller.Common.Text.{decimal}
use kubeflow_controller.Api.{Service}
use mathlib.Core.List.{append_assoc}
use kubeflow_controller.Platform.Cluster.{
  Call, create_service, create_pod, create_replica_set, patch_pod, patch_service, patch_replica_set,
  update_job, eventf,
}
use kubeflow_controller.Platform.Requests.{Added}
use kubeflow_controller.Updater.Table.{IsType}
use kubeflow_controller.Tensorflow.Distributed.Spec.{
  DistributedJob, service_name, host, get_labels, worker_port, port_name,
}
use kubeflow_controller.Tensorflow.Distributed.Names.{service_name_inj}

-- The job when a service is named for a replica.
abbrev pub named : DistributedJob → String → ℕ → String → DistributedJob
named dj typ i name = record dj {
  service_names = insert (service_name dj.tf_job.metadata.name typ i) name dj.service_names;
}

abbrev pub with_port : String → String
with_port name = name ++ ":2222"

host-named :
    (dj : DistributedJob) (typ typ' : String) (i j : ℕ) (name : String)
    → host (named dj typ i name) typ' j ≡ (
        if str_eq
          (service_name dj.tf_job.metadata.name typ i)
          (service_name dj.tf_job.metadata.name typ' j)
        then with_port name
        else host dj typ' j)
unfolding host decimal
host-named dj typ typ' i j name =
    let k = service_name dj.tf_job.metadata.name typ i in
    let k' = service_name dj.tf_job.metadata.name typ' j in
    let found = lookup_or-insert "" k k' name dj.service_names in
    elim (Bool-cases (str_eq k k')) [
      | inl e ↦ ap with_port (found ∙ if_true _ _ e) ∙ sym (if_true _ _ e)
      | inr e ↦ ap with_port (found ∙ if_false _ _ e) ∙ sym (if_false _ _ e)
    ]

together : (typ typ' : String) (i j : ℕ) → (typ ≢ typ') ⊎ (j < i) → (typ ≡ typ') × (i ≡ j) → ⊥
together typ typ' i j (inl d) same = d same.0
together typ typ' i j (inr l) same = omega (arith, same.1)

pub host-named_self :
    (dj : DistributedJob) (typ : String) (i : ℕ) (name : String)
    → host (named dj typ i name) typ i ≡ with_port name
host-named_self dj typ i name =
    host-named dj typ typ i i name
    ∙ if_true _ _ (eq_refl (service_name dj.tf_job.metadata.name typ i))

pub host-apart :
    (dj : DistributedJob) (typ typ' : String) (i j : ℕ) (name : String)
    → IsType typ
    → IsType typ'
    → (typ ≢ typ') ⊎ (j < i)
    → host (named dj typ i name) typ' j ≡ host dj typ' j
host-apart dj typ typ' i j name k k' apart =
    let a = service_name dj.tf_job.metadata.name typ i in
    let b = service_name dj.tf_job.metadata.name typ' j in
    host-named dj typ typ' i j name ∙ elim (Bool-cases (str_eq a b)) [
      | inl e ↦ absurd (
          together typ typ' i j apart
            (service_name_inj dj.tf_job.metadata.name i j k k' ((eq_iff a b).0 e)))
      | inr e ↦ if_false _ _ e
    ]

pub still_apart :
    (typ typ' : String) (i j : ℕ) → (typ ≢ typ') ⊎ (j < i) → (typ ≢ typ') ⊎ (j < suc i)
still_apart typ typ' i j (inl d) = inl d
still_apart typ typ' i j (inr l) = inr (omega arith)

-- The service that GetService makes.
abbrev pub made_service : DistributedJob → String → ℕ → String → Service
made_service dj typ i name =
    let ls = insert "index" (decimal i) (get_labels dj typ) in
    record {
      metadata = record {
        name = name;
        namespace = "";
        uid = "";
        resource_version = "";
        labels = some ls;
        owner_references = [];
        deletion_timestamp = none;
      };
      selector = some ls;
      ports = record { name = port_name; port = worker_port } ∷ [];
    }

-- A request that the loops over services make: for a service, or an event.
abbrev pub IsServiceCall : Call → Type 0
IsServiceCall (create_service namespace service) = Unit
IsServiceCall (eventf typ reason) = Unit
IsServiceCall (create_pod namespace template ref) = ⊥
IsServiceCall (create_replica_set namespace replica_set) = ⊥
IsServiceCall (patch_pod namespace name patch) = ⊥
IsServiceCall (patch_service namespace name patch) = ⊥
IsServiceCall (patch_replica_set namespace name patch) = ⊥
IsServiceCall (update_job namespace job) = ⊥

-- The same, where each service is such a one.
abbrev pub Creates : (Service → Type 0) → Call → Type 0
Creates P (create_service namespace service) = P service
Creates P (eventf typ reason) = Unit
Creates P (create_pod namespace template ref) = ⊥
Creates P (create_replica_set namespace replica_set) = ⊥
Creates P (patch_pod namespace name patch) = ⊥
Creates P (patch_service namespace name patch) = ⊥
Creates P (patch_replica_set namespace name patch) = ⊥
Creates P (update_job namespace job) = ⊥

pub Creates-map :
    (P Q : Service → Type 0)
    → ((service : Service) → P service → Q service)
    → (call : Call) → Creates P call
    → Creates Q call
Creates-map P Q f (create_service namespace service) h = f service h
Creates-map P Q f (eventf typ reason) h = tt
Creates-map P Q f (create_pod namespace template ref) h = absurd h
Creates-map P Q f (create_replica_set namespace replica_set) h = absurd h
Creates-map P Q f (patch_pod namespace name patch) h = absurd h
Creates-map P Q f (patch_service namespace name patch) h = absurd h
Creates-map P Q f (patch_replica_set namespace name patch) h = absurd h
Creates-map P Q f (update_job namespace job) h = absurd h

pub Creates-IsServiceCall :
    (P : Service → Type 0) (call : Call) → Creates P call → IsServiceCall call
Creates-IsServiceCall P (create_service namespace service) h = tt
Creates-IsServiceCall P (eventf typ reason) h = tt
Creates-IsServiceCall P (create_pod namespace template ref) h = absurd h
Creates-IsServiceCall P (create_replica_set namespace replica_set) h = absurd h
Creates-IsServiceCall P (patch_pod namespace name patch) h = absurd h
Creates-IsServiceCall P (patch_service namespace name patch) h = absurd h
Creates-IsServiceCall P (patch_replica_set namespace name patch) h = absurd h
Creates-IsServiceCall P (update_job namespace job) h = absurd h

pub service_and_event :
    (P : Service → Type 0) (calls : List Call) (namespace : String) (service : Service)
    (typ reason : String)
    → P service
    → Added
        (Creates P)
        calls
        (append (append calls (create_service namespace service ∷ [])) (eventf typ reason ∷ []))
service_and_event P calls namespace service typ reason h = (
  create_service namespace service ∷ eventf typ reason ∷ [],
  append_assoc calls (create_service namespace service ∷ []) (eventf typ reason ∷ []),
  (h, (tt, tt)),
)
