-- ===== src/Api/Core.antt =====
-- Pods, pod templates, services and replica sets.
use kubeflow_controller.Common.{ℕ, String, Option, List}
use kubeflow_controller.Common.Map.{Map}
use kubeflow_controller.Api.Meta.{ObjectMeta}

pub record Container : Type 0 where
  pub name : String
  pub image : String
  pub args : List String

-- v1.PodTemplateSpec: its labels, and the containers of its pod spec
pub record PodTemplateSpec : Type 0 where
  pub labels : Option (Map String)
  pub containers : List Container

-- v1.Pod; `phase` is Status.Phase
pub record Pod : Type 0 where
  pub metadata : ObjectMeta
  pub phase : String

pub record ServicePort : Type 0 where
  pub name : String
  pub port : ℕ

-- v1.Service; `selector` and `ports` are of its spec
pub record Service : Type 0 where
  pub metadata : ObjectMeta
  pub selector : Option (Map String)
  pub ports : List ServicePort

pub record ReplicaSet : Type 0 where
  pub metadata : ObjectMeta
