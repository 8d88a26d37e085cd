-- ===== src/Api/Meta.antt =====
-- metav1.OwnerReference and metav1.ObjectMeta.
use kubeflow_controller.Common.{ℕ, String, Bool, Option, List}
use kubeflow_controller.Common.Map.{Map}

pub record OwnerReference : Type 0 where
  pub api_version : String
  pub kind : String
  pub name : String
  pub uid : String
  pub controller : Option Bool  -- *bool
  pub block_owner_deletion : Option Bool  -- *bool

pub record ObjectMeta : Type 0 where
  pub name : String
  pub namespace : String
  pub uid : String
  pub resource_version : String
  pub labels : Option (Map String)  -- a nil map is `none`
  pub owner_references : List OwnerReference
  pub deletion_timestamp : Option ℕ  -- *metav1.Time
