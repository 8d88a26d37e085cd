-- ===== src/Platform/Patches.antt =====
-- The data of the patches by which an object is adopted and released: the same for pods, where
-- PodControllerRefManager of Kubernetes makes them, and for services.
use Prim.Native.String.{◌++◌}
use kubeflow_controller.Common.{String, ◌≡◌, ◌⊎◌}
use kubeflow_controller.Api.{ObjectMeta}

-- A controllerRef to the owner is put on the object with this UID.
abbrev pub adoption : ObjectMeta → (version kind uid : String) → String
adoption owner version kind uid =
    "{\"metadata\":{\"ownerReferences\":[{\"apiVersion\":\"" ++ version ++ "\",\"kind\":\"" ++ kind
    ++ "\",\"name\":\"" ++ owner.name ++ "\",\"uid\":\"" ++ owner.uid
    ++ "\",\"controller\":true,\"blockOwnerDeletion\":true}],\"uid\":\"" ++ uid ++ "\"}}"

-- The reference to the owner is taken off the object with this UID.
abbrev pub release : ObjectMeta → (uid : String) → String
release owner uid =
    "{\"metadata\":{\"ownerReferences\":[{\"$patch\":\"delete\",\"uid\":\"" ++ owner.uid
    ++ "\"}],\"uid\":\"" ++ uid ++ "\"}}"

-- An object is adopted for this owner, or released from it.
abbrev pub IsOwnership : ObjectMeta → String → Type 0
IsOwnership owner patch =
    (uid : String) × (((version : String) × (kind : String) × (patch
          ≡ adoption owner version kind uid))
      ⊎ (patch ≡ release owner uid))
