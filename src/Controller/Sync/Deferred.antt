-- ===== src/Controller/Sync/Deferred.antt =====
-- The sync of a local job that is not to be managed.
use kubeflow_controller.Common.{false, ◌++◌, ◌≡◌, arith}
use kubeflow_controller.Api.{TfJob}
use kubeflow_controller.Checker.{tf_replica_local}
use kubeflow_controller.Platform.{Platform, Sync}
use kubeflow_controller.Controller.Helper.Patches.{pod_patches, get_pods-calls}
use kubeflow_controller.Controller.Sync.{manage_if, sync_local}

module _ (p : Platform) where
  open p use {machinery, cluster, expectations}

  -- While a local job waits for its creations, a sync only looks at it: its pods are claimed, no other request is made and what
  -- the job waits for stays as it is; only the status is worked out.
  pub sync_local-deferred :
      (job : TfJob) (s : Sync p)
      → let (_, (_, s')) = sync_local p false (job, s) in
        (s'.session.calls ≡ s.session.calls ++ pod_patches p job tf_replica_local s.session.world)
        × (s'.store ≡ s.store)
        × (s'.gen ≡ s.gen)
  unfolding sync_local manage_if
  sync_local-deferred job s = ground (arith, get_pods-calls p job tf_replica_local s.session)
