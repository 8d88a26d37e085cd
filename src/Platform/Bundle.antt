-- ===== src/Platform/Bundle.antt =====
-- All that the controller is built from (NewController's arguments and what it makes of them).
use kubeflow_controller.Platform.Machinery.{Machinery}
use kubeflow_controller.Platform.Cluster.{Cluster, Session}
use kubeflow_controller.Platform.Expectations.{Expectations}
use kubeflow_controller.Platform.Queue.{WorkQueue, JobCache}
use kubeflow_controller.Tensorflow.Types.{NameGenerator}

pub record Platform : Type 1 where
  pub machinery : Machinery
  pub cluster : Cluster
  pub expectations : Expectations
  pub names : NameGenerator
  pub cache : JobCache
  pub workqueue : WorkQueue

-- What a sync of one job changes beside the job: the cluster, the name generator, the expectations.
pub record Sync (p : Platform) : Type 0 where
  pub session : Session p.cluster
  pub gen : p.names.Gen
  pub store : p.expectations.Store
