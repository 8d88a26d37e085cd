-- ===== src/Controller/Sync/Writes.antt =====
-- What the sync of a local job may send while the job waits for its creations.
use kubeflow_controller.Common.{
  Bool, true, false, List, [], ◌∷◌, ◌++◌, ◌≡◌, ◌⊎◌, inl, refl, arith, sym,
}
use mathlib.Core.Path.{subst}
use kubeflow_controller.Common.Go.{◌>>=◌}
use kubeflow_controller.Common.Outcome.{Outcome, ok, fail, panic}
use kubeflow_controller.Checker.{tf_replica_local, is_local_job}
use kubeflow_controller.Api.{TfJob}
use kubeflow_controller.Platform.{Platform, Sync}
use kubeflow_controller.Platform.Cluster.{Call, update_job}
use kubeflow_controller.Controller.Helper.Patches.{pod_patches}
use kubeflow_controller.Controller.Sync.{
  sync_local, sync_job, update_tf_job, sync_kind, update_if, Syncing,
}
use kubeflow_controller.Controller.Sync.Deferred.{sync_local-deferred}

module _ (p : Platform) where
  pub update_tf_job-calls :
      (s : Syncing p)
      → (update_tf_job p s).1.1.session.calls
        ≡ s.1.session.calls ++ update_job s.0.metadata.namespace s.0 ∷ []
  unfolding update_tf_job
  update_tf_job-calls s = ground arith

  -- Beside the request it changes nothing.
  pub update_tf_job-keeps :
      (t : Syncing p)
      → let (_, (job', t')) = update_tf_job p t in
        (job' ≡ t.0) × (t'.store ≡ t.1.store) × (t'.gen ≡ t.1.gen)
  unfolding update_tf_job
  update_tf_job-keeps t = ground arith

  -- The end of a sync, for what the part before it came to.
  abbrev ended : Outcome Bool × Syncing p → Outcome (Unit {0}) × Syncing p
  ended x = ((λ (_ : Syncing p). x) >>= update_if p) x.1

  abbrev Sends : List Call → Syncing p → Type 0
  Sends calls (job, s) =
      (s.session.calls ≡ calls)
      ⊎ (s.session.calls ≡ calls ++ update_job job.metadata.namespace job ∷ [])

  ended-Sends :
      (calls : List Call) (x : Outcome Bool × Syncing p)
      → x.1.1.session.calls ≡ calls
      → Sends calls (ended x).1
  unfolding update_if update_tf_job
  ended-Sends calls (ok true, s) e = ground (arith, update_tf_job-calls s)
  ended-Sends calls (ok false, s) e = inl e
  ended-Sends calls (fail f, s) e = inl e
  ended-Sends calls (panic f, s) e = inl e

  sync_job-ended :
      (job : TfJob) (s : Sync p)
      → is_local_job job ≡ ok true
      → sync_job p false (job, s) ≡ ended (sync_local p false (job, s))
  unfolding sync_job sync_kind
  sync_job-ended job s h = rw (h, sync_job) refl

  -- While a local job waits for its creations, the whole sync sends nothing but the patches of its pods and, at most, the update of
  -- the job itself.
  pub sync_job-deferred :
      (job : TfJob) (s : Sync p)
      → is_local_job job ≡ ok true
      → let (_, (job', s')) = sync_job p false (job, s) in
        let claims = pod_patches p job tf_replica_local s.session.world in
        (s'.session.calls ≡ s.session.calls ++ claims)
        ⊎ (s'.session.calls
            ≡ s.session.calls ++ claims ++ update_job job'.metadata.namespace job' ∷ [])
  sync_job-deferred job s h =
      subst
        (λ end. Sends (s.session.calls ++ pod_patches p job tf_replica_local s.session.world) end.1)
        (sym (sync_job-ended job s h))
        (ended-Sends (s.session.calls ++ pod_patches p job tf_replica_local s.session.world)
          (sync_local p false (job, s)) (sync_local-deferred p job s).0)
