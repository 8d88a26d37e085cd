-- ===== src/Controller/Manage/Pending.antt =====
-- What a job waits for after manageTFJob has asked for its pods.
use mathlib.Core.Option
use kubeflow_controller.Common.{
  ℕ, suc, ◌<◌, String, Bool, true, some, List, ◌++◌, ◌≡◌, ◌⊎◌, inl, inr, ap, ◌∙◌, eq_refl, if_true,
}
use kubeflow_controller.Common.Int.{ℤ, pos, ◌-ℤ◌, rounds}
use kubeflow_controller.Common.Outcome.{ok, fail, Err}
use kubeflow_controller.Checker.{tf_replica_worker}
use kubeflow_controller.Platform.{Platform, Sync}
use kubeflow_controller.Platform.Cluster.{Call}
use kubeflow_controller.Platform.Expectations.{ExpectationsLaws}
use kubeflow_controller.Platform.Machinery.{Selects}
use kubeflow_controller.Controller.Labels.{match_labels}
use kubeflow_controller.Controller.Util.{new_controller_ref}
use kubeflow_controller.Tensorflow.Types.{should_add_worker}
use kubeflow_controller.Tensorflow.Distributed.Spec.{DistributedJob}
use kubeflow_controller.Controller.Manage.{manage_action, expect}
use kubeflow_controller.Controller.Manage.Rounds.{IsReady}
use kubeflow_controller.Controller.Manage.Pods.{PodsFrom, Taken, LastRefused, add_pods-creates}

module _ (p : Platform) (laws : ExpectationsLaws p.expectations) (key : String) where
  open p use {expectations}

  pending-expect_self :
      (n : ℤ) (s : expectations.Store)
      → expectations.pending key (expectations.expect_creations key n s) ≡ some n
  pending-expect_self n s = laws.pending-expect key key n s ∙ if_true _ _ (eq_refl key)

  -- An observed creation is one less to wait for.
  pub pending-observed_self :
      (n : ℤ) (s : expectations.Store)
      → expectations.pending key s ≡ some n
      → expectations.pending key (expectations.creation_observed key s) ≡ some (n -ℤ pos 1)
  pending-observed_self n s e =
      laws.pending-observed key key s
      ∙ if_true _ _ (eq_refl key)
      ∙ ap (Option.map (λ m. m -ℤ pos 1)) e

  -- The event that asks for n workers, on a job that is ready for it, sends requests for pods and nothing
  -- else, numbered from 0 on. Either the API server takes them all: then all n are asked for, and n
  -- creations are expected. Or it takes k and refuses the next (k < n): then that is the last one, its
  -- error is returned, and n - 1 creations are expected whatever k is, though only k pods were made.
  pub workers_pending :
      (b : Bool) (n : ℤ) (dj : DistributedJob) (sy : Sync p) (h : IsReady b true dj)
      → Selects (match_labels dj.tf_job tf_replica_worker) h.labels
      → let (r, s') = manage_action p key should_add_worker n (dj, sy) in
        let left = expectations.pending key s'.1.store in
        let Pods =
          PodsFrom dj.tf_job.metadata.namespace
            (new_controller_ref dj.tf_job)
            (match_labels dj.tf_job tf_replica_worker)
            0 in
        (created : List Call) × (s'.1.session.calls ≡ sy.session.calls ++ created)
        × (((r ≡ ok tt)
              × Taken p.cluster created sy.session.world
              × Pods (rounds n) created
              × (left ≡ some n))
            ⊎ ((e : Err) × (k : ℕ) × (r ≡ fail e)
                × LastRefused p.cluster e created sy.session.world
                × (k < rounds n)
                × Pods (suc k) created
                × (left ≡ some (n -ℤ pos 1))))
  unfolding manage_action
  workers_pending b n dj sy h sel =
      let start = expect p key n sy in
      let (created, calls, ends) = add_pods-creates p key b true (rounds n) 0 dj start h sel in
      (
        created,
        calls,
        elim ends [
          | inl (r, taken, pods, store) ↦
              inl (
                r,
                taken,
                pods,
                ap (expectations.pending key) store ∙ pending-expect_self n sy.store,
              )
          | inr (e, k, r, refused, below, pods, store) ↦ inr (
            e,
            k,
            r,
            refused,
            below,
            pods,
            ap (expectations.pending key) store
                ∙ pending-observed_self n start.store (pending-expect_self n sy.store),
          )
        ],
      )
