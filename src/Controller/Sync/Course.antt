-- ===== src/Controller/Sync/Course.antt =====
-- The course of a local job: from the sync that asks for its pod, over the event of that pod, to the sync
-- that finds it.
use kubeflow_controller.Common.{
  String, Bool, true, Option, none, some, List, [], ◌∷◌, ◌++◌, ◌≡◌, inl, inr, refl, sym, ap, ◌∙◌,
  arith, All, eq_iff, eq_refl,
}
use mathlib.Core.Path.{subst}
use kubeflow_controller.Common.Int.{pos, ◌-ℤ◌}
use kubeflow_controller.Common.Map.{Map}
use kubeflow_controller.Common.Outcome.{ok}
use kubeflow_controller.Api.{Pod, TfJob, set_phase}
use kubeflow_controller.Checker.{tf_replica_local, is_local_job}
use kubeflow_controller.Platform.{Platform, Sync}
use kubeflow_controller.Platform.Cluster.{create_pod, update_job}
use kubeflow_controller.Updater.Distributed.{tf_job_running}
use kubeflow_controller.Platform.Expectations.{ExpectationsLaws}
use kubeflow_controller.Platform.Pods.{IsForeign, IsOwn, PodLaws}
use kubeflow_controller.Tensorflow.Local.Needs.{HasTemplate}
use kubeflow_controller.Controller.Labels.{match_labels}
use kubeflow_controller.Controller.Util.{new_controller_ref}
use kubeflow_controller.Controller.Helper.{get_pods_for_tf_job}
use kubeflow_controller.Controller.Helper.Patches.{pod_patches, get_pods-calls}
use kubeflow_controller.Controller.Helper.Pods.{get_pods-one}
use kubeflow_controller.Controller.Manage.Pending.{pending-observed_self}
use kubeflow_controller.Controller.Manage.Settled.{Serves}
use kubeflow_controller.Controller.Manage.Started.{started, template_of}
use kubeflow_controller.Controller.Handlers.{add_pod, resolve_controller_ref}
use kubeflow_controller.Controller.Handlers.Observed.{LeadsTo, observed, observe_object_lem}
use kubeflow_controller.Controller.Sync.{Controller, sync_job}
use kubeflow_controller.Controller.Sync.Started.{HasNoPod, sync_job-starts}
use kubeflow_controller.Controller.Sync.Settled.{settled, after_one}

module _ (job : TfJob) (h : HasTemplate job) where
  typ-local : is_local_job job ≡ ok true → h.typ ≡ tf_replica_local
  unfolding is_local_job
  typ-local kind = ground (arith, eq_iff h.typ tf_replica_local)

-- The pod of a job, with these labels, is in the caches, and so is the job. Selectors can be made of the
-- job's labels; every other pod of the namespace has another controller, or none and is not selected.
pub record HasAppeared (p : Platform) (job : TfJob) (labels : Option (Map String))
    (c : Controller p) (pod : Pod) : Type 0 where
  pub cached : p.cache.get job.metadata.namespace job.metadata.name c.jobs ≡ ok job
  pub labels_lem : pod.metadata.labels ≡ labels
  pub near : pod.metadata.namespace ≡ job.metadata.namespace
  pub owner_lem : p.machinery.get_controller_of pod.metadata ≡ some (new_controller_ref job)
  pub selector : Map String → Bool
  pub made : p.machinery.label_selector (match_labels job tf_replica_local) ≡ ok selector
  pub before : List Pod
  pub after : List Pod
  pub listed :
      p.cluster.list_pods job.metadata.namespace c.sync.session.world ≡ ok (before ++ pod ∷ after)
  pub foreign_before : All (IsForeign p.machinery job.metadata selector) before
  pub foreign_after : All (IsForeign p.machinery job.metadata selector) after

-- The pod of the job was observed: the job waits for nothing, and its next sync finds the pod.
Runs :
    (p : Platform) (c : Controller p) (pod : Pod) (key namespace : String)
    → TfJob
    → Controller p
    → Type 0
Runs p c pod key namespace job c' =
    let (_, (job', s')) = sync_job p true (job, c'.sync) in
    (p.expectations.satisfied_expectations key c'.sync.store ≡ true)
    × (job' ≡ settled pod job)
    × (s'.session.calls ≡ c.sync.session.calls ++ update_job namespace (settled pod job) ∷ [])
    × (p.expectations.pending key s'.store ≡ some (pos 0))

module _ (p : Platform) (laws : ExpectationsLaws p.expectations)
    (pod_laws : PodLaws p.machinery p.cluster) (job : TfJob) (c : Controller p) (pod : Pod)
    {labels : Option (Map String)} (there : HasAppeared p job labels c pod)
    (found_by : labels ≡ some (match_labels job tf_replica_local)) where
  open p use {machinery, expectations}

  leads : LeadsTo p c.jobs job pod.metadata
  unfolding resolve_controller_ref new_controller_ref
  leads = (
    new_controller_ref job,
    there.owner_lem,
    rw (there.near, there.cached, resolve_controller_ref)
        (ground (arith, eq_refl job.metadata.uid)),
  )

  own : IsOwn machinery job.metadata there.selector pod
  unfolding new_controller_ref
  own = (
    new_controller_ref job,
    there.owner_lem,
    eq_refl job.metadata.uid,
    ap (λ (o : Option (Map String)). there.selector (elim o [ none ↦ [] | some ls ↦ ls ]))
          (there.labels_lem ∙ found_by)
        ∙ pod_laws.selector_own (match_labels job tf_replica_local) there.made,
  )

  finds :
      get_pods_for_tf_job p job tf_replica_local c.sync.session ≡ (ok (pod ∷ []), c.sync.session)
  finds =
      get_pods-one p pod_laws job tf_replica_local there.before pod there.after c.sync.session
        there.made there.listed there.foreign_before own there.foreign_after

  -- No patch is needed to claim it.
  quiet :
      c.sync.session.calls
      ≡ c.sync.session.calls ++ pod_patches p job tf_replica_local c.sync.session.world
  quiet = sym (ap (λ x. x.1.calls) finds) ∙ get_pods-calls p job tf_replica_local c.sync.session

  module _ {key : String} (h : HasTemplate job) (kind : is_local_job job ≡ ok true)
      (made : machinery.key_func job.metadata ≡ ok key)
      (waits : expectations.pending key c.sync.store ≡ some (pos 1)) (serves : Serves p pod) where
    met : expectations.pending key (observed p key c).sync.store ≡ some (pos 0)
    unfolding ◌-ℤ◌
    met = pending-observed_self p laws key (pos 1) c.sync.store waits

    added-Runs : Runs p c pod key job.metadata.namespace job (add_pod p pod c)
    unfolding Runs add_pod
    added-Runs =
        let (same, calls, store, _) =
          after_one p true job (observed p key c).sync pod h kind made finds serves in
        subst (Runs p c pod key job.metadata.namespace job)
          (sym (observe_object_lem p pod.metadata job c leads made))
          (
            laws.satisfied_met key (observed p key c).sync.store met (omega arith),
            same,
            calls
                ∙ ap (λ calls. calls ++ update_job job.metadata.namespace (settled pod job) ∷ [])
                    (sym quiet),
            ap (expectations.pending key) store ∙ met,
          )

-- The job after the sync that asked for its pod.
module _ (p : Platform) (job : TfJob) (h : HasTemplate job) (id : String) where
  abbrev after_start : TfJob
  after_start = set_phase tf_job_running (started p job h id)

  after_start-HasTemplate : HasTemplate after_start
  after_start-HasTemplate = record {
    spec = record h.spec { template = some (template_of p job h id) };
    others = h.others;
    typ = h.typ;
    template = template_of p job h id;
    specs_lem = ground arith;
    typ_lem = h.typ_lem;
    template_lem = refl;
  }

  after_start-kind : is_local_job job ≡ ok true → is_local_job after_start ≡ ok true
  unfolding is_local_job
  after_start-kind kind = ground (arith, after_start-HasTemplate.specs_lem)

  -- Its pods are looked for by the labels of the template.
  after_start-labels :
      is_local_job job ≡ ok true
      → (template_of p job h id).labels ≡ some (match_labels after_start tf_replica_local)
  unfolding match_labels
  after_start-labels kind = ap (λ typ. some (match_labels after_start typ)) (typ-local job h kind)

-- The course of a local job that has no pod. Its first sync asks the API server for a pod, which the
-- server takes. Then a pod with the labels and the owner asked for is in the caches, with the job as
-- that sync left it, whatever else has happened, and whatever pods of others are in the namespace; no
-- other creation of the job was observed. Once the event of the pod is handled, the job's expectations
-- are met, and its next sync finds that very pod: it creates nothing, makes one request, the update
-- of the job with a status that counts the pod, and the job waits for nothing. The pod is active or
-- has succeeded; the job is not being deleted and has a key, and a type and a template in its first spec.
pub local_job-runs :
    (p : Platform) (job : TfJob) (s : Sync p) {key : String} (h : HasTemplate job)
    (nothing : HasNoPod p job s.session)
    → ExpectationsLaws p.expectations
    → PodLaws p.machinery p.cluster
    → is_local_job job ≡ ok true
    → p.machinery.key_func job.metadata ≡ ok key
    → job.metadata.deletion_timestamp ≡ none
    → (p.cluster.respond
        (create_pod job.metadata.namespace
          (template_of p job h (p.names.generate "" s.gen).0)
          (new_controller_ref job))
        nothing.after.world).0
      ≡ none
    → (c : Controller p) (pod : Pod)
    → p.expectations.pending key c.sync.store
      ≡ p.expectations.pending key (sync_job p true (job, s)).1.1.store
    → HasAppeared p
        (sync_job p true (job, s)).1.0
        (template_of p job h (p.names.generate "" s.gen).0).labels
        c
        pod
    → Serves p pod
    → let job' = (sync_job p true (job, s)).1.0 in
      let c' = add_pod p pod c in
      let (_, (job'', s'')) = sync_job p true (job', c'.sync) in
      (p.expectations.satisfied_expectations key c'.sync.store ≡ true)
      × (job'' ≡ settled pod job')
      × (s''.session.calls
          ≡ c.sync.session.calls ++ update_job job.metadata.namespace (settled pod job') ∷ [])
      × (p.expectations.pending key s''.store ≡ some (pos 0))
unfolding new_controller_ref Runs
local_job-runs p job s {key} h nothing laws pod_laws kind made alive taken c pod same there serves =
    let id = (p.names.generate "" s.gen).0 in
    let next = after_start p job h id in
    elim (sync_job-starts p job s h nothing laws kind made alive) [
      | inl (_, now, _, left) ↦
          subst (λ job'. Runs p c pod key job.metadata.namespace job' (add_pod p pod c)) (sym now)
            (added-Runs p laws pod_laws next c pod
              (subst (λ job'. HasAppeared p job' (template_of p job h id).labels c pod) now there)
              (after_start-labels p job h id kind) (after_start-HasTemplate p job h id)
              (after_start-kind p job h id kind) made (same ∙ left) serves)
      | inr (e, refused, _, _, _, _) ↦ cc
    ]
