-- ===== src/Controller/Manage/Told.antt =====
-- What the pods of a distributed job are told of: the flags with the hosts of all replicas.
use kubeflow_controller.Common.{
  ℕ, zero, suc, String, Bool, true, false, some, List, [], ◌∷◌, ◌≡◌, ◌⊎◌, inl, inr, refl, ap, ◌∙◌,
  Option-cases,
}
use mathlib.Core.Path.{ap₂}
use Prim.Native.String.{◌++◌}
use kubeflow_controller.Common.Int.{rounds}
use kubeflow_controller.Common.Map.{Map}
use kubeflow_controller.Common.Text.{decimal}
use kubeflow_controller.Common.Outcome.{Outcome, ok, fail, Err}
use kubeflow_controller.Api.{Container, PodTemplateSpec, TfJob}
use kubeflow_controller.Checker.{tf_replica_ps, tf_replica_worker}
use kubeflow_controller.Platform.{Platform, Sync}
use kubeflow_controller.Platform.Cluster.{
  Call, create_pod, create_service, create_replica_set, patch_pod, patch_service, patch_replica_set,
  update_job, eventf,
}
use kubeflow_controller.Platform.Requests.{Added, Added-none, Added-trans}
use kubeflow_controller.Tensorflow.Distributed.Spec.{
  DistributedJob, host, hosts_from, hosts_flag, to_lower,
}
use kubeflow_controller.Tensorflow.Distributed.Compose.{IsDistributed, worker_replicas, ps_replicas}
use kubeflow_controller.Tensorflow.Distributed.Prepare.{
  type_of, template_of, cluster_args, retemplated-IsDistributed,
}
use kubeflow_controller.Controller.Manage.{Managed, add_pods}
use kubeflow_controller.Controller.Manage.Rounds.{
  IsReady, pod_template, pod_job, pod_call, asked, add_pod-created, add_pod-refused,
}

-- A pod whose first container has these two flags before its other arguments; or no pod.
abbrev pub IsTold : String → String → Call → Type 0
IsTold worker_hosts ps_hosts (create_pod namespace template ref) =
    (c : Container) × (cs : List Container) × (role : List String) × (template.containers ≡ c ∷ cs)
    × (c.args ≡ worker_hosts ∷ ps_hosts ∷ role)
IsTold worker_hosts ps_hosts (create_service namespace service) = Unit
IsTold worker_hosts ps_hosts (eventf typ reason) = Unit
IsTold worker_hosts ps_hosts (create_replica_set namespace replica_set) = ⊥
IsTold worker_hosts ps_hosts (patch_pod namespace name patch) = ⊥
IsTold worker_hosts ps_hosts (patch_service namespace name patch) = ⊥
IsTold worker_hosts ps_hosts (patch_replica_set namespace name patch) = ⊥
IsTold worker_hosts ps_hosts (update_job namespace job) = ⊥

-- The hosts depend on the job's name and on the names of its services.
pub hosts_from-same :
    (typ : String) (n i : ℕ) (dj dj' : DistributedJob)
    → ((j : ℕ) → host dj' typ j ≡ host dj typ j)
    → hosts_from dj' typ i n ≡ hosts_from dj typ i n
unfolding hosts_from
hosts_from-same typ zero i dj dj' h = refl
hosts_from-same typ (suc n) i dj dj' h = ap₂ ◌∷◌ (h i) (hosts_from-same typ n (suc i) dj dj' h)

-- A template that GetSpec can prepare.
abbrev pub IsFilled : PodTemplateSpec → Type 0
IsFilled template =
    ((ls : Map String) × (template.labels ≡ some ls))
    × ((c : Container) × (cs : List Container) × (template.containers ≡ c ∷ cs))

-- A distributed job with two such templates.
pub record HasTemplates (b : Bool) (job : TfJob) : Type 0 where
  pub distributed : IsDistributed b job
  pub filled : (w : Bool) → IsFilled (template_of b w distributed)

IsFilled-retemplated :
    (b w w' : Bool) (job : TfJob) (h : IsDistributed b job) (template : PodTemplateSpec)
    → IsFilled template
    → IsFilled (template_of b w' h)
    → IsFilled (template_of b w' (retemplated-IsDistributed b w job h template))
IsFilled-retemplated true true true job h template new old = new
IsFilled-retemplated true true false job h template new old = old
IsFilled-retemplated true false true job h template new old = old
IsFilled-retemplated true false false job h template new old = new
IsFilled-retemplated false true true job h template new old = new
IsFilled-retemplated false true false job h template new old = old
IsFilled-retemplated false false true job h template new old = old
IsFilled-retemplated false false false job h template new old = new

replicas-retemplated :
    (b w : Bool) (job : TfJob) (h : IsDistributed b job) (template : PodTemplateSpec)
    → let h' = retemplated-IsDistributed b w job h template in
      (worker_replicas b h' ≡ worker_replicas b h) × (ps_replicas b h' ≡ ps_replicas b h)
replicas-retemplated true true job h template = (refl, refl)
replicas-retemplated true false job h template = (refl, refl)
replicas-retemplated false true job h template = (refl, refl)
replicas-retemplated false false job h template = (refl, refl)

module _ (b : Bool) where
  abbrev pub worker_flag : (dj : DistributedJob) → IsDistributed b dj.tf_job → String
  worker_flag dj h =
      hosts_flag "--worker_hosts="
        (hosts_from dj tf_replica_worker 0 (rounds (worker_replicas b h)))

  abbrev pub ps_flag : (dj : DistributedJob) → IsDistributed b dj.tf_job → String
  ps_flag dj h = hosts_flag "--ps_hosts=" (hosts_from dj tf_replica_ps 0 (rounds (ps_replicas b h)))

module _ (b : Bool) (worker_hosts ps_hosts : String) where
  -- The job is ready for any round, and its flags are these.
  pub record Tells (dj : DistributedJob) : Type 0 where
    pub templates : HasTemplates b dj.tf_job
    pub worker_flag_lem : worker_flag b dj templates.distributed ≡ worker_hosts
    pub ps_flag_lem : ps_flag b dj templates.distributed ≡ ps_hosts

module _ (b w : Bool) (worker_hosts ps_hosts : String) (dj : DistributedJob) where
  abbrev ready : Tells b worker_hosts ps_hosts dj → IsReady b w dj
  ready t =
      let ((ls, l), (c, cs, k)) = t.templates.filled w in
      record {
        distributed = t.templates.distributed;
        labels = ls;
        container = c;
        containers = cs;
        labels_lem = l;
        containers_lem = k;
      }

  call-IsTold :
      (t : Tells b worker_hosts ps_hosts dj) (i : ℕ)
      → IsTold worker_hosts ps_hosts (pod_call b w dj (ready t) i)
  call-IsTold t i =
      let role : List String =
        ("--job_name=" ++ to_lower (type_of w)) ∷ ("--task_index=" ++ decimal i) ∷ [] in
      (
        record (ready t).container { args = cluster_args b w dj t.templates.distributed i },
        (ready t).containers,
        role,
        refl,
        ap₂ (λ x y. x ∷ y ∷ role) t.worker_flag_lem t.ps_flag_lem,
      )

  next-Tells :
      (t : Tells b worker_hosts ps_hosts dj) (i : ℕ)
      → Tells b worker_hosts ps_hosts (record dj { tf_job = pod_job b w dj (ready t) i })
  unfolding host
  next-Tells t i =
      let template = pod_template b w dj (ready t) i in
      let dj' : DistributedJob = record dj { tf_job = pod_job b w dj (ready t) i } in
      let h = t.templates.distributed in
      let (workers, servers) = replicas-retemplated b w dj.tf_job h template in
      record {
        templates = record {
          distributed = retemplated-IsDistributed b w dj.tf_job h template;
          filled = λ w'.
              IsFilled-retemplated b w w' dj.tf_job h template ((_, refl), (_, _, refl))
                (t.templates.filled w');
        };
        worker_flag_lem =
            ap (hosts_flag "--worker_hosts=") (
              hosts_from-same tf_replica_worker
                (rounds (worker_replicas b (retemplated-IsDistributed b w dj.tf_job h template))) 0
                dj dj' (λ j. refl)
              ∙ ap (λ z. hosts_from dj tf_replica_worker 0 (rounds z)) workers)
            ∙ t.worker_flag_lem;
        ps_flag_lem =
            ap (hosts_flag "--ps_hosts=") (
              hosts_from-same tf_replica_ps
                (rounds (ps_replicas b (retemplated-IsDistributed b w dj.tf_job h template))) 0 dj
                dj' (λ j. refl)
              ∙ ap (λ z. hosts_from dj tf_replica_ps 0 (rounds z)) servers)
            ∙ t.ps_flag_lem;
      }

module _ (p : Platform) (key : String) (b : Bool) (worker_hosts ps_hosts : String) where
  abbrev pub calls : Sync p → List Call
  calls sy = sy.session.calls

  -- What a part of the management of the job comes to: what it asks for are pods that are told of these
  -- hosts, and it ends on a job that goes on telling them, or with an error.
  abbrev pub Telling : Sync p → Outcome (Unit {0}) × Managed p → Type 0
  Telling sy (r, s) =
      Added (IsTold worker_hosts ps_hosts) (calls sy) (calls s.1)
      × (((r ≡ ok tt) × Tells b worker_hosts ps_hosts s.0) ⊎ ((e : Err) × (r ≡ fail e)))

  Telling-cons :
      (call : Call) (sy : Sync p) (end : Outcome (Unit {0}) × Managed p)
      → IsTold worker_hosts ps_hosts call
      → Telling (asked p call sy) end
      → Telling sy end
  Telling-cons call sy end h (added, ends) = (
    Added-trans (IsTold worker_hosts ps_hosts) (calls sy) (calls (asked p call sy)) (calls end.1.1)
        (call ∷ [], refl, (h, tt)) added,
    ends,
  )

  -- The loop over the pods of a type asks for pods that are all told the same.
  pub add_pods-Telling :
      (w : Bool) (n i : ℕ) (dj : DistributedJob) (sy : Sync p)
      → Tells b worker_hosts ps_hosts dj
      → Telling sy (add_pods p key (type_of w) i n (dj, sy))
  unfolding add_pods
  add_pods-Telling w zero i dj sy t =
      (Added-none (IsTold worker_hosts ps_hosts) (calls sy), inl (refl, t))
  add_pods-Telling w (suc n) i dj sy t =
      let h = ready b w worker_hosts ps_hosts dj t in
      let call = pod_call b w dj h i in
      let told = call-IsTold b w worker_hosts ps_hosts dj t i in
      let dj' : DistributedJob = record dj { tf_job = pod_job b w dj h i } in
      elim (Option-cases (p.cluster.respond call sy.session.world).0) [
        | inl e ↦
            rw (add_pod-created p b w key i dj sy h e, add_pods)
              (Telling-cons call sy (add_pods p key (type_of w) (suc i) n (dj', asked p call sy))
                told
                (add_pods-Telling w n (suc i) dj' (asked p call sy)
                  (next-Tells b w worker_hosts ps_hosts dj t i)))
        | inr (x, e) ↦
            rw (add_pod-refused p b w key i dj sy h e, add_pods)
              ((call ∷ [], refl, (told, tt)), inr (x, refl))
      ]
