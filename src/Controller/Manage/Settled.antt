-- ===== src/Controller/Manage/Settled.antt =====
-- Managing a local job that has its pod.
use kubeflow_controller.Common.{
  String, Bool, true, List, [], ◌∷◌, ◌≡◌, ◌⊎◌, inl, inr, refl, ap, ◌∙◌, arith, length, ◌==◌, ◌||◌,
  eq_iff, str_eq, if◌then◌else◌, if_true,
}
use mathlib.Core.Path.{ap₂}
use kubeflow_controller.Common.Int.{pos, ltb_ℤ, int32}
use kubeflow_controller.Common.Outcome.{Outcome, ok}
use kubeflow_controller.Common.Go.{◌>>=◌, resume}
use kubeflow_controller.Api.{Pod, TfJob}
use kubeflow_controller.Checker.{is_local_job}
use kubeflow_controller.Platform.{Platform, Sync}
use kubeflow_controller.Tensorflow.Types.{Event, nothing_event}
use kubeflow_controller.Tensorflow.Local.{LocalJob, new_local_job}
use kubeflow_controller.Tensorflow.Local
use kubeflow_controller.Tensorflow.Local.Needs.{HasTemplate, local_action_asks, local_action_quiet}
use kubeflow_controller.Controller.Util.{get_status, pod_succeeded}
use kubeflow_controller.Controller.Manage.{
  manage_tf_job, manage_kind, manage_local, manage_local_action,
}

-- The pod is active, or it has succeeded.
abbrev pub Serves : Platform → Pod → Type 0
Serves p pod =
    (length (p.machinery.filter_active_pods (pod ∷ [])) ≡ 1) ⊎ (pod.phase ≡ pod_succeeded)

pub succeeded_one :
    (pod : Pod)
    → (get_status (pod ∷ [])).0 ≡ (if str_eq pod_succeeded pod.phase then pos 1 else pos 0)
unfolding get_status int32
succeeded_one pod = ground arith

module _ (p : Platform) (job : TfJob) (pod : Pod) where
  open p use {machinery, names}

  serving-asks_nothing :
      Serves p pod
      → (ltb_ℤ (pos 0) (get_status (pod ∷ [])).0
          || length (machinery.filter_active_pods (pod ∷ [])) == 1)
        ≡ true
  serving-asks_nothing (inl e) = ground arith
  serving-asks_nothing (inr e) = ground (arith, succeeded_one pod, eq_iff pod_succeeded pod.phase)

  module _ (s : Sync p) (h : HasTemplate job) (serves : Serves p pod) where
    abbrev actives : List Pod
    actives = machinery.filter_active_pods (pod ∷ [])

    abbrev lj : LocalJob
    lj = new_local_job job actives (get_status (pod ∷ [])).0

    no_event : (Local.action names (lj, s.gen)).0 ≡ ok nothing_event
    no_event =
        local_action_asks names job actives (get_status (pod ∷ [])).0 s.gen h
        ∙ ap ok (if_true _ _ (serving-asks_nothing serves))

    -- What manageTFJob does after Action has answered.
    abbrev after_plan :
        String → Outcome Event × (LocalJob × names.Gen) → Outcome (Unit {0}) × (TfJob × Sync p)
    after_plan key x =
        resume x.0 (λ event. manage_local_action p key event.action event.number)
          (x.1.0.tf_job, record s { gen = x.1.1 })

    planned :
        (key : String)
        → manage_local p key actives (get_status (pod ∷ [])).0 (job, s)
          ≡ after_plan key (Local.action names (lj, s.gen))
    unfolding manage_local
    planned key = refl

    nothing_done :
        (key : String) (x : Outcome Event × (LocalJob × names.Gen))
        → x.0 ≡ ok nothing_event
        → x.1.0.tf_job ≡ job
        → x.1.1 ≡ s.gen
        → after_plan key x ≡ (ok tt, (job, s))
    unfolding manage_local_action
    nothing_done key x e same_job same_gen =
        ap
          (λ r.
            resume r (λ event. manage_local_action p key event.action event.number)
              (x.1.0.tf_job, record s { gen = x.1.1 }))
          e
        ∙ ap₂ (λ job gen. (ok tt, (job, record s { gen = gen }))) same_job same_gen

    manage_local-settled :
        (key : String)
        → manage_local p key actives (get_status (pod ∷ [])).0 (job, s) ≡ (ok tt, (job, s))
    manage_local-settled key =
        let (same_job, same_gen) =
          local_action_quiet names job actives (get_status (pod ∷ [])).0 s.gen h no_event in
        planned key ∙ nothing_done key (Local.action names (lj, s.gen)) no_event same_job same_gen

    -- manageTFJob has nothing to do for the job.
    pub manage_tf_job-settled :
        {key : String}
        → is_local_job job ≡ ok true
        → machinery.key_func job.metadata ≡ ok key
        → manage_tf_job p actives
            (machinery.filter_active_pods [])
            []
            []
            (get_status (pod ∷ [])).0
            (job, s)
          ≡ (ok tt, (job, s))
    unfolding manage_tf_job manage_kind
    manage_tf_job-settled {key} kind made =
        let by_kind = λ (key : String) (local : Bool).
          manage_kind p actives (machinery.filter_active_pods []) [] [] (get_status (pod ∷ [])).0
            key local in
        ap
          (λ r.
            resume r (λ key. (λ (t : TfJob × Sync p). (is_local_job t.0, t)) >>= by_kind key)
              (job, s))
          made
        ∙ ap (λ r. resume r (by_kind key) (job, s)) kind
        ∙ manage_local-settled key
