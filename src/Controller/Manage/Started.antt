-- ===== src/Controller/Manage/Started.antt =====
-- Managing a local job that has no pod yet.
use kubeflow_controller.Common.{String, Bool, true, none, some, [], ◌≡◌, refl, ap, ◌∙◌, arith}
use kubeflow_controller.Common.Int.{pos}
use kubeflow_controller.Common.Outcome.{Outcome, ok, fail, Err, index}
use kubeflow_controller.Common.Go.{◌>>=◌, resume}
use kubeflow_controller.Api.{PodTemplateSpec, TfJob, set_runtime_id}
use kubeflow_controller.Checker.{is_local_job}
use kubeflow_controller.Platform.{Platform, Sync}
use kubeflow_controller.Platform.Cluster.{Session, Call, result, invoke, create_pod}
use kubeflow_controller.Tensorflow.Types.{Event}
use kubeflow_controller.Tensorflow.Local.{LocalJob, new_local_job}
use kubeflow_controller.Tensorflow.Local
use kubeflow_controller.Tensorflow.Local.Needs.{HasTemplate, composed, local_action_starts}
use kubeflow_controller.Controller.Labels.{match_labels}
use kubeflow_controller.Controller.Util.{new_controller_ref}
use kubeflow_controller.Controller.Manage.{
  expect, observe, lowered, add_local_pod, manage_local, manage_local_action, manage_kind,
  manage_tf_job,
}

module _ (p : Platform) (job : TfJob) (h : HasTemplate job) (id : String) where
  open p use {machinery, cluster, names}

  -- The job under this runtime ID, and its template.
  abbrev pub started : TfJob
  started = composed names job h id

  abbrev pub template_of : PodTemplateSpec
  template_of = record h.template { labels = some (match_labels (set_runtime_id id job) h.typ) }

  -- The one pod that is asked for.
  abbrev pub request : Call
  request = create_pod job.metadata.namespace template_of (new_controller_ref started)

  first_spec : index started.spec.specs (pos 0) ≡ ok (record h.spec { template = some template_of })
  first_spec = ground arith

  -- The pod is asked for, and its creation expected before.
  abbrev pub asked : String → Sync p → Outcome (Unit {0}) × Sync p
  asked key s =
      let (answer, session) = invoke cluster request s.session in
      lowered p key (answer, record (expect p key (pos 1) s) { session = session })

  add_local_pod-asks :
      (key : String) (s : Sync p)
      → add_local_pod p key (pos 1) (started, s) ≡ ((asked key s).0, (started, (asked key s).1))
  unfolding add_local_pod expect
  add_local_pod-asks key s = rw (first_spec, add_local_pod) refl

module _ (p : Platform) (job : TfJob) (h : HasTemplate job) (s : Sync p) where
  open p use {machinery, names}

  -- The name generator and the runtime ID after the plan.
  abbrev pub fresh_id : String
  fresh_id = (names.generate "" s.gen).0

  abbrev pub drawn : Sync p
  drawn = record s { gen = (names.generate "" s.gen).1 }

  -- What is left of a method on the job, which is then the composed one.
  abbrev pub with_job : Outcome (Unit {0}) × Sync p → Outcome (Unit {0}) × (TfJob × Sync p)
  with_job (r, t) = (r, (started p job h fresh_id, t))

  abbrev after_plan :
      String → Outcome Event × (LocalJob × names.Gen) → Outcome (Unit {0}) × (TfJob × Sync p)
  after_plan key x =
      resume x.0 (λ event. manage_local_action p key event.action event.number)
        (x.1.0.tf_job, record s { gen = x.1.1 })

  planned :
      (key : String)
      → manage_local p key [] (pos 0) (job, s)
        ≡ after_plan key (Local.action names (new_local_job job [] (pos 0), s.gen))
  unfolding manage_local
  planned key = refl

  starts :
      (key : String)
      → after_plan key (Local.action names (new_local_job job [] (pos 0), s.gen))
        ≡ add_local_pod p key (pos 1) (started p job h fresh_id, drawn)
  unfolding manage_local_action
  starts key = ap (after_plan key) (local_action_starts names job s.gen h)

  manage_local-asks :
      (key : String)
      → manage_local p key [] (pos 0) (job, s) ≡ with_job (asked p job h fresh_id key drawn)
  manage_local-asks key = planned key ∙ starts key ∙ add_local_pod-asks p job h fresh_id key drawn

  -- manageTFJob asks for the pod.
  pub manage_tf_job-asks :
      {key : String}
      → is_local_job job ≡ ok true
      → machinery.key_func job.metadata ≡ ok key
      → manage_tf_job p [] [] [] [] (pos 0) (job, s) ≡ with_job (asked p job h fresh_id key drawn)
  unfolding manage_tf_job manage_kind
  manage_tf_job-asks {key} kind made =
      let by_kind = λ (key : String) (local : Bool). manage_kind p [] [] [] [] (pos 0) key local in
      ap
        (λ r.
          resume r (λ key. (λ (t : TfJob × Sync p). (is_local_job t.0, t)) >>= by_kind key)
            (job, s))
        made
      ∙ ap (λ r. resume r (by_kind key) (job, s)) kind
      ∙ manage_local-asks key

module _ (p : Platform) (job : TfJob) (h : HasTemplate job) (id key : String) (s : Sync p) where
  open p use {cluster, expectations}

  -- The session after the pod was asked for.
  abbrev pub after_request : Session cluster
  after_request = (invoke cluster (request p job h id) s.session).1

  pub asked-taken :
      (cluster.respond (request p job h id) s.session.world).0 ≡ none
      → asked p job h id key s
        ≡ (ok tt, record (expect p key (pos 1) s) { session = after_request })
  unfolding invoke
  asked-taken e =
      ap
        (λ o. lowered p key (result o, record (expect p key (pos 1) s) { session = after_request }))
        e

  pub asked-refused :
      {e : Err}
      → (cluster.respond (request p job h id) s.session.world).0 ≡ some e
      → asked p job h id key s
        ≡ (fail e, observe p key (record (expect p key (pos 1) s) { session = after_request }))
  unfolding invoke
  asked-refused e =
      ap
        (λ o. lowered p key (result o, record (expect p key (pos 1) s) { session = after_request }))
        e
