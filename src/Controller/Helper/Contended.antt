-- ===== src/Controller/Helper/Contended.antt =====
-- The services of a job are claimed twice in a sync, by the labels of the workers and by those of the
-- parameter servers: what belongs to the one claim is released by the other.
use kubeflow_controller.Common.{
  String, Bool, true, false, some, none, List, [], ◌∷◌, ◌++◌, ◌≡◌, ◌≢◌, ◌⊎◌, inl, inr, refl, ap,
  sym, ◌∙◌, arith, eq_iff,
}
use mathlib.Core.List.{append_assoc}
use mathlib.Core.Path.{subst}
use kubeflow_controller.Common.Map.{Map}
use kubeflow_controller.Common.Outcome.{ok}
use kubeflow_controller.Api.{OwnerReference, ObjectMeta, Service, TfJob}
use kubeflow_controller.Platform.{Platform}
use kubeflow_controller.Platform.Cluster.{Session, Call}
use kubeflow_controller.Platform.Machinery.{SelectorLaws}
use kubeflow_controller.Platform.Requests.{HasPatch, HasPatch-left, HasPatch-right}
use kubeflow_controller.Ref.Service.{new_service_controller_ref_manager, matches, label_set}
use kubeflow_controller.Ref.Spec.{sent, sent-calls, verdict_of}
use kubeflow_controller.Ref.Verdict.{Verdict, keeps, leaves, adopts, releases, patches}
use kubeflow_controller.Controller.Labels.{match_labels}
use kubeflow_controller.Controller.Labels.Apart.{other_type-not_found}
use kubeflow_controller.Controller.Helper.{get_services_for_tf_job}
use kubeflow_controller.Controller.Helper.Services.{
  IsOpen, manager, patches_by, get_services-sent, get_services-grows,
}

-- A service that the job owns, or that nobody does; neither is being deleted.
pub record IsAtHand (p : Platform) (job : TfJob) (service : Service) : Type 0 where
  pub job_stays : job.metadata.deletion_timestamp ≡ none
  pub service_stays : service.metadata.deletion_timestamp ≡ none
  pub ours :
      (p.machinery.get_controller_of service.metadata ≡ none)
      ⊎ ((ref : OwnerReference) × (p.machinery.get_controller_of service.metadata ≡ some ref)
          × (ref.uid ≡ job.metadata.uid))

module _ (p : Platform) (job : TfJob) where
  open p use {machinery, cluster}

  abbrev pub verdict_by : (Map String → Bool) → Service → Verdict
  verdict_by selector = verdict_of machinery cluster (manager p job selector) []

  one_patch :
      (selector : Map String → Bool) (meta : ObjectMeta) (v : Verdict)
      → let calls = patches machinery cluster (manager p job selector) meta v in
        (calls ≡ []) ⊎ HasPatch calls
  one_patch selector meta keeps = inl refl
  one_patch selector meta leaves = inl refl
  one_patch selector meta adopts = inr ([], meta.namespace, meta.name, _, [], refl)
  one_patch selector meta releases = inr ([], meta.namespace, meta.name, _, [], refl)

  either_part :
      (xs ys : List Call)
      → ((xs ≡ []) ⊎ HasPatch xs)
      → ((ys ≡ []) ⊎ HasPatch ys)
      → ((xs ++ ys ≡ []) ⊎ HasPatch (xs ++ ys))
  either_part xs ys (inl e) (inl e') = inl (ap (λ zs. zs ++ ys) e ∙ e')
  either_part xs ys (inl e) (inr h) = inr (HasPatch-right xs ys h)
  either_part xs ys (inr h) k = inr (HasPatch-left xs ys h)

  -- The requests of a claim are patches.
  some_patch :
      (selector : Map String → Bool) (services : List Service)
      → let calls = patches_by p job selector services in (calls ≡ []) ⊎ HasPatch calls
  some_patch selector [] = inl refl
  some_patch selector (service ∷ services) =
      either_part _ (patches_by p job selector services)
        (one_patch selector service.metadata (verdict_by selector service))
        (some_patch selector services)

  patch_among :
      (selector : Map String → Bool) (before : List Service) (service : Service)
      (after : List Service)
      → HasPatch (
          patches machinery cluster
            (manager p job selector)
            service.metadata
            (verdict_by selector service))
      → HasPatch (patches_by p job selector (before ++ service ∷ after))
  patch_among selector [] service after h = HasPatch-left _ (patches_by p job selector after) h
  patch_among selector (other ∷ before) service after h =
      HasPatch-right _ (patches_by p job selector (before ++ service ∷ after))
        (patch_among selector before service after h)

  module _ (selector : Map String → Bool) (service : Service)
      (at_hand : IsAtHand p job service) where
    adopted :
        machinery.get_controller_of service.metadata ≡ none
        → selector (label_set service.metadata.labels) ≡ true
        → verdict_by selector service ≡ adopts
    unfolding matches new_service_controller_ref_manager
    adopted none_yet found =
        let a = at_hand.job_stays in let b = at_hand.service_stays in ground arith

  -- The job's own service that is not selected is released.
  pub released :
      (selector : Map String → Bool) (service : Service) {ref : OwnerReference}
      → job.metadata.deletion_timestamp ≡ none
      → machinery.get_controller_of service.metadata ≡ some ref
      → ref.uid ≡ job.metadata.uid
      → selector (label_set service.metadata.labels) ≡ false
      → verdict_by selector service ≡ releases
  unfolding matches new_service_controller_ref_manager
  released selector service {ref} stays owned same missed =
      ground (arith, eq_iff ref.uid job.metadata.uid)

  module _ (is_open : IsOpen p job) (laws : SelectorLaws machinery) (typ typ' : String)
      (differ : typ ≢ typ') {selector selector' : Map String → Bool}
      (made : machinery.label_selector (match_labels job typ) ≡ ok selector)
      (made' : machinery.label_selector (match_labels job typ') ≡ ok selector')
      (before : List Service) (service : Service) (after : List Service)
      (at_hand : IsAtHand p job service)
      (found : (selector (label_set service.metadata.labels) ≡ true)
        ⊎ (selector' (label_set service.metadata.labels) ≡ true)) where
    ls : Map String
    ls = label_set service.metadata.labels

    abbrev services : List Service
    services = before ++ service ∷ after

    adopting :
        (selector : Map String → Bool)
        → machinery.get_controller_of service.metadata ≡ none
        → selector ls ≡ true
        → HasPatch (patches_by p job selector services)
    unfolding ls
    adopting selector none_yet e = patch_among selector before service after (
        subst
          (λ v. HasPatch (patches machinery cluster (manager p job selector) service.metadata v))
          (sym (adopted selector service at_hand none_yet e))
          ([], service.metadata.namespace, service.metadata.name, _, [], refl))

    releasing :
        (selector : Map String → Bool) {ref : OwnerReference}
        → machinery.get_controller_of service.metadata ≡ some ref
        → ref.uid ≡ job.metadata.uid
        → selector ls ≡ false
        → HasPatch (patches_by p job selector services)
    unfolding ls
    releasing selector owned same e = patch_among selector before service after (
        subst
          (λ v. HasPatch (patches machinery cluster (manager p job selector) service.metadata v))
          (sym (released selector service at_hand.job_stays owned same e))
          ([], service.metadata.namespace, service.metadata.name, _, [], refl))

    -- One of the two claims is not content with the services as they are listed.
    one_claims :
        HasPatch (patches_by p job selector services)
        ⊎ HasPatch (patches_by p job selector' services)
    unfolding ls
    one_claims = elim at_hand.ours [
      | inl none_yet ↦ elim found [
        | inl e ↦ inl (adopting selector none_yet e)
        | inr e ↦ inr (adopting selector' none_yet e)
      ]
      | inr (ref, owned, same) ↦ elim found [
        | inl e ↦ inr (
            releasing selector' owned same
              (other_type-not_found machinery laws job job typ typ' made made' ls e differ))
        | inr e ↦ inl (
            releasing selector owned same (
              other_type-not_found machinery laws job job typ' typ made' made ls e
                (λ same_typ. differ (sym same_typ))))
      ]
    ]

    module _ (s : Session cluster)
        (listing : cluster.list_services job.metadata.namespace s.world ≡ ok services) where
      between : Session cluster
      between = (get_services_for_tf_job p job typ s).1

      between_lem : between ≡ sent machinery cluster (patches_by p job selector services) s
      unfolding between
      between_lem = ap (λ x. x.1) (get_services-sent p job is_open typ made s services listing)

      end : Session cluster
      unfolding between
      end = (get_services_for_tf_job p job typ' between).1

      abbrev Patched : Type 0
      Patched = (new : List Call) × (end.calls ≡ s.calls ++ new) × HasPatch new

      first_patches : HasPatch (patches_by p job selector services) → Patched
      unfolding end
      first_patches h =
          let first = patches_by p job selector services in
          let (later, e) = get_services-grows p job is_open typ' made' between in
          (
            first ++ later,
            e
                ∙ ap (λ t. t.calls ++ later) between_lem
                ∙ ap (λ calls. calls ++ later) (sent-calls machinery cluster first s)
                ∙ append_assoc s.calls first later,
            HasPatch-left first later h,
          )

      second_patches :
          patches_by p job selector services ≡ []
          → HasPatch (patches_by p job selector' services)
          → Patched
      unfolding end
      second_patches e h =
          let second = patches_by p job selector' services in
          let same : between ≡ s = between_lem ∙ ap (λ calls. sent machinery cluster calls s) e in
          (
            second,
            ap (λ t. (get_services_for_tf_job p job typ' t).1.calls) same
                ∙ ap (λ x. x.1.calls)
                    (get_services-sent p job is_open typ' made' s services listing)
                ∙ sent-calls machinery cluster second s,
            h,
          )

      -- The two claims of one sync patch a service.
      pub claims-patch :
          let between = (get_services_for_tf_job p job typ s).1 in
          let end = (get_services_for_tf_job p job typ' between).1 in
          (new : List Call) × (end.calls ≡ s.calls ++ new) × HasPatch new
      unfolding end between
      claims-patch = elim one_claims [
        | inl h ↦ first_patches h
        | inr h ↦ elim (some_patch selector services) [
          | inl e ↦ second_patches e h
          | inr k ↦ first_patches k
        ]
      ]
